-- ===== src/Middleware/Order.antt =====
-- middleware.go: when the wrappers call the middlewares in their order.
use telnet.Prelude.{
  ℕ, zero, suc, ◌+◌, ◌-◌, ◌<◌, ◌≤◌, ◌≡◌, refl, sym, ap, ◌∙◌, subst, true, some, List, [], ◌∷◌, ◌++◌,
  ◌==◌, length, get_elem?, set, length-set, length-append, length-replicate, get_elem?-set,
  get_elem?-set_other, get_elem?-append_end, replicate, leb, arith, Bool-cases, inl, inr,
}
use telnet.Middleware.{
  Wrapper, unset, last, indexed, ends_at, to_end, MiddlewareStack, rebuild_middlewares,
  new_middleware_stack, queue_middleware, middleware_index, delete_at, remove_middleware,
}

-- The wrapper calls the last middleware, and that one the end.
abbrev pub Ends : List ℕ → Wrapper → Type 0
Ends ms last = Unit {0}
Ends ms (ends_at i) = i ≡ length ms - 1
Ends ms (to_end m) = get_elem? ms (length ms - 1) ≡ some m
Ends ms _ = ⊥

-- Each wrapper but the last one reads its middleware and the next wrapper by its index.
pub record Ordered (stack : MiddlewareStack) : Type 0 where
  pub size : length stack.wrappers ≡ length stack.middlewares
  pub inner :
      (i : ℕ) → suc i < length stack.middlewares → get_elem? stack.wrappers i ≡ some (indexed i)
  pub outer :
      0 < length stack.middlewares
      → (w : Wrapper) × (get_elem? stack.wrappers (length stack.middlewares - 1) ≡ some w)
        × Ends stack.middlewares w

module _ {ℓ} {A : Type ℓ} where
  length-delete_at :
      (n : ℕ) (xs : List A) → n < length xs → suc (length (delete_at n xs)) ≡ length xs
  length-delete_at n [] h = absurd (omega arith)
  length-delete_at zero (x ∷ xs) h = refl
  length-delete_at (suc n) (x ∷ xs) h = ap suc (length-delete_at n xs (omega (arith, h)))

length-rebuild_middlewares :
    (n : ℕ) (ws : List Wrapper) → length (rebuild_middlewares n ws) ≡ length ws
unfolding rebuild_middlewares
length-rebuild_middlewares zero ws = refl
length-rebuild_middlewares (suc n) ws =
    length-rebuild_middlewares n (set ws n (indexed n)) ∙ length-set ws n (indexed n)

rebuilt_behind :
    (n : ℕ) (ws : List Wrapper) (i : ℕ)
    → n ≤ i
    → get_elem? (rebuild_middlewares n ws) i ≡ get_elem? ws i
unfolding rebuild_middlewares
rebuilt_behind zero ws i h = refl
rebuilt_behind (suc n) ws i h =
    rebuilt_behind n (set ws n (indexed n)) i (omega (arith, h))
    ∙ get_elem?-set_other ws n i (indexed n) (omega (arith, h))

rebuilt_before :
    (n : ℕ) (ws : List Wrapper) (i : ℕ)
    → i < n
    → n ≤ length ws
    → get_elem? (rebuild_middlewares n ws) i ≡ some (indexed i)
unfolding rebuild_middlewares
rebuilt_before zero ws i h k = absurd (omega arith)
rebuilt_before (suc n) ws i h k = elim (Bool-cases (i == n)) [
  | inl e ↦
      let same : n ≡ i = ground arith in
      rebuilt_behind n (set ws n (indexed n)) i (omega (arith, same))
      ∙ subst (λ j. get_elem? (set ws n (indexed n)) j ≡ some (indexed j)) same
          (get_elem?-set ws n (indexed n) (omega (arith, k)))
  | inr ne ↦
      rebuilt_before n (set ws n (indexed n)) i (ground arith)
        (omega (arith, k, length-set ws n (indexed n)))
]

-- A rebuilt stack, whose last wrapper ends the chain.
rebuilt-Ordered :
    (ms : List ℕ) (ws : List Wrapper) (w : Wrapper)
    → length ws ≡ length ms
    → get_elem? ws (length ms - 1) ≡ some w
    → Ends ms w
    → Ordered (record { middlewares = ms; wrappers = rebuild_middlewares (length ms - 1) ws })
rebuilt-Ordered ms ws w size found ends = record {
  size = length-rebuild_middlewares (length ms - 1) ws ∙ size;
  inner = λ i h. rebuilt_before (length ms - 1) ws i (omega (arith, h)) (omega (arith, size));
  outer = λ h. (w, rebuilt_behind (length ms - 1) ws (length ms - 1) (omega arith) ∙ found, ends);
}

-- How a stack is built: from its first middlewares, by more of them at the end and by taking the last
-- one away.
pub data Built : MiddlewareStack → Type 0 where
  made : (ms : List ℕ) → Built (new_middleware_stack ms)
  queued : (m : ℕ) (stack : MiddlewareStack) → Built stack → Built (queue_middleware m stack)
  removed :
      (m : ℕ) (stack : MiddlewareStack)
      → Built stack
      → middleware_index m stack.middlewares ≡ some (length stack.middlewares - 1)
      → 0 < length stack.middlewares
      → Built (remove_middleware m stack)

new-Ordered : (ms : List ℕ) → Ordered (new_middleware_stack ms)
unfolding new_middleware_stack rebuild_middlewares
new-Ordered [] = record {
  size = refl;
  inner = λ i h. absurd (omega arith);
  outer = λ h. absurd (omega arith);
}
new-Ordered (m ∷ ms) =
    let made : List Wrapper = replicate (length (m ∷ ms)) unset in
    let size : length made ≡ length (m ∷ ms) = length-replicate (length (m ∷ ms)) unset in
    rebuilt-Ordered (m ∷ ms) (set made (length (m ∷ ms) - 1) last) last
      (length-set made (length (m ∷ ms) - 1) last ∙ size)
      (get_elem?-set made (length (m ∷ ms) - 1) last (omega (arith, size))) tt

queue-Ordered :
    (m : ℕ) (stack : MiddlewareStack) → Ordered stack → Ordered (queue_middleware m stack)
unfolding queue_middleware
queue-Ordered m stack o =
    let ms : List ℕ = stack.middlewares ++ (m ∷ []) in
    let count : length ms ≡ length stack.middlewares + 1 =
      length-append stack.middlewares (m ∷ []) in
    let at : length ms - 1 ≡ length stack.middlewares = omega (arith, count) in
    subst
      (λ n. Ordered (record {
        middlewares = ms;
        wrappers = rebuild_middlewares n (stack.wrappers ++ (to_end m ∷ []));
      }))
      at
      (rebuilt-Ordered ms (stack.wrappers ++ (to_end m ∷ [])) (to_end m)
        (omega (arith, o.size, count, length-append stack.wrappers (to_end m ∷ [])))
        (ap (get_elem? (stack.wrappers ++ (to_end m ∷ []))) (at ∙ sym o.size)
          ∙ get_elem?-append_end stack.wrappers [] (to_end m))
        (ap (get_elem? ms) at ∙ get_elem?-append_end stack.middlewares [] m))

remove-Ordered :
    (m : ℕ) (stack : MiddlewareStack)
    → Ordered stack
    → middleware_index m stack.middlewares ≡ some (length stack.middlewares - 1)
    → 0 < length stack.middlewares
    → Ordered (remove_middleware m stack)
unfolding remove_middleware
remove-Ordered m stack o found h =
    let at : ℕ = length stack.middlewares - 1 in
    let ms : List ℕ = delete_at at stack.middlewares in
    let ws : List Wrapper = delete_at at stack.wrappers in
    let ms_size : suc (length ms) ≡ length stack.middlewares =
      length-delete_at at stack.middlewares (omega arith) in
    let ws_size : suc (length ws) ≡ length stack.wrappers =
      length-delete_at at stack.wrappers (omega (arith, o.size)) in
    elim (Bool-cases (length ms == 0)) [
      | inl empty ↦
          let none_left : length ms ≡ 0 = ground arith in
          rw (found, empty, remove_middleware)
            (record {
              size = omega (arith, ms_size, ws_size, o.size);
              inner = λ i k. absurd (omega (arith, none_left));
              outer = λ k. absurd (omega (arith, none_left));
            })
      | inr more ↦
          let behind : leb (length ms) at ≡ true = ground arith in
          rw (found, more, behind, remove_middleware)
            (rebuilt-Ordered ms (set ws (length ms - 1) (ends_at (length ms - 1)))
              (ends_at (length ms - 1))
              (length-set ws (length ms - 1) (ends_at (length ms - 1))
                ∙ omega (arith, ms_size, ws_size, o.size))
              (get_elem?-set ws (length ms - 1) (ends_at (length ms - 1))
                (ground (arith, ms_size, ws_size, o.size)))
              refl)
    ]

pub Built-Ordered : (stack : MiddlewareStack) → Built stack → Ordered stack
Built-Ordered _ (made ms) = new-Ordered ms
Built-Ordered _ (queued m stack b) = queue-Ordered m stack (Built-Ordered stack b)
Built-Ordered _ (removed m stack b found h) = remove-Ordered m stack (Built-Ordered stack b) found h
