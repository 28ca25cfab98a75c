-- ===== src/Middleware/Chain.antt =====
-- middleware.go: `LineIn` hands what comes in to the first middleware, each one's to the next, and the
-- last one's to the end.
use telnet.Prelude.{
  ℕ, zero, suc, ◌+◌, ◌-◌, ◌<◌, ◌≤◌, ◌≡◌, refl, sym, ap, ap₂, ◌∙◌, none, some, List, [], ◌∷◌, ◌++◌,
  length, get_elem?, length-append, get_elem?-append, get_elem?-some, append_assoc, arith,
}
use telnet.Middleware.{
  Outcome, Wrapper, unset, last, indexed, ends_at, to_end, pushed_on, MiddlewareStack, call,
  line_in, handle_at, chain, panicked,
}
use telnet.Middleware.Order.{Ends, Ordered, Built, Built-Ordered}

same : {A : Type 0} (d x y : A) → some x ≡ some y → x ≡ y
same d x y e = ap (λ o. elim o [ none ↦ d | some v ↦ v ]) e

module _ (S D : Type 0) (handle : ℕ → (D → S → Outcome S) → D → S → Outcome S)
    (line_out : D → S → Outcome S) where
  handle_at_found :
      (ms : List ℕ) (i m : ℕ) (next : D → S → Outcome S)
      → get_elem? ms i ≡ some m
      → handle_at S D handle line_out ms i next ≡ handle m next
  handle_at_found ms i m next e =
      ap (λ o. elim o [ none ↦ λ d s. panicked | some m ↦ handle m next ]) e

  call-Ends :
      (n : ℕ) (stack : MiddlewareStack) (w : Wrapper) (m : ℕ)
      → Ends stack.middlewares w
      → get_elem? stack.middlewares (length stack.middlewares - 1) ≡ some m
      → call S D handle line_out (suc n) stack w ≡ handle m line_out
  unfolding call
  call-Ends n stack last m e found =
      handle_at_found stack.middlewares (length stack.middlewares - 1) m line_out found
  call-Ends n stack (ends_at i) m e found =
      handle_at_found stack.middlewares i m line_out (ap (get_elem? stack.middlewares) e ∙ found)
  call-Ends n stack (to_end k) m e found = ap (λ x. handle x line_out) (same k k m (sym e ∙ found))
  call-Ends n stack unset m e found = absurd e
  call-Ends n stack (indexed i) m e found = absurd e
  call-Ends n stack (pushed_on k w) m e found = absurd e

  -- The wrapper behind `front` calls the middlewares that are left.
  call-chain :
      (n : ℕ) (stack : MiddlewareStack) (front : List ℕ) (m : ℕ) (rest : List ℕ) (w : Wrapper)
      → Ordered stack
      → stack.middlewares ≡ front ++ (m ∷ rest)
      → get_elem? stack.wrappers (length front) ≡ some w
      → length rest < n
      → call S D handle line_out n stack w ≡ chain S D handle line_out (m ∷ rest)
  unfolding call
  call-chain zero stack front m rest w o e found h = absurd (omega arith)
  call-chain (suc n) stack front m [] w o e found h =
      let size : length stack.middlewares ≡ length front + 1 =
        ap length e ∙ length-append front (m ∷ []) in
      let at : length stack.middlewares - 1 ≡ length front = omega (arith, size) in
      let (v, stands, ends) = o.outer (omega (arith, size)) in
      let is_last : w ≡ v =
        same w w v (sym found ∙ (ap (get_elem? stack.wrappers) (sym at) ∙ stands)) in
      let m_found : get_elem? stack.middlewares (length stack.middlewares - 1) ≡ some m =
        ap₂ get_elem? e at ∙ get_elem?-append front (m ∷ []) (length front) 0 (omega arith) in
      ap (call S D handle line_out (suc n) stack) is_last ∙ call-Ends n stack v m ends m_found
  call-chain (suc n) stack front m (next ∷ rest) w o e found h =
      let size : length stack.middlewares ≡ length front + suc (suc (length rest)) =
        ap length e ∙ length-append front (m ∷ (next ∷ rest)) in
      let is_indexed : w ≡ indexed (length front) =
        same w w (indexed (length front))
          (sym found ∙ o.inner (length front) (omega (arith, size))) in
      let (v, stands) =
        get_elem?-some stack.wrappers (suc (length front)) (omega (arith, size, o.size)) in
      let longer : length (front ++ (m ∷ [])) ≡ suc (length front) =
        omega (arith, length-append front (m ∷ [])) in
      let m_found : get_elem? stack.middlewares (length front) ≡ some m =
        ap (λ ms. get_elem? ms (length front)) e
        ∙ get_elem?-append front (m ∷ (next ∷ rest)) (length front) 0 (omega arith) in
      ap (call S D handle line_out (suc n) stack) is_indexed
      ∙ (ap
            (λ w. elim w [
              | none ↦ λ d s. panicked
              | some w ↦
                  handle_at S D handle line_out stack.middlewares (length front)
                    (call S D handle line_out n stack w)
            ])
            stands
          ∙ (handle_at_found stack.middlewares (length front) m (call S D handle line_out n stack v)
                m_found
              ∙ ap (handle m) (
                  call-chain n stack (front ++ (m ∷ [])) next rest v o
                    (e ∙ sym (append_assoc front (m ∷ []) (next ∷ rest)))
                    (ap (get_elem? stack.wrappers) longer ∙ stands) (omega (arith, h)))))

  line_in_at :
      (n : ℕ) (stack : MiddlewareStack) (ms : List ℕ)
      → Ordered stack
      → stack.middlewares ≡ ms
      → length ms ≤ n
      → line_in S D handle line_out n stack ≡ chain S D handle line_out ms
  unfolding line_in
  line_in_at n stack [] o e h = rw (e, line_in) refl
  line_in_at n stack (m ∷ ms) o e h =
      let size : length stack.middlewares ≡ suc (length ms) = ap length e in
      let (w, found) = get_elem?-some stack.wrappers 0 (omega (arith, size, o.size)) in
      rw (e, found, line_in) (call-chain n stack [] m ms w o e found (omega (arith, h)))

  -- On a stack made by NewMiddlewareStack and changed by QueueMiddleware and by taking the last
  -- middleware away with RemoveMiddleware, LineIn, with fuel for a call of each middleware, hands
  -- what comes in to the first middleware, what each hands on to the next one, and what the last
  -- one hands on to the end.
  pub line_in-chain :
      (stack : MiddlewareStack) (fuel : ℕ)
      → Built stack
      → length stack.middlewares ≤ fuel
      → line_in S D handle line_out fuel stack ≡ chain S D handle line_out stack.middlewares
  line_in-chain stack fuel built h =
      line_in_at fuel stack stack.middlewares (Built-Ordered stack built) refl h
