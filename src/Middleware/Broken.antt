-- ===== src/Middleware/Broken.antt =====
-- middleware.go: when the wrappers, which read the stack by indices, no longer fit it.
use telnet.Prelude.{
  ℕ, zero, suc, ◌≤◌, ◌≡◌, refl, ap, ◌∙◌, true, none, some, List, [], ◌∷◌, ◌==◌, length, get_elem?,
  arith,
}
use telnet.Middleware.{
  Outcome, Wrapper, last, indexed, pushed_on, MiddlewareStack, new_middleware_stack,
  push_middleware, push_wrapper, remove_middleware, middleware_index, call, line_in, panicked,
  running,
}
use telnet.Middleware.Order.{Ordered, Built, Built-Ordered}

removed_first :
    (a b c : ℕ)
    → remove_middleware a (new_middleware_stack (a ∷ (b ∷ (c ∷ []))))
      ≡ record { middlewares = b ∷ (c ∷ []); wrappers = indexed 1 ∷ (last ∷ []) }
unfolding remove_middleware new_middleware_stack middleware_index
removed_first a b c =
    let itself : a == a ≡ true = ground arith in
    let first : middleware_index a (a ∷ (b ∷ (c ∷ []))) ≡ some 0 =
      rw (itself, middleware_index) refl in
    rw (first, remove_middleware) refl

push_wrapper_first :
    (m : ℕ) (ws : List Wrapper) (w : Wrapper)
    → get_elem? ws 0 ≡ some w
    → (get_elem? (push_wrapper m ws) 0 ≡ some (pushed_on m w))
      × (get_elem? (push_wrapper m ws) 1 ≡ some w)
push_wrapper_first m [] w e = ground arith
push_wrapper_first m (x ∷ ws) w e =
    (ap (λ o. elim o [ none ↦ none | some v ↦ some (pushed_on m v) ]) e, e)

module _ (S D : Type 0) (handle : ℕ → (D → S → Outcome S) → D → S → Outcome S)
    (line_out : D → S → Outcome S) where
  -- After RemoveMiddleware of the first of three middlewares that NewMiddlewareStack got, LineIn
  -- panics.
  removed_first_panics :
      (a b c fuel : ℕ) (d : D) (s : S)
      → line_in S D handle line_out
          (suc fuel)
          (remove_middleware a (new_middleware_stack (a ∷ (b ∷ (c ∷ [])))))
          d
          s
        ≡ panicked
  unfolding line_in
  removed_first_panics a b c fuel d s =
      ap (λ stack. line_in S D handle line_out (suc fuel) stack d s) (removed_first a b c)

  module _ (hands_on : (m : ℕ) → handle m (λ d s. running) ≡ (λ d s. running)) where
    -- The wrapper that was first calls the middleware that now is, and then itself.
    call_first_runs :
        (m n : ℕ) (stack : MiddlewareStack)
        → get_elem? stack.wrappers 0 ≡ some (indexed 0)
        → call S D handle line_out n (push_middleware m stack) (indexed 0) ≡ (λ d s. running)
    unfolding call push_middleware
    call_first_runs m zero stack e = refl
    call_first_runs m (suc n) stack e =
        let next : get_elem? (push_wrapper m stack.wrappers) 1 ≡ some (indexed 0) =
          (push_wrapper_first m stack.wrappers (indexed 0) e).1 in
        rw (next, call) (ap (handle m) (call_first_runs m n stack e) ∙ hands_on m)

    -- After PushMiddleware on such a stack of two middlewares or more, LineIn runs out of any fuel,
    -- when a middleware runs on for as long as the one that it calls.
    pub pushed_never_ends :
        (stack : MiddlewareStack) (m fuel : ℕ) (d : D) (s : S)
        → Built stack
        → 2 ≤ length stack.middlewares
        → line_in S D handle line_out fuel (push_middleware m stack) d s ≡ running
    unfolding line_in push_middleware call
    pushed_never_ends stack m zero d s built h =
        let first : get_elem? stack.wrappers 0 ≡ some (indexed 0) =
          (Built-Ordered stack built).inner 0 (omega (arith, h)) in
        rw ((push_wrapper_first m stack.wrappers (indexed 0) first).0, line_in) refl
    pushed_never_ends stack m (suc fuel) d s built h =
        let o : Ordered stack = Built-Ordered stack built in
        let first : get_elem? stack.wrappers 0 ≡ some (indexed 0) = o.inner 0 (omega (arith, h)) in
        rw ((push_wrapper_first m stack.wrappers (indexed 0) first).0, line_in)
          (ap (λ next. next d s) (ap (handle m) (call_first_runs m fuel stack first) ∙ hands_on m))
