-- ===== src/Middleware/Tests.antt =====
-- Middlewares that note their call and hand on what they get.
use telnet.Prelude.{ℕ, ◌≡◌, refl, List, [], ◌∷◌, ◌++◌, arith}
use telnet.Middleware.{
  Outcome, done, running, new_middleware_stack, queue_middleware, push_middleware,
  remove_middleware, line_in, chain,
}
use telnet.Middleware.Order.{made, queued}
use telnet.Middleware.Chain.{line_in-chain}
use telnet.Middleware.Broken.{pushed_never_ends}

abbrev note : ℕ → (ℕ → List ℕ → Outcome (List ℕ)) → ℕ → List ℕ → Outcome (List ℕ)
note m next d s = next d (s ++ (m ∷ []))

abbrev put : ℕ → List ℕ → Outcome (List ℕ)
put d s = done (s ++ (d ∷ []))

line_in-chain_example :
    line_in (List ℕ) ℕ note put 3 (queue_middleware 3 (new_middleware_stack (1 ∷ 2 ∷ [])))
    ≡ chain (List ℕ) ℕ note put (queue_middleware 3 (new_middleware_stack (1 ∷ 2 ∷ []))).middlewares
unfolding queue_middleware new_middleware_stack
line_in-chain_example =
    line_in-chain (List ℕ) ℕ note put (queue_middleware 3 (new_middleware_stack (1 ∷ 2 ∷ []))) 3
      (queued 3 (new_middleware_stack (1 ∷ 2 ∷ [])) (made (1 ∷ 2 ∷ []))) (omega arith)

pushed_never_ends_example :
    line_in (List ℕ) ℕ note put 100 (push_middleware 3 (new_middleware_stack (1 ∷ 2 ∷ []))) 9 []
    ≡ running
unfolding new_middleware_stack
pushed_never_ends_example =
    pushed_never_ends (List ℕ) ℕ note put (λ m. refl) (new_middleware_stack (1 ∷ 2 ∷ [])) 3 100 9 []
      (made (1 ∷ 2 ∷ [])) (omega arith)

-- The first of four taken away: the second is passed over.
passed_over_test :
    line_in
      (List ℕ)
      ℕ
      note
      put
      5
      (remove_middleware 1 (new_middleware_stack (1 ∷ 2 ∷ 3 ∷ 4 ∷ [])))
      9
      []
    ≡ done (3 ∷ 4 ∷ 9 ∷ [])
unfolding line_in remove_middleware new_middleware_stack
passed_over_test = refl
