-- ===== src/Middleware.antt =====
-- middleware.go: the stack of middlewares. A middleware is known by its identity; `handle` is its method,
-- over a state that holds all that it and `line_out` can change. A wrapper is the closure that the
-- stack keeps, by what it has captured; the stack is read when it is called.
pub mod Order
pub mod Chain
pub mod Broken
mod Tests
use telnet.Prelude.{
  ℕ, zero, suc, ◌+◌, ◌-◌, Bool, true, false, Option, none, some, List, [], ◌∷◌, ◌++◌, ◌==◌,
  if◌then◌else◌, length, get_elem?, set, replicate, ltb, leb,
}

-- `running` is that the fuel of calls ran out.
pub data Outcome {ℓ} (S : Type ℓ) : Type ℓ where
  done : S → Outcome S
  panicked : Outcome S
  running : Outcome S

pub data Wrapper : Type 0 where
  -- An entry that was made and not set yet.
  unset : Wrapper
  -- `middlewares[len(middlewares)-1].Handle(t, data, lineOut)`
  last : Wrapper
  -- `middlewares[i].Handle(t, data, middlewareWrappers[i+1])`
  indexed : ℕ → Wrapper
  -- `middlewares[i].Handle(t, data, lineOut)`
  ends_at : ℕ → Wrapper
  -- `middleware.Handle(t, data, lineOut)`
  to_end : ℕ → Wrapper
  -- `middleware.Handle(t, data, oldTop)`
  pushed_on : ℕ → Wrapper → Wrapper

pub record MiddlewareStack : Type 0 where
  pub middlewares : List ℕ
  pub wrappers : List Wrapper

-- The loop from `n - 1` down.
unfoldable pub rebuild_middlewares : ℕ → List Wrapper → List Wrapper
rebuild_middlewares zero ws = ws
rebuild_middlewares (suc n) ws = rebuild_middlewares n (set ws n (indexed n))

unfoldable pub new_middleware_stack : List ℕ → MiddlewareStack
unfolding rebuild_middlewares
new_middleware_stack ms =
    let made : List Wrapper = set (replicate (length ms) unset) (length ms - 1) last in
    record { middlewares = ms; wrappers = rebuild_middlewares (length ms - 1) made }

-- `oldTop` is captured: the first wrapper, or the end.
abbrev pub push_wrapper : ℕ → List Wrapper → List Wrapper
push_wrapper m [] = to_end m ∷ []
push_wrapper m (w ∷ ws) = pushed_on m w ∷ (w ∷ ws)

unfoldable pub push_middleware : ℕ → MiddlewareStack → MiddlewareStack
push_middleware m stack = record {
  middlewares = m ∷ stack.middlewares;
  wrappers = push_wrapper m stack.wrappers;
}

unfoldable pub queue_middleware : ℕ → MiddlewareStack → MiddlewareStack
unfolding rebuild_middlewares
queue_middleware m stack = record {
  middlewares = stack.middlewares ++ (m ∷ []);
  wrappers = rebuild_middlewares (length stack.middlewares) (stack.wrappers ++ (to_end m ∷ []));
}

-- The index of the first that is the middleware.
unfoldable pub middleware_index : ℕ → List ℕ → Option ℕ
middleware_index m [] = none
middleware_index m (x ∷ ms) =
    let rest = middleware_index m ms in
    if x == m then some 0 else elim rest [ none ↦ none | some i ↦ some (suc i) ]

-- `slices.Delete` of one element.
abbrev pub delete_at {ℓ} : {A : Type ℓ} → ℕ → List A → List A
delete_at n [] = []
delete_at zero (x ∷ xs) = xs
delete_at (suc n) (x ∷ xs) = x ∷ delete_at n xs

unfoldable pub remove_middleware : ℕ → MiddlewareStack → MiddlewareStack
unfolding middleware_index rebuild_middlewares
remove_middleware m stack = elim (middleware_index m stack.middlewares) [
  | none ↦ stack
  | some i ↦
      let ms = delete_at i stack.middlewares in
      let ws = delete_at i stack.wrappers in
      let at = length ms - 1 in
      record {
        middlewares = ms;
        wrappers =
            if length ms == 0
            then ws
            else if leb (length ms) i
            then rebuild_middlewares at (set ws at (ends_at at))
            else rebuild_middlewares i ws;
      }
]

module _ (S D : Type 0) (handle : ℕ → (D → S → Outcome S) → D → S → Outcome S)
    (line_out : D → S → Outcome S) where
  abbrev pub handle_at : List ℕ → ℕ → (D → S → Outcome S) → D → S → Outcome S
  handle_at ms i next = elim (get_elem? ms i) [ none ↦ λ d s. panicked | some m ↦ handle m next ]

  -- A call of a wrapper, at most so many calls deep.
  unfoldable pub call : ℕ → MiddlewareStack → Wrapper → D → S → Outcome S
  call zero stack w = λ d s. running
  call (suc n) stack unset = λ d s. panicked
  call (suc n) stack last = handle_at stack.middlewares (length stack.middlewares - 1) line_out
  call (suc n) stack (indexed i) = elim (get_elem? stack.wrappers (suc i)) [
    | none ↦ λ d s. panicked
    | some w ↦ handle_at stack.middlewares i (call n stack w)
  ]
  call (suc n) stack (ends_at i) = handle_at stack.middlewares i line_out
  call (suc n) stack (to_end m) = handle m line_out
  call (suc n) stack (pushed_on m w) = handle m (call n stack w)

  -- `LineIn`
  unfoldable pub line_in : ℕ → MiddlewareStack → D → S → Outcome S
  unfolding call
  line_in fuel stack = elim stack.middlewares [
    | [] ↦ line_out
    | m ∷ ms ↦ elim (get_elem? stack.wrappers 0) [
      | none ↦ λ d s. panicked
      | some w ↦ call fuel stack w
    ]
  ]

  -- Each middleware hands on to the next one, and the last one to the end.
  abbrev pub chain : List ℕ → D → S → Outcome S
  chain [] = line_out
  chain (m ∷ ms) = handle m (chain ms)
