-- ===== src/Hooks.antt =====
-- hooks.go: publishers of events. A hook is what it does to the world; a call that holds the mutex is one
-- step, so hooks that call their own publisher, which wait forever, are left out.
use telnet.Prelude.{List, [], ◌∷◌, ◌++◌}

module _ (W A : Type 0) where
  pub record EventPublisher : Type 0 where
    pub registered_hooks : List (A → W → W)

  unfoldable pub new_publisher : List (A → W → W) → EventPublisher
  new_publisher hooks = record { registered_hooks = hooks }

  unfoldable pub register : (A → W → W) → EventPublisher → EventPublisher
  register hook e = record e { registered_hooks = e.registered_hooks ++ (hook ∷ []) }

  -- The loop of `Fire`.
  unfoldable pub fire_hooks : List (A → W → W) → A → W → W
  fire_hooks [] event_data w = w
  fire_hooks (hook ∷ hooks) event_data w = fire_hooks hooks event_data (hook event_data w)

  unfoldable pub fire : EventPublisher → A → W → W
  unfolding fire_hooks
  fire e event_data w = fire_hooks e.registered_hooks event_data w
