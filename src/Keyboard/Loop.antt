-- ===== src/Keyboard/Loop.antt =====
-- keyboard.go: `keyboardLoop`. A write that the loop is to end after returns false. An event tells
-- whether the keyboard is locked when the loop looks.
use telnet.Prelude.{
  Bool, true, false, not, ◌&&◌, ◌||◌, Option, some, List, [], ◌∷◌, ◌++◌, if◌then◌else◌,
}
use telnet.TerminalData.{TerminalData, command_data, KeyboardTransport}

pub data Event : Type 0 where
  input : Bool → KeyboardTransport → Event
  unlocked : Bool → Event
  cancelled : Event

pub record KeyboardLoop (W : Type 0) : Type 0 where
  pub queued_writes : List KeyboardTransport
  pub world : W
  pub ended : Bool

abbrev pub is_command_data : Option TerminalData → Bool
is_command_data (some (command_data c)) = true
is_command_data _ = false

abbrev pub is_command : KeyboardTransport → Bool
is_command t = is_command_data t.transported

abbrev pub is_empty {ℓ} : {A : Type ℓ} → List A → Bool
is_empty [] = true
is_empty (x ∷ xs) = false

module _ (W : Type 0) (write : KeyboardTransport → W → W × Bool) where
  -- The writes up to the first that fails.
  unfoldable pub write_all : List KeyboardTransport → W → W × Bool
  write_all [] w = (w, true)
  write_all (t ∷ ts) w =
      let rest = write_all ts (write t w).0 in
      if (write t w).1 then rest else ((write t w).0, false)

  unfoldable pub write_single : KeyboardTransport → KeyboardLoop W → KeyboardLoop W
  write_single t k = record k { world = (write t k.world).0; ended = not (write t k.world).1 }

  -- One round of the loop.
  unfoldable pub step : Event → KeyboardLoop W → KeyboardLoop W
  unfolding write_all write_single
  step cancelled k = record k { ended = true }
  step (input locked t) k =
      if is_command t
      then write_single t k
      else if not (is_empty k.queued_writes) || locked
      then record k { queued_writes = k.queued_writes ++ (t ∷ []) }
      else write_single t k
  step (unlocked locked) k =
      if locked
      then k
      else if (write_all k.queued_writes k.world).1
      then record k { queued_writes = []; world = (write_all k.queued_writes k.world).0 }
      else record k { world = (write_all k.queued_writes k.world).0; ended = true }

  -- The rounds until the loop breaks.
  unfoldable pub keyboard_loop : List Event → KeyboardLoop W → KeyboardLoop W
  unfolding step
  keyboard_loop [] k = k
  keyboard_loop (e ∷ es) k = let rest = keyboard_loop es (step e k) in if k.ended then k else rest

  -- What is in the channel when the loop has ended, each with whether the keyboard is locked then.
  unfoldable pub drain : List (Bool × KeyboardTransport) → W → W
  drain [] w = w
  drain ((locked, t) ∷ rest) w =
      let written = drain rest (write t w).0 in
      let passed = drain rest w in
      if not locked || is_command t
      then (if (write t w).1 then written else (write t w).0)
      else passed

  unfoldable pub finish : Bool → List (Bool × KeyboardTransport) → KeyboardLoop W → W
  unfolding write_all drain
  finish locked left k =
      let drained = drain left k.world in
      let behind = drain left (write_all k.queued_writes k.world).0 in
      if not (is_empty k.queued_writes) && not locked
      then (if (write_all k.queued_writes k.world).1
          then behind
          else (write_all k.queued_writes k.world).0)
      else drained

unfoldable pub new_keyboard_loop : (W : Type 0) → W → KeyboardLoop W
new_keyboard_loop W w = record { queued_writes = []; world = w; ended = false }
