-- ===== src/Keyboard/Locked.antt =====
-- keyboard.go: what `keyboardLoop` writes while the keyboard is locked.
use telnet.Prelude.{
  ◌≡◌, refl, sym, ap, ◌∙◌, subst, Bool, true, false, not, ◌||◌, List, [], ◌∷◌, ◌++◌, append-nil,
  append_assoc, if◌then◌else◌, Bool-cases, arith, inl, inr,
}
use telnet.TerminalData.{KeyboardTransport}
use telnet.Keyboard.Loop.{
  Event, input, unlocked, cancelled, KeyboardLoop, is_command, is_empty, write_single, step,
  keyboard_loop, new_keyboard_loop,
}
use telnet.Keyboard.Received.{inputs, texts, commands}
use telnet.Keyboard.Order.{written, goes_on}

abbrev pub StaysLocked : List Event → Type 0
StaysLocked [] = Unit {0}
StaysLocked (input locked t ∷ es) = (locked ≡ true) × StaysLocked es
StaysLocked (unlocked locked ∷ es) = (locked ≡ true) × StaysLocked es
StaysLocked (cancelled ∷ es) = StaysLocked es

or_true : (b c : Bool) → c ≡ true → b || c ≡ true
or_true b c e = ground arith

module _ (W : Type 0) (write : KeyboardTransport → W → W × Bool) where
  -- The commands written, and the texts behind those that wait.
  abbrev pub OnlyCommands : List KeyboardTransport → KeyboardLoop W → KeyboardLoop W → Type 0
  OnlyCommands came k l =
      (l.world ≡ written W write (commands came) k.world)
      × (l.queued_writes ≡ k.queued_writes ++ texts came)

  step_on :
      (e : Event) (es : List Event) (k : KeyboardLoop W)
      → (keyboard_loop W write (e ∷ es) k).ended ≡ false
      → keyboard_loop W write (e ∷ es) k ≡ keyboard_loop W write es (step W write e k)
  unfolding keyboard_loop
  step_on e es k h =
      ap (λ b. if b then k else keyboard_loop W write es (step W write e k))
        (goes_on W write (e ∷ es) k h)

  input_step :
      (locked : Bool) (t : KeyboardTransport) (came : List KeyboardTransport) (k l : KeyboardLoop W)
      → locked ≡ true
      → OnlyCommands came (step W write (input locked t) k) l
      → OnlyCommands (t ∷ came) k l
  unfolding step write_single
  input_step locked t came k l e p = elim (Bool-cases (is_command t)) [
    | inl c ↦ let q : OnlyCommands came (write_single W write t k) l = rw (c, step) at p in rw c q
    | inr c ↦
        let waits : not (is_empty k.queued_writes) || locked ≡ true =
          or_true (not (is_empty k.queued_writes)) locked e in
        let q : OnlyCommands came (record k { queued_writes = k.queued_writes ++ (t ∷ []) }) l =
          rw (c, waits, step) at p in
        rw c (q.0, q.1 ∙ append_assoc k.queued_writes (t ∷ []) (texts came))
  ]

  locked_at :
      (es : List Event) (k : KeyboardLoop W)
      → StaysLocked es
      → (keyboard_loop W write es k).ended ≡ false
      → OnlyCommands (inputs es) k (keyboard_loop W write es k)
  unfolding keyboard_loop step
  locked_at [] k s h = (refl, sym (append-nil k.queued_writes))
  locked_at (input locked t ∷ es) k s h =
      let on : keyboard_loop W write (input locked t ∷ es) k
          ≡ keyboard_loop W write es (step W write (input locked t) k) =
        step_on (input locked t) es k h in
      subst (OnlyCommands (t ∷ inputs es) k) (sym on) (
        input_step locked t (inputs es) k
          (keyboard_loop W write es (step W write (input locked t) k)) s.0
          (locked_at es (step W write (input locked t) k) s.1 (ap (λ l. l.ended) (sym on) ∙ h)))
  locked_at (unlocked locked ∷ es) k s h =
      let on : keyboard_loop W write (unlocked locked ∷ es) k
          ≡ keyboard_loop W write es (step W write (unlocked locked) k) =
        step_on (unlocked locked) es k h in
      let stays : step W write (unlocked locked) k ≡ k = rw (s.0, step) refl in
      let same : keyboard_loop W write (unlocked locked ∷ es) k ≡ keyboard_loop W write es k =
        on ∙ ap (keyboard_loop W write es) stays in
      subst (OnlyCommands (inputs es) k) (sym same)
        (locked_at es k s.1 (ap (λ l. l.ended) (sym same) ∙ h))
  locked_at (cancelled ∷ es) k s h =
      let on : keyboard_loop W write (cancelled ∷ es) k
          ≡ keyboard_loop W write es (record k { ended = true }) =
        step_on cancelled es k h in
      let stopped : true ≡ false =
        goes_on W write es (record k { ended = true }) (ap (λ l. l.ended) (sym on) ∙ h) in
      absurd (ground arith)

  -- While the keyboard is locked whenever the loop looks, and the loop has not ended, exactly the
  -- commands that are received are written, and the rest waits, in the order received.
  pub locked_writes_commands :
      (w : W) (es : List Event)
      → StaysLocked es
      → (keyboard_loop W write es (new_keyboard_loop W w)).ended ≡ false
      → ((keyboard_loop W write es (new_keyboard_loop W w)).world
          ≡ written W write (commands (inputs es)) w)
        × ((keyboard_loop W write es (new_keyboard_loop W w)).queued_writes ≡ texts (inputs es))
  unfolding new_keyboard_loop
  locked_writes_commands w es s h = locked_at es (new_keyboard_loop W w) s h
