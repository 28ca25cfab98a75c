-- ===== src/Keyboard/Order.antt =====
-- keyboard.go: in which order `keyboardLoop` writes what it receives.
use telnet.Prelude.{
  ◌≡◌, refl, sym, ap, ◌∙◌, subst, Bool, true, false, not, ◌||◌, List, [], ◌∷◌, ◌++◌, append-nil,
  append_assoc, if◌then◌else◌, Bool-cases, arith, inl, inr,
}
use telnet.TerminalData.{KeyboardTransport}
use telnet.Keyboard.Loop.{
  Event, input, unlocked, cancelled, KeyboardLoop, is_command, is_empty, write_all, write_single,
  step, keyboard_loop, new_keyboard_loop,
}
use telnet.Keyboard.Received.{
  given, inputs, texts, commands, commands_text, texts_last, texts_before, commands_last,
  commands_more, is_empty-nil,
}

module _ (W : Type 0) (write : KeyboardTransport → W → W × Bool) where
  abbrev pub written : List KeyboardTransport → W → W
  written [] w = w
  written (t ∷ ts) w = written ts (write t w).0

  written-append :
      (a b : List KeyboardTransport) (w : W) → written (a ++ b) w ≡ written b (written a w)
  written-append [] b w = refl
  written-append (t ∷ a) b w = written-append a b (write t w).0

  write_all-written :
      (ts : List KeyboardTransport) (w : W)
      → (write_all W write ts w).1 ≡ true
      → (write_all W write ts w).0 ≡ written ts w
  unfolding write_all
  write_all-written [] w e = refl
  write_all-written (t ∷ ts) w e = elim (Bool-cases (write t w).1) [
    | inl goes ↦
        rw (goes, write_all) (write_all-written ts (write t w).0 (rw (goes, write_all) at e))
    | inr fails ↦ absurd (let f : false ≡ true = rw (fails, write_all) at e in ground arith)
  ]

  -- The log is what was written, in order: the texts that came, but those that wait, and the commands.
  pub record Keeps (w : W) (came : List KeyboardTransport) (k : KeyboardLoop W) : Type 0 where
    pub log : List KeyboardTransport
    pub in_world : k.world ≡ written log w
    pub in_order : texts (log ++ k.queued_writes) ≡ texts came
    pub at_once : commands log ≡ commands came
    pub only_texts : commands k.queued_writes ≡ []

  write_single-Keeps :
      (w : W) (came : List KeyboardTransport) (t : KeyboardTransport) (k : KeyboardLoop W)
      → (r : Keeps w came k)
      → texts ((r.log ++ (t ∷ [])) ++ k.queued_writes) ≡ texts (came ++ (t ∷ []))
      → Keeps w (came ++ (t ∷ [])) (write_single W write t k)
  unfolding write_single
  write_single-Keeps w came t k r e = record {
    log = r.log ++ (t ∷ []);
    in_world = ap (λ v. (write t v).0) r.in_world ∙ sym (written-append r.log (t ∷ []) w);
    in_order = e;
    at_once = commands_last r.log came t r.at_once;
    only_texts = r.only_texts;
  }

  input-Keeps :
      (w : W) (came : List KeyboardTransport) (locked : Bool) (t : KeyboardTransport)
      (k : KeyboardLoop W)
      → Keeps w came k
      → Keeps w (came ++ (t ∷ [])) (step W write (input locked t) k)
  unfolding step
  input-Keeps w came locked t k r = elim (Bool-cases (is_command t)) [
    | inl c ↦
        rw (c, step)
          (write_single-Keeps w came t k r (texts_before r.log k.queued_writes came t c r.in_order))
    | inr c ↦ elim (Bool-cases (not (is_empty k.queued_writes) || locked)) [
      | inl waits ↦
          rw (c, waits, step)
            (record {
              log = r.log;
              in_world = r.in_world;
              in_order = texts_last r.log k.queued_writes came t r.in_order;
              at_once = r.at_once ∙ sym (commands_more came (t ∷ []) (commands_text t c));
              only_texts =
                  commands_more k.queued_writes (t ∷ []) (commands_text t c) ∙ r.only_texts;
            })
      | inr goes ↦
          let none_wait : k.queued_writes ≡ [] = is_empty-nil k.queued_writes (ground arith) in
          rw (c, goes, step)
            (write_single-Keeps w came t k r (
              ap (λ q. texts ((r.log ++ (t ∷ [])) ++ q)) none_wait
              ∙ (ap texts (append_assoc r.log (t ∷ []) [])
                  ∙ texts_last r.log [] came t
                      (ap (λ q. texts (r.log ++ q)) (sym none_wait) ∙ r.in_order))))
    ]
  ]

  unlocked-Keeps :
      (w : W) (came : List KeyboardTransport) (locked : Bool) (k : KeyboardLoop W)
      → Keeps w came k
      → (step W write (unlocked locked) k).ended ≡ false
      → Keeps w came (step W write (unlocked locked) k)
  unfolding step
  unlocked-Keeps w came true k r e = r
  unlocked-Keeps w came false k r e =
      elim (Bool-cases (write_all W write k.queued_writes k.world).1) [
        | inl goes ↦
            rw (goes, step)
              (record {
                log = r.log ++ k.queued_writes;
                in_world =
                    write_all-written k.queued_writes k.world goes
                    ∙ (ap (written k.queued_writes) r.in_world
                        ∙ sym (written-append r.log k.queued_writes w));
                in_order = ap texts (append-nil (r.log ++ k.queued_writes)) ∙ r.in_order;
                at_once = commands_more r.log k.queued_writes r.only_texts ∙ r.at_once;
                only_texts = refl;
              })
        | inr fails ↦ absurd (let f : true ≡ false = rw (fails, step) at e in ground arith)
      ]

  step-Keeps :
      (w : W) (came : List KeyboardTransport) (e : Event) (k : KeyboardLoop W)
      → Keeps w came k
      → (step W write e k).ended ≡ false
      → Keeps w (came ++ given e) (step W write e k)
  unfolding step
  step-Keeps w came (input locked t) k r h = input-Keeps w came locked t k r
  step-Keeps w came (unlocked locked) k r h =
      subst (λ ts. Keeps w ts (step W write (unlocked locked) k)) (sym (append-nil came))
        (unlocked-Keeps w came locked k r h)
  step-Keeps w came cancelled k r h = absurd (ground arith)

  still_running :
      (b : Bool) (k l : KeyboardLoop W)
      → k.ended ≡ b
      → (if b then k else l).ended ≡ false
      → b ≡ false
  still_running true k l e h = sym e ∙ h
  still_running false k l e h = refl

  pub goes_on :
      (es : List Event) (k : KeyboardLoop W)
      → (keyboard_loop W write es k).ended ≡ false
      → k.ended ≡ false
  unfolding keyboard_loop
  goes_on [] k h = h
  goes_on (e ∷ es) k h =
      still_running k.ended k (keyboard_loop W write es (step W write e k)) refl h

  loop-Keeps :
      (w : W) (came : List KeyboardTransport) (es : List Event) (k : KeyboardLoop W)
      → Keeps w came k
      → (keyboard_loop W write es k).ended ≡ false
      → Keeps w (came ++ inputs es) (keyboard_loop W write es k)
  unfolding keyboard_loop
  loop-Keeps w came [] k r h = subst (λ ts. Keeps w ts k) (sym (append-nil came)) r
  loop-Keeps w came (e ∷ es) k r h =
      let running : k.ended ≡ false = goes_on (e ∷ es) k h in
      let on : keyboard_loop W write (e ∷ es) k ≡ keyboard_loop W write es (step W write e k) =
        ap (λ b. if b then k else keyboard_loop W write es (step W write e k)) running in
      let last : (keyboard_loop W write es (step W write e k)).ended ≡ false =
        ap (λ l. l.ended) (sym on) ∙ h in
      subst (Keeps w (came ++ inputs (e ∷ es))) (sym on) (
        subst (λ ts. Keeps w ts (keyboard_loop W write es (step W write e k)))
          (append_assoc came (given e) (inputs es))
          (loop-Keeps w (came ++ given e) es (step W write e k)
            (step-Keeps w came e k r (goes_on es (step W write e k) last)) last))

  -- As long as the loop of the keyboard has not ended, what it wrote was written in one order in
  -- which the commands are all those received, in the order received, and in which the other
  -- transports, with those that wait behind them, are all those received, in the order received;
  -- what waits are no commands.
  pub keyboard_loop-Keeps :
      (w : W) (es : List Event)
      → (keyboard_loop W write es (new_keyboard_loop W w)).ended ≡ false
      → Keeps w (inputs es) (keyboard_loop W write es (new_keyboard_loop W w))
  unfolding new_keyboard_loop
  keyboard_loop-Keeps w es h =
      loop-Keeps w [] es (new_keyboard_loop W w)
        (record { log = []; in_world = refl; in_order = refl; at_once = refl; only_texts = refl }) h

  unlocked_empties :
      (k : KeyboardLoop W)
      → (step W write (unlocked false) k).ended ≡ false
      → (step W write (unlocked false) k).queued_writes ≡ []
  unfolding step
  unlocked_empties k h = elim (Bool-cases (write_all W write k.queued_writes k.world).1) [
    | inl goes ↦ rw (goes, step) refl
    | inr fails ↦ absurd (let f : true ≡ false = rw (fails, step) at h in ground arith)
  ]

  -- When the lock tells of its end, the keyboard is not locked and the writes do not end the loop,
  -- everything that was received is written, commands in the order received and the rest in the
  -- order received.
  pub unlocked_writes_all :
      (w : W) (es : List Event)
      → (step W write (unlocked false) (keyboard_loop W write es (new_keyboard_loop W w))).ended
        ≡ false
      → (keyboard_loop W write es (new_keyboard_loop W w)).ended ≡ false
      → (log : List KeyboardTransport) × ((step W write
            (unlocked false)
            (keyboard_loop W write es (new_keyboard_loop W w))).world
          ≡ written log w)
        × (texts log ≡ texts (inputs es))
        × (commands log ≡ commands (inputs es))
  unlocked_writes_all w es h before =
      let k : KeyboardLoop W = keyboard_loop W write es (new_keyboard_loop W w) in
      let r : Keeps w (inputs es) (step W write (unlocked false) k) =
        unlocked-Keeps w (inputs es) false k (keyboard_loop-Keeps w es before) h in
      (
        r.log,
        r.in_world,
        ap texts (sym (append-nil r.log))
            ∙ (ap (λ q. texts (r.log ++ q)) (sym (unlocked_empties k h)) ∙ r.in_order),
        r.at_once,
      )
