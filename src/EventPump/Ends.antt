-- ===== src/EventPump/Ends.antt =====
-- event.go and terminal.go: once the printer and the keyboard have exited, the terminal loop ends.
use telnet.Prelude.{
  ℕ, suc, ◌+◌, ◌≤◌, ◌≡◌, ◌⊎◌, inl, inr, refl, sym, ap, ◌∙◌, subst, Bool, true, false, Option, none,
  some, List, [], ◌∷◌, ◌++◌, append-nil, Bool-cases, arith, length,
}
use telnet.TerminalData.{TerminalData}
use telnet.EventPump.{
  EventsTransport, Phase, looping, draining, finished, TerminalHooks, Goroutines, new_goroutines,
  close_events, complete_pump, process_event, receive_event, Step, printer_error, printer_output,
  keyboard_error, keyboard_outbound, printer_exits, keyboard_exits, cancels, receives, stops,
  drains, completes, Run, here, next,
}
use telnet.EventPump.Kept.{process_all, Holds}
use telnet.EventPump.Delivers.{Run-kept, Run-Holds}

-- How many phases are left.
abbrev phases_left : Phase → ℕ
phases_left looping = 2
phases_left draining = 1
phases_left finished = 0

abbrev to_cancel : Bool → ℕ
to_cancel true = 0
to_cancel false = 1

Phase-cases : (p : Phase) → (p ≡ looping) ⊎ ((p ≡ draining) ⊎ (p ≡ finished))
Phase-cases looping = inl refl
Phase-cases draining = inr (inl refl)
Phase-cases finished = inr (inr refl)

List-cases : {A : Type 0} (xs : List A) → (xs ≡ []) ⊎ ((x : A) × (rest : List A) × (xs ≡ x ∷ rest))
List-cases [] = inl refl
List-cases (x ∷ xs) = inr (x, xs, refl)

phases_left_most : (p : Phase) → phases_left p ≤ 2
phases_left_most looping = omega arith
phases_left_most draining = omega arith
phases_left_most finished = omega arith

to_cancel_most : (b : Bool) → to_cancel b ≤ 1
to_cancel_most true = omega arith
to_cancel_most false = omega arith

module _ (W E : Type 0) (line_in : (TerminalData → W → W) → TerminalData → W → W)
    (h : TerminalHooks W E) where
  -- The steps that are left once both loops have exited.
  steps_left : Goroutines W E → ℕ
  steps_left g = length g.events + (phases_left g.phase + to_cancel g.cancelled)

  -- The printer and the keyboard have exited.
  abbrev pub HaveExited : Goroutines W E → Type 0
  HaveExited g = (g.printer_exited ≡ true) × (g.keyboard_exited ≡ true)

  -- What `receive_event` comes to.
  abbrev after : Option W → List (EventsTransport E) → Goroutines W E → Goroutines W E
  after none rest g = record g { events = rest; panicked = true }
  after (some w) rest g = record g { events = rest; world = w }

  elim-after :
      (o : Option W) (rest : List (EventsTransport E)) (g : Goroutines W E)
      → elim o as (λ x. Goroutines W E) [
        | none ↦ record g { events = rest; panicked = true }
        | some w ↦ record g { events = rest; world = w }
      ]
        ≡ after o rest g
  elim-after none rest g = refl
  elim-after (some w) rest g = refl

  after-steps_left :
      (o : Option W) (ev : EventsTransport E) (rest : List (EventsTransport E)) (g : Goroutines W E)
      → g.events ≡ ev ∷ rest
      → HaveExited g
      → (suc (steps_left (after o rest g)) ≡ steps_left g) × HaveExited (after o rest g)
  unfolding steps_left
  after-steps_left none ev rest g e x = (omega (arith, ap length e), x)
  after-steps_left (some w) ev rest g e x = (omega (arith, ap length e), x)

  receive_event-steps_left :
      (ev : EventsTransport E) (rest : List (EventsTransport E)) (g : Goroutines W E)
      → g.events ≡ ev ∷ rest
      → HaveExited g
      → (suc (steps_left (receive_event W E line_in h ev rest g)) ≡ steps_left g)
        × HaveExited (receive_event W E line_in h ev rest g)
  unfolding receive_event
  receive_event-steps_left ev rest g e x =
      subst (λ k. (suc (steps_left k) ≡ steps_left g) × HaveExited k)
        (sym (elim-after (process_event W E line_in h ev g.world) rest g))
        (after-steps_left (process_event W E line_in h ev g.world) ev rest g e x)

  Step-steps_left :
      {ev : List (EventsTransport E)} {g k : Goroutines W E}
      → Step W E line_in h g ev k
      → HaveExited g
      → (suc (steps_left k) ≡ steps_left g) × HaveExited k
  unfolding steps_left close_events complete_pump
  Step-steps_left (printer_error err e c) x = absurd (ground (arith, e, x.0))
  Step-steps_left (printer_output output e c) x = absurd (ground (arith, e, x.0))
  Step-steps_left (keyboard_error err e c) x = absurd (ground (arith, e, x.1))
  Step-steps_left (keyboard_outbound output e c) x = absurd (ground (arith, e, x.1))
  Step-steps_left (printer_exits e) x = absurd (ground (arith, e, x.0))
  Step-steps_left (keyboard_exits e) x = absurd (ground (arith, e, x.1))
  Step-steps_left {ev} {g} (cancels p q e) x = (omega (arith, ap to_cancel e), (p, q))
  Step-steps_left {ev} {g} (receives first rest p e) x = receive_event-steps_left first rest g e x
  Step-steps_left {ev} {g} (stops p c) x = (omega (arith, ap phases_left p), x)
  Step-steps_left {ev} {g} (drains first rest p e) x = receive_event-steps_left first rest g e x
  Step-steps_left {ev} {g} (completes p e) x = (omega (arith, ap phases_left p), x)

  Run-steps_left :
      {g : Goroutines W E} {n : ℕ} {sent : List (EventsTransport E)} {k : Goroutines W E}
      → HaveExited g
      → Run W E line_in h g n sent k
      → (n + steps_left k ≡ steps_left g) × HaveExited k
  Run-steps_left x here = (omega arith, x)
  Run-steps_left x (next r s) =
      let (e, y) = Run-steps_left x r in
      let (f, z) = Step-steps_left s y in (omega (arith, e, f), z)

  -- Some goroutine can go on.
  abbrev pub CanStep : Goroutines W E → Type 0
  CanStep g = (ev : List (EventsTransport E)) × (k : Goroutines W E) × Step W E line_in h g ev k

  HaveExited-CanStep : (g : Goroutines W E) → HaveExited g → CanStep g ⊎ (g.phase ≡ finished)
  HaveExited-CanStep g x = elim (Phase-cases g.phase) [
    | inl p ↦ elim (Bool-cases g.cancelled) [
      | inl c ↦ inl (_, _, stops p c)
      | inr c ↦ inl (_, _, cancels x.0 x.1 c)
    ]
    | inr (inl p) ↦ elim (List-cases g.events) [
      | inl e ↦ inl (_, _, completes p e)
      | inr (ev, rest, e) ↦ inl (_, _, drains ev rest p e)
    ]
    | inr (inr p) ↦ inr p
  ]

  finished_processed :
      (w : W) (sent : List (EventsTransport E)) (g : Goroutines W E)
      → Holds W E line_in h w sent g
      → g.phase ≡ finished
      → (g.complete ≡ true) × (process_all W E line_in h sent w ≡ some g.world)
  finished_processed w sent g (d, o) p =
      let all : d.processed ≡ sent =
        sym (append-nil d.processed)
        ∙ (ap (λ es. d.processed ++ es) (sym (o.finished_empty p)) ∙ d.all_sent) in
      (
        o.finished_complete p,
        subst (λ es. process_all W E line_in h es w ≡ some g.world) all d.world_processed,
      )

  -- Whatever the goroutines of a new terminal have done and sent, once the printer and the keyboard
  -- have exited, at most three more steps than events wait in the channel can be taken; behind any
  -- of them some goroutine can still go on, or the pump is complete, and everything that was sent
  -- has been processed, in order and without a panic.
  pub exited_finishes :
      {m n : ℕ} {sent more : List (EventsTransport E)} (w : W) {g k : Goroutines W E}
      → Run W E line_in h (new_goroutines W E w) m sent g
      → HaveExited g
      → Run W E line_in h g n more k
      → (n ≤ length g.events + 3)
        × (CanStep k
            ⊎ ((k.complete ≡ true) × (process_all W E line_in h (sent ++ more) w ≡ some k.world)))
  unfolding steps_left
  exited_finishes {m} {n} {sent} {more} w {g} {k} r x s =
      let left = Run-steps_left x s in
      let holds = Run-kept W E line_in h w sent (Run-Holds W E line_in h w r) s in
      (
        omega (arith, left.0, phases_left_most g.phase, to_cancel_most g.cancelled),
        elim (HaveExited-CanStep k left.1) [
          | inl c ↦ inl c
          | inr p ↦ inr (finished_processed w (sent ++ more) k holds p)
        ],
      )
