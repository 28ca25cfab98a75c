-- ===== src/EventPump/Kept.antt =====
-- event.go: sending and receiving keep the order of events.
use telnet.Prelude.{
  ◌≡◌, ◌≢◌, refl, sym, ap, ◌∙◌, subst, Bool, true, false, Option, none, some, List, [], ◌∷◌, ◌++◌,
  append_assoc, append-nil, inl, inr, Bool-cases, arith,
}
use telnet.TerminalData.{TerminalData}
use telnet.EventPump.{
  EventsTransport, event_unknown, event_error, event_printer_output, event_outbound_data, draining,
  finished, TerminalHooks, Goroutines, send, process_event, receive_event,
}

abbrev is_known : {E : Type 0} → EventsTransport E → Bool
is_known event_unknown = false
is_known _ = true

abbrev AreKnown : {E : Type 0} → List (EventsTransport E) → Type 0
AreKnown [] = Unit {0}
AreKnown (ev ∷ rest) = (is_known ev ≡ true) × AreKnown rest

AreKnown-append :
    {E : Type 0} (xs : List (EventsTransport E)) (ev : EventsTransport E)
    → AreKnown xs
    → is_known ev ≡ true
    → AreKnown (xs ++ (ev ∷ []))
AreKnown-append [] ev h k = (k, tt)
AreKnown-append (x ∷ xs) ev h k = (h.0, AreKnown-append xs ev h.1 k)

abbrev pub and_then : {A : Type 0} → Option A → (A → Option A) → Option A
and_then none f = none
and_then (some v) f = f v

option_eta : {A : Type 0} (o : Option A) → and_then o (λ v. some v) ≡ o
option_eta none = refl
option_eta (some v) = refl

behind :
    {A : Type 0} (o : Option A) (f g handle : A → Option A)
    → ((v : A) → g v ≡ and_then (f v) handle)
    → and_then o g ≡ and_then (and_then o f) handle
behind none f g handle e = refl
behind (some v) f g handle e = e v

module _ (W E : Type 0) (line_in : (TerminalData → W → W) → TerminalData → W → W)
    (h : TerminalHooks W E) where
  abbrev handle : EventsTransport E → W → Option W
  handle = process_event W E line_in h

  -- Events processed one behind the other.
  abbrev pub process_all : List (EventsTransport E) → W → Option W
  process_all [] w = some w
  process_all (ev ∷ rest) w = and_then (handle ev w) (process_all rest)

  process_all-append :
      (done : List (EventsTransport E)) (ev : EventsTransport E) (w : W)
      → process_all (done ++ (ev ∷ [])) w ≡ and_then (process_all done w) (handle ev)
  process_all-append [] ev w = option_eta (handle ev w)
  process_all-append (x ∷ done) ev w =
      behind (handle x w) (process_all done) (process_all (done ++ (ev ∷ []))) (handle ev)
        (λ u. process_all-append done ev u)

  known : (ev : EventsTransport E) (w : W) → is_known ev ≡ true → (v : W) × (handle ev w ≡ some v)
  unfolding process_event
  known event_unknown w k = absurd (ground (arith, k))
  known (event_error err) w k = (_, refl)
  known (event_printer_output output) w k = (_, refl)
  known (event_outbound_data output) w k = (_, refl)

  -- Nothing has panicked, and what has been sent has been processed or waits in the channel.
  pub record Delivers (w : W) (sent : List (EventsTransport E)) (g : Goroutines W E) : Type 0 where
    pub not_panicked : g.panicked ≡ false
    pub processed : List (EventsTransport E)
    pub world_processed : process_all processed w ≡ some g.world
    pub all_sent : processed ++ g.events ≡ sent
    pub are_known : AreKnown g.events

  -- The order in which the goroutines end.
  pub record IsOrderly (g : Goroutines W E) : Type 0 where
    pub closed_cancelled : g.closed ≡ true → g.cancelled ≡ true
    pub printer_first : g.cancelled ≡ true → g.printer_exited ≡ true
    pub keyboard_first : g.cancelled ≡ true → g.keyboard_exited ≡ true
    pub draining_closed : g.phase ≡ draining → g.closed ≡ true
    pub finished_closed : g.phase ≡ finished → g.closed ≡ true
    pub finished_empty : g.phase ≡ finished → g.events ≡ []
    pub finished_complete : g.phase ≡ finished → g.complete ≡ true

  sent_to : EventsTransport E → Goroutines W E → Goroutines W E
  sent_to ev g = record g { events = g.events ++ (ev ∷ []) }

  send-sent_to :
      (ev : EventsTransport E) (g : Goroutines W E)
      → g.closed ≡ false
      → send W E ev g ≡ sent_to ev g
  unfolding send sent_to
  send-sent_to ev g e =
      ap
        (λ c. elim c [
          | true ↦ record g { panicked = true }
          | false ↦ record g { events = g.events ++ (ev ∷ []) }
        ])
        e

  sent_to-Delivers :
      (ev : EventsTransport E) (w : W) (sent : List (EventsTransport E)) (g : Goroutines W E)
      → is_known ev ≡ true
      → Delivers w sent g
      → Delivers w (sent ++ (ev ∷ [])) (sent_to ev g)
  unfolding sent_to
  sent_to-Delivers ev w sent g k d = record {
    not_panicked = d.not_panicked;
    processed = d.processed;
    world_processed = d.world_processed;
    all_sent =
        sym (append_assoc d.processed g.events (ev ∷ [])) ∙ ap (λ s. s ++ (ev ∷ [])) d.all_sent;
    are_known = AreKnown-append g.events ev d.are_known k;
  }

  sent_to-IsOrderly :
      (ev : EventsTransport E) (g : Goroutines W E)
      → g.closed ≡ false
      → IsOrderly g
      → IsOrderly (sent_to ev g)
  unfolding sent_to
  sent_to-IsOrderly ev g e o = record {
    closed_cancelled = o.closed_cancelled;
    printer_first = o.printer_first;
    keyboard_first = o.keyboard_first;
    draining_closed = o.draining_closed;
    finished_closed = o.finished_closed;
    finished_empty = λ f. ground (arith, o.finished_closed f);
    finished_complete = o.finished_complete;
  }

  -- A loop that has not exited sends to a channel that is open.
  pub printer_open :
      (g : Goroutines W E) → IsOrderly g → g.printer_exited ≡ false → g.closed ≡ false
  printer_open g o e = elim (Bool-cases g.closed) [
    | inl c ↦ ground (arith, o.printer_first (o.closed_cancelled c))
    | inr c ↦ c
  ]

  pub keyboard_open :
      (g : Goroutines W E) → IsOrderly g → g.keyboard_exited ≡ false → g.closed ≡ false
  keyboard_open g o e = elim (Bool-cases g.closed) [
    | inl c ↦ ground (arith, o.keyboard_first (o.closed_cancelled c))
    | inr c ↦ c
  ]

  abbrev pub Holds : W → List (EventsTransport E) → Goroutines W E → Type 0
  Holds w sent g = Delivers w sent g × IsOrderly g

  pub send-Holds :
      (ev : EventsTransport E) (w : W) (sent : List (EventsTransport E)) (g : Goroutines W E)
      → is_known ev ≡ true
      → g.closed ≡ false
      → Holds w sent g
      → Holds w (sent ++ (ev ∷ [])) (send W E ev g)
  send-Holds ev w sent g k e d =
      subst (Holds w (sent ++ (ev ∷ []))) (sym (send-sent_to ev g e))
        (sent_to-Delivers ev w sent g k d.0, sent_to-IsOrderly ev g e d.1)

  received : List (EventsTransport E) → W → Goroutines W E → Goroutines W E
  received rest v g = record g { events = rest; world = v }

  receive_event-received :
      (ev : EventsTransport E) (rest : List (EventsTransport E)) (v : W) (g : Goroutines W E)
      → handle ev g.world ≡ some v
      → receive_event W E line_in h ev rest g ≡ received rest v g
  unfolding receive_event received
  receive_event-received ev rest v g f =
      ap
        (λ r. elim r [
          | none ↦ record g { events = rest; panicked = true }
          | some w ↦ record g { events = rest; world = w }
        ])
        f

  received-Delivers :
      (ev : EventsTransport E) (rest sent : List (EventsTransport E)) (w v : W) (g : Goroutines W E)
      → g.events ≡ ev ∷ rest
      → handle ev g.world ≡ some v
      → AreKnown (ev ∷ rest)
      → Delivers w sent g
      → Delivers w sent (received rest v g)
  unfolding received
  received-Delivers ev rest sent w v g e f ks d = record {
    not_panicked = d.not_panicked;
    processed = d.processed ++ (ev ∷ []);
    world_processed =
        process_all-append d.processed ev w
        ∙ (ap (λ r. and_then r (handle ev)) d.world_processed ∙ f);
    all_sent =
        append_assoc d.processed (ev ∷ []) rest
        ∙ (ap (λ es. d.processed ++ es) (sym e) ∙ d.all_sent);
    are_known = ks.1;
  }

  received-IsOrderly :
      (rest : List (EventsTransport E)) (v : W) (g : Goroutines W E)
      → g.phase ≢ finished
      → IsOrderly g
      → IsOrderly (received rest v g)
  unfolding received
  received-IsOrderly rest v g n o = record {
    closed_cancelled = o.closed_cancelled;
    printer_first = o.printer_first;
    keyboard_first = o.keyboard_first;
    draining_closed = o.draining_closed;
    finished_closed = o.finished_closed;
    finished_empty = λ c. absurd (n c);
    finished_complete = o.finished_complete;
  }

  receive_event-Holds :
      (ev : EventsTransport E) (rest sent : List (EventsTransport E)) (w : W) (g : Goroutines W E)
      → g.events ≡ ev ∷ rest
      → g.phase ≢ finished
      → Holds w sent g
      → Holds w sent (receive_event W E line_in h ev rest g)
  receive_event-Holds ev rest sent w g e n d =
      let ks : AreKnown (ev ∷ rest) = subst AreKnown e d.0.are_known in
      let k = known ev g.world ks.0 in
      subst (Holds w sent) (sym (receive_event-received ev rest k.0 g k.1))
        (received-Delivers ev rest sent w k.0 g e k.1 ks d.0, received-IsOrderly rest k.0 g n d.1)

  pub receive_event-kept :
      (ev : EventsTransport E) (rest sent : List (EventsTransport E)) (w : W) (g : Goroutines W E)
      → g.events ≡ ev ∷ rest
      → g.phase ≢ finished
      → Holds w sent g
      → Holds w (sent ++ []) (receive_event W E line_in h ev rest g)
  receive_event-kept ev rest sent w g e n d =
      subst (λ s. Holds w s (receive_event W E line_in h ev rest g)) (sym (append-nil sent))
        (receive_event-Holds ev rest sent w g e n d)

  -- A step that only moves the flags.
  pub same_flow :
      (w : W) (sent : List (EventsTransport E)) (g k : Goroutines W E)
      → k.panicked ≡ g.panicked
      → k.world ≡ g.world
      → k.events ≡ g.events
      → Delivers w sent g
      → Delivers w (sent ++ []) k
  same_flow w sent g k p v e d = record {
    not_panicked = p ∙ d.not_panicked;
    processed = d.processed;
    world_processed = d.world_processed ∙ ap (λ u. some u) (sym v);
    all_sent = ap (λ es. d.processed ++ es) e ∙ (d.all_sent ∙ sym (append-nil sent));
    are_known = subst AreKnown (sym e) d.are_known;
  }
