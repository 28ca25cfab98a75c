-- ===== src/EventPump/Delivers.antt =====
-- event.go: what is sent to the pump is processed, in order.
use telnet.Prelude.{ℕ, ◌≡◌, refl, sym, subst, true, List, [], ◌++◌, append_assoc, append-nil, arith}
use telnet.TerminalData.{TerminalData}
use telnet.EventPump.{
  EventsTransport, event_error, event_printer_output, event_outbound_data, draining, TerminalHooks,
  Goroutines, new_goroutines, encountered_error, encountered_printer_output,
  encountered_outbound_data, close_events, complete_pump, Step, printer_error, printer_output,
  keyboard_error, keyboard_outbound, printer_exits, keyboard_exits, cancels, receives, stops,
  drains, completes, Run, here, next,
}
use telnet.EventPump.Kept.{
  Delivers, IsOrderly, Holds, send-Holds, printer_open, keyboard_open, receive_event-kept,
  same_flow,
}

module _ (W E : Type 0) (line_in : (TerminalData → W → W) → TerminalData → W → W)
    (h : TerminalHooks W E) where
  printer_exits-IsOrderly :
      (g : Goroutines W E)
      → IsOrderly W E line_in h g
      → IsOrderly W E line_in h (record g { printer_exited = true })
  printer_exits-IsOrderly g o = record {
    closed_cancelled = o.closed_cancelled;
    printer_first = λ c. refl;
    keyboard_first = o.keyboard_first;
    draining_closed = o.draining_closed;
    finished_closed = o.finished_closed;
    finished_empty = o.finished_empty;
    finished_complete = o.finished_complete;
  }

  keyboard_exits-IsOrderly :
      (g : Goroutines W E)
      → IsOrderly W E line_in h g
      → IsOrderly W E line_in h (record g { keyboard_exited = true })
  keyboard_exits-IsOrderly g o = record {
    closed_cancelled = o.closed_cancelled;
    printer_first = o.printer_first;
    keyboard_first = λ c. refl;
    draining_closed = o.draining_closed;
    finished_closed = o.finished_closed;
    finished_empty = o.finished_empty;
    finished_complete = o.finished_complete;
  }

  cancels-IsOrderly :
      (g : Goroutines W E)
      → g.printer_exited ≡ true
      → g.keyboard_exited ≡ true
      → IsOrderly W E line_in h g
      → IsOrderly W E line_in h (record g { cancelled = true })
  cancels-IsOrderly g p q o = record {
    closed_cancelled = λ c. refl;
    printer_first = λ c. p;
    keyboard_first = λ c. q;
    draining_closed = o.draining_closed;
    finished_closed = o.finished_closed;
    finished_empty = o.finished_empty;
    finished_complete = o.finished_complete;
  }

  stops-IsOrderly :
      (g : Goroutines W E)
      → g.cancelled ≡ true
      → IsOrderly W E line_in h g
      → IsOrderly W E line_in h (close_events W E g)
  unfolding close_events
  stops-IsOrderly g c o = record {
    closed_cancelled = λ f. c;
    printer_first = o.printer_first;
    keyboard_first = o.keyboard_first;
    draining_closed = λ f. refl;
    finished_closed = λ f. refl;
    finished_empty = λ f. absurd (ground (arith, f));
    finished_complete = λ f. absurd (ground (arith, f));
  }

  completes-IsOrderly :
      (g : Goroutines W E)
      → g.phase ≡ draining
      → g.events ≡ []
      → IsOrderly W E line_in h g
      → IsOrderly W E line_in h (complete_pump W E g)
  unfolding complete_pump
  completes-IsOrderly g p e o = record {
    closed_cancelled = o.closed_cancelled;
    printer_first = o.printer_first;
    keyboard_first = o.keyboard_first;
    draining_closed = λ f. o.draining_closed p;
    finished_closed = λ f. o.draining_closed p;
    finished_empty = λ f. e;
    finished_complete = λ f. refl;
  }

  Step-Holds :
      {sent ev : List (EventsTransport E)} (w : W) {g k : Goroutines W E}
      → Step W E line_in h g ev k
      → Holds W E line_in h w sent g
      → Holds W E line_in h w (sent ++ ev) k
  unfolding encountered_error encountered_printer_output encountered_outbound_data close_events
      complete_pump
  Step-Holds {sent} w {g} (printer_error err e c) d =
      send-Holds W E line_in h (event_error err) w sent g refl (printer_open W E line_in h g d.1 e)
        d
  Step-Holds {sent} w {g} (printer_output output e c) d =
      send-Holds W E line_in h (event_printer_output output) w sent g refl
        (printer_open W E line_in h g d.1 e) d
  Step-Holds {sent} w {g} (keyboard_error err e c) d =
      send-Holds W E line_in h (event_error err) w sent g refl (keyboard_open W E line_in h g d.1 e)
        d
  Step-Holds {sent} w {g} (keyboard_outbound output e c) d =
      send-Holds W E line_in h (event_outbound_data output) w sent g refl
        (keyboard_open W E line_in h g d.1 e) d
  Step-Holds {sent} w {g} (printer_exits e) d =
      (same_flow W E line_in h w sent g _ refl refl refl d.0, printer_exits-IsOrderly g d.1)
  Step-Holds {sent} w {g} (keyboard_exits e) d =
      (same_flow W E line_in h w sent g _ refl refl refl d.0, keyboard_exits-IsOrderly g d.1)
  Step-Holds {sent} w {g} (cancels p q e) d =
      (same_flow W E line_in h w sent g _ refl refl refl d.0, cancels-IsOrderly g p q d.1)
  Step-Holds {sent} w {g} (receives ev rest p e) d =
      receive_event-kept W E line_in h ev rest sent w g e (λ f. ground (arith, p, f)) d
  Step-Holds {sent} w {g} (stops p c) d =
      (same_flow W E line_in h w sent g _ refl refl refl d.0, stops-IsOrderly g c d.1)
  Step-Holds {sent} w {g} (drains ev rest p e) d =
      receive_event-kept W E line_in h ev rest sent w g e (λ f. ground (arith, p, f)) d
  Step-Holds {sent} w {g} (completes p e) d =
      (same_flow W E line_in h w sent g _ refl refl refl d.0, completes-IsOrderly g p e d.1)

  new-Holds : (w : W) → Holds W E line_in h w [] (new_goroutines W E w)
  unfolding new_goroutines
  new-Holds w = (
    record {
      not_panicked = refl;
      processed = [];
      world_processed = refl;
      all_sent = refl;
      are_known = tt;
    },
    record {
      closed_cancelled = λ c. ground (arith, c);
      printer_first = λ c. ground (arith, c);
      keyboard_first = λ c. ground (arith, c);
      draining_closed = λ c. ground (arith, c);
      finished_closed = λ c. ground (arith, c);
      finished_empty = λ c. refl;
      finished_complete = λ c. ground (arith, c);
    },
  )

  pub Run-kept :
      (w : W) (before : List (EventsTransport E)) {g : Goroutines W E} {n : ℕ}
      {sent : List (EventsTransport E)} {k : Goroutines W E}
      → Holds W E line_in h w before g
      → Run W E line_in h g n sent k
      → Holds W E line_in h w (before ++ sent) k
  Run-kept w before {g} d here = subst (λ s. Holds W E line_in h w s g) (sym (append-nil before)) d
  Run-kept w before d (next {n} {sent} {ev} {k} {l} r s) =
      subst (λ es. Holds W E line_in h w es l) (append_assoc before sent ev)
        (Step-Holds w s (Run-kept w before d r))

  pub Run-Holds :
      {n : ℕ} {sent : List (EventsTransport E)} (w : W) {g : Goroutines W E}
      → Run W E line_in h (new_goroutines W E w) n sent g
      → Holds W E line_in h w sent g
  Run-Holds w r = Run-kept w [] (new-Holds w) r

  -- Whatever the goroutines of a new terminal have done: nothing has panicked, so that nothing was
  -- sent to a closed channel, and what they have sent is what has been processed, in order,
  -- followed by what waits in the channel.
  pub Run-Delivers :
      {n : ℕ} {sent : List (EventsTransport E)} (w : W) {g : Goroutines W E}
      → Run W E line_in h (new_goroutines W E w) n sent g
      → Delivers W E line_in h w sent g
  Run-Delivers w r = (Run-Holds w r).0
