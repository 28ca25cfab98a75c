-- ===== src/EventPump/Tests.antt =====
-- A terminal whose hooks list what they are called with.
use telnet.Prelude.{
  ℕ, ◌+◌, ◌≤◌, ◌≡◌, ◌⊎◌, false, inl, inr, refl, some, List, [], ◌∷◌, ◌++◌, text, arith, true,
}
use telnet.TerminalData.{TerminalData, text_data}
use telnet.Hooks.{new_publisher, register, fire}
use telnet.EventPump.{
  EventsTransport, looping, finished, event_error, event_printer_output, TerminalHooks, Goroutines,
  new_goroutines, encountered_error, encountered_printer_output, close_events, complete_pump,
  receive_event, printer_error, printer_output, printer_exits, keyboard_exits, cancels, receives,
  stops, drains, completes, Run, here, next,
}
use telnet.EventPump.Kept.{process_all, Delivers}
use telnet.EventPump.Delivers.{Run-Delivers}
use telnet.EventPump.Ends.{CanStep, exited_finishes}

-- What hooks have seen: errors, and outputs.
abbrev World : Type 0
World = List (ℕ ⊎ TerminalData)

abbrev see_output : TerminalData → World → World
see_output d w = w ++ (inr d ∷ [])

abbrev see_error : ℕ → World → World
see_error e w = w ++ (inl e ∷ [])

abbrev hooks : TerminalHooks World ℕ
hooks = record {
  printer_output_hooks = record { registered_hooks = see_output ∷ [] };
  outbound_data_hooks = record { registered_hooks = [] };
  encountered_error_hooks = record { registered_hooks = see_error ∷ see_error ∷ [] };
}

-- Without middlewares.
abbrev line_in : (TerminalData → World → World) → TerminalData → World → World
line_in out d w = out d w

register_test :
    fire World ℕ (register World ℕ see_error (new_publisher World ℕ (see_error ∷ []))) 5 []
    ≡ inl 5 ∷ inl 5 ∷ []
unfolding register new_publisher fire
register_test = refl

abbrev hello : TerminalData
hello = text_data (text "hi")

abbrev sent : List (EventsTransport ℕ)
sent = event_printer_output hello ∷ event_error 7 ∷ []

-- The printer has sent two events and exited, and so has the keyboard.
abbrev exited : Goroutines World ℕ
exited = record {
  events = sent;
  closed = false;
  complete = false;
  phase = looping;
  printer_exited = true;
  keyboard_exited = true;
  cancelled = false;
  panicked = false;
  world = [];
}

exited-Run : Run World ℕ line_in hooks (new_goroutines World ℕ []) 4 sent exited
unfolding new_goroutines encountered_printer_output encountered_error
exited-Run =
    next
      (next
        (next (next here (printer_output hello refl (inl (omega arith))))
          (printer_error 7 refl (inl (omega arith))))
        (printer_exits refl))
      (keyboard_exits refl)

-- The first event has been taken out, and the terminal loop has ended behind the second.
abbrev ended : Goroutines World ℕ
ended = record exited {
  events = [];
  closed = true;
  complete = true;
  phase = finished;
  cancelled = true;
  world = inr hello ∷ inl 7 ∷ inl 7 ∷ [];
}

ended-Run : Run World ℕ line_in hooks exited 5 [] ended
unfolding receive_event close_events complete_pump
ended-Run =
    next
      (next
        (next
          (next (next here (receives (event_printer_output hello) (event_error 7 ∷ []) refl refl))
            (cancels refl refl refl))
          (stops refl refl))
        (drains (event_error 7) [] refl refl))
      (completes refl refl)

Run-Delivers_example : Delivers World ℕ line_in hooks [] sent exited
Run-Delivers_example = Run-Delivers World ℕ line_in hooks [] exited-Run

exited_finishes_example :
    (5 ≤ 2 + 3)
    × (CanStep World ℕ line_in hooks ended
        ⊎ ((true ≡ true)
            × (process_all World ℕ line_in hooks (sent ++ []) []
                ≡ some (inr hello ∷ inl 7 ∷ inl 7 ∷ []))))
exited_finishes_example = exited_finishes World ℕ line_in hooks [] exited-Run (refl, refl) ended-Run
