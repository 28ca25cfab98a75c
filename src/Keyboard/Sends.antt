-- ===== src/Keyboard/Sends.antt =====
-- keyboard.go: what the keyboard puts on the wire for commands.
use telnet.Prelude.{
  ℕ, ◌≡◌, refl, sym, ap, ◌∙◌, Bool, true, false, not, Option, none, some, List, [], ◌∷◌, ◌++◌,
  append-nil, append_assoc, Bytes,
}
use telnet.Command.{Command}
use telnet.TerminalData.{TerminalData, command_data, KeyboardTransport, PostSend}
use telnet.Keyboard.{write_command, command_bytes}
use telnet.Keyboard.Loop.{Event, input, step, write_single, keyboard_loop}
use telnet.Keyboard.Write.{
  KeyboardWorld, KeyboardError, outbound, take_answer, write_output, write_command_out, decode,
  write_data, write_decoded, call_back, handle_error, write,
}

-- `WriteCommand` without a callback.
abbrev pub command_transport : Command → KeyboardTransport
command_transport c = record {
  unparsed_string = [];
  transported = some (command_data c);
  post_send = none;
}

-- Commands that reach the loop, each with whether the keyboard is locked then.
abbrev pub command_events : List (Bool × Command) → List Event
command_events [] = []
command_events ((locked, c) ∷ rest) = input locked (command_transport c) ∷ command_events rest

-- None is a prompt command that is suppressed.
abbrev pub AreUnsuppressed : ℕ → List (Bool × Command) → Type 0
AreUnsuppressed prompts [] = Unit {0}
AreUnsuppressed prompts ((locked, c) ∷ rest) =
    (write_command prompts c ≡ some (command_bytes c)) × AreUnsuppressed prompts rest

abbrev pub bytes_of : List (Bool × Command) → List Bytes
bytes_of [] = []
bytes_of ((locked, c) ∷ rest) = command_bytes c ∷ bytes_of rest

module _ (parse : Bytes → List TerminalData) (through : TerminalData → List TerminalData)
    (encode : Bytes → Option Bytes) (data_string : TerminalData → Bytes)
    (run_callback : PostSend → KeyboardWorld → KeyboardWorld × Option KeyboardError) where
  abbrev pub write_to : KeyboardTransport → KeyboardWorld → KeyboardWorld × Bool
  write_to = write parse through encode data_string run_callback

  -- Behind the write of a command.
  abbrev wrote : Command → KeyboardWorld → KeyboardWorld
  wrote c w = record w {
    decoded = command_data c ∷ [];
    answers = [];
    wire = w.wire ++ (command_bytes c ∷ []);
    events = w.events ++ (outbound (command_data c) ∷ []);
  }

  command_written :
      (c : Command) (w : KeyboardWorld)
      → write_command w.prompts c ≡ some (command_bytes c)
      → w.answers ≡ []
      → write_command_out c w
        ≡ (record w { answers = []; wire = w.wire ++ (command_bytes c ∷ []) }, none)
  unfolding write_command_out write_output take_answer
  command_written c w goes takes =
      ap (λ o. elim o [ none ↦ (w, none) | some b ↦ write_output b w ]) goes
      ∙ ap
          (λ r. elim r.0 [
            | none ↦ (record w { answers = r.1; wire = w.wire ++ (command_bytes c ∷ []) }, none)
            | some x ↦ (record w { answers = r.1 }, some x)
          ])
          (ap take_answer takes)

  write_to-wrote :
      (c : Command) (w : KeyboardWorld)
      → through (command_data c) ≡ command_data c ∷ []
      → write_command w.prompts c ≡ some (command_bytes c)
      → w.answers ≡ []
      → write_to (command_transport c) w ≡ (wrote c w, true)
  unfolding write decode write_decoded write_data call_back handle_error
  write_to-wrote c w passes goes takes =
      ap
        (λ ds. handle_error (
          call_back parse through encode data_string run_callback none (
            write_decoded parse through encode data_string run_callback ds
              (record w { decoded = ds }))))
        passes
      ∙ ap
          (λ r. handle_error (
            call_back parse through encode data_string run_callback none (elim r.1 [
              | some e ↦ (r.0, some e)
              | none ↦
                  (record r.0 { events = r.0.events ++ (outbound (command_data c) ∷ []) }, none)
            ])))
          (command_written c (record w { decoded = command_data c ∷ [] }) goes takes)

  pub loop_sends :
      (cs : List (Bool × Command)) (queue : List KeyboardTransport) (w : KeyboardWorld)
      → ((c : Command) → through (command_data c) ≡ command_data c ∷ [])
      → AreUnsuppressed w.prompts cs
      → w.answers ≡ []
      → (keyboard_loop KeyboardWorld write_to
          (command_events cs)
          (record { queued_writes = queue; world = w; ended = false })).world.wire
        ≡ w.wire ++ bytes_of cs
  unfolding keyboard_loop step write_single
  loop_sends [] queue w passes goes takes = sym (append-nil w.wire)
  loop_sends ((locked, c) ∷ cs) queue w passes goes takes =
      ap
        (λ r.
          (keyboard_loop KeyboardWorld write_to (command_events cs)
            (record { queued_writes = queue; world = r.0; ended = not r.1 })).world.wire)
        (write_to-wrote c w (passes c) goes.0 takes)
      ∙ (loop_sends cs queue (wrote c w) passes goes.1 refl
          ∙ append_assoc w.wire (command_bytes c ∷ []) (bytes_of cs))
