-- ===== src/Keyboard/Tests.antt =====
-- Runs of keyboard.go.
use telnet.TerminalData.{TerminalData, text_data, command_data, prompt_data, KeyboardTransport}
use telnet.Keyboard.Loop.{
  Event, input, unlocked, keyboard_loop, step, write_single, write_all, new_keyboard_loop,
}
use telnet.Keyboard.Received.{inputs, texts, commands}
use telnet.Keyboard.Order.{Keeps, written, keyboard_loop-Keeps, unlocked_writes_all}
use telnet.Keyboard.Locked.{locked_writes_commands}
use telnet.Keyboard.Write.{KeyboardWorld, write}
use telnet.Keyboard.Repeats.{string_transport, write_string_repeats}
use telnet.Prelude.{ℕ, List, Bool, true, ◌++◌, [], ◌∷◌, ◌≡◌, refl, none, some, false, arith}
use telnet.Command.{of_op}
use telnet.Keyboard.{command_bytes, write_command}
use telnet.Keyboard.Wire.{command_bytes-iac_at_end}
use telnet.Scanner.{scan_telnet}

suppressed_go_ahead : write_command 2 (of_op 249) ≡ none
unfolding write_command
suppressed_go_ahead = refl

written_go_ahead : write_command 3 (of_op 249) ≡ some (255 ∷ 249 ∷ [])
unfolding write_command
written_go_ahead = refl

-- NAWS, 80 columns and 255 rows.
command_bytes-iac_at_end_example :
    scan_telnet
      (command_bytes
        (record { op_code = 250; option = 31; subnegotiation = 0 ∷ 80 ∷ 0 ∷ 255 ∷ [] }))
      false
    ≡ some (record { advance = 0; token = some [] })
command_bytes-iac_at_end_example = command_bytes-iac_at_end 31 (0 ∷ 80 ∷ 0 ∷ []) (ground arith)

abbrev text_of : TerminalData → List ℕ
text_of (text_data s) = s
text_of _ = []

abbrev new_world : KeyboardWorld
new_world = record { prompts = 1; decoded = []; answers = []; wire = []; events = [] }

-- What is written is noted.
abbrev note : KeyboardTransport → List KeyboardTransport → List KeyboardTransport × Bool
note t w = (w ++ (t ∷ []), true)

abbrev hello : KeyboardTransport
hello = record { unparsed_string = 104 ∷ []; transported = none; post_send = none }

abbrev prompt : KeyboardTransport
prompt = record { unparsed_string = []; transported = some (prompt_data 0); post_send = none }

abbrev will_echo : KeyboardTransport
will_echo = record {
  unparsed_string = [];
  transported = some (command_data (record { op_code = 251; option = 1; subnegotiation = [] }));
  post_send = none;
}

-- A text before the lock, and a text, a command and a prompt during it.
abbrev lock_events : List Event
lock_events = input false hello ∷ input true hello ∷ input true will_echo ∷ input false prompt ∷ []

keyboard_loop-Keeps_example : Keeps (List KeyboardTransport) note [] (inputs lock_events) (
    keyboard_loop
      (List KeyboardTransport)
      note
      lock_events
      (new_keyboard_loop (List KeyboardTransport) []))
unfolding keyboard_loop step write_single new_keyboard_loop
keyboard_loop-Keeps_example = keyboard_loop-Keeps (List KeyboardTransport) note [] lock_events refl

unlocked_writes_all_example :
    (log : List KeyboardTransport) × ((step (List KeyboardTransport) note (unlocked false) (
        keyboard_loop
          (List KeyboardTransport)
          note
          lock_events
          (new_keyboard_loop (List KeyboardTransport) []))).world
      ≡ written (List KeyboardTransport) note log [])
    × (texts log ≡ texts (inputs lock_events))
    × (commands log ≡ commands (inputs lock_events))
unfolding keyboard_loop step write_single write_all new_keyboard_loop
unlocked_writes_all_example =
    unlocked_writes_all (List KeyboardTransport) note [] lock_events refl refl

abbrev locked_events : List Event
locked_events = input true hello ∷ input true will_echo ∷ unlocked true ∷ input true prompt ∷ []

locked_writes_commands_example :
    ((keyboard_loop
        (List KeyboardTransport)
        note
        locked_events
        (new_keyboard_loop (List KeyboardTransport) [])).world
      ≡ will_echo ∷ [])
    × ((keyboard_loop
          (List KeyboardTransport)
          note
          locked_events
          (new_keyboard_loop (List KeyboardTransport) [])).queued_writes
        ≡ hello ∷ prompt ∷ [])
unfolding keyboard_loop step write_single new_keyboard_loop
locked_writes_commands_example =
    locked_writes_commands (List KeyboardTransport) note [] locked_events
      (refl, (refl, (refl, (refl, tt)))) refl

-- A string that is one text, written as it is.
write_string_repeats_example :
    (write
      (λ s. text_data s ∷ [])
      (λ d. d ∷ [])
      (λ s. some s)
      text_of
      (λ p w. (w, none))
      (string_transport (98 ∷ []))
      (write
        (λ s. text_data s ∷ [])
        (λ d. d ∷ [])
        (λ s. some s)
        text_of
        (λ p w. (w, none))
        (string_transport (97 ∷ []))
        new_world).0).0.wire
    ≡ (97 ∷ []) ∷ (97 ∷ []) ∷ (98 ∷ []) ∷ []
write_string_repeats_example =
    write_string_repeats (λ s. text_data s ∷ []) (λ d. d ∷ []) (λ s. some s) text_of
      (λ p w. (w, none)) 97 98 [] [] ((97 ∷ []) ∷ []) ((98 ∷ []) ∷ []) ((97 ∷ []) ∷ [])
      ((98 ∷ []) ∷ []) new_world refl refl refl refl (refl, tt) (refl, tt)
