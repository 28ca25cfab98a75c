-- ===== src/Printer/Tests.antt =====
-- Streams for a terminal with EOR and one with ECHO.
use telnet.Prelude.{map, ◌≡◌, refl, Bool, true, false, some, none, List, [], ◌∷◌, text, arith}
use telnet.Command.{Command, of_op, of_option}
use telnet.TerminalData.{inactive, text_data, prompt_data, command_data}
use telnet.KeyboardLock.{new_keyboard_lock}
use telnet.Terminal.{Terminal, eor}
use telnet.Keyboard.Wire.{prompts, negotiates}
use telnet.Scanner.{index}
use telnet.Negotiation.{process_telopt_command}
use telnet.DataParser.{sequence_data}
use telnet.DataParser.Tests.{toy, toy-IsDecoder}
use telnet.TelnetScanner.Tests.{toy_decode, start}
use telnet.Keyboard.{write_command}
use telnet.Keyboard.Loop.{keyboard_loop, new_keyboard_loop}
use telnet.Keyboard.Write.{KeyboardWorld}
use telnet.Keyboard.Sends.{bytes_of, command_events, write_to}
use telnet.Printer.Arrives.{read_of, outputs, keyboard_loop-print}
use telnet.Printer.{printer_output, process_output}
use telnet.Printer.Delivers.{delivered, Leaves}
use telnet.Printer.Messages.{Message, flat, says, commands, wire, out}
use telnet.Printer.Wire.{arrivals, print, print-wire}

-- EOR, which the remote may turn on.
abbrev with_eor : Terminal
with_eor = record {
  now = 0;
  binary = record { binary_encode = false; binary_decode = false };
  lock = new_keyboard_lock;
  keyboard_prompts = 1;
  printer_prompts = 1;
  input = [];
  output = [];
  options =
      (
        25,
        record {
          base = record { code = 25; local_state = inactive; remote_state = inactive; usage = 1 };
          kind = eor;
        },
      )
      ∷ [];
  events = [];
}

-- IAC EOR is a prompt only behind IAC WILL EOR.
abbrev sent : List Message
sent =
    commands (of_op 239)
    ∷ says (text "hi")
    ∷ commands (of_option 251 25)
    ∷ commands (of_op 239)
    ∷ []

-- Two reads.
abbrev sent_reads : List (List Message)
sent_reads =
    (commands (of_op 239) ∷ says (text "hi") ∷ [])
    ∷ (commands (of_option 251 25) ∷ commands (of_op 239) ∷ [])
    ∷ []

print-wire_example :
    Leaves toy_decode toy
      (print toy_decode toy 8 5 none start with_eor (map wire sent_reads))
      (delivered (arrivals toy_decode toy start sent) with_eor).0
      (delivered (arrivals toy_decode toy start sent) with_eor).1
      none
unfolding sequence_data out index
print-wire_example =
    print-wire toy_decode toy 8 5 none start with_eor sent_reads toy-IsDecoder
      (
        omega arith,
        (prompts 239 refl, (omega arith, refl, omega arith, refl, tt)),
        (refl, tt),
        (omega arith, (negotiates 251 25 refl, (prompts 239 refl, tt)), tt, tt),
      )
      (omega arith) (omega arith)

eor_test :
    (delivered (arrivals toy_decode toy start sent) with_eor).1
    ≡ printer_output (text_data (text "hi"))
      ∷ printer_output (command_data (of_option 251 25))
      ∷ printer_output (prompt_data 2)
      ∷ []
unfolding sequence_data out process_output process_telopt_command
eor_test = refl

-- A keyboard whose stream takes everything and which sends both prompts.
abbrev idle : KeyboardWorld
idle = record { prompts = 3; decoded = []; answers = []; wire = []; events = [] }

-- Two commands, read one by one.
abbrev handed_reads : List (List (Bool × Command))
handed_reads = ((true, of_option 251 25) ∷ []) ∷ ((false, of_op 239) ∷ []) ∷ []

keyboard_loop-print_example :
    let sent =
      (keyboard_loop KeyboardWorld
        (write_to (λ b. []) (λ d. d ∷ []) (λ b. some b) (λ d. []) (λ s w. (w, none)))
        (command_events (flat handed_reads))
        (new_keyboard_loop KeyboardWorld idle)).world.wire in
    (sent ≡ flat (map bytes_of handed_reads))
    × Leaves toy_decode toy
        (print toy_decode toy 6 3 none start with_eor (map read_of handed_reads))
        (delivered (outputs (flat handed_reads)) with_eor).0
        (delivered (outputs (flat handed_reads)) with_eor).1
        none
unfolding out write_command
keyboard_loop-print_example =
    keyboard_loop-print toy_decode toy (λ b. []) (λ d. d ∷ []) (λ b. some b) (λ d. [])
      (λ s w. (w, none)) handed_reads idle 6 3 none start with_eor (λ c. refl) (refl, (refl, tt))
      (negotiates 251 25 refl, (prompts 239 refl, tt)) (omega arith, (omega arith, tt)) refl refl
      toy-IsDecoder (omega arith) (omega arith)
