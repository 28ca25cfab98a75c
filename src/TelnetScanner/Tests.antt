-- ===== src/TelnetScanner/Tests.antt =====
-- Streams whose texts are decoded as they are; 226 at the end is the beginning of a rune.
use telnet.Prelude.{
  ℕ, suc, ◌≡◌, refl, Bool, true, false, none, some, List, [], ◌∷◌, ◌++◌, ◌==◌, ◌&&◌, if◌then◌else◌,
  Bytes, text, arith, map,
}
use telnet.Command.{of_op, of_option, parse_command}
use telnet.TerminalData.{TerminalData, text_data, prompt_data, command_data, esc_data}
use telnet.Cp437.{short_src}
use telnet.Charset.Decode.{EncodingState, encoding_unsure, Decoded}
use telnet.DataParser.{sequence_data, parse_loop, next_output, round}
use telnet.DataParser.Pieces.{Position}
use telnet.DataParser.Fired.{at}
use telnet.DataParser.Tests.{toy, toy-IsDecoder}
use telnet.TelnetScanner.{end_of_file, new_telnet_scanner, wrap_reader, push_command}
use telnet.TelnetScanner.Scan.{scan, scan_all, scan_tokens, scan_token, scan_text, scan_end}
use telnet.TelnetScanner.Dangling.{process_dangling}
use telnet.TelnetScanner.Units.{units, command_unit, text_unit, AllUnits}
use telnet.TelnetScanner.Texts.{ready}
use telnet.Scanner.{scan_telnet}
use telnet.TelnetScanner.Reads.{read_tokens, incomplete_read_spins}
use telnet.TelnetScanner.Order.{given_out, scan_all-units}
use telnet.TelnetScanner.CutOff.{CutsOff, command_overtakes, end_loses_text}

abbrev is_nil : Bytes → Bool
is_nil [] = true
is_nil (x ∷ b) = false

abbrev decode_text : Bytes → Decoded
decode_text [] = record { consumed = 0; decoded = []; fellback = encoding_unsure; failure = none }
decode_text (x ∷ b) =
    let rest = decode_text b in
    if x == 226 && is_nil b
    then record { consumed = 0; decoded = []; fellback = encoding_unsure; failure = some short_src }
    else record {
      consumed = suc rest.consumed;
      decoded = x ∷ rest.decoded;
      fellback = encoding_unsure;
      failure = rest.failure;
    }

abbrev pub toy_decode : ℕ → Bytes → EncodingState → Decoded
toy_decode room b state = decode_text b

abbrev pub start : Position ℕ
start = record { state = 0; parser = 0; begun = [] }

-- A text with an escape sequence, IAC GA, the beginning of a sequence, IAC WILL 24, and the rest of it.
abbrev pub session : List Bytes
session =
    (text "ab" ++ (27 ∷ 99 ∷ text "c")) ∷ (255 ∷ 249 ∷ []) ∷ text "d" ∷ (255 ∷ 251 ∷ 24 ∷ []) ∷ []

abbrev given : List TerminalData
given =
    text_data (text "ab")
    ∷ esc_data (27 ∷ 99 ∷ [])
    ∷ text_data (text "c")
    ∷ prompt_data 1
    ∷ text_data (text "d")
    ∷ command_data (of_option 251 24)
    ∷ []

session_test : units toy_decode toy start session ≡ given
unfolding sequence_data parse_command
session_test = refl

abbrev pub session-AllUnits : AllUnits toy_decode toy session
unfolding parse_command
session-AllUnits = (
  text_unit refl (omega arith) (omega arith) refl,
  (
    command_unit (of_op 249) (prompt_data 1) refl refl refl,
    (
      text_unit refl (omega arith) (omega arith) refl,
      (command_unit (of_option 251 24) (command_data (of_option 251 24)) refl refl refl, tt),
    ),
  ),
)

scan_all-units_example :
    scan_all toy_decode toy 7
      (new_telnet_scanner (record { tokens = session; error = none }) (at toy [] 0 0 [] [] []))
    ≡ some (map (given_out toy_decode toy) (units toy_decode toy start session))
unfolding sequence_data parse_command
scan_all-units_example =
    scan_all-units toy_decode toy 7 session none start toy-IsDecoder session-AllUnits (omega arith)

abbrev hi-CutsOff :
    CutsOff toy_decode toy (text "hi" ++ (226 ∷ [])) (226 ∷ []) (text "hi") start start
unfolding next_output parse_loop round
hi-CutsOff = record {
  is_text = refl;
  decodes = omega arith;
  leaves = refl;
  cut_off = refl;
  builds = refl;
}

command_overtakes_example :
    (scan toy_decode toy (
        ready toy_decode toy start [] [] false none none
          ((text "hi" ++ (226 ∷ [])) ∷ (255 ∷ 241 ∷ []) ∷ [])
          none)
      ≡ some (
        true,
        ready toy_decode toy start
            (text "hi")
            []
            false
            none
            (some (command_data (of_op 241)))
            []
            none,
      ))
    × (scan toy_decode toy (
          ready toy_decode toy start
            (text "hi")
            []
            false
            none
            (some (command_data (of_op 241)))
            []
            none)
        ≡ some (
          true,
          ready toy_decode toy start [] [] false none (some (text_data (text "hi"))) [] none,
        ))
unfolding parse_command
command_overtakes_example =
    command_overtakes toy_decode toy 104 (105 ∷ 226 ∷ []) 226 [] 104 (105 ∷ []) start start 255
      (241 ∷ []) (of_op 241) [] none hi-CutsOff refl refl

end_loses_text_example :
    scan_all toy_decode toy 5
      (ready toy_decode toy start [] [] false none none ((text "hi" ++ (226 ∷ [])) ∷ []) none)
    ≡ some ((none, none) ∷ [])
end_loses_text_example =
    end_loses_text toy_decode toy 104 (105 ∷ 226 ∷ []) 226 [] 104 (105 ∷ []) start start 3
      hi-CutsOff refl refl

-- Behind the end of a wrapped stream that has no error, as at the end of the input, the stream below it is
-- not read.
wrapped_test :
    scan_all toy_decode toy 3 (
      wrap_reader
        (record { tokens = []; error = none })
        (ready toy_decode toy start [] [] false none none (text "hi" ∷ []) none))
    ≡ some []
unfolding scan_all scan scan_tokens scan_end process_dangling next_output parse_loop push_command
    wrap_reader
wrapped_test = refl

-- It would be behind an EOF, which is no error of a `bufio.Scanner`.
wrapped_end_test :
    scan_all toy_decode toy 3 (
      wrap_reader
        (record { tokens = []; error = some end_of_file })
        (ready toy_decode toy start [] [] false none none (text "hi" ∷ []) none))
    ≡ some ((some (text_data (text "hi")), none) ∷ [])
unfolding scan_all scan scan_tokens scan_token scan_text scan_end process_dangling next_output
    parse_loop round push_command wrap_reader
wrapped_end_test = refl

-- A read ends behind IAC WILL.
incomplete_read_spins_example :
    (scan_telnet (255 ∷ 251 ∷ []) false ≡ some (record { advance = 0; token = some [] }))
    × (read_tokens 1000 false (255 ∷ 251 ∷ []) ((25 ∷ []) ∷ []) ≡ none)
incomplete_read_spins_example =
    incomplete_read_spins 1000 255 (251 ∷ []) ((25 ∷ []) ∷ []) (refl, refl)

-- The same in one read.
whole_read_test :
    read_tokens 4 false [] ((255 ∷ 251 ∷ 25 ∷ []) ∷ []) ≡ some ((255 ∷ 251 ∷ 25 ∷ []) ∷ [])
unfolding read_tokens scan_telnet
whole_read_test = refl
