-- ===== src/TelnetScanner/Units.antt =====
-- printer_scan.go: what tokens are to come out as, one behind the other.
use telnet.Prelude.{
  ℕ, ◌≤◌, ◌≡◌, true, false, Option, none, some, List, [], ◌∷◌, ◌++◌, if◌then◌else◌, Bytes, length,
  Result, ok,
}
use telnet.Command.{Command, ParseError, parse_command}
use telnet.TerminalData.{TerminalData}
use telnet.Charset.Decode.{EncodingState, encoding_unsure, Decoded}
use telnet.DataParser.{rounds, Ansi}
use telnet.DataParser.Pieces.{pieces, merge, Position, position}
use telnet.TelnetScanner.{is_command_token, output_of}

abbrev pub output_list : Option TerminalData → List TerminalData
output_list none = []
output_list (some o) = o ∷ []

abbrev pub command_units : Result ParseError Command → List TerminalData
command_units (ok c) = output_list (output_of c)
command_units _ = []

module _ (decode : ℕ → Bytes → EncodingState → Decoded) (a : Ansi) where
  open a use {Parser}

  abbrev pub decoded_token : Bytes → Bytes
  decoded_token t = (decode 1000 t encoding_unsure).decoded

  -- A command is one unit; text is what its decoding is parsed as, from where the parser stands.
  abbrev pub units : Position Parser → List Bytes → List TerminalData
  units p [] = []
  units p (t ∷ ts) =
      let w : Bytes = decoded_token t in
      let behind_command = units p ts in
      let behind_text = units (position a (rounds w) w p.state p.parser p.begun) ts in
      if is_command_token t
      then command_units (parse_command t) ++ behind_command
      else merge [] (pieces a (rounds w) w p.state p.parser p.begun) ++ behind_text

  -- A token that is a command with an output, or text that is decoded whole.
  pub data IsUnit (t : Bytes) : Type 0 where
    command_unit :
        (c : Command) (o : TerminalData)
        → is_command_token t ≡ true
        → parse_command t ≡ ok c
        → output_of c ≡ some o
        → IsUnit t
    text_unit :
        is_command_token t ≡ false
        → 1 ≤ length t
        → length t ≤ (decode 1000 t encoding_unsure).consumed
        → (decode 1000 t encoding_unsure).failure ≡ none
        → IsUnit t

  abbrev pub AllUnits : List Bytes → Type 0
  AllUnits [] = Unit {0}
  AllUnits (t ∷ ts) = IsUnit t × AllUnits ts
