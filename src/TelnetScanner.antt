-- ===== src/TelnetScanner.antt =====
-- printer_scan.go: the scanner. The tokens that `bufio.Scanner` cuts out of a stream are listed, with the
-- error that it has behind the last one; a context that is done ends them too. The decoder is that of
-- the charset, which stays; the rest of it is a parameter, and so is the data parser.
pub mod Dangling
pub mod Scan
pub mod Reads
pub mod Units
pub mod Texts
pub mod Order
pub mod CutOff
pub mod Tests
use telnet.Prelude.{
  ℕ, zero, suc, Bool, true, false, not, ◌&&◌, ◌||◌, Option, none, some, List, [], ◌∷◌, ◌++◌, ◌==◌,
  if◌then◌else◌, Bytes, length, drop, ltb, ok, err, panic,
}
use telnet.Opcode.{iac, ga, eor}
use telnet.PromptCommands.{prompt_command_ga, prompt_command_eor}
use telnet.Command.{Command, of_op, ParseError, parse_command}
use telnet.TerminalData.{TerminalData, command_data, prompt_data}
use telnet.Cp437.{TransformError, short_dst, short_src, not_supported}
use telnet.Charset.Decode.{
  EncodingState, encoding_unsure, encoding_invalid, encoding_valid, Decoded,
}
use telnet.DataParser.{Ansi, TerminalDataParser, flush, next_output}

pub data ScanError : Type 0 where
  end_of_file timeout closed stream_error : ScanError
  decode_error : TransformError → ScanError
  parse_error : ParseError → ScanError

pub record Stream : Type 0 where
  pub tokens : List Bytes
  -- `Err()` behind the last token; `bufio.Scanner` has none at the end of the input.
  pub error : Option ScanError

-- `base` is the stream below a wrapped one that is read.
pub record TelnetScanner (P : Type 0) : Type 0 where
  pub stream : Stream
  pub base : Option Stream
  pub parser : TerminalDataParser P
  pub at_eof : Bool
  pub bytes_to_decode : Bytes
  pub failure : Option ScanError
  pub next_output : Option TerminalData
  pub out_command : Command

abbrev pub is_command_token : Bytes → Bool
is_command_token (x ∷ y ∷ rest) = x == iac
is_command_token _ = false

abbrev pub is_some {ℓ} : {A : Type ℓ} → Option A → Bool
is_some none = false
is_some (some a) = true

-- `fallback` is raised and never lowered.
abbrev pub raised : EncodingState → EncodingState → EncodingState
raised encoding_unsure state = state
raised encoding_invalid encoding_valid = encoding_valid
raised encoding_invalid _ = encoding_invalid
raised encoding_valid _ = encoding_valid

abbrev pub is_end_of_file : Option ScanError → Bool
is_end_of_file (some end_of_file) = true
is_end_of_file _ = false

-- `defer`: the bytes that are left move to the front.
abbrev pub keep_left : Bytes → Bytes → Bytes
keep_left bytes left =
    if ltb 0 (length bytes) && ltb (length left) (length bytes) then left else bytes

abbrev pub output_of : Command → Option TerminalData
output_of c =
    if c.op_code == ga
    then some (prompt_data prompt_command_ga)
    else if c.op_code == eor
    then some (prompt_data prompt_command_eor)
    else if not (c.op_code == 0)
    then some (command_data c)
    else none

module _ {P : Type 0} where
  -- `NewTelnetScanner` around a stream.
  unfoldable pub new_telnet_scanner : Stream → TerminalDataParser P → TelnetScanner P
  new_telnet_scanner stream parser = record {
    stream = stream;
    base = none;
    parser = parser;
    at_eof = false;
    bytes_to_decode = [];
    failure = none;
    next_output = none;
    out_command = of_op 0;
  }

  -- `WrapReader` of printer.go, for a reader without an error.
  unfoldable pub wrap_reader : Stream → TelnetScanner P → TelnetScanner P
  wrap_reader wrapped s = record s {
    stream = wrapped;
    base = some (elim s.base [ none ↦ s.stream | some b ↦ b ]);
  }

  unfoldable pub push_error : ScanError → TelnetScanner P → TelnetScanner P
  push_error e s = elim s.failure [ none ↦ record s { failure = some e } | some f ↦ s ]

  unfoldable pub push_command : TelnetScanner P → TelnetScanner P
  push_command s = elim s.next_output [
    | some o ↦ s
    | none ↦ record s { next_output = output_of s.out_command; out_command = of_op 0 }
  ]
