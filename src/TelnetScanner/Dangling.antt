-- ===== src/TelnetScanner/Dangling.antt =====
-- printer_scan.go: `processDanglingBytes`.
use telnet.Prelude.{
  ℕ, zero, suc, Bool, Option, none, some, [], ◌∷◌, if◌then◌else◌, Bytes, length, drop,
}
use telnet.TerminalData.{TerminalData}
use telnet.Cp437.{TransformError, short_src}
use telnet.Charset.Decode.{EncodingState, encoding_unsure, Decoded}
use telnet.DataParser.{Ansi, TerminalDataParser, flush, next_output}
use telnet.TelnetScanner.{ScanError, decode_error, TelnetScanner, raised, keep_left}

-- What the loop of `processDanglingBytes` leaves: the bytes, the parser, the output and the error.
pub record DanglingEnd (P : Type 0) : Type 0 where
  pub left : Bytes
  pub parser : TerminalDataParser P
  pub output : Option TerminalData
  pub failure : Option ScanError

module _ (decode : ℕ → Bytes → EncodingState → Decoded) (a : Ansi) where
  open a use {Parser}

  -- Behind the output of a round: where the decoder failed, the loop ends.
  unfoldable pub after_round :
      Bool
      → Bytes
      → Option TransformError
      → TerminalDataParser Parser
      → Option (DanglingEnd Parser)
      → Option (DanglingEnd Parser)
  after_round at_eof left none p rest = rest
  after_round at_eof left (some short_src) p rest =
      some
        (record { left = if at_eof then [] else left; parser = p; output = none; failure = none })
  after_round at_eof left (some e) p rest =
      some (record { left = left; parser = p; output = none; failure = some (decode_error e) })

  -- Decoded bytes are parsed, if there are any; none is that the parser's loop ran out of fuel.
  abbrev pub parse_decoded :
      Bytes → TerminalDataParser Parser → Option (Option TerminalData × TerminalDataParser Parser)
  parse_decoded [] p = some (none, p)
  parse_decoded (b ∷ bs) p = next_output a (b ∷ bs) p

  -- With fuel for each byte; `none` means that it, or that of the parser, ran out.
  unfoldable pub decode_loop :
      ℕ → Bool → Bytes → EncodingState → TerminalDataParser Parser → Option (DanglingEnd Parser)
  unfolding next_output flush after_round
  decode_loop n at_eof [] state p =
      some (record { left = []; parser = (flush p).1; output = (flush p).0; failure = none })
  decode_loop zero at_eof (x ∷ b) state p = none
  decode_loop (suc n) at_eof (x ∷ b) state p =
      let d = decode 1000 (x ∷ b) state in
      let left : Bytes = drop d.consumed (x ∷ b) in
      elim (parse_decoded d.decoded p) [
        | none ↦ none
        | some (some o, q) ↦
            some (record { left = left; parser = q; output = some o; failure = none })
        | some (none, q) ↦
            after_round at_eof left d.failure q
              (decode_loop n at_eof left (raised state d.fellback) q)
      ]

  -- With the output; an error of the decoder is the scanner's.
  abbrev pub dangling_scanner :
      TelnetScanner Parser
      → Option (DanglingEnd Parser)
      → Option (Option TerminalData × TelnetScanner Parser)
  dangling_scanner s none = none
  dangling_scanner s (some d) = some (
    d.output,
    record s {
      parser = d.parser;
      bytes_to_decode = keep_left s.bytes_to_decode d.left;
      failure = elim d.failure [ none ↦ s.failure | some e ↦ some e ];
    },
  )

  unfoldable pub process_dangling_bytes :
      TelnetScanner Parser → Option (Option TerminalData × TelnetScanner Parser)
  unfolding next_output decode_loop
  process_dangling_bytes s = elim (next_output a [] s.parser) [
    | none ↦ none
    | some (some o, q) ↦ some (some o, record s { parser = q })
    | some (none, q) ↦
        dangling_scanner s
          (decode_loop (length s.bytes_to_decode) s.at_eof s.bytes_to_decode encoding_unsure q)
  ]

  -- `s.nextOutput = s.processDanglingBytes()`
  unfoldable pub process_dangling : TelnetScanner Parser → Option (TelnetScanner Parser)
  unfolding process_dangling_bytes
  process_dangling s = elim (process_dangling_bytes s) [
    | none ↦ none
    | some (o, t) ↦ some (record t { next_output = o })
  ]
