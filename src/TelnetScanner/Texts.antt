-- ===== src/TelnetScanner/Texts.antt =====
-- printer_scan.go: what a token of text comes to.
use telnet.Prelude.{
  ℕ, ◌≤◌, ◌≡◌, refl, ap, ◌∙◌, Bool, true, false, Option, none, some, List, [], ◌∷◌, ◌++◌, Bytes,
  length, drop, arith,
}
use telnet.Command.{of_op}
use telnet.TerminalData.{TerminalData, text_data}
use telnet.Charset.Decode.{EncodingState, encoding_unsure, Decoded}
use telnet.DataParser.{rounds, Ansi, text_if, dequeue, parse_loop, next_output, flush}
use telnet.DataParser.Pieces.{pieces, merge, IsDecoder, Position, position}
use telnet.DataParser.Fired.{at, Parsed, parse_loop-rounds, drop-all}
use telnet.TelnetScanner.{ScanError, TelnetScanner, keep_left}
use telnet.TelnetScanner.Dangling.{
  parse_decoded, after_round, decode_loop, process_dangling_bytes, process_dangling,
}
use telnet.TelnetScanner.Scan.{scan_text}
use telnet.TelnetScanner.Units.{decoded_token}

pub keep_left-nil : (x : ℕ) (b : Bytes) → keep_left (x ∷ b) [] ≡ []
keep_left-nil x b = ground arith

module _ (decode : ℕ → Bytes → EncodingState → Decoded) (a : Ansi) where
  open a use {Parser}

  -- A scanner with no bytes left to decode.
  abbrev pub ready :
      Position Parser
      → Bytes
      → List TerminalData
      → Bool
      → Option ScanError
      → Option TerminalData
      → List Bytes
      → Option ScanError
      → TelnetScanner Parser
  ready p built queued at_eof failure next tokens e = record {
    stream = record { tokens = tokens; error = e };
    base = none;
    parser = at a p.begun p.parser p.state built queued [];
    at_eof = at_eof;
    bytes_to_decode = [];
    failure = failure;
    next_output = next;
    out_command = of_op 0;
  }

  -- A token of text is parsed whole, and its first unit, if any, is given out.
  pub data Read (e : Option ScanError) (tokens : List Bytes) (want : List TerminalData)
      (to : Position Parser) (r : Option (Bool × TelnetScanner Parser)) : Type 0 where
    nothing :
        want ≡ []
        → r ≡ some (false, ready to [] [] false none none tokens e)
        → Read e tokens want to r
    first :
        (d : TerminalData) (built : Bytes) (queued : List TerminalData)
        → want ≡ d ∷ (queued ++ text_if built)
        → r ≡ some (true, ready to built queued false none (some d) tokens e)
        → Read e tokens want to r

  -- Parsing decoded bytes, from a parser in which nothing waits, leaves their pieces.
  pub parse_decoded-pieces :
      (p : Position Parser) (w : Bytes)
      → IsDecoder a
      → (built : Bytes) × (queued : List TerminalData) × (parse_decoded decode a w
            (at a p.begun p.parser p.state [] [] [])
          ≡ some (
              dequeue (
                at a
                  (position a (rounds w) w p.state p.parser p.begun).begun
                  (position a (rounds w) w p.state p.parser p.begun).parser
                  (position a (rounds w) w p.state p.parser p.begun).state
                  built
                  queued
                  [])))
        × (queued ++ text_if built ≡ merge [] (pieces a (rounds w) w p.state p.parser p.begun))
  unfolding next_output
  parse_decoded-pieces p [] d = ([], [], refl, refl)
  parse_decoded-pieces p (y ∷ w) d =
      let r : Parsed a [] [] (pieces a (rounds (y ∷ w)) (y ∷ w) p.state p.parser p.begun)
          (position a (rounds (y ∷ w)) (y ∷ w) p.state p.parser p.begun)
          (parse_loop a (rounds (y ∷ w)) (at a p.begun p.parser p.state [] [] (y ∷ w))) =
        parse_loop-rounds a p.begun p.parser p.state [] [] (y ∷ w) d in
      (
        r.rest.builder,
        r.rest.terminal_data,
        r.is
            ∙ (ap
                  (λ bs. some (
                    dequeue (
                      at a r.rest.parsed_bytes r.rest.parser r.rest.parser_state r.rest.builder
                        r.rest.terminal_data bs)))
                  r.at_end
                ∙ ap
                    (λ (o : Position Parser). some (
                      dequeue
                        (at a o.begun o.parser o.state r.rest.builder r.rest.terminal_data [])))
                    r.stands),
        r.same,
      )

  -- A token of text is decoded whole and parsed whole, and its first unit, if any, is given out.
  pub scan_text-Read :
      (p : Position Parser) (x : ℕ) (b : Bytes) (tokens : List Bytes) (e : Option ScanError)
      (built : Bytes) (queued : List TerminalData) (o : Position Parser)
      → length (x ∷ b) ≤ (decode 1000 (x ∷ b) encoding_unsure).consumed
      → (decode 1000 (x ∷ b) encoding_unsure).failure ≡ none
      → parse_decoded decode a
          (decoded_token decode a (x ∷ b))
          (at a p.begun p.parser p.state [] [] [])
        ≡ some (dequeue (at a o.begun o.parser o.state built queued []))
      → Read e tokens
          (queued ++ text_if built)
          o
          (scan_text decode a (x ∷ b) (ready p [] [] false none none tokens e))
  unfolding scan_text process_dangling process_dangling_bytes next_output parse_loop decode_loop
      after_round flush
  scan_text-Read p x b tokens e [] [] o whole fine parsed =
      let left : drop (decode 1000 (x ∷ b) encoding_unsure).consumed (x ∷ b) ≡ [] =
        drop-all _ (x ∷ b) whole in
      Read.nothing refl (
        rw (parsed, left, fine, scan_text)
          (ap
            (λ bs.
              some
                (false, record (ready o [] [] false none none tokens e) { bytes_to_decode = bs }))
            (keep_left-nil x b)))
  scan_text-Read p x b tokens e (y ∷ built) [] o whole fine parsed =
      let left : drop (decode 1000 (x ∷ b) encoding_unsure).consumed (x ∷ b) ≡ [] =
        drop-all _ (x ∷ b) whole in
      Read.first (text_data (y ∷ built)) [] [] refl (
        rw (parsed, left, fine, scan_text)
          (ap
            (λ bs. some (
              true,
              record (ready o [] [] false none (some (text_data (y ∷ built))) tokens e) {
                bytes_to_decode = bs;
              },
            ))
            (keep_left-nil x b)))
  scan_text-Read p x b tokens e built (d ∷ queued) o whole fine parsed =
      let left : drop (decode 1000 (x ∷ b) encoding_unsure).consumed (x ∷ b) ≡ [] =
        drop-all _ (x ∷ b) whole in
      Read.first d built queued refl (
        rw (parsed, left, scan_text)
          (ap
            (λ bs. some (
              true,
              record (ready o built queued false none (some d) tokens e) { bytes_to_decode = bs },
            ))
            (keep_left-nil x b)))
