-- ===== src/TelnetScanner/Order.antt =====
-- printer_scan.go: what `Scan` gives out, and in which order.
use telnet.Prelude.{
  ℕ, zero, suc, ◌<◌, ◌≡◌, refl, sym, ap, ◌∙◌, Bool, true, false, Option, none, some, List, [], ◌∷◌,
  ◌++◌, map, append_assoc, Bytes, length, arith,
}
use telnet.TerminalData.{TerminalData, text_data}
use telnet.Charset.Decode.{EncodingState, Decoded}
use telnet.DataParser.{rounds, Ansi, text_if, parse_loop, next_output, flush}
use telnet.DataParser.Pieces.{IsDecoder, Position, position}
use telnet.DataParser.Fired.{at}
use telnet.TelnetScanner.{ScanError, TelnetScanner, new_telnet_scanner, push_command}
use telnet.TelnetScanner.Dangling.{decode_loop, process_dangling_bytes, process_dangling}
use telnet.TelnetScanner.Scan.{scan_end, scan_token, scan_tokens, scan_base, scan, scan_all}
use telnet.TelnetScanner.Units.{
  units, decoded_token, output_list, command_unit, text_unit, AllUnits,
}
use telnet.TelnetScanner.Texts.{ready, nothing, first, parse_decoded-pieces, scan_text-Read}

module _ (decode : ℕ → Bytes → EncodingState → Decoded) (a : Ansi) where
  open a use {Parser}

  -- What a call comes to that is to give these data: nothing, or the first of them, and the rest later.
  pub data Scanned (e : Option ScanError) (want : List TerminalData)
      (r : Option (Bool × TelnetScanner Parser)) : Type 0 where
    ended :
        want ≡ []
        → (t : TelnetScanner Parser) → r ≡ some (false, t)
        → t.failure ≡ e
        → Scanned e want r
    returned :
        (d : TerminalData) (p : Position Parser) (built : Bytes) (queued : List TerminalData)
        (f : Bool) (tokens : List Bytes)
        → r ≡ some (true, ready decode a p built queued f none (some d) tokens e)
        → want ≡ d ∷ (queued ++ (text_if built ++ units decode a p tokens))
        → AllUnits decode a tokens
        → Scanned e want r

  Scanned-eq :
      (e : Option ScanError) (want now : List TerminalData)
      (r s : Option (Bool × TelnetScanner Parser))
      → want ≡ now
      → r ≡ s
      → Scanned e now s
      → Scanned e want r
  Scanned-eq e want now r s p q (ended is_done t is fails) =
      Scanned.ended (p ∙ is_done) t (q ∙ is) fails
  Scanned-eq e want now r s p q (returned d o built queued f tokens is comes all) =
      Scanned.returned d o built queued f tokens (q ∙ is) (p ∙ comes) all

  -- The loop over the tokens gives out the first unit of the tokens that are left.
  scan_tokens-Scanned :
      (ts : List Bytes) (p : Position Parser) (f : Bool) (e : Option ScanError)
      → IsDecoder a
      → AllUnits decode a ts
      → Scanned e
          (units decode a p ts)
          (scan_tokens decode a (scan_base decode a) ts e (ready decode a p [] [] f none none ts e))
  unfolding scan_tokens scan_end scan_token push_command
  scan_tokens-Scanned [] p f e d all =
      Scanned.ended refl (record (ready decode a p [] [] true e none [] e) { at_eof = true }) refl
        refl
  scan_tokens-Scanned ([] ∷ ts) p f e d (command_unit c o is parses puts, all) =
      absurd (ground arith)
  scan_tokens-Scanned ([] ∷ ts) p f e d (text_unit is some_bytes whole fine, all) =
      absurd (omega arith)
  scan_tokens-Scanned ((x ∷ t) ∷ ts) p f e d (command_unit c o is parses puts, all) =
      Scanned.returned o p [] [] false ts
        (rw (is, parses, scan_tokens, scan_token)
          (ap (λ v. some (true, ready decode a p [] [] false none v ts e)) puts))
        (rw (is, parses, units) (ap (λ v. output_list v ++ units decode a p ts) puts)) all
  scan_tokens-Scanned ((x ∷ t) ∷ ts) p f e d (text_unit is some_bytes whole fine, all) =
      let w : Bytes = decoded_token decode a (x ∷ t) in
      let to : Position Parser = position a (rounds w) w p.state p.parser p.begun in
      let (built, queued, parsed, same) = parse_decoded-pieces decode a p w d in
      elim (scan_text-Read decode a p x t ts e built queued to whole fine parsed) [
        | nothing none_read r ↦
            Scanned-eq e (units decode a p ((x ∷ t) ∷ ts)) (units decode a to ts) _ _
              (rw (is, units) (ap (λ ds. ds ++ units decode a to ts) (sym same ∙ none_read)))
              (rw (is, r, scan_tokens, scan_token) refl) (scan_tokens-Scanned ts to false e d all)
        | first o b q is_first r ↦
            Scanned.returned o to b q false ts (rw (is, r, scan_tokens, scan_token) refl)
              (rw (is, units)
                (ap (λ ds. ds ++ units decode a to ts) (sym same ∙ is_first)
                  ∙ ap (◌∷◌ o) (append_assoc q (text_if b) (units decode a to ts))))
              all
      ]

  -- A call gives out the first unit of what waits and of the tokens that are left.
  pub scan-Scanned :
      (p : Position Parser) (built : Bytes) (queued : List TerminalData) (f : Bool)
      (failure : Option ScanError) (next : Option TerminalData) (ts : List Bytes)
      (e : Option ScanError)
      → IsDecoder a
      → AllUnits decode a ts
      → Scanned e
          (queued ++ (text_if built ++ units decode a p ts))
          (scan decode a (ready decode a p built queued f failure next ts e))
  unfolding scan push_command process_dangling process_dangling_bytes next_output parse_loop
      decode_loop flush
  scan-Scanned p built (q ∷ queued) f failure next ts e d all =
      Scanned.returned q p built queued f ts refl refl all
  scan-Scanned p (x ∷ built) [] f failure next ts e d all =
      Scanned.returned (text_data (x ∷ built)) p [] [] f ts refl refl all
  scan-Scanned p [] [] f failure next ts e d all =
      Scanned-eq e (units decode a p ts) (units decode a p ts) _ _ refl refl
        (scan_tokens-Scanned ts p f e d all)

  -- What a call gives out, without an error.
  abbrev pub given_out : TerminalData → Option TerminalData × Option ScanError
  given_out d = (some d, none)

  scan_all-ready :
      (n : ℕ) (p : Position Parser) (built : Bytes) (queued : List TerminalData) (f : Bool)
      (failure : Option ScanError) (next : Option TerminalData) (ts : List Bytes)
      (e : Option ScanError)
      → IsDecoder a
      → AllUnits decode a ts
      → length (queued ++ (text_if built ++ units decode a p ts)) < n
      → scan_all decode a n (ready decode a p built queued f failure next ts e)
        ≡ some (map given_out (queued ++ (text_if built ++ units decode a p ts)))
  unfolding scan_all
  scan_all-ready zero p built queued f failure next ts e d all h = absurd (omega arith)
  scan_all-ready (suc n) p built queued f failure next ts e d all h =
      elim (scan-Scanned p built queued f failure next ts e d all) [
        | ended none_left t is fails ↦ rw (is, none_left) refl
        | returned o to b q g us is comes rest ↦
            let fewer : length (q ++ (text_if b ++ units decode a to us)) < n =
              omega (arith, ap length comes) in
            rw (is, comes, scan_all-ready n to b q g none (some o) us e d rest fewer) refl
      ]

  -- From a new scanner over a stream whose tokens are commands that parse and texts that are
  -- decoded whole, with a sequence decoder as IsDecoder has it, enough calls of Scan give out, one
  -- each and without an error, the commands and what the parser makes of each text, in the order of
  -- the tokens; the call behind the last one returns false.
  pub scan_all-units :
      (n : ℕ) (ts : List Bytes) (e : Option ScanError) (p : Position Parser)
      → IsDecoder a
      → AllUnits decode a ts
      → length (units decode a p ts) < n
      → scan_all decode a n (
          new_telnet_scanner
            (record { tokens = ts; error = e })
            (at a p.begun p.parser p.state [] [] []))
        ≡ some (map given_out (units decode a p ts))
  unfolding new_telnet_scanner
  scan_all-units n ts e p d all h = scan_all-ready n p [] [] false none none ts e d all h
