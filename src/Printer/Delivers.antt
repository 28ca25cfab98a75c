-- ===== src/Printer/Delivers.antt =====
-- printer.go, printer_scan.go, tdata_builder.go and terminal_telopts.go: what comes of a stream.
use telnet.Prelude.{
  ℕ, zero, suc, ◌<◌, ◌≡◌, refl, sym, ap, ◌∙◌, Bool, false, Option, none, some, List, [], ◌∷◌, ◌++◌,
  append-nil, append_assoc, Bytes, length, arith,
}
use telnet.TerminalData.{TerminalData}
use telnet.Terminal.{Terminal}
use telnet.Charset.Decode.{EncodingState, Decoded}
use telnet.DataParser.{Ansi, text_if}
use telnet.DataParser.Pieces.{IsDecoder, Position}
use telnet.DataParser.Fired.{at}
use telnet.TelnetScanner.{ScanError, TelnetScanner, new_telnet_scanner}
use telnet.TelnetScanner.Units.{units, AllUnits}
use telnet.TelnetScanner.Texts.{ready}
use telnet.TelnetScanner.Order.{ended, returned, scan-Scanned}
use telnet.Printer.{PumpEvent, Printer, process_output, end_error, printer_round, printer_loop}

-- Outputs are processed one behind the other.
abbrev pub delivered : List TerminalData → Terminal → Terminal × List PumpEvent
delivered [] t = (t, [])
delivered (d ∷ ds) t =
    let r = delivered ds (process_output d t).0 in (r.0, (process_output d t).1 ++ r.1)

module _ (decode : ℕ → Bytes → EncodingState → Decoded) (a : Ansi) where
  open a use {Parser}

  -- The loop ends, and this is what it leaves.
  pub record Leaves (o : Option (Printer Parser)) (t : Terminal) (events : List PumpEvent)
      (e : Option ScanError) : Type 0 where
    pub printer : Printer Parser
    pub is : o ≡ some printer
    pub terminal : printer.terminal ≡ t
    pub pumped : printer.pumped ≡ events
    pub complete : printer.complete ≡ some (end_error e)

  abbrev printer_at : TelnetScanner Parser → Terminal → List PumpEvent → Printer Parser
  printer_at s t pumped = record { scanner = s; terminal = t; pumped = pumped; complete = none }

  printer_loop-ready :
      (n : ℕ) (p : Position Parser) (built : Bytes) (queued : List TerminalData) (f : Bool)
      (next : Option TerminalData) (ts : List Bytes) (e : Option ScanError) (t : Terminal)
      (pumped : List PumpEvent)
      → IsDecoder a
      → AllUnits decode a ts
      → length (queued ++ (text_if built ++ units decode a p ts)) < n
      → let out = delivered (queued ++ (text_if built ++ units decode a p ts)) t in
        Leaves
          (printer_loop decode a n
            (printer_at (ready decode a p built queued f none next ts e) t pumped))
          out.0
          (pumped ++ out.1)
          e
  unfolding printer_loop printer_round
  printer_loop-ready zero p built queued f next ts e t pumped d all h = absurd (omega arith)
  printer_loop-ready (suc n) p built queued f next ts e t pumped d all h =
      elim (scan-Scanned decode a p built queued f none next ts e d all) [
        | ended none_left s is fails ↦
            rw (is, none_left, printer_loop)
              (record {
                printer = record (printer_at s t pumped) { complete = some (end_error s.failure) };
                is = refl;
                terminal = refl;
                pumped = sym (append-nil pumped);
                complete = ap (λ x. some (end_error x)) fails;
              })
        | returned o to b q g us is comes rest ↦
            let fewer : length (q ++ (text_if b ++ units decode a to us)) < n =
              omega (arith, ap length comes) in
            let out = process_output o t in
            let r : Leaves
                (printer_loop decode a n
                  (printer_at (ready decode a to b q g none (some o) us e) out.0 (pumped ++ out.1)))
                (delivered (q ++ (text_if b ++ units decode a to us)) out.0).0
                ((pumped ++ out.1)
                  ++ (delivered (q ++ (text_if b ++ units decode a to us)) out.0).1)
                e =
              printer_loop-ready n to b q g (some o) us e out.0 (pumped ++ out.1) d rest fewer in
            rw (is, comes, printer_loop)
              (record {
                printer = r.printer;
                is = r.is;
                terminal = r.terminal;
                pumped = r.pumped ∙ append_assoc pumped out.1 _;
                complete = r.complete;
              })
      ]

  -- Over a stream whose tokens are commands that parse and texts that are decoded whole, the loop of the
  -- printer, with enough rounds, ends with the error of the stream, unless that is closed; the outputs
  -- of the scanner have been processed one behind the other, each on the terminal that the ones before
  -- it left, and what that pumps has been pumped in that order, without an error.
  pub printer_loop-delivered :
      (n : ℕ) (ts : List Bytes) (e : Option ScanError) (p : Position Parser) (t : Terminal)
      → IsDecoder a
      → AllUnits decode a ts
      → length (units decode a p ts) < n
      → let s : TelnetScanner Parser =
          new_telnet_scanner
            (record { tokens = ts; error = e })
            (at a p.begun p.parser p.state [] [] []) in
        let out = delivered (units decode a p ts) t in
        Leaves
          (printer_loop decode a n
            (record { scanner = s; terminal = t; pumped = []; complete = none }))
          out.0
          out.1
          e
  unfolding new_telnet_scanner
  printer_loop-delivered n ts e p t d all h =
      printer_loop-ready n p [] [] false none ts e t [] d all h
