-- ===== src/Printer/Wire.antt =====
-- keyboard.go `writeCommand`, and all of the way in of the other side: printer_scan.go, command.go,
-- tdata_builder.go, printer.go and terminal_telopts.go.
use telnet.Prelude.{
  ℕ, zero, suc, ◌+◌, ◌∙◌, ◌≤◌, ◌<◌, ◌≡◌, ◌⊎◌, refl, sym, ap, ap₂, subst, true, false, Option, none,
  some, List, [], ◌∷◌, ◌++◌, map, Bytes, length, arith, inl, inr,
}
use telnet.Opcode.{iac}
use telnet.Command.{Command}
use telnet.TerminalData.{TerminalData}
use telnet.Terminal.{Terminal}
use telnet.Scanner.{index, scan_telnet}
use telnet.Keyboard.{command_bytes}
use telnet.Keyboard.Wire.{ReadsAs, IsSendable, command_bytes-ReadsAs}
use telnet.Charset.Decode.{EncodingState, encoding_unsure, Decoded}
use telnet.DataParser.{rounds, Ansi}
use telnet.DataParser.Pieces.{IsDecoder, Position, pieces, merge, position}
use telnet.DataParser.Fired.{at}
use telnet.TelnetScanner.{ScanError, new_telnet_scanner, is_command_token}
use telnet.TelnetScanner.Reads.{
  with_token, read_tokens, read_tokens-end, read_tokens_step, read_tokens_next,
}
use telnet.TelnetScanner.Units.{
  units, decoded_token, output_list, command_unit, text_unit, AllUnits,
}
use telnet.Printer.{Printer, printer_loop}
use telnet.Printer.Delivers.{delivered, Leaves, printer_loop-delivered}
use telnet.Printer.Messages.{
  drop-append, flat, Message, says, commands, message_bytes, wire, no_text_first, bytes-iac,
  scan_telnet-text, out, sendable_output,
}

module _ (decode : ℕ → Bytes → EncodingState → Decoded) (a : Ansi) where
  open a use {Parser}

  -- Commands that writeCommand can send, and texts that have no IAC and are decoded whole.
  abbrev pub AreSent : List Message → Type 0
  AreSent [] = Unit {0}
  AreSent (commands c ∷ ms) = IsSendable c × AreSent ms
  AreSent (says b ∷ ms) =
      (1 ≤ length b)
      × (index iac b ≡ none)
      × (length b ≤ (decode 1000 b encoding_unsure).consumed)
      × ((decode 1000 b encoding_unsure).failure ≡ none)
      × AreSent ms

  -- What one read brings: some messages whole, of which no two texts stand together.
  abbrev pub Apart : List Message → Type 0
  Apart [] = Unit {0}
  Apart (commands c ∷ ms) = Apart ms
  Apart (says b ∷ ms) = (no_text_first ms ≡ true) × Apart ms

  abbrev pub AreReads : List (List Message) → Type 0
  AreReads [] = Unit {0}
  AreReads (ms ∷ reads) = (1 ≤ length ms) × AreSent ms × Apart ms × AreReads reads

  AreSent-append : (ms others : List Message) → AreSent ms → AreSent others → AreSent (ms ++ others)
  AreSent-append [] others h k = k
  AreSent-append (commands c ∷ ms) others h k = (h.0, AreSent-append ms others h.1 k)
  AreSent-append (says b ∷ ms) others h k = (h.0, h.1, h.2, h.3, AreSent-append ms others h.4 k)

  AreReads-flat : (reads : List (List Message)) → AreReads reads → AreSent (flat reads)
  AreReads-flat [] h = tt
  AreReads-flat (ms ∷ reads) h = AreSent-append ms (flat reads) h.1 (AreReads-flat reads h.3)

  -- What is to come of them: prompts and commands, and what the parser makes of the texts.
  abbrev pub arrivals : Position Parser → List Message → List TerminalData
  arrivals p [] = []
  arrivals p (commands c ∷ ms) = out c ∷ arrivals p ms
  arrivals p (says b ∷ ms) =
      let w : Bytes = decoded_token decode a b in
      merge [] (pieces a (rounds w) w p.state p.parser p.begun)
      ++ arrivals (position a (rounds w) w p.state p.parser p.begun) ms

  -- The fuel: a read and its messages, and the end.
  abbrev pub calls : List (List Message) → ℕ
  calls [] = 2
  calls (ms ∷ reads) = suc (length ms + calls reads)

  starts_with_iac :
      (ms : List Message)
      → no_text_first ms ≡ true
      → (wire ms ≡ []) ⊎ ((c : Bytes) × (wire ms ≡ iac ∷ c))
  starts_with_iac [] h = inl refl
  starts_with_iac (commands c ∷ ms) h =
      let (b, e) = bytes-iac c in inr (b ++ wire ms, ap (λ s. s ++ wire ms) e)
  starts_with_iac (says b ∷ ms) h = absurd (ground arith)

  -- A message at the head of the buffer is the next token.
  token_step :
      (n x : ℕ) (b rest : Bytes) (reads ts : List Bytes)
      → scan_telnet (x ∷ (b ++ rest)) false
        ≡ some (record { advance = length (x ∷ b); token = some (x ∷ b) })
      → read_tokens n false rest reads ≡ some ts
      → read_tokens (suc n) false (x ∷ (b ++ rest)) reads ≡ some ((x ∷ b) ∷ ts)
  token_step n x b rest reads ts cut more =
      read_tokens_step n x (b ++ rest) (x ∷ b) reads (length (x ∷ b)) cut
      ∙ (ap (λ s. with_token (x ∷ b) (read_tokens n false s reads)) (drop-append (x ∷ b) rest)
          ∙ ap (with_token (x ∷ b)) more)

  -- What a read has brought is cut into its messages, whatever comes behind it.
  read_tokens-wire :
      (n needed : ℕ) (ms : List Message) (reads ts : List Bytes)
      → AreSent ms
      → Apart ms
      → ((k : ℕ) → needed ≤ k → read_tokens k false [] reads ≡ some ts)
      → length ms + needed ≤ n
      → read_tokens n false (wire ms) reads ≡ some (map message_bytes ms ++ ts)
  read_tokens-wire n needed [] reads ts h p rest fuel = rest n (omega arith)
  read_tokens-wire zero needed (m ∷ ms) reads ts h p rest fuel = absurd (omega arith)
  read_tokens-wire (suc n) needed (commands c ∷ ms) reads ts h p rest fuel =
      let (b, e) = bytes-iac c in
      let cut : ReadsAs c (command_bytes c) (wire ms) false =
        command_bytes-ReadsAs (wire ms) false h.0 in
      subst
        (λ s.
          read_tokens (suc n) false (s ++ wire ms) reads ≡ some (s ∷ (map message_bytes ms ++ ts)))
        (sym e)
        (token_step n iac b (wire ms) reads (map message_bytes ms ++ ts)
          (subst
            (λ s.
              scan_telnet (s ++ wire ms) false
              ≡ some (record { advance = length s; token = some s }))
            e cut.0)
          (read_tokens-wire n needed ms reads ts h.1 p rest (omega arith)))
  read_tokens-wire (suc n) needed (says [] ∷ ms) reads ts h p rest fuel =
      absurd (omega (arith, h.0))
  read_tokens-wire (suc n) needed (says (x ∷ b) ∷ ms) reads ts h p rest fuel =
      token_step n x b (wire ms) reads (map message_bytes ms ++ ts)
        (scan_telnet-text x b (wire ms) false h.1 (starts_with_iac ms p.0))
        (read_tokens-wire n needed ms reads ts h.4 p.1 rest (omega arith))

  map-append :
      (ms others : List Message)
      → map message_bytes ms ++ map message_bytes others ≡ map message_bytes (ms ++ others)
  map-append [] others = refl
  map-append (m ∷ ms) others = ap (◌∷◌ (message_bytes m)) (map-append ms others)

  read_tokens-reads :
      (n : ℕ) (reads : List (List Message))
      → AreReads reads
      → calls reads ≤ n
      → read_tokens n false [] (map wire reads) ≡ some (map message_bytes (flat reads))
  read_tokens-reads n [] h fuel = read_tokens-end n fuel
  read_tokens-reads zero (ms ∷ reads) h fuel = absurd (omega arith)
  read_tokens-reads (suc n) (ms ∷ reads) h fuel =
      read_tokens_next n (wire ms) (map wire reads)
      ∙ (read_tokens-wire n (calls reads) ms (map wire reads) (map message_bytes (flat reads)) h.1
            h.2 (λ k more. read_tokens-reads k reads h.3 more) (omega arith)
          ∙ ap (λ ts. some ts) (map-append ms (flat reads)))

  command_token : (c : Command) → is_command_token (command_bytes c) ≡ true
  unfolding command_bytes
  command_token c = refl

  text_token : (b : Bytes) → index iac b ≡ none → is_command_token b ≡ false
  unfolding index
  text_token [] h = refl
  text_token (x ∷ []) h = refl
  text_token (x ∷ y ∷ b) h = ground arith

  wire-AllUnits : (ms : List Message) → AreSent ms → AllUnits decode a (map message_bytes ms)
  wire-AllUnits [] h = tt
  wire-AllUnits (commands c ∷ ms) h = (
    command_unit c (out c) (command_token c) (command_bytes-ReadsAs [] true h.0).1
        (sendable_output c h.0),
    wire-AllUnits ms h.1,
  )
  wire-AllUnits (says b ∷ ms) h = (text_unit (text_token b h.1) h.0 h.2 h.3, wire-AllUnits ms h.4)

  units-arrivals :
      (p : Position Parser) (ms : List Message)
      → AreSent ms
      → units decode a p (map message_bytes ms) ≡ arrivals p ms
  units-arrivals p [] h = refl
  units-arrivals p (commands c ∷ ms) h =
      rw (command_token c, (command_bytes-ReadsAs [] true h.0).1, units)
        (ap₂ (λ o ds. output_list o ++ ds) (sendable_output c h.0) (units-arrivals p ms h.1))
  units-arrivals p (says b ∷ ms) h =
      let w : Bytes = decoded_token decode a b in
      rw (text_token b h.1, units)
        (ap (◌++◌ (merge [] (pieces a (rounds w) w p.state p.parser p.begun)))
          (units-arrivals (position a (rounds w) w p.state p.parser p.begun) ms h.4))

  -- The printer of a terminal over the reads of a stream, with an error behind them.
  abbrev pub print :
      ℕ → ℕ → Option ScanError → Position Parser → Terminal → List Bytes → Option (Printer Parser)
  print m n e p t reads = elim (read_tokens m false [] reads) [
    | none ↦ none
    | some ts ↦ printer_loop decode a n (record {
      scanner =
          new_telnet_scanner (record { tokens = ts; error = e })
            (at a p.begun p.parser p.state [] [] []);
      terminal = t;
      pumped = [];
      complete = none;
    })
  ]

  -- What writeCommand sends for sendable commands, with text between them that has no IAC and is
  -- decoded whole, comes in reads, each of which brings one message or more, whole, and no two
  -- texts side by side. It is cut into tokens, parsed, and processed by the other side: with fuel
  -- for each read and message and enough rounds, and a sequence decoder as IsDecoder has it, its
  -- printer ends with the error of the stream, unless that is closed, and the commands, the prompts
  -- and what the parser makes of the texts have been processed and pumped in the order in which
  -- they were sent.
  pub print-wire :
      (m n : ℕ) (e : Option ScanError) (p : Position Parser) (t : Terminal)
      (reads : List (List Message))
      → IsDecoder a
      → AreReads reads
      → calls reads ≤ m
      → length (arrivals p (flat reads)) < n
      → Leaves decode a
          (print m n e p t (map wire reads))
          (delivered (arrivals p (flat reads)) t).0
          (delivered (arrivals p (flat reads)) t).1
          e
  print-wire m n e p t reads d h fuel rounds =
      let ms : List Message = flat reads in
      let sent : AreSent ms = AreReads-flat reads h in
      rw (read_tokens-reads m reads h fuel, print)
        (subst
          (λ ds.
            Leaves decode a
              (printer_loop decode a n (record {
                scanner =
                    new_telnet_scanner (record { tokens = map message_bytes ms; error = e })
                      (at a p.begun p.parser p.state [] [] []);
                terminal = t;
                pumped = [];
                complete = none;
              }))
              (delivered ds t).0 (delivered ds t).1 e)
          (units-arrivals p ms sent)
          (printer_loop-delivered decode a n (map message_bytes ms) e p t d (wire-AllUnits ms sent)
            (subst (λ ds. length ds < n) (sym (units-arrivals p ms sent)) rounds)))
