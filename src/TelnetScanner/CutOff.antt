-- ===== src/TelnetScanner/CutOff.antt =====
-- printer_scan.go: text that ends within a rune, and a command that does not parse.
use telnet.Prelude.{
  ℕ, suc, ◌≤◌, ◌≡◌, refl, ap, ◌∙◌, true, false, Option, none, some, List, [], ◌∷◌, if◌then◌else◌,
  Bytes, length, length-drop, drop, ltb, arith, ok, err,
}
use telnet.Command.{Command, ParseError, parse_command}
use telnet.TerminalData.{text_data}
use telnet.Cp437.{short_src}
use telnet.Charset.Decode.{EncodingState, encoding_unsure, Decoded}
use telnet.DataParser.{Ansi, parse_loop, next_output, flush}
use telnet.DataParser.Pieces.{Position}
use telnet.DataParser.Fired.{at, drop-all}
use telnet.TelnetScanner.{
  ScanError, parse_error, TelnetScanner, push_command, push_error, output_of, keep_left,
  is_command_token,
}
use telnet.TelnetScanner.Dangling.{
  parse_decoded, after_round, decode_loop, process_dangling_bytes, process_dangling,
}
use telnet.TelnetScanner.Scan.{scan_end, scan_text, scan_token, scan_tokens, scan, scan_all}
use telnet.TelnetScanner.Texts.{ready, keep_left-nil}

longer : (c : Bytes) → ltb 0 (suc (length c)) ≡ true
longer c = ground arith

-- Fewer bytes are left than there were.
keep_left-drop :
    (k : ℕ) (x : ℕ) (b : Bytes) → 1 ≤ k → keep_left (x ∷ b) (drop k (x ∷ b)) ≡ drop k (x ∷ b)
keep_left-drop k x b h = ground (arith, length-drop k (x ∷ b))

module _ (decode : ℕ → Bytes → EncodingState → Decoded) (a : Ansi) where
  open a use {Parser}

  -- Text up to a rune that its end cuts off: what is decoded is only text for the parser, which builds it.
  pub record CutsOff (t : Bytes) (left : Bytes) (built : Bytes) (p q : Position Parser)
      : Type 0 where
    pub is_text : is_command_token t ≡ false
    pub decodes : 1 ≤ (decode 1000 t encoding_unsure).consumed
    pub leaves : drop (decode 1000 t encoding_unsure).consumed t ≡ left
    pub cut_off : (decode 1000 t encoding_unsure).failure ≡ some short_src
    pub builds :
        parse_decoded decode a
          (decode 1000 t encoding_unsure).decoded
          (at a p.begun p.parser p.state [] [] [])
        ≡ some (none, at a q.begun q.parser q.state built [] [])

  -- The scanner keeps the bytes that are left, and the text is not given out.
  kept : Position Parser → Bytes → Bytes → List Bytes → Option ScanError → TelnetScanner Parser
  kept q built left tokens e = record (ready decode a q built [] false none none tokens e) {
    bytes_to_decode = left;
  }

  scan_text-cut_off :
      (x : ℕ) (b : Bytes) (y : ℕ) (c : Bytes) (built : Bytes) (p q : Position Parser)
      (ts : List Bytes) (e : Option ScanError)
      → CutsOff (x ∷ b) (y ∷ c) built p q
      → scan_text decode a (x ∷ b) (ready decode a p [] [] false none none ts e)
        ≡ some (false, kept q built (y ∷ c) ts e)
  unfolding kept scan_text process_dangling process_dangling_bytes next_output parse_loop
      decode_loop after_round flush
  scan_text-cut_off x b y c built p q ts e h =
      rw (h.builds, h.cut_off, scan_text)
        (ap
          (λ bs. some (
            false,
            record (ready decode a q built [] false none none ts e) { bytes_to_decode = bs },
          ))
          (keep_left-drop _ x b h.decodes ∙ h.leaves))

  -- When a text that its token cuts off within a rune is followed by a command that parses, the
  -- first call of Scan gives out the command and the second one the text in front of it; the bytes
  -- of the rune are dropped.
  pub command_overtakes :
      (x : ℕ) (b : Bytes) (y : ℕ) (c : Bytes) (v : ℕ) (built : Bytes) (p q : Position Parser)
      (w : ℕ) (token : Bytes) (command : Command) (ts : List Bytes) (e : Option ScanError)
      → CutsOff (x ∷ b) (y ∷ c) (v ∷ built) p q
      → is_command_token (w ∷ token) ≡ true
      → parse_command (w ∷ token) ≡ ok command
      → (scan decode a (ready decode a p [] [] false none none ((x ∷ b) ∷ (w ∷ token) ∷ ts) e)
          ≡ some (true, ready decode a q (v ∷ built) [] false none (output_of command) ts e))
        × (scan decode a (ready decode a q (v ∷ built) [] false none (output_of command) ts e)
            ≡ some (true, ready decode a q [] [] false none (some (text_data (v ∷ built))) ts e))
  unfolding scan push_command process_dangling process_dangling_bytes next_output parse_loop
      decode_loop flush scan_tokens scan_token kept
  command_overtakes x b y c v built p q w token command ts e h is parses = (
    rw
        (
          h.is_text,
          scan_text-cut_off x b y c (v ∷ built) p q ((w ∷ token) ∷ ts) e h,
          is,
          parses,
          scan_tokens,
          scan_token,
        )
        refl,
    refl,
  )

  end_drops :
      (y : ℕ) (c built : Bytes) (q : Position Parser)
      → (decode 1000 (y ∷ c) encoding_unsure).decoded ≡ []
      → (decode 1000 (y ∷ c) encoding_unsure).failure ≡ some short_src
      → process_dangling decode a (record (kept q built (y ∷ c) [] none) { at_eof = true })
        ≡ some (ready decode a q built [] true none none [] none)
  unfolding process_dangling process_dangling_bytes next_output parse_loop decode_loop after_round
      kept
  end_drops y c built q nothing waits =
      rw (nothing, waits, process_dangling)
        (ap
          (λ bs.
            some
              (record (ready decode a q built [] true none none [] none) { bytes_to_decode = bs }))
          (keep_left-nil y c))

  scan_to_end :
      (x : ℕ) (b : Bytes) (y : ℕ) (c built : Bytes) (p q : Position Parser)
      → CutsOff (x ∷ b) (y ∷ c) built p q
      → scan decode a (ready decode a p [] [] false none none ((x ∷ b) ∷ []) none)
        ≡ some (true, record (kept q built (y ∷ c) [] none) { at_eof = true })
  unfolding scan push_command process_dangling process_dangling_bytes next_output parse_loop
      decode_loop flush scan_tokens scan_token scan_end kept
  scan_to_end x b y c built p q h =
      rw (h.is_text, scan_text-cut_off x b y c built p q [] none h, scan_tokens, scan_token)
        (ap
          (λ g.
            if g
            then some (true, record (kept q built (y ∷ c) [] none) { at_eof = true })
            else some (false, record (kept q built (y ∷ c) [] none) { at_eof = true }))
          (longer c))

  scan_behind_end :
      (y : ℕ) (c built : Bytes) (q : Position Parser)
      → (decode 1000 (y ∷ c) encoding_unsure).decoded ≡ []
      → (decode 1000 (y ∷ c) encoding_unsure).failure ≡ some short_src
      → scan decode a (record (kept q built (y ∷ c) [] none) { at_eof = true })
        ≡ some (false, ready decode a q built [] true none none [] none)
  unfolding scan push_command scan_tokens scan_end kept
  scan_behind_end y c built q nothing waits = rw (end_drops y c built q nothing waits, scan) refl

  -- When the input ends within a rune, what stands in front of it in the last token is not given
  -- out: a call of Scan returns with no output, and the next one returns false.
  pub end_loses_text :
      (x : ℕ) (b : Bytes) (y : ℕ) (c : Bytes) (v : ℕ) (built : Bytes) (p q : Position Parser)
      (n : ℕ)
      → CutsOff (x ∷ b) (y ∷ c) (v ∷ built) p q
      → (decode 1000 (y ∷ c) encoding_unsure).decoded ≡ []
      → (decode 1000 (y ∷ c) encoding_unsure).failure ≡ some short_src
      → scan_all decode a (suc (suc n)) (ready decode a p [] [] false none none ((x ∷ b) ∷ []) none)
        ≡ some ((none, none) ∷ [])
  unfolding scan_all kept
  end_loses_text x b y c v built p q n h nothing waits =
      rw
        (
          scan_to_end x b y c (v ∷ built) p q h,
          scan_behind_end y c (v ∷ built) q nothing waits,
          scan_all,
        )
        refl

  scan_text-refused :
      (w : ℕ) (token : Bytes) (f : Option ScanError) (v : ℕ) (built : Bytes) (p q : Position Parser)
      (ts : List Bytes) (e : Option ScanError)
      → length (w ∷ token) ≤ (decode 1000 (w ∷ token) encoding_unsure).consumed
      → (decode 1000 (w ∷ token) encoding_unsure).failure ≡ none
      → parse_decoded decode a
          (decode 1000 (w ∷ token) encoding_unsure).decoded
          (at a p.begun p.parser p.state [] [] [])
        ≡ some (none, at a q.begun q.parser q.state (v ∷ built) [] [])
      → scan_text decode a (w ∷ token) (ready decode a p [] [] false f none ts e)
        ≡ some (true, ready decode a q [] [] false f (some (text_data (v ∷ built))) ts e)
  unfolding scan_text process_dangling process_dangling_bytes next_output parse_loop decode_loop
      after_round flush
  scan_text-refused w token f v built p q ts e whole fine builds =
      let left : drop (decode 1000 (w ∷ token) encoding_unsure).consumed (w ∷ token) ≡ [] =
        drop-all _ (w ∷ token) whole in
      rw (builds, left, fine, scan_text)
        (ap
          (λ bs. some (
            true,
            record (ready decode a q [] [] false f (some (text_data (v ∷ built))) ts e) {
              bytes_to_decode = bs;
            },
          ))
          (keep_left-nil w token))

  -- A token that begins as a command and does not parse is given out as text, with the error.
  refused_is_text :
      (w : ℕ) (token : Bytes) (r : ParseError) (v : ℕ) (built : Bytes) (p q : Position Parser)
      (ts : List Bytes) (e : Option ScanError)
      → is_command_token (w ∷ token) ≡ true
      → parse_command (w ∷ token) ≡ err r
      → length (w ∷ token) ≤ (decode 1000 (w ∷ token) encoding_unsure).consumed
      → (decode 1000 (w ∷ token) encoding_unsure).failure ≡ none
      → parse_decoded decode a
          (decode 1000 (w ∷ token) encoding_unsure).decoded
          (at a p.begun p.parser p.state [] [] [])
        ≡ some (none, at a q.begun q.parser q.state (v ∷ built) [] [])
      → scan decode a (ready decode a p [] [] false none none ((w ∷ token) ∷ ts) e)
        ≡ some (
          true,
          ready decode a q [] [] false (some (parse_error r)) (some (text_data (v ∷ built))) ts e,
        )
  unfolding scan push_command push_error process_dangling process_dangling_bytes next_output
      parse_loop decode_loop after_round flush scan_tokens scan_token
  refused_is_text w token r v built p q ts e is parses whole fine builds =
      rw
        (
          is,
          parses,
          scan_text-refused w token (some (parse_error r)) v built p q ts e whole fine builds,
          scan_tokens,
          scan_token,
        )
        refl
