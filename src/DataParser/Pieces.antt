-- ===== src/DataParser/Pieces.antt =====
-- tdata_builder.go: what the data parser is to make of its bytes.
use telnet.Prelude.{
  ℕ, zero, suc, ◌≤◌, not, List, [], ◌∷◌, ◌++◌, ◌==◌, ◌≡◌, ◌≢◌, if◌then◌else◌, Bytes, length, drop,
}
use telnet.TerminalData.{TerminalData}
use telnet.DataParser.{Ansi, text_if, sequence_data}

-- A piece of the input: text, or a sequence with what is made of it.
pub data Piece : Type 0 where
  shown : Bytes → Piece
  whole : List TerminalData → Piece

-- Texts in a row are one text, in front of the sequence that follows them.
abbrev pub merge : Bytes → List Piece → List TerminalData
merge built [] = text_if built
merge built (shown b ∷ ps) = merge (built ++ b) ps
merge built (whole ds ∷ ps) = text_if built ++ (ds ++ merge [] ps)

-- Where the parser stands between two inputs: behind the beginning of a sequence, or none.
pub record Position (P : Type 0) : Type 0 where
  pub state : ℕ
  pub parser : P
  pub begun : Bytes

module _ (a : Ansi) where
  open a use {Parser, normal_state, decode_sequence}

  -- What the loop of `NextOutput` needs of `DecodeSequence` to end: from the normal state it consumes
  -- something; where it consumes nothing it gives a sequence up that an earlier input began, and is in
  -- the normal state again; and it stops in the middle of a sequence only where the bytes end.
  pub record IsDecoder : Type 0 where
    pub advances :
        (b : Bytes) (q : Parser) → b ≢ [] → 1 ≤ (decode_sequence b normal_state q).consumed
    pub gives_up :
        (b : Bytes) (state : ℕ) (q : Parser)
        → b ≢ []
        → (decode_sequence b state q).consumed ≡ 0
        → (decode_sequence b state q).state ≡ normal_state
    pub waits_at_end :
        (b : Bytes) (state : ℕ) (q : Parser)
        → (decode_sequence b state q).width ≡ 0
        → (decode_sequence b state q).state ≢ normal_state
        → length b ≤ (decode_sequence b state q).consumed

  -- The pieces of bytes behind the beginning of a sequence; one that is cut off makes none.
  abbrev pub pieces : ℕ → Bytes → ℕ → Parser → Bytes → List Piece
  pieces zero b state q begun = []
  pieces (suc n) [] state q begun = []
  pieces (suc n) (x ∷ b) state q begun =
      let d = decode_sequence (x ∷ b) state q in
      let after_text = pieces n (drop d.consumed (x ∷ b)) d.state d.parser begun in
      let after_sequence = pieces n (drop d.consumed (x ∷ b)) d.state d.parser [] in
      if not (d.width == 0)
      then shown d.parsed ∷ after_text
      else if not (d.state == normal_state)
      then []
      else whole (sequence_data a d.parser (begun ++ d.parsed)) ∷ after_sequence

  -- Where the parser stands behind the bytes.
  abbrev pub position : ℕ → Bytes → ℕ → Parser → Bytes → Position Parser
  position zero b state q begun = record { state = state; parser = q; begun = begun }
  position (suc n) [] state q begun = record { state = state; parser = q; begun = begun }
  position (suc n) (x ∷ b) state q begun =
      let d = decode_sequence (x ∷ b) state q in
      let after_text = position n (drop d.consumed (x ∷ b)) d.state d.parser begun in
      let after_sequence = position n (drop d.consumed (x ∷ b)) d.state d.parser [] in
      if not (d.width == 0)
      then after_text
      else if not (d.state == normal_state)
      then record { state = d.state; parser = d.parser; begun = begun ++ d.parsed }
      else after_sequence
