-- ===== src/DataParser/Tests.antt =====
-- A decoder for which a byte above 31 is text, ESC begins a sequence of two bytes, which a control code
-- gives up, also where ESC ended the input before, and every other byte is a control code.
use telnet.Prelude.{
  ℕ, zero, suc, ◌+◌, ◌≤◌, ◌≡◌, ◌≢◌, refl, Bool, true, false, some, List, [], ◌∷◌, ◌++◌, ◌==◌,
  if◌then◌else◌, Bytes, length, ltb, text, arith,
}
use telnet.TerminalData.{TerminalData, text_data, esc_data, control_code_data}
use telnet.DataParser.{
  rounds, Ansi, DecodedSequence, SequenceKind, esc, TerminalDataParser, new_terminal_data_parser,
  sequence_data, fire_all,
}
use telnet.DataParser.Pieces.{IsDecoder, pieces, merge}
use telnet.DataParser.Fired.{fire_all-merge}

-- What stands behind ESC: a byte above 31 ends the sequence, and another one gives it up.
abbrev decode_escaped : Bytes → DecodedSequence ℕ
decode_escaped [] = record { parsed = []; width = 0; consumed = 0; state = 1; parser = 0 }
decode_escaped (x ∷ rest) = record {
  parsed = if ltb x 32 then [] else x ∷ [];
  width = 0;
  consumed = if ltb x 32 then 0 else 1;
  state = 0;
  parser = if ltb x 32 then 0 else x;
}

abbrev decode_begun : Bytes → DecodedSequence ℕ
decode_begun rest =
    let d = decode_escaped rest in record d { parsed = 27 ∷ d.parsed; consumed = d.consumed + 1 }

-- With whether the first byte is ESC.
abbrev decode_from : Bool → ℕ → Bytes → DecodedSequence ℕ
decode_from true x rest = decode_begun rest
decode_from false x rest = record {
  parsed = x ∷ [];
  width = if ltb x 32 then 0 else 1;
  consumed = 1;
  state = 0;
  parser = 0;
}

abbrev decode_normal : Bytes → DecodedSequence ℕ
decode_normal [] = record { parsed = []; width = 0; consumed = 0; state = 0; parser = 0 }
decode_normal (x ∷ rest) = decode_from (x == 27) x rest

abbrev decode_toy : Bytes → ℕ → ℕ → DecodedSequence ℕ
decode_toy b zero q = decode_normal b
decode_toy b (suc state) q = decode_escaped b

abbrev toy_prefix : SequenceKind → Bytes → Bool
toy_prefix esc (x ∷ rest) = x == 27
toy_prefix _ _ = false

abbrev pub toy : Ansi
toy = record {
  Parser = ℕ;
  new_parser = 0;
  normal_state = 0;
  decode_sequence = decode_toy;
  command = λ q. q;
  has_prefix = toy_prefix;
  sequence_text = λ k q. 27 ∷ q ∷ [];
}

escaped-gives_up : (b : Bytes) → b ≢ [] → (decode_escaped b).state ≡ 0
escaped-gives_up [] n = absurd (n refl)
escaped-gives_up (x ∷ b) n = refl

from-advances : (is_esc : Bool) (x : ℕ) (b : Bytes) → 1 ≤ (decode_from is_esc x b).consumed
from-advances true x b = omega arith
from-advances false x b = omega arith

normal-advances : (b : Bytes) → b ≢ [] → 1 ≤ (decode_normal b).consumed
normal-advances [] n = absurd (n refl)
normal-advances (x ∷ b) n = from-advances (x == 27) x b

escaped-waits : (b : Bytes) → (decode_escaped b).state ≢ 0 → length b ≤ (decode_escaped b).consumed
escaped-waits [] n = omega arith
escaped-waits (x ∷ b) n = absurd (n refl)

from-waits :
    (is_esc : Bool) (x : ℕ) (b : Bytes)
    → (decode_from is_esc x b).state ≢ 0
    → length (x ∷ b) ≤ (decode_from is_esc x b).consumed
from-waits true x b n = omega (arith, escaped-waits b n)
from-waits false x b n = absurd (n refl)

normal-waits : (b : Bytes) → (decode_normal b).state ≢ 0 → length b ≤ (decode_normal b).consumed
normal-waits [] n = omega arith
normal-waits (x ∷ b) n = from-waits (x == 27) x b n

normal-gives_up :
    (b : Bytes) → b ≢ [] → (decode_normal b).consumed ≡ 0 → (decode_normal b).state ≡ 0
normal-gives_up b n e = absurd (omega (arith, e, normal-advances b n))

pub toy-IsDecoder : IsDecoder toy
toy-IsDecoder = record {
  advances = λ b q. normal-advances b;
  gives_up = gives_up;
  waits_at_end = waits;
}
  where
    gives_up :
        (b : Bytes) (state q : ℕ)
        → b ≢ []
        → (decode_toy b state q).consumed ≡ 0
        → (decode_toy b state q).state ≡ 0
    gives_up b zero q n e = normal-gives_up b n e
    gives_up b (suc state) q n e = escaped-gives_up b n

    waits :
        (b : Bytes) (state q : ℕ)
        → (decode_toy b state q).width ≡ 0
        → (decode_toy b state q).state ≢ 0
        → length b ≤ (decode_toy b state q).consumed
    waits b zero q w n = normal-waits b n
    waits b (suc state) q w n = escaped-waits b n

abbrev look : Bytes
look = text "ab" ++ (27 ∷ 99 ∷ (text "cd" ++ (7 ∷ (text "e" ++ (27 ∷ [])))))

abbrev seen : List TerminalData
seen =
    text_data (text "ab")
    ∷ esc_data (27 ∷ 99 ∷ [])
    ∷ text_data (text "cd")
    ∷ control_code_data 7
    ∷ text_data (text "e")
    ∷ []

-- ESC at the end of one input, and BEL in the next: the second begins with a round that consumes nothing.
resumed_test :
    fire_all toy 3
      (7 ∷ [])
      (record (new_terminal_data_parser toy) { parser_state = 1; parsed_bytes = 27 ∷ [] })
    ≡ some (control_code_data 27 ∷ control_code_data 7 ∷ [], new_terminal_data_parser toy)
unfolding new_terminal_data_parser sequence_data fire_all
resumed_test = refl

look_test : merge [] (pieces toy (rounds look) look 0 0 []) ≡ seen
unfolding sequence_data
look_test = refl

fire_all-merge_example :
    (q : TerminalDataParser ℕ) × (fire_all toy 6 look (new_terminal_data_parser toy)
      ≡ some (merge [] (pieces toy (rounds look) look 0 0 []), q))
unfolding new_terminal_data_parser sequence_data
fire_all-merge_example =
    fire_all-merge toy 6 (new_terminal_data_parser toy) look toy-IsDecoder refl (omega arith)
