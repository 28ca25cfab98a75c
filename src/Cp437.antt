-- ===== src/Cp437.antt =====
-- charset/cp437.go: the transformers of CP437 with its glyphs for control codes, and what they use of
-- Go's unicode/utf8. A transformer gets the room of its destination and returns what it wrote, what
-- it read, and its error.
pub mod Tables
pub mod RoundTrip
mod Tests
use telnet.Prelude.{
  ℕ, zero, suc, ◌+◌, ◌-◌, ◌*◌, ◌/◌, ◌%◌, Bool, true, false, not, ◌&&◌, ◌||◌, Option, none, some,
  List, [], ◌∷◌, ◌++◌, ◌==◌, if◌then◌else◌, Bytes, length, get_elem?, drop, ltb, leb,
}
use telnet.Cp437.Tables.{cp437_decode, cp437_encode}

pub data TransformError : Type 0 where
  short_dst short_src not_supported : TransformError

pub record Transformed : Type 0 where
  pub written : Bytes
  pub read : ℕ
  pub failure : Option TransformError

-- A byte has three bytes at most.
abbrev decoded_byte : ℕ → Bytes
decoded_byte c = elim (get_elem? cp437_decode c) [ none ↦ [] | some b ↦ b ]

unfoldable pub decode_transform : ℕ → Bytes → Transformed
decode_transform room [] = record { written = []; read = 0; failure = none }
decode_transform room (c ∷ src) =
    let rest = decode_transform (room - length (decoded_byte c)) src in
    if ltb room (length (decoded_byte c))
    then record { written = []; read = 0; failure = some short_dst }
    else record {
      written = decoded_byte c ++ rest.written;
      read = suc rest.read;
      failure = rest.failure;
    }

abbrev continues : ℕ → ℕ → ℕ → Bool
continues low high b = leb low b && leb b high

-- The first byte's demands: the length, and the range of the second byte; length 1 is not valid.
abbrev first_byte : ℕ → ℕ × (ℕ × ℕ)
first_byte b =
    if ltb b 194
    then (1, (128, 191))
    else if ltb b 224
    then (2, (128, 191))
    else if b == 224
    then (3, (160, 191))
    else if b == 237
    then (3, (128, 159))
    else if ltb b 240
    then (3, (128, 191))
    else if b == 240
    then (4, (144, 191))
    else if ltb b 244
    then (4, (128, 191))
    else if b == 244
    then (4, (128, 143))
    else (1, (128, 191))

-- `utf8.DecodeRune`: the rune and its bytes, or the replacement character and 1.
unfoldable pub decode_rune : Bytes → ℕ × ℕ
decode_rune [] = (65533, 0)
decode_rune (a ∷ []) = if ltb a 128 then (a, 1) else (65533, 1)
decode_rune (a ∷ (b ∷ [])) =
    if ltb a 128
    then (a, 1)
    else if (first_byte a).0 == 2 && continues (first_byte a).1.0 (first_byte a).1.1 b
    then ((a - 192) * 64 + (b - 128), 2)
    else (65533, 1)
decode_rune (a ∷ (b ∷ (c ∷ []))) =
    if ltb a 128
    then (a, 1)
    else if not (continues (first_byte a).1.0 (first_byte a).1.1 b)
    then (65533, 1)
    else if (first_byte a).0 == 2
    then ((a - 192) * 64 + (b - 128), 2)
    else if (first_byte a).0 == 3 && continues 128 191 c
    then (((a - 224) * 64 + (b - 128)) * 64 + (c - 128), 3)
    else (65533, 1)
decode_rune (a ∷ (b ∷ (c ∷ (d ∷ rest)))) =
    if ltb a 128
    then (a, 1)
    else if not (continues (first_byte a).1.0 (first_byte a).1.1 b)
    then (65533, 1)
    else if (first_byte a).0 == 2
    then ((a - 192) * 64 + (b - 128), 2)
    else if not (continues 128 191 c)
    then (65533, 1)
    else if (first_byte a).0 == 3
    then (((a - 224) * 64 + (b - 128)) * 64 + (c - 128), 3)
    else if (first_byte a).0 == 4 && continues 128 191 d
    then ((((a - 240) * 64 + (b - 128)) * 64 + (c - 128)) * 64 + (d - 128), 4)
    else (65533, 1)

-- `utf8.FullRune`, of bytes that begin above 127: more of them cannot change the rune.
unfoldable pub full_rune : Bytes → Bool
full_rune [] = false
full_rune (a ∷ []) = ltb a 128 || (first_byte a).0 == 1
full_rune (a ∷ (b ∷ [])) =
    leb (first_byte a).0 2 || not (continues (first_byte a).1.0 (first_byte a).1.1 b)
full_rune (a ∷ (b ∷ (c ∷ []))) =
    leb (first_byte a).0 3
    || not (continues (first_byte a).1.0 (first_byte a).1.1 b)
    || not (continues 128 191 c)
full_rune (a ∷ (b ∷ (c ∷ (d ∷ rest)))) = true

-- The binary search; the distance of the bounds halves, so that 9 rounds end it.
unfoldable pub search_rune : ℕ → ℕ → ℕ → ℕ → Option ℕ
search_rune zero low high r = none
search_rune (suc n) low high r = elim (get_elem? cp437_encode ((low + high) / 2)) [
  | none ↦ none
  | some got ↦
      let above = search_rune n ((low + high) / 2 + 1) high r in
      let below = search_rune n low ((low + high) / 2) r in
      if leb high low
      then none
      else if ltb (got % 16777216) r
      then above
      else if ltb r (got % 16777216)
      then below
      else some (got / 16777216)
]

-- Fuel for each byte that is to be read.
unfoldable pub encode_transform : ℕ → ℕ → Bool → Bytes → Transformed
unfolding decode_rune full_rune search_rune
encode_transform zero room at_eof src = record { written = []; read = 0; failure = none }
encode_transform (suc n) room at_eof [] = record { written = []; read = 0; failure = none }
encode_transform (suc n) zero at_eof (c ∷ src) = record {
  written = [];
  read = 0;
  failure = some short_dst;
}
encode_transform (suc n) (suc room) at_eof (c ∷ src) =
    let size = (decode_rune (c ∷ src)).1 in
    let rest = encode_transform n room at_eof (drop size (c ∷ src)) in
    if ltb c 128
    then record { written = c ∷ rest.written; read = suc rest.read; failure = rest.failure }
    else if size == 1
    then record {
      written = [];
      read = 0;
      failure = some (if not at_eof && not (full_rune (c ∷ src)) then short_src else not_supported);
    }
    else elim (search_rune 9 0 256 (decode_rune (c ∷ src)).0) [
      | none ↦ record { written = []; read = 0; failure = some not_supported }
      | some b ↦ record {
        written = b ∷ rest.written;
        read = size + rest.read;
        failure = rest.failure;
      }
    ]
