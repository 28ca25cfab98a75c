-- ===== src/Charset/Decode.antt =====
-- charset.go: `Decode` and `validEncoding`. The `Transform` of a charset's decoder, called for text that
-- may go on, is a parameter: it gets the room of the destination. Decoders keep no state here.
use telnet.Prelude.{
  ℕ, zero, suc, Bool, true, false, not, ◌&&◌, Option, none, some, [], ◌∷◌, ◌==◌, if◌then◌else◌,
  Bytes, length, drop, ltb,
}
use telnet.Cp437.{TransformError, short_dst, short_src, Transformed, decode_rune}
use telnet.Charset.{Coding, CurrentCharset, Charset, load_decoding_charset}

pub data EncodingState : Type 0 where
  encoding_unsure encoding_invalid encoding_valid : EncodingState

abbrev pub is_unsure : EncodingState → Bool
is_unsure encoding_unsure = true
is_unsure _ = false

abbrev pub is_invalid : EncodingState → Bool
is_invalid encoding_invalid = true
is_invalid _ = false

-- An error that asks for more room or for more text.
abbrev pub is_short : Option TransformError → Bool
is_short (some short_dst) = true
is_short (some short_src) = true
is_short _ = false

abbrev pub is_none {ℓ} : {A : Type ℓ} → Option A → Bool
is_none none = true
is_none (some a) = false

-- The loop over the decoded runes, with fuel for each byte. Zeros follow in the buffer: a rune that is
-- cut off is a RuneError with them as without.
unfoldable pub runes_state : ℕ → Bytes → Bool → EncodingState
unfolding decode_rune
runes_state n [] valid = if valid then encoding_valid else encoding_unsure
runes_state zero (b ∷ bs) valid = encoding_unsure
runes_state (suc n) (b ∷ bs) valid =
    let r = decode_rune (b ∷ bs) in
    let rest = runes_state n (drop r.1 (b ∷ bs)) (if ltb 1 r.1 then true else valid) in
    if r.0 == 65533 then encoding_invalid else rest

-- What `Decode` returns, with the bytes that it wrote.
pub record Decoded : Type 0 where
  pub consumed : ℕ
  pub decoded : Bytes
  pub fellback : EncodingState
  pub failure : Option TransformError

module _ (transform : Coding → ℕ → Bytes → Transformed) where
  unfoldable pub valid_encoding : CurrentCharset → Bytes → EncodingState
  unfolding runes_state
  valid_encoding charset incoming =
      let t = transform charset.coding 1000 incoming in
      if not (is_short t.failure)
        && (if length t.written == 0 then true else not (is_none t.failure))
      then encoding_invalid
      else runes_state (length t.written) t.written false

  -- The state that the two charsets give to text that is unsure.
  unfoldable pub unsure_state : CurrentCharset → CurrentCharset → Bytes → EncodingState
  unfolding valid_encoding
  unsure_state charset fallback incoming =
      let state = valid_encoding charset incoming in
      if is_invalid state && is_invalid (valid_encoding fallback incoming)
      then encoding_valid
      else state

  abbrev pub transformed : CurrentCharset → ℕ → Bytes → EncodingState → Decoded
  transformed charset room incoming state =
      let t = transform charset.coding room incoming in
      record { consumed = t.read; decoded = t.written; fellback = state; failure = t.failure }

  abbrev pub decode_as : CurrentCharset → CurrentCharset → ℕ → Bytes → EncodingState → Decoded
  decode_as charset fallback room incoming state =
      transformed (if is_invalid state then fallback else charset) room incoming state

  unfoldable pub decode : Charset → ℕ → Bytes → EncodingState → Decoded
  unfolding load_decoding_charset unsure_state
  decode c room [] state = record { consumed = 0; decoded = []; fellback = state; failure = none }
  decode c room (b ∷ incoming) state = elim c.fallback [
    | none ↦ transformed (load_decoding_charset c) room (b ∷ incoming) state
    | some fallback ↦ decode_as (load_decoding_charset c) fallback room (b ∷ incoming) (
        if is_unsure state
        then unsure_state (load_decoding_charset c) fallback (b ∷ incoming)
        else state)
  ]

  -- The charset that a state stands for.
  abbrev pub charset_of : Charset → EncodingState → CurrentCharset
  charset_of c encoding_invalid = elim c.fallback [ none ↦ load_decoding_charset c | some f ↦ f ]
  charset_of c _ = load_decoding_charset c
