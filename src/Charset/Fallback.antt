-- ===== src/Charset/Fallback.antt =====
-- charset.go: which charset `Decode` uses, call by call.
use telnet.Prelude.{
  if◌then◌else◌, ◌↔◌, ◌&&◌, ℕ, ◌≡◌, ◌≢◌, refl, sym, ap, ◌∙◌, subst, false, none, some, List, [],
  ◌∷◌, Bytes, map, arith,
}
use telnet.Cp437.{Transformed}
use telnet.Charset.{Coding, CurrentCharset, Charset, load_decoding_charset}
use telnet.Charset.Decode.{
  EncodingState, encoding_unsure, encoding_invalid, encoding_valid, is_unsure, is_invalid, Decoded,
  valid_encoding, unsure_state, transformed, decode_as, decode, charset_of,
}

chosen_invalid :
    (s r : EncodingState)
    → ((if is_invalid s && is_invalid r then encoding_valid else s) ≡ encoding_invalid)
      ↔ ((s ≡ encoding_invalid) × (r ≢ encoding_invalid))
chosen_invalid encoding_unsure r =
    (λ x. absurd (ground (arith, x)), λ x. absurd (ground (arith, x.0)))
chosen_invalid encoding_valid r =
    (λ x. absurd (ground (arith, x)), λ x. absurd (ground (arith, x.0)))
chosen_invalid encoding_invalid encoding_unsure = (λ x. (refl, λ y. ground (arith, y)), λ x. refl)
chosen_invalid encoding_invalid encoding_valid = (λ x. (refl, λ y. ground (arith, y)), λ x. refl)
chosen_invalid encoding_invalid encoding_invalid =
    (λ x. absurd (ground (arith, x)), λ x. absurd (x.1 refl))

module _ (transform : Coding → ℕ → Bytes → Transformed) (c : Charset) (room : ℕ) where
  -- Texts one behind the other, each with the state that the one before returned.
  abbrev pub decode_all : List Bytes → EncodingState → List Decoded
  decode_all [] state = []
  decode_all (incoming ∷ rest) state =
      let d = decode transform c room incoming state in d ∷ decode_all rest d.fellback

  -- Decoded by the charset that a state stands for.
  abbrev pub decoded_by : EncodingState → Bytes → Decoded
  decoded_by state [] = record { consumed = 0; decoded = []; fellback = state; failure = none }
  decoded_by state (b ∷ incoming) =
      transformed transform (charset_of transform c state) room (b ∷ incoming) state

  abbrev main : CurrentCharset
  main = load_decoding_charset c

  abbrev unsure_to : CurrentCharset → EncodingState → Bytes → EncodingState
  unsure_to f state incoming =
      if is_unsure state then unsure_state transform main f incoming else state

  decode-fallback :
      (f : CurrentCharset) (b : ℕ) (incoming : Bytes) (state : EncodingState)
      → c.fallback ≡ some f
      → decode transform c room (b ∷ incoming) state
        ≡ decode_as transform main f room (b ∷ incoming) (unsure_to f state (b ∷ incoming))
  unfolding decode
  decode-fallback f b incoming state e =
      ap
        (λ o. elim o as (λ x. Decoded) [
          | none ↦ transformed transform main room (b ∷ incoming) state
          | some g ↦
              decode_as transform main g room (b ∷ incoming) (unsure_to g state (b ∷ incoming))
        ])
        e

  decode_as-charset_of :
      (f : CurrentCharset) (b : ℕ) (incoming : Bytes) (state : EncodingState)
      → c.fallback ≡ some f
      → decode_as transform main f room (b ∷ incoming) state ≡ decoded_by state (b ∷ incoming)
  decode_as-charset_of f b incoming encoding_unsure e = refl
  decode_as-charset_of f b incoming encoding_valid e = refl
  decode_as-charset_of f b incoming encoding_invalid e =
      ap
        (λ o.
          transformed transform (elim o as (λ x. CurrentCharset) [ none ↦ main | some g ↦ g ]) room
            (b ∷ incoming) encoding_invalid)
        (sym e)

  decode-decided :
      (f : CurrentCharset) (incoming : Bytes) (state : EncodingState)
      → c.fallback ≡ some f
      → is_unsure state ≡ false
      → decode transform c room incoming state ≡ decoded_by state incoming
  unfolding decode
  decode-decided f [] state e d = refl
  decode-decided f (b ∷ incoming) state e d =
      decode-fallback f b incoming state e
      ∙ (ap
            (λ u.
              decode_as transform main f room (b ∷ incoming)
                (if u then unsure_state transform main f (b ∷ incoming) else state))
            d
          ∙ decode_as-charset_of f b incoming state e)

  fellback_kept :
      (state : EncodingState) (incoming : Bytes) → (decoded_by state incoming).fellback ≡ state
  fellback_kept state [] = refl
  fellback_kept state (b ∷ incoming) = refl

  decode_all-decided :
      (f : CurrentCharset) (texts : List Bytes) (state : EncodingState)
      → c.fallback ≡ some f
      → is_unsure state ≡ false
      → decode_all texts state ≡ map (decoded_by state) texts
  decode_all-decided f [] state e d = refl
  decode_all-decided f (incoming ∷ texts) state e d =
      ap (λ r. r ∷ decode_all texts r.fellback) (decode-decided f incoming state e d)
      ∙ ap (◌∷◌ (decoded_by state incoming)) (
          ap (decode_all texts) (fellback_kept state incoming)
          ∙ decode_all-decided f texts state e d)

  unsure_state_invalid :
      (f : CurrentCharset) (incoming : Bytes)
      → (unsure_state transform main f incoming ≡ encoding_invalid) ↔ (
          (valid_encoding transform main incoming ≡ encoding_invalid)
          × (valid_encoding transform f incoming ≢ encoding_invalid))
  unfolding unsure_state
  unsure_state_invalid f incoming =
      chosen_invalid (valid_encoding transform main incoming) (valid_encoding transform f incoming)

  -- With a fallback, and once Decode has decided on a text that is not empty, which it then decodes
  -- with the fallback exactly if validEncoding finds it invalid in the charset for decoding and not
  -- in the fallback, this text and all that follow, each with the state returned for the one
  -- before, are decoded with the same charset.
  pub decode_all-sticks :
      (f : CurrentCharset) (b : ℕ) (incoming : Bytes) (texts : List Bytes)
      → c.fallback ≡ some f
      → is_unsure (decode transform c room (b ∷ incoming) encoding_unsure).fellback ≡ false
      → let state = (decode transform c room (b ∷ incoming) encoding_unsure).fellback in
        (decode_all ((b ∷ incoming) ∷ texts) encoding_unsure
          ≡ map (decoded_by state) ((b ∷ incoming) ∷ texts))
        × ((state ≡ encoding_invalid) ↔ (
            (valid_encoding transform (load_decoding_charset c) (b ∷ incoming) ≡ encoding_invalid)
            × (valid_encoding transform f (b ∷ incoming) ≢ encoding_invalid)))
  decode_all-sticks f b incoming texts e d =
      let unsure = unsure_state transform main f (b ∷ incoming) in
      let first =
        decode-fallback f b incoming encoding_unsure e
        ∙ decode_as-charset_of f b incoming unsure e in
      subst
        (λ state.
          is_unsure state ≡ false
          → (decode_all ((b ∷ incoming) ∷ texts) encoding_unsure
              ≡ map (decoded_by state) ((b ∷ incoming) ∷ texts))
            × ((state ≡ encoding_invalid) ↔ (
                (valid_encoding transform main (b ∷ incoming) ≡ encoding_invalid)
                × (valid_encoding transform f (b ∷ incoming) ≢ encoding_invalid))))
        (sym (ap (λ r. r.fellback) first))
        (λ decided. (
          ap (λ r. r ∷ decode_all texts r.fellback) first
              ∙ ap (◌∷◌ (decoded_by unsure (b ∷ incoming)))
                  (decode_all-decided f texts unsure e decided),
          unsure_state_invalid f (b ∷ incoming),
        ))
        d
