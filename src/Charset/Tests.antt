-- ===== src/Charset/Tests.antt =====
-- ASCII with CP437 to fall back to.
use telnet.Prelude.{
  ◌+◌, ◌≡◌, ◌≢◌, ◌↔◌, refl, false, none, some, [], ◌∷◌, ℕ, Bytes, map, text, ltb, if◌then◌else◌,
}
use telnet.Cp437.{not_supported, Transformed, decode_transform}
use telnet.Charset.{Coding, cp437_full, page, CurrentCharset, Charset, load_decoding_charset}
use telnet.Charset.Decode.{encoding_unsure, encoding_invalid, decode, valid_encoding}
use telnet.Charset.Fallback.{decode_all, decoded_by, decode_all-sticks}

-- The bytes in front of one that is not ASCII.
ascii_transform : Bytes → Transformed
ascii_transform [] = record { written = []; read = 0; failure = none }
ascii_transform (b ∷ src) =
    let rest = ascii_transform src in
    if ltb b 128
    then record { written = b ∷ rest.written; read = rest.read + 1; failure = rest.failure }
    else record { written = []; read = 0; failure = some not_supported }

transform : Coding → ℕ → Bytes → Transformed
unfolding ascii_transform decode_transform
transform cp437_full room src = decode_transform room src
transform _ room src = ascii_transform src

abbrev ascii_page : CurrentCharset
ascii_page = record { name = text "ASCII"; coding = page (text "ascii") }

abbrev full : CurrentCharset
full = record { name = text "CP437-FULL"; coding = cp437_full }

abbrev charset : Charset
charset = record {
  usage_always = false;
  binary_encode = false;
  binary_decode = false;
  default_charset = ascii_page;
  negotiated_encoding = ascii_page;
  negotiated_decoding = ascii_page;
  fallback = some full;
}

-- A glyph for 128 makes the second text CP437 too.
fallback_test :
    map
      (λ d. d.decoded)
      (decode_all transform charset 100 ((128 ∷ []) ∷ text "hi" ∷ []) encoding_unsure)
    ≡ (195 ∷ 135 ∷ []) ∷ text "hi" ∷ []
unfolding decode transform
fallback_test = refl

decode_all-sticks_example :
    (decode_all transform charset 100 ((128 ∷ []) ∷ text "hi" ∷ []) encoding_unsure
      ≡ map (decoded_by transform charset 100 encoding_invalid) ((128 ∷ []) ∷ text "hi" ∷ []))
    × ((encoding_invalid ≡ encoding_invalid) ↔ (
        (valid_encoding transform (load_decoding_charset charset) (128 ∷ []) ≡ encoding_invalid)
        × (valid_encoding transform full (128 ∷ []) ≢ encoding_invalid)))
unfolding decode transform
decode_all-sticks_example =
    decode_all-sticks transform charset 100 full 128 [] (text "hi" ∷ []) refl refl
