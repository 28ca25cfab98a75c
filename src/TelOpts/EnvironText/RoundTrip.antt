-- ===== src/TelOpts/EnvironText/RoundTrip.antt =====
-- telopts/NEWENVIRON.go: `decodeText` reads what `encodeText` writes.
use telnet.Prelude.{
  ℕ, suc, false, [], ◌∷◌, ◌++◌, ◌≡◌, ◌≢◌, ◌≤◌, refl, Bytes, length, leb, arith, Bool-cases, inl,
  inr,
}
use telnet.TelOpts.EnvironText.{encode_text, decode_text, new_environ_esc, new_environ_uservar}

-- Nothing, or a token that ends a text: VAR, VALUE or USERVAR.
abbrev pub EndsText : Bytes → Type 0
EndsText [] = Unit {0}
EndsText (b ∷ rest) = (b ≤ new_environ_uservar) × (b ≢ new_environ_esc)

decode_text-ends : (rest : Bytes) → EndsText rest → decode_text rest ≡ (0, [])
unfolding decode_text
decode_text-ends [] h = refl
decode_text-ends (b ∷ []) h = ground arith
decode_text-ends (b ∷ c ∷ rest) h = ground arith

decode_text-esc :
    (c : ℕ) (rest : Bytes)
    → decode_text (new_environ_esc ∷ c ∷ rest)
      ≡ (suc (suc (decode_text rest).0), c ∷ (decode_text rest).1)
unfolding decode_text
decode_text-esc c rest = refl

decode_text-plain :
    (b : ℕ) (rest : Bytes)
    → leb b new_environ_uservar ≡ false
    → decode_text (b ∷ rest) ≡ (suc (decode_text rest).0, b ∷ (decode_text rest).1)
unfolding decode_text
decode_text-plain b [] h = ground arith
decode_text-plain b (c ∷ rest) h = ground arith

-- Any bytes, written by encodeText with nothing or an unescaped token that is not ESC behind them,
-- are read back by decodeText, which stops just at the token.
pub decode_text-encode_text :
    (s rest : Bytes)
    → EndsText rest
    → decode_text (encode_text s ++ rest) ≡ (length (encode_text s), s)
unfolding encode_text
decode_text-encode_text [] rest h = decode_text-ends rest h
decode_text-encode_text (b ∷ s) rest h = elim (Bool-cases (leb b new_environ_uservar)) [
  | inl e ↦ rw (e, decode_text-esc, decode_text-encode_text s rest h)
  | inr e ↦ rw (e, decode_text-plain b _ e, decode_text-encode_text s rest h)
]
