-- ===== src/Cp437/RoundTrip.antt =====
-- charset/cp437.go: which bytes come back when what they are decoded to is encoded.
use telnet.Prelude.{
  ◌↔◌, ℕ, ◌<◌, ◌≡◌, refl, Bool, true, false, [], ◌∷◌, ◌||◌, ◌==◌, Bytes, same_bytes, same_bytes_iff,
  leb, length, not, if◌then◌else◌,
}
use telnet.Prelude.Table.{passes, passes-lt}
use telnet.Cp437.{encode_transform, decode_transform}

-- A byte, decoded and encoded.
abbrev pub there_and_back : ℕ → Bytes
there_and_back b = (encode_transform 3 1 true (decode_transform 3 (b ∷ [])).written).written

comes_back : ℕ → Bool
comes_back b = same_bytes (there_and_back b) (b ∷ [])

-- The bytes above 127, and those that are ASCII for Go too.
abbrev pub kept : ℕ → Bool
kept b = leb 128 b || length (decode_transform 3 (b ∷ [])).written == 1

agrees : ℕ → Bool
agrees b = if kept b then comes_back b else not (comes_back b)

all_agree : passes agrees 256 ≡ true
unfolding passes agrees comes_back encode_transform decode_transform same_bytes
all_agree = refl

agreed : (x y : Bool) → (if y then x else not x) ≡ true → (x ≡ true) ↔ (y ≡ true)
agreed true true e = (λ h. h, λ h. h)
agreed true false e = (λ h. e, λ h. refl)
agreed false true e = (λ h. refl, λ h. e)
agreed false false e = (λ h. h, λ h. h)

-- A byte, decoded and encoded again, comes back as it was exactly if it is above 127 or is decoded
-- to one byte.
pub there_and_back_iff : (b : ℕ) → b < 256 → (there_and_back b ≡ b ∷ []) ↔ (kept b ≡ true)
unfolding agrees comes_back
there_and_back_iff b h =
    let same : (comes_back b ≡ true) ↔ (kept b ≡ true) =
      agreed (comes_back b) (kept b) (passes-lt agrees b 256 h all_agree) in
    let bytes : (comes_back b ≡ true) ↔ (there_and_back b ≡ b ∷ []) =
      same_bytes_iff (there_and_back b) (b ∷ []) in
    (λ e. same.0 (bytes.1 e), λ e. bytes.0 (same.1 e))
