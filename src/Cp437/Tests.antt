-- ===== src/Cp437/Tests.antt =====
-- Single bytes of CP437.
use telnet.Prelude.{◌≡◌, ◌↔◌, refl, true, some, [], ◌∷◌, arith}
use telnet.Cp437.{encode_transform, not_supported}
use telnet.Cp437.RoundTrip.{there_and_back, kept, there_and_back_iff}

-- The box of 201.
there_and_back_iff_example : (there_and_back 201 ≡ 201 ∷ []) ↔ (kept 201 ≡ true)
there_and_back_iff_example = there_and_back_iff 201 (omega arith)

-- The smiling face, which 1 is decoded to, has no byte.
face_test :
    encode_transform 3 1 true (226 ∷ 152 ∷ 186 ∷ [])
    ≡ record { written = []; read = 0; failure = some not_supported }
unfolding encode_transform
face_test = refl
