-- ===== src/TelOpts/EnvironText.antt =====
-- telopts/NEWENVIRON.go: the escaped text of NEW-ENVIRON, `encodeText` and `decodeText`.
pub mod RoundTrip
use telnet.Prelude.{
  ℕ, suc, ◌+◌, Bool, true, false, Option, none, some, List, [], ◌∷◌, ◌++◌, ◌==◌, if◌then◌else◌,
  Bytes, leb,
}

abbrev pub new_environ_var : ℕ
new_environ_var = 0

abbrev pub new_environ_value : ℕ
new_environ_value = 1

abbrev pub new_environ_esc : ℕ
new_environ_esc = 2

abbrev pub new_environ_uservar : ℕ
new_environ_uservar = 3

-- What `encodeText` writes to the buffer.
unfoldable pub encode_text : Bytes → Bytes
encode_text [] = []
encode_text (b ∷ text) =
    (if leb b new_environ_uservar then new_environ_esc ∷ b ∷ [] else b ∷ []) ++ encode_text text

-- How far `decodeText` reads, and the text. An ESC at the end is passed over.
unfoldable pub decode_text : Bytes → ℕ × Bytes
decode_text [] = (0, [])
decode_text (b ∷ []) =
    if b == new_environ_esc
    then (1, [])
    else if leb b new_environ_uservar
    then (0, [])
    else (1, b ∷ [])
decode_text (b ∷ c ∷ rest) = elim (b == new_environ_esc) [
  | true ↦ (let (n, text) = decode_text rest in (suc (suc n), c ∷ text))
  | false ↦ elim (leb b new_environ_uservar) [
    | true ↦ (0, [])
    | false ↦ (let (n, text) = decode_text (c ∷ rest) in (suc n, b ∷ text))
  ]
]
