-- ===== src/TelOpts/CharsetNames.antt =====
-- telopts/CHARSET.go: the lists of names in a REQUEST.
use telnet.Prelude.{
  ℕ, ◌≡◌, ◌≢◌, refl, ap, ◌∙◌, false, List, [], ◌∷◌, ◌++◌, ◌==◌, ◌&&◌, ◌+◌, ◌/◌, ◌%◌, if◌then◌else◌,
  Bytes, append-nil, arith, Bool-cases, inl, inr, Option, none, some, text, same_bytes, take, drop,
  ltb, length,
}

-- `strings.Split` by one byte: the part before the first one, and the parts behind.
unfoldable pub split_by : ℕ → Bytes → Bytes × List Bytes
split_by sep [] = ([], [])
split_by sep (b ∷ bs) =
    let rest = split_by sep bs in if b == sep then ([], rest.0 ∷ rest.1) else (b ∷ rest.0, rest.1)

-- The same by two bytes in a row.
unfoldable pub split_by_two : ℕ → ℕ → Bytes → Bytes × List Bytes
split_by_two a b [] = ([], [])
split_by_two a b (x ∷ []) = (x ∷ [], [])
split_by_two a b (x ∷ (y ∷ bs)) =
    let rest = split_by_two a b bs in
    let next = split_by_two a b (y ∷ bs) in
    if x == a && y == b then ([], rest.0 ∷ rest.1) else (x ∷ next.0, next.1)

-- `strings.Split(s, string(sep))`: a byte above 127 becomes a rune, which has two bytes.
unfoldable pub split_by_rune : ℕ → Bytes → Bytes × List Bytes
unfolding split_by split_by_two
split_by_rune sep bs =
    if ltb sep 128 then split_by sep bs else split_by_two (192 + sep / 64) (128 + sep % 64) bs

-- What `writeRequest` writes behind the code: each name behind a space.
unfoldable pub spaced : List Bytes → Bytes
spaced [] = []
spaced (name ∷ names) = 32 ∷ (name ++ spaced names)

-- The prefix that a remote sends which understands translation tables.
abbrev pub ttable : Bytes
ttable = text "[TTABLE]"

unfoldable pub skip_ttable : Bytes → Bytes
skip_ttable names =
    if ltb 8 (length names)
    then (if same_bytes (take 8 names) ttable then drop 8 names else names)
    else names

-- The names, split at what the list begins with; `none` is a panic, on an empty list.
unfoldable pub names_in : Bytes → Option (List Bytes)
unfolding skip_ttable split_by_rune
names_in names = elim (skip_ttable names) [
  | [] ↦ none
  | sep ∷ rest ↦ some (split_by_rune sep (sep ∷ rest)).1
]

-- A name with no space in it.
abbrev pub NoSpace : Bytes → Type 0
NoSpace [] = Unit {0}
NoSpace (b ∷ bs) = (b ≢ 32) × NoSpace bs

abbrev pub AllNoSpace : List Bytes → Type 0
AllNoSpace [] = Unit {0}
AllNoSpace (name ∷ names) = NoSpace name × AllNoSpace names

split_by-name :
    (name rest : Bytes)
    → NoSpace name
    → split_by 32 (name ++ rest) ≡ (name ++ (split_by 32 rest).0, (split_by 32 rest).1)
unfolding split_by
split_by-name [] rest s = refl
split_by-name (b ∷ bs) rest s =
    let other : b == 32 ≡ false = (let ne : b ≢ 32 = s.0 in ground arith) in
    rw (other, split_by) (ap (λ p. (b ∷ p.0, p.1)) (split_by-name bs rest s.1))

split_by-spaced : (names : List Bytes) → AllNoSpace names → split_by 32 (spaced names) ≡ ([], names)
unfolding split_by spaced
split_by-spaced [] s = refl
split_by-spaced (name ∷ names) s =
    ap (λ p. ([], p.0 ∷ p.1))
      (split_by-name name (spaced names) s.0
        ∙ (ap (λ q. (name ++ q.0, q.1)) (split_by-spaced names s.1)
            ∙ ap (λ n. (n, names)) (append-nil name)))

skip_ttable-spaced :
    (name : Bytes) (names : List Bytes)
    → skip_ttable (spaced (name ∷ names)) ≡ spaced (name ∷ names)
unfolding skip_ttable spaced same_bytes
skip_ttable-spaced name names = elim (Bool-cases (ltb 8 (length (spaced (name ∷ names))))) [
  | inl long ↦ rw (long, skip_ttable) refl
  | inr short ↦ rw (short, skip_ttable) refl
]

-- The list of a REQUEST that is not empty is read back.
pub names_in-spaced :
    (name : Bytes) (names : List Bytes)
    → AllNoSpace (name ∷ names)
    → names_in (spaced (name ∷ names)) ≡ some (name ∷ names)
unfolding names_in spaced
names_in-spaced name names s =
    let whole : skip_ttable (spaced (name ∷ names)) ≡ spaced (name ∷ names) =
      skip_ttable-spaced name names in
    rw (whole, names_in) (ap (λ p. some p.1) (split_by-spaced (name ∷ names) s))
