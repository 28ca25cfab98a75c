-- ===== src/Command/Parse.antt =====
-- command.go: what `parseCommand` returns on the bytes of a command, and where its compaction loop
-- takes a doubled IAC for one.
use telnet.Prelude.{
  ℕ, err, if◌then◌else◌, ◌+◌, ◌-◌, ◌≤◌, ◌||◌, not, Option, none, some, Result, panic, drop, true,
  false, ◌∙◌, [], ◌∷◌, ◌++◌, ◌≡◌, ◌≢◌, refl, ap, Bytes, length, length-append, ltb, take,
  take-append, ok, arith,
}
use telnet.Opcode.{se, sb, iac, command_codes}
use telnet.Command.{
  Command, ParseError, no_iac_se, skip_doubled, compact_data, slice, ends_with_iac_se,
  parse_subnegotiation, parse_command,
}

-- What the loop makes where its indices are in range.
unfoldable pub compact : Bytes → Bytes → Bytes
unfolding skip_doubled
compact (b ∷ bs) (d ∷ ds) = d ∷ compact bs (skip_doubled b ds)
compact _ _ = []

skip_doubled-le : (b : ℕ) (ds : Bytes) → length (skip_doubled b ds) ≤ length ds
unfolding skip_doubled
skip_doubled-le b [] = omega arith
skip_doubled-le b (x ∷ xs) = ground arith

-- The data's index is never behind the buffer's, so that both are in range.
pub compact_data-compact :
    (bs ds : Bytes) → length ds ≤ length bs → compact_data bs ds ≡ some (compact bs ds)
unfolding compact_data compact
compact_data-compact [] [] h = refl
compact_data-compact (b ∷ bs) [] h = refl
compact_data-compact [] (d ∷ ds) h = absurd (omega arith)
compact_data-compact (b ∷ bs) (d ∷ ds) h =
    ap (λ o. elim o as (λ x. Option Bytes) [ none ↦ none | some rest ↦ some (d ∷ rest) ])
      (compact_data-compact bs (skip_doubled b ds) (omega (arith, skip_doubled-le b ds)))

-- A slice whose bounds are in range.
pub slice-some :
    (from to : ℕ) (s : Bytes)
    → from ≤ to
    → to ≤ length s
    → slice from to s ≡ some (take (to - from) (drop from s))
unfolding slice
slice-some from to s h k = ground arith

abbrev HeadNotIac : Bytes → Type 0
HeadNotIac [] = Unit {0}
HeadNotIac (x ∷ xs) = x ≢ iac

-- Nowhere does an IAC at the buffer's index meet an IAC behind the data's index.
abbrev pub Apart : Bytes → Bytes → Type 0
Apart bs [] = Unit {0}
Apart [] (d ∷ ds) = ⊥
Apart (b ∷ bs) (d ∷ ds) = (b ≡ iac → HeadNotIac ds) × Apart bs ds

skip_doubled-Apart : (b : ℕ) (ds : Bytes) → (b ≡ iac → HeadNotIac ds) → skip_doubled b ds ≡ ds
unfolding skip_doubled
skip_doubled-Apart b [] h = refl
skip_doubled-Apart b (x ∷ xs) h = ground arith

pub compact-Apart : (bs ds : Bytes) → Apart bs ds → compact bs ds ≡ ds
unfolding compact
compact-Apart [] [] h = refl
compact-Apart (b ∷ bs) [] h = refl
compact-Apart [] (d ∷ ds) h = absurd h
compact-Apart (b ∷ bs) (d ∷ ds) h =
    rw (skip_doubled-Apart b ds h.0) (ap (◌∷◌ d) (compact-Apart bs ds h.1))

abbrev pub NoIac : Bytes → Type 0
NoIac [] = Unit {0}
NoIac (x ∷ xs) = (x ≢ iac) × NoIac xs

ends_with_iac_se-append : (s : Bytes) → ends_with_iac_se (s ++ (iac ∷ se ∷ [])) ≡ true
unfolding ends_with_iac_se
ends_with_iac_se-append [] = refl
ends_with_iac_se-append (a ∷ []) = refl
ends_with_iac_se-append (a ∷ b ∷ []) = refl
ends_with_iac_se-append (a ∷ b ∷ c ∷ s) = ends_with_iac_se-append (b ∷ c ∷ s)

-- The data of a subnegotiation, and what comes of them.
abbrev pub compacted : ℕ → Option Bytes → Result ParseError Command
compacted option none = panic
compacted option (some buffer) =
    ok (record { op_code = sb; option = option; subnegotiation = buffer })

abbrev pub after_slice : ℕ → Option Bytes → Result ParseError Command
after_slice option none = panic
after_slice option (some inner) = compacted option (compact_data inner inner)

elim-compacted :
    (option : ℕ) (o : Option Bytes)
    → elim o as (λ x. Result ParseError Command) [
      | none ↦ panic
      | some buffer ↦ ok (record { op_code = sb; option = option; subnegotiation = buffer })
    ]
      ≡ compacted option o
elim-compacted option none = refl
elim-compacted option (some b) = refl

elim-after_slice :
    (option : ℕ) (o : Option Bytes)
    → elim o as (λ x. Result ParseError Command) [
      | none ↦ panic
      | some inner ↦ elim (compact_data inner inner) as (λ x. Result ParseError Command) [
        | none ↦ panic
        | some buffer ↦ ok (record { op_code = sb; option = option; subnegotiation = buffer })
      ]
    ]
      ≡ after_slice option o
elim-after_slice option none = refl
elim-after_slice option (some inner) = elim-compacted option (compact_data inner inner)

-- Data that are long enough and end with IAC SE are sliced and compacted without a panic.
pub parse_subnegotiation-whole :
    (whole : Bytes) (option : ℕ)
    → (ltb (length whole) 5 || not (ends_with_iac_se whole)) ≡ false
    → let inner = take (length whole - 2 - 3) (drop 3 whole) in
      parse_subnegotiation whole option
      ≡ ok (record { op_code = sb; option = option; subnegotiation = compact inner inner })
unfolding parse_subnegotiation
parse_subnegotiation-whole whole option e =
    let inner : Bytes = take (length whole - 2 - 3) (drop 3 whole) in
    let long : 5 ≤ length whole = ground (arith, e) in
    ap
      (λ g.
        if g
        then err (no_iac_se whole)
        else elim (slice 3 (length whole - 2) whole) as (λ x. Result ParseError Command) [
          | none ↦ panic
          | some inner ↦ elim (compact_data inner inner) as (λ x. Result ParseError Command) [
            | none ↦ panic
            | some buffer ↦ ok (record { op_code = sb; option = option; subnegotiation = buffer })
          ]
        ])
      e
    ∙ (elim-after_slice option (slice 3 (length whole - 2) whole)
        ∙ (ap (after_slice option)
              (slice-some 3 (length whole - 2) whole (omega (arith, long)) (omega arith))
            ∙ ap (compacted option) (compact_data-compact inner inner (omega arith))))

not_refused :
    (whole : Bytes)
    → 5 ≤ length whole
    → ends_with_iac_se whole ≡ true
    → (ltb (length whole) 5 || not (ends_with_iac_se whole)) ≡ false
not_refused whole h e = ground (arith, h, e)

-- A subnegotiation is accepted whatever bytes stand in it, and its data is compacted.
pub parse_command-sb :
    (option : ℕ) (s : Bytes)
    → parse_command (iac ∷ sb ∷ option ∷ (s ++ (iac ∷ se ∷ [])))
      ≡ ok (record { op_code = sb; option = option; subnegotiation = compact s s })
unfolding parse_command command_codes
parse_command-sb option s =
    let whole : Bytes = iac ∷ sb ∷ option ∷ (s ++ (iac ∷ se ∷ [])) in
    let len : length (s ++ (iac ∷ se ∷ [])) ≡ length s + 2 = length-append s (iac ∷ se ∷ []) in
    parse_subnegotiation-whole whole option
      (not_refused whole (omega (arith, len)) (ends_with_iac_se-append (iac ∷ sb ∷ option ∷ s)))
    ∙ ap
        (λ inner.
          ok (record { op_code = sb; option = option; subnegotiation = compact inner inner }))
        (ap (λ n. take n (s ++ (iac ∷ se ∷ []))) (omega (arith, len))
          ∙ take-append s (iac ∷ se ∷ []))

Apart-self : (s : Bytes) → NoIac s → Apart s s
Apart-self [] n = tt
Apart-self (x ∷ []) n = (λ e. tt, tt)
Apart-self (x ∷ y ∷ s) n = (λ e. n.1.0, Apart-self (y ∷ s) n.1)

-- The data's index one ahead of the buffer's, as after one doubled IAC.
Apart-behind : (b : ℕ) (s : Bytes) → NoIac s → Apart (b ∷ s) s
Apart-behind b [] n = tt
Apart-behind b (x ∷ []) n = (λ e. tt, tt)
Apart-behind b (x ∷ y ∷ s) n = (λ e. n.1.0, Apart-behind x (y ∷ s) n.1)

Apart-late :
    (b : ℕ) (s : Bytes)
    → b ≢ iac
    → NoIac s
    → Apart (b ∷ (s ++ (iac ∷ iac ∷ []))) (s ++ (iac ∷ iac ∷ []))
Apart-late b [] h n = (λ e. absurd (h e), (λ e. tt, tt))
Apart-late b (x ∷ s) h n = (λ e. absurd (h e), Apart-late x s n.0 n.1)

compact-before : (pre s : Bytes) → NoIac pre → compact (pre ++ s) (pre ++ s) ≡ pre ++ compact s s
unfolding compact
compact-before [] s n = refl
compact-before (x ∷ pre) s n =
    rw (skip_other x (pre ++ s) n.0) (ap (◌∷◌ x) (compact-before pre s n.1))
  where
    skip_other : (x : ℕ) (ds : Bytes) → x ≢ iac → skip_doubled x ds ≡ ds
    skip_other x ds h = skip_doubled-Apart x ds (λ e. absurd (h e))

skip_doubled-iac : (s : Bytes) → skip_doubled iac (iac ∷ s) ≡ s
unfolding skip_doubled
skip_doubled-iac s = refl

-- Subnegotiation data with one IAC in it, sent doubled, is received as it was.
pub parse_command_doubled_once :
    (option : ℕ) (pre post : Bytes)
    → NoIac pre
    → NoIac post
    → parse_command (iac ∷ sb ∷ option ∷ ((pre ++ (iac ∷ iac ∷ post)) ++ (iac ∷ se ∷ [])))
      ≡ ok (record { op_code = sb; option = option; subnegotiation = pre ++ (iac ∷ post) })
parse_command_doubled_once option pre post n m =
    rw (parse_command-sb, compact-before pre (iac ∷ iac ∷ post) n, compact_pair post m)
  where
    compact_pair :
        (post : Bytes) → NoIac post → compact (iac ∷ iac ∷ post) (iac ∷ iac ∷ post) ≡ iac ∷ post
    compact_pair post m =
        unfold compact in
        rw (skip_doubled-iac post, compact-Apart (iac ∷ post) post (Apart-behind iac post m))

-- A doubled IAC at the head of subnegotiation data is received as one IAC, and a second one at the
-- end, two or more other bytes behind the first and none of them an IAC, is received doubled.
pub parse_command_doubled_twice :
    (option x y : ℕ) (s : Bytes)
    → x ≢ iac
    → NoIac (y ∷ s)
    → parse_command
        (iac ∷ sb ∷ option ∷ ((iac ∷ iac ∷ x ∷ y ∷ (s ++ (iac ∷ iac ∷ []))) ++ (iac ∷ se ∷ [])))
      ≡ ok (record {
        op_code = sb;
        option = option;
        subnegotiation = iac ∷ x ∷ y ∷ (s ++ (iac ∷ iac ∷ []));
      })
parse_command_doubled_twice option x y s h n = rw (parse_command-sb, compact_pairs)
  where
    ahead : Bytes
    ahead = x ∷ y ∷ (s ++ (iac ∷ iac ∷ []))

    compact_pairs : compact (iac ∷ iac ∷ ahead) (iac ∷ iac ∷ ahead) ≡ iac ∷ ahead
    compact_pairs =
        unfold compact in
        rw (
          skip_doubled-iac ahead,
          compact-Apart (iac ∷ ahead) ahead (λ e. n.0, Apart-late x (y ∷ s) h n),
        )

-- No IAC stands directly before another.
pub compact_self : (s : Bytes) → Apart s s → compact s s ≡ s
compact_self s h = compact-Apart s s h
