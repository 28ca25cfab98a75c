-- ===== src/Scanner/Doubling.antt =====
-- printer_scan.go: text in which each IAC is doubled comes out of the scanner as it was.
use telnet.Prelude.{
  ℕ, zero, suc, ◌≤◌, Bool, true, Option, none, some, [], ◌∷◌, ◌++◌, ◌==◌, ◌≡◌, ◌≢◌, refl, sym, ◌∙◌,
  ap, Bytes, length, take, drop, arith, Bool-cases, Option-cases, ==_iff, inl, inr, subst,
  if◌then◌else◌, take-length, take-append-drop, append-nil,
}
use telnet.Opcode.{iac}
use telnet.Scanner.{index, scan_opcode, scan_telnet_without_eof, split_at, Split, scan_telnet}

abbrev pub double_iac : Bytes → Bytes
double_iac [] = []
double_iac (x ∷ xs) = (if x == iac then iac ∷ iac ∷ [] else x ∷ []) ++ double_iac xs

-- A finished input, read by the split function from the start: the tokens, one behind the other. `none`
-- means that the fuel ran out.
unfoldable pub read_all : ℕ → Bytes → Option Bytes
read_all fuel [] = some []
read_all zero (x ∷ s) = none
read_all (suc fuel) (x ∷ s) = elim (scan_telnet (x ∷ s) true) [
  | none ↦ none
  | some r ↦ elim (read_all fuel (drop r.advance (x ∷ s))) [
    | none ↦ none
    | some rest ↦ elim r.token [ none ↦ none | some token ↦ some (token ++ rest) ]
  ]
]

drop-length : (s : Bytes) → drop (length s) s ≡ []
drop-length [] = refl
drop-length (x ∷ s) = drop-length s

double-ne-iac : (x : ℕ) (t : Bytes) → x ≢ iac → double_iac (x ∷ t) ≡ x ∷ double_iac t
double-ne-iac x t h = ground arith

index-double : (t : Bytes) → index iac (double_iac t) ≡ index iac t
unfolding index
index-double [] = refl
index-double (x ∷ t) = ground (arith, index-double t)

-- Up to the first IAC nothing is doubled.
module _ where
  double-none : (t : Bytes) → index iac t ≡ none → double_iac t ≡ t
  unfolding index
  double-none [] h = refl
  double-none (x ∷ t) h = ground (arith, double-none t)

  take-double : (t : Bytes) (k : ℕ) → index iac t ≡ some k → take k (double_iac t) ≡ take k t
  unfolding index
  take-double [] k h = cc
  take-double (x ∷ t) zero h = refl
  take-double (x ∷ t) (suc k) h = ground (arith, take-double t k)

  drop-double :
      (t : Bytes) (k : ℕ) → index iac t ≡ some k → drop k (double_iac t) ≡ double_iac (drop k t)
  unfolding index
  drop-double [] k h = cc
  drop-double (x ∷ t) zero h = refl
  drop-double (x ∷ t) (suc k) h = ground (arith, drop-double t k)

index-head : (x : ℕ) (s : Bytes) → x ≢ iac → index iac (x ∷ s) ≢ some 0
unfolding index
index-head x s h = ground arith

split_at-text :
    (k x : ℕ) (s : Bytes) (at_eof : Bool)
    → x ≢ iac
    → split_at (suc k) (x ∷ s) at_eof
      ≡ record { advance = suc k; token = some (take (suc k) (x ∷ s)) }
unfolding split_at
split_at-text k x [] at_eof h = ground arith
split_at-text k x (y ∷ s) at_eof h = ground arith

pub scan-no-iac :
    (x : ℕ) (s : Bytes) (at_eof : Bool)
    → x ≢ iac
    → index iac (x ∷ s) ≡ none
    → scan_telnet (x ∷ s) at_eof ≡ some (record { advance = length (x ∷ s); token = some (x ∷ s) })
unfolding scan_telnet scan_telnet_without_eof
scan-no-iac x s at_eof h n =
    rw (n, scan_telnet, scan_telnet_without_eof)
      (ap some (split_at-text (length s) x s at_eof h ∙ rw (take-length s)))

pub scan-to-iac :
    (x j : ℕ) (s : Bytes) (at_eof : Bool)
    → x ≢ iac
    → index iac (x ∷ s) ≡ some (suc j)
    → scan_telnet (x ∷ s) at_eof
      ≡ some (record { advance = suc j; token = some (take (suc j) (x ∷ s)) })
unfolding scan_telnet scan_telnet_without_eof
scan-to-iac x j s at_eof h n =
    rw (n, scan_telnet, scan_telnet_without_eof) (ap some (split_at-text j x s at_eof h))

scan-doubled :
    (s : Bytes)
    → scan_telnet (iac ∷ iac ∷ s) true ≡ some (record { advance = 2; token = some (iac ∷ []) })
unfolding scan_telnet scan_telnet_without_eof index scan_opcode split_at
scan-doubled s = refl

length-drop-suc : (k : ℕ) (s : Bytes) → length (drop k s) ≤ length s
length-drop-suc zero s = omega arith
length-drop-suc (suc k) [] = omega arith
length-drop-suc (suc k) (x ∷ s) = omega (arith, length-drop-suc k s)

-- What a call of the split function contributes, if the rest of the input is read to `rest`.
read_all-step :
    (fuel x : ℕ) (s : Bytes) (r : Split) (token rest : Bytes)
    → scan_telnet (x ∷ s) true ≡ some r
    → r.token ≡ some token
    → read_all fuel (drop r.advance (x ∷ s)) ≡ some rest
    → read_all (suc fuel) (x ∷ s) ≡ some (token ++ rest)
unfolding read_all
read_all-step fuel x s r token rest e t h = rw (e, read_all, h, t)

read_all-nil : (fuel : ℕ) → read_all fuel [] ≡ some []
unfolding read_all
read_all-nil zero = refl
read_all-nil (suc fuel) = refl

index-none-tail : (x : ℕ) (t : Bytes) → x ≢ iac → index iac (x ∷ t) ≡ none → index iac t ≡ none
unfolding index
index-none-tail x t h n = ground arith

index-cons-none : (x : ℕ) (t : Bytes) → x ≢ iac → index iac t ≡ none → index iac (x ∷ t) ≡ none
unfolding index
index-cons-none x t h n = ground arith

index-some-tail :
    (x j : ℕ) (t : Bytes) → x ≢ iac → index iac (x ∷ t) ≡ some (suc j) → index iac t ≡ some j
unfolding index
index-some-tail x j t h n = ground arith

index-cons-some :
    (x j : ℕ) (t : Bytes) → x ≢ iac → index iac t ≡ some j → index iac (x ∷ t) ≡ some (suc j)
unfolding index
index-cons-some x j t h n = ground arith

read_all-whole :
    (fuel x : ℕ) (t : Bytes)
    → x ≢ iac
    → index iac t ≡ none
    → read_all (suc fuel) (x ∷ double_iac t) ≡ some (x ∷ t)
read_all-whole fuel x t ne n = rw (double-none t n) (
    read_all-step fuel x t _ (x ∷ t) [] (scan-no-iac x t true ne (index-cons-none x t ne n)) refl
      (rw (drop-length t) (read_all-nil fuel))
    ∙ ap some (append-nil (x ∷ t)))

read_all-upto :
    (fuel x k : ℕ) (t : Bytes)
    → x ≢ iac
    → index iac (x ∷ t) ≡ some k
    → ((j : ℕ) → read_all fuel (double_iac (drop j t)) ≡ some (drop j t))
    → read_all (suc fuel) (x ∷ double_iac t) ≡ some (x ∷ t)
read_all-upto fuel x zero t ne m ih = absurd (index-head x t ne m)
read_all-upto fuel x (suc j) t ne m ih =
    let n = index-some-tail x j t ne m in
    let found = index-cons-some x j (double_iac t) ne (index-double t ∙ n) in
    read_all-step fuel x (double_iac t) _ _ (drop j t)
      (scan-to-iac x j (double_iac t) true ne found) refl (rw (drop-double t j n) (ih j))
    ∙ rw (take-double t j n) (ap (λ r. some (x ∷ r)) (take-append-drop j t))

-- Text in which each IAC is doubled, read to its end by the split function with fuel for each of
-- its bytes, comes out as it was.
pub read_all-double_iac :
    (fuel : ℕ) (t : Bytes) → length t ≤ fuel → read_all fuel (double_iac t) ≡ some t
read_all-double_iac fuel [] h = read_all-nil fuel
read_all-double_iac zero (x ∷ t) h = absurd (omega arith)
read_all-double_iac (suc fuel) (x ∷ t) h = elim (Bool-cases (x == iac)) [
  | inl e ↦
      subst (λ y. read_all (suc fuel) (double_iac (y ∷ t)) ≡ some (y ∷ t))
        (sym ((==_iff x iac).0 e))
        (read_all-step fuel iac (iac ∷ double_iac t) _ (iac ∷ []) t (scan-doubled (double_iac t))
          refl (read_all-double_iac fuel t (omega arith)))
  | inr n ↦
      let ne : x ≢ iac = ground arith in
      rw (double-ne-iac x t ne) (elim (Option-cases (index iac (x ∷ t))) [
        | inl m ↦ read_all-whole fuel x t ne (index-none-tail x t ne m)
        | inr (k, m) ↦
            read_all-upto fuel x k t ne m
              (λ j. read_all-double_iac fuel (drop j t) (omega (arith, length-drop-suc j t)))
      ])
]
