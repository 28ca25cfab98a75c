-- ===== src/Scanner/Subnegotiation.antt =====
-- printer_scan.go: where the loop of `scanTelnetWithoutEOF` ends a subnegotiation.
use telnet.Prelude.{
  ℕ, zero, suc, ◌+◌, ◌≤◌, ◌<◌, true, false, Option, none, some, [], ◌∷◌, ◌==◌, ◌≡◌, refl, sym, ap,
  inl, inr, Bytes, length, length-drop, drop, arith, Bool-cases, Option-cases, ==_iff,
}
use telnet.Opcode.{se, iac}
use telnet.Scanner.{index, behind_iac, find_subnegotiation_end}

abbrev pub shift : ℕ → Option ℕ → Option ℕ
shift n none = none
shift n (some e) = some (n + e)

-- One pass over the bytes: the offset behind the first IAC SE, where IAC IAC is skipped as a pair.
unfoldable pub subnegotiation_end : Bytes → Option ℕ
subnegotiation_end [] = none
subnegotiation_end (a ∷ []) = none
subnegotiation_end (a ∷ b ∷ r) = elim (a == iac) [
  | false ↦ shift 1 (subnegotiation_end (b ∷ r))
  | true ↦ elim (b == se) [
    | true ↦ some 2
    | false ↦ elim (b == iac) [
      | true ↦ shift 2 (subnegotiation_end r)
      | false ↦ shift 1 (subnegotiation_end (b ∷ r))
    ]
  ]
]

-- The advance of a subnegotiation whose end is at that offset: 0 asks for more data.
abbrev pub advance_to : ℕ → Option ℕ → ℕ
advance_to pos none = 0
advance_to pos (some e) = pos + e

end-index-none : (s : Bytes) → index iac s ≡ none → subnegotiation_end s ≡ none
unfolding index subnegotiation_end
end-index-none [] h = refl
end-index-none (a ∷ []) h = refl
end-index-none (a ∷ b ∷ r) h = ground (arith, end-index-none (b ∷ r))

pub end-ne-iac :
    (a : ℕ) (s : Bytes)
    → (a == iac) ≡ false
    → subnegotiation_end (a ∷ s) ≡ shift 1 (subnegotiation_end s)
unfolding subnegotiation_end
end-ne-iac a [] h = refl
end-ne-iac a (b ∷ r) h = ground arith

shift-zero : (o : Option ℕ) → shift 0 o ≡ o
shift-zero none = refl
shift-zero (some e) = ap some (omega arith)

shift-suc : (k : ℕ) (o : Option ℕ) → shift 1 (shift k o) ≡ shift (suc k) o
shift-suc k none = refl
shift-suc k (some e) = ap some (omega arith)

index-cons :
    (a k : ℕ) (s : Bytes)
    → (a == iac) ≡ false
    → index iac (a ∷ s) ≡ some k
    → (j : ℕ) × (k ≡ suc j) × (index iac s ≡ some j)
unfolding index
index-cons a k s n h = ground arith

index_here : (a k : ℕ) (s : Bytes) → (a == iac) ≡ true → index iac (a ∷ s) ≡ some k → k ≡ 0
unfolding index
index_here a k s e h = ground arith

-- Up to its first IAC the text has no part in where the subnegotiation ends.
end-index-some :
    (s : Bytes) (k : ℕ)
    → index iac s ≡ some k
    → (subnegotiation_end s ≡ shift k (subnegotiation_end (iac ∷ drop (suc k) s))) × (k < length s)
end-index-some [] k h = unfold index in cc
end-index-some (a ∷ s) k h = elim (Bool-cases (a == iac)) [
  | inl e ↦
      rw ((==_iff a iac).0 e, index_here a k s e h)
        (sym (shift-zero (subnegotiation_end (iac ∷ s))), omega arith)
  | inr n ↦
      let (j, kj, hj) = index-cons a k s n h in
      let (same, lt) = end-index-some s j hj in
      rw (kj, end-ne-iac a s n, same) (shift-suc j _, omega arith)
]

-- Behind an IAC: the three ways in which the loop goes on.
pub end-iac-se : (r : Bytes) → subnegotiation_end (iac ∷ se ∷ r) ≡ some 2
unfolding subnegotiation_end
end-iac-se r = refl

pub end-iac-iac : (r : Bytes) → subnegotiation_end (iac ∷ iac ∷ r) ≡ shift 2 (subnegotiation_end r)
unfolding subnegotiation_end
end-iac-iac r = refl

pub end-iac-other :
    (b : ℕ) (r : Bytes)
    → (b == se) ≡ false
    → (b == iac) ≡ false
    → subnegotiation_end (iac ∷ b ∷ r) ≡ shift 1 (subnegotiation_end (b ∷ r))
unfolding subnegotiation_end
end-iac-other b r h h' = ground arith

advance_to-shift : (pos k : ℕ) (o : Option ℕ) → advance_to (pos + k) o ≡ advance_to pos (shift k o)
advance_to-shift pos k none = refl
advance_to-shift pos k (some e) = omega arith

behind_iac-eq :
    (go : ℕ → Bytes → Option ℕ) (pos : ℕ) (r : Bytes)
    → ((p : ℕ) (s : Bytes)
        → length s ≤ length r
        → go p s ≡ some (advance_to p (subnegotiation_end s)))
    → behind_iac go pos r ≡ some (advance_to pos (subnegotiation_end (iac ∷ r)))
unfolding behind_iac
behind_iac-eq go pos [] h = unfold subnegotiation_end in refl
behind_iac-eq go pos (b ∷ r) h = ground (
  arith,
  h (pos + 2) r,
  h (pos + 1) (b ∷ r),
  end-iac-se r,
  end-iac-iac r,
  end-iac-other b r,
  advance_to-shift pos 2 (subnegotiation_end r),
  advance_to-shift pos 1 (subnegotiation_end (b ∷ r)),
)

-- The loop that looks for IAC SE, with fuel for every byte and one more, ends at the offset that a
-- single pass over the bytes finds.
pub find_subnegotiation_end-eq :
    (fuel pos : ℕ) (s : Bytes)
    → length s < fuel
    → find_subnegotiation_end fuel pos s ≡ some (advance_to pos (subnegotiation_end s))
unfolding find_subnegotiation_end
find_subnegotiation_end-eq zero pos s h = absurd (omega arith)
find_subnegotiation_end-eq (suc fuel) pos s h = elim (Option-cases (index iac s)) [
  | inl e ↦ rw (e, find_subnegotiation_end, end-index-none s e)
  | inr (k, e) ↦
      let (same, lt) = end-index-some s k e in
      rw (e, find_subnegotiation_end, same, ← advance_to-shift)
        (behind_iac-eq (find_subnegotiation_end fuel) (pos + k) (drop (suc k) s)
          (λ p r le. find_subnegotiation_end-eq fuel p r (omega (arith, length-drop (suc k) s))))
]
