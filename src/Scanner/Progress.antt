-- ===== src/Scanner/Progress.antt =====
-- printer_scan.go: that the split function always answers, stays inside its data, and gets on.
use telnet.Prelude.{
  ℕ, zero, suc, ◌≤◌, ◌<◌, Bool, true, Option, none, some, [], ◌∷◌, ◌≡◌, ◌⊎◌, inl, inr, Bytes,
  length, take, take-length, arith, Option-cases,
}
use telnet.Opcode.{iac}
use telnet.Scanner.{
  index, scan_iac, scan_opcode, scan_telnet_without_eof, split_at, Split, scan_telnet,
}
use telnet.Scanner.Subnegotiation.{subnegotiation_end, advance_to, find_subnegotiation_end-eq}

pub subnegotiation_end_bounds :
    (s : Bytes) (e : ℕ) → subnegotiation_end s ≡ some e → (2 ≤ e) × (e ≤ length s)
unfolding subnegotiation_end
subnegotiation_end_bounds [] e h = cc
subnegotiation_end_bounds (a ∷ []) e h = cc
subnegotiation_end_bounds (a ∷ b ∷ r) e h = elim (Option-cases (subnegotiation_end r)) [
  | inl n ↦ elim (Option-cases (subnegotiation_end (b ∷ r))) [
    | inl m ↦ ground arith
    | inr (d, m) ↦ ground (arith, subnegotiation_end_bounds (b ∷ r) d m)
  ]
  | inr (c, n) ↦ elim (Option-cases (subnegotiation_end (b ∷ r))) [
    | inl m ↦ ground (arith, subnegotiation_end_bounds r c n)
    | inr (d, m) ↦
        ground (arith, subnegotiation_end_bounds (b ∷ r) d m, subnegotiation_end_bounds r c n)
  ]
]

advance_to-le : (s : Bytes) → advance_to 1 (subnegotiation_end s) ≤ suc (length s)
advance_to-le s = elim (Option-cases (subnegotiation_end s)) [
  | inl n ↦ rw n (omega arith)
  | inr (e, n) ↦ rw n (omega (arith, subnegotiation_end_bounds s e n))
]

-- What is known of an advance over `s` bytes.
abbrev Fits : ℕ → Option ℕ → Type 0
Fits n none = ⊥
Fits n (some a) = a ≤ n

index_lt : (b : ℕ) (s : Bytes) (k : ℕ) → index b s ≡ some k → k < length s
unfolding index
index_lt b [] k h = cc
index_lt b (x ∷ s) k h = elim (Option-cases (index b s)) [
  | inl n ↦ ground arith
  | inr (j, n) ↦ ground (arith, index_lt b s j n)
]

scan_opcode-Fits : (op : ℕ) (rest : Bytes) → Fits (suc (suc (length rest))) (scan_opcode op rest)
unfolding scan_opcode
scan_opcode-Fits op [] = ground arith
scan_opcode-Fits op (x ∷ r) = ground (
  arith,
  find_subnegotiation_end-eq (suc (length (op ∷ x ∷ r))) 1 (op ∷ x ∷ r),
  advance_to-le (op ∷ x ∷ r),
)

scan_iac-Fits : (s : Bytes) → Fits (length s) (scan_iac s)
unfolding scan_iac
scan_iac-Fits [] = omega arith
scan_iac-Fits (a ∷ []) = omega arith
scan_iac-Fits (a ∷ op ∷ r) = scan_opcode-Fits op r

without_eof-Fits : (s : Bytes) → Fits (length s) (scan_telnet_without_eof s)
unfolding scan_telnet_without_eof
without_eof-Fits s = elim (Option-cases (index iac s)) [
  | inl n ↦ rw (n, scan_telnet_without_eof) (omega arith)
  | inr (k, n) ↦ at k n
]
  where
    at : (k : ℕ) → index iac s ≡ some k → Fits (length s) (scan_telnet_without_eof s)
    at zero n = rw (n, scan_telnet_without_eof) (scan_iac-Fits s)
    at (suc j) n = rw (n, scan_telnet_without_eof) (omega (arith, index_lt iac s (suc j) n))

-- What a call of the split function on `s` returns: at most all of the data, at least a byte of it at
-- the end of the input, and a token that is the data passed over, less the first half of IAC IAC.
pub record IsStep (s : Bytes) (at_eof : Bool) (r : Split) : Type 0 where
  pub within : r.advance ≤ length s
  pub moves : at_eof ≡ true → 0 < r.advance
  pub token :
      (r.token ≡ some (take r.advance s))
      ⊎ ((r.token ≡ some (iac ∷ [])) × (take r.advance s ≡ iac ∷ iac ∷ []))

split_at_token :
    (a x : ℕ) (rest : Bytes) (at_eof : Bool)
    → let r = split_at a (x ∷ rest) at_eof in
      (r.token ≡ some (take r.advance (x ∷ rest)))
      ⊎ ((r.token ≡ some (iac ∷ [])) × (take r.advance (x ∷ rest) ≡ iac ∷ iac ∷ []))
unfolding split_at
split_at_token a x [] at_eof = ground arith
split_at_token a x (y ∷ r) at_eof = ground (arith, take-length r)

split_at-IsStep :
    (a x : ℕ) (rest : Bytes) (at_eof : Bool)
    → a ≤ suc (length rest)
    → IsStep (x ∷ rest) at_eof (split_at a (x ∷ rest) at_eof)
unfolding split_at
split_at-IsStep a x rest at_eof h = record {
  within = ground arith;
  moves = ground arith;
  token = split_at_token a x rest at_eof;
}

-- On any data that is not empty the split function returns; its advance is at most the data, at
-- least a byte at the end of the input, and its token is the data passed over, or a single IAC for
-- IAC IAC.
pub scan_telnet-IsStep :
    (x : ℕ) (rest : Bytes) (at_eof : Bool)
    → (r : Split) × (scan_telnet (x ∷ rest) at_eof ≡ some r) × IsStep (x ∷ rest) at_eof r
unfolding scan_telnet
scan_telnet-IsStep x rest at_eof = elim (Option-cases (scan_telnet_without_eof (x ∷ rest))) [
  | inl n ↦ absurd (rw n at (without_eof-Fits (x ∷ rest)))
  | inr (a, n) ↦ (
    split_at a (x ∷ rest) at_eof,
    rw (n, scan_telnet),
    split_at-IsStep a x rest at_eof (rw n at (without_eof-Fits (x ∷ rest))),
  )
]
