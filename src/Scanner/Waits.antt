-- ===== src/Scanner/Waits.antt =====
-- printer_scan.go: the data on which the split function does not advance.
use telnet.Prelude.{
  ℕ, suc, Bool, false, ◌||◌, Option, none, some, [], ◌∷◌, ◌++◌, ◌==◌, ◌≡◌, ◌≢◌, ◌↔◌, refl, sym,
  subst, inl, inr, ◌∙◌, ap, Bytes, length, arith, Bool-cases, Option-cases, ==_iff,
}
use telnet.Opcode.{eor, se, nop, ayt, ga, sb, iac}
use telnet.Scanner.{
  index, scan_iac, scan_opcode, scan_telnet_without_eof, split_at, Split, scan_telnet,
}
use telnet.Scanner.Subnegotiation.{
  subnegotiation_end, shift, advance_to, find_subnegotiation_end-eq, end-ne-iac, end-iac-iac,
}
use telnet.Scanner.Frames.{IsClean, end-other, ne→test}

-- The opcodes that the scanner takes with no byte behind them.
abbrev pub stands_alone : ℕ → Bool
stands_alone op = op == iac || op == ga || op == nop || op == se || op == eor || op == ayt

-- Data that a command begins and does not end.
abbrev pub IsIncomplete : Bytes → Type 0
IsIncomplete [] = ⊥
IsIncomplete (a ∷ []) = a ≡ iac
IsIncomplete (a ∷ op ∷ []) = (a ≡ iac) × (stands_alone op ≡ false)
IsIncomplete (a ∷ op ∷ x ∷ r) = (a ≡ iac) × (op ≡ sb) × (subnegotiation_end (op ∷ x ∷ r) ≡ none)

advance_to-zero : (o : Option ℕ) → advance_to 1 o ≡ 0 → o ≡ none
advance_to-zero none h = refl
advance_to-zero (some e) h = absurd (omega arith)

scan_opcode-zero_iff :
    (op : ℕ) (rest : Bytes) → (scan_opcode op rest ≡ some 0) ↔ IsIncomplete (iac ∷ op ∷ rest)
unfolding scan_opcode
scan_opcode-zero_iff op [] = ground arith
scan_opcode-zero_iff op (x ∷ r) = ground (
  arith,
  find_subnegotiation_end-eq (suc (length (op ∷ x ∷ r))) 1 (op ∷ x ∷ r),
  advance_to-zero (subnegotiation_end (op ∷ x ∷ r)),
)

IsIncomplete-head : (x : ℕ) (rest : Bytes) → IsIncomplete (x ∷ rest) → x ≡ iac
IsIncomplete-head x [] h = h
IsIncomplete-head x (op ∷ []) h = h.0
IsIncomplete-head x (op ∷ y ∷ r) h = h.0

scan_iac-zero_iff : (rest : Bytes) → (scan_iac (iac ∷ rest) ≡ some 0) ↔ IsIncomplete (iac ∷ rest)
unfolding scan_iac
scan_iac-zero_iff [] = ground arith
scan_iac-zero_iff (op ∷ r) = scan_opcode-zero_iff op r

index-ne : (x : ℕ) (rest : Bytes) → x ≢ iac → index iac (x ∷ rest) ≢ some 0
unfolding index
index-ne x rest h = ground arith

without_eof-other : (x : ℕ) (rest : Bytes) → x ≢ iac → scan_telnet_without_eof (x ∷ rest) ≢ some 0
unfolding scan_telnet_without_eof
without_eof-other x rest h e = elim (Option-cases (index iac (x ∷ rest))) [
  | inl n ↦ ground arith
  | inr (k, n) ↦ ground (arith, index-ne x rest h)
]

without_eof-iac : (rest : Bytes) → scan_telnet_without_eof (iac ∷ rest) ≡ scan_iac (iac ∷ rest)
unfolding scan_telnet_without_eof
without_eof-iac rest = refl

without_eof-zero_iff :
    (x : ℕ) (rest : Bytes) → (scan_telnet_without_eof (x ∷ rest) ≡ some 0) ↔ IsIncomplete (x ∷ rest)
without_eof-zero_iff x rest = elim (Bool-cases (x == iac)) [
  | inl e ↦
      subst (λ y. (scan_telnet_without_eof (y ∷ rest) ≡ some 0) ↔ IsIncomplete (y ∷ rest))
        (sym ((==_iff x iac).0 e)) (rw without_eof-iac (scan_iac-zero_iff rest))
  | inr n ↦
      let ne : x ≢ iac = ground arith in
      (λ h. absurd (without_eof-other x rest ne h), λ h. absurd (ne (IsIncomplete-head x rest h)))
]

split_at-zero_iff :
    (a x : ℕ) (rest : Bytes)
    → (split_at a (x ∷ rest) false ≡ record { advance = 0; token = some [] }) ↔ (a ≡ 0)
unfolding split_at
split_at-zero_iff a x rest = ground arith

-- While the input has not ended, the split function advances by nothing and returns an empty token
-- that is not nil on the beginning of a command, and on no other data that is not empty.
pub scan_telnet_waits_iff :
    (x : ℕ) (rest : Bytes)
    → (scan_telnet (x ∷ rest) false ≡ some (record { advance = 0; token = some [] }))
      ↔ IsIncomplete (x ∷ rest)
unfolding scan_telnet
scan_telnet_waits_iff x rest = elim (Option-cases (scan_telnet_without_eof (x ∷ rest))) [
  | inl n ↦ ground (arith, without_eof-zero_iff x rest)
  | inr (a, n) ↦ ground (arith, without_eof-zero_iff x rest, split_at-zero_iff a x rest)
]

-- On data that is not empty the token of the split function is never nil.
scan_telnet-token-ne-nil :
    (x : ℕ) (rest : Bytes) (at_eof : Bool) (r : Split)
    → scan_telnet (x ∷ rest) at_eof ≡ some r
    → r.token ≢ none
unfolding scan_telnet split_at
scan_telnet-token-ne-nil x rest at_eof r h =
    elim (Option-cases (scan_telnet_without_eof (x ∷ rest))) [
      | inl n ↦ ground arith
      | inr (a, n) ↦ ground arith
    ]

end-only-se : subnegotiation_end (se ∷ []) ≡ none
unfolding subnegotiation_end
end-only-se = refl

end-iac_at_end : (s : Bytes) → IsClean s → subnegotiation_end (s ++ (iac ∷ iac ∷ se ∷ [])) ≡ none
end-iac_at_end [] h = end-iac-iac (se ∷ []) ∙ ap (shift 2) end-only-se
end-iac_at_end (a ∷ []) h =
    end-ne-iac a (iac ∷ iac ∷ se ∷ []) (ne→test a iac h) ∙ ap (shift 1) (end-iac_at_end [] tt)
end-iac_at_end (a ∷ b ∷ r) h =
    end-other a b (r ++ (iac ∷ iac ∷ se ∷ [])) h.0 ∙ ap (shift 1) (end-iac_at_end (b ∷ r) h.1)

-- A subnegotiation whose data ends with an IAC that is not doubled has no end of its own: its last
-- three bytes read as an escaped IAC and an SE.
pub iac_at_end-IsIncomplete :
    (option : ℕ) (s : Bytes)
    → IsClean (option ∷ s)
    → IsIncomplete (iac ∷ sb ∷ option ∷ (s ++ (iac ∷ iac ∷ se ∷ [])))
iac_at_end-IsIncomplete option s c = (
  refl,
  refl,
  end-ne-iac sb (option ∷ (s ++ (iac ∷ iac ∷ se ∷ []))) refl
      ∙ ap (shift 1) (end-iac_at_end (option ∷ s) c),
)
