-- ===== src/Command/Total.antt =====
-- command.go: `parseCommand` on any data.
use telnet.Prelude.{
  ℕ, refl, sym, subst, not, ◌||◌, ltb, length, ◌≡◌, inl, inr, [], ◌∷◌, ◌==◌, Bytes, Result, ok, err,
  panic, arith, Bool-cases, ==_iff,
}
use telnet.Opcode.{iac, sb}
use telnet.Command.{
  Command, ParseError, ends_with_iac_se, parse_subnegotiation, parse_opcode, parse_command,
}
use telnet.Command.Parse.{parse_subnegotiation-whole}

-- An answer that is no panic, and a command only with that opcode.
abbrev Answers : ℕ → Result ParseError Command → Type 0
Answers op (ok c) = c.op_code ≡ op
Answers op (err e) = Unit {0}
Answers op panic = ⊥

parse_subnegotiation-Answers :
    (whole : Bytes) (option : ℕ) → Answers sb (parse_subnegotiation whole option)
unfolding parse_subnegotiation
parse_subnegotiation-Answers whole option =
    elim (Bool-cases (ltb (length whole) 5 || not (ends_with_iac_se whole))) [
      | inl refused ↦ rw (refused, parse_subnegotiation) tt
      | inr e ↦ subst (Answers sb) (sym (parse_subnegotiation-whole whole option e)) refl
    ]

parse_opcode-Answers :
    (whole : Bytes) (op : ℕ) (rest : Bytes) → Answers op (parse_opcode whole op rest)
unfolding parse_opcode
parse_opcode-Answers whole op [] = ground arith
parse_opcode-Answers whole op (option ∷ r) =
    ground (arith, parse_subnegotiation-Answers whole option)

-- An answer on those data that is no panic, and a command only with the opcode that stands in them
-- behind IAC.
abbrev pub IsReading : Bytes → Result ParseError Command → Type 0
IsReading s (ok c) = (rest : Bytes) × (s ≡ iac ∷ c.op_code ∷ rest)
IsReading s (err e) = Unit {0}
IsReading s panic = ⊥

Answers-IsReading :
    (x op : ℕ) (rest : Bytes) (r : Result ParseError Command)
    → x ≡ iac
    → Answers op r
    → IsReading (x ∷ op ∷ rest) r
Answers-IsReading x op rest (ok c) e a = (rest, cc)
Answers-IsReading x op rest (err f) e a = tt
Answers-IsReading x op rest panic e a = a

-- On data that is not empty parseCommand does not panic: the bounds of its slice and the indices of
-- its compaction loop are in range; and a command that it returns has the opcode that stands in the
-- data behind IAC.
pub parse_command-IsReading :
    (x : ℕ) (rest : Bytes) → IsReading (x ∷ rest) (parse_command (x ∷ rest))
unfolding parse_command
parse_command-IsReading x [] = elim (Bool-cases (x == iac)) [
  | inl e ↦ rw (e, parse_command) tt
  | inr n ↦ rw (n, parse_command) tt
]
parse_command-IsReading x (op ∷ rest) = elim (Bool-cases (x == iac)) [
  | inl e ↦
      rw (e, parse_command)
        (Answers-IsReading x op rest (parse_opcode (x ∷ op ∷ rest) op rest) ((==_iff x iac).0 e)
          (parse_opcode-Answers (x ∷ op ∷ rest) op rest))
  | inr n ↦ rw (n, parse_command) tt
]
