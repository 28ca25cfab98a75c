-- ===== src/Scanner/Frames.antt =====
-- printer_scan.go: how the scanner cuts out each kind of command, whatever follows it.
use telnet.Prelude.{
  ℕ, suc, ◌+◌, Bool, true, false, some, [], ◌∷◌, ◌++◌, ◌==◌, ◌≡◌, ◌≢◌, refl, inl, inr, Bytes,
  length, length-append, take-append, arith, Bool-cases, append_assoc, ap, ◌∙◌, ==_iff, ◌||◌,
}
use telnet.Opcode.{eor, se, nop, ayt, ga, sb, will, wont, do_op, dont, iac}
use telnet.Scanner.{scan_opcode, scan_telnet_without_eof, split_at, scan_telnet}
use telnet.Scanner.Subnegotiation.{
  subnegotiation_end, shift, advance_to, find_subnegotiation_end-eq, end-ne-iac, end-iac-se,
  end-iac-other,
}

-- No IAC stands before another IAC or an SE, or at the end.
abbrev pub IsClean : Bytes → Type 0
IsClean [] = Unit {0}
IsClean (a ∷ []) = a ≢ iac
IsClean (a ∷ b ∷ r) = (a ≡ iac → (b ≢ iac) × (b ≢ se)) × IsClean (b ∷ r)

pub ne→test : (a b : ℕ) → a ≢ b → (a == b) ≡ false
ne→test a b h = ground arith

pub end-other :
    (a b : ℕ) (r : Bytes)
    → (a ≡ iac → (b ≢ iac) × (b ≢ se))
    → subnegotiation_end (a ∷ b ∷ r) ≡ shift 1 (subnegotiation_end (b ∷ r))
end-other a b r h = elim (Bool-cases (a == iac)) [
  | inr n ↦ end-ne-iac a (b ∷ r) n
  | inl e ↦
      let e' = (==_iff a iac).0 e in
      rw e' (end-iac-other b r (ne→test b se (h e').1) (ne→test b iac (h e').0))
]

pub end-IsClean :
    (s rest : Bytes) → IsClean s → subnegotiation_end (s ++ (iac ∷ se ∷ rest)) ≡ some (length s + 2)
end-IsClean [] rest c = end-iac-se rest
end-IsClean (a ∷ []) rest c =
    end-ne-iac a (iac ∷ se ∷ rest) (ne→test a iac c) ∙ ap (shift 1) (end-iac-se rest)
end-IsClean (a ∷ b ∷ r) rest c =
    end-other a b (r ++ (iac ∷ se ∷ rest)) c.0
    ∙ ap (shift 1) (end-IsClean (b ∷ r) rest c.1)
    ∙ ap some (omega arith)

without_eof-iac : (op : ℕ) (r : Bytes) → scan_telnet_without_eof (iac ∷ op ∷ r) ≡ scan_opcode op r
unfolding scan_telnet_without_eof
without_eof-iac op r = refl

-- A frame at the head of the data is cut out, with the end of the input in sight or not.
split_at_frame :
    (x y : ℕ) (frame rest : Bytes) (at_eof : Bool)
    → y ≢ iac
    → split_at (length (x ∷ y ∷ frame)) (x ∷ y ∷ (frame ++ rest)) at_eof
      ≡ record { advance = length (x ∷ y ∷ frame); token = some (x ∷ y ∷ frame) }
unfolding split_at
split_at_frame x y frame rest at_eof h = ground (arith, take-append frame rest)

-- The commands that the scanner cuts out whole: an opcode, and what follows it.
pub data IsFrame (op : ℕ) : Bytes → Type 0 where
  bare : (op == ga || op == nop || op == se || op == eor || op == ayt) ≡ true → IsFrame op []
  negotiation :
      (option : ℕ)
      → (op == will || op == wont || op == do_op || op == dont) ≡ true
      → IsFrame op (option ∷ [])
  subnegotiation :
      (option : ℕ) (s : Bytes)
      → op ≡ sb
      → IsClean (option ∷ s)
      → IsFrame op (option ∷ (s ++ (iac ∷ se ∷ [])))

frame-ne-iac : {op : ℕ} {body : Bytes} → IsFrame op body → op ≢ iac
frame-ne-iac (bare h) = ground arith
frame-ne-iac (negotiation option h) = ground arith
frame-ne-iac (subnegotiation option s h c) = ground arith

scan_opcode-sb :
    (x : ℕ) (r : Bytes)
    → scan_opcode sb (x ∷ r) ≡ some (advance_to 1 (subnegotiation_end (sb ∷ x ∷ r)))
unfolding scan_opcode
scan_opcode-sb x r =
    find_subnegotiation_end-eq (suc (length (sb ∷ x ∷ r))) 1 (sb ∷ x ∷ r) (omega arith)

scan_opcode_frame :
    {op : ℕ} {body : Bytes} (rest : Bytes)
    → IsFrame op body
    → scan_opcode op (body ++ rest) ≡ some (suc (suc (length body)))
unfolding scan_opcode
scan_opcode_frame rest (bare h) = ground arith
scan_opcode_frame rest (negotiation option h) = ground arith
scan_opcode_frame rest (subnegotiation option s h c) =
    rw (h, append_assoc s (iac ∷ se ∷ []) rest)
      (scan_opcode-sb option (s ++ (iac ∷ se ∷ rest))
        ∙ rw
            (
              end-ne-iac sb (option ∷ (s ++ (iac ∷ se ∷ rest))) refl,
              end-IsClean (option ∷ s) rest c,
            )
            (ap some (omega (arith, length-append s (iac ∷ se ∷ [])))))

-- A bare command, a negotiation, or a subnegotiation in whose option and data no IAC stands before
-- an IAC or SE or at the end, is cut out whole, and nothing else with it, whatever bytes follow and
-- whether or not the input ends there.
pub scan_telnet_frame :
    {op : ℕ} {body : Bytes} (rest : Bytes) (at_eof : Bool)
    → IsFrame op body
    → scan_telnet (iac ∷ op ∷ (body ++ rest)) at_eof
      ≡ some (record { advance = length (iac ∷ op ∷ body); token = some (iac ∷ op ∷ body) })
unfolding scan_telnet
scan_telnet_frame {op} {body} rest at_eof f =
    rw (without_eof-iac op (body ++ rest), scan_opcode_frame rest f, scan_telnet)
      (ap some (split_at_frame iac op body rest at_eof (frame-ne-iac f)))
