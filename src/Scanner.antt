-- ===== src/Scanner.antt =====
-- printer_scan.go: `scanTelnetWithoutEOF` and `ScanTelnet`, the split function of the scanner.
-- They keep no state, and return no error on any path, so the error result is left out.

pub mod Subnegotiation
pub mod Progress
pub mod Frames
pub mod Waits
pub mod AreYouThere
pub mod Doubling
mod Tests
use telnet.Prelude.{
  ℕ, zero, suc, ◌+◌, Bool, true, false, ◌&&◌, ◌||◌, not, Option, none, some, [], ◌∷◌, ◌==◌,
  if◌then◌else◌, Bytes, length, take, drop,
}
use telnet.Opcode.{eor, se, nop, ayt, ga, sb, will, wont, do_op, dont, iac}

-- `bytes.Index(bytes, []byte{b})`, which is negative where this is `none`.
unfoldable pub index : ℕ → Bytes → Option ℕ
index b [] = none
index b (x ∷ xs) =
    if x == b then some 0 else elim (index b xs) [ none ↦ none | some k ↦ some (suc k) ]

-- The body of the loop over a subnegotiation once it has found an IAC, at position `next_index`. The
-- bytes are those behind that IAC, and `go` is the loop, from a position and the bytes there on.
unfoldable pub behind_iac : (ℕ → Bytes → Option ℕ) → ℕ → Bytes → Option ℕ
behind_iac go next_index [] = some 0
behind_iac go next_index (b ∷ rest) = elim (b == se) [
  | true ↦ some (next_index + 2)
  | false ↦ elim (b == iac) [
    | true ↦ go (next_index + 2) rest
    | false ↦ go (next_index + 1) (b ∷ rest)
  ]
]

-- The loop. The bytes are what stands behind `nextIndex`, at position `pos`, which is `nextIndex+1`.
-- The result is the advance; `none` means that the fuel ran out.
unfoldable pub find_subnegotiation_end : ℕ → ℕ → Bytes → Option ℕ
unfolding index behind_iac
find_subnegotiation_end zero pos bytes = none
find_subnegotiation_end (suc fuel) pos bytes = elim (index iac bytes) [
  | none ↦ some 0
  | some k ↦ behind_iac (find_subnegotiation_end fuel) (pos + k) (drop (suc k) bytes)
]

-- `scanTelnetWithoutEOF` on bytes that begin with IAC and `op`; `rest` follows. The bytes from index 1
-- on, where the loop starts, are `op ∷ rest`. With fuel for each of them the loop ends.
unfoldable pub scan_opcode : ℕ → Bytes → Option ℕ
scan_opcode op rest =
    if op == iac
    then some 2
    else if op == ga || op == nop || op == se || op == eor || op == ayt
    then some 2
    else elim rest [
      | [] ↦ some 0
      | x ∷ r ↦
          if op == will || op == wont || op == do_op || op == dont
          then some 3
          else if not (op == sb)
          then some 2
          else find_subnegotiation_end (suc (length (op ∷ x ∷ r))) 1 (op ∷ x ∷ r)
    ]

unfoldable pub scan_iac : Bytes → Option ℕ
unfolding scan_opcode
scan_iac (first ∷ op ∷ rest) = scan_opcode op rest
scan_iac _ = some 0

-- The advance.
unfoldable pub scan_telnet_without_eof : Bytes → Option ℕ
unfolding index scan_iac
scan_telnet_without_eof bytes = elim (index iac bytes) [
  | none ↦ some (length bytes)
  | some k ↦ elim k [ zero ↦ scan_iac bytes | suc j ↦ some (suc j) ]
]

-- What a split function returns: the advance and the token, which is `none` for Go's nil.
pub record Split : Type 0 where
  pub advance : ℕ
  pub token : Option Bytes

-- `data[0] == IAC && data[1] == IAC`, and the token `data[1:2]` then.
unfoldable pub doubled_iac : Bytes → Bool
doubled_iac (x ∷ y ∷ rest) = x == iac && y == iac
doubled_iac _ = false

-- `ScanTelnet` behind its call of `scanTelnetWithoutEOF`.
unfoldable pub split_at : ℕ → Bytes → Bool → Split
unfolding doubled_iac
split_at advance bytes at_eof =
    if advance == 0 && not at_eof
    then record { advance = advance; token = some (take advance bytes) }
    else if advance == 0 && at_eof
    then record { advance = length bytes; token = some bytes }
    else if advance == 2 && doubled_iac bytes
    then record { advance = 2; token = some (take 1 (drop 1 bytes)) }
    else record { advance = advance; token = some (take advance bytes) }

-- `none` means that the fuel of the loop ran out, which `Progress` excludes.
unfoldable pub scan_telnet : Bytes → Bool → Option Split
unfolding scan_telnet_without_eof split_at
scan_telnet [] at_eof = some (record { advance = 0; token = none })
scan_telnet (x ∷ rest) at_eof = elim (scan_telnet_without_eof (x ∷ rest)) [
  | none ↦ none
  | some advance ↦ some (split_at advance (x ∷ rest) at_eof)
]
