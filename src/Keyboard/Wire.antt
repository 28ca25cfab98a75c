-- ===== src/Keyboard/Wire.antt =====
-- keyboard.go `writeCommand` against printer_scan.go `ScanTelnet` and command.go `parseCommand`: what
-- the keyboard of one side writes, the printer of the other side reads.
use telnet.Prelude.{
  ℕ, Bool, true, false, ◌||◌, some, [], ◌∷◌, ◌++◌, ◌==◌, ◌≡◌, refl, ◌∙◌, Bytes, append_assoc,
  length, ok, arith,
}
use telnet.Opcode.{eor, se, nop, ga, sb, will, wont, do_op, dont, iac}
use telnet.Command.{Command, of_op, of_option, parse_command}
use telnet.Command.Parse.{Apart, compact-Apart, parse_command-sb}
use telnet.Keyboard.{command_bytes}
use telnet.Scanner.{scan_telnet}
use telnet.Scanner.Waits.{scan_telnet_waits_iff, iac_at_end-IsIncomplete}
use telnet.Scanner.Frames.{IsClean, bare, negotiation, subnegotiation, scan_telnet_frame}

-- The commands that survive the wire: a prompt command or NOP, a negotiation, or a subnegotiation in
-- whose option and data no IAC stands before an IAC or SE, or at the end.
pub data IsSendable : Command → Type 0 where
  prompts : (op : ℕ) → (op == nop || op == ga || op == eor) ≡ true → IsSendable (of_op op)
  negotiates :
      (op option : ℕ)
      → (op == will || op == wont || op == do_op || op == dont) ≡ true
      → IsSendable (of_option op option)
  subnegotiates :
      (option : ℕ) (s : Bytes)
      → IsClean (option ∷ s)
      → IsSendable (record { op_code = sb; option = option; subnegotiation = s })

bytes_prompt :
    (op : ℕ)
    → (op == nop || op == ga || op == eor) ≡ true
    → command_bytes (of_op op) ≡ iac ∷ op ∷ []
unfolding command_bytes
bytes_prompt op h = ground arith

bytes_negotiation :
    (op option : ℕ)
    → (op == will || op == wont || op == do_op || op == dont) ≡ true
    → command_bytes (of_option op option) ≡ iac ∷ op ∷ option ∷ []
unfolding command_bytes
bytes_negotiation op option h = ground arith

bytes_subnegotiation :
    (option : ℕ) (s : Bytes)
    → command_bytes (record { op_code = sb; option = option; subnegotiation = s })
      ≡ iac ∷ sb ∷ option ∷ (s ++ (iac ∷ se ∷ []))
unfolding command_bytes
bytes_subnegotiation option s = ground arith

IsClean-Apart : (option : ℕ) (s : Bytes) → IsClean (option ∷ s) → Apart s s
IsClean-Apart option [] c = tt
IsClean-Apart option (x ∷ []) c = (λ e. tt, tt)
IsClean-Apart option (x ∷ y ∷ s) c = (λ e. (c.1.0 e).0, IsClean-Apart x (y ∷ s) c.1)

-- What a reader finds in bytes with `rest` behind them: it cuts them out whole, with no more, and
-- parses them to `c`.
abbrev pub ReadsAs : Command → Bytes → Bytes → Bool → Type 0
ReadsAs c bytes rest at_eof =
    (scan_telnet (bytes ++ rest) at_eof
      ≡ some (record { advance = length bytes; token = some bytes }))
    × (parse_command bytes ≡ ok c)

parse_prompt :
    (op : ℕ)
    → (op == nop || op == ga || op == eor) ≡ true
    → parse_command (iac ∷ op ∷ []) ≡ ok (of_op op)
unfolding parse_command
parse_prompt op h = ground arith

parse_negotiation :
    (op option : ℕ)
    → (op == will || op == wont || op == do_op || op == dont) ≡ true
    → parse_command (iac ∷ op ∷ option ∷ []) ≡ ok (of_option op option)
unfolding parse_command
parse_negotiation op option h = ground arith

-- A sendable command (a prompt command or NOP, a negotiation, or a subnegotiation in whose option
-- and data no IAC stands before an IAC or SE or at the end), written by writeCommand with anything
-- behind it, is cut out whole by the scanner and parses back to itself.
pub command_bytes-ReadsAs :
    {c : Command} (rest : Bytes) (at_eof : Bool)
    → IsSendable c
    → ReadsAs c (command_bytes c) rest at_eof
command_bytes-ReadsAs rest at_eof (prompts op h) =
    rw (bytes_prompt op h) (scan_telnet_frame rest at_eof (bare (ground arith)), parse_prompt op h)
command_bytes-ReadsAs rest at_eof (negotiates op option h) =
    rw (bytes_negotiation op option h)
      (scan_telnet_frame rest at_eof (negotiation option h), parse_negotiation op option h)
command_bytes-ReadsAs rest at_eof (subnegotiates option s c) = rw (bytes_subnegotiation option s) (
  scan_telnet_frame rest at_eof (subnegotiation option s refl c),
  parse_command-sb option s ∙ rw (compact-Apart s s (IsClean-Apart option s c)),
)

-- For a subnegotiation whose data ends with an IAC and has, with its option before it, no IAC
-- before an IAC or SE or right before that one, the scanner does not find the end of the command in
-- the bytes that writeCommand sends: it waits for more.
pub command_bytes-iac_at_end :
    (option : ℕ) (s : Bytes)
    → IsClean (option ∷ s)
    → scan_telnet
        (command_bytes (record { op_code = sb; option = option; subnegotiation = s ++ (iac ∷ []) }))
        false
      ≡ some (record { advance = 0; token = some [] })
command_bytes-iac_at_end option s c =
    rw (bytes_subnegotiation option (s ++ (iac ∷ [])), append_assoc s (iac ∷ []) (iac ∷ se ∷ []))
      ((scan_telnet_waits_iff iac (sb ∷ option ∷ (s ++ (iac ∷ iac ∷ se ∷ [])))).1
        (iac_at_end-IsIncomplete option s c))
