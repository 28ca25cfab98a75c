-- ===== src/Command.antt =====
-- command.go: the `Command` struct, its methods and `parseCommand`.
-- An error of `parseCommand` is a constructor with the bytes that its message shows.
pub mod Parse
pub mod Total
mod Tests
use telnet.Prelude.{
  ℕ, suc, ◌-◌, Bool, true, false, ◌&&◌, ◌||◌, not, Option, none, some, List, [], ◌∷◌, ◌++◌, ◌==◌,
  if◌then◌else◌, Bytes, length, ltb, take, drop, Result, ok, err, panic,
}
use telnet.Opcode.{eor, se, nop, ga, sb, will, wont, do_op, dont, iac, command_codes}

-- `TelOptCode` is the number of the option.
pub record Command : Type 0 where
  pub op_code : ℕ
  pub option : ℕ
  pub subnegotiation : Bytes

-- `Command{OpCode: …}` and `Command{OpCode: …, Option: …}`: a field that is left out is zero.
abbrev pub of_op : ℕ → Command
of_op op = record { op_code = op; option = 0; subnegotiation = [] }

abbrev pub of_option : ℕ → ℕ → Command
of_option op option = record { op_code = op; option = option; subnegotiation = [] }

unfoldable pub is_activate_negotiation : Command → Bool
is_activate_negotiation c = c.op_code == do_op || c.op_code == will

unfoldable pub is_local_negotiation : Command → Bool
is_local_negotiation c = c.op_code == do_op || c.op_code == dont

unfoldable pub reject : Command → Command
reject c =
    if c.op_code == do_op
    then of_option wont c.option
    else if c.op_code == will
    then of_option dont c.option
    else of_op nop

unfoldable pub agree : Command → Command
agree c =
    if c.op_code == do_op
    then of_option will c.option
    else if c.op_code == will
    then of_option do_op c.option
    else if c.op_code == dont
    then of_option wont c.option
    else if c.op_code == wont
    then of_option dont c.option
    else of_op nop

pub data ParseError : Type 0 where
  no_iac : Bytes → ParseError
  standalone_iac : ParseError
  invalid_opcode : Bytes → ParseError
  no_parameters : Bytes → ParseError
  no_iac_se : Bytes → ParseError

-- The second half of the loop body of `parseCommand`: `dataIndex++` if the byte at `bufferIndex`
-- is IAC and so is the one at `dataIndex`. The list is the data from `dataIndex` on.
unfoldable pub skip_doubled : ℕ → Bytes → Bytes
skip_doubled at_buffer [] = []
skip_doubled at_buffer (x ∷ xs) = if at_buffer == iac && x == iac then xs else x ∷ xs

-- The loop that compacts `subnegotiationData`. The lists are the data from `bufferIndex` on and the
-- data from `dataIndex` on; `none` means that an index is out of range.
unfoldable pub compact_data : Bytes → Bytes → Option Bytes
unfolding skip_doubled
compact_data from_buffer [] = some []
compact_data [] (d ∷ from_data) = none
compact_data (b ∷ from_buffer) (d ∷ from_data) =
    elim (compact_data from_buffer (skip_doubled b from_data)) [
      | none ↦ none
      | some rest ↦ some (d ∷ rest)
    ]

-- `s[from:to]`; `none` means that a bound is out of range.
unfoldable pub slice : ℕ → ℕ → Bytes → Option Bytes
slice from to s =
    if ltb to from || ltb (length s) to then none else some (take (to - from) (drop from s))

-- `data[len(data)-2] == IAC && data[len(data)-1] == SE`
unfoldable pub ends_with_iac_se : Bytes → Bool
ends_with_iac_se (x ∷ y ∷ []) = x == iac && y == se
ends_with_iac_se (x ∷ y ∷ z ∷ r) = ends_with_iac_se (y ∷ z ∷ r)
ends_with_iac_se _ = false

-- From `len(data) < 5` on: the whole data and the option in it.
unfoldable pub parse_subnegotiation : Bytes → ℕ → Result ParseError Command
unfolding ends_with_iac_se compact_data slice
parse_subnegotiation whole option =
    if ltb (length whole) 5 || not (ends_with_iac_se whole)
    then err (no_iac_se whole)
    else elim (slice 3 (length whole - 2) whole) [
      | none ↦ panic
      | some inner ↦ elim (compact_data inner inner) [
        | none ↦ panic
        | some buffer ↦ ok (record { op_code = sb; option = option; subnegotiation = buffer })
      ]
    ]

unfoldable pub parse_opcode : Bytes → ℕ → Bytes → Result ParseError Command
unfolding parse_subnegotiation command_codes
parse_opcode whole op rest = elim (command_codes op) [
  | none ↦ err (invalid_opcode whole)
  | some name ↦ if op == nop || op == ga || op == eor then ok (of_op op) else elim rest [
    | [] ↦ err (no_parameters whole)
    | option ∷ r ↦
        if not (op == sb) then ok (of_option op option) else parse_subnegotiation whole option
  ]
]

unfoldable pub parse_command : Bytes → Result ParseError Command
unfolding parse_opcode
parse_command [] = panic
parse_command (first ∷ []) =
    if not (first == iac) then err (no_iac (first ∷ [])) else err standalone_iac
parse_command (first ∷ op ∷ rest) =
    if not (first == iac)
    then err (no_iac (first ∷ op ∷ rest))
    else parse_opcode (first ∷ op ∷ rest) op rest

-- The message text of a command; `itoa` is `strconv.Itoa`.
module _ (itoa : ℕ → Bytes) where
  unfoldable pub command_word : ℕ → Bytes
  unfolding command_codes
  command_word b = elim (command_codes b) [ none ↦ itoa b | some name ↦ name ]

  unfoldable pub command_stream : Bytes → Bytes
  unfolding command_word
  command_stream [] = []
  command_stream (b ∷ []) = command_word b
  command_stream (b ∷ c ∷ rest) = command_word b ++ (b' ' ∷ command_stream (c ∷ rest))
