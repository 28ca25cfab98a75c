-- ===== src/Keyboard.antt =====
-- keyboard.go: `writeCommand`, the bytes of a command on the wire.
pub mod Wire
pub mod Loop
pub mod Received
pub mod Order
pub mod Locked
pub mod Write
pub mod Repeats
pub mod Sends
mod Tests
use telnet.Prelude.{
  ℕ, ◌+◌, Bool, true, false, ◌&&◌, ◌||◌, not, Option, none, some, [], ◌∷◌, ◌++◌, ◌==◌,
  if◌then◌else◌, Bytes, length, ltb,
}
use telnet.Command.{Command}
use telnet.Opcode.{eor, se, nop, ga, sb, iac}
use telnet.PromptCommands.{prompt_command_ga, prompt_command_eor, has_prompt_command}

-- The capacity of the buffer, by which the parts that it gets are chosen too.
unfoldable pub command_size : Command → ℕ
command_size c =
    (if not (c.op_code == ga) && not (c.op_code == nop) && not (c.op_code == eor) then 3 else 2)
    + (if c.op_code == sb then length c.subnegotiation + 2 else 0)

unfoldable pub command_bytes : Command → Bytes
unfolding command_size
command_bytes c =
    iac
    ∷ c.op_code
    ∷ ((if ltb 2 (command_size c) then c.option ∷ [] else [])
        ++ (if ltb 3 (command_size c) then c.subnegotiation ++ (iac ∷ se ∷ []) else []))

-- What `writeCommand` hands to `writeOutput`; `none` for a prompt command that is suppressed.
unfoldable pub write_command : ℕ → Command → Option Bytes
unfolding command_bytes has_prompt_command
write_command prompts c =
    if c.op_code == ga && not (has_prompt_command prompt_command_ga prompts)
    then none
    else if c.op_code == eor && not (has_prompt_command prompt_command_eor prompts)
    then none
    else some (command_bytes c)
