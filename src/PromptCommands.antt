-- ===== src/PromptCommands.antt =====
-- promptcommands.go: the set of IAC opcodes that may end a prompt, a `uint32` of flags. The
-- compare-and-swap loops store a value computed from the value that they replace.
use telnet.Prelude.{ℕ, ◌^◌, ◌-◌, Bool, bit_and, bit_or, bit_xor, not, ◌==◌}

abbrev pub prompt_command_ga : ℕ
prompt_command_ga = 1

abbrev pub prompt_command_eor : ℕ
prompt_command_eor = 2

-- `Init`
abbrev pub init : ℕ
init = prompt_command_ga

unfoldable pub set_prompt_command : ℕ → ℕ → ℕ
set_prompt_command flag commands = bit_or commands flag

-- `^flag` on 32 bits.
unfoldable pub clear_prompt_command : ℕ → ℕ → ℕ
clear_prompt_command flag commands = bit_and commands (bit_xor flag (2 ^ 32 - 1))

-- `promptCommands&flag != 0`
unfoldable pub has_prompt_command : ℕ → ℕ → Bool
has_prompt_command flag commands = not (bit_and commands flag == 0)
