-- ===== src/TelOpts/Prompts.antt =====
-- telopts/EOR.go, SUPPRESSGOAHEAD.go and TRANSMITBINARY.go: the telopts that change how either side
-- sends, as soon as the command that says so has been written.
pub mod Follow
use telnet.Prelude.{Bool, true, false, Option, none, some, Bytes, text}
use telnet.TerminalData.{
  TelOptState, inactive, requested, active, PostSend, eor_sent, suppress_go_ahead_sent,
  transmit_binary_sent,
}
use telnet.Terminal.{Terminal, set_lock, clear_lock}
use telnet.PromptCommands.{
  prompt_command_eor, prompt_command_ga, set_prompt_command, clear_prompt_command,
}

abbrev pub eor_keyboard_lock : Bytes
eor_keyboard_lock = text "lock.eor"

abbrev pub suppress_go_ahead_keyboard_lock : Bytes
suppress_go_ahead_keyboard_lock = text "lock.suppress-go-ahead"

abbrev pub transmit_binary_keyboard_lock : Bytes
transmit_binary_keyboard_lock = text "lock.binary"

-- `TransitionLocalState` of the three, behind the base's: the terminal and the callback returned.
-- The lock's name and the callback are the telopt's.
unfoldable pub lock_or_post_send :
    Bytes → (TelOptState → PostSend) → TelOptState → Terminal → Terminal × Option PostSend
lock_or_post_send name post requested t = (set_lock name t, none)
lock_or_post_send name post new_state t = (t, some (post new_state))

-- The callbacks.
unfoldable pub eor_post_send : TelOptState → Terminal → Terminal
unfolding clear_lock set_prompt_command clear_prompt_command
eor_post_send new_state t = clear_lock eor_keyboard_lock (elim new_state [
  | active ↦ record t {
    keyboard_prompts = set_prompt_command prompt_command_eor t.keyboard_prompts;
  }
  | inactive ↦ record t {
    keyboard_prompts = clear_prompt_command prompt_command_eor t.keyboard_prompts;
  }
  | _ ↦ t
])

unfoldable pub suppress_go_ahead_post_send : TelOptState → Terminal → Terminal
unfolding clear_lock set_prompt_command clear_prompt_command
suppress_go_ahead_post_send new_state t =
    clear_lock suppress_go_ahead_keyboard_lock (elim new_state [
      | active ↦ record t {
        keyboard_prompts = clear_prompt_command prompt_command_ga t.keyboard_prompts;
      }
      | inactive ↦ record t {
        keyboard_prompts = set_prompt_command prompt_command_ga t.keyboard_prompts;
      }
      | _ ↦ t
    ])

abbrev is_active : TelOptState → Bool
is_active active = true
is_active _ = false

unfoldable pub transmit_binary_post_send : TelOptState → Terminal → Terminal
unfolding clear_lock
transmit_binary_post_send new_state t =
    clear_lock transmit_binary_keyboard_lock
      (record t { binary = record t.binary { binary_encode = is_active new_state } })

unfoldable pub run_post_send : PostSend → Terminal → Terminal
unfolding eor_post_send suppress_go_ahead_post_send transmit_binary_post_send
run_post_send (eor_sent s) t = eor_post_send s t
run_post_send (suppress_go_ahead_sent s) t = suppress_go_ahead_post_send s t
run_post_send (transmit_binary_sent s) t = transmit_binary_post_send s t

-- `TransitionRemoteState` of the three, behind the base's.
unfoldable pub eor_remote : TelOptState → Terminal → Terminal
unfolding set_prompt_command clear_prompt_command
eor_remote active t = record t {
  printer_prompts = set_prompt_command prompt_command_eor t.printer_prompts;
}
eor_remote inactive t = record t {
  printer_prompts = clear_prompt_command prompt_command_eor t.printer_prompts;
}
eor_remote _ t = t

unfoldable pub suppress_go_ahead_remote : TelOptState → Terminal → Terminal
unfolding set_prompt_command clear_prompt_command
suppress_go_ahead_remote active t = record t {
  printer_prompts = clear_prompt_command prompt_command_ga t.printer_prompts;
}
suppress_go_ahead_remote inactive t = record t {
  printer_prompts = set_prompt_command prompt_command_ga t.printer_prompts;
}
suppress_go_ahead_remote _ t = t

unfoldable pub transmit_binary_remote : TelOptState → Terminal → Terminal
transmit_binary_remote active t = record t { binary = record t.binary { binary_decode = true } }
transmit_binary_remote inactive t = record t { binary = record t.binary { binary_decode = false } }
transmit_binary_remote _ t = t
