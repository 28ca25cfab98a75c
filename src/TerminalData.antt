-- ===== src/TerminalData.antt =====
-- printer_output.go: the units of output, and keyboard.go: what is handed to the keyboard.
-- An escape sequence of the ansi package stands for its text, what its `String` method returns.
use telnet.Prelude.{ℕ, Option, Bytes}
use telnet.Command.{Command}

pub data TerminalData : Type 0 where
  text_data : Bytes → TerminalData
  command_data : Command → TerminalData
  prompt_data : ℕ → TerminalData
  csi_data : Bytes → TerminalData
  osc_data : Bytes → TerminalData
  esc_data : Bytes → TerminalData
  dcs_data : Bytes → TerminalData
  sos_data : Bytes → TerminalData
  pm_data : Bytes → TerminalData
  apc_data : Bytes → TerminalData
  control_code_data : ℕ → TerminalData

-- telopt.go: `TelOptState`.
pub data TelOptState : Type 0 where
  unknown inactive requested active : TelOptState

-- The callbacks that telopts return from a transition, each with what it captures: those of EOR,
-- SUPPRESS-GO-AHEAD and TRANSMIT-BINARY.
pub data PostSend : Type 0 where
  eor_sent : TelOptState → PostSend
  suppress_go_ahead_sent : TelOptState → PostSend
  transmit_binary_sent : TelOptState → PostSend

-- `keyboardTransport`
pub record KeyboardTransport : Type 0 where
  pub unparsed_string : Bytes
  pub transported : Option TerminalData
  pub post_send : Option PostSend
