-- ===== src/Printer.antt =====
-- printer.go: the loop of the printer, over the scanner and the terminal. What goes into the channel of
-- the event pump is listed; a context that is done ends the scanner's tokens.
pub mod Delivers
pub mod Messages
pub mod Wire
pub mod Arrives
mod Tests
use telnet.Prelude.{
  ℕ, zero, suc, Bool, true, false, not, ◌&&◌, ◌||◌, Option, none, some, List, [], ◌∷◌, ◌++◌, ◌==◌,
  if◌then◌else◌, Bytes,
}
use telnet.Opcode.{nop}
use telnet.Command.{Command}
use telnet.PromptCommands.{prompt_command_ga, prompt_command_eor, has_prompt_command}
use telnet.TerminalData.{TerminalData, command_data, prompt_data}
use telnet.Terminal.{Terminal}
use telnet.Negotiation.{process_telopt_command}
use telnet.Charset.Decode.{EncodingState, Decoded}
use telnet.DataParser.{Ansi}
use telnet.TelnetScanner.{ScanError, timeout, closed, TelnetScanner}
use telnet.TelnetScanner.Scan.{scan}

pub data PumpEvent : Type 0 where
  encountered_error : ScanError → PumpEvent
  printer_output : TerminalData → PumpEvent

-- `complete` is the channel with the error that the loop ends with.
pub record Printer (P : Type 0) : Type 0 where
  pub scanner : TelnetScanner P
  pub terminal : Terminal
  pub pumped : List PumpEvent
  pub complete : Option (Option ScanError)

unfoldable pub is_suppressed_prompt_command : ℕ → ℕ → Bool
is_suppressed_prompt_command prompt commands =
    (prompt == prompt_command_ga && not (has_prompt_command prompt_command_ga commands))
    || (prompt == prompt_command_eor && not (has_prompt_command prompt_command_eor commands))

-- What becomes of an output: the terminal, and what is pumped.
unfoldable pub process_output : TerminalData → Terminal → Terminal × List PumpEvent
unfolding is_suppressed_prompt_command process_telopt_command
process_output (prompt_data prompt) t = (
  t,
  if is_suppressed_prompt_command prompt t.printer_prompts
      then []
      else printer_output (prompt_data prompt) ∷ [],
)
process_output (command_data c) t =
    if c.op_code == 0 || c.op_code == nop
    then (t, [])
    else ((process_telopt_command c t).0, printer_output (command_data c) ∷ [])
process_output d t = (t, printer_output d ∷ [])

abbrev pub is_timeout : Option ScanError → Bool
is_timeout (some timeout) = true
is_timeout _ = false

abbrev pub error_events : Option ScanError → List PumpEvent
error_events none = []
error_events (some e) = encountered_error e ∷ []

-- What the loop leaves in `complete`.
abbrev pub end_error : Option ScanError → Option ScanError
end_error (some closed) = none
end_error e = e

module _ (decode : ℕ → Bytes → EncodingState → Decoded) (a : Ansi) where
  open a use {Parser}

  -- The body of the loop behind a call of `Scan` that returned true.
  unfoldable pub printer_round : TelnetScanner Parser → Printer Parser → Printer Parser
  unfolding process_output
  printer_round s p =
      if is_timeout s.failure then record p { scanner = s } else elim s.next_output [
        | none ↦ record p { scanner = s; pumped = p.pumped ++ error_events s.failure }
        | some o ↦ record p {
          scanner = s;
          terminal = (process_output o p.terminal).0;
          pumped = p.pumped ++ (error_events s.failure ++ (process_output o p.terminal).1);
        }
      ]

  -- At most so many calls of `Scan`; `none` means that there are more, or that the scanner ran out.
  unfoldable pub printer_loop : ℕ → Printer Parser → Option (Printer Parser)
  unfolding scan printer_round
  printer_loop zero p = none
  printer_loop (suc n) p = elim (scan decode a p.scanner) [
    | none ↦ none
    | some (false, s) ↦ some (record p { scanner = s; complete = some (end_error s.failure) })
    | some (true, s) ↦ printer_loop n (printer_round s p)
  ]
