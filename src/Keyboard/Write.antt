-- ===== src/Keyboard/Write.antt =====
-- keyboard.go: `write`, and keyboard_decoder.go. The output stream answers each write with the next of
-- the listed answers, and takes it when there is none left. What the data parser and the middlewares
-- make of a string or of data, the charset and the callbacks behind a write are parameters.
use telnet.Prelude.{
  ℕ, Bool, true, false, Option, none, some, List, [], ◌∷◌, ◌++◌, if◌then◌else◌, Bytes,
}
use telnet.Command.{Command}
use telnet.Opcode.{eor, ga}
use telnet.PromptCommands.{prompt_command_ga, prompt_command_eor, has_prompt_command}
use telnet.TerminalData.{TerminalData, command_data, prompt_data, KeyboardTransport, PostSend}
use telnet.Keyboard.{write_command}

pub data Answer : Type 0 where
  accepts temporary_error ends fails : Answer

pub data KeyboardError : Type 0 where
  end_of_file stream_error encode_error callback_error : KeyboardError

pub data KeyboardEvent : Type 0 where
  outbound : TerminalData → KeyboardEvent
  encountered : KeyboardError → KeyboardEvent

pub record KeyboardWorld : Type 0 where
  pub prompts : ℕ
  pub decoded : List TerminalData
  pub answers : List Answer
  pub wire : List Bytes
  pub events : List KeyboardEvent

-- Temporary errors are retried.
unfoldable pub take_answer : List Answer → Option KeyboardError × List Answer
take_answer [] = (none, [])
take_answer (accepts ∷ answers) = (none, answers)
take_answer (temporary_error ∷ answers) = take_answer answers
take_answer (ends ∷ answers) = (some end_of_file, answers)
take_answer (fails ∷ answers) = (some stream_error, answers)

unfoldable pub write_output : Bytes → KeyboardWorld → KeyboardWorld × Option KeyboardError
unfolding take_answer
write_output b w = elim (take_answer w.answers).0 [
  | none ↦ (record w { answers = (take_answer w.answers).1; wire = w.wire ++ (b ∷ []) }, none)
  | some e ↦ (record w { answers = (take_answer w.answers).1 }, some e)
]

unfoldable pub write_command_out : Command → KeyboardWorld → KeyboardWorld × Option KeyboardError
unfolding write_output
write_command_out c w = elim (write_command w.prompts c) [
  | none ↦ (w, none)
  | some b ↦ write_output b w
]

abbrev pub prompt_command : ℕ → Command
prompt_command op_code = record { op_code = op_code; option = 0; subnegotiation = [] }

-- `handleError`: whether the loop goes on.
unfoldable pub handle_error : KeyboardWorld × Option KeyboardError → KeyboardWorld × Bool
handle_error (w, none) = (w, true)
handle_error (w, some end_of_file) = (w, false)
handle_error (w, some e) = (record w { events = w.events ++ (encountered e ∷ []) }, true)

module _ (parse : Bytes → List TerminalData) (through : TerminalData → List TerminalData)
    (encode : Bytes → Option Bytes) (data_string : TerminalData → Bytes)
    (run_callback : PostSend → KeyboardWorld → KeyboardWorld × Option KeyboardError) where
  -- What the middlewares hand on for a list of data.
  abbrev pub through_all : List TerminalData → List TerminalData
  through_all [] = []
  through_all (d ∷ ds) = through d ++ through_all ds

  -- `Decode` and `DecodeString`: only the first empties the list.
  unfoldable pub decode : KeyboardTransport → List TerminalData → List TerminalData
  decode t decoded = elim t.transported [
    | some d ↦ through d
    | none ↦ elim t.unparsed_string [
      | [] ↦ decoded
      | b ∷ bs ↦ decoded ++ through_all (parse (b ∷ bs))
    ]
  ]

  unfoldable pub write_text : TerminalData → KeyboardWorld → KeyboardWorld × Option KeyboardError
  unfolding write_output
  write_text d w = elim (encode (data_string d)) [
    | none ↦ (w, some encode_error)
    | some b ↦ write_output b w
  ]

  -- One round over the decoded data; `none` for a prompt that has no command.
  unfoldable pub write_data :
      TerminalData → KeyboardWorld → Option (KeyboardWorld × Option KeyboardError)
  unfolding write_command_out write_text
  write_data (command_data c) w = some (write_command_out c w)
  write_data (prompt_data p) w =
      if has_prompt_command prompt_command_eor w.prompts
      then some (write_command_out (prompt_command eor) w)
      else if has_prompt_command prompt_command_ga w.prompts
      then some (write_command_out (prompt_command ga) w)
      else none
  write_data d w = some (write_text d w)

  unfoldable pub write_decoded :
      List TerminalData → KeyboardWorld → KeyboardWorld × Option KeyboardError
  unfolding write_data
  write_decoded [] w = (w, none)
  write_decoded (d ∷ ds) w = elim (write_data d w) [
    | none ↦ write_decoded ds w
    | some (v, some e) ↦ (v, some e)
    | some (v, none) ↦ write_decoded ds (record v { events = v.events ++ (outbound d ∷ []) })
  ]

  unfoldable pub call_back :
      Option PostSend → KeyboardWorld × Option KeyboardError → KeyboardWorld × Option KeyboardError
  call_back post (w, some e) = (w, some e)
  call_back none (w, none) = (w, none)
  call_back (some p) (w, none) = run_callback p w

  unfoldable pub write : KeyboardTransport → KeyboardWorld → KeyboardWorld × Bool
  unfolding decode write_decoded call_back handle_error
  write t w =
      let ds = decode t w.decoded in
      handle_error (call_back t.post_send (write_decoded ds (record w { decoded = ds })))
