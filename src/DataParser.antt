-- ===== src/DataParser.antt =====
-- tdata_builder.go: the data parser. Its two queues are the lists of their elements, which queue.go's are
-- shown to be. What it uses of the charmbracelet/x/ansi package is a parameter; a sequence stands for
-- its text.
pub mod Pieces
pub mod Fired
pub mod Tests
use telnet.Prelude.{
  ℕ, zero, suc, ◌+◌, Bool, true, false, not, ◌&&◌, Option, none, some, List, [], ◌∷◌, ◌++◌, ◌==◌,
  if◌then◌else◌, Bytes, length, drop,
}
use telnet.TerminalData.{
  TerminalData, text_data, csi_data, osc_data, esc_data, dcs_data, sos_data, pm_data, apc_data,
  control_code_data,
}

pub data SequenceKind : Type 0 where
  csi osc dcs esc sos pm apc : SequenceKind

-- What `DecodeSequence` returns, with the parser that it changed.
pub record DecodedSequence (P : Type 0) : Type 0 where
  pub parsed : Bytes
  pub width : ℕ
  pub consumed : ℕ
  pub state : ℕ
  pub parser : P

-- The package: `NewParser`, `NormalState`, `DecodeSequence`, `Cmd().Command()` of the parser, the
-- functions `Has…Prefix`, and the text of a sequence made of what the parser holds.
pub record Ansi : Type 1 where
  pub Parser : Type 0
  pub new_parser : Parser
  pub normal_state : ℕ
  pub decode_sequence : Bytes → ℕ → Parser → DecodedSequence Parser
  pub command : Parser → ℕ
  pub has_prefix : SequenceKind → Bytes → Bool
  pub sequence_text : SequenceKind → Parser → Bytes

pub record TerminalDataParser (P : Type 0) : Type 0 where
  pub parsed_bytes : Bytes
  pub parser : P
  pub parser_state : ℕ
  pub builder : Bytes
  pub terminal_data : List TerminalData
  pub bytes : Bytes

-- The text that is built, if any.
abbrev pub text_if : Bytes → List TerminalData
text_if [] = []
text_if (b ∷ bs) = text_data (b ∷ bs) ∷ []

-- Every byte but NUL.
abbrev pub control_codes : Bytes → List TerminalData
control_codes [] = []
control_codes (b ∷ bs) =
    let rest = control_codes bs in if b == 0 then rest else control_code_data b ∷ rest

-- The fuel: two rounds for each byte and one more, since a round that consumes nothing gives up a
-- sequence that was begun before.
abbrev pub rounds : Bytes → ℕ
rounds b = suc (length b + length b)

module _ {P : Type 0} where
  -- `Dequeue` of the output, whose zero value is nil.
  abbrev pub dequeue_from :
      TerminalDataParser P → List TerminalData → Option TerminalData × TerminalDataParser P
  dequeue_from p [] = (none, p)
  dequeue_from p (d ∷ ds) = (some d, record p { terminal_data = ds })

  abbrev pub dequeue : TerminalDataParser P → Option TerminalData × TerminalDataParser P
  dequeue p = dequeue_from p p.terminal_data

  unfoldable pub flush : TerminalDataParser P → Option TerminalData × TerminalDataParser P
  flush p = elim p.builder [
    | [] ↦ (none, p)
    | b ∷ bs ↦ (some (text_data (b ∷ bs)), record p { builder = [] })
  ]

module _ (a : Ansi) where
  open a use {Parser, new_parser, normal_state, decode_sequence, command, has_prefix, sequence_text}

  unfoldable pub new_terminal_data_parser : TerminalDataParser Parser
  new_terminal_data_parser = record {
    parsed_bytes = [];
    parser = new_parser;
    parser_state = 0;
    builder = [];
    terminal_data = [];
    bytes = [];
  }

  -- What is queued for a sequence that is complete.
  unfoldable pub sequence_data : Parser → Bytes → List TerminalData
  sequence_data q b =
      let has_command : Bool = not (command q == 0) in
      if has_command && has_prefix csi b
      then csi_data (sequence_text csi q) ∷ []
      else if has_command && has_prefix osc b
      then osc_data (sequence_text osc q) ∷ []
      else if has_command && has_prefix dcs b
      then dcs_data (sequence_text dcs q) ∷ []
      else if has_command && has_prefix esc b
      then esc_data (sequence_text esc q) ∷ []
      else if has_prefix sos b
      then sos_data (sequence_text sos q) ∷ []
      else if has_prefix pm b
      then pm_data (sequence_text pm q) ∷ []
      else if has_prefix apc b
      then apc_data (sequence_text apc q) ∷ []
      else control_codes b

  -- One round of the loop, and whether `NextOutput` returns behind it.
  unfoldable pub round : TerminalDataParser Parser → Bool × TerminalDataParser Parser
  unfolding sequence_data
  round p =
      let d = decode_sequence p.bytes p.parser_state p.parser in
      let r : TerminalDataParser Parser = record p {
        parser = d.parser;
        parser_state = d.state;
        bytes = drop d.consumed p.bytes;
      } in
      if not (d.width == 0)
      then (false, record r { builder = p.builder ++ d.parsed })
      else if not (d.state == normal_state)
      then (true, record r { parsed_bytes = p.parsed_bytes ++ d.parsed })
      else (
        false,
        record r {
          parsed_bytes = [];
          builder = [];
          terminal_data =
              p.terminal_data
              ++ (text_if p.builder ++ sequence_data d.parser (p.parsed_bytes ++ d.parsed));
        },
      )

  -- `none` means that the fuel ran out.
  unfoldable pub parse_loop :
      ℕ → TerminalDataParser Parser → Option (Option TerminalData × TerminalDataParser Parser)
  unfolding round
  parse_loop zero p = elim p.bytes [ [] ↦ some (dequeue p) | b ∷ bs ↦ none ]
  parse_loop (suc n) p = elim p.bytes [
    | [] ↦ some (dequeue p)
    | b ∷ bs ↦ elim (round p).0 [
      | true ↦ some (dequeue (round p).1)
      | false ↦ parse_loop n (round p).1
    ]
  ]

  unfoldable pub next_output :
      Bytes → TerminalDataParser Parser → Option (Option TerminalData × TerminalDataParser Parser)
  unfolding parse_loop
  next_output input p = elim p.terminal_data [
    | [] ↦ parse_loop (rounds (p.bytes ++ input)) (record p { bytes = p.bytes ++ input })
    | d ∷ ds ↦ some (some d, record p { terminal_data = ds; bytes = p.bytes ++ input })
  ]

  -- What is fired; `none` means that the fuel, one for each call of `NextOutput`, ran out.
  unfoldable pub fire_all :
      ℕ → Bytes → TerminalDataParser Parser → Option (List TerminalData × TerminalDataParser Parser)
  unfolding next_output flush
  fire_all zero input p = none
  fire_all (suc n) input p = elim (next_output input p) [
    | none ↦ none
    | some (some d, q) ↦ elim (fire_all n [] q) [ none ↦ none | some (ds, r) ↦ some (d ∷ ds, r) ]
    | some (none, q) ↦ some (elim (flush q).0 [ none ↦ [] | some d ↦ d ∷ [] ], (flush q).1)
  ]
