-- ===== src/Terminal.antt =====
-- terminal.go, telopt.go and the structs of telopts/: the state that the telopts of one terminal share.
-- A callback registered by a consumer is not called: the events that it would get are listed instead.
use telnet.Prelude.{
  ℕ, ◌*◌, ◌^◌, Bool, not, Option, none, some, List, [], ◌∷◌, ◌++◌, ◌==◌, if◌then◌else◌, Bytes,
  bit_and,
}
use telnet.Command.{Command}
use telnet.TerminalData.{command_data, TelOptState, inactive, PostSend, KeyboardTransport}
use telnet.KeyboardLock
use telnet.KeyboardLock.{KeyboardLock}

-- The flags of `TelOptUsage`.
abbrev pub allow_remote : ℕ
allow_remote = 1

abbrev pub only_request_remote : ℕ
only_request_remote = 2

abbrev pub allow_local : ℕ
allow_local = 4

abbrev pub only_request_local : ℕ
only_request_local = 8

abbrev pub has_flag : ℕ → ℕ → Bool
has_flag flag usage = not (bit_and usage flag == 0)

-- `TelOptSide`, where it is known.
pub data TelOptSide : Type 0 where
  side_local side_remote : TelOptSide

-- `BaseTelOpt`, without its name, which only messages show.
pub record BaseTelOpt : Type 0 where
  pub code : ℕ
  pub local_state : TelOptState
  pub remote_state : TelOptState
  pub usage : ℕ

unfoldable pub new_base_tel_opt : ℕ → ℕ → BaseTelOpt
new_base_tel_opt code usage = record {
  code = code;
  local_state = inactive;
  remote_state = inactive;
  usage = usage;
}

-- The fields of `NAWS`, `SENDLOCATION`, `TTYPE`, `LINEMODE` and `NEWENVIRON` beside the base.
pub record Naws : Type 0 where
  pub local_width : ℕ
  pub local_height : ℕ
  pub remote_width : ℕ
  pub remote_height : ℕ

pub record SendLocation : Type 0 where
  pub local_location : Bytes
  pub remote_location : Bytes

pub record Ttype : Type 0 where
  pub local_terminal_cursor : ℕ
  pub local_terminals : List Bytes
  pub remote_terminals : List Bytes

pub record NewEnviron : Type 0 where
  pub well_known_vars : List Bytes
  pub local_user_vars : List (Bytes × Bytes)
  pub local_well_known_vars : List (Bytes × Bytes)
  pub remote_user_vars : List (Bytes × Bytes)
  pub remote_well_known_vars : List (Bytes × Bytes)

-- The telopts of the telopts package that are modelled.
pub data Kind : Type 0 where
  echo eor suppress_go_ahead transmit_binary : Kind
  naws : Naws → Kind
  send_location : SendLocation → Kind
  ttype : Ttype → Kind
  linemode : ℕ → Kind
  new_environ : NewEnviron → Kind

pub record TelOpt : Type 0 where
  pub base : BaseTelOpt
  pub kind : Kind

pub data TelOptEvent : Type 0 where
  state_change : ℕ → TelOptSide → TelOptState → TelOptState → TelOptEvent
  naws_remote_size_changed : ℕ → ℕ → TelOptEvent
  send_location_remote_updated : Bytes → TelOptEvent
  ttype_remote_terminals_updated : List Bytes → TelOptEvent
  linemode_change : ℕ → TelOptEvent
  new_environ_remote_vars_changed : List Bytes → List Bytes → TelOptEvent

-- The binary flags of `Charset`.
pub record BinaryMode : Type 0 where
  pub binary_encode : Bool
  pub binary_decode : Bool

-- `input` is the keyboard's channel, oldest first; a full channel, which blocks, is not modelled.
-- `output` is what the keyboard wrote to its stream, and `now` the clock.
pub record Terminal : Type 0 where
  pub now : ℕ
  pub binary : BinaryMode
  pub lock : KeyboardLock
  pub keyboard_prompts : ℕ
  pub printer_prompts : ℕ
  pub input : List KeyboardTransport
  pub output : Bytes
  pub options : List (ℕ × TelOpt)
  pub events : List TelOptEvent

-- `DefaultKeyboardLock`, in nanoseconds.
abbrev pub default_keyboard_lock : ℕ
default_keyboard_lock = 5 * 10 ^ 9

-- `WriteCommand`
unfoldable pub write_command : Command → Option PostSend → Terminal → Terminal
write_command c post t = record t {
  input =
      t.input
      ++ (record { unparsed_string = []; transported = some (command_data c); post_send = post }
          ∷ []);
}

unfoldable pub raise : TelOptEvent → Terminal → Terminal
raise e t = record t { events = t.events ++ (e ∷ []) }

unfoldable pub set_lock : Bytes → Terminal → Terminal
set_lock name t = record t {
  lock = KeyboardLock.set_lock t.now t.now name default_keyboard_lock t.lock;
}

unfoldable pub clear_lock : Bytes → Terminal → Terminal
clear_lock name t = record t { lock = KeyboardLock.clear_lock t.now name t.lock }

unfoldable pub has_active_lock : Bytes → Terminal → Bool
has_active_lock name t = KeyboardLock.has_active_lock t.now name t.lock

-- `t.options[code]`
unfoldable pub find_option : ℕ → List (ℕ × TelOpt) → Option TelOpt
find_option code [] = none
find_option code ((c, o) ∷ options) = if c == code then some o else find_option code options

-- The object that the map holds under that code is changed in place.
unfoldable pub put_option : ℕ → TelOpt → List (ℕ × TelOpt) → List (ℕ × TelOpt)
put_option code o [] = []
put_option code o ((c, p) ∷ options) =
    if c == code then (c, o) ∷ options else (c, p) ∷ put_option code o options
