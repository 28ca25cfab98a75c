-- ===== src/TelOpts/Dispatch.antt =====
-- telopt.go: the interface `TelnetOption`, as calls on the telopts that are modelled.
use telnet.Prelude.{Option, none, Bytes}
use telnet.TerminalData.{
  TelOptState, PostSend, eor_sent, suppress_go_ahead_sent, transmit_binary_sent,
}
use telnet.Terminal.{
  Terminal, TelOpt, Kind, eor, suppress_go_ahead, transmit_binary, naws, send_location, ttype,
  linemode, new_environ, TelOptSide, side_local, side_remote,
}
use telnet.TelOpts.{
  Transition, Subnegotiated, base_transition_local_state, base_transition_remote_state,
  base_subnegotiate,
}
use telnet.TelOpts.Prompts.{
  eor_keyboard_lock, suppress_go_ahead_keyboard_lock, transmit_binary_keyboard_lock,
  lock_or_post_send, eor_remote, suppress_go_ahead_remote, transmit_binary_remote,
}
use telnet.TelOpts.NawsSize.{naws_local, naws_subnegotiate}
use telnet.TelOpts.Location.{send_location_local, send_location_remote, send_location_subnegotiate}
use telnet.TelOpts.TerminalType.{ttype_local, ttype_remote, ttype_subnegotiate}
use telnet.TelOpts.Mode.{linemode_remote, linemode_subnegotiate}
use telnet.TelOpts.Environ.{new_environ_remote}
use telnet.TelOpts.EnvironVars.{new_environ_subnegotiate}

abbrev quiet : TelOpt → Terminal → Transition
quiet o t = record { option = o; terminal = t; post_send = none }

abbrev pub with_post_send : TelOpt → Terminal × Option PostSend → Transition
with_post_send o (t, post) = record { option = o; terminal = t; post_send = post }

-- Each method first runs the base's, but for LINEMODE's remote one, which does not look at the state.
unfoldable pub local_of_kind : Kind → TelOptState → TelOpt → Terminal → Transition
unfolding lock_or_post_send naws_local send_location_local ttype_local
local_of_kind eor s o t = with_post_send o (lock_or_post_send eor_keyboard_lock eor_sent s t)
local_of_kind suppress_go_ahead s o t =
    with_post_send o (lock_or_post_send suppress_go_ahead_keyboard_lock suppress_go_ahead_sent s t)
local_of_kind transmit_binary s o t =
    with_post_send o (lock_or_post_send transmit_binary_keyboard_lock transmit_binary_sent s t)
local_of_kind (naws n) s o t = quiet o (naws_local s n t)
local_of_kind (send_location l) s o t = quiet o (send_location_local s l t)
local_of_kind (ttype y) s o t = quiet (record o { kind = ttype (ttype_local s y) }) t
local_of_kind _ s o t = quiet o t

unfoldable pub remote_of_kind : Kind → TelOptState → TelOpt → Terminal → Transition
unfolding eor_remote suppress_go_ahead_remote transmit_binary_remote send_location_remote
    ttype_remote linemode_remote new_environ_remote
remote_of_kind eor s o t = quiet o (eor_remote s t)
remote_of_kind suppress_go_ahead s o t = quiet o (suppress_go_ahead_remote s t)
remote_of_kind transmit_binary s o t = quiet o (transmit_binary_remote s t)
remote_of_kind (send_location l) s o t =
    quiet (record o { kind = send_location (send_location_remote s l) }) t
remote_of_kind (ttype y) s o t =
    let (z, u) = ttype_remote s y t in quiet (record o { kind = ttype z }) u
remote_of_kind (linemode mode) s o t = quiet o (linemode_remote s mode t)
remote_of_kind (new_environ e) s o t =
    let (f, u) = new_environ_remote s e t in quiet (record o { kind = new_environ f }) u
remote_of_kind _ s o t = quiet o t

-- `TransitionLocalState` and `TransitionRemoteState`.
unfoldable pub transition_local_state : TelOptState → TelOpt → Terminal → Transition
unfolding local_of_kind base_transition_local_state
transition_local_state new_state o t =
    local_of_kind o.kind new_state (base_transition_local_state new_state o) t

unfoldable pub transition_remote_state : TelOptState → TelOpt → Terminal → Transition
unfolding remote_of_kind base_transition_remote_state
transition_remote_state new_state o t =
    remote_of_kind o.kind new_state (base_transition_remote_state new_state o) t

-- `Subnegotiate`
unfoldable pub subnegotiate_kind : Kind → Bytes → TelOpt → Terminal → Subnegotiated
subnegotiate_kind (naws n) bytes o t = naws_subnegotiate bytes n o t
subnegotiate_kind (send_location l) bytes o t = send_location_subnegotiate bytes l o t
subnegotiate_kind (ttype y) bytes o t = ttype_subnegotiate bytes y o t
subnegotiate_kind (linemode mode) bytes o t = linemode_subnegotiate bytes mode o t
subnegotiate_kind (new_environ e) bytes o t = new_environ_subnegotiate bytes e o t
subnegotiate_kind _ bytes o t = base_subnegotiate bytes o t

unfoldable pub subnegotiate : Bytes → TelOpt → Terminal → Subnegotiated
unfolding subnegotiate_kind
subnegotiate bytes o t = subnegotiate_kind o.kind bytes o t

-- The state of a side, and the transition of a side.
unfoldable pub side_state : TelOptSide → TelOpt → TelOptState
side_state side_local o = o.base.local_state
side_state side_remote o = o.base.remote_state

unfoldable pub transition_state : TelOptSide → TelOptState → TelOpt → Terminal → Transition
unfolding transition_local_state transition_remote_state
transition_state side_local s o t = transition_local_state s o t
transition_state side_remote s o t = transition_remote_state s o t
