-- ===== src/Negotiation/Transitions.antt =====
-- telopt.go and telopts/: what the telopts' own transitions do to the terminal.
use telnet.Prelude.{not, ◌&&◌, none, ◌≡◌, refl, Bytes, either_branch, ltb}
use telnet.TerminalData.{
  TelOptState, unknown, inactive, requested, active, PostSend, eor_sent, suppress_go_ahead_sent,
  transmit_binary_sent,
}
use telnet.Terminal.{
  Terminal, TelOpt, BaseTelOpt, Kind, eor, suppress_go_ahead, transmit_binary, naws, send_location,
  ttype, linemode, new_environ, TelOptSide, Naws, Ttype, NewEnviron, side_local, side_remote,
  has_active_lock,
}
use telnet.TelOpts.{Transition, base_transition_local_state, base_transition_remote_state}
use telnet.TelOpts.Prompts.{
  lock_or_post_send, eor_remote, suppress_go_ahead_remote, transmit_binary_remote,
  eor_keyboard_lock, suppress_go_ahead_keyboard_lock, transmit_binary_keyboard_lock,
}
use telnet.TelOpts.NawsSize.{naws_local, write_size_subnegotiation}
use telnet.TelOpts.Location.{write_location}
use telnet.TelOpts.TerminalType.{ttype_remote, write_request_send, ttype_keyboard_lock}
use telnet.TelOpts.Mode.{write_mode_command}
use telnet.TelOpts.Environ.{new_environ_remote, write_send_all, write_subnegotiation}
use telnet.TelOpts.Dispatch.{
  transition_state, local_of_kind, remote_of_kind, transition_local_state, transition_remote_state,
  with_post_send,
}
use telnet.Negotiation.Sent.{IsQuiet, IsQuiet-refl, IsQuiet-trans, set_lock-IsQuiet, sb-IsQuiet}

-- The base of a telopt once a side is in a new state.
abbrev pub with_state : TelOptSide → TelOptState → BaseTelOpt → BaseTelOpt
with_state side_local s b = record b { local_state = s }
with_state side_remote s b = record b { remote_state = s }

-- What a transition does, whatever the telopt: its base stays as it was given, the terminal's telopts
-- are left alone, and so are the negotiations.
pub record IsTransition (base : BaseTelOpt) (t : Terminal) (r : Transition) : Type 0 where
  pub base_is : r.option.base ≡ base
  pub is_quiet : IsQuiet t r.terminal

lock_or_post_send-IsTransition :
    (name : Bytes) (post : TelOptState → PostSend) (s : TelOptState) (o : TelOpt) (t : Terminal)
    → IsTransition o.base t (with_post_send o (lock_or_post_send name post s t))
unfolding lock_or_post_send
lock_or_post_send-IsTransition name post requested o t = record {
  base_is = refl;
  is_quiet = set_lock-IsQuiet name t;
}
lock_or_post_send-IsTransition name post s o t = record {
  base_is = refl;
  is_quiet = IsQuiet-refl t;
}

naws_local-IsQuiet : (s : TelOptState) (n : Naws) (t : Terminal) → IsQuiet t (naws_local s n t)
unfolding naws_local
naws_local-IsQuiet active n t =
    either_branch (IsQuiet t) (ltb 0 n.local_width && ltb 0 n.local_height) _ _
      (unfold write_size_subnegotiation in sb-IsQuiet _ _ none t) (IsQuiet-refl t)
naws_local-IsQuiet s n t = IsQuiet-refl t

local_of_kind-IsTransition :
    (k : Kind) (s : TelOptState) (o : TelOpt) (t : Terminal)
    → IsTransition o.base t (local_of_kind k s o t)
unfolding local_of_kind
local_of_kind-IsTransition (naws n) s o t = record {
  base_is = refl;
  is_quiet = naws_local-IsQuiet s n t;
}
local_of_kind-IsTransition (send_location l) active o t = record {
  base_is = refl;
  is_quiet = unfold write_location in sb-IsQuiet _ _ none t;
}
local_of_kind-IsTransition eor s o t =
    lock_or_post_send-IsTransition eor_keyboard_lock eor_sent s o t
local_of_kind-IsTransition suppress_go_ahead s o t =
    lock_or_post_send-IsTransition suppress_go_ahead_keyboard_lock suppress_go_ahead_sent s o t
local_of_kind-IsTransition transmit_binary s o t =
    lock_or_post_send-IsTransition transmit_binary_keyboard_lock transmit_binary_sent s o t
local_of_kind-IsTransition k s o t = record { base_is = refl; is_quiet = IsQuiet-refl t }

ttype_remote-IsQuiet :
    (s : TelOptState) (y : Ttype) (t : Terminal) → IsQuiet t (ttype_remote s y t).1
unfolding ttype_remote
ttype_remote-IsQuiet inactive y t = IsQuiet-refl t
ttype_remote-IsQuiet active y t =
    unfold write_request_send in
    IsQuiet-trans
      (either_branch (IsQuiet t) (not (has_active_lock ttype_keyboard_lock t)) _ _
        (set_lock-IsQuiet ttype_keyboard_lock t) (IsQuiet-refl t))
      (sb-IsQuiet _ _ none _)
ttype_remote-IsQuiet requested y t = set_lock-IsQuiet ttype_keyboard_lock t
ttype_remote-IsQuiet unknown y t = IsQuiet-refl t

new_environ_remote-IsQuiet :
    (s : TelOptState) (e : NewEnviron) (t : Terminal) → IsQuiet t (new_environ_remote s e t).1
unfolding new_environ_remote
new_environ_remote-IsQuiet active e t =
    unfold write_send_all in unfold write_subnegotiation in sb-IsQuiet _ _ none t
new_environ_remote-IsQuiet inactive e t = IsQuiet-refl t
new_environ_remote-IsQuiet s e t = IsQuiet-refl t

-- A change of the prompts or of the binary flags alone.
eor_remote-IsQuiet : (s : TelOptState) (t : Terminal) → IsQuiet t (eor_remote s t)
unfolding eor_remote
eor_remote-IsQuiet active t = record { same_options = refl; same_sent = refl }
eor_remote-IsQuiet inactive t = record { same_options = refl; same_sent = refl }
eor_remote-IsQuiet s t = IsQuiet-refl t

suppress_go_ahead_remote-IsQuiet :
    (s : TelOptState) (t : Terminal) → IsQuiet t (suppress_go_ahead_remote s t)
unfolding suppress_go_ahead_remote
suppress_go_ahead_remote-IsQuiet active t = record { same_options = refl; same_sent = refl }
suppress_go_ahead_remote-IsQuiet inactive t = record { same_options = refl; same_sent = refl }
suppress_go_ahead_remote-IsQuiet s t = IsQuiet-refl t

transmit_binary_remote-IsQuiet :
    (s : TelOptState) (t : Terminal) → IsQuiet t (transmit_binary_remote s t)
unfolding transmit_binary_remote
transmit_binary_remote-IsQuiet active t = record { same_options = refl; same_sent = refl }
transmit_binary_remote-IsQuiet inactive t = record { same_options = refl; same_sent = refl }
transmit_binary_remote-IsQuiet s t = IsQuiet-refl t

remote_of_kind-IsTransition :
    (k : Kind) (s : TelOptState) (o : TelOpt) (t : Terminal)
    → IsTransition o.base t (remote_of_kind k s o t)
unfolding remote_of_kind
remote_of_kind-IsTransition eor s o t = record { base_is = refl; is_quiet = eor_remote-IsQuiet s t }
remote_of_kind-IsTransition suppress_go_ahead s o t = record {
  base_is = refl;
  is_quiet = suppress_go_ahead_remote-IsQuiet s t;
}
remote_of_kind-IsTransition transmit_binary s o t = record {
  base_is = refl;
  is_quiet = transmit_binary_remote-IsQuiet s t;
}
remote_of_kind-IsTransition (ttype y) s o t = record {
  base_is = refl;
  is_quiet = ttype_remote-IsQuiet s y t;
}
remote_of_kind-IsTransition (linemode mode) active o t = record {
  base_is = refl;
  is_quiet = unfold write_mode_command in sb-IsQuiet _ _ none t;
}
remote_of_kind-IsTransition (new_environ e) s o t = record {
  base_is = refl;
  is_quiet = new_environ_remote-IsQuiet s e t;
}
remote_of_kind-IsTransition k s o t = record { base_is = refl; is_quiet = IsQuiet-refl t }

-- A transition of either side of any telopt to any state puts the state in that side of the
-- telopt's base and keeps the rest of the base, leaves the terminal's map of telopts alone, and
-- sends no negotiation.
pub transition_state-IsTransition :
    (side : TelOptSide) (s : TelOptState) (o : TelOpt) (t : Terminal)
    → IsTransition (with_state side s o.base) t (transition_state side s o t)
unfolding transition_state
transition_state-IsTransition side_local s o t =
    unfold transition_local_state base_transition_local_state in
    local_of_kind-IsTransition o.kind s (record o { base = record o.base { local_state = s } }) t
transition_state-IsTransition side_remote s o t =
    unfold transition_remote_state base_transition_remote_state in
    remote_of_kind-IsTransition o.kind s (record o { base = record o.base { remote_state = s } }) t
