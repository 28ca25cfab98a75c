-- ===== src/Negotiation.antt =====
-- terminal_telopts.go: how the terminal registers telopts, requests them, and answers the commands of
-- the other side.
pub mod Sent
pub mod Transitions
pub mod Options
pub mod Answers
pub mod States
pub mod Requests
pub mod Exchange
pub mod Distinct
pub mod Startup
mod Tests
use telnet.Prelude.{
  ℕ, Bool, true, false, not, ◌&&◌, ◌||◌, Option, none, some, List, [], ◌∷◌, ◌++◌, ◌==◌,
  if◌then◌else◌, Bytes,
}
use telnet.Opcode.{sb, ayt, do_op, dont, will, wont, nop}
use telnet.Command.{
  Command, of_op, of_option, is_activate_negotiation, is_local_negotiation, reject, agree,
}
use telnet.Keyboard
use telnet.TerminalData.{TelOptState, unknown, inactive, requested, active, PostSend}
use telnet.Terminal.{
  Terminal, TelOpt, TelOptSide, side_local, side_remote, state_change, write_command, raise,
  find_option, put_option, allow_local, allow_remote, only_request_local, only_request_remote,
  has_flag,
}
use telnet.TelOpts.{Transition, Subnegotiated, SubnegotiationError}
use telnet.TelOpts.Prompts.{run_post_send}
use telnet.TelOpts.Dispatch.{transition_state, side_state, subnegotiate}

-- `initTelopts`; `none` is the error of two telopts with one code.
unfoldable pub init_telopts : List TelOpt → Terminal → Option Terminal
unfolding find_option
init_telopts [] t = some t
init_telopts (o ∷ os) t =
    let rest = init_telopts os (record t { options = t.options ++ ((o.base.code, o) ∷ []) }) in
    elim (find_option o.base.code t.options) [ some old ↦ none | none ↦ rest ]

-- A transition of the telopt that the map holds under `code`, changed in place.
unfoldable pub transition :
    ℕ → TelOptSide → TelOptState → TelOpt → Terminal → Terminal × Option PostSend
unfolding put_option transition_state
transition code side new_state o t =
    let r = transition_state side new_state o t in
    (record r.terminal { options = put_option code r.option r.terminal.options }, r.post_send)

abbrev pub is_inactive : TelOptState → Bool
is_inactive inactive = true
is_inactive _ = false

-- The opcode and the usage flag of a request for each side.
abbrev pub request_op : TelOptSide → ℕ
request_op side_local = will
request_op side_remote = do_op

abbrev pub request_flag : TelOptSide → ℕ
request_flag side_local = only_request_local
request_flag side_remote = only_request_remote

-- Half of the loop body of `writeTelOptRequests`. `old_state` was read before either half ran.
unfoldable pub request_side : TelOptSide → TelOptState → ℕ → Terminal → Terminal
unfolding transition write_command raise find_option
request_side side old_state code t = elim (find_option code t.options) [
  | none ↦ t
  | some o ↦
      if has_flag (request_flag side) o.base.usage && is_inactive old_state
      then (let (u, post) = transition code side requested o t in
          raise (state_change code side old_state requested)
            (write_command (of_option (request_op side) code) post u))
      else t
]

unfoldable pub request_option : ℕ → Terminal → Terminal
unfolding request_side find_option
request_option code t = elim (find_option code t.options) [
  | none ↦ t
  | some o ↦
      request_side side_remote o.base.remote_state code
        (request_side side_local o.base.local_state code t)
]

unfoldable pub request_all : List (ℕ × TelOpt) → Terminal → Terminal
unfolding request_option
request_all [] t = t
request_all ((code, o) ∷ options) t = request_all options (request_option code t)

-- `order` is the order in which the map of the telopts is ranged over, which Go chooses anew each time.
unfoldable pub write_telopt_requests : List (ℕ × TelOpt) → Terminal → Terminal
unfolding request_all
write_telopt_requests order t = request_all order t

unfoldable pub reject_negotiation_request : Command → Terminal → Terminal
unfolding is_activate_negotiation reject write_command
reject_negotiation_request c t =
    if is_activate_negotiation c then write_command (reject c) none t else t

-- The terminal and the error that is returned.
unfoldable pub process_subnegotiation : Command → Terminal → Terminal × Option SubnegotiationError
unfolding find_option put_option
process_subnegotiation c t = elim (find_option c.option t.options) [
  | none ↦ (t, none)
  | some o ↦
      let r = subnegotiate c.subnegotiation o t in
      let changed : Terminal × Option SubnegotiationError = (
        record r.terminal { options = put_option c.option r.option r.terminal.options },
        r.failure,
      ) in
      elim o.base.local_state [
        | active ↦ changed
        | _ ↦ elim o.base.remote_state [ active ↦ changed | _ ↦ (t, none) ]
      ]
]

-- The callback of a transition to a state that needs no command, or none.
unfoldable pub run_optional : Option PostSend → Terminal → Terminal
unfolding run_post_send
run_optional none t = t
run_optional (some post) t = run_post_send post t

-- Behind the transition: the answer, or the callback at once, by the state that the side had. The
-- answer is written if that is `answered`, and the callback run if it is `requested`.
unfoldable pub settle : Bool → TelOptState → Command → Terminal × Option PostSend → Terminal
unfolding write_command run_optional agree
settle answered old_state c (t, post) =
    if answered
    then write_command (agree c) post t
    else elim old_state [ requested ↦ run_optional post t | _ ↦ t ]

abbrev pub side_of : Command → TelOptSide
side_of c = if is_local_negotiation c then side_local else side_remote

abbrev pub allow_flag : TelOptSide → ℕ
allow_flag side_local = allow_local
allow_flag side_remote = allow_remote

abbrev pub is_active : TelOptState → Bool
is_active active = true
is_active _ = false

-- DONT and WONT, for a telopt that is known.
unfoldable pub deactivate : Command → TelOptSide → TelOpt → Terminal → Terminal
unfolding transition settle raise side_state
deactivate c side o t =
    let old_state = side_state side o in
    if is_inactive old_state
    then t
    else raise (state_change c.option side old_state inactive)
        (settle (is_active old_state) old_state c (transition c.option side inactive o t))

-- DO and WILL, for a telopt that is known.
unfoldable pub activate : Command → TelOptSide → TelOpt → Terminal → Terminal
unfolding transition settle raise side_state reject_negotiation_request
activate c side o t =
    let old_state = side_state side o in
    if is_active old_state
    then t
    else if not (has_flag (allow_flag side) o.base.usage)
    then reject_negotiation_request c t
    else raise (state_change c.option side old_state active)
        (settle (is_inactive old_state) old_state c (transition c.option side active o t))

unfoldable pub process_negotiation : Command → Terminal → Terminal
unfolding find_option reject_negotiation_request deactivate activate is_activate_negotiation
    is_local_negotiation
process_negotiation c t = elim (find_option c.option t.options) [
  | none ↦ reject_negotiation_request c t
  | some o ↦
      if is_activate_negotiation c then activate c (side_of c) o t else deactivate c (side_of c) o t
]

abbrev write_now : Option Bytes → Terminal → Terminal
write_now none t = t
write_now (some bytes) t = record t { output = t.output ++ bytes }

-- `processTelOptCommand`. The answer to AYT goes straight to the stream, past the keyboard's channel.
unfoldable pub process_telopt_command : Command → Terminal → Terminal × Option SubnegotiationError
unfolding process_subnegotiation process_negotiation Keyboard.write_command
process_telopt_command c t =
    if c.op_code == sb
    then process_subnegotiation c t
    else if c.op_code == ayt
    then (write_now (Keyboard.write_command t.keyboard_prompts (of_op nop)) t, none)
    else if not (c.op_code == do_op || c.op_code == dont || c.op_code == will || c.op_code == wont)
    then (t, none)
    else (process_negotiation c t, none)
