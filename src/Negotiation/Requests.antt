-- ===== src/Negotiation/Requests.antt =====
-- terminal_telopts.go, `processTelOptCommand` at both ends of a connection: how a request ends.
use telnet.Prelude.{ℕ, Bool, true, false, some, ◌++◌, ◌≡◌}
use telnet.Command.{Command, of_option}
use telnet.TerminalData.{TelOptState, inactive, active}
use telnet.Terminal.{Terminal, TelOpt, TelOptSide, side_local, side_remote, find_option, has_flag}
use telnet.TelOpts.Dispatch.{side_state}
use telnet.Negotiation.{process_negotiation, allow_flag}
use telnet.Negotiation.Sent.{negotiations}
use telnet.Negotiation.States.{asked_by, next_state, reply}

-- One terminal's local side is the other terminal's remote side.
abbrev pub mirror : TelOptSide → TelOptSide
mirror side_local = side_remote
mirror side_remote = side_local

-- The terminal knows the telopt, and its side is in that state.
abbrev pub HasState : ℕ → TelOptSide → TelOptState → Terminal → Type 0
HasState code side s t =
    (o : TelOpt) × (find_option code t.options ≡ some o) × (side_state side o ≡ s)

-- The asked side's state and the answer, from its state before and whether it is allowed.
abbrev pub Answered : ℕ → TelOptSide → Bool → Bool → TelOptState → Terminal → Type 0
Answered code side on allowed s t =
    let u = process_negotiation (of_option (asked_by side on) code) t in
    HasState code side (next_state on allowed s) u
    × (negotiations u.input ≡ negotiations t.input ++ reply code side on allowed s)

-- The telopt is known, and whether it is allowed on the side.
abbrev pub Knows : ℕ → TelOptSide → Bool → TelOptState → Terminal → Type 0
Knows code side allowed s t =
    (o : TelOpt) × (find_option code t.options ≡ some o)
    × (side_state side o ≡ s)
    × (has_flag (allow_flag side) o.base.usage ≡ allowed)

-- The state on which both terminals end.
abbrev pub outcome : Bool → TelOptState
outcome true = active
outcome false = inactive
