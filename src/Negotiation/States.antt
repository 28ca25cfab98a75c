-- ===== src/Negotiation/States.antt =====
-- terminal_telopts.go, `processTelOptCommand` on WILL, WONT, DO and DONT: the states and the answers
-- of RFC 1143's table, which is written out here apart from the code.
use telnet.Prelude.{
  ℕ, Bool, true, false, none, List, [], ◌∷◌, ◌++◌, ◌≡◌, refl, sym, if◌then◌else◌, append-nil,
}
use telnet.Opcode.{do_op, dont, will, wont}
use telnet.Command.{Command, of_option, is_activate_negotiation, reject}
use telnet.TerminalData.{TelOptState, inactive, active}
use telnet.Terminal.{Terminal, TelOptSide, side_local, side_remote, find_option, write_command}
use telnet.Negotiation.{process_negotiation, reject_negotiation_request}
use telnet.Negotiation.Sent.{negotiations, negotiations-write_command}

-- The opcode by which a terminal is asked to turn one of its sides on or off, and the one by which it
-- says that the side is so.
abbrev pub asked_by : TelOptSide → Bool → ℕ
asked_by side_local true = do_op
asked_by side_local false = dont
asked_by side_remote true = will
asked_by side_remote false = wont

abbrev pub said_by : TelOptSide → Bool → ℕ
said_by side_local true = will
said_by side_local false = wont
said_by side_remote true = do_op
said_by side_remote false = dont

-- The state of a side that is asked to be on or off: whether it is asked on, whether that is
-- allowed, and its state before.
abbrev pub next_state : Bool → Bool → TelOptState → TelOptState
next_state false allowed s = inactive
next_state true true s = active
next_state true false s = s

-- The answer says what the side is, unless nothing changed or the other side answered a request.
abbrev pub reply : ℕ → TelOptSide → Bool → Bool → TelOptState → List Command
reply code side true allowed active = []
reply code side true true inactive = of_option (said_by side true) code ∷ []
reply code side true true s = []
reply code side true false s = of_option (said_by side false) code ∷ []
reply code side false allowed active = of_option (said_by side false) code ∷ []
reply code side false allowed s = []

-- A terminal that does not know the telopt sends exactly a refusal when it is asked to turn it on,
-- sends no negotiation when it is told that it is off, and keeps its telopts.
pub process_negotiation_unknown :
    (side : TelOptSide) (on : Bool) (code : ℕ) (t : Terminal)
    → find_option code t.options ≡ none
    → let u = process_negotiation (of_option (asked_by side on) code) t in
      (u.options ≡ t.options)
      × (negotiations u.input
          ≡ negotiations t.input ++ (if on then of_option (said_by side false) code ∷ [] else []))
unfolding process_negotiation reject_negotiation_request reject is_activate_negotiation
process_negotiation_unknown side_local true code t e =
    rw (e, process_negotiation)
      (unfold write_command in refl, negotiations-write_command (of_option wont code) none t)
process_negotiation_unknown side_remote true code t e =
    rw (e, process_negotiation)
      (unfold write_command in refl, negotiations-write_command (of_option dont code) none t)
process_negotiation_unknown side_local false code t e =
    rw (e, process_negotiation) (refl, sym (append-nil (negotiations t.input)))
process_negotiation_unknown side_remote false code t e =
    rw (e, process_negotiation) (refl, sym (append-nil (negotiations t.input)))
