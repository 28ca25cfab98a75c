-- ===== src/Negotiation/Startup.antt =====
-- terminal_telopts.go: `initTelopts` and `writeTelOptRequests`, what a terminal asks for at its start.
use telnet.Prelude.{
  ℕ, length, Bool, true, ◌&&◌, some, List, [], ◌∷◌, ◌++◌, ◌≡◌, refl, sym, ap, subst, ◌∙◌,
  if◌then◌else◌, append-nil, append_assoc, Bool-cases, inl, inr, either_branch,
}
use telnet.Opcode.{will, do_op}
use telnet.Command.{Command, of_option}
use telnet.TerminalData.{TelOptState, requested}
use telnet.Terminal.{
  Terminal, TelOpt, BaseTelOpt, TelOptSide, side_local, side_remote, find_option, has_flag,
}
use telnet.Negotiation.{
  init_telopts, request_side, request_option, request_all, write_telopt_requests, request_flag,
  is_inactive,
}
use telnet.Negotiation.Sent.{negotiations}
use telnet.Negotiation.Transitions.{with_state}
use telnet.Negotiation.Answers.{
  Settled, unchanged-Settled, write_command-Settled, sent-Settled, transition-Settled,
  quiet-Settled, raise-IsQuiet,
}
use telnet.Negotiation.States.{said_by}
use telnet.Negotiation.Distinct.{
  IsDistinct, AllFound, AllFound-others, AllFound-self, init_telopts-IsDistinct,
}

-- The state of a side of a base.
abbrev pub base_state : TelOptSide → BaseTelOpt → TelOptState
base_state side_local b = b.local_state
base_state side_remote b = b.remote_state

-- The usage asks for the side, which is inactive.
abbrev pub is_wanted : TelOptSide → BaseTelOpt → Bool
is_wanted side b = has_flag (request_flag side) b.usage && is_inactive (base_state side b)

-- What is sent for a side, and the base behind it.
abbrev pub side_requests : ℕ → TelOptSide → BaseTelOpt → List Command
side_requests code side b = if is_wanted side b then of_option (said_by side true) code ∷ [] else []

abbrev pub requested_base : TelOptSide → BaseTelOpt → BaseTelOpt
requested_base side b = if is_wanted side b then with_state side requested b else b

Settled-trans :
    {code : ℕ} {t u v : Terminal} {sent more : List Command} {b c : BaseTelOpt}
    → Settled code t u sent b
    → Settled code u v more c
    → Settled code t v (sent ++ more) c
Settled-trans {t = t} {sent = sent} {more = more} p q = record {
  sent_is =
      q.sent_is ∙ ap (λ n. n ++ more) p.sent_is ∙ append_assoc (negotiations t.input) sent more;
  option_is = q.option_is;
  others = λ d n. q.others d n ∙ p.others d n;
}

request_side-Settled :
    (side : TelOptSide) (code : ℕ) (o : TelOpt) (t : Terminal)
    → find_option code t.options ≡ some o
    → Settled code t
        (request_side side (base_state side o.base) code t)
        (side_requests code side o.base)
        (requested_base side o.base)
unfolding request_side
request_side-Settled side_local code o t e = elim (Bool-cases (is_wanted side_local o.base)) [
  | inl w ↦
      rw (e, request_side, w)
        (quiet-Settled
          (write_command-Settled (of_option will code) _
            (transition-Settled code side_local requested o t e))
          (raise-IsQuiet _ _))
  | inr w ↦ rw (e, request_side, w) (unchanged-Settled code o t e)
]
request_side-Settled side_remote code o t e = elim (Bool-cases (is_wanted side_remote o.base)) [
  | inl w ↦
      rw (e, request_side, w)
        (quiet-Settled
          (write_command-Settled (of_option do_op code) _
            (transition-Settled code side_remote requested o t e))
          (raise-IsQuiet _ _))
  | inr w ↦ rw (e, request_side, w) (unchanged-Settled code o t e)
]

-- The same, from what is known of the base alone.
request_side_at-Settled :
    (side : TelOptSide) (code : ℕ) (s : TelOptState) (b : BaseTelOpt) (u : Terminal)
    → (o : TelOpt) × (find_option code u.options ≡ some o) × (o.base ≡ b)
    → base_state side b ≡ s
    → Settled code u
        (request_side side s code u)
        (side_requests code side b)
        (requested_base side b)
request_side_at-Settled side code s b u (o, e, p) q =
    subst
      (λ z.
        Settled code u (request_side side z code u) (side_requests code side b)
          (requested_base side b))
      q
      (subst
        (λ x.
          Settled code u (request_side side (base_state side x) code u) (side_requests code side x)
            (requested_base side x))
        p (request_side-Settled side code o u e))

-- What is sent for a telopt.
abbrev pub option_requests : ℕ → BaseTelOpt → List Command
option_requests code b = side_requests code side_local b ++ side_requests code side_remote b

request_option-Settled :
    (code : ℕ) (o : TelOpt) (t : Terminal)
    → find_option code t.options ≡ some o
    → Settled code t
        (request_option code t)
        (option_requests code o.base)
        (requested_base side_remote (requested_base side_local o.base))
unfolding request_option
request_option-Settled code o t e =
    let local = request_side-Settled side_local code o t e in
    let same : base_state side_remote (requested_base side_local o.base)
        ≡ base_state side_remote o.base =
      either_branch (λ x. base_state side_remote x ≡ base_state side_remote o.base)
        (is_wanted side_local o.base) _ _ refl refl in
    let sent : side_requests code side_remote (requested_base side_local o.base)
        ≡ side_requests code side_remote o.base =
      either_branch (λ x. side_requests code side_remote x ≡ side_requests code side_remote o.base)
        (is_wanted side_local o.base) _ _ refl refl in
    rw (e, request_option)
      (Settled-trans local (
        sent-Settled sent (
          request_side_at-Settled side_remote code _ (requested_base side_local o.base) _
            local.option_is same)))

abbrev pub all_requests : List (ℕ × TelOpt) → List Command
all_requests [] = []
all_requests ((code, o) ∷ options) = option_requests code o.base ++ all_requests options

request_all-sent :
    (options : List (ℕ × TelOpt)) (t : Terminal)
    → IsDistinct options
    → AllFound options t.options
    → negotiations (request_all options t).input ≡ negotiations t.input ++ all_requests options
unfolding request_all
request_all-sent [] t d f = sym (append-nil (negotiations t.input))
request_all-sent ((code, o) ∷ options) t d f =
    let s = request_option-Settled code o t f.0 in
    request_all-sent options (request_option code t) d.1
      (AllFound-others code options t.options (request_option code t).options d.0 f.1 s.others)
    ∙ ap (λ n. n ++ all_requests options) s.sent_is
    ∙ append_assoc (negotiations t.input) (option_requests code o.base) (all_requests options)

-- Each telopt of the map once, in some order.
abbrev pub IsOrderOf : List (ℕ × TelOpt) → List (ℕ × TelOpt) → Type 0
IsOrderOf order options =
    IsDistinct order × AllFound order options × (length order ≡ length options)

-- On a terminal that had no telopts and registered some by initTelopts without an error,
-- writeTelOptRequests, whatever the order in which it ranges over the map of telopts, sends, telopt
-- by telopt in that order, WILL if the usage requests the inactive local side and DO if it requests
-- the inactive remote side, and no other negotiation; and there is such an order, since no code
-- stands in the map twice.
pub startup_requests :
    (os : List TelOpt) (t u : Terminal) (order : List (ℕ × TelOpt))
    → t.options ≡ []
    → init_telopts os t ≡ some u
    → IsOrderOf order u.options
    → (negotiations (write_telopt_requests order u).input
        ≡ negotiations u.input ++ all_requests order)
      × IsOrderOf u.options u.options
unfolding write_telopt_requests
startup_requests os t u order z e f =
    let d : IsDistinct u.options = init_telopts-IsDistinct os t u (subst IsDistinct (sym z) tt) e in
    (request_all-sent order u f.0 f.1, (d, AllFound-self u.options d, refl))
