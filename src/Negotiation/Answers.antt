-- ===== src/Negotiation/Answers.antt =====
-- terminal_telopts.go, `processTelOptCommand` on WILL, WONT, DO and DONT: what is answered, and the
-- states after it.
use telnet.Prelude.{
  ℕ, Bool, true, false, Option, none, some, List, [], ◌++◌, ◌==◌, ◌≡◌, refl, sym, ap, subst, ◌∙◌,
  if◌then◌else◌, append-nil,
}
use telnet.Command.{Command, agree}
use telnet.TerminalData.{TelOptState, unknown, inactive, requested, active, PostSend}
use telnet.Terminal.{
  Terminal, TelOpt, BaseTelOpt, TelOptSide, write_command, raise, find_option, TelOptEvent,
}
use telnet.TelOpts.Dispatch.{transition_state}
use telnet.Negotiation.{transition, settle, run_optional}
use telnet.Negotiation.Sent.{
  negotiations, only_negotiation, negotiations-write_command, IsQuiet, IsQuiet-refl,
  run_post_send-IsQuiet,
}
use telnet.Negotiation.Transitions.{with_state, IsTransition, transition_state-IsTransition}
use telnet.Negotiation.Options.{find_option-put_option, find_option-put_option_other}

-- What a terminal's change of one telopt amounts to: the negotiations sent, the telopt's base, and
-- the other telopts as they were.
pub record Settled (code : ℕ) (t u : Terminal) (sent : List Command) (base : BaseTelOpt)
    : Type 0 where
  pub sent_is : negotiations u.input ≡ negotiations t.input ++ sent
  pub option_is : (o : TelOpt) × (find_option code u.options ≡ some o) × (o.base ≡ base)
  pub others : (d : ℕ) → (d == code) ≡ false → find_option d u.options ≡ find_option d t.options

pub unchanged-Settled :
    (code : ℕ) (o : TelOpt) (t : Terminal)
    → find_option code t.options ≡ some o
    → Settled code t t [] o.base
unchanged-Settled code o t e = record {
  sent_is = sym (append-nil (negotiations t.input));
  option_is = (o, e, refl);
  others = λ d n. refl;
}

pub quiet-Settled :
    {code : ℕ} {t u v : Terminal} {sent : List Command} {base : BaseTelOpt}
    → Settled code t u sent base
    → IsQuiet u v
    → Settled code t v sent base
quiet-Settled s q = record {
  sent_is = q.same_sent ∙ s.sent_is;
  option_is = (s.option_is.0, ap (find_option _) q.same_options ∙ s.option_is.1, s.option_is.2);
  others = λ d n. ap (find_option d) q.same_options ∙ s.others d n;
}

pub write_command-Settled :
    {code : ℕ} {t u : Terminal} {base : BaseTelOpt} (c : Command) (post : Option PostSend)
    → Settled code t u [] base
    → Settled code t (write_command c post u) (only_negotiation c) base
write_command-Settled {t = t} {u = u} c post s = record {
  sent_is =
      negotiations-write_command c post u
      ∙ ap (λ n. n ++ only_negotiation c) (s.sent_is ∙ append-nil (negotiations t.input));
  option_is = unfold write_command in s.option_is;
  others = unfold write_command in s.others;
}

pub sent-Settled :
    {code : ℕ} {t u : Terminal} {sent sent' : List Command} {base : BaseTelOpt}
    → sent ≡ sent'
    → Settled code t u sent base
    → Settled code t u sent' base
sent-Settled {code = code} {t = t} {u = u} {base = base} p s =
    subst (λ x. Settled code t u x base) p s

pub raise-IsQuiet : (e : TelOptEvent) (t : Terminal) → IsQuiet t (raise e t)
unfolding raise
raise-IsQuiet e t = record { same_options = refl; same_sent = refl }

pub transition-Settled :
    (code : ℕ) (side : TelOptSide) (s : TelOptState) (o : TelOpt) (t : Terminal)
    → find_option code t.options ≡ some o
    → Settled code t (transition code side s o t).0 [] (with_state side s o.base)
unfolding transition
transition-Settled code side s o t e =
    let r = transition_state side s o t in
    let made : IsTransition (with_state side s o.base) t r =
      transition_state-IsTransition side s o t in
    record {
      sent_is = made.is_quiet.same_sent ∙ sym (append-nil (negotiations t.input));
      option_is = (
        r.option,
        find_option-put_option code o r.option r.terminal.options
            (ap (find_option code) made.is_quiet.same_options ∙ e),
        made.base_is,
      );
      others = λ d n.
          find_option-put_option_other d code r.option r.terminal.options n
          ∙ ap (find_option d) made.is_quiet.same_options;
    }

run_optional-IsQuiet : (post : Option PostSend) (t : Terminal) → IsQuiet t (run_optional post t)
unfolding run_optional
run_optional-IsQuiet none t = IsQuiet-refl t
run_optional-IsQuiet (some p) t = run_post_send-IsQuiet p t

-- The transition, its answer and its event.
pub settle-Settled :
    (code : ℕ) (t : Terminal) (base : BaseTelOpt) (answered : Bool) (old_state : TelOptState)
    (c : Command) (made : Terminal × Option PostSend) (e : TelOptEvent)
    → Settled code t made.0 [] base
    → Settled code t
        (raise e (settle answered old_state c made))
        (if answered then only_negotiation (agree c) else [])
        base
unfolding settle
settle-Settled code t base true old_state c (u, post) e s =
    quiet-Settled (write_command-Settled (agree c) post s) (raise-IsQuiet e _)
settle-Settled code t base false requested c (u, post) e s =
    quiet-Settled (quiet-Settled s (run_optional-IsQuiet post u)) (raise-IsQuiet e _)
settle-Settled code t base false inactive c (u, post) e s = quiet-Settled s (raise-IsQuiet e _)
settle-Settled code t base false active c (u, post) e s = quiet-Settled s (raise-IsQuiet e _)
settle-Settled code t base false unknown c (u, post) e s = quiet-Settled s (raise-IsQuiet e _)
