-- ===== src/Negotiation/Options.antt =====
-- terminal.go's map of the telopts by code: what a change in place of one telopt leaves.
use telnet.Prelude.{ℕ, false, some, List, [], ◌∷◌, ◌==◌, ◌≡◌, arith, ==_iff}
use telnet.Terminal.{TelOpt, find_option, put_option}

pub find_option-put_option :
    (code : ℕ) (o p : TelOpt) (options : List (ℕ × TelOpt))
    → find_option code options ≡ some o
    → find_option code (put_option code p options) ≡ some p
unfolding find_option put_option
find_option-put_option code o p [] e = ground arith
find_option-put_option code o p ((c, q) ∷ options) e =
    ground (arith, find_option-put_option code o p options)

pub find_option-put_option_other :
    (d code : ℕ) (p : TelOpt) (options : List (ℕ × TelOpt))
    → (d == code) ≡ false
    → find_option d (put_option code p options) ≡ find_option d options
unfolding find_option put_option
find_option-put_option_other d code p [] n = ground arith
find_option-put_option_other d code p ((c, q) ∷ options) n = ground (
  arith,
  find_option-put_option_other d code p options n,
  ==_iff d code,
  ==_iff c code,
  ==_iff c d,
)
