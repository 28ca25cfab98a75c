-- ===== src/Negotiation/Distinct.antt =====
-- terminal.go's map of the telopts, kept as a list: a code stands in it once.
use telnet.Prelude.{
  ℕ, false, Option, none, some, List, [], ◌∷◌, ◌++◌, ◌==◌, ◌≡◌, ◌≢◌, ap, subst, ◌∙◌, Bool-cases,
  Option-cases, inl, inr, arith, ==_iff,
}
use telnet.Terminal.{Terminal, TelOpt, find_option}
use telnet.Negotiation.{init_telopts}

-- No telopt of the list has that code; no two have the same; the terminal has all of them.
abbrev pub IsAbsent : ℕ → List (ℕ × TelOpt) → Type 0
IsAbsent code [] = Unit {0}
IsAbsent code ((c, o) ∷ options) = ((c == code) ≡ false) × IsAbsent code options

abbrev pub IsDistinct : List (ℕ × TelOpt) → Type 0
IsDistinct [] = Unit {0}
IsDistinct ((c, o) ∷ options) = IsAbsent c options × IsDistinct options

abbrev pub AllFound : List (ℕ × TelOpt) → List (ℕ × TelOpt) → Type 0
AllFound [] known = Unit {0}
AllFound ((c, o) ∷ options) known = (find_option c known ≡ some o) × AllFound options known

pub AllFound-others :
    (code : ℕ) (options known next : List (ℕ × TelOpt))
    → IsAbsent code options
    → AllFound options known
    → ((d : ℕ) → (d == code) ≡ false → find_option d next ≡ find_option d known)
    → AllFound options next
AllFound-others code [] known next a f same = tt
AllFound-others code ((c, o) ∷ options) known next a f same =
    (same c a.0 ∙ f.0, AllFound-others code options known next a.1 f.1 same)

find_option-head :
    (c : ℕ) (o : TelOpt) (options : List (ℕ × TelOpt)) → find_option c ((c, o) ∷ options) ≡ some o
unfolding find_option
find_option-head c o options = ground arith

find_option-tail :
    (c d : ℕ) (o : TelOpt) (options : List (ℕ × TelOpt))
    → (d == c) ≡ false
    → find_option d ((c, o) ∷ options) ≡ find_option d options
unfolding find_option
find_option-tail c d o options n = ground (arith, ==_iff c d, ==_iff d c)

pub AllFound-self : (options : List (ℕ × TelOpt)) → IsDistinct options → AllFound options options
AllFound-self [] d = tt
AllFound-self ((c, o) ∷ options) d = (
  find_option-head c o options,
  AllFound-others c options options ((c, o) ∷ options) d.0 (AllFound-self options d.1)
      (λ e n. find_option-tail c e o options n),
)

absent_of_none :
    (code c : ℕ) (o : TelOpt) (options : List (ℕ × TelOpt))
    → find_option code ((c, o) ∷ options) ≡ none
    → ((c == code) ≡ false) × (find_option code options ≡ none)
unfolding find_option
absent_of_none code c o options e = elim (Bool-cases (c == code)) [
  | inl h ↦ ground arith
  | inr h ↦ ground arith
]

IsAbsent-snoc :
    (c code : ℕ) (o : TelOpt) (options : List (ℕ × TelOpt))
    → IsAbsent c options
    → (c == code) ≡ false
    → IsAbsent c (options ++ ((code, o) ∷ []))
IsAbsent-snoc c code o [] a n = (ground (arith, ==_iff c code, ==_iff code c), tt)
IsAbsent-snoc c code o ((d, p) ∷ options) a n = (a.0, IsAbsent-snoc c code o options a.1 n)

IsDistinct-snoc :
    (code : ℕ) (o : TelOpt) (options : List (ℕ × TelOpt))
    → IsDistinct options
    → find_option code options ≡ none
    → IsDistinct (options ++ ((code, o) ∷ []))
IsDistinct-snoc code o [] d e = (tt, tt)
IsDistinct-snoc code o ((c, p) ∷ options) d e =
    let (n, e') = absent_of_none code c p options e in
    (IsAbsent-snoc c code o options d.0 n, IsDistinct-snoc code o options d.1 e')

none_ne : (u : Terminal) → ◌≢◌ {A = Option Terminal} none (some u)
none_ne u e = cc

pub init_telopts-IsDistinct :
    (os : List TelOpt) (t u : Terminal)
    → IsDistinct t.options
    → init_telopts os t ≡ some u
    → IsDistinct u.options
unfolding init_telopts
init_telopts-IsDistinct [] t u d e =
    subst (λ x. IsDistinct x.options) (ap (λ r. elim r [ some v ↦ v | none ↦ t ]) e) d
init_telopts-IsDistinct (o ∷ os) t u d e = elim (Option-cases (find_option o.base.code t.options)) [
  | inl n ↦
      init_telopts-IsDistinct os (record t { options = t.options ++ ((o.base.code, o) ∷ []) }) u
        (IsDistinct-snoc o.base.code o t.options d n) (rw (n, init_telopts) at e)
  | inr (p, n) ↦ absurd (none_ne u (rw (n, init_telopts) at e))
]
