-- ===== src/TelOpts/TerminalType/Exchange.antt =====
-- telopts/TTYPE.go: SEND and IS between two terminals.
use telnet.Prelude.{
  ℕ, zero, suc, ◌+◌, ◌<◌, ◌≡◌, refl, sym, ap, ◌∙◌, subst, true, false, Option, none, some, List, [],
  ◌∷◌, ◌++◌, append_assoc, append-nil, Bytes, length, length-append, get_elem?, same_bytes,
  same_bytes_iff, arith,
}
use telnet.TerminalData.{TelOptState, active, KeyboardTransport, command_data}
use telnet.Terminal.{
  Terminal, TelOpt, Ttype, ttype, write_command, raise, clear_lock, ttype_remote_terminals_updated,
}
use telnet.TelOpts.{Subnegotiated}
use telnet.TelOpts.Dispatch.{subnegotiate, subnegotiate_kind}
use telnet.TelOpts.TerminalType.{
  ttype_send, ttype_is, ttype_keyboard_lock, write_request_send, write_terminal, is_new_terminal,
  add_terminal, last_terminal, send_terminal, ttype_is_received, ttype_send_received,
  ttype_subnegotiate,
}

-- What is written to the keyboard first, as subnegotiation data.
abbrev pub first_sent : List KeyboardTransport → Option Bytes
first_sent [] = none
first_sent (t ∷ ts) = elim t.transported [
  | some (command_data c) ↦ some c.subnegotiation
  | _ ↦ none
]

-- Its keyboard has written everything.
abbrev pub written_out : Terminal → Terminal
written_out t = record t { input = [] }

-- What goes on with the data that a side has sent, from both sides.
abbrev Rounds : Type 0
Rounds = Bytes → TelOpt → Terminal → TelOpt → Terminal → Option (TelOpt × Terminal)

abbrev continued : Rounds → Subnegotiated → Subnegotiated → Option (TelOpt × Terminal)
continued go r q = elim (first_sent q.terminal.input) [
  | none ↦ some (q.option, q.terminal)
  | some more ↦ go more r.option r.terminal q.option q.terminal
]

abbrev answered : Rounds → Subnegotiated → TelOpt → Terminal → Option (TelOpt × Terminal)
answered go r p u = elim (first_sent r.terminal.input) [
  | none ↦ some (p, u)
  | some answer ↦ continued go r (subnegotiate answer p (written_out u))
]

-- Data go to one side, its answer to the other, and so on, until there is no answer; that is with the
-- option and the terminal of the other side. `none` means that the rounds ran out.
abbrev pub exchange : ℕ → Bytes → TelOpt → Terminal → TelOpt → Terminal → Option (TelOpt × Terminal)
exchange zero sent o t p u = none
exchange (suc n) sent o t p u = answered (exchange n) (subnegotiate sent o (written_out t)) p u

-- No two neighbours are the same.
abbrev pub AreNews : List Bytes → Type 0
AreNews [] = Unit {0}
AreNews (x ∷ []) = Unit {0}
AreNews (x ∷ y ∷ rest) = (same_bytes x y ≡ false) × AreNews (y ∷ rest)

is_new_terminal-AreNews :
    (done : List Bytes) (name : Bytes) (rest : List Bytes)
    → AreNews (done ++ (name ∷ rest))
    → is_new_terminal done name ≡ true
unfolding is_new_terminal
is_new_terminal-AreNews [] name rest h = refl
is_new_terminal-AreNews (x ∷ []) name rest h = ground (arith, h.0)
is_new_terminal-AreNews (x ∷ y ∷ done) name rest h =
    is_new_terminal-AreNews (y ∷ done) name rest h.1

is_new_terminal-last :
    (x : Bytes) (names : List Bytes)
    → is_new_terminal (x ∷ names) (last_terminal (x ∷ names)) ≡ false
unfolding is_new_terminal last_terminal
is_new_terminal-last x [] = ground (arith, same_bytes_iff x x)
is_new_terminal-last x (y ∷ names) = is_new_terminal-last y names

get_elem?-append :
    (done : List Bytes) (name : Bytes) (rest : List Bytes)
    → get_elem? (done ++ (name ∷ rest)) (length done) ≡ some name
get_elem?-append [] name rest = refl
get_elem?-append (x ∷ done) name rest = get_elem?-append done name rest

get_elem?-end : (names : List Bytes) → get_elem? names (length names) ≡ none
get_elem?-end [] = refl
get_elem?-end (x ∷ names) = get_elem?-end names

-- TTYPE with an active local side, and with an active remote side.
abbrev pub teller : ℕ → ℕ → TelOptState → Ttype → TelOpt
teller code usage s y = record {
  base = record { code = code; local_state = active; remote_state = s; usage = usage };
  kind = ttype y;
}

abbrev pub asker : ℕ → ℕ → TelOptState → Ttype → TelOpt
asker code usage s z = record {
  base = record { code = code; local_state = s; remote_state = active; usage = usage };
  kind = ttype z;
}

module _ (code usage code_2 usage_2 : ℕ) (s s_2 : TelOptState) (names remembered : List Bytes)
    (z : Ttype) where
  abbrev pub told : ℕ → TelOpt
  told cursor = teller code usage s (record {
    local_terminal_cursor = cursor;
    local_terminals = names;
    remote_terminals = remembered;
  })

  abbrev pub heard : List Bytes → TelOpt
  heard done = asker code_2 usage_2 s_2 (record z { remote_terminals = done })

  answer_next :
      (cursor : ℕ) (name : Bytes) (t : Terminal)
      → get_elem? names cursor ≡ some name
      → subnegotiate (ttype_send ∷ []) (told cursor) t
        ≡ record { option = told (cursor + 1); terminal = write_terminal name t; failure = none }
  unfolding subnegotiate subnegotiate_kind ttype_subnegotiate ttype_send_received send_terminal
  answer_next cursor name t e = rw (e, send_terminal) refl

  answer_last :
      (cursor : ℕ) (t : Terminal)
      → get_elem? names cursor ≡ none
      → subnegotiate (ttype_send ∷ []) (told cursor) t ≡ record {
        option = told cursor;
        terminal = write_terminal (last_terminal names) t;
        failure = none;
      }
  unfolding subnegotiate subnegotiate_kind ttype_subnegotiate ttype_send_received send_terminal
  answer_last cursor t e = rw (e, send_terminal) refl

  hear_new :
      (done : List Bytes) (name : Bytes) (u : Terminal)
      → is_new_terminal done name ≡ true
      → subnegotiate (ttype_is ∷ name) (heard done) u ≡ record {
        option = heard (done ++ (name ∷ []));
        terminal = write_request_send u;
        failure = none;
      }
  unfolding subnegotiate subnegotiate_kind ttype_subnegotiate ttype_is_received add_terminal
  hear_new done name u e = rw (e, add_terminal) refl

  hear_last :
      (done : List Bytes) (name : Bytes) (u : Terminal)
      → is_new_terminal done name ≡ false
      → subnegotiate (ttype_is ∷ name) (heard done) u ≡ record {
        option = heard done;
        terminal = raise (ttype_remote_terminals_updated done) (clear_lock ttype_keyboard_lock u);
        failure = none;
      }
  unfolding subnegotiate subnegotiate_kind ttype_subnegotiate ttype_is_received add_terminal
  hear_last done name u e = rw (e, add_terminal) refl

  -- What the exchange ends with.
  abbrev pub harvested : Terminal → TelOpt × Terminal
  harvested u = (
    heard names,
    raise (ttype_remote_terminals_updated names) (clear_lock ttype_keyboard_lock (written_out u)),
  )

  exchange_from :
      (n : ℕ) (done rest : List Bytes) (x : Bytes) (all : List Bytes) (t u : Terminal)
      → done ++ rest ≡ names
      → names ≡ x ∷ all
      → AreNews names
      → length rest < n
      → exchange n (ttype_send ∷ []) (told (length done)) t (heard done) u ≡ some (harvested u)
  unfolding write_terminal write_request_send write_command raise clear_lock
  exchange_from zero done rest x all t u e f h fuel = absurd (omega arith)
  exchange_from (suc n) done [] x all t u e f h fuel =
      let last : is_new_terminal names (last_terminal names) ≡ false =
        subst (λ ns. is_new_terminal ns (last_terminal ns) ≡ false) (sym f)
          (is_new_terminal-last x all) in
      subst
        (λ d.
          exchange (suc n) (ttype_send ∷ []) (told (length d)) t (heard d) u ≡ some (harvested u))
        (sym (sym (append-nil done) ∙ e))
        (ap (λ r. answered (exchange n) r (heard names) u)
            (answer_last (length names) (written_out t) (get_elem?-end names))
          ∙ ap
              (continued (exchange n) (record {
                option = told (length names);
                terminal = write_terminal (last_terminal names) (written_out t);
                failure = none;
              }))
              (hear_last names (last_terminal names) (written_out u) last))
  exchange_from (suc n) done (name ∷ rest) x all t u e f h fuel =
      let next : get_elem? names (length done) ≡ some name =
        subst (λ ns. get_elem? ns (length done) ≡ some name) e (get_elem?-append done name rest) in
      let new : is_new_terminal done name ≡ true =
        is_new_terminal-AreNews done name rest (subst AreNews (sym e) h) in
      let one_more : length (done ++ (name ∷ [])) ≡ length done + 1 =
        omega (arith, length-append {0} done (name ∷ [])) in
      ap (λ r. answered (exchange n) r (heard done) u)
        (answer_next (length done) name (written_out t) next)
      ∙ (ap
            (continued (exchange n) (record {
              option = told (length done + 1);
              terminal = write_terminal name (written_out t);
              failure = none;
            }))
            (hear_new done name (written_out u) new)
          ∙ subst
              (λ c.
                exchange n (ttype_send ∷ []) (told c) (write_terminal name (written_out t))
                  (heard (done ++ (name ∷ []))) (write_request_send (written_out u))
                ≡ some (harvested u))
              one_more
              (exchange_from n (done ++ (name ∷ [])) rest x all
                (write_terminal name (written_out t)) (write_request_send (written_out u))
                (append_assoc done (name ∷ []) rest ∙ e) f h (omega arith)))

  -- When SEND reaches a side that has not told its list yet, which is not empty and has no two
  -- neighbours that are the same, and its answers reach a side that has heard nothing yet, the two
  -- go on, given more rounds than names, until the second has the whole list, in order, and they
  -- stop: it has cleared the lock and raised the event with the list.
  pub exchange-harvested :
      (n : ℕ) (x : Bytes) (all : List Bytes) (t u : Terminal)
      → names ≡ x ∷ all
      → AreNews names
      → length names < n
      → exchange n (ttype_send ∷ []) (told 0) t (heard []) u ≡ some (harvested u)
  exchange-harvested n x all t u f h fuel = exchange_from n [] names x all t u refl f h fuel
