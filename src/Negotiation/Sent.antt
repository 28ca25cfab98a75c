-- ===== src/Negotiation/Sent.antt =====
-- terminal_telopts.go: the negotiations that wait in the keyboard's channel, and what leaves them alone.
use telnet.Prelude.{
  ℕ, Bool, ◌||◌, Option, some, List, [], ◌∷◌, ◌++◌, ◌==◌, ◌≡◌, refl, sym, ap, ◌∙◌, if◌then◌else◌,
  Bytes, append-nil, append_assoc,
}
use telnet.Opcode.{sb, do_op, dont, will, wont}
use telnet.Command.{Command}
use telnet.TerminalData.{
  TerminalData, command_data, inactive, active, PostSend, KeyboardTransport, eor_sent,
  suppress_go_ahead_sent, transmit_binary_sent,
}
use telnet.Terminal.{Terminal, write_command, set_lock, clear_lock}
use telnet.TelOpts.Prompts.{run_post_send}

abbrev pub is_negotiation : ℕ → Bool
is_negotiation op = op == do_op || op == dont || op == will || op == wont

abbrev pub only_negotiation : Command → List Command
only_negotiation c = if is_negotiation c.op_code then c ∷ [] else []

abbrev of_data : Option TerminalData → List Command
of_data (some (command_data c)) = only_negotiation c
of_data _ = []

-- The WILL, WONT, DO and DONT among the transports, oldest first.
unfoldable pub negotiations : List KeyboardTransport → List Command
negotiations [] = []
negotiations (tr ∷ trs) = of_data tr.transported ++ negotiations trs

negotiations-append :
    (xs ys : List KeyboardTransport) → negotiations (xs ++ ys) ≡ negotiations xs ++ negotiations ys
unfolding negotiations
negotiations-append [] ys = refl
negotiations-append (x ∷ xs) ys =
    rw (negotiations-append xs ys)
      (sym (append_assoc (of_data x.transported) (negotiations xs) (negotiations ys)))

pub negotiations-write_command :
    (c : Command) (post : Option PostSend) (t : Terminal)
    → negotiations (write_command c post t).input ≡ negotiations t.input ++ only_negotiation c
unfolding write_command
negotiations-write_command c post t =
    negotiations-append t.input _
    ∙ ap (◌++◌ (negotiations t.input)) (unfold negotiations in append-nil (only_negotiation c))

-- A subnegotiation is no negotiation.
pub negotiations-sb :
    (option : ℕ) (s : Bytes) (post : Option PostSend) (t : Terminal)
    → negotiations
        (write_command (record { op_code = sb; option = option; subnegotiation = s }) post t).input
      ≡ negotiations t.input
negotiations-sb option s post t =
    negotiations-write_command (record { op_code = sb; option = option; subnegotiation = s }) post t
    ∙ append-nil (negotiations t.input)

-- What leaves the telopts and the negotiations of a terminal alone.
pub record IsQuiet (t u : Terminal) : Type 0 where
  pub same_options : u.options ≡ t.options
  pub same_sent : negotiations u.input ≡ negotiations t.input

pub IsQuiet-refl : (t : Terminal) → IsQuiet t t
IsQuiet-refl t = record { same_options = refl; same_sent = refl }

pub IsQuiet-trans : {t u v : Terminal} → IsQuiet t u → IsQuiet u v → IsQuiet t v
IsQuiet-trans p q = record {
  same_options = q.same_options ∙ p.same_options;
  same_sent = q.same_sent ∙ p.same_sent;
}

pub set_lock-IsQuiet : (name : Bytes) (t : Terminal) → IsQuiet t (set_lock name t)
unfolding set_lock
set_lock-IsQuiet name t = record { same_options = refl; same_sent = refl }

pub sb-IsQuiet :
    (option : ℕ) (s : Bytes) (post : Option PostSend) (t : Terminal)
    → IsQuiet t
        (write_command (record { op_code = sb; option = option; subnegotiation = s }) post t)
sb-IsQuiet option s post t = record {
  same_options = unfold write_command in refl;
  same_sent = negotiations-sb option s post t;
}

-- The callbacks.
pub run_post_send-IsQuiet : (p : PostSend) (t : Terminal) → IsQuiet t (run_post_send p t)
unfolding run_post_send clear_lock
run_post_send-IsQuiet (eor_sent active) t = record { same_options = refl; same_sent = refl }
run_post_send-IsQuiet (eor_sent inactive) t = record { same_options = refl; same_sent = refl }
run_post_send-IsQuiet (eor_sent s) t = record { same_options = refl; same_sent = refl }
run_post_send-IsQuiet (suppress_go_ahead_sent active) t = record {
  same_options = refl;
  same_sent = refl;
}
run_post_send-IsQuiet (suppress_go_ahead_sent inactive) t = record {
  same_options = refl;
  same_sent = refl;
}
run_post_send-IsQuiet (suppress_go_ahead_sent s) t = record {
  same_options = refl;
  same_sent = refl;
}
run_post_send-IsQuiet (transmit_binary_sent s) t = record { same_options = refl; same_sent = refl }
