-- ===== src/Negotiation/Tests.antt =====
-- Runs of terminal_telopts.go, on a terminal with ECHO and one with NAWS.
use telnet.Prelude.{ℕ, List, map, true, false, [], ◌∷◌, ◌++◌, ◌≡◌, refl, none, some, arith}
use telnet.Opcode.{sb}
use telnet.Command.{Command, of_option}
use telnet.TerminalData.{TelOptState, inactive}
use telnet.KeyboardLock.{new_keyboard_lock}
use telnet.Terminal.{Terminal, TelOpt, Naws, echo, side_local, find_option}
use telnet.TelOpts.Register.{register_echo, register_naws}
use telnet.TelOpts.NawsSize.{size_bytes}
use telnet.Negotiation.{
  process_negotiation, process_subnegotiation, init_telopts, write_telopt_requests,
}
use telnet.Negotiation.Sent.{negotiations}
use telnet.Negotiation.States.{asked_by, said_by, process_negotiation_unknown}
use telnet.Keyboard.{command_bytes}
use telnet.Keyboard.Wire.{ReadsAs}
use telnet.Negotiation.Startup.{startup_requests, IsOrderOf}
use telnet.Negotiation.Exchange.{active_location, active_naws, naws_size_arrives}

-- A terminal with one telopt.
abbrev holding : TelOpt → Terminal
holding o = record {
  now = 0;
  binary = record { binary_encode = false; binary_decode = false };
  lock = new_keyboard_lock;
  keyboard_prompts = 1;
  printer_prompts = 1;
  input = [];
  output = [];
  options = (o.base.code, o) ∷ [];
  events = [];
}

-- ECHO, allowed on both sides, with that local state and that remote state.
abbrev echo_in : TelOptState → TelOptState → TelOpt
echo_in s r = record {
  base = record { code = 1; local_state = s; remote_state = r; usage = 5 };
  kind = echo;
}

process_negotiation_unknown_example :
    let t = holding (echo_in inactive inactive) in
    let u = process_negotiation (of_option (asked_by side_local true) 3) t in
    (u.options ≡ t.options)
    × (negotiations u.input ≡ negotiations t.input ++ (of_option (said_by side_local false) 3 ∷ []))
process_negotiation_unknown_example =
    process_negotiation_unknown side_local true 3 (holding (echo_in inactive inactive))
      (unfold find_option in refl)

abbrev no_size : Naws
no_size = record { local_width = 0; local_height = 0; remote_width = 0; remote_height = 0 }

abbrev told : TelOpt
told = active_naws 31 5 inactive no_size

naws_size_arrives_example :
    let c : Command = record { op_code = sb; option = 31; subnegotiation = size_bytes 80 300 } in
    let r = process_subnegotiation c (holding told) in
    ReadsAs c (command_bytes c) [] false
    × (r.1 ≡ none)
    × (find_option 31 r.0.options
        ≡ some
            (active_naws 31 5 inactive (record no_size { remote_width = 80; remote_height = 300 })))
unfolding size_bytes
naws_size_arrives_example =
    naws_size_arrives 80 300 31 5 no_size inactive (holding told) [] false (omega arith)
      (omega arith)
      (
        λ e. absurd (omega (arith, e)),
        (
          λ e. absurd (omega (arith, e)),
          (
            λ e. absurd (omega (arith, e)),
            (λ e. absurd (omega (arith, e)), λ e. absurd (omega (arith, e))),
          ),
        ),
      )
      (unfold find_option in refl)

-- ECHO, to be requested on the local side, and NAWS, to be requested on the remote side.
abbrev two_telopts : List TelOpt
two_telopts = register_echo 12 ∷ register_naws 3 ∷ []

abbrev bare_terminal : Terminal
bare_terminal = record (holding told) { options = [] }

abbrev started : Terminal
started = record bare_terminal { options = map (λ o. (o.base.code, o)) two_telopts }

-- NAWS comes first.
abbrev other_order : List (ℕ × TelOpt)
other_order = (31, register_naws 3) ∷ (1, register_echo 12) ∷ []

startup_requests_example :
    (negotiations (write_telopt_requests other_order started).input
      ≡ negotiations started.input ++ (of_option 253 31 ∷ of_option 251 1 ∷ []))
    × IsOrderOf started.options started.options
unfolding register_echo register_naws
startup_requests_example =
    startup_requests two_telopts bare_terminal started other_order refl
      (unfold init_telopts find_option in refl)
      (((refl, tt), (tt, tt)), unfold find_option in (refl, (refl, tt)), refl)

abbrev located : TelOpt
located = active_location 23 5 inactive (record { local_location = []; remote_location = [] })
