-- ===== src/TelOpts/Register.antt =====
-- telopts/: the functions that make a telopt, for a usage.
use telnet.Prelude.{ℕ, List, [], ◌∷◌, Bytes}
use telnet.Terminal.{
  TelOpt, Kind, echo, eor, suppress_go_ahead, transmit_binary, naws, send_location, ttype, linemode,
  new_environ, Ttype, NewEnviron, new_base_tel_opt,
}
use telnet.TelOpts.NawsSize.{naws_code}
use telnet.TelOpts.Location.{send_location_code}
use telnet.TelOpts.TerminalType.{ttype_code}
use telnet.TelOpts.Mode.{linemode_code}
use telnet.TelOpts.Environ.{new_environ_code, add_keys}
use telnet.TelOpts.EnvironVars.{set_var}

abbrev pub transmit_binary_code : ℕ
transmit_binary_code = 0

abbrev pub echo_code : ℕ
echo_code = 1

abbrev pub suppress_go_ahead_code : ℕ
suppress_go_ahead_code = 3

abbrev pub eor_code : ℕ
eor_code = 25

abbrev made : ℕ → ℕ → Kind → TelOpt
made code usage kind = record { base = new_base_tel_opt code usage; kind = kind }

unfoldable pub register_echo : ℕ → TelOpt
unfolding new_base_tel_opt
register_echo usage = made echo_code usage echo

unfoldable pub register_eor : ℕ → TelOpt
unfolding new_base_tel_opt
register_eor usage = made eor_code usage eor

unfoldable pub register_suppress_go_ahead : ℕ → TelOpt
unfolding new_base_tel_opt
register_suppress_go_ahead usage = made suppress_go_ahead_code usage suppress_go_ahead

unfoldable pub register_transmit_binary : ℕ → TelOpt
unfolding new_base_tel_opt
register_transmit_binary usage = made transmit_binary_code usage transmit_binary

unfoldable pub register_naws : ℕ → TelOpt
unfolding new_base_tel_opt
register_naws usage =
    made naws_code usage
      (naws (record { local_width = 0; local_height = 0; remote_width = 0; remote_height = 0 }))

unfoldable pub register_send_location : ℕ → Bytes → TelOpt
unfolding new_base_tel_opt
register_send_location usage location =
    made send_location_code usage
      (send_location (record { local_location = location; remote_location = [] }))

unfoldable pub register_ttype : ℕ → List Bytes → TelOpt
unfolding new_base_tel_opt
register_ttype usage terminals = made ttype_code usage (
    ttype
      (record { local_terminal_cursor = 0; local_terminals = terminals; remote_terminals = [] }))

-- `SetLocalTerminals` of TTYPE.
unfoldable pub set_local_terminals : List Bytes → Ttype → Ttype
set_local_terminals terminals y = record y { local_terminals = terminals }

unfoldable pub register_linemode : ℕ → ℕ → TelOpt
unfolding new_base_tel_opt
register_linemode usage mode = made linemode_code usage (linemode mode)

-- The loop over the initial variables. A config without any has an empty list.
unfoldable pub initial_vars : List (Bytes × Bytes) → NewEnviron → NewEnviron
unfolding set_var
initial_vars [] e = e
initial_vars ((key, value) ∷ vars) e = initial_vars vars (set_var key value e)

unfoldable pub register_new_environ : ℕ → List Bytes → List (Bytes × Bytes) → TelOpt
unfolding new_base_tel_opt add_keys initial_vars
register_new_environ usage well_known_keys vars = made new_environ_code usage (
    new_environ (
      initial_vars vars (record {
        well_known_vars = add_keys well_known_keys [];
        local_user_vars = [];
        local_well_known_vars = [];
        remote_user_vars = [];
        remote_well_known_vars = [];
      })))
