-- ===== src/TelOpts/Environ.antt =====
-- telopts/NEWENVIRON.go: the variables of both sides. A Go map is a list of its entries, and an
-- iteration over it goes by that order. Buffer sizes, which only save allocations, are left out.
use telnet.Prelude.{
  ℕ, zero, suc, Bool, true, false, ◌&&◌, ◌||◌, Option, none, some, List, [], ◌∷◌, ◌++◌, ◌==◌,
  if◌then◌else◌, Bytes, length, drop, same_bytes,
}
use telnet.Prelude.ByteMap.{lookup, keys}
use telnet.Opcode.{sb}
use telnet.TerminalData.{TelOptState, inactive, active}
use telnet.Terminal.{Terminal, NewEnviron, write_command}
use telnet.TelOpts.EnvironText.{
  encode_text, decode_text, new_environ_var, new_environ_value, new_environ_uservar,
}

abbrev pub new_environ_code : ℕ
new_environ_code = 39

abbrev pub new_environ_is : ℕ
new_environ_is = 0

abbrev pub new_environ_send : ℕ
new_environ_send = 1

abbrev pub new_environ_info : ℕ
new_environ_info = 2

unfoldable pub has_key : Bytes → List Bytes → Bool
has_key k [] = false
has_key k (j ∷ ks) = same_bytes j k || has_key k ks

-- A key joins a set.
unfoldable pub add_key : Bytes → List Bytes → List Bytes
unfolding has_key
add_key k ks = if has_key k ks then ks else ks ++ (k ∷ [])

unfoldable pub add_keys : List Bytes → List Bytes → List Bytes
unfolding add_key
add_keys [] ks = ks
add_keys (k ∷ more) ks = add_keys more (add_key k ks)

unfoldable pub write_subnegotiation : Bytes → Terminal → Terminal
unfolding write_command
write_subnegotiation bytes =
    write_command (record { op_code = sb; option = new_environ_code; subnegotiation = bytes }) none

-- `TransitionRemoteState` behind the base's.
unfoldable pub send_all_bytes : List Bytes → Bytes
send_all_bytes [] = new_environ_var ∷ new_environ_uservar ∷ []
send_all_bytes (k ∷ ks) = new_environ_var ∷ (encode_text k ++ send_all_bytes ks)

unfoldable pub write_send_all : NewEnviron → Terminal → Terminal
unfolding write_subnegotiation send_all_bytes
write_send_all e = write_subnegotiation (new_environ_send ∷ send_all_bytes e.well_known_vars)

unfoldable pub new_environ_remote : TelOptState → NewEnviron → Terminal → NewEnviron × Terminal
unfolding write_send_all
new_environ_remote inactive e t =
    (record e { remote_user_vars = []; remote_well_known_vars = [] }, t)
new_environ_remote active e t = (e, write_send_all e t)
new_environ_remote _ e t = (e, t)

-- One variable of `writeVarValues`, `SetVars` and `ClearVars`: the key, and the value if there is one.
unfoldable pub var_bytes : ℕ → Bytes → Option Bytes → Bytes
var_bytes token key value =
    token
    ∷ (encode_text key ++ elim value [ none ↦ [] | some v ↦ new_environ_value ∷ encode_text v ])

unfoldable pub values_bytes : ℕ → List (Bytes × Bytes) → List Bytes → Bytes
unfolding var_bytes
values_bytes token vars [] = []
values_bytes token vars (k ∷ ks) = var_bytes token k (lookup k vars) ++ values_bytes token vars ks

-- What `writeVarValues` writes.
unfoldable pub var_values : NewEnviron → List Bytes → List Bytes → Bytes
unfolding values_bytes
var_values e var_keys user_var_keys =
    values_bytes new_environ_var e.local_well_known_vars var_keys
    ++ values_bytes new_environ_uservar e.local_user_vars user_var_keys

-- What `subnegotiateSEND` collects: the keys asked for, and whether all are.
pub record Asked : Type 0 where
  pub var_keys : List Bytes
  pub user_var_keys : List Bytes
  pub all_vars : Bool
  pub all_user_vars : Bool

unfoldable pub ask : ℕ → ℕ → Bytes → Asked → Asked
unfolding add_key
ask token key_size key a =
    if key_size == 0 && token == new_environ_uservar
    then record a { all_user_vars = true }
    else if key_size == 0
    then record a { all_vars = true }
    else if token == new_environ_uservar
    then record a { user_var_keys = add_key key a.user_var_keys }
    else record a { var_keys = add_key key a.var_keys }

-- The loop over the tokens. Each round takes a byte, so that fuel for each of them is enough.
unfoldable pub read_asked : ℕ → Bytes → Asked → Asked
unfolding ask
read_asked zero bytes a = a
read_asked (suc fuel) [] a = a
read_asked (suc fuel) (token ∷ rest) a =
    let (key_size, key) = decode_text rest in
    let is_var = token == new_environ_uservar || token == new_environ_var in
    read_asked fuel (if is_var then drop key_size rest else rest)
      (if is_var then ask token key_size key a else a)

unfoldable pub subnegotiate_send : Bytes → NewEnviron → Terminal → Terminal
unfolding read_asked add_keys write_subnegotiation var_values
subnegotiate_send bytes e t =
    let empty_asked : Asked = record {
      var_keys = [];
      user_var_keys = [];
      all_vars = false;
      all_user_vars = false;
    } in
    let a : Asked = elim bytes [
      | [] ↦ record empty_asked { all_vars = true; all_user_vars = true }
      | b ∷ rest ↦ read_asked (length (b ∷ rest)) (b ∷ rest) empty_asked
    ] in
    let var_keys : List Bytes =
      if a.all_vars
      then add_keys (keys e.local_well_known_vars) (add_keys e.well_known_vars a.var_keys)
      else a.var_keys in
    let user_var_keys : List Bytes =
      if a.all_user_vars
      then add_keys (keys e.local_user_vars) a.user_var_keys
      else a.user_var_keys in
    write_subnegotiation (new_environ_is ∷ var_values e var_keys user_var_keys) t
