-- ===== src/TelOpts/EnvironVars.antt =====
-- telopts/NEWENVIRON.go: loading the other side's variables, and changing this side's.
pub mod Sync
pub mod Ends
use telnet.Prelude.{
  ℕ, zero, suc, ◌+◌, Bool, true, false, not, ◌&&◌, ◌||◌, Option, none, some, List, [], ◌∷◌, ◌++◌,
  ◌==◌, if◌then◌else◌, Bytes, length, drop,
}
use telnet.Prelude.ByteMap.{lookup, insert, delete}
use telnet.TerminalData.{TelOptState, active}
use telnet.Terminal.{
  Terminal, NewEnviron, TelOpt, new_environ, raise, new_environ_remote_vars_changed,
}
use telnet.TelOpts.{
  Subnegotiated, base_subnegotiate, SubnegotiationError, empty_subnegotiation, empty_key,
}
use telnet.TelOpts.EnvironText.{
  encode_text, decode_text, new_environ_var, new_environ_value, new_environ_uservar,
}
use telnet.TelOpts.Environ.{
  new_environ_is, new_environ_send, new_environ_info, has_key, write_subnegotiation, var_bytes,
  subnegotiate_send,
}

-- The telopt while it loads, and the keys that it has met.
pub record Loaded : Type 0 where
  pub environ : NewEnviron
  pub well_known_keys : List Bytes
  pub user_keys : List Bytes

-- The fuel of the loop ran out; or a key of no length, which leaves what was loaded before it.
pub data LoadResult : Type 0 where
  loaded : Loaded → LoadResult
  no_key : Loaded → LoadResult
  out_of_fuel : LoadResult

unfoldable pub keep_or_delete : Bytes → Option Bytes → List (Bytes × Bytes) → List (Bytes × Bytes)
keep_or_delete key none m = delete key m
keep_or_delete key (some v) m = insert key v m

-- The key is noted, and its value kept or deleted.
unfoldable pub store : ℕ → Bytes → Option Bytes → Loaded → Loaded
unfolding keep_or_delete
store token key value l =
    if token == new_environ_uservar
    then record l {
      environ = record l.environ {
        remote_user_vars = keep_or_delete key value l.environ.remote_user_vars;
      };
      user_keys = l.user_keys ++ (key ∷ []);
    }
    else record l {
      environ = record l.environ {
        remote_well_known_vars = keep_or_delete key value l.environ.remote_well_known_vars;
      };
      well_known_keys = l.well_known_keys ++ (key ∷ []);
    }

-- Behind the key: the value, if a VALUE token stands there, and the rest.
unfoldable pub read_value : Bytes → Option Bytes × Bytes
read_value [] = (none, [])
read_value (b ∷ rest) =
    if b == new_environ_value
    then (let (size, value) = decode_text rest in (some value, drop size rest))
    else (none, b ∷ rest)

-- The loop of `subnegotiationLoadValues`.
unfoldable pub load_values : ℕ → Bytes → Loaded → LoadResult
unfolding store read_value
load_values fuel [] l = loaded l
load_values zero (token ∷ rest) l = out_of_fuel
load_values (suc fuel) (token ∷ rest) l =
    elim (token == new_environ_uservar || token == new_environ_var) [
      | false ↦ load_values fuel rest l
      | true ↦
          let (key_size, key) = decode_text rest in
          elim (key_size == 0) [
            | true ↦ no_key l
            | false ↦
                let (value, behind) = read_value (drop key_size rest) in
                load_values fuel behind (store token key value l)
          ]
    ]

unfoldable pub load_received : Bytes → Bytes → NewEnviron → TelOpt → Terminal → Subnegotiated
unfolding load_values base_subnegotiate raise
load_received whole bytes e o t =
    elim (load_values (length bytes) bytes
      (record { environ = e; well_known_keys = []; user_keys = [] })) [
        | loaded l ↦
            base_subnegotiate whole (record o { kind = new_environ l.environ })
              (raise (new_environ_remote_vars_changed l.well_known_keys l.user_keys) t)
        | no_key l ↦ record {
          option = record o { kind = new_environ l.environ };
          terminal = t;
          failure = some empty_key;
        }
        | out_of_fuel ↦ base_subnegotiate whole o t
      ]

abbrev is_active : TelOptState → Bool
is_active active = true
is_active _ = false

-- `Subnegotiate`, which ends with the base's behind a successful IS or INFO too.
unfoldable pub new_environ_subnegotiate : Bytes → NewEnviron → TelOpt → Terminal → Subnegotiated
unfolding load_received subnegotiate_send base_subnegotiate
new_environ_subnegotiate [] e o t = record {
  option = o;
  terminal = t;
  failure = some empty_subnegotiation;
}
new_environ_subnegotiate (b ∷ rest) e o t =
    if b == new_environ_send && is_active o.base.local_state
    then record { option = o; terminal = subnegotiate_send rest e t; failure = none }
    else if is_active o.base.remote_state && (b == new_environ_is || b == new_environ_info)
    then load_received (b ∷ rest) rest e o t
    else base_subnegotiate (b ∷ rest) o t

-- A key goes to the well-known or to the user variables: its token, and the change of its map.
unfoldable pub set_var : Bytes → Bytes → NewEnviron → NewEnviron
set_var key value e =
    if has_key key e.well_known_vars
    then record e { local_well_known_vars = insert key value e.local_well_known_vars }
    else record e { local_user_vars = insert key value e.local_user_vars }

unfoldable pub clear_var : Bytes → NewEnviron → NewEnviron
clear_var key e =
    if has_key key e.well_known_vars
    then record e { local_well_known_vars = delete key e.local_well_known_vars }
    else record e { local_user_vars = delete key e.local_user_vars }

unfoldable pub token_of : Bytes → NewEnviron → ℕ
token_of key e = if has_key key e.well_known_vars then new_environ_var else new_environ_uservar

-- The loops of `SetVars`, over its pairs of arguments, and of `ClearVars`: the telopt, and what the
-- buffer holds behind INFO.
unfoldable pub set_all : List (Bytes × Bytes) → NewEnviron → NewEnviron × Bytes
set_all [] e = (e, [])
set_all ((key, value) ∷ vars) e =
    let (f, bytes) = set_all vars (set_var key value e) in
    (f, var_bytes (token_of key e) key (some value) ++ bytes)

unfoldable pub clear_all : List Bytes → NewEnviron → NewEnviron × Bytes
clear_all [] e = (e, [])
clear_all (key ∷ ks) e =
    let (f, bytes) = clear_all ks (clear_var key e) in
    (f, var_bytes (token_of key e) key none ++ bytes)

-- `SetVars` with an even number of arguments, and `ClearVars`: the change is sent if the telopt is
-- active here.
unfoldable pub inform : NewEnviron × Bytes → TelOpt → Terminal → TelOpt × Terminal
unfolding write_subnegotiation
inform (e, bytes) o t = (
  record o { kind = new_environ e },
  if is_active o.base.local_state then write_subnegotiation (new_environ_info ∷ bytes) t else t,
)

unfoldable pub set_vars : List (Bytes × Bytes) → NewEnviron → TelOpt → Terminal → TelOpt × Terminal
unfolding set_all inform
set_vars vars e = inform (set_all vars e)

unfoldable pub clear_vars : List Bytes → NewEnviron → TelOpt → Terminal → TelOpt × Terminal
unfolding clear_all inform
clear_vars ks e = inform (clear_all ks e)
