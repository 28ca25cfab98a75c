-- ===== src/TelOpts/TerminalType.antt =====
-- telopts/TTYPE.go: the lists of terminal types of both sides.
pub mod Exchange
mod Tests
use telnet.Prelude.{
  ℕ, ◌+◌, Bool, true, false, not, none, some, List, [], ◌∷◌, ◌++◌, if◌then◌else◌, Bytes, get_elem?,
  same_bytes, text, ◌==◌,
}
use telnet.Opcode.{sb}
use telnet.TerminalData.{TelOptState, unknown, active, inactive, requested}
use telnet.Terminal.{
  Terminal, Ttype, TelOpt, ttype, write_command, raise, set_lock, clear_lock, has_active_lock,
  ttype_remote_terminals_updated,
}
use telnet.TelOpts.{Subnegotiated, base_subnegotiate, empty_subnegotiation}

abbrev pub ttype_code : ℕ
ttype_code = 24

abbrev pub ttype_keyboard_lock : Bytes
ttype_keyboard_lock = text "lock.ttype"

abbrev pub ttype_is : ℕ
ttype_is = 0

abbrev pub ttype_send : ℕ
ttype_send = 1

unfoldable pub write_request_send : Terminal → Terminal
unfolding write_command
write_request_send =
    write_command (record { op_code = sb; option = ttype_code; subnegotiation = ttype_send ∷ [] })
      none

unfoldable pub write_terminal : Bytes → Terminal → Terminal
unfolding write_command
write_terminal terminal =
    write_command
      (record { op_code = sb; option = ttype_code; subnegotiation = ttype_is ∷ terminal }) none

-- `TransitionLocalState` and `TransitionRemoteState`, behind the base's.
unfoldable pub ttype_local : TelOptState → Ttype → Ttype
ttype_local inactive y = record y { local_terminal_cursor = 0 }
ttype_local _ y = y

unfoldable pub ttype_remote : TelOptState → Ttype → Terminal → Ttype × Terminal
unfolding write_request_send
ttype_remote inactive y t = (record y { remote_terminals = [] }, t)
ttype_remote active y t = (
  y,
  write_request_send
      (if not (has_active_lock ttype_keyboard_lock t) then set_lock ttype_keyboard_lock t else t),
)
ttype_remote requested y t = (y, set_lock ttype_keyboard_lock t)
ttype_remote unknown y t = (y, t)

-- Whether the list is empty or its last item is another one.
unfoldable pub is_new_terminal : List Bytes → Bytes → Bool
is_new_terminal [] terminal = true
is_new_terminal (x ∷ []) terminal = not (same_bytes x terminal)
is_new_terminal (x ∷ y ∷ rest) terminal = is_new_terminal (y ∷ rest) terminal

-- The list, the terminal, and whether the list is complete. The name is what stands behind IS.
unfoldable pub add_terminal : Bytes → Ttype → Terminal → Ttype × Terminal × Bool
unfolding is_new_terminal write_request_send
add_terminal new_terminal y t =
    if is_new_terminal y.remote_terminals new_terminal
    then (
      record y { remote_terminals = y.remote_terminals ++ (new_terminal ∷ []) },
      write_request_send t,
      false,
    )
    else (y, clear_lock ttype_keyboard_lock t, true)

unfoldable pub last_terminal : List Bytes → Bytes
last_terminal [] = text "UNKNOWN"
last_terminal (x ∷ []) = x
last_terminal (x ∷ y ∷ rest) = last_terminal (y ∷ rest)

-- The answer to SEND: the terminal under the cursor, which moves on, or the last one once it is past
-- the end.
unfoldable pub send_terminal : Ttype → Terminal → Ttype × Terminal
unfolding write_terminal last_terminal
send_terminal y t = elim (get_elem? y.local_terminals y.local_terminal_cursor) [
  | none ↦ (y, write_terminal (last_terminal y.local_terminals) t)
  | some terminal ↦
      (record y { local_terminal_cursor = y.local_terminal_cursor + 1 }, write_terminal terminal t)
]

unfoldable pub ttype_is_received : Bytes → Ttype → TelOpt → Terminal → Subnegotiated
unfolding add_terminal raise
ttype_is_received name y o t =
    let (z, u, complete) = add_terminal name y t in
    record {
      option = record o { kind = ttype z };
      terminal =
          if complete then raise (ttype_remote_terminals_updated z.remote_terminals) u else u;
      failure = none;
    }

unfoldable pub ttype_send_received : Ttype → TelOpt → Terminal → Subnegotiated
unfolding send_terminal
ttype_send_received y o t =
    let (z, u) = send_terminal y t in
    record { option = record o { kind = ttype z }; terminal = u; failure = none }

unfoldable pub ttype_subnegotiate : Bytes → Ttype → TelOpt → Terminal → Subnegotiated
unfolding ttype_is_received ttype_send_received base_subnegotiate
ttype_subnegotiate [] y o t = record {
  option = o;
  terminal = t;
  failure = some empty_subnegotiation;
}
ttype_subnegotiate (b ∷ rest) y o t =
    let ignored : Subnegotiated = record { option = o; terminal = t; failure = none } in
    if b == ttype_is
    then elim o.base.remote_state [ active ↦ ttype_is_received rest y o t | _ ↦ ignored ]
    else if b == ttype_send
    then elim o.base.local_state [ active ↦ ttype_send_received y o t | _ ↦ ignored ]
    else base_subnegotiate (b ∷ rest) o t
