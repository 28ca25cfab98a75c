-- ===== src/TelOpts/Location.antt =====
-- telopts/SENDLOCATION.go
use telnet.Prelude.{ℕ, none, [], Bytes}
use telnet.Opcode.{sb}
use telnet.TerminalData.{TelOptState, active, inactive}
use telnet.Terminal.{
  Terminal, SendLocation, TelOpt, send_location, write_command, raise, send_location_remote_updated,
}
use telnet.TelOpts.{Subnegotiated, base_subnegotiate}

abbrev pub send_location_code : ℕ
send_location_code = 23

unfoldable pub write_location : Bytes → Terminal → Terminal
unfolding write_command
write_location location =
    write_command (record { op_code = sb; option = send_location_code; subnegotiation = location })
      none

unfoldable pub send_location_local : TelOptState → SendLocation → Terminal → Terminal
unfolding write_location
send_location_local active l t = write_location l.local_location t
send_location_local _ l t = t

unfoldable pub send_location_remote : TelOptState → SendLocation → SendLocation
send_location_remote inactive l = record l { remote_location = [] }
send_location_remote _ l = l

-- `Subnegotiate` ends with the base's on every path.
unfoldable pub send_location_subnegotiate : Bytes → SendLocation → TelOpt → Terminal → Subnegotiated
unfolding raise base_subnegotiate
send_location_subnegotiate subnegotiation l o t = elim o.base.remote_state [
  | active ↦
      base_subnegotiate subnegotiation
        (record o { kind = send_location (record l { remote_location = subnegotiation }) })
        (raise (send_location_remote_updated subnegotiation) t)
  | _ ↦ base_subnegotiate subnegotiation o t
]

-- `SetLocalLocation` sends whether or not the telopt is active.
unfoldable pub set_local_location : Bytes → SendLocation → TelOpt → Terminal → TelOpt × Terminal
unfolding write_location
set_local_location location l o t = (
  record o { kind = send_location (record l { local_location = location }) },
  write_location location t,
)
