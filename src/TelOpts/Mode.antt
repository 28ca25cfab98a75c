-- ===== src/TelOpts/Mode.antt =====
-- telopts/LINEMODE.go: the negotiation of the line mode's flags.
pub mod Corrected
use telnet.Prelude.{
  ℕ, ◌-◌, ◌^◌, Bool, true, false, not, ◌&&◌, ◌||◌, none, some, [], ◌∷◌, ◌==◌, if◌then◌else◌, Bytes,
  bit_and, bit_or, bit_xor, ◌%◌,
}
use telnet.Opcode.{sb, do_op, dont, will, wont}
use telnet.TerminalData.{TelOptState, active}
use telnet.Terminal.{Terminal, TelOpt, linemode, write_command, raise, linemode_change}
use telnet.TelOpts.{
  Subnegotiated, base_subnegotiate, empty_subnegotiation, unexpected_subnegotiation,
}

abbrev pub linemode_code : ℕ
linemode_code = 34

abbrev pub linemode_mode : ℕ
linemode_mode = 1

abbrev pub linemode_forwardmask : ℕ
linemode_forwardmask = 2

abbrev pub linemode_slc : ℕ
linemode_slc = 3

-- The flags EDIT, TRAPSIG and ACK.
abbrev pub edit : ℕ
edit = 1

abbrev pub trapsig : ℕ
trapsig = 2

abbrev pub ack : ℕ
ack = 4

abbrev pub supported_modes : ℕ
supported_modes = bit_or edit trapsig

-- `mask & ^LineModeACK`, on an `int` that is not negative.
unfoldable pub without_ack : ℕ → ℕ
without_ack mask = bit_and mask (bit_xor ack (2 ^ 63 - 1))

-- `byte(mode)`
unfoldable pub write_mode_command : ℕ → Terminal → Terminal
unfolding write_command
write_mode_command mode =
    write_command
      (record {
        op_code = sb;
        option = linemode_code;
        subnegotiation = linemode_mode ∷ (mode % 2 ^ 8) ∷ [];
      })
      none

-- `TransitionRemoteState` before the base's.
unfoldable pub linemode_remote : TelOptState → ℕ → Terminal → Terminal
unfolding write_mode_command
linemode_remote active mode t = write_mode_command mode t
linemode_remote _ mode t = t

-- The mode and the terminal.
unfoldable pub update_mode : ℕ → Terminal → ℕ × Terminal
unfolding raise
update_mode mode t = (mode, raise (linemode_change mode) t)

unfoldable pub client_mode : ℕ → ℕ → Terminal → ℕ × Terminal
unfolding write_mode_command update_mode
client_mode requested_mask current_mode t =
    let supported = bit_and requested_mask supported_modes in
    if supported == requested_mask
    then update_mode requested_mask (write_mode_command (bit_or requested_mask ack) t)
    else (let told = write_mode_command supported t in
        if not (supported == current_mode)
        then update_mode supported told
        else (current_mode, told))

-- The mask that the other side is held to: EDIT and TRAPSIG cannot be turned off, nor others on.
unfoldable pub corrected_mask : ℕ → ℕ → ℕ
unfolding without_ack
corrected_mask requested_mask current_mode =
    bit_and (bit_or (without_ack requested_mask) (bit_and current_mode (bit_or edit trapsig)))
      current_mode

unfoldable pub server_mode : ℕ → ℕ → Terminal → ℕ × Terminal
unfolding write_mode_command update_mode corrected_mask
server_mode requested_mask current_mode t =
    let corrected = corrected_mask requested_mask current_mode in
    if not (corrected == current_mode)
    then (let (mode, u) = update_mode corrected t in
        (
          mode,
          if bit_and requested_mask ack == 0 && not (corrected == requested_mask)
              then write_mode_command corrected u
              else u,
        ))
    else (current_mode, t)

-- `subnegotiateMODE`; the flag is whether this side is the client.
unfoldable pub subnegotiate_mode : ℕ → Bool → ℕ → Terminal → ℕ × Terminal
unfolding client_mode server_mode without_ack
subnegotiate_mode requested_mask is_client current_mode t =
    if without_ack requested_mask == current_mode
    then (current_mode, t)
    else if not (bit_and requested_mask ack == 0) && is_client
    then (current_mode, t)
    else if is_client
    then client_mode requested_mask current_mode t
    else server_mode requested_mask current_mode t

-- The answer to FORWARDMASK.
unfoldable pub refuse_forwardmask : ℕ → Terminal → Terminal
unfolding write_command
refuse_forwardmask op =
    write_command
      (record {
        op_code = sb;
        option = linemode_code;
        subnegotiation = op ∷ linemode_forwardmask ∷ [];
      })
      none

abbrev is_active : TelOptState → Bool
is_active active = true
is_active _ = false

-- `Subnegotiate` on two bytes or more, the first of which is not SLC.
unfoldable pub linemode_pair : ℕ → ℕ → Bytes → ℕ → TelOpt → Terminal → Subnegotiated
unfolding subnegotiate_mode refuse_forwardmask base_subnegotiate
linemode_pair a b rest mode o t =
    if a == linemode_mode
    then (let (m, u) = subnegotiate_mode b (is_active o.base.local_state) mode t in
        record { option = record o { kind = linemode m }; terminal = u; failure = none })
    else if (a == dont || a == wont) && b == linemode_forwardmask
    then record { option = o; terminal = t; failure = none }
    else if a == do_op && b == linemode_forwardmask
    then record { option = o; terminal = refuse_forwardmask wont t; failure = none }
    else if a == will && b == linemode_forwardmask
    then record { option = o; terminal = refuse_forwardmask dont t; failure = none }
    else base_subnegotiate (a ∷ b ∷ rest) o t

unfoldable pub linemode_subnegotiate : Bytes → ℕ → TelOpt → Terminal → Subnegotiated
unfolding linemode_pair
linemode_subnegotiate [] mode o t = record {
  option = o;
  terminal = t;
  failure = some empty_subnegotiation;
}
linemode_subnegotiate (a ∷ []) mode o t = record {
  option = o;
  terminal = t;
  failure = if a == linemode_slc then none else some (unexpected_subnegotiation (a ∷ []));
}
linemode_subnegotiate (a ∷ b ∷ rest) mode o t =
    if a == linemode_slc
    then record { option = o; terminal = t; failure = none }
    else linemode_pair a b rest mode o t

-- `SetMode`
unfoldable pub set_mode : ℕ → ℕ → TelOpt → Terminal → TelOpt × Terminal
unfolding update_mode
set_mode new_mode mode o t =
    let masked = bit_and new_mode supported_modes in
    if not (masked == mode)
    then (let (m, u) = update_mode masked t in (record o { kind = linemode m }, u))
    else (o, t)
