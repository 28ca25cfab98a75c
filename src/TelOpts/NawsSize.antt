-- ===== src/TelOpts/NawsSize.antt =====
-- telopts/NAWS.go: window sizes. A size is not negative.
use telnet.Prelude.{
  ℕ, ◌+◌, ◌*◌, ◌/◌, ◌%◌, ◌^◌, ◌&&◌, none, some, [], ◌∷◌, ◌==◌, if◌then◌else◌, Bytes, ltb,
}
use telnet.Opcode.{sb}
use telnet.TerminalData.{TelOptState, active}
use telnet.Terminal.{Terminal, Naws, TelOpt, naws, write_command, raise, naws_remote_size_changed}
use telnet.TelOpts.{Subnegotiated, wrong_length}

abbrev pub naws_code : ℕ
naws_code = 31

-- `byte((width >> 8) & 0xff), byte(width & 0xff)`, and so for the height.
unfoldable pub size_bytes : ℕ → ℕ → Bytes
size_bytes width height =
    (width / 2 ^ 8 % 2 ^ 8) ∷ (width % 2 ^ 8) ∷ (height / 2 ^ 8 % 2 ^ 8) ∷ (height % 2 ^ 8) ∷ []

unfoldable pub write_size_subnegotiation : ℕ → ℕ → Terminal → Terminal
unfolding write_command size_bytes
write_size_subnegotiation width height t =
    write_command
      (record { op_code = sb; option = naws_code; subnegotiation = size_bytes width height }) none t

-- `TransitionLocalState` behind the base's.
unfoldable pub naws_local : TelOptState → Naws → Terminal → Terminal
unfolding write_size_subnegotiation
naws_local active n t =
    if ltb 0 n.local_width && ltb 0 n.local_height
    then write_size_subnegotiation n.local_width n.local_height t
    else t
naws_local _ n t = t

-- `Subnegotiate`. A shifted byte and a byte share no bits, so that `|` is their sum.
unfoldable pub naws_subnegotiate : Bytes → Naws → TelOpt → Terminal → Subnegotiated
unfolding raise
naws_subnegotiate subnegotiation n o t = elim o.base.remote_state [
  | active ↦ elim subnegotiation [
    | w₁ ∷ w₀ ∷ h₁ ∷ h₀ ∷ [] ↦
        let width = w₁ * 2 ^ 8 + w₀ in
        let height = h₁ * 2 ^ 8 + h₀ in
        record {
          option = record o {
            kind = naws (record n { remote_width = width; remote_height = height });
          };
          terminal = raise (naws_remote_size_changed width height) t;
          failure = none;
        }
    | other ↦ record { option = o; terminal = t; failure = some (wrong_length other) }
  ]
  | _ ↦ record { option = o; terminal = t; failure = none }
]

-- `SetLocalSize`
unfoldable pub set_local_size : ℕ → ℕ → Naws → TelOpt → Terminal → TelOpt × Terminal
unfolding write_size_subnegotiation
set_local_size width height n o t =
    if n.local_width == width && n.local_height == height then (o, t) else (
      record o { kind = naws (record n { local_width = width; local_height = height }) },
      elim o.base.local_state [ active ↦ write_size_subnegotiation width height t | _ ↦ t ],
    )
