-- ===== src/CharacterMode.antt =====
-- utils/charmode.go, and `telOptEvents` of utils/keyboardfeed.go. The mode of LINEMODE, which the tracker
-- asks the telopt for, comes with the event.
mod Tests
use telnet.Prelude.{ℕ, Bool, true, false, ◌&&◌, ◌||◌, ◌==◌, if◌then◌else◌, bit_and, List, [], ◌∷◌}
use telnet.TerminalData.{TelOptState, unknown, inactive, requested, active}
use telnet.Terminal.{
  TelOptSide, side_local, side_remote, TelOptEvent, state_change, linemode_change,
}
use telnet.TelOpts.Register.{echo_code, suppress_go_ahead_code}
use telnet.TelOpts.Mode.{linemode_code, edit}
use telnet.LineFeed.{LineFeed, set_character_mode, set_suppress_local_echo}

pub record CharacterModeTracker : Type 0 where
  pub remote_suppress_ga : Bool
  pub remote_echo : Bool
  pub local_line_mode_non_edit : Bool

abbrev pub is_active : TelOptState → Bool
is_active active = true
is_active _ = false

abbrev pub no_edit : ℕ → Bool
no_edit mode = bit_and mode edit == 0

-- From the remote states of SUPPRESS-GO-AHEAD and ECHO, the local one of LINEMODE, and its mode.
unfoldable pub new_character_mode_tracker :
    TelOptState → TelOptState → TelOptState → ℕ → CharacterModeTracker
new_character_mode_tracker sga echo linemode mode = record {
  remote_suppress_ga = is_active sga;
  remote_echo = is_active echo;
  local_line_mode_non_edit = is_active linemode && no_edit mode;
}

-- A flag is set on active, reset on inactive, and kept otherwise.
abbrev pub follow : TelOptState → Bool → Bool → Bool
follow active on old = on
follow inactive on old = false
follow _ on old = old

-- The side of the change is not asked for.
unfoldable pub track : ℕ → TelOptEvent → CharacterModeTracker → CharacterModeTracker
track mode (state_change code side old new) t =
    if code == suppress_go_ahead_code
    then record t { remote_suppress_ga = follow new true t.remote_suppress_ga }
    else if code == echo_code
    then record t { remote_echo = follow new true t.remote_echo }
    else if code == linemode_code
    then record t {
      local_line_mode_non_edit = follow new (no_edit mode) t.local_line_mode_non_edit;
    }
    else t
track mode (linemode_change new_mode) t = record t { local_line_mode_non_edit = no_edit new_mode }
track mode _ t = t

unfoldable pub is_character_mode : CharacterModeTracker → Bool
is_character_mode t = t.local_line_mode_non_edit || (t.remote_echo && t.remote_suppress_ga)

-- Only changes of the local side leave the line editor as it is.
unfoldable pub feed_event : TelOptEvent → CharacterModeTracker → LineFeed → LineFeed
unfolding set_character_mode set_suppress_local_echo is_character_mode
feed_event (state_change code side_local old new) t l = l
feed_event (state_change code side_remote old new) t l = set_character_mode (is_character_mode t) (
    if code == echo_code
    then set_suppress_local_echo (follow new true l.config.suppress_local_echo) l
    else l)
feed_event _ t l = set_character_mode (is_character_mode t) l
