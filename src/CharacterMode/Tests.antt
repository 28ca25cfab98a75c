-- ===== src/CharacterMode/Tests.antt =====
-- Events of telopts for the tracker.
use telnet.Prelude.{◌≡◌, refl, true}
use telnet.TerminalData.{inactive, active}
use telnet.Terminal.{side_local, state_change}
use telnet.CharacterMode.{new_character_mode_tracker, track, is_character_mode}

-- SUPPRESS-GO-AHEAD that the local side performs counts as the remote's.
local_side_test :
    is_character_mode (
      track 0
        (state_change 3 side_local inactive active)
        (new_character_mode_tracker inactive active inactive 0))
    ≡ true
unfolding is_character_mode track new_character_mode_tracker
local_side_test = refl
