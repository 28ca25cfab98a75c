-- ===== src/Scanner/AreYouThere.antt =====
-- printer_scan.go and command.go on IAC AYT, which terminal_telopts.go has a handler for.
use telnet.Prelude.{Bool, some, [], ◌∷◌, ◌≡◌, refl, Bytes, err}
use telnet.Opcode.{iac, ayt}
use telnet.Command.{parse_command, invalid_opcode}
use telnet.Scanner.{scan_telnet}
use telnet.Scanner.Frames.{scan_telnet_frame, bare}

-- Whatever follows IAC AYT, the scanner cuts the two bytes out, and the parser refuses them.
pub are_you_there_is_refused :
    (rest : Bytes) (at_eof : Bool)
    → (scan_telnet (iac ∷ ayt ∷ rest) at_eof
        ≡ some (record { advance = 2; token = some (iac ∷ ayt ∷ []) }))
      × (parse_command (iac ∷ ayt ∷ []) ≡ err (invalid_opcode (iac ∷ ayt ∷ [])))
unfolding parse_command
are_you_there_is_refused rest at_eof = (scan_telnet_frame rest at_eof (bare refl), refl)
