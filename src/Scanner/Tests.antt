-- ===== src/Scanner/Tests.antt =====
-- Runs of printer_scan.go.
use telnet.Prelude.{some, [], ◌∷◌, ◌≡◌, ◌↔◌, refl, true, false, Bytes, arith}
use telnet.Opcode.{iac, ayt}
use telnet.Command.{parse_command, invalid_opcode}
use telnet.Prelude.{err}
use telnet.Scanner.{Split, scan_telnet, find_subnegotiation_end}
use telnet.Scanner.Progress.{IsStep, scan_telnet-IsStep}
use telnet.Scanner.Waits.{IsIncomplete, scan_telnet_waits_iff}
use telnet.Scanner.AreYouThere.{are_you_there_is_refused}
use telnet.Scanner.Doubling.{double_iac, read_all, read_all-double_iac}

-- IAC SB NAWS 0 80 IAC IAC IAC SE, and a letter.
abbrev naws_and_more : Bytes
naws_and_more = 255 ∷ 250 ∷ 31 ∷ 0 ∷ 80 ∷ 255 ∷ 255 ∷ 255 ∷ 240 ∷ 65 ∷ []

scan_naws :
    scan_telnet naws_and_more false
    ≡ some (record {
      advance = 9;
      token = some (255 ∷ 250 ∷ 31 ∷ 0 ∷ 80 ∷ 255 ∷ 255 ∷ 255 ∷ 240 ∷ []);
    })
unfolding scan_telnet find_subnegotiation_end
scan_naws = refl

read_all-double_iac_example :
    read_all 3 (double_iac (65 ∷ 255 ∷ 240 ∷ [])) ≡ some (65 ∷ 255 ∷ 240 ∷ [])
read_all-double_iac_example = read_all-double_iac 3 (65 ∷ 255 ∷ 240 ∷ []) (omega arith)

scan_telnet-IsStep_example :
    (r : Split) × (scan_telnet (255 ∷ 255 ∷ 65 ∷ []) true ≡ some r)
    × IsStep (255 ∷ 255 ∷ 65 ∷ []) true r
scan_telnet-IsStep_example = scan_telnet-IsStep 255 (255 ∷ 65 ∷ []) true

scan_telnet_waits_iff_example :
    (scan_telnet (255 ∷ 253 ∷ []) false ≡ some (record { advance = 0; token = some [] }))
    ↔ IsIncomplete (255 ∷ 253 ∷ [])
scan_telnet_waits_iff_example = scan_telnet_waits_iff 255 (253 ∷ [])

are_you_there_is_refused_example :
    (scan_telnet (iac ∷ ayt ∷ 65 ∷ []) false
      ≡ some (record { advance = 2; token = some (iac ∷ ayt ∷ []) }))
    × (parse_command (iac ∷ ayt ∷ []) ≡ err (invalid_opcode (iac ∷ ayt ∷ [])))
are_you_there_is_refused_example = are_you_there_is_refused (65 ∷ []) false
