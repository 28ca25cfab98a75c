-- ===== src/Command/Tests.antt =====
-- Runs of command.go.
use telnet.Prelude.{[], ◌∷◌, ◌≡◌, refl, ok, arith}
use telnet.Command.{of_option, parse_command}
use telnet.Command.Total.{IsReading, parse_command-IsReading}
use telnet.Command.Parse.{parse_command_doubled_twice}

parse_will : parse_command (255 ∷ 251 ∷ 31 ∷ []) ≡ ok (of_option 251 31)
unfolding parse_command
parse_will = refl

parse_command_doubled_twice_example :
    parse_command (255 ∷ 250 ∷ 24 ∷ 255 ∷ 255 ∷ 1 ∷ 2 ∷ 255 ∷ 255 ∷ 255 ∷ 240 ∷ [])
    ≡ ok (record { op_code = 250; option = 24; subnegotiation = 255 ∷ 1 ∷ 2 ∷ 255 ∷ 255 ∷ [] })
parse_command_doubled_twice_example =
    parse_command_doubled_twice 24 1 2 [] (ground arith) (ground arith)

parse_command-IsReading_example :
    IsReading (255 ∷ 251 ∷ 31 ∷ []) (parse_command (255 ∷ 251 ∷ 31 ∷ []))
parse_command-IsReading_example = parse_command-IsReading 255 (251 ∷ 31 ∷ [])
