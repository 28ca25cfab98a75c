-- ===== src/TelOpts/TerminalType/Tests.antt =====
-- Two terminal types told by one terminal to another.
use telnet.Prelude.{◌≡◌, refl, false, some, [], ◌∷◌, text, arith, same_bytes}
use telnet.TerminalData.{inactive}
use telnet.KeyboardLock.{new_keyboard_lock}
use telnet.Terminal.{Terminal, Ttype}
use telnet.TelOpts.TerminalType.{ttype_send}
use telnet.TelOpts.TerminalType.Exchange.{exchange, told, heard, harvested, exchange-harvested}

abbrev terminal : Terminal
terminal = record {
  now = 0;
  binary = record { binary_encode = false; binary_decode = false };
  lock = new_keyboard_lock;
  keyboard_prompts = 1;
  printer_prompts = 1;
  input = [];
  output = [];
  options = [];
  events = [];
}

abbrev nothing : Ttype
nothing = record { local_terminal_cursor = 0; local_terminals = []; remote_terminals = [] }

exchange-harvested_example :
    exchange 3
      (ttype_send ∷ [])
      (told 24 1 24 4 inactive inactive (text "XTERM" ∷ text "ANSI" ∷ []) [] nothing 0)
      terminal
      (heard 24 1 24 4 inactive inactive (text "XTERM" ∷ text "ANSI" ∷ []) [] nothing [])
      terminal
    ≡ some (
        harvested 24 1 24 4 inactive inactive (text "XTERM" ∷ text "ANSI" ∷ []) [] nothing terminal)
unfolding same_bytes
exchange-harvested_example =
    exchange-harvested 24 1 24 4 inactive inactive (text "XTERM" ∷ text "ANSI" ∷ []) [] nothing 3
      (text "XTERM") (text "ANSI" ∷ []) terminal terminal refl (refl, tt) (omega arith)
