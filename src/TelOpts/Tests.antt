-- ===== src/TelOpts/Tests.antt =====
-- Runs of telopts/.
use telnet.Prelude.{false, List, [], ◌∷◌, ◌++◌, ◌≡◌, refl, Bytes, length, text, arith}
use telnet.Terminal.{Terminal, NewEnviron}
use telnet.TelOpts.EnvironText.{encode_text, decode_text}
use telnet.TelOpts.EnvironText.RoundTrip.{decode_text-encode_text}
use telnet.TelOpts.EnvironVars.{Loaded, loaded, load_values, set_all}
use telnet.TelOpts.EnvironVars.Sync.{IsSynced, load_values-set_all}
use telnet.TelOpts.Prompts.{eor_post_send, suppress_go_ahead_post_send}
use telnet.TelOpts.Prompts.Follow.{Switches, prompt_commands_follow}
use telnet.TerminalData.{active, inactive}
use telnet.KeyboardLock.{new_keyboard_lock}

decode_text-encode_text_example :
    decode_text (encode_text (65 ∷ 1 ∷ 255 ∷ []) ++ (3 ∷ []))
    ≡ (length (encode_text (65 ∷ 1 ∷ 255 ∷ [])), 65 ∷ 1 ∷ 255 ∷ [])
decode_text-encode_text_example =
    decode_text-encode_text (65 ∷ 1 ∷ 255 ∷ []) (3 ∷ []) (ground arith)

abbrev fresh : NewEnviron
fresh = record {
  well_known_vars = text "USER" ∷ [];
  local_user_vars = [];
  local_well_known_vars = [];
  remote_user_vars = [];
  remote_well_known_vars = [];
}

abbrev untouched : Loaded
untouched = record { environ = fresh; well_known_keys = []; user_keys = [] }

fresh-IsSynced : IsSynced fresh fresh
fresh-IsSynced = record { user = λ k. refl; well_known = λ k. refl }

abbrev two_vars : List (Bytes × Bytes)
two_vars = (text "USER", text "ann") ∷ (text "TZ", 1 ∷ 2 ∷ []) ∷ []

load_values-set_all_example :
    (m : Loaded) × (load_values 2 (set_all two_vars fresh).1 untouched ≡ loaded m)
    × IsSynced (set_all two_vars fresh).0 m.environ
load_values-set_all_example =
    load_values-set_all two_vars 2 fresh untouched (ground arith) (omega arith) fresh-IsSynced

-- A terminal whose keyboard writes IAC GA.
abbrev quiet_terminal : Terminal
quiet_terminal = record {
  now = 0;
  binary = record { binary_encode = false; binary_decode = false };
  lock = new_keyboard_lock;
  keyboard_prompts = 1;
  printer_prompts = 1;
  input = [];
  output = [];
  options = [];
  events = [];
}

prompt_commands_follow_example :
    Switches 239 249
      (eor_post_send active quiet_terminal).keyboard_prompts
      (eor_post_send inactive quiet_terminal).keyboard_prompts
      1
    × Switches 249 239
        (suppress_go_ahead_post_send inactive quiet_terminal).keyboard_prompts
        (suppress_go_ahead_post_send active quiet_terminal).keyboard_prompts
        1
prompt_commands_follow_example = prompt_commands_follow quiet_terminal (omega arith)
