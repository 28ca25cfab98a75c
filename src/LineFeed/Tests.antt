-- ===== src/LineFeed/Tests.antt =====
-- The line editor on concrete keys.
use telnet.Prelude.{ℕ, ◌+◌, ◌≡◌, refl, true, false, none, some, List, [], ◌∷◌, arith}
use telnet.LineFeed.{
  FeedData, text_in, control_in, csi_in, line_out, LineFeed, LineFeedConfig, new_line_feed,
  insert_data,
}
use telnet.LineFeed.Keys.{line_in}
use telnet.LineFeed.Holds.{BecomesLine}
use telnet.LineFeed.Edit.{line_in-BecomesLine}
use telnet.LineFeed.Session.{empty_line, press_lines, AllTyped, line_ins}
use telnet.LineFeed.Bound.{Fits, line_ins-Fits}
use telnet.LineFeed.Zipper.{Line, press_line}

-- Numbers of one digit.
abbrev digit : ℕ → List ℕ
digit n = (48 + n) ∷ []

abbrev three_runes : LineFeedConfig
three_runes = record { max_length = 3; character_mode = false; suppress_local_echo = false }

-- `ac`, cursor back, `b`, a bell sequence, too long a text, delete, return.
abbrev keys : List FeedData
keys =
    text_in ((97, 1) ∷ (99, 1) ∷ [])
    ∷ csi_in b'D' none ((27, 1) ∷ (91, 1) ∷ (68, 1) ∷ [])
    ∷ text_in ((98, 1) ∷ (120, 1) ∷ [])
    ∷ csi_in b'~' (some 3) ((27, 1) ∷ (91, 1) ∷ (51, 1) ∷ (126, 1) ∷ [])
    ∷ control_in 13
    ∷ text_in ((100, 1) ∷ [])
    ∷ []

-- `ac` with the cursor between.
abbrev two_runes : Line
two_runes = record {
  before = (97, true) ∷ [];
  after = (99, true) ∷ [];
  after_return = false;
  outs = [];
}

abbrev two_runes_feed : LineFeed
two_runes_feed = record {
  config = three_runes;
  just_pushed_cr = false;
  cursor_pos = 1;
  current_line = 97 ∷ 99 ∷ [];
  visible_indices = 0 ∷ 1 ∷ [];
  echoed = [];
  sent = [];
}

line_in-BecomesLine_example :
    BecomesLine three_runes
      (press_line 3 (text_in ((98, 1) ∷ (120, 1) ∷ [])) two_runes)
      (line_in digit (text_in ((98, 1) ∷ (120, 1) ∷ [])) two_runes_feed)
line_in-BecomesLine_example =
    line_in-BecomesLine digit three_runes two_runes two_runes_feed
      (text_in ((98, 1) ∷ (120, 1) ∷ []))
      (record { line = refl; indices = refl; cursor = refl; starts = refl; kept = refl })
      ((refl, (refl, tt)), omega arith) refl

keys-AllTyped : AllTyped keys
keys-AllTyped = (
  ((refl, (refl, tt)), omega arith),
  (
    ((refl, (refl, (refl, tt))), omega arith),
    (
      ((refl, (refl, tt)), omega arith),
      (((refl, (refl, (refl, (refl, tt)))), omega arith), (tt, (((refl, tt), omega arith), tt))),
    ),
  ),
)

line_ins-Fits_example : Fits 3 (line_ins digit keys (new_line_feed three_runes))
line_ins-Fits_example = line_ins-Fits digit three_runes keys keys-AllTyped refl (omega arith)

-- The line that is sent is `ab` with its end.
keys_test : (press_lines 3 keys empty_line).outs ≡ line_out (97 ∷ 98 ∷ 13 ∷ 10 ∷ []) ∷ []
keys_test = refl

-- A rune of two bytes and another: the second is to be inserted two places on.
wide_test : insert_data digit ((233, 2) ∷ (97, 1) ∷ []) true (new_line_feed three_runes) ≡ none
unfolding insert_data new_line_feed
wide_test = refl
