-- ===== src/LineFeed/Zipper.antt =====
-- What the editor promises: a line of cells with a place in it, and what a key does to it.
use telnet.Prelude.{
  ℕ, ◌+◌, ◌-◌, Bool, true, false, not, ◌&&◌, ◌||◌, List, [], ◌∷◌, ◌++◌, ◌==◌, map, if◌then◌else◌,
  length, take, ltb, leb, Option,
}
use telnet.LineFeed.{Runes, FeedData, text_in, control_in, csi_in, other_in, Out, line_out}
use telnet.LineFeed.Cells.{Cells, runes, shown, drop_hidden, split}
use telnet.LineFeed.Keys.{param_or, is_delete}

-- The cells before the cursor and from it on; whether a return was the last key; what was sent.
pub record Line : Type 0 where
  pub before : Cells
  pub after : Cells
  pub after_return : Bool
  pub outs : List Out

abbrev pub cells : Bool → Runes → Cells
cells visible rs = map (λ r. (r.0, visible)) rs

-- What the limit of the length leaves of a text.
abbrev pub admitted : ℕ → ℕ → Bool → Runes → Runes
admitted max_length count visible rs =
    if ltb 0 max_length && leb max_length count
    then []
    else if ltb 0 max_length && visible && ltb max_length (count + length rs)
    then take (max_length - count) rs
    else rs

abbrev pub whole : Line → Cells
whole z = z.before ++ z.after

abbrev pub type_in : ℕ → Bool → Runes → Line → Line
type_in max_length visible rs z = record z {
  before = z.before ++ cells visible (admitted max_length (length (shown (whole z))) visible rs);
}

-- The cursor before the shown cell of that number.
abbrev pub go_to : ℕ → Line → Line
go_to k z = record z { before = (split k (whole z)).0; after = (split k (whole z)).1 }

-- The first of the cells from the cursor on, with the hidden ones behind it.
abbrev pub delete_first : Cells → Line → Line
delete_first [] z = z
delete_first (c ∷ cs) z = record z { after = drop_hidden cs }

abbrev pub delete : Line → Line
delete z = delete_first z.after z

abbrev pub send_runes : List ℕ → Line → Line
send_runes [] z = z
send_runes (r ∷ line) z = record z {
  before = [];
  after = [];
  outs = z.outs ++ (line_out ((r ∷ line) ++ (13 ∷ 10 ∷ [])) ∷ []);
}

abbrev pub send_line : Line → Line
send_line z = send_runes (runes (whole z)) z

-- `seen` is what is shown before the cursor.
abbrev pub erase_last : List ℕ → Line → Line
erase_last [] z = z
erase_last (r ∷ seen) z = delete (go_to (length seen) z)

abbrev pub erase : Line → Line
erase z = erase_last (shown z.before) z

abbrev pub press_control : ℕ → Line → Line
press_control code z =
    if code == 13
    then send_line (record z { after_return = true })
    else if code == 10
    then (if not z.after_return then send_line z else z)
    else if code == 127 || code == 8
    then erase z
    else z

abbrev pub press_csi : ℕ → ℕ → Option ℕ → Runes → Line → Line
press_csi max_length command param sequence z =
    if command == b'C'
    then go_to (length (shown z.before) + param_or 1 param) z
    else if command == b'D'
    then go_to (length (shown z.before) - param_or 1 param) z
    else if is_delete command param
    then delete z
    else type_in max_length false sequence z

abbrev pub press : ℕ → FeedData → Line → Line
press max_length (text_in rs) z = type_in max_length true rs z
press max_length (control_in code) z = press_control code z
press max_length (csi_in command param sequence) z = press_csi max_length command param sequence z
press max_length (other_in rs) z = type_in max_length false rs z

abbrev pub press_line : ℕ → FeedData → Line → Line
press_line max_length d z =
    let pressed = press max_length d z in
    if z.after_return then record pressed { after_return = false } else pressed
