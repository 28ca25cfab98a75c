-- ===== src/LineFeed/Bound.antt =====
-- utils/linefeed.go: the limit of the visible text, kept by every key.
use telnet.Prelude.{
  ℕ, suc, ◌+◌, ◌-◌, ◌<◌, ◌≤◌, ◌≡◌, refl, sym, ap, ◌∙◌, subst, Bool, true, false, not, ◌||◌, ◌==◌,
  Option, none, some, List, [], ◌∷◌, ◌++◌, length, length-append, length-take, arith, if◌then◌else◌,
  either_branch,
}
use telnet.LineFeed.{
  Runes, FeedData, text_in, control_in, csi_in, other_in, LineFeed, LineFeedConfig, new_line_feed,
}
use telnet.LineFeed.Keys.{param_or, is_delete}
use telnet.LineFeed.Cells.{Cells, runes, shown, split_append, shown-append, drop_hidden}
use telnet.LineFeed.Insert.{shown-cells_hidden}
use telnet.LineFeed.Limit.{visible_count}
use telnet.LineFeed.Holds.{BecomesLine}
use telnet.LineFeed.Session.{
  AllTyped, press_lines, line_ins, empty_line, line_ins-BecomesLine, new_line_feed-Holds,
}
use telnet.LineFeed.Zipper.{
  Line, cells, admitted, whole, type_in, go_to, delete, delete_first, send_line, send_runes, erase,
  erase_last, press, press_line,
}

abbrev Within : ℕ → Line → Type 0
Within max_length z = length (shown (whole z)) ≤ max_length

length-shown : (a b : Cells) → length (shown (a ++ b)) ≡ length (shown a) + length (shown b)
length-shown a b = ap length (shown-append a b) ∙ length-append (shown a) (shown b)

length-cells : (rs : Runes) → length (shown (cells true rs)) ≡ length rs
length-cells [] = refl
length-cells (r ∷ rs) = ap suc (length-cells rs)

-- A limited text fits into what is left.
admitted_fits :
    (max_length count : ℕ) (visible : Bool) (rs : Runes)
    → 0 < max_length
    → count ≤ max_length
    → count + length (shown (cells visible (admitted max_length count visible rs))) ≤ max_length
admitted_fits max_length count false rs h fits =
    omega (arith, ap length (shown-cells_hidden (admitted max_length count false rs)))
admitted_fits max_length count true rs h fits =
    ground
      (arith, length-cells (admitted max_length count true rs), length-take (max_length - count) rs)

type_in-Within :
    (max_length : ℕ) (visible : Bool) (rs : Runes) (z : Line)
    → 0 < max_length
    → Within max_length z
    → Within max_length (type_in max_length visible rs z)
type_in-Within max_length visible rs z h fits =
    let new : Cells = cells visible (admitted max_length (length (shown (whole z))) visible rs) in
    omega (
      arith,
      admitted_fits max_length (length (shown (whole z))) visible rs h fits,
      length-shown (z.before ++ new) z.after,
      length-shown z.before new,
      length-shown z.before z.after,
    )

go_to-Within : (max_length k : ℕ) (z : Line) → Within max_length z → Within max_length (go_to k z)
go_to-Within max_length k z fits =
    subst (λ line. length (shown line) ≤ max_length) (sym (split_append k (whole z))) fits

shown-drop_hidden : (cs : Cells) → shown (drop_hidden cs) ≡ shown cs
shown-drop_hidden [] = refl
shown-drop_hidden ((r, true) ∷ cs) = refl
shown-drop_hidden ((r, false) ∷ cs) = shown-drop_hidden cs

length-shown_tail : (c : ℕ × Bool) (cs : Cells) → length (shown cs) ≤ length (shown (c ∷ cs))
length-shown_tail (r, true) cs = omega arith
length-shown_tail (r, false) cs = omega arith

delete_first-Within :
    (max_length : ℕ) (after : Cells) (z : Line)
    → z.after ≡ after
    → Within max_length z
    → Within max_length (delete_first after z)
delete_first-Within max_length [] z e fits = fits
delete_first-Within max_length (c ∷ cs) z e fits = omega (
  arith,
  length-shown z.before z.after,
  length-shown z.before (drop_hidden cs),
  length-shown_tail c cs,
  ap (λ a. length (shown a)) e,
  ap length (shown-drop_hidden cs),
)

send_runes-Within :
    (max_length : ℕ) (line : List ℕ) (z : Line)
    → Within max_length z
    → Within max_length (send_runes line z)
send_runes-Within max_length [] z fits = fits
send_runes-Within max_length (r ∷ line) z fits = omega arith

erase_last-Within :
    (max_length : ℕ) (seen : List ℕ) (z : Line)
    → Within max_length z
    → Within max_length (erase_last seen z)
erase_last-Within max_length [] z fits = fits
erase_last-Within max_length (r ∷ seen) z fits =
    delete_first-Within max_length (go_to (length seen) z).after (go_to (length seen) z) refl
      (go_to-Within max_length (length seen) z fits)

press-Within :
    (max_length : ℕ) (d : FeedData) (z : Line)
    → 0 < max_length
    → Within max_length z
    → Within max_length (press max_length d z)
press-Within max_length (text_in rs) z h fits = type_in-Within max_length true rs z h fits
press-Within max_length (control_in code) z h fits =
    either_branch (Within max_length) (code == 13) (send_line (record z { after_return = true }))
      (if code == 10
        then (if not z.after_return then send_line z else z)
        else if code == 127 || code == 8
        then erase z
        else z)
      (send_runes-Within max_length (runes (whole z)) (record z { after_return = true }) fits)
      (either_branch (Within max_length) (code == 10)
        (if not z.after_return then send_line z else z)
        (if code == 127 || code == 8 then erase z else z)
        (either_branch (Within max_length) (not z.after_return) (send_line z) z
          (send_runes-Within max_length (runes (whole z)) z fits) fits)
        (either_branch (Within max_length) (code == 127 || code == 8) (erase z) z
          (erase_last-Within max_length (shown z.before) z fits) fits))
press-Within max_length (csi_in command param sequence) z h fits =
    let typed : Line = type_in max_length false sequence z in
    let forward : Line = go_to (length (shown z.before) + param_or 1 param) z in
    let backward : Line = go_to (length (shown z.before) - param_or 1 param) z in
    either_branch (Within max_length) (command == b'C') forward
      (if command == b'D' then backward else if is_delete command param then delete z else typed)
      (go_to-Within max_length (length (shown z.before) + param_or 1 param) z fits)
      (either_branch (Within max_length) (command == b'D') backward
        (if is_delete command param then delete z else typed)
        (go_to-Within max_length (length (shown z.before) - param_or 1 param) z fits)
        (either_branch (Within max_length) (is_delete command param) (delete z) typed
          (delete_first-Within max_length z.after z refl fits)
          (type_in-Within max_length false sequence z h fits)))
press-Within max_length (other_in rs) z h fits = type_in-Within max_length false rs z h fits

press_lines-Within :
    (max_length : ℕ) (ds : List FeedData) (z : Line)
    → 0 < max_length
    → Within max_length z
    → Within max_length (press_lines max_length ds z)
press_lines-Within max_length [] z h fits = fits
press_lines-Within max_length (d ∷ ds) z h fits =
    press_lines-Within max_length ds (press_line max_length d z) h (
      either_branch (Within max_length) z.after_return
        (record (press max_length d z) { after_return = false }) (press max_length d z)
        (press-Within max_length d z h fits) (press-Within max_length d z h fits))

abbrev pub Fits : ℕ → Option LineFeed → Type 0
Fits max_length none = ⊥
Fits max_length (some l) = length l.visible_indices ≤ max_length

limited :
    (config : LineFeedConfig) (z : Line) (o : Option LineFeed)
    → BecomesLine config z o
    → Within config.max_length z
    → Fits config.max_length o
limited config z none absent fits = absent
limited config z (some l) r fits =
    omega (arith, fits, visible_count z.before z.after (config, (z.after_return, z.outs)) l r)

module _ (itoa : ℕ → List ℕ) where
  -- With a limit of the length, any such keys from a new editor that is not in character mode leave
  -- at most so many visible runes.
  pub line_ins-Fits :
      (config : LineFeedConfig) (ds : List FeedData)
      → AllTyped ds
      → config.character_mode ≡ false
      → 0 < config.max_length
      → Fits config.max_length (line_ins itoa ds (new_line_feed config))
  line_ins-Fits config ds typed lines h =
      limited config (press_lines config.max_length ds empty_line)
        (line_ins itoa ds (new_line_feed config))
        (line_ins-BecomesLine itoa config empty_line (new_line_feed config) ds
          (new_line_feed-Holds config) typed lines)
        (press_lines-Within config.max_length ds empty_line h (omega arith))
