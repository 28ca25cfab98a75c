-- ===== src/LineFeed/Edit.antt =====
-- utils/linefeed.go: a key does to the editor what it does to its line.
use telnet.Prelude.{
  ℕ, ◌+◌, ◌-◌, ◌≡◌, refl, sym, ap, ◌∙◌, subst, true, false, not, ◌||◌, ◌==◌, Option, none, some,
  List, length, if◌then◌else◌,
}
use telnet.LineFeed.{
  Runes, FeedData, text_in, control_in, csi_in, other_in, LineFeed, LineFeedConfig, echo,
  echo_control, insert_data,
}
use telnet.LineFeed.Keys.{
  move_forward, move_backward, delete_at_cursor, flush, backspace, control_code_in, csi_sequence_in,
  edit, line_in, param_or, is_delete, echo_newline, is_return, pass_on,
}
use telnet.LineFeed.Cells.{shown}
use telnet.LineFeed.Represents.{Kept, echo-Represents}
use telnet.LineFeed.Moves.{move_forward-Goes, move_backward-Goes}
use telnet.LineFeed.Zipper.{
  Line, type_in, go_to, delete, send_line, erase, press_control, press_csi, press, press_line,
}
use telnet.LineFeed.Holds.{
  Holds, BecomesLine, Plain, Typed, branches-Holds, branches-BecomesLine, return_done, unless,
  flush-Holds, insert-BecomesLine, delete-BecomesLine, backspace_at,
}

module _ (itoa : ℕ → List ℕ) where
  newline-Holds :
      (config : LineFeedConfig) (z : Line) (l : LineFeed)
      → Holds config z l
      → Holds config z (echo_newline l)
  newline-Holds config z l r =
      let k : Kept = (config, (z.after_return, z.outs)) in
      echo-Represents z.before z.after k (echo_control 10) (echo (echo_control 13) l)
        (echo-Represents z.before z.after k (echo_control 13) l r)

  control-BecomesLine :
      (config : LineFeedConfig) (z : Line) (l : LineFeed) (code : ℕ)
      → Holds config z l
      → BecomesLine config (press_control code z) (control_code_in itoa code l)
  unfolding control_code_in
  control-BecomesLine config z l code r =
      let pushed : Holds config (record z { after_return = true })
          (record l { just_pushed_cr = true }) =
        record {
          line = r.line;
          indices = r.indices;
          cursor = r.cursor;
          starts = r.starts;
          kept = ap (λ k. (k.0, (true, k.1.1))) r.kept;
        } in
      let lined : Holds config (if not l.just_pushed_cr then send_line z else z)
          (if not l.just_pushed_cr then flush true (echo_newline l) else l) =
        branches-Holds config (not l.just_pushed_cr) (send_line z) z (flush true (echo_newline l)) l
          (flush-Holds config z (echo_newline l) (newline-Holds config z l r)) r in
      branches-BecomesLine config (code == 13) (send_line (record z { after_return = true }))
        (if code == 10
          then (if not z.after_return then send_line z else z)
          else if code == 127 || code == 8
          then erase z
          else z)
        (some (flush true (echo_newline (record l { just_pushed_cr = true }))))
        (if code == 10
          then some (if not l.just_pushed_cr then flush true (echo_newline l) else l)
          else if code == 127 || code == 8
          then backspace itoa l
          else some l)
        (flush-Holds config (record z { after_return = true })
          (echo_newline (record l { just_pushed_cr = true }))
          (newline-Holds config (record z { after_return = true })
            (record l { just_pushed_cr = true }) pushed))
        (branches-BecomesLine config (code == 10) (if not z.after_return then send_line z else z)
          (if code == 127 || code == 8 then erase z else z)
          (some (if not l.just_pushed_cr then flush true (echo_newline l) else l))
          (if code == 127 || code == 8 then backspace itoa l else some l)
          (subst
            (λ b.
              Holds config (if not b then send_line z else z)
                (if not l.just_pushed_cr then flush true (echo_newline l) else l))
            (ap (λ k. k.1.0) r.kept) lined)
          (branches-BecomesLine config (code == 127 || code == 8) (erase z) z (backspace itoa l)
            (some l) (backspace_at itoa config z l (shown z.before) r refl) r))

  csi-BecomesLine :
      (config : LineFeedConfig) (z : Line) (l : LineFeed) (command : ℕ) (param : Option ℕ)
      (sequence : Runes)
      → Holds config z l
      → Plain sequence
      → BecomesLine config
          (press_csi config.max_length command param sequence z)
          (csi_sequence_in itoa command param sequence l)
  unfolding csi_sequence_in
  csi-BecomesLine config z l command param sequence r plain =
      let k : Kept = (config, (z.after_return, z.outs)) in
      let forward : Line = go_to (length (shown z.before) + param_or 1 param) z in
      let backward : Line = go_to (length (shown z.before) - param_or 1 param) z in
      let typed : Line = type_in config.max_length false sequence z in
      branches-BecomesLine config (command == b'C') forward
        (if command == b'D' then backward else if is_delete command param then delete z else typed)
        (some (move_forward itoa (param_or 1 param) l).0)
        (if command == b'D'
          then some (move_backward itoa (param_or 1 param) l).0
          else if is_delete command param
          then delete_at_cursor itoa l
          else insert_data itoa sequence false l)
        (move_forward-Goes itoa z.before z.after k l (param_or 1 param) r)
        (branches-BecomesLine config (command == b'D') backward
          (if is_delete command param then delete z else typed)
          (some (move_backward itoa (param_or 1 param) l).0)
          (if is_delete command param
            then delete_at_cursor itoa l
            else insert_data itoa sequence false l)
          (move_backward-Goes itoa z.before z.after k l (param_or 1 param) r)
          (branches-BecomesLine config (is_delete command param) (delete z) typed
            (delete_at_cursor itoa l) (insert_data itoa sequence false l)
            (delete-BecomesLine itoa config z l r)
            (insert-BecomesLine itoa config z l false sequence r plain)))

  edit-BecomesLine :
      (config : LineFeedConfig) (z : Line) (l : LineFeed) (d : FeedData)
      → Holds config z l
      → Typed d
      → BecomesLine config (press config.max_length d z) (edit itoa d l)
  unfolding edit
  edit-BecomesLine config z l (text_in rs) r typed =
      insert-BecomesLine itoa config z l true rs r typed
  edit-BecomesLine config z l (control_in code) r typed = control-BecomesLine config z l code r
  edit-BecomesLine config z l (csi_in command param sequence) r typed =
      csi-BecomesLine config z l command param sequence r typed
  edit-BecomesLine config z l (other_in rs) r typed =
      insert-BecomesLine itoa config z l false rs r typed

  -- Out of character mode, on an editor that holds a line of shown and hidden cells with a cursor
  -- in it, LineIn of any control code, or of a text, CSI sequence or other sequence that is not
  -- empty and has only runes of one byte, does not panic and leaves the editor holding what the key
  -- makes of that line: typed cells before the cursor, as many as the limit of the length admits,
  -- the cursor moved, the cell at or before it taken out with the hidden cells behind it, or the
  -- line sent and emptied.
  pub line_in-BecomesLine :
      (config : LineFeedConfig) (z : Line) (l : LineFeed) (d : FeedData)
      → Holds config z l
      → Typed d
      → config.character_mode ≡ false
      → BecomesLine config (press_line config.max_length d z) (line_in itoa d l)
  unfolding line_in
  line_in-BecomesLine config z l d r typed lines =
      let mode : l.config.character_mode ≡ false = ap (λ k. k.0.character_mode) r.kept ∙ lines in
      let pressed : Line = press config.max_length d z in
      unless config (press_line config.max_length d z) l.config.character_mode
        (some (if is_return d then pass_on (control_in 10) (pass_on d l) else pass_on d l))
        (elim (edit itoa d l) [
          | none ↦ none
          | some m ↦ some (if l.just_pushed_cr then record m { just_pushed_cr = false } else m)
        ])
        mode
        (subst
          (λ b. BecomesLine config (press_line config.max_length d z) (elim (edit itoa d l) [
            | none ↦ none
            | some m ↦ some (if b then record m { just_pushed_cr = false } else m)
          ]))
          (sym (ap (λ k. k.1.0) r.kept))
          (return_done config pressed z.after_return (edit itoa d l)
            (edit-BecomesLine config z l d r typed)))
