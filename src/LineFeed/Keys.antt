-- ===== src/LineFeed/Keys.antt =====
-- utils/linefeed.go: moving, deleting and sending the line, and what is read.
use telnet.Prelude.{
  ℕ, suc, ◌+◌, ◌-◌, Bool, true, false, not, ◌&&◌, ◌||◌, Option, none, some, List, [], ◌∷◌, ◌++◌,
  ◌==◌, map, min, if◌then◌else◌, length, get_elem?, take, drop, ltb, leb,
}
use telnet.LineFeed.{
  Runes, FeedData, text_in, control_in, csi_in, other_in, echo_text, echo_control, line_out,
  passed_out, LineFeed, echo, clear_rest, cursor_sequence, insert_data, position,
}

-- The loop that lowers the indices behind the one that is taken out.
abbrev pub lower_from : ℕ → ℕ → List ℕ → List ℕ
lower_from cursor n indices = take cursor indices ++ map (λ i. i - n) (drop (suc cursor) indices)

abbrev pub param_or : ℕ → Option ℕ → ℕ
param_or default none = default
param_or default (some n) = n

abbrev pub is_delete : ℕ → Option ℕ → Bool
is_delete command none = false
is_delete command (some n) = command == b'~' && n == 3

abbrev pub pass_on : FeedData → LineFeed → LineFeed
pass_on d l = record l { sent = l.sent ++ (passed_out d ∷ []) }

abbrev pub is_return : FeedData → Bool
is_return (control_in code) = code == 13
is_return _ = false

unfoldable pub flush : Bool → LineFeed → LineFeed
flush newline l = elim l.current_line [
  | [] ↦ l
  | r ∷ line ↦ record l {
    sent = l.sent ++ (line_out (if newline then (r ∷ line) ++ (13 ∷ 10 ∷ []) else r ∷ line) ∷ []);
    cursor_pos = 0;
    current_line = [];
    visible_indices = [];
  }
]

abbrev pub echo_newline : LineFeed → LineFeed
echo_newline l = echo (echo_control 10) (echo (echo_control 13) l)

module _ (itoa : ℕ → List ℕ) where
  -- `moveCursor` forward and backward, with whether the cursor moved.
  unfoldable pub move_forward : ℕ → LineFeed → LineFeed × Bool
  unfolding echo
  move_forward delta l =
      let pos = min (l.cursor_pos + delta) (length l.visible_indices) in
      let moved : LineFeed = record l { cursor_pos = pos } in
      if ltb l.cursor_pos pos
      then (echo (echo_text (cursor_sequence itoa (pos - l.cursor_pos) b'C')) moved, true)
      else if ltb pos l.cursor_pos
      then (echo (echo_text (cursor_sequence itoa (l.cursor_pos - pos) b'D')) moved, true)
      else (moved, false)

  unfoldable pub move_backward : ℕ → LineFeed → LineFeed × Bool
  unfolding echo
  move_backward delta l =
      let pos = min (l.cursor_pos - delta) (length l.visible_indices) in
      let moved : LineFeed = record l { cursor_pos = pos } in
      if ltb pos l.cursor_pos
      then (echo (echo_text (cursor_sequence itoa (l.cursor_pos - pos) b'D')) moved, true)
      else (moved, false)

  unfoldable pub echo_deleted : ℕ → LineFeed → LineFeed
  unfolding echo
  echo_deleted text_pos l =
      let behind = length l.visible_indices - l.cursor_pos in
      echo
        (echo_text (
          clear_rest
          ++ (drop text_pos l.current_line
              ++ (if ltb 0 behind then cursor_sequence itoa behind b'D' else []))))
        l

  unfoldable pub delete_at_cursor : LineFeed → Option LineFeed
  unfolding echo_deleted position
  delete_at_cursor l = elim (get_elem? l.visible_indices l.cursor_pos) [
    | none ↦ some l
    | some text_pos ↦
        let next_pos = position (l.cursor_pos + 1) l in
        if leb text_pos next_pos && leb next_pos (length l.current_line)
        then some (
            echo_deleted text_pos (record l {
              current_line = take text_pos l.current_line ++ drop next_pos l.current_line;
              visible_indices = lower_from l.cursor_pos (next_pos - text_pos) l.visible_indices;
            }))
        else none
  ]

  unfoldable pub backspace : LineFeed → Option LineFeed
  unfolding move_backward delete_at_cursor
  backspace l =
      let (moved, did) = move_backward 1 l in if did then delete_at_cursor moved else some moved

  unfoldable pub control_code_in : ℕ → LineFeed → Option LineFeed
  unfolding echo flush backspace
  control_code_in code l =
      if code == 13
      then some (flush true (echo_newline (record l { just_pushed_cr = true })))
      else if code == 10
      then some (if not l.just_pushed_cr then flush true (echo_newline l) else l)
      else if code == 127 || code == 8
      then backspace l
      else some l

  unfoldable pub csi_sequence_in : ℕ → Option ℕ → Runes → LineFeed → Option LineFeed
  unfolding move_forward move_backward delete_at_cursor insert_data
  csi_sequence_in command param sequence l =
      if command == b'C'
      then some (move_forward (param_or 1 param) l).0
      else if command == b'D'
      then some (move_backward (param_or 1 param) l).0
      else if is_delete command param
      then delete_at_cursor l
      else insert_data itoa sequence false l

  unfoldable pub edit : FeedData → LineFeed → Option LineFeed
  unfolding insert_data control_code_in csi_sequence_in
  edit (text_in rs) l = insert_data itoa rs true l
  edit (control_in code) l = control_code_in code l
  edit (csi_in command param sequence) l = csi_sequence_in command param sequence l
  edit (other_in rs) l = insert_data itoa rs false l

  -- `LineIn`
  unfoldable pub line_in : FeedData → LineFeed → Option LineFeed
  unfolding edit
  line_in d l =
      if l.config.character_mode
      then some (if is_return d then pass_on (control_in 10) (pass_on d l) else pass_on d l)
      else elim (edit d l) [
        | none ↦ none
        | some m ↦ some (if l.just_pushed_cr then record m { just_pushed_cr = false } else m)
      ]
