-- ===== src/LineFeed/Moves.antt =====
-- utils/linefeed.go: moving the cursor and deleting.
use telnet.Prelude.{
  drop-append_behind, ℕ, suc, ◌+◌, ◌-◌, ◌≡◌, refl, sym, ap, ap₂, ◌∙◌, true, false, none, some, List,
  [], ◌∷◌, ◌++◌, map, length, take, drop, get_elem?, min, arith, if◌then◌else◌, Bool-cases, leb,
  ltb, inl, inr, length-append, take-append,
}
use telnet.LineFeed.{LineFeed, echo, echo_text, cursor_sequence, position, clear_rest}
use telnet.LineFeed.Keys.{move_forward, move_backward, delete_at_cursor, lower_from}
use telnet.LineFeed.Cells.{
  Cells, runes, shown, positions, split, split_append, split-StartsShown, length-split, drop_hidden,
  count_hidden, length-positions, length-runes, drop_hidden-StartsShown, positions-drop_hidden,
  drop-count_hidden, count_hidden-length, positions-append_start, positions-lower, positions-cong,
  runes-append, shown-append,
}
use telnet.LineFeed.Represents.{
  Represents, Kept, Becomes, echo-Represents, position_at, place, index_at, line_length,
}
use telnet.LineFeed.Limit.{visible_count}

-- The cursor before the visible cell of that number.
abbrev pub Goes : ℕ → Cells → Cells → Kept → LineFeed → Type 0
Goes n before after = Represents (split n (before ++ after)).0 (split n (before ++ after)).1

goes :
    (before after : Cells) (k : Kept) (l : LineFeed) (n pos : ℕ)
    → Represents before after k l
    → pos ≡ min n (length l.visible_indices)
    → Goes n before after k (record l { cursor_pos = pos })
goes before after k l n pos r e =
    let whole : before ++ after ≡ (split n (before ++ after)).0 ++ (split n (before ++ after)).1 =
      sym (split_append n (before ++ after)) in
    record {
      line = r.line ∙ ap runes whole;
      indices = r.indices ∙ ap (positions 0) whole;
      cursor =
          e
          ∙ (ap (min n) (visible_count before after k l r)
              ∙ sym (length-split n (before ++ after)));
      starts = split-StartsShown n (before ++ after);
      kept = r.kept;
    }

-- The place of the first visible rune, or the end.
place_first :
    (k end : ℕ) (after : Cells)
    → end ≡ k + length after
    → place end (positions k after) 0 ≡ k + count_hidden after
place_first k end [] e = e
place_first k end ((r, true) ∷ after) e = omega arith
place_first k end ((r, false) ∷ after) e =
    place_first (suc k) end after (omega (arith, e)) ∙ omega arith

deleted_line :
    (before after : Cells) (c : ℕ) (k : Kept) (l : LineFeed)
    → Represents before ((c, true) ∷ after) k l
    → take (length before) l.current_line
        ++ drop (length before + suc (count_hidden after)) l.current_line
      ≡ runes (before ++ drop_hidden after)
deleted_line before after c k l r =
    let line : l.current_line ≡ runes before ++ (c ∷ runes after) =
      r.line ∙ runes-append before ((c, true) ∷ after) in
    ap₂ ◌++◌
      (ap₂ take (sym (length-runes before)) line ∙ take-append (runes before) (c ∷ runes after))
      (ap (drop (length before + suc (count_hidden after))) line
        ∙ (drop-append_behind (runes before) (c ∷ runes after)
              (length before + suc (count_hidden after)) (suc (count_hidden after))
              (omega (arith, length-runes before))
            ∙ drop-count_hidden after))
    ∙ sym (runes-append before (drop_hidden after))

deleted_indices :
    (before after : Cells) (c : ℕ) (k : Kept) (l : LineFeed)
    → Represents before ((c, true) ∷ after) k l
    → lower_from l.cursor_pos
        ((length before + suc (count_hidden after)) - length before)
        l.visible_indices
      ≡ positions 0 (before ++ drop_hidden after)
deleted_indices before after c k l r =
    let indices : l.visible_indices
        ≡ positions 0 before ++ (length before ∷ positions (suc (length before)) after) =
      r.indices ∙ positions-append_start before ((c, true) ∷ after) in
    let count : l.cursor_pos ≡ length (positions 0 before) =
      r.cursor ∙ sym (length-positions 0 before) in
    ap₂ ◌++◌
      (ap₂ take count indices
        ∙ take-append (positions 0 before) (length before ∷ positions (suc (length before)) after))
      (ap₂ (λ n ps. map (λ i. i - n) ps)
          (let n : (length before + suc (count_hidden after)) - length before
                ≡ suc (count_hidden after) =
              omega arith in
            n)
          (ap (drop (suc l.cursor_pos)) indices
            ∙ (drop-append_behind (positions 0 before)
                  (length before ∷ positions (suc (length before)) after) (suc l.cursor_pos) 1
                  (omega (arith, count))
                ∙ (positions-drop_hidden (suc (length before)) after
                    ∙ positions-cong (drop_hidden after) (omega arith))))
        ∙ positions-lower (suc (count_hidden after)) (length before) (drop_hidden after))
    ∙ sym (positions-append_start before (drop_hidden after))

module _ (itoa : ℕ → List ℕ) where
  echoed :
      (n : ℕ) (before after : Cells) (k : Kept) (pos delta letter : ℕ) (l : LineFeed)
      → Goes n before after k (record l { cursor_pos = pos })
      → Goes n before after k
          (echo (echo_text (cursor_sequence itoa delta letter)) (record l { cursor_pos = pos }))
  echoed n before after k pos delta letter l r =
      echo-Represents (split n (before ++ after)).0 (split n (before ++ after)).1 k
        (echo_text (cursor_sequence itoa delta letter)) (record l { cursor_pos = pos }) r

  pub move_forward-Goes :
      (before after : Cells) (k : Kept) (l : LineFeed) (d : ℕ)
      → Represents before after k l
      → Goes (length (shown before) + d) before after k (move_forward itoa d l).0
  unfolding move_forward
  move_forward-Goes before after k l d r =
      let n : ℕ = length (shown before) + d in
      let pos : ℕ = min (l.cursor_pos + d) (length l.visible_indices) in
      let moved : Goes n before after k (record l { cursor_pos = pos }) =
        goes before after k l n pos r (omega (arith, r.cursor)) in
      elim (Bool-cases (ltb l.cursor_pos pos)) [
        | inl ahead ↦
            rw (ahead, move_forward) (echoed n before after k pos (pos - l.cursor_pos) b'C' l moved)
        | inr stays ↦ elim (Bool-cases (ltb pos l.cursor_pos)) [
          | inl back ↦
              rw (stays, back, move_forward)
                (echoed n before after k pos (l.cursor_pos - pos) b'D' l moved)
          | inr still ↦ rw (stays, still, move_forward) moved
        ]
      ]

  pub move_backward-Goes :
      (before after : Cells) (k : Kept) (l : LineFeed) (d : ℕ)
      → Represents before after k l
      → Goes (length (shown before) - d) before after k (move_backward itoa d l).0
  unfolding move_backward
  move_backward-Goes before after k l d r =
      let n : ℕ = length (shown before) - d in
      let pos : ℕ = min (l.cursor_pos - d) (length l.visible_indices) in
      let moved : Goes n before after k (record l { cursor_pos = pos }) =
        goes before after k l n pos r (omega (arith, r.cursor)) in
      elim (Bool-cases (ltb pos l.cursor_pos)) [
        | inl back ↦
            rw (back, move_backward) (echoed n before after k pos (l.cursor_pos - pos) b'D' l moved)
        | inr still ↦ rw (still, move_backward) moved
      ]

  -- Whether there was a visible rune to go back over.
  pub move_backward_one :
      (before after : Cells) (k : Kept) (l : LineFeed)
      → Represents before after k l
      → (move_backward itoa 1 l).1 ≡ ltb 0 (length (shown before))
  unfolding move_backward
  move_backward_one before after k l r =
      let count : length l.visible_indices ≡ length (shown before) + length (shown after) =
        visible_count before after k l r
        ∙ (ap length (shown-append before after) ∙ length-append (shown before) (shown after)) in
      elim (Bool-cases (ltb (min (l.cursor_pos - 1) (length l.visible_indices)) l.cursor_pos)) [
        | inl back ↦ rw (back, move_backward) (ground (arith, count, r.cursor))
        | inr still ↦ rw (still, move_backward) (ground (arith, count, r.cursor))
      ]

  pub delete_at_cursor_end :
      (before : Cells) (k : Kept) (l : LineFeed)
      → Represents before [] k l
      → Becomes before [] k (delete_at_cursor itoa l)
  unfolding delete_at_cursor
  delete_at_cursor_end before k l r =
      let nothing : get_elem? l.visible_indices l.cursor_pos ≡ none =
        index_at before [] k l l.cursor_pos 0 r (omega arith) in
      rw (nothing, delete_at_cursor) r

  pub delete_at_cursor-Becomes :
      (before after : Cells) (c : ℕ) (k : Kept) (l : LineFeed)
      → Represents before ((c, true) ∷ after) k l
      → Becomes before (drop_hidden after) k (delete_at_cursor itoa l)
  unfolding delete_at_cursor
  delete_at_cursor-Becomes before after c k l r =
      let first : get_elem? l.visible_indices l.cursor_pos ≡ some (length before) =
        index_at before ((c, true) ∷ after) k l l.cursor_pos 0 r (omega arith) in
      let next : position (l.cursor_pos + 1) l ≡ length before + suc (count_hidden after) =
        position_at before ((c, true) ∷ after) k l (l.cursor_pos + 1) 1 r refl
        ∙ (place_first (suc (length before)) (length before + suc (length after)) after
              (omega arith)
            ∙ omega arith) in
      let within : leb (length before) (length before + suc (count_hidden after)) ≡ true =
        ground arith in
      let inside : leb (length before + suc (count_hidden after)) (length l.current_line) ≡ true =
        ground (arith, line_length before ((c, true) ∷ after) k l r, count_hidden-length after) in
      let shorter : LineFeed = record l {
        current_line =
            take (length before) l.current_line
            ++ drop (length before + suc (count_hidden after)) l.current_line;
        visible_indices =
            lower_from l.cursor_pos ((length before + suc (count_hidden after)) - length before)
              l.visible_indices;
      } in
      rw (first, next, within, inside, delete_at_cursor)
        (echo-Represents before (drop_hidden after) k
          (echo_text (
            clear_rest
            ++ (drop (length before) shorter.current_line
                ++ (if ltb 0 (length shorter.visible_indices - shorter.cursor_pos)
                    then cursor_sequence itoa (length shorter.visible_indices - shorter.cursor_pos)
                        b'D'
                    else []))))
          shorter
          (record {
            line = deleted_line before after c k l r;
            indices = deleted_indices before after c k l r;
            cursor = r.cursor;
            starts = drop_hidden-StartsShown after;
            kept = r.kept;
          }))
