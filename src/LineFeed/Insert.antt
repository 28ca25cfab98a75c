-- ===== src/LineFeed/Insert.antt =====
-- utils/linefeed.go: what the insertion does to the line.
use telnet.Prelude.{
  get_elem?-some, drop-append, ℕ, suc, ◌+◌, ◌-◌, ◌≡◌, refl, sym, ap, ap₂, ◌∙◌, Bool, true, false,
  some, List, [], ◌∷◌, ◌++◌, map, length, append_assoc, length-append, drop, arith, take-append,
  Bool-cases, leb, inl, inr,
}
use telnet.LineFeed.{
  Runes, LineFeed, echo_text, insert_runes, insert_indices, raise_from, position, insert_runes_in,
  echo_inserted, clear_rest, cursor_sequence,
}
use telnet.LineFeed.Cells.{
  Cells, runes, shown, positions, length-positions, length-runes, positions-append,
  positions-append_start, positions-raise, runes-append, shown-append,
}
use telnet.LineFeed.Represents.{
  Represents, Kept, Becomes, Narrow, position_cursor, echo-Represents, insert_runes-append,
  insert_indices-append,
}
use telnet.LineFeed.Zipper.{cells}

runes-cells : (visible : Bool) (rs : Runes) → runes (cells visible rs) ≡ map (λ r. r.0) rs
runes-cells visible [] = refl
runes-cells visible (r ∷ rs) = ap (◌∷◌ r.0) (runes-cells visible rs)

length-cells : (visible : Bool) (rs : Runes) → length (cells visible rs) ≡ length rs
length-cells visible [] = refl
length-cells visible (r ∷ rs) = ap suc (length-cells visible rs)

pub shown-cells_hidden : (rs : Runes) → shown (cells false rs) ≡ []
shown-cells_hidden [] = refl
shown-cells_hidden (r ∷ rs) = shown-cells_hidden rs

pub shown-cells : (rs : Runes) → shown (cells true rs) ≡ map (λ r. r.0) rs
shown-cells [] = refl
shown-cells (r ∷ rs) = ap (◌∷◌ r.0) (shown-cells rs)

positions-cells_hidden : (k : ℕ) (rs : Runes) → positions k (cells false rs) ≡ []
positions-cells_hidden k [] = refl
positions-cells_hidden k (r ∷ rs) = positions-cells_hidden (suc k) rs

line_of :
    (before after : Cells) (visible : Bool) (rs : Runes)
    → runes before ++ (map (λ r. r.0) rs ++ runes after)
      ≡ runes ((before ++ cells visible rs) ++ after)
line_of before after visible rs =
    ap (λ new. runes before ++ (new ++ runes after)) (sym (runes-cells visible rs))
    ∙ (ap (◌++◌ (runes before)) (sym (runes-append (cells visible rs) after))
        ∙ (sym (runes-append before (cells visible rs ++ after))
            ∙ ap runes (sym (append_assoc before (cells visible rs) after))))

indices_of :
    (before after : Cells) (visible : Bool) (rs : Runes)
    → positions 0 before
        ++ (positions (length before) (cells visible rs)
            ++ positions (length before + length rs) after)
      ≡ positions 0 ((before ++ cells visible rs) ++ after)
indices_of before after visible rs =
    ap
      (λ n.
        positions 0 before
        ++ (positions (length before) (cells visible rs) ++ positions (length before + n) after))
      (sym (length-cells visible rs))
    ∙ (ap (◌++◌ (positions 0 before))
          (sym (positions-append (length before) (cells visible rs) after))
        ∙ (sym (positions-append_start before (cells visible rs ++ after))
            ∙ ap (positions 0) (sym (append_assoc before (cells visible rs) after))))

length-map : (rs : Runes) → length (map (λ r. r.0) rs) ≡ length rs
length-map [] = refl
length-map (r ∷ rs) = ap suc (length-map rs)

-- The line with the runes in it.
inserted-line :
    (before after : Cells) (visible : Bool) (rs : Runes) (k : Kept) (l : LineFeed)
    → Represents before after k l
    → Narrow rs
    → insert_runes (position l.cursor_pos l) 0 rs l.current_line
      ≡ some (runes ((before ++ cells visible rs) ++ after))
inserted-line before after visible rs k l r narrow =
    ap (λ line. insert_runes (position l.cursor_pos l) 0 rs line)
      (r.line ∙ runes-append before after)
    ∙ (insert_runes-append (runes before) (runes after) rs (position l.cursor_pos l) 0 narrow
          (omega (arith, position_cursor before after k l r, length-runes before))
        ∙ ap some (line_of before after visible rs))

-- The indices, those behind the cursor raised.
raised :
    (before after : Cells) (n : ℕ) (k : Kept) (l : LineFeed)
    → Represents before after k l
    → raise_from l.cursor_pos n l.visible_indices
      ≡ positions 0 before ++ positions (length before + n) after
unfolding raise_from
raised before after n k l r =
    ap₂ (λ c ps. raise_from c n ps) (r.cursor ∙ sym (length-positions 0 before))
      (r.indices ∙ positions-append_start before after)
    ∙ ap₂ ◌++◌ (take-append (positions 0 before) (positions (length before) after)) (
        ap (map (λ i. i + n)) (drop-append (positions 0 before) (positions (length before) after))
        ∙ positions-raise n (length before) after)

shown_of :
    (before : Cells) (visible : Bool) (rs : Runes)
    → length (shown (before ++ cells visible rs))
      ≡ length (shown before) + length (shown (cells visible rs))
shown_of before visible rs =
    ap length (shown-append before (cells visible rs))
    ∙ length-append (shown before) (shown (cells visible rs))

module _ (itoa : ℕ → List ℕ) where
  pub insert_runes_in_hidden :
      (before after : Cells) (rs : Runes) (k : Kept) (l : LineFeed)
      → Represents before after k l
      → Narrow rs
      → Becomes (before ++ cells false rs) after k (insert_runes_in itoa rs false l)
  unfolding insert_runes_in
  insert_runes_in_hidden before after rs k l r narrow =
      rw (inserted-line before after false rs k l r narrow, insert_runes_in)
        (record {
          line = refl;
          indices =
              raised before after (length rs) k l r
              ∙ (ap
                    (λ ps.
                      positions 0 before ++ (ps ++ positions (length before + length rs) after))
                    (sym (positions-cells_hidden (length before) rs))
                  ∙ indices_of before after false rs);
          cursor =
              r.cursor ∙ omega (arith, shown_of before false rs, ap length (shown-cells_hidden rs));
          starts = r.starts;
          kept = r.kept;
        })

  -- `c` is the cursor, written out.
  echo_inserted_at :
      (before after : Cells) (r : ℕ × ℕ) (rs : Runes) (k : Kept) (l : LineFeed) (c : ℕ)
      → Represents before after k l
      → l.cursor_pos ≡ suc c
      → Becomes before after k (echo_inserted itoa (r ∷ rs) l)
  unfolding echo_inserted
  echo_inserted_at before after r rs k l c rep e =
      elim (Bool-cases (leb (length l.visible_indices) l.cursor_pos)) [
        | inl ends ↦
            rw (ends, echo_inserted)
              (echo-Represents before after k (echo_text (map (λ r. r.0) (r ∷ rs))) l rep)
        | inr goes ↦
            let (text_pos, found) = get_elem?-some l.visible_indices c (ground arith) in
            rw (goes, e, found, echo_inserted)
              (echo-Represents before after k
                (echo_text (
                  clear_rest
                  ++ (drop text_pos l.current_line
                      ++ cursor_sequence itoa (length l.visible_indices - l.cursor_pos) b'D')))
                l rep)
      ]

  pub insert_runes_in_shown :
      (before after : Cells) (r : ℕ × ℕ) (rs : Runes) (k : Kept) (l : LineFeed)
      → Represents before after k l
      → Narrow (r ∷ rs)
      → Becomes (before ++ cells true (r ∷ rs)) after k (insert_runes_in itoa (r ∷ rs) true l)
  unfolding insert_runes_in
  insert_runes_in_shown before after r rs k l rep narrow =
      let n : ℕ = length (r ∷ rs) in
      let longer : LineFeed = record l {
        current_line = runes ((before ++ cells true (r ∷ rs)) ++ after);
        visible_indices = positions 0 ((before ++ cells true (r ∷ rs)) ++ after);
        cursor_pos = l.cursor_pos + n;
      } in
      let count : length (shown (before ++ cells true (r ∷ rs))) ≡ length (shown before) + n =
        shown_of before true (r ∷ rs)
        ∙ ap (λ s. length (shown before) + s)
            (ap length (shown-cells (r ∷ rs)) ∙ length-map (r ∷ rs)) in
      let held : Represents (before ++ cells true (r ∷ rs)) after k longer = record {
        line = refl;
        indices = refl;
        cursor = ap (λ c. c + n) rep.cursor ∙ sym count;
        starts = rep.starts;
        kept = rep.kept;
      } in
      let placed : insert_indices n l.cursor_pos (position l.cursor_pos l)
            (raise_from l.cursor_pos n l.visible_indices)
          ≡ some (positions 0 ((before ++ cells true (r ∷ rs)) ++ after)) =
        ap₂ (λ p ps. insert_indices n l.cursor_pos p ps) (position_cursor before after k l rep)
          (raised before after n k l rep)
        ∙ (insert_indices-append (positions 0 before) (positions (length before + n) after) (r ∷ rs)
              l.cursor_pos (length before) (rep.cursor ∙ sym (length-positions 0 before))
            ∙ ap some (indices_of before after true (r ∷ rs))) in
      rw (inserted-line before after true (r ∷ rs) k l rep narrow, placed, insert_runes_in)
        (echo_inserted_at (before ++ cells true (r ∷ rs)) after r rs k longer
          (l.cursor_pos + length rs) held (omega arith))
