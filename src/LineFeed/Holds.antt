-- ===== src/LineFeed/Holds.antt =====
-- utils/linefeed.go: the editor holds a line; sending, typing and deleting.
use telnet.Prelude.{
  ℕ, suc, ◌-◌, ◌<◌, ◌≡◌, refl, sym, ap, ◌∙◌, subst, Bool, true, false, Option, none, some, List, [],
  ◌∷◌, ◌++◌, length, arith, if◌then◌else◌, ltb,
}
use telnet.LineFeed.{
  Runes, FeedData, text_in, control_in, csi_in, other_in, Out, line_out, LineFeed, LineFeedConfig,
  insert_data,
}
use telnet.LineFeed.Keys.{move_backward, delete_at_cursor, flush, backspace}
use telnet.LineFeed.Cells.{Cells, runes, shown, split, split_same}
use telnet.LineFeed.Represents.{Represents, Kept, Becomes, Narrow}
use telnet.LineFeed.Limit.{insert_data-Becomes}
use telnet.LineFeed.Moves.{
  Goes, move_backward-Goes, move_backward_one, delete_at_cursor_end, delete_at_cursor-Becomes,
}
use telnet.LineFeed.Zipper.{
  Line, cells, admitted, whole, type_in, go_to, delete, send_runes, send_line, erase_last,
}

-- The editor holds the line.
abbrev pub Holds : LineFeedConfig → Line → LineFeed → Type 0
Holds config z = Represents z.before z.after (config, (z.after_return, z.outs))

abbrev pub BecomesLine : LineFeedConfig → Line → Option LineFeed → Type 0
BecomesLine config z = Becomes z.before z.after (config, (z.after_return, z.outs))

-- What the terminal parser hands on: never an empty string, and every rune of one byte.
abbrev pub Plain : Runes → Type 0
Plain rs = Narrow rs × (0 < length rs)

abbrev pub Typed : FeedData → Type 0
Typed (text_in rs) = Plain rs
Typed (control_in code) = Unit {0}
Typed (csi_in command param sequence) = Plain sequence
Typed (other_in rs) = Plain rs

pub branches-Holds :
    (config : LineFeedConfig) (b : Bool) (y z : Line) (l m : LineFeed)
    → Holds config y l
    → Holds config z m
    → Holds config (if b then y else z) (if b then l else m)
branches-Holds config true y z l m p q = p
branches-Holds config false y z l m p q = q

pub branches-BecomesLine :
    (config : LineFeedConfig) (b : Bool) (y z : Line) (l m : Option LineFeed)
    → BecomesLine config y l
    → BecomesLine config z m
    → BecomesLine config (if b then y else z) (if b then l else m)
branches-BecomesLine config true y z l m p q = p
branches-BecomesLine config false y z l m p q = q

-- A return is forgotten at the next key.
pub return_done :
    (config : LineFeedConfig) (z : Line) (b : Bool) (o : Option LineFeed)
    → BecomesLine config z o
    → BecomesLine config (if b then record z { after_return = false } else z) (elim o [
      | none ↦ none
      | some m ↦ some (if b then record m { just_pushed_cr = false } else m)
    ])
return_done config z b none absent = absurd absent
return_done config z true (some m) r = record {
  line = r.line;
  indices = r.indices;
  cursor = r.cursor;
  starts = r.starts;
  kept = ap (λ k. (k.0, (false, k.1.1))) r.kept;
}
return_done config z false (some m) r = r

pub unless :
    (config : LineFeedConfig) (z : Line) (b : Bool) (o p : Option LineFeed)
    → b ≡ false
    → BecomesLine config z p
    → BecomesLine config z (if b then o else p)
unless config z b o p e r = subst (λ b. BecomesLine config z (if b then o else p)) (sym e) r

flush_at :
    (config : LineFeedConfig) (z : Line) (l : LineFeed) (line : List ℕ)
    → Holds config z l
    → l.current_line ≡ line
    → Holds config (send_runes line z) (flush true l)
unfolding flush
flush_at config z l [] r e = rw (e, flush) r
flush_at config z l (x ∷ line) r e =
    rw (e, flush)
      (record {
        line = refl;
        indices = refl;
        cursor = refl;
        starts = tt;
        kept =
            ap (λ k. (k.0, (k.1.0, k.1.1 ++ (line_out ((x ∷ line) ++ (13 ∷ 10 ∷ [])) ∷ []))))
              r.kept;
      })

pub flush-Holds :
    (config : LineFeedConfig) (z : Line) (l : LineFeed)
    → Holds config z l
    → Holds config (send_line z) (flush true l)
flush-Holds config z l r = flush_at config z l (runes (whole z)) r r.line

module _ (itoa : ℕ → List ℕ) where
  pub insert-BecomesLine :
      (config : LineFeedConfig) (z : Line) (l : LineFeed) (visible : Bool) (rs : Runes)
      → Holds config z l
      → Plain rs
      → BecomesLine config (type_in config.max_length visible rs z) (insert_data itoa rs visible l)
  insert-BecomesLine config z l visible rs r plain =
      subst
        (λ c.
          Becomes
            (z.before
              ++ cells visible (admitted c.max_length (length (shown (whole z))) visible rs))
            z.after (config, (z.after_return, z.outs)) (insert_data itoa rs visible l))
        (ap (λ k. k.0) r.kept)
        (insert_data-Becomes itoa z.before z.after visible rs (config, (z.after_return, z.outs)) l r
          plain.0 plain.1)

  delete_split :
      (config : LineFeedConfig) (before after : Cells) (after_return : Bool) (outs : List Out)
      (l : LineFeed)
      → Represents before after (config, (after_return, outs)) l
      → BecomesLine config
          (delete
            (record { before = before; after = after; after_return = after_return; outs = outs }))
          (delete_at_cursor itoa l)
  delete_split config before [] after_return outs l r =
      delete_at_cursor_end itoa before (config, (after_return, outs)) l r
  delete_split config before ((c, true) ∷ after) after_return outs l r =
      delete_at_cursor-Becomes itoa before after c (config, (after_return, outs)) l r
  delete_split config before ((c, false) ∷ after) after_return outs l r = absurd (ground arith)

  pub delete-BecomesLine :
      (config : LineFeedConfig) (z : Line) (l : LineFeed)
      → Holds config z l
      → BecomesLine config (delete z) (delete_at_cursor itoa l)
  delete-BecomesLine config z l r = delete_split config z.before z.after z.after_return z.outs l r

  -- `seen` is what is shown before the cursor.
  pub backspace_at :
      (config : LineFeedConfig) (z : Line) (l : LineFeed) (seen : List ℕ)
      → Holds config z l
      → shown z.before ≡ seen
      → BecomesLine config (erase_last seen z) (backspace itoa l)
  unfolding backspace
  backspace_at config z l [] r e =
      let k : Kept = (config, (z.after_return, z.outs)) in
      let stays : (move_backward itoa 1 l).1 ≡ false =
        move_backward_one itoa z.before z.after k l r ∙ ap (λ s. ltb 0 (length s)) e in
      let same : split (length (shown z.before) - 1) (whole z) ≡ (z.before, z.after) =
        split_same (length (shown z.before) - 1) z.before z.after r.starts
          (let n : length (shown z.before) ≡ 0 = ap length e in omega (arith, n)) in
      let moved : Represents z.before z.after k (move_backward itoa 1 l).0 =
        subst (λ p. Represents p.0 p.1 k (move_backward itoa 1 l).0) same
          (move_backward-Goes itoa z.before z.after k l 1 r) in
      rw (stays, backspace) moved
  backspace_at config z l (x ∷ seen) r e =
      let k : Kept = (config, (z.after_return, z.outs)) in
      let moves : (move_backward itoa 1 l).1 ≡ true =
        move_backward_one itoa z.before z.after k l r
        ∙ (ap (λ s. ltb 0 (length s)) e ∙ ground arith) in
      let count : length (shown z.before) - 1 ≡ length seen =
        (let n : length (shown z.before) ≡ suc (length seen) = ap length e in omega (arith, n)) in
      let moved : Holds config (go_to (length seen) z) (move_backward itoa 1 l).0 =
        subst (λ n. Goes n z.before z.after k (move_backward itoa 1 l).0) count
          (move_backward-Goes itoa z.before z.after k l 1 r) in
      rw (moves, backspace)
        (delete-BecomesLine config (go_to (length seen) z) (move_backward itoa 1 l).0 moved)
