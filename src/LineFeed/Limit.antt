-- ===== src/LineFeed/Limit.antt =====
-- utils/linefeed.go: `insertData`, with the limit of the length.
use telnet.Prelude.{
  ℕ, zero, suc, ◌+◌, ◌-◌, ◌<◌, ◌≡◌, refl, ap, ◌∙◌, Bool, true, false, ◌&&◌, List, [], ◌∷◌, ◌++◌,
  length-take, length, append-nil, take, arith, Bool-cases, leb, ltb, inl, inr,
}
use telnet.LineFeed.{
  Runes, LineFeed, echo, echo_text, insert_runes_in, insert_data, byte_length, cut, bel,
}
use telnet.LineFeed.Cells.{Cells, shown, length-positions}
use telnet.LineFeed.Represents.{Represents, Kept, Becomes, Narrow, echo-Represents}
use telnet.LineFeed.Insert.{insert_runes_in_hidden, insert_runes_in_shown}
use telnet.LineFeed.Zipper.{cells, admitted}

byte_length-Narrow : (rs : Runes) → Narrow rs → byte_length rs ≡ length rs
unfolding byte_length
byte_length-Narrow [] narrow = refl
byte_length-Narrow ((r, width) ∷ rs) narrow =
    omega (arith, narrow.0, byte_length-Narrow rs narrow.1)

cut-Narrow : (n : ℕ) (rs : Runes) → Narrow rs → cut n rs ≡ take n rs
unfolding cut
cut-Narrow zero [] narrow = refl
cut-Narrow (suc n) [] narrow = refl
cut-Narrow zero ((r, width) ∷ rs) narrow = rw (narrow.0, cut) refl
cut-Narrow (suc n) ((r, width) ∷ rs) narrow =
    let fits : leb 1 (suc n) ≡ true = ground arith in
    let less : suc n - 1 ≡ n = omega arith in
    rw (narrow.0, fits, less, cut) (ap (◌∷◌ (r, 1)) (cut-Narrow n rs narrow.1))

take-Narrow : (n : ℕ) (rs : Runes) → Narrow rs → Narrow (take n rs)
take-Narrow zero rs narrow = tt
take-Narrow (suc n) [] narrow = tt
take-Narrow (suc n) (r ∷ rs) narrow = (narrow.0, take-Narrow n rs narrow.1)

pub visible_count :
    (before after : Cells) (k : Kept) (l : LineFeed)
    → Represents before after k l
    → length l.visible_indices ≡ length (shown (before ++ after))
visible_count before after k l r = ap length r.indices ∙ length-positions 0 (before ++ after)

module _ (itoa : ℕ → List ℕ) where
  insert_runes_in-Becomes :
      (before after : Cells) (visible : Bool) (rs : Runes) (k : Kept) (l : LineFeed)
      → Represents before after k l
      → Narrow rs
      → 0 < length rs
      → Becomes (before ++ cells visible rs) after k (insert_runes_in itoa rs visible l)
  insert_runes_in-Becomes before after visible [] k l r narrow h = absurd (omega arith)
  insert_runes_in-Becomes before after true (x ∷ rs) k l r narrow h =
      insert_runes_in_shown itoa before after x rs k l r narrow
  insert_runes_in-Becomes before after false (x ∷ rs) k l r narrow h =
      insert_runes_in_hidden itoa before after (x ∷ rs) k l r narrow

  -- x
  pub insert_data-Becomes :
      (before after : Cells) (visible : Bool) (rs : Runes) (k : Kept) (l : LineFeed)
      → Represents before after k l
      → Narrow rs
      → 0 < length rs
      → Becomes
          (before
            ++ cells visible
                (admitted l.config.max_length (length (shown (before ++ after))) visible rs))
          after
          k
          (insert_data itoa rs visible l)
  unfolding insert_data
  insert_data-Becomes before after visible rs k l r narrow h =
      let count : length l.visible_indices ≡ length (shown (before ++ after)) =
        visible_count before after k l r in
      let max_length : ℕ = l.config.max_length in
      let belled : Represents before after k (echo (echo_text bel) l) =
        echo-Represents before after k (echo_text bel) l r in
      elim (Bool-cases (ltb 0 max_length && leb max_length (length (shown (before ++ after))))) [
        | inl full ↦ rw (count, full, append-nil before, insert_data) belled
        | inr room ↦
            elim (Bool-cases (
              ltb 0 max_length
              && visible
              && ltb max_length (length (shown (before ++ after)) + length rs))) [
                | inl over ↦
                    rw
                      (
                        count,
                        byte_length-Narrow rs narrow,
                        room,
                        over,
                        cut-Narrow (max_length - length (shown (before ++ after))) rs narrow,
                        insert_data,
                      )
                      (insert_runes_in-Becomes before after visible
                        (take (max_length - length (shown (before ++ after))) rs) k
                        (echo (echo_text bel) l) belled
                        (take-Narrow (max_length - length (shown (before ++ after))) rs narrow)
                        (ground
                          (arith, length-take (max_length - length (shown (before ++ after))) rs)))
                | inr under ↦
                    rw (count, byte_length-Narrow rs narrow, room, under, insert_data)
                      (insert_runes_in-Becomes before after visible rs k l r narrow h)
              ]
      ]
