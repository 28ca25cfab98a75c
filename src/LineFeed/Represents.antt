-- ===== src/LineFeed/Represents.antt =====
-- When an editor holds a line of cells.
use telnet.Prelude.{
  ℕ, ◌+◌, ◌≡◌, refl, sym, ap, ap₂, ◌∙◌, Bool, true, false, Option, none, some, List, [], ◌∷◌, ◌++◌,
  map, length, get_elem?, append_assoc, length-append, get_elem?-append, arith, either_branch, not,
  ◌&&◌,
}
use telnet.LineFeed.{
  Runes, LineFeed, LineFeedConfig, Out, Echo, echo, insert_at, insert_runes, insert_indices,
  position,
}
use telnet.LineFeed.Cells.{
  Cells, runes, shown, positions, StartsShown, length-positions, length-runes,
  positions-append_start, positions-cong,
}

-- What editing the line leaves as it is.
abbrev pub Kept : Type 0
Kept = LineFeedConfig × (Bool × List Out)

abbrev pub kept : LineFeed → Kept
kept l = (l.config, (l.just_pushed_cr, l.sent))

pub record Represents (before after : Cells) (k : Kept) (l : LineFeed) : Type 0 where
  pub line : l.current_line ≡ runes (before ++ after)
  pub indices : l.visible_indices ≡ positions 0 (before ++ after)
  pub cursor : l.cursor_pos ≡ length (shown before)
  pub starts : StartsShown after
  pub kept : kept l ≡ k

-- An editor that holds the line, and no panic.
abbrev pub Becomes : Cells → Cells → Kept → Option LineFeed → Type 0
Becomes before after k none = ⊥
Becomes before after k (some l) = Represents before after k l

module _ {ℓ} {A : Type ℓ} where
  pub insert_at-append :
      (xs ys : List A) (y : A) → insert_at (length xs) y (xs ++ ys) ≡ some (xs ++ (y ∷ ys))
  unfolding insert_at
  insert_at-append [] ys y = refl
  insert_at-append (x ∷ xs) ys y = rw (insert_at-append xs ys y, insert_at)

-- The element of that number, or a default.
abbrev pub place : ℕ → List ℕ → ℕ → ℕ
place default ps i = elim (get_elem? ps i) [ none ↦ default | some p ↦ p ]

-- The index of the visible rune `i` behind the cursor.
pub index_at :
    (before after : Cells) (k : Kept) (l : LineFeed) (j i : ℕ)
    → Represents before after k l
    → j ≡ l.cursor_pos + i
    → get_elem? l.visible_indices j ≡ get_elem? (positions (length before) after) i
index_at before after k l j i r at =
    let where_at : j ≡ length (positions 0 before) + i =
      omega (arith, at, r.cursor, length-positions 0 before) in
    ap (λ ps. get_elem? ps j) (r.indices ∙ positions-append_start before after)
    ∙ get_elem?-append (positions 0 before) (positions (length before) after) j i where_at

pub line_length :
    (before after : Cells) (k : Kept) (l : LineFeed)
    → Represents before after k l
    → length l.current_line ≡ length before + length after
line_length before after k l r =
    ap length r.line ∙ (length-runes (before ++ after) ∙ length-append before after)

-- The place of the visible rune `i` behind the cursor, or the end.
pub position_at :
    (before after : Cells) (k : Kept) (l : LineFeed) (j i : ℕ)
    → Represents before after k l
    → j ≡ l.cursor_pos + i
    → position j l ≡ place (length before + length after) (positions (length before) after) i
unfolding position
position_at before after k l j i r at =
    ap₂ (λ e p. elim p [ none ↦ e | some p ↦ p ]) (line_length before after k l r)
      (index_at before after k l j i r at)

-- The cursor stands behind the cells before it.
pub position_cursor :
    (before after : Cells) (k : Kept) (l : LineFeed)
    → Represents before after k l
    → position l.cursor_pos l ≡ length before
position_cursor before [] k l r =
    position_at before [] k l l.cursor_pos 0 r (omega arith) ∙ omega arith
position_cursor before ((x, true) ∷ after) k l r =
    position_at before ((x, true) ∷ after) k l l.cursor_pos 0 r (omega arith)
position_cursor before ((x, false) ∷ after) k l r = ground arith

pub echo-Represents :
    (before after : Cells) (k : Kept) (e : Echo) (l : LineFeed)
    → Represents before after k l
    → Represents before after k (echo e l)
unfolding echo
echo-Represents before after k e l r =
    either_branch (Represents before after k)
      (not l.config.character_mode && not l.config.suppress_local_echo)
      (record l { echoed = l.echoed ++ (e ∷ []) }) l
      (record {
        line = r.line;
        indices = r.indices;
        cursor = r.cursor;
        starts = r.starts;
        kept = r.kept;
      })
      r

-- Every rune takes one byte.
abbrev pub Narrow : Runes → Type 0
Narrow [] = Unit {0}
Narrow ((r, width) ∷ rs) = (width ≡ 1) × Narrow rs

-- The loop over a text, on the line split at the place.
pub insert_runes-append :
    (a : List ℕ) (b : List ℕ) (rs : Runes) (location idx : ℕ)
    → Narrow rs
    → location + idx ≡ length a
    → insert_runes location idx rs (a ++ b) ≡ some (a ++ (map (λ r. r.0) rs ++ b))
unfolding insert_runes
insert_runes-append a b [] location idx narrow e = refl
insert_runes-append a b ((r, width) ∷ rs) location idx narrow e =
    let rest : insert_runes location (idx + width) rs ((a ++ (r ∷ [])) ++ b)
        ≡ some ((a ++ (r ∷ [])) ++ (map (λ r. r.0) rs ++ b)) =
      insert_runes-append (a ++ (r ∷ [])) b rs location (idx + width) narrow.1
        (omega (arith, e, narrow.0, length-append a (r ∷ []))) in
    rw (e, insert_at-append a b r, insert_runes)
      (ap (insert_runes location (idx + width) rs) (sym (append_assoc a (r ∷ []) b))
        ∙ (rest ∙ ap some (append_assoc a (r ∷ []) (map (λ r. r.0) rs ++ b))))

pub insert_indices-append :
    (a b : List ℕ) (rs : Runes) (cursor location : ℕ)
    → cursor ≡ length a
    → insert_indices (length rs) cursor location (a ++ b)
      ≡ some (a ++ (positions location (map (λ r. (r.0, true)) rs) ++ b))
unfolding insert_indices
insert_indices-append a b [] cursor location e = refl
insert_indices-append a b (r ∷ rs) cursor location e =
    let rest : insert_indices (length rs) (cursor + 1) (location + 1) ((a ++ (location ∷ [])) ++ b)
        ≡ some (
            (a ++ (location ∷ [])) ++ (positions (location + 1) (map (λ r. (r.0, true)) rs) ++ b)) =
      insert_indices-append (a ++ (location ∷ [])) b rs (cursor + 1) (location + 1)
        (omega (arith, e, length-append a (location ∷ []))) in
    rw (e, insert_at-append a b location, insert_indices)
      (ap (insert_indices (length rs) (cursor + 1) (location + 1))
          (sym (append_assoc a (location ∷ []) b))
        ∙ (rest
            ∙ (ap some (
                  append_assoc a (location ∷ [])
                    (positions (location + 1) (map (λ r. (r.0, true)) rs) ++ b))
                ∙ ap (λ ps. some (a ++ (location ∷ (ps ++ b))))
                    (positions-cong (map (λ r. (r.0, true)) rs) (omega arith)))))
