-- ===== src/LineFeed/Cells.antt =====
-- The line of the editor as a list of cells, each a rune and whether it is shown, and the indices of the
-- shown ones.
use telnet.Prelude.{
  ℕ, zero, suc, ◌+◌, ◌≡◌, refl, ap, ◌∙◌, Bool, true, false, List, [], ◌∷◌, ◌++◌, map, length, ap₂,
  ◌-◌, min, drop, arith,
}

abbrev pub Cells : Type 0
Cells = List (ℕ × Bool)

abbrev pub runes : Cells → List ℕ
runes = map (λ c. c.0)

-- The shown runes.
abbrev pub shown : Cells → List ℕ
shown [] = []
shown ((r, true) ∷ cells) = r ∷ shown cells
shown ((r, false) ∷ cells) = shown cells

-- Where the shown runes stand, from `k` on.
abbrev pub positions : ℕ → Cells → List ℕ
positions k [] = []
positions k ((r, true) ∷ cells) = k ∷ positions (suc k) cells
positions k ((r, false) ∷ cells) = positions (suc k) cells

pub length-runes : (cells : Cells) → length (runes cells) ≡ length cells
length-runes [] = refl
length-runes (c ∷ cells) = ap suc (length-runes cells)

pub runes-append : (a b : Cells) → runes (a ++ b) ≡ runes a ++ runes b
runes-append [] b = refl
runes-append (c ∷ a) b = ap (◌∷◌ c.0) (runes-append a b)

pub shown-append : (a b : Cells) → shown (a ++ b) ≡ shown a ++ shown b
shown-append [] b = refl
shown-append ((r, true) ∷ a) b = ap (◌∷◌ r) (shown-append a b)
shown-append ((r, false) ∷ a) b = shown-append a b

pub length-positions : (k : ℕ) (cells : Cells) → length (positions k cells) ≡ length (shown cells)
length-positions k [] = refl
length-positions k ((r, true) ∷ cells) = ap suc (length-positions (suc k) cells)
length-positions k ((r, false) ∷ cells) = length-positions (suc k) cells

pub positions-cong : {j k : ℕ} (cells : Cells) → j ≡ k → positions j cells ≡ positions k cells
positions-cong cells e = ap (λ i. positions i cells) e

pub positions-append :
    (k : ℕ) (a b : Cells) → positions k (a ++ b) ≡ positions k a ++ positions (k + length a) b
positions-append k [] b = positions-cong b (omega arith)
positions-append k ((r, true) ∷ a) b = ap (◌∷◌ k) (
    positions-append (suc k) a b ∙ ap (◌++◌ (positions (suc k) a)) (positions-cong b (omega arith)))
positions-append k ((r, false) ∷ a) b =
    positions-append (suc k) a b ∙ ap (◌++◌ (positions (suc k) a)) (positions-cong b (omega arith))

pub positions-append_start :
    (a b : Cells) → positions 0 (a ++ b) ≡ positions 0 a ++ positions (length a) b
positions-append_start a b =
    positions-append 0 a b ∙ ap (◌++◌ (positions 0 a)) (positions-cong b (omega arith))

pub positions-raise :
    (n k : ℕ) (cells : Cells) → map (λ i. i + n) (positions k cells) ≡ positions (k + n) cells
positions-raise n k [] = refl
positions-raise n k ((r, true) ∷ cells) =
    ap (◌∷◌ (k + n)) (positions-raise n (suc k) cells ∙ positions-cong cells (omega arith))
positions-raise n k ((r, false) ∷ cells) =
    positions-raise n (suc k) cells ∙ positions-cong cells (omega arith)

pub positions-lower :
    (n k : ℕ) (cells : Cells) → map (λ i. i - n) (positions (k + n) cells) ≡ positions k cells
positions-lower n k [] = refl
positions-lower n k ((r, true) ∷ cells) =
    ap₂ ◌∷◌ (omega arith)
      (ap (map (λ i. i - n)) (positions-cong cells (omega arith)) ∙ positions-lower n (suc k) cells)
positions-lower n k ((r, false) ∷ cells) =
    ap (map (λ i. i - n)) (positions-cong cells (omega arith)) ∙ positions-lower n (suc k) cells

-- Nothing, or a shown rune first.
abbrev pub StartsShown : Cells → Type 0
StartsShown [] = Unit {0}
StartsShown (c ∷ cells) = c.1 ≡ true

-- The cells from the first shown one on, and how many stand before it.
abbrev pub drop_hidden : Cells → Cells
drop_hidden [] = []
drop_hidden ((r, true) ∷ cells) = (r, true) ∷ cells
drop_hidden ((r, false) ∷ cells) = drop_hidden cells

abbrev pub count_hidden : Cells → ℕ
count_hidden [] = 0
count_hidden ((r, true) ∷ cells) = 0
count_hidden ((r, false) ∷ cells) = suc (count_hidden cells)

pub drop_hidden-StartsShown : (cells : Cells) → StartsShown (drop_hidden cells)
drop_hidden-StartsShown [] = tt
drop_hidden-StartsShown ((r, true) ∷ cells) = refl
drop_hidden-StartsShown ((r, false) ∷ cells) = drop_hidden-StartsShown cells

pub positions-drop_hidden :
    (k : ℕ) (cells : Cells)
    → positions k cells ≡ positions (k + count_hidden cells) (drop_hidden cells)
positions-drop_hidden k [] = refl
positions-drop_hidden k ((r, true) ∷ cells) = positions-cong ((r, true) ∷ cells) (omega arith)
positions-drop_hidden k ((r, false) ∷ cells) =
    positions-drop_hidden (suc k) cells ∙ positions-cong (drop_hidden cells) (omega arith)

pub drop-count_hidden :
    (cells : Cells) → drop (count_hidden cells) (runes cells) ≡ runes (drop_hidden cells)
drop-count_hidden [] = refl
drop-count_hidden ((r, true) ∷ cells) = refl
drop-count_hidden ((r, false) ∷ cells) = drop-count_hidden cells

pub count_hidden-length :
    (cells : Cells) → length cells ≡ count_hidden cells + length (drop_hidden cells)
count_hidden-length [] = refl
count_hidden-length ((r, true) ∷ cells) = omega arith
count_hidden-length ((r, false) ∷ cells) = omega (arith, count_hidden-length cells)

-- The cells before and from the shown one of that number, or all if there is none.
abbrev pub split : ℕ → Cells → Cells × Cells
split k [] = ([], [])
split zero ((r, true) ∷ cells) = ([], (r, true) ∷ cells)
split zero ((r, false) ∷ cells) = ((r, false) ∷ (split zero cells).0, (split zero cells).1)
split (suc k) ((r, true) ∷ cells) = ((r, true) ∷ (split k cells).0, (split k cells).1)
split (suc k) ((r, false) ∷ cells) = ((r, false) ∷ (split (suc k) cells).0, (split (suc k) cells).1)

pub split_append : (k : ℕ) (cells : Cells) → (split k cells).0 ++ (split k cells).1 ≡ cells
split_append k [] = refl
split_append zero ((r, true) ∷ cells) = refl
split_append zero ((r, false) ∷ cells) = ap (◌∷◌ (r, false)) (split_append zero cells)
split_append (suc k) ((r, true) ∷ cells) = ap (◌∷◌ (r, true)) (split_append k cells)
split_append (suc k) ((r, false) ∷ cells) = ap (◌∷◌ (r, false)) (split_append (suc k) cells)

pub split-StartsShown : (k : ℕ) (cells : Cells) → StartsShown (split k cells).1
split-StartsShown k [] = tt
split-StartsShown zero ((r, true) ∷ cells) = refl
split-StartsShown zero ((r, false) ∷ cells) = split-StartsShown zero cells
split-StartsShown (suc k) ((r, true) ∷ cells) = split-StartsShown k cells
split-StartsShown (suc k) ((r, false) ∷ cells) = split-StartsShown (suc k) cells

pub length-split :
    (k : ℕ) (cells : Cells) → length (shown (split k cells).0) ≡ min k (length (shown cells))
length-split k [] = omega arith
length-split zero ((r, true) ∷ cells) = omega arith
length-split zero ((r, false) ∷ cells) = length-split zero cells
length-split (suc k) ((r, true) ∷ cells) = omega (arith, length-split k cells)
length-split (suc k) ((r, false) ∷ cells) = length-split (suc k) cells

-- A line is split where it was.
pub split_same :
    (n : ℕ) (before after : Cells)
    → StartsShown after
    → n ≡ length (shown before)
    → split n (before ++ after) ≡ (before, after)
split_same n [] [] starts e = refl
split_same zero [] ((r, true) ∷ after) starts e = refl
split_same (suc n) [] (c ∷ after) starts e = absurd (omega (arith, e))
split_same n [] ((r, false) ∷ after) starts e = ground arith
split_same zero ((r, true) ∷ before) after starts e = absurd (omega (arith, e))
split_same (suc n) ((r, true) ∷ before) after starts e =
    ap (λ p. ((r, true) ∷ p.0, p.1)) (split_same n before after starts (omega (arith, e)))
split_same zero ((r, false) ∷ before) after starts e =
    ap (λ p. ((r, false) ∷ p.0, p.1)) (split_same zero before after starts e)
split_same (suc n) ((r, false) ∷ before) after starts e =
    ap (λ p. ((r, false) ∷ p.0, p.1)) (split_same (suc n) before after starts e)
