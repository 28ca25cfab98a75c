-- ===== src/Queue/Window.antt =====
-- queue.go: the part of a buffer between two indices, under the writes that the queue makes.
use telnet.Prelude.{
  ℕ, zero, suc, ◌+◌, ◌-◌, ◌≤◌, ◌<◌, ◌≡◌, refl, sym, ap, List, [], ◌∷◌, ◌++◌, some, length, take,
  drop, set, get_elem?, arith,
}

module _ {ℓ} {A : Type ℓ} where
  -- Writing just behind a window extends it.
  pub window-set :
      (b : List A) (s n i : ℕ) (a : A)
      → i ≡ s + n
      → i < length b
      → take (suc n) (drop s (set b i a)) ≡ take n (drop s b) ++ (a ∷ [])
  window-set [] s n i a e h = absurd (omega arith)
  window-set (x ∷ b) zero zero zero a e h = refl
  window-set (x ∷ b) zero zero (suc i) a e h = absurd (omega arith)
  window-set (x ∷ b) zero (suc n) zero a e h = absurd (omega arith)
  window-set (x ∷ b) zero (suc n) (suc i) a e h =
      ap (◌∷◌ x) (window-set b zero n i a (omega arith) (omega arith))
  window-set (x ∷ b) (suc s) n zero a e h = absurd (omega arith)
  window-set (x ∷ b) (suc s) n (suc i) a e h = window-set b s n i a (omega arith) (omega arith)

  pub take-append_le : (n : ℕ) (xs ys : List A) → n ≤ length xs → take n (xs ++ ys) ≡ take n xs
  take-append_le zero xs ys h = refl
  take-append_le (suc n) [] ys h = absurd (omega arith)
  take-append_le (suc n) (x ∷ xs) ys h = ap (◌∷◌ x) (take-append_le n xs ys (omega arith))

  pub drop-drop : (m n k : ℕ) (xs : List A) → k ≡ m + n → drop n (drop m xs) ≡ drop k xs
  drop-drop zero n k xs e = ap (λ j. drop j xs) (omega arith)
  drop-drop (suc m) n zero xs e = absurd (omega arith)
  drop-drop (suc m) zero (suc k) [] e = refl
  drop-drop (suc m) (suc n) (suc k) [] e = refl
  drop-drop (suc m) n (suc k) (x ∷ xs) e = drop-drop m n k xs (omega arith)

  take-nil : (n : ℕ) → take {A = A} n [] ≡ []
  take-nil zero = refl
  take-nil (suc n) = refl

  pub drop-take : (m n k : ℕ) (xs : List A) → k ≡ n - m → drop m (take n xs) ≡ take k (drop m xs)
  drop-take zero n k xs e = ap (λ j. take j xs) (omega arith)
  drop-take (suc m) zero zero xs e = refl
  drop-take (suc m) zero (suc k) xs e = absurd (omega arith)
  drop-take (suc m) (suc n) k [] e = sym (take-nil k)
  drop-take (suc m) (suc n) k (x ∷ xs) e = drop-take m n k xs (omega arith)

  -- The first element of a window.
  pub window-head :
      (b : List A) (s n : ℕ)
      → s < length b
      → (a : A) × (get_elem? b s ≡ some a) × (take (suc n) (drop s b) ≡ a ∷ take n (drop (suc s) b))
  window-head [] s n h = absurd (omega arith)
  window-head (x ∷ b) zero n h = (x, refl, refl)
  window-head (x ∷ b) (suc s) n h = window-head b s n (omega arith)
