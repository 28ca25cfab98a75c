-- ===== src/Queue/Refine.antt =====
-- queue.go: under its invariant the queue is a first-in first-out list of its elements.
use telnet.Prelude.{
  ℕ, suc, ◌+◌, ◌-◌, ◌≤◌, ◌<◌, ◌≡◌, refl, sym, ap, ap₂, ◌∙◌, false, List, [], ◌∷◌, ◌++◌, ◌==◌,
  length, take, take-append, drop, ltb, arith, length-append, length-take, length-drop, Bool-cases,
  length-replicate, inl, inr, ==_iff,
}
use telnet.Queue.{Queue, copy, live, straighten, drop_elements, len, new_queue, dequeue}
use telnet.Queue.Window.{window-head, drop-drop, drop-take}

module _ {ℓ} {A : Type ℓ} where
  pub record IsValid (q : Queue A) : Type ℓ where
    pub sized : q.max_size ≡ length q.buffer
    pub positive : 0 < q.max_size
    pub ordered : q.start_index ≤ q.end_index
    pub inside : q.end_index ≤ length q.buffer

  pub len-length : {q : Queue A} → IsValid q → len q ≡ length (live q)
  unfolding len live
  len-length {q} v = omega (
    arith,
    length-take (q.end_index - q.start_index) (drop q.start_index q.buffer),
    length-drop q.start_index q.buffer,
  )

  -- `straighten` moves the elements to the front and keeps them.
  pub record IsStraight (q r : Queue A) : Type ℓ where
    pub valid : IsValid r
    pub front : r.start_index ≡ 0
    pub same : live r ≡ live q
    pub size : length r.buffer ≡ length q.buffer
    pub count : r.end_index ≡ q.end_index - q.start_index

  pub window-cong :
      (k k' j j' : ℕ) (b : List A) → k ≡ k' → j ≡ j' → take k (drop j b) ≡ take k' (drop j' b)
  window-cong k k' j j' b e f = ap₂ (λ m n. take m (drop n b)) e f

  pub take-zero : (n : ℕ) (xs : List A) → n ≡ 0 → take n xs ≡ []
  take-zero n xs e = ap (λ k. take k xs) e

  pub take-front : (n : ℕ) (w ys : List A) → n ≡ length w → take n (w ++ ys) ≡ w
  take-front n w ys e = ap (λ k. take k (w ++ ys)) e ∙ take-append w ys

  length-live :
      (q : Queue A)
      → IsValid q
      → length (take (q.end_index - q.start_index) (drop q.start_index q.buffer))
        ≡ q.end_index - q.start_index
  length-live q v = omega (
    arith,
    length-take (q.end_index - q.start_index) (drop q.start_index q.buffer),
    length-drop q.start_index q.buffer,
  )

  pub length-copy :
      (dst src : List A) → length src ≤ length dst → length (copy dst src) ≡ length dst
  length-copy dst src h =
      omega (arith, length-append src (drop (length src) dst), length-drop (length src) dst)

  -- The buffer that `straighten` leaves, where there is something to move.
  straightened : (q : Queue A) → IsValid q → Queue A
  straightened q v = record q {
    buffer = copy q.buffer (live q);
    start_index = 0;
    end_index = q.end_index - q.start_index;
  }

  straightened-IsStraight : (q : Queue A) (v : IsValid q) → IsStraight q (straightened q v)
  unfolding straightened live
  straightened-IsStraight q v =
      let w = take (q.end_index - q.start_index) (drop q.start_index q.buffer) in
      let fits = length-copy q.buffer w (omega (arith, length-live q v)) in
      record {
        valid = record {
          sized = omega (arith, fits);
          positive = v.positive;
          ordered = omega arith;
          inside = omega (arith, fits);
        };
        front = refl;
        same = take-front _ w (drop (length w) q.buffer) (omega (arith, length-live q v));
        size = fits;
        count = refl;
      }

  empty-IsStraight :
      (q : Queue A)
      → IsValid q
      → q.end_index - q.start_index ≡ 0
      → IsStraight q (record q { start_index = 0; end_index = q.end_index - q.start_index })
  unfolding live
  empty-IsStraight q v e = record {
    valid = record {
      sized = v.sized;
      positive = v.positive;
      ordered = omega arith;
      inside = omega arith;
    };
    front = refl;
    same =
        take-zero (q.end_index - q.start_index - 0) q.buffer (omega arith)
        ∙ sym (take-zero (q.end_index - q.start_index) (drop q.start_index q.buffer) e);
    size = refl;
    count = refl;
  }

  pub straighten-IsStraight : (q : Queue A) → IsValid q → IsStraight q (straighten q)
  unfolding straighten straightened
  straighten-IsStraight q v = elim (Bool-cases (q.start_index == 0)) [
    | inl e ↦
        rw (e, straighten)
          (record {
            valid = v;
            front = (==_iff _ _).0 e;
            same = refl;
            size = refl;
            count = ground arith;
          })
    | inr e ↦ elim (Bool-cases (ltb 0 (q.end_index - q.start_index))) [
      | inl some_left ↦ rw (e, some_left, straighten) (straightened-IsStraight q v)
      | inr none_left ↦ rw (e, none_left, straighten) (empty-IsStraight q v (ground arith))
    ]
  ]

  window-drop :
      (b : List A) (s e n : ℕ)
      → take (e - (s + n)) (drop (s + n) b) ≡ drop n (take (e - s) (drop s b))
  window-drop b s e n = sym (
      drop-take n (e - s) (e - (s + n)) (drop s b) (omega arith)
      ∙ ap (take (e - (s + n))) (drop-drop s n (s + n) b refl))

  -- `DropElements` drops `n` elements, or all that there are.
  pub live-drop_elements :
      (n : ℕ) (q : Queue A) → IsValid q → live (drop_elements n q) ≡ drop n (live q)
  unfolding live drop_elements
  live-drop_elements n q v = elim (Bool-cases (ltb q.end_index (q.start_index + n))) [
    | inl e ↦
        rw
          (
            e,
            drop-take n (q.end_index - q.start_index) 0 (drop q.start_index q.buffer)
                (ground arith),
          )
          (take-zero (q.end_index - q.end_index) (drop q.end_index q.buffer) (omega arith))
    | inr e ↦ rw e (window-drop q.buffer q.start_index q.end_index n)
  ]

  pub drop_elements-IsValid : (n : ℕ) (q : Queue A) → IsValid q → IsValid (drop_elements n q)
  unfolding drop_elements
  drop_elements-IsValid n q v = ground arith

module _ {ℓ} {A : Type ℓ} (zero_value : A) where
  pub new_queue-IsValid :
      (size : ℕ)
      → 0 < size
      → IsValid (new_queue zero_value size) × (live (new_queue zero_value size) ≡ [])
  unfolding new_queue live
  new_queue-IsValid size h = (
    record {
      sized = sym (length-replicate size zero_value);
      positive = h;
      ordered = omega arith;
      inside = omega arith;
    },
    refl,
  )

  -- What `Dequeue` returns and leaves: the oldest element and the rest, or the zero value.
  abbrev pub Dequeues : List A → A × Queue A → Type ℓ
  Dequeues [] (a, q) = (a ≡ zero_value) × (live q ≡ [])
  Dequeues (x ∷ xs) (a, q) = (a ≡ x) × (live q ≡ xs)

  dequeue-some :
      (q : Queue A)
      → IsValid q
      → (q.start_index == q.end_index) ≡ false
      → Dequeues (live q) (dequeue zero_value q)
  unfolding dequeue live
  dequeue-some q v ne =
      let n = q.end_index - q.start_index - 1 in
      let lt : q.start_index < length q.buffer = ground arith in
      let (a, read, split) = window-head q.buffer q.start_index n lt in
      let all : live q ≡ a ∷ take n (drop (suc q.start_index) q.buffer) =
        window-cong (q.end_index - q.start_index) (suc n) q.start_index q.start_index q.buffer
          (ground arith) refl
        ∙ split in
      rw (all, ne, dequeue, read)
        (
          refl,
          window-cong (q.end_index - (q.start_index + 1)) n (q.start_index + 1) (suc q.start_index)
              q.buffer (omega arith) (omega arith),
        )

  -- Dequeue on a valid queue hands out the oldest element and keeps the rest; on an empty queue it
  -- returns the zero value, and the queue stays empty.
  pub dequeue-Dequeues : (q : Queue A) → IsValid q → Dequeues (live q) (dequeue zero_value q)
  unfolding dequeue live
  dequeue-Dequeues q v = elim (Bool-cases (q.start_index == q.end_index)) [
    | inr ne ↦ dequeue-some q v ne
    | inl e ↦
        let empty : live q ≡ [] =
          take-zero (q.end_index - q.start_index) (drop q.start_index q.buffer) (ground arith) in
        rw (empty, e, dequeue) (refl, empty)
  ]

  pub dequeue-IsValid : (q : Queue A) → IsValid q → IsValid (dequeue zero_value q).1
  unfolding dequeue
  dequeue-IsValid q v = ground arith
