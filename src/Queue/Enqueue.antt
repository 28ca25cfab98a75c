-- ===== src/Queue/Enqueue.antt =====
-- queue.go: `Queue`, which straightens and grows the buffer until its elements fit.
use telnet.Prelude.{
  ℕ, suc, ◌+◌, ◌-◌, ◌*◌, ◌/◌, ◌≤◌, ◌<◌, ◌≡◌, refl, sym, ◌∙◌, false, List, [], ◌∷◌, ◌++◌,
  if◌then◌else◌, length, drop, set, replicate, ltb, Result, ok, arith, length-set, Bool-cases,
  length-replicate, append-nil, append_assoc, inl, inr,
}
use telnet.Queue.{Queue, Stuck, copy, live, straighten, grow, queue_one, queue}
use telnet.Queue.Window.{window-set, take-append_le}
use telnet.Queue.Refine.{IsValid, straighten-IsStraight, length-copy, window-cong}

module _ {ℓ} {A : Type ℓ} (zero_value : A) where
  -- A queue that holds one element more than `q`.
  abbrev Queued : Queue A → A → Result Stuck (Queue A) → Type ℓ
  Queued q a out = (r : Queue A) × (out ≡ ok r) × IsValid r × (live r ≡ live q ++ (a ∷ []))

  queue_one-room :
      (fuel : ℕ) (a : A) (q : Queue A)
      → IsValid q
      → q.end_index < length q.buffer
      → Queued q a (queue_one zero_value (suc fuel) a q)
  unfolding queue_one live
  queue_one-room fuel a q v h =
      let window =
        window-set q.buffer q.start_index (q.end_index - q.start_index) q.end_index a (omega arith)
          h in
      (
        record q { buffer = set q.buffer q.end_index a; end_index = q.end_index + 1 },
        ground arith,
        ground (arith, length-set q.buffer q.end_index a),
        window-cong (q.end_index + 1 - q.start_index) (suc (q.end_index - q.start_index))
              q.start_index q.start_index (set q.buffer q.end_index a) (omega arith) refl
            ∙ window,
      )

  record IsGrown (q r : Queue A) : Type ℓ where
    valid : IsValid r
    same : live r ≡ live q
    room : r.end_index < length r.buffer

  grow-IsGrown : (q : Queue A) → IsValid q → q.start_index ≡ 0 → IsGrown q (grow zero_value q)
  unfolding grow live
  grow-IsGrown q v z =
      let wide = replicate (q.max_size * 2) zero_value in
      let fits =
        length-copy wide q.buffer (omega (arith, length-replicate (q.max_size * 2) zero_value)) in
      let size = length-replicate (q.max_size * 2) zero_value in
      record {
        valid = record {
          sized = omega (arith, fits, size);
          positive = omega arith;
          ordered = v.ordered;
          inside = omega (arith, fits, size);
        };
        same =
            window-cong (q.end_index - q.start_index) q.end_index q.start_index 0
              (copy wide q.buffer) (omega arith) z
            ∙ take-append_le q.end_index q.buffer (drop (length q.buffer) wide) v.inside
            ∙ window-cong q.end_index (q.end_index - q.start_index) 0 q.start_index q.buffer
                (omega arith) (sym z);
        room = omega (arith, fits, size);
      }

  hundred : (m : ℕ) → 0 < m → m * 100 / m ≡ 100
  hundred m h = grind arith

  -- A full queue passes the test of `Queue` for growing.
  has_room :
      (q : Queue A)
      → IsValid q
      → ltb 80 (q.end_index * 100 / q.max_size) ≡ false
      → q.end_index < length q.buffer
  has_room q v e = elim (Bool-cases (ltb q.end_index q.max_size)) [
    | inl lt ↦ ground arith
    | inr ge ↦
        let full : q.end_index ≡ q.max_size = ground arith in absurd (full_grows (rw full at e))
  ]
    where
      full_grows : ltb 80 (q.max_size * 100 / q.max_size) ≡ false → ⊥
      full_grows h = ground (arith, hundred q.max_size v.positive)

  retried : Queue A → Queue A
  retried q =
      let straight = straighten q in
      if ltb 80 (straight.end_index * 100 / straight.max_size)
      then grow zero_value straight
      else straight

  retried-IsGrown :
      (q : Queue A) → IsValid q → length q.buffer ≤ q.end_index → IsGrown q (retried q)
  unfolding retried
  retried-IsGrown q v full =
      let st = straighten-IsStraight q v in
      elim (Bool-cases (ltb 80 ((straighten q).end_index * 100 / (straighten q).max_size))) [
        | inl e ↦
            let g = grow-IsGrown (straighten q) st.valid st.front in
            rw e (record { valid = g.valid; same = g.same ∙ st.same; room = g.room })
        | inr e ↦
            rw e (record {
              valid = st.valid;
              same = st.same;
              room = has_room (straighten q) st.valid e;
            })
      ]

  queue_one-retry :
      (a : A) (q : Queue A)
      → ltb q.end_index (length q.buffer) ≡ false
      → 0 < (straighten q).max_size
      → queue_one zero_value 2 a q ≡ queue_one zero_value 1 a (retried q)
  unfolding queue_one retried
  queue_one-retry a q e h = ground arith

  queue_one-Queued : (a : A) (q : Queue A) → IsValid q → Queued q a (queue_one zero_value 2 a q)
  queue_one-Queued a q v = elim (Bool-cases (ltb q.end_index (length q.buffer))) [
    | inl e ↦ queue_one-room 1 a q v (ground arith)
    | inr e ↦
        let g = retried-IsGrown q v (ground arith) in
        let (r, one, rv, rl) = queue_one-room 0 a (retried q) g.valid g.room in
        (
          r,
          queue_one-retry a q e (straighten-IsStraight q v).valid.positive ∙ one,
          rv,
          rl ∙ rw g.same,
        )
  ]

  -- Queue on a valid queue does not run out of rounds, leaves a valid queue, and puts its elements
  -- behind those that are there, in order.
  pub queue-live :
      (xs : List A) (q : Queue A)
      → IsValid q
      → (r : Queue A) × (queue zero_value xs q ≡ ok r) × IsValid r × (live r ≡ live q ++ xs)
  unfolding queue
  queue-live [] q v = (q, refl, v, sym (append-nil (live q)))
  queue-live (a ∷ xs) q v =
      let (r, one, rv, rl) = queue_one-Queued a q v in
      let (t, more, tv, tl) = queue-live xs r rv in
      (t, rw (one, queue) more, tv, tl ∙ rw rl (append_assoc (live q) (a ∷ []) xs))
