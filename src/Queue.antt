-- ===== src/Queue.antt =====
-- queue.go: the growing ring-less queue that the data parser keeps its output and its input in.
-- `zero` is Go's zero value of the element type. Indices are plain numbers: the sum `endIndex*100`
-- is taken not to overflow an `int`.
pub mod Window
pub mod Refine
pub mod Enqueue
pub mod History
mod Tests
use telnet.Prelude.{
  ℕ, zero, suc, ◌+◌, ◌-◌, ◌*◌, ◌/◌, Bool, true, false, List, [], ◌∷◌, ◌++◌, ◌==◌, if◌then◌else◌,
  length, take, drop, set, replicate, get_elem?, ltb, Option, none, some, Result, ok, err, panic,
}

pub record Queue {ℓ} (A : Type ℓ) : Type ℓ where
  pub buffer : List A
  pub max_size : ℕ
  pub start_index : ℕ
  pub end_index : ℕ

-- The fuel of the retry loop of `Queue` ran out.
pub data Stuck : Type 0 where
  stuck : Stuck

module _ {ℓ} {A : Type ℓ} where
  -- `copy(dst, src)`, where `src` is not the longer one: `src`, then what it does not reach.
  abbrev pub copy : List A → List A → List A
  copy dst src = src ++ drop (length src) dst

  -- `q.buffer[q.startIndex:q.endIndex]`
  unfoldable pub live : Queue A → List A
  live q = take (q.end_index - q.start_index) (drop q.start_index q.buffer)

  unfoldable pub straighten : Queue A → Queue A
  unfolding live
  straighten q =
      if q.start_index == 0
      then q
      else (let len = q.end_index - q.start_index in
          record q {
            buffer = if ltb 0 len then copy q.buffer (live q) else q.buffer;
            start_index = 0;
            end_index = len;
          })

  unfoldable pub drop_elements : ℕ → Queue A → Queue A
  drop_elements n q =
      let new_start = q.start_index + n in
      record q { start_index = if ltb q.end_index new_start then q.end_index else new_start }

  unfoldable pub len : Queue A → ℕ
  len q = q.end_index - q.start_index

module _ {ℓ} {A : Type ℓ} (zero_value : A) where
  unfoldable pub new_queue : ℕ → Queue A
  new_queue size = record {
    buffer = replicate size zero_value;
    max_size = size;
    start_index = 0;
    end_index = 0;
  }

  -- `newBuffer` of twice the size, with the old buffer copied to its front.
  unfoldable pub grow : Queue A → Queue A
  grow q = record q {
    buffer = copy (replicate (q.max_size * 2) zero_value) q.buffer;
    max_size = q.max_size * 2;
  }

  -- One element of the loop of `Queue`. `i--` is another round with the same element. A queue of size 0
  -- divides by zero.
  unfoldable pub queue_one : ℕ → A → Queue A → Result Stuck (Queue A)
  unfolding straighten grow
  queue_one zero a q = err stuck
  queue_one (suc fuel) a q =
      let straight = straighten q in
      let retry = queue_one fuel a (
        if ltb 80 (straight.end_index * 100 / straight.max_size)
        then grow straight
        else straight) in
      if ltb q.end_index (length q.buffer)
      then ok (record q { buffer = set q.buffer q.end_index a; end_index = q.end_index + 1 })
      else if straight.max_size == 0
      then panic
      else retry

  -- `Queue`, with two rounds for each element.
  unfoldable pub queue : List A → Queue A → Result Stuck (Queue A)
  unfolding queue_one
  queue [] q = ok q
  queue (a ∷ xs) q = elim (queue_one 2 a q) [ ok r ↦ queue xs r | err e ↦ err e | panic ↦ panic ]

  -- A read past the buffer, which Go would panic on, is the zero value too; `Refine` excludes it.
  unfoldable pub dequeue : Queue A → A × Queue A
  dequeue q = if q.start_index == q.end_index then (zero_value, q) else (
    elim (get_elem? q.buffer q.start_index) [ none ↦ zero_value | some a ↦ a ],
    record q { start_index = q.start_index + 1 },
  )
