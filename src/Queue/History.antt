-- ===== src/Queue/History.antt =====
-- queue.go: a sequence of calls on a queue, against the same calls on a list.
use telnet.Prelude.{ℕ, ◌≡◌, refl, List, [], ◌∷◌, ◌++◌, drop, Result, ok, err, panic}
use telnet.Queue.{Queue, Stuck, live, queue, dequeue, drop_elements}
use telnet.Queue.Refine.{
  IsValid, Dequeues, dequeue-Dequeues, dequeue-IsValid, live-drop_elements, drop_elements-IsValid,
}
use telnet.Queue.Enqueue.{queue-live}

-- A call of the queue's methods.
pub data Call {ℓ} (A : Type ℓ) : Type ℓ where
  queues : List A → Call A
  dequeues : Call A
  drops : ℕ → Call A

module _ {ℓ} {A : Type ℓ} (zero_value : A) where
  -- The elements that the calls of `Dequeue` return.
  unfoldable pub run : List (Call A) → Queue A → Result Stuck (List A)
  run [] q = ok []
  run (queues xs ∷ calls) q = elim (queue zero_value xs q) [
    | ok r ↦ run calls r
    | err e ↦ err e
    | panic ↦ panic
  ]
  run (dequeues ∷ calls) q =
      let (a, r) = dequeue zero_value q in
      elim (run calls r) [ ok out ↦ ok (a ∷ out) | err e ↦ err e | panic ↦ panic ]
  run (drops n ∷ calls) q = run calls (drop_elements n q)

  -- The same on a list: elements go in at the end and come out at the front.
  unfoldable pub run_list : List (Call A) → List A → List A
  run_list [] s = []
  run_list (queues xs ∷ calls) s = run_list calls (s ++ xs)
  run_list (dequeues ∷ calls) [] = zero_value ∷ run_list calls []
  run_list (dequeues ∷ calls) (a ∷ s) = a ∷ run_list calls s
  run_list (drops n ∷ calls) s = run_list calls (drop n s)

  run-cons :
      (s : List A) (calls : List (Call A)) (q : Queue A)
      → Dequeues zero_value s (dequeue zero_value q)
      → run calls (dequeue zero_value q).1 ≡ ok (run_list calls (live (dequeue zero_value q).1))
      → run (dequeues ∷ calls) q ≡ ok (run_list (dequeues ∷ calls) s)
  unfolding run run_list
  run-cons [] calls q d e = rw (e, d.0, d.1)
  run-cons (a ∷ s) calls q d e = rw (e, d.0, d.1)

  -- Any sequence of Queue, Dequeue and DropElements on a valid queue ends, and returns what the
  -- same calls return on the list of its elements.
  pub run_refines :
      (calls : List (Call A)) (q : Queue A) → IsValid q → run calls q ≡ ok (run_list calls (live q))
  unfolding run run_list
  run_refines [] q v = refl
  run_refines (queues xs ∷ calls) q v =
      let (r, e, rv, rl) = queue-live zero_value xs q v in
      rw (e, run, ← rl) (run_refines calls r rv)
  run_refines (dequeues ∷ calls) q v =
      run-cons (live q) calls q (dequeue-Dequeues zero_value q v)
        (run_refines calls (dequeue zero_value q).1 (dequeue-IsValid zero_value q v))
  run_refines (drops n ∷ calls) q v =
      rw (← live-drop_elements n q v)
        (run_refines calls (drop_elements n q) (drop_elements-IsValid n q v))
