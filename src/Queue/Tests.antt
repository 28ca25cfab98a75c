-- ===== src/Queue/Tests.antt =====
-- Runs of queue.go.
use telnet.Prelude.{ℕ, [], ◌∷◌, ◌≡◌, refl, ok, arith}
use telnet.Queue.{Queue, live}
use telnet.Queue.Refine.{IsValid}
use telnet.Queue.History.{queues, dequeues, drops, run, run_list, run_refines}

abbrev small : Queue ℕ
small = record { buffer = 0 ∷ 7 ∷ 8 ∷ []; max_size = 3; start_index = 1; end_index = 3 }

small-IsValid : IsValid small
small-IsValid = record {
  sized = refl;
  positive = omega arith;
  ordered = omega arith;
  inside = omega arith;
}

run_refines_example :
    run 0 (queues (5 ∷ 6 ∷ []) ∷ dequeues ∷ drops 1 ∷ dequeues ∷ []) small
    ≡ ok (run_list 0 (queues (5 ∷ 6 ∷ []) ∷ dequeues ∷ drops 1 ∷ dequeues ∷ []) (live small))
run_refines_example =
    run_refines 0 (queues (5 ∷ 6 ∷ []) ∷ dequeues ∷ drops 1 ∷ dequeues ∷ []) small small-IsValid
