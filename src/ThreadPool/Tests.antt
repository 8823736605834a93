-- ===== src/ThreadPool/Tests.antt =====
-- A run of two threads of threadpool.h, and its theorems there.
use linux_learning.Prelude.{
  ℕ, ap, ◌+◌, ◌≡◌, refl, true, false, none, some, [], ◌∷◌, ◌++◌, arith, total, thrown,
}
use linux_learning.ThreadPool.{
  Pool, System, Reach, initial, run_body, enqueue, append_step, run_step, lock, unlock, post, wait,
  here, later, call_append, start_worker, in_append, in_run, fresh_sync, threadpool, start_threads,
}
use linux_learning.ThreadPool.Invariant.{in_body, holds, times, times_taken}
use linux_learning.ThreadPool.Safety.{body_exclusive, queue_fifo, processed_once}

no_threads : threadpool 0 5 [] ≡ thrown
unfolding threadpool
no_threads = refl

second_fails : threadpool 2 5 ((true, true) ∷ (false, false) ∷ []) ≡ thrown
unfolding threadpool start_threads
second_fails = refl

-- A state after `initial`, with the run that leads there.
record Run2 : Type 0 where
  state : System
  path : Reach 2 (initial 3) state

abbrev at_end : {t : System} → Reach 2 (initial 3) t → Run2
at_end {t} r = record { state = t; path = r }

-- Thread 0 appends a request, then thread 1 takes the mutex to look for it.
run : Run2
unfolding append_step run_step lock unlock post wait enqueue
run = at_end (
    later
      (later
        (later
          (later
            (later
              (later
                (later (later here (start_worker _ 1 (omega arith) refl))
                  (call_append _ 0 (some 9) (omega arith) refl))
                (in_append 0 (omega arith) refl))
              (in_append 0 (omega arith) refl))
            (in_append 0 (omega arith) refl))
          (in_run 1 (omega arith) refl))
        (in_run 1 (omega arith) refl))
      (in_run 1 (omega arith) refl))

abbrev s : System
s = run.state

looks : s.pc 1 ≡ run_body
unfolding run
looks = refl

body_exclusive_example : ◌≡◌ {A = ℕ} 1 1
body_exclusive_example = body_exclusive 2 3 run.path 1 1 (ap in_body looks) (ap in_body looks)

queue_fifo_example : s.accepted ≡ s.taken ++ s.pool.workqueue
queue_fifo_example = queue_fifo 2 3 run.path

processed_once_example : times 9 s.processed + total (holds 9) 2 s.pc ≡ times_taken 9 s.taken
processed_once_example = processed_once 2 3 run.path 9

full : Pool
full = record { max_requests = 1; workqueue = none ∷ none ∷ []; stop = false; sync = fresh_sync }
