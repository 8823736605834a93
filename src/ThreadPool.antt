-- ===== src/ThreadPool.antt =====
-- HTTP_server_learning/threadpool.h over HTTP_server_learning/locker.h: a queue of requests that
-- `append` fills and worker threads empty, under a mutex and a counting semaphore.
-- The pool is a shared state and each thread a program counter; a step is one call on the mutex or the
-- semaphore with the code between it and the next one, which only its holder may run.
pub mod Invariant
pub mod Safety
pub mod Locks
mod Tests
use linux_learning.Prelude.{
  ℕ, zero, suc, ◌+◌, ◌-◌, ◌<◌, ◌≤◌, ◌≡◌, Bool, true, false, Option, none, some, List, [], ◌∷◌, ◌++◌,
  ltb, leb, length, ◌==◌, if◌then◌else◌, update, Run, ok, thrown,
}

-- A request is an address; `none` is a null pointer.
abbrev pub Request : Type 0
Request = Option ℕ

-- locker.h: the mutex is the thread that holds it, if any, and the semaphore its value.
pub record Sync : Type 0 where
  pub holder : Option ℕ
  pub value : ℕ

pub record Pool : Type 0 where
  pub max_requests : ℕ
  pub workqueue : List Request
  pub stop : Bool
  pub sync : Sync

-- `sem()` starts at 0, and `locker()` unlocked.
abbrev pub fresh_sync : Sync
fresh_sync = record { holder = none; value = 0 }

-- `sem::post`
pub post : Sync → Sync
post s = record s { value = s.value + 1 }

-- `sem::wait` returns once the value is positive, and takes one from it.
pub wait : Sync → Option Sync
wait s = if ltb 0 s.value then some (record s { value = s.value - 1 }) else none

-- `locker::lock` returns once the mutex is free.
pub lock : ℕ → Sync → Option Sync
lock tid s = elim s.holder [ none ↦ some (record s { holder = some tid }) | some other ↦ none ]

-- `locker::unlock`
pub unlock : Sync → Sync
unlock s = record s { holder = none }

-- The constructor; what pthread_create and pthread_detach return for each thread is an argument.
-- A call that fails ends the constructor by an exception.
pub start_threads : List (Bool × Bool) → Run (Unit {0})
start_threads [] = ok tt
start_threads ((created, detached) ∷ rest) =
    let more = start_threads rest in if created then (if detached then more else thrown) else thrown

pub threadpool : (thread_number max_requests : ℕ) → List (Bool × Bool) → Run Pool
threadpool thread_number max_requests threads =
    if thread_number == 0
    then thrown
    else if max_requests == 0
    then thrown
    else elim (start_threads threads) [
      | ok _ ↦
          ok (record {
            max_requests = max_requests;
            workqueue = [];
            stop = false;
            sync = fresh_sync;
          })
      | _ ↦ thrown
    ]

-- `~threadpool`, as far as the members go that the threads look at: that the queue and its locks are
-- destroyed behind it, while the detached workers may still run, is not modelled.
pub destroy : Pool → Pool
destroy p = record p { stop = true }

-- The part of `append` between lock and unlock: the new queue, and whether the request was taken.
unfoldable pub enqueue : Pool → Request → Pool × Bool
enqueue p request =
    if ltb p.max_requests (length p.workqueue)
    then (p, false)
    else (record p { workqueue = p.workqueue ++ request ∷ [] }, true)

-- The part of `run` between lock and unlock: the new queue, and what was taken from it.
-- The outer option is the test for an empty queue.
unfoldable pub dequeue : Pool → Pool × Option Request
dequeue p = elim p.workqueue [
  | [] ↦ (p, none)
  | request ∷ rest ↦ (record p { workqueue = rest }, some request)
]

-- Where a thread stands: outside the pool, in `append`, or in the loop of `run`.
pub data Pc : Type 0 where
  outside : Pc
  append_lock : Request → Pc
  append_body : Request → Pc
  append_post : Pc
  returned : Bool → Pc
  loop_test : Pc
  run_wait : Pc
  run_lock : Pc
  run_body : Pc
  run_process : Request → Pc
  finished : Pc

-- `accepted` and `taken` are the requests that went into and came out of the queue so far, and
-- `processed` those whose `process` was called; no code reads them.
pub record System : Type 0 where
  pub pool : Pool
  pub pc : ℕ → Pc
  pub accepted : List Request
  pub taken : List Request
  pub processed : List ℕ

abbrev pub goto : System → ℕ → Pc → System
goto s tid c = record s { pc = update s.pc tid c }

-- A call of lock that comes back.
abbrev pub locked : System → ℕ → Pc → Option System
locked s tid c = elim (lock tid s.pool.sync) [
  | none ↦ none
  | some sync ↦ some (goto (record s { pool = record s.pool { sync = sync } }) tid c)
]

abbrev pub unlocked : Pool → Pool
unlocked p = record p { sync = unlock p.sync }

-- `append`, from its first line to its return.
pub append_step : ℕ → System → Pc → Option System
append_step tid s (append_lock r) = locked s tid (append_body r)
append_step tid s (append_body r) =
    let (p, is_taken) = enqueue s.pool r in
    some (
      if is_taken
      then goto (record s { pool = unlocked p; accepted = s.accepted ++ r ∷ [] }) tid append_post
      else goto (record s { pool = unlocked p }) tid (returned false))
append_step tid s append_post =
    let p = s.pool in
    some (goto (record s { pool = record p { sync = post p.sync } }) tid (returned true))
append_step tid s _ = none

-- `if(!request) continue; request->process();`
pub process : Request → List ℕ → List ℕ
process none done = done
process (some r) done = r ∷ done

-- What is done with the element that dequeue found, or did not find.
pub after_dequeue : ℕ → System → Pool → Option Request → System
after_dequeue tid s p none = goto (record s { pool = unlocked p }) tid loop_test
after_dequeue tid s p (some r) =
    goto (record s { pool = unlocked p; taken = s.taken ++ r ∷ [] }) tid (run_process r)

-- `run`
pub run_step : ℕ → System → Pc → Option System
run_step tid s loop_test = some (goto s tid (if s.pool.stop then finished else run_wait))
run_step tid s run_wait = elim (wait s.pool.sync) [
  | none ↦ none
  | some sync ↦ some (goto (record s { pool = record s.pool { sync = sync } }) tid run_lock)
]
run_step tid s run_lock = locked s tid run_body
run_step tid s run_body = let (p, found) = dequeue s.pool in some (after_dequeue tid s p found)
run_step tid s (run_process r) =
    some (goto (record s { processed = process r s.processed }) tid loop_test)
run_step tid s _ = none

-- The thread is outside the pool, so that it may call append.
abbrev pub is_outside : Pc → Bool
is_outside outside = true
is_outside (returned taken) = true
is_outside _ = false

-- Thread `tid` below `n` enters `append`, becomes a worker, or takes a step; or the pool is destroyed.
pub data Step (n : ℕ) : System → System → Type 0 where
  call_append :
      (s : System) (tid : ℕ) (r : Request)
      → tid < n
      → is_outside (s.pc tid) ≡ true
      → Step n s (goto s tid (append_lock r))
  start_worker :
      (s : System) (tid : ℕ)
      → tid < n
      → is_outside (s.pc tid) ≡ true
      → Step n s (goto s tid loop_test)
  in_append :
      {s t : System} (tid : ℕ) → tid < n → append_step tid s (s.pc tid) ≡ some t → Step n s t
  in_run : {s t : System} (tid : ℕ) → tid < n → run_step tid s (s.pc tid) ≡ some t → Step n s t
  tear_down : (s : System) → Step n s (record s { pool = destroy s.pool })

pub data Reach (n : ℕ) (s : System) : System → Type 0 where
  here : Reach n s s
  later : {t u : System} → Reach n s t → Step n t u → Reach n s u

abbrev pub initial : ℕ → System
initial max = record {
  pool = record { max_requests = max; workqueue = []; stop = false; sync = fresh_sync };
  pc = λ _. outside;
  accepted = [];
  taken = [];
  processed = [];
}
