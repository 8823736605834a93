-- ===== src/ThreadPool/Safety.antt =====
-- The states that the threads of threadpool.h can reach.
use linux_learning.Prelude.{
  ℕ, zero, suc, ◌+◌, ◌≤◌, ◌<◌, ◌≡◌, ◌↔◌, refl, ap, true, false, none, some, List, [], ◌∷◌, ◌++◌,
  arith, length, length-append, List-cases, inl, inr, total,
}
use linux_learning.ThreadPool.{
  Request, Pool, System, Reach, initial, append_body, append_post, append_lock, returned, run_body,
  enqueue, append_step, lock, unlock, post, is_outside, here, later, call_append, in_append, goto,
  Sync,
}
use linux_learning.ThreadPool.Invariant.{
  Inv, in_body, pending, holds, times, times_taken, queue_nonempty, initial-Inv, Reach-Inv,
}

module _ (n max : ℕ) {s : System} (reached : Reach n (initial max) s) where
  inv : Inv n s
  inv = Reach-Inv n (initial-Inv n max) reached

  -- In every state that the threads can reach, no two threads are between lock and unlock at once.
  pub body_exclusive : (i j : ℕ) → in_body (s.pc i) ≡ true → in_body (s.pc j) ≡ true → i ≡ j
  body_exclusive i j bi bj = ground (arith, inv.owner i bi, inv.owner j bj)

  -- In every state that the threads can reach, the requests that append accepted are, in that order,
  -- those that workers have taken and then those in the queue: none is lost, doubled or overtaken.
  pub queue_fifo : s.accepted ≡ s.taken ++ s.pool.workqueue
  queue_fifo = inv.fifo

  -- No wake-up is lost: the queue is as long as the semaphore's value and the posts that are still to
  -- come or already taken by a worker that has not reached the queue.
  pub queue_balance : length s.pool.workqueue ≡ s.pool.sync.value + total pending n s.pc
  queue_balance = inv.balance

  -- In every state that the threads can reach, a worker that looks into the queue finds a request there:
  -- the test for an empty queue never holds.
  pub worker_finds_request :
      (tid : ℕ)
      → tid < n
      → s.pc tid ≡ run_body
      → (r : Request) × (rest : List Request) × (s.pool.workqueue ≡ r ∷ rest)
  worker_finds_request tid lt at = elim (List-cases s.pool.workqueue) [
    | inl q ↦ absurd (omega (arith, queue_nonempty n inv tid lt at, ap length q))
    | inr found ↦ found
  ]

  -- In every state that the threads can reach, a request was processed as often as workers took it from
  -- the queue, less the workers that hold it and are about to process it.
  pub processed_once :
      (r : ℕ) → times r s.processed + total (holds r) n s.pc ≡ times_taken r s.taken
  processed_once r = inv.counted r

-- append takes a request exactly when the queue holds no more than the maximum; it then puts it at the
-- queue's end, and otherwise changes nothing.
pub enqueue_iff :
    (p : Pool) (r : Request)
    → (((enqueue p r).1 ≡ true) ↔ (length p.workqueue ≤ p.max_requests))
      × ((enqueue p r).1 ≡ true → (enqueue p r).0.workqueue ≡ p.workqueue ++ r ∷ [])
      × ((enqueue p r).1 ≡ false → (enqueue p r).0 ≡ p)
unfolding enqueue
enqueue_iff p r = (ground arith, ground arith, ground arith)

-- A state in which one thread has appended `k` requests.
record Filled (max k : ℕ) (s : System) : Type 0 where
  path : Reach 1 (initial max) s
  size : length s.pool.workqueue ≡ k
  limit : s.pool.max_requests ≡ max
  free : s.pool.sync.holder ≡ none
  ready : is_outside (s.pc 0) ≡ true

fill_one :
    (max k : ℕ) → k ≤ max → (s : System) → Filled max k s → (t : System) × Filled max (suc k) t
unfolding append_step lock unlock post enqueue
fill_one max k le s f =
    let r : Request = some 0 in
    let p : Pool = s.pool in
    let y : Sync = p.sync in
    let a : System = goto s 0 (append_lock r) in
    let b : System =
      goto (record a { pool = record p { sync = record y { holder = some 0 } } }) 0
        (append_body r) in
    let c : System =
      goto
        (record b {
          pool = record p { workqueue = p.workqueue ++ r ∷ []; sync = record y { holder = none } };
          accepted = s.accepted ++ r ∷ [];
        })
        0 append_post in
    let d : System =
      goto
        (record c {
          pool = record p {
            workqueue = p.workqueue ++ r ∷ [];
            sync = record { holder = none; value = y.value + 1 };
          };
        })
        0 (returned true) in
    (
      d,
      record {
        path =
            later
              (later
                (later (later f.path (call_append s 0 r (omega arith) f.ready))
                  (in_append {s = a} {t = b} 0 (omega arith) (ground arith)))
                (in_append {s = b} {t = c} 0 (omega arith) (ground (arith, f.size, f.limit))))
              (in_append {s = c} {t = d} 0 (omega arith) (ground arith));
        size = omega (arith, f.size, length-append p.workqueue (r ∷ []));
        limit = f.limit;
        free = refl;
        ready = refl;
      },
    )

fill : (max k : ℕ) → k ≤ max + 1 → (s : System) × Filled max k s
fill max zero le =
    (initial max, record { path = here; size = refl; limit = refl; free = refl; ready = refl })
fill max (suc k) le = let (s, f) = fill max k (omega arith) in fill_one max k (omega arith) s f

-- In every state that the threads can reach, the queue holds at most one more than the maximum that the
-- pool has; for every maximum, one thread alone can fill it that far.
pub queue_bound :
    (max : ℕ)
    → ((n : ℕ) (s : System)
        → Reach n (initial max) s
        → length s.pool.workqueue ≤ s.pool.max_requests + 1)
      × ((s : System) × Reach 1 (initial max) s
          × (length s.pool.workqueue ≡ max + 1)
          × (s.pool.max_requests ≡ max))
queue_bound max =
    let (s, f) = fill max (max + 1) (omega arith) in
    (λ n s r. (Reach-Inv n (initial-Inv n max) r).bounded, (s, f.path, f.size, f.limit))
