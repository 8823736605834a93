-- ===== src/ThreadPool/Invariant.antt =====
-- The invariant of the states of threadpool.h.
use mathlib.Core.List.{append_assoc}
use linux_learning.Prelude.{
  ℕ, ◌+◌, ◌≤◌, ◌<◌, ◌≡◌, refl, ap, Bool, true, false, none, some, List, [], ◌∷◌, ◌++◌, arith, ltb,
  ◌==◌, if◌then◌else◌, length, length-append, List-cases, Bool-cases, inl, inr, update, total,
  total-update, total-ge, total-eq_zero,
}
use linux_learning.ThreadPool.{
  Request, Pc, System, Step, Reach, initial, append_lock, append_body, append_post, returned,
  loop_test, run_wait, run_lock, run_body, run_process, finished, outside, is_outside, call_append,
  start_worker, in_append, in_run, tear_down, here, later, append_step, run_step, post, wait, lock,
  unlock, enqueue, dequeue, after_dequeue, process, destroy, goto,
}

-- The thread runs code between lock and unlock.
abbrev pub in_body : Pc → Bool
in_body (append_body r) = true
in_body run_body = true
in_body _ = false

-- A post that is still to come, or one that the thread has taken and not yet used.
abbrev pub pending : Pc → ℕ
pending append_post = 1
pending run_lock = 1
pending run_body = 1
pending _ = 0

-- The thread has taken request `r` and not yet processed it.
abbrev pub holds : ℕ → Pc → ℕ
holds r (run_process (some q)) = if q == r then 1 else 0
holds r _ = 0

abbrev pub times : ℕ → List ℕ → ℕ
times r [] = 0
times r (q ∷ done) = times r done + (if q == r then 1 else 0)

abbrev pub times_taken : ℕ → List Request → ℕ
times_taken r [] = 0
times_taken r (none ∷ l) = times_taken r l
times_taken r (some q ∷ l) = times_taken r l + (if q == r then 1 else 0)

pub record Inv (n : ℕ) (s : System) : Type 0 where
  pub balance : length s.pool.workqueue ≡ s.pool.sync.value + total pending n s.pc
  pub bounded : length s.pool.workqueue ≤ s.pool.max_requests + 1
  pub fifo : s.accepted ≡ s.taken ++ s.pool.workqueue
  pub owner : (i : ℕ) → in_body (s.pc i) ≡ true → s.pool.sync.holder ≡ some i
  pub counted : (r : ℕ) → times r s.processed + total (holds r) n s.pc ≡ times_taken r s.taken

times_taken-append :
    (r : ℕ) (l l' : List Request) → times_taken r (l ++ l') ≡ times_taken r l + times_taken r l'
times_taken-append r [] l' = omega arith
times_taken-append r (none ∷ l) l' = times_taken-append r l l'
times_taken-append r (some q ∷ l) l' = omega (arith, times_taken-append r l l')

module _ (n : ℕ) {s : System} (v : Inv n s) (tid : ℕ) (lt : tid < n) where
  -- The sum of a weight over the threads, after `tid` went from `p` to `c`.
  total-goto :
      (w : Pc → ℕ) (p c : Pc)
      → s.pc tid ≡ p
      → total w n (update s.pc tid c) + w p ≡ total w n s.pc + w c
  total-goto w p c at = omega (arith, total-update w n tid s.pc c lt, ap w at)

  append_body-Inv :
      {t : System} (r : Request)
      → s.pc tid ≡ append_body r
      → append_step tid s (append_body r) ≡ some t
      → Inv n t
  unfolding append_step lock unlock enqueue post
  append_body-Inv r at e = elim (Bool-cases (ltb s.pool.max_requests (length s.pool.workqueue))) [
    | inl full ↦ record {
      balance = ground (arith, v.balance, total-goto pending _ (returned false) at);
      bounded = ground (arith, v.bounded);
      fifo = ground (arith, v.fifo);
      owner = λ i b. ground (arith, v.owner i, v.owner tid, ap in_body at);
      counted = λ q. ground (arith, v.counted q, total-goto (holds q) _ (returned false) at);
    }
    | inr room ↦ record {
      balance = ground (
        arith,
        v.balance,
        total-goto pending _ append_post at,
        length-append s.pool.workqueue (r ∷ []),
      );
      bounded = ground (arith, v.bounded, length-append s.pool.workqueue (r ∷ []));
      fifo =
          ground
            (arith, ap (λ l. l ++ r ∷ []) v.fifo, append_assoc s.taken s.pool.workqueue (r ∷ []));
      owner = λ i b. ground (arith, v.owner i, v.owner tid, ap in_body at);
      counted = λ q. ground (arith, v.counted q, total-goto (holds q) _ append_post at);
    }
  ]

  append_step-Inv : {t : System} (p : Pc) → s.pc tid ≡ p → append_step tid s p ≡ some t → Inv n t
  unfolding append_step lock unlock enqueue post
  append_step-Inv (append_lock r) at e = record {
    balance = ground (arith, v.balance, total-goto pending _ (append_body r) at);
    bounded = ground (arith, v.bounded);
    fifo = ground (arith, v.fifo);
    owner = λ i b. ground (arith, v.owner i, ap in_body at);
    counted = λ q. ground (arith, v.counted q, total-goto (holds q) _ (append_body r) at);
  }
  append_step-Inv (append_body r) at e = append_body-Inv r at e
  append_step-Inv append_post at e = record {
    balance = ground (arith, v.balance, total-goto pending _ (returned true) at);
    bounded = ground (arith, v.bounded);
    fifo = ground (arith, v.fifo);
    owner = λ i b. ground (arith, v.owner i, ap in_body at);
    counted = λ q. ground (arith, v.counted q, total-goto (holds q) _ (returned true) at);
  }
  append_step-Inv _ at e = absurd (ground arith)

  -- A worker in its body has a request in the queue.
  pub queue_nonempty : s.pc tid ≡ run_body → 0 < length s.pool.workqueue
  queue_nonempty at = omega (arith, v.balance, total-ge pending n tid s.pc lt, ap pending at)

  run_body-Inv :
      {t : System} (x : Request) (rest : List Request)
      → s.pool.workqueue ≡ x ∷ rest
      → s.pc tid ≡ run_body
      → run_step tid s run_body ≡ some t
      → Inv n t
  unfolding run_step unlock dequeue after_dequeue
  run_body-Inv none rest q at e = record {
    balance = ground (arith, v.balance, total-goto pending _ (run_process none) at, ap length q);
    bounded = ground (arith, v.bounded, ap length q);
    fifo = ground (arith, v.fifo, q, append_assoc s.taken (none ∷ []) rest);
    owner = λ i b. ground (arith, v.owner i, v.owner tid, ap in_body at);
    counted = λ u. ground (
      arith,
      v.counted u,
      total-goto (holds u) _ (run_process none) at,
      times_taken-append u s.taken (none ∷ []),
    );
  }
  run_body-Inv (some r) rest q at e = record {
    balance =
        ground (arith, v.balance, total-goto pending _ (run_process (some r)) at, ap length q);
    bounded = ground (arith, v.bounded, ap length q);
    fifo = ground (arith, v.fifo, q, append_assoc s.taken (some r ∷ []) rest);
    owner = λ i b. ground (arith, v.owner i, v.owner tid, ap in_body at);
    counted = λ u. ground (
      arith,
      v.counted u,
      total-goto (holds u) _ (run_process (some r)) at,
      times_taken-append u s.taken (some r ∷ []),
    );
  }

  run_step-Inv : {t : System} (p : Pc) → s.pc tid ≡ p → run_step tid s p ≡ some t → Inv n t
  unfolding run_step lock unlock wait dequeue after_dequeue process
  run_step-Inv loop_test at e = record {
    balance =
        ground
          (arith, v.balance, total-goto pending _ (if s.pool.stop then finished else run_wait) at);
    bounded = ground (arith, v.bounded);
    fifo = ground (arith, v.fifo);
    owner = λ i b. ground (arith, v.owner i, ap in_body at);
    counted = λ q. ground (
      arith,
      v.counted q,
      total-goto (holds q) _ (if s.pool.stop then finished else run_wait) at,
    );
  }
  run_step-Inv run_wait at e = record {
    balance = ground (arith, v.balance, total-goto pending _ run_lock at);
    bounded = ground (arith, v.bounded);
    fifo = ground (arith, v.fifo);
    owner = λ i b. ground (arith, v.owner i, ap in_body at);
    counted = λ q. ground (arith, v.counted q, total-goto (holds q) _ run_lock at);
  }
  run_step-Inv run_lock at e = record {
    balance = ground (arith, v.balance, total-goto pending _ run_body at);
    bounded = ground (arith, v.bounded);
    fifo = ground (arith, v.fifo);
    owner = λ i b. ground (arith, v.owner i, ap in_body at);
    counted = λ q. ground (arith, v.counted q, total-goto (holds q) _ run_body at);
  }
  run_step-Inv run_body at e = elim (List-cases s.pool.workqueue) [
    | inl q ↦ absurd (omega (arith, queue_nonempty at, ap length q))
    | inr (x, rest, q) ↦ run_body-Inv x rest q at e
  ]
  run_step-Inv (run_process none) at e = record {
    balance = ground (arith, v.balance, total-goto pending _ loop_test at);
    bounded = ground (arith, v.bounded);
    fifo = ground (arith, v.fifo);
    owner = λ i b. ground (arith, v.owner i, ap in_body at);
    counted = λ q. ground (arith, v.counted q, total-goto (holds q) _ loop_test at);
  }
  run_step-Inv (run_process (some r)) at e = record {
    balance = ground (arith, v.balance, total-goto pending _ loop_test at);
    bounded = ground (arith, v.bounded);
    fifo = ground (arith, v.fifo);
    owner = λ i b. ground (arith, v.owner i, ap in_body at);
    counted = λ q. ground (arith, v.counted q, total-goto (holds q) _ loop_test at);
  }
  run_step-Inv _ at e = absurd (ground arith)

outside_idle :
    (p : Pc)
    → is_outside p ≡ true
    → (in_body p ≡ false) × (pending p ≡ 0) × ((r : ℕ) → holds r p ≡ 0)
outside_idle outside h = (refl, refl, λ r. refl)
outside_idle (returned taken) h = (refl, refl, λ r. refl)
outside_idle _ h = absurd (ground arith)

-- Entering append or becoming a worker changes no count.
enter-Inv :
    (n : ℕ) {s : System}
    → Inv n s
    → (tid : ℕ) → tid < n
    → is_outside (s.pc tid) ≡ true
    → (c : Pc) → in_body c ≡ false
    → pending c ≡ 0
    → ((r : ℕ) → holds r c ≡ 0)
    → Inv n (goto s tid c)
enter-Inv n {s} v tid lt at c no_body none_pending none_held = record {
  balance =
      omega
        (arith, v.balance, idle.1, none_pending, total-goto n v tid lt pending (s.pc tid) c refl);
  bounded = v.bounded;
  fifo = v.fifo;
  owner = λ i b. ground (arith, v.owner i);
  counted = λ r. omega (
    arith,
    v.counted r,
    idle.2 r,
    none_held r,
    total-goto n v tid lt (holds r) (s.pc tid) c refl,
  );
}
  where
    idle :
        (in_body (s.pc tid) ≡ false) × (pending (s.pc tid) ≡ 0) × ((r : ℕ) → holds r (s.pc tid) ≡ 0)
    idle = outside_idle (s.pc tid) at

pub Step-Inv : (n : ℕ) {s t : System} → Step n s t → Inv n s → Inv n t
unfolding destroy
Step-Inv n (call_append s tid r lt at) v =
    enter-Inv n v tid lt at (append_lock r) refl refl (λ _. refl)
Step-Inv n (start_worker s tid lt at) v = enter-Inv n v tid lt at loop_test refl refl (λ _. refl)
Step-Inv n (in_append {s} tid lt e) v = append_step-Inv n v tid lt (s.pc tid) refl e
Step-Inv n (in_run {s} tid lt e) v = run_step-Inv n v tid lt (s.pc tid) refl e
Step-Inv n (tear_down s) v = record {
  balance = v.balance;
  bounded = v.bounded;
  fifo = v.fifo;
  owner = v.owner;
  counted = v.counted;
}

pub initial-Inv : (n max : ℕ) → Inv n (initial max)
initial-Inv n max = record {
  balance = omega (arith, total-eq_zero pending n (λ _. outside) (λ _. refl));
  bounded = omega arith;
  fifo = refl;
  owner = λ i b. absurd (ground arith);
  counted = λ r. omega (arith, total-eq_zero (holds r) n (λ _. outside) (λ _. refl));
}

pub Reach-Inv : (n : ℕ) {s t : System} → Inv n s → Reach n s t → Inv n t
Reach-Inv n v here = v
Reach-Inv n v (later r st) = Step-Inv n st (Reach-Inv n v r)
