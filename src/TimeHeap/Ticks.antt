-- ===== src/TimeHeap/Ticks.antt =====
-- tick of time_heap.h.
use mathlib.Core.Path.{subst}
use linux_learning.Prelude.{
  ℕ, zero, suc, ◌+◌, ◌-◌, ◌≤◌, ◌<◌, ◌≡◌, ◌≢◌, refl, sym, ap, ◌∙◌, true, List, [], ◌∷◌, All, arith,
  ltb, ltb→lt, ◌==◌, ℕ_discrete, Yields, yields, Yields-bind, Yields-if,
}
use linux_learning.TimeHeap.{
  Ptr, HeapTimer, Store, TimeHeap, Slot, ref, empty, Call, fire, tick, tick_loop,
}
use linux_learning.TimeHeap.Count.{hit, hit_self, count_find}
use linux_learning.TimeHeap.Order.{
  is_live, timer, key, read-ok, deref-ok, root_least, live_at, IsValid,
}
use linux_learning.TimeHeap.Insert.{held}
use linux_learning.TimeHeap.Remove.{Popped, pop_timer-Popped, live_ref, without, without_key}

-- The calls that the timers at `due` make, one after the other.
abbrev pub calls_of : Store → List Ptr → List Call
calls_of m [] = []
calls_of m (p ∷ due) = fire (timer m (ref p)) (calls_of m due)

abbrev pub times : Slot → List Ptr → ℕ
times s [] = 0
times s (p ∷ due) = times s due + hit s (ref p)

-- From `b` on, each timer expires no earlier than the one before it.
abbrev pub Ascending : Store → ℕ → List Ptr → Type 0
Ascending m b [] = Unit
Ascending m b (p ∷ due) = (b ≤ key m (ref p)) × Ascending m (key m (ref p)) due

abbrev pub free_all : List Ptr → Store → Store
free_all [] m = m
free_all (p ∷ due) m = free_all due (without m p)

-- What a tick at `cur` does: `due` are the timers that it takes from the heap.
pub record Ticked (cur : ℕ) (m : Store) (h : TimeHeap) (r : List Call × Store × TimeHeap)
    : Type 0 where
  pub due : List Ptr
  pub calls : r.0 ≡ calls_of m due
  pub expired : All (λ p. key m (ref p) ≤ cur) due
  pub sorted : (b : ℕ) → ((s : Slot) → 0 < held s h → b ≤ key m s) → Ascending m b due
  pub valid : IsValid r.1 r.2
  pub split : (s : Slot) → held s r.2 + times s due ≡ held s h
  pub later : (s : Slot) → 0 < held s r.2 → cur < key m s
  pub freed : r.1 ≡ free_all due m

module _ (m : Store) (root : Ptr) where
  apart : (p : Ptr) (due : List Ptr) → times (ref root) (p ∷ due) ≡ 0 → ref p ≢ ref root
  apart p due e same = omega (arith, hit_self (ref root), ap (hit (ref root)) same)

  same_timer :
      (p : Ptr) (due : List Ptr)
      → times (ref root) (p ∷ due) ≡ 0
      → timer (without m root) (ref p) ≡ timer m (ref p)
  same_timer p due e = without_key m root (ref p) (apart p due e)

  same_key :
      (p : Ptr) (due : List Ptr)
      → times (ref root) (p ∷ due) ≡ 0
      → key (without m root) (ref p) ≡ key m (ref p)
  same_key p due e = ap (λ (t : HeapTimer). t.expire) (same_timer p due e)

  calls-without :
      (due : List Ptr) → times (ref root) due ≡ 0 → calls_of (without m root) due ≡ calls_of m due
  calls-without [] e = refl
  calls-without (p ∷ due) e = rw (calls-without due (omega arith), same_timer p due e)

  expired-without :
      (cur : ℕ) (due : List Ptr)
      → times (ref root) due ≡ 0
      → All (λ p. key (without m root) (ref p) ≤ cur) due
      → All (λ p. key m (ref p) ≤ cur) due
  expired-without cur [] e all = tt
  expired-without cur (p ∷ due) e all =
      (omega (arith, same_key p due e, all.0), expired-without cur due (omega arith) all.1)

  sorted-without :
      (b : ℕ) (due : List Ptr)
      → times (ref root) due ≡ 0
      → Ascending (without m root) b due
      → Ascending m b due
  sorted-without b [] e up = tt
  sorted-without b (p ∷ due) e up = (
    omega (arith, same_key p due e, up.0),
    sorted-without (key m (ref p)) due (omega arith)
        (subst (λ c. Ascending (without m root) c due) (same_key p due e) up.1),
  )

-- One timer more: the root goes, and the rest of the tick is that of the heap without it.
Ticked-root :
    (cur : ℕ) (m : Store) (h : TimeHeap) (root : Ptr)
    → IsValid m h
    → h.array 0 ≡ ref root
    → key m (ref root) ≤ cur
    → (h' : TimeHeap) → Popped m h root (without m root, h')
    → (calls : List Call) (m'' : Store) (h'' : TimeHeap)
    → Ticked cur (without m root) h' (calls, m'', h'')
    → Ticked cur m h (fire (timer m (ref root)) calls, m'', h'')
Ticked-root cur m h root v at_root due_now h' s calls m'' h'' t = record {
  due = root ∷ t.due;
  calls = ap (fire (timer m (ref root))) (t.calls ∙ calls-without m root t.due gone);
  expired = (due_now, expired-without m root cur t.due gone t.expired);
  sorted = λ b low. (
    low (ref root) (omega (arith, s.same (ref root), hit_self (ref root))),
    sorted-without m root _ t.due gone (t.sorted _ above),
  );
  valid = t.valid;
  split = λ u. omega (arith, t.split u, s.same u);
  later = λ u pos. omega (arith, t.later u pos, other_key u (kept_ne u (omega (arith, t.split u))));
  freed = t.freed;
}
  where
    gone : times (ref root) t.due ≡ 0
    gone =
        omega (
          arith,
          t.split (ref root),
          s.same (ref root),
          v.owned.once (ref root),
          hit_self (ref root),
        )

    kept_ne : (u : Slot) → 0 < held u h' → u ≢ ref root
    kept_ne u pos e =
        omega (arith, s.same u, v.owned.once u, hit_self (ref root), ap (λ w. hit w (ref root)) e)

    other_key : (u : Slot) → u ≢ ref root → key (without m root) u ≡ key m u
    other_key u ne = ap (λ (w : HeapTimer). w.expire) (without_key m root u ne)

    above : (u : Slot) → 0 < held u h' → key m (ref root) ≤ key (without m root) u
    above u pos =
        let (i, lt, e) = count_find u h.cur_size h.array (omega (arith, s.same u)) in
        omega (
          arith,
          root_least m h.cur_size h.array v.ordered i lt,
          ap (key m) e,
          ap (key m) at_root,
          other_key u (kept_ne u pos),
        )

Ticked-step :
    (cur : ℕ) (m : Store) (h : TimeHeap) (root : Ptr)
    → IsValid m h
    → h.array 0 ≡ ref root
    → key m (ref root) ≤ cur
    → (r : Store × TimeHeap) → Popped m h root r
    → (w : List Call × Store × TimeHeap) → Ticked cur r.0 r.1 w
    → Ticked cur m h (fire (timer m (ref root)) w.0, w.1, w.2)
Ticked-step cur m h root v at_root due_now r s w t =
    Ticked-root cur m h root v at_root due_now r.1
      (subst (λ m'. Popped m h root (m', r.1)) s.freed s) w.0 w.1 w.2
      (subst (λ m'. Ticked cur m' r.1 w) s.freed t)

-- A tick of a heap that keeps every timer.
Ticked-none :
    (cur : ℕ) (m : Store) (h : TimeHeap)
    → IsValid m h
    → ((i : ℕ) → i < h.cur_size → cur < key m (h.array 0))
    → Ticked cur m h ([], m, h)
Ticked-none cur m h v waiting = record {
  due = [];
  calls = refl;
  expired = tt;
  sorted = λ b low. tt;
  valid = v;
  split = λ u. omega arith;
  later = λ u pos.
      (let (i, lt, e) = count_find u h.cur_size h.array pos in
        omega (arith, waiting i lt, root_least m h.cur_size h.array v.ordered i lt, ap (key m) e));
  freed = refl;
}

tick_loop-root :
    (k cur : ℕ) (m : Store) (h : TimeHeap) (root : Ptr)
    → IsValid m h
    → 0 < h.cur_size
    → h.array 0 ≡ ref root
    → ((m' : Store) (h' : TimeHeap)
        → IsValid m' h'
        → suc h'.cur_size ≡ h.cur_size
        → Yields (Ticked cur m' h') (tick_loop k cur m' h' (h'.array 0)))
    → Yields (Ticked cur m h) (tick_loop (suc k) cur m h (ref root))
unfolding tick_loop empty
tick_loop-root k cur m h root v pos at_root again =
    let root_live : is_live m (ref root) ≡ true =
      subst (λ s. is_live m s ≡ true) at_root (live_at m h.cur_size h.array v.owned 0 pos) in
    Yields-if (h.cur_size == 0) (λ none_left. absurd (ground arith))
      λ _. rw (deref-ok m (ref root) root_live) (
        Yields-if (ltb cur (key m (ref root)))
          (λ waiting.
            yields (
              Ticked-none cur m h v
                (λ i lt. omega (arith, ltb→lt _ _ waiting, ap (key m) at_root))))
          (λ due_now.
            rw (read-ok h 0 v.room, at_root, deref-ok m (ref root) root_live)
              (Yields-bind (pop_timer-Popped m h v (h.cur_size - 1) (omega arith) root at_root)
                λ r s. rw (read-ok r.1 0 s.valid.room) (
                  Yields-bind (again r.0 r.1 s.valid s.size)
                    λ w t. yields (Ticked-step cur m h root v at_root (ground arith) r s w t)))))

tick_loop-Ticked :
    (k cur : ℕ) (m : Store) (h : TimeHeap)
    → h.cur_size < k
    → IsValid m h
    → Yields (Ticked cur m h) (tick_loop k cur m h (h.array 0))
unfolding tick_loop empty
tick_loop-Ticked zero cur m h f v = absurd (omega arith)
tick_loop-Ticked (suc k) cur m h f v = elim (ℕ_discrete h.cur_size 0) [
  | yes e ↦
      Yields-if (h.cur_size == 0)
        (λ _. yields (Ticked-none cur m h v (λ i lt. absurd (omega arith))))
        (λ ne. absurd (ground arith))
  | no e ↦
      let (root, t, at_root, alloc) =
        live_ref m (h.array 0) (live_at m h.cur_size h.array v.owned 0 (omega arith)) in
      subst (λ tmp. Yields (Ticked cur m h) (tick_loop (suc k) cur m h tmp)) (sym at_root)
        (tick_loop-root k cur m h root v (omega arith) at_root
          (λ m' h' v' size. tick_loop-Ticked k cur m' h' (omega arith) v'))
]

-- On a valid heap tick ends without a fault. The timers that it takes off are all due, and come off in
-- order of expiry; the callbacks that they have are called in that order, and exactly these timers are
-- freed. What is left is a valid heap of all the others, each of which expires after the time of the tick.
pub tick-Ticked :
    (cur : ℕ) (m : Store) (h : TimeHeap) → IsValid m h → Yields (Ticked cur m h) (tick cur m h)
unfolding tick
tick-Ticked cur m h v =
    rw (read-ok h 0 v.room) (tick_loop-Ticked (suc h.cur_size) cur m h (omega arith) v)
