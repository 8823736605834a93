-- ===== src/TimeHeap/Remove.antt =====
-- top and pop_timer of time_heap.h.
use mathlib.Core.Path.{subst}
use linux_learning.Prelude.{
  ℕ, suc, ◌+◌, ◌-◌, ◌*◌, ◌<◌, ◌≡◌, ◌≢◌, refl, sym, ap, is_some, true, Option, none, some, arith,
  ltb, ◌==◌, ℕ_discrete, ok, update, Yields, yields, Yields-bind, Yields-if,
}
use linux_learning.TimeHeap.{
  Ptr, HeapTimer, Store, TimeHeap, Slot, null, ref, stray, parent, empty, pop_timer, percolate_down,
  down_loop, release,
}
use linux_learning.TimeHeap.Count.{hit, count-update, hit_self, count_pos}
use linux_learning.TimeHeap.Order.{
  is_live, timer, key, read-ok, write-ok, OrderedFrom, AreOwned, AreOwned-same, live_at, Settled,
  IsValid,
}
use linux_learning.TimeHeap.Down.{Sinking-start, percolate_down-Settled}
use linux_learning.TimeHeap.Insert.{held}

some_of_live : (o : Option HeapTimer) → is_some o ≡ true → (t : HeapTimer) × (o ≡ some t)
some_of_live none h = absurd (ground arith)
some_of_live (some t) h = (t, refl)

pub release-ok :
    (m : Store) (p : Ptr) → is_live m (ref p) ≡ true → release m (ref p) ≡ ok (update m p none)
unfolding release
release-ok m p h = let (t, e) = some_of_live (m p) h in rw (e, release)

-- On an emptied heap percolate_down writes back what it read.
percolate_down-empty :
    (m : Store) (h : TimeHeap)
    → h.cur_size ≡ 0
    → 0 < h.capacity
    → Yields (Settled 0 m h h.array) (percolate_down m h 0)
unfolding percolate_down down_loop
percolate_down-empty m h e room = rw (read-ok h 0 room) (
    Yields-if (ltb (0 * 2 + 1) h.cur_size) (λ more. absurd (ground arith))
      λ _. rw (write-ok h 0 (h.array 0) room) (
        yields (record {
          capacity = refl;
          size = refl;
          same = λ s. rw e;
          ordered = λ c p q r. absurd (omega arith);
        })))

-- A live entry is a pointer.
pub live_ref :
    (m : Store) (s : Slot)
    → is_live m s ≡ true
    → (p : Ptr) × (t : HeapTimer) × (s ≡ ref p) × (m p ≡ some t)
live_ref m null h = absurd (ground arith)
live_ref m (ref p) h = let (t, e) = some_of_live (m p) h in (p, t, refl, e)
live_ref m (stray n) h = absurd (ground arith)

-- The store without the timer at `p`.
abbrev pub without : Store → Ptr → Store
without m p = update m p none

pub without_live :
    (m : Store) (p : Ptr) (s : Slot)
    → s ≢ ref p
    → is_live m s ≡ true
    → is_live (without m p) s ≡ true
without_live m p null ne h = h
without_live m p (ref q) ne h = ground (arith, λ (e : p ≡ q). ne (ap ref (sym e)))
without_live m p (stray n) ne h = h

pub without_key : (m : Store) (p : Ptr) (s : Slot) → s ≢ ref p → timer (without m p) s ≡ timer m s
unfolding timer
without_key m p null ne = refl
without_key m p (ref q) ne = ground (arith, λ (e : p ≡ q). ne (ap ref (sym e)))
without_key m p (stray n) ne = refl

-- What pop_timer leaves: a valid heap of the other timers, and the root's timer freed.
pub record Popped (m : Store) (h : TimeHeap) (root : Ptr) (r : Store × TimeHeap) : Type 0 where
  pub valid : IsValid r.0 r.1
  pub size : suc r.1.cur_size ≡ h.cur_size
  pub capacity : r.1.capacity ≡ h.capacity
  pub same : (s : Slot) → held s r.1 + hit s (ref root) ≡ held s h
  pub freed : r.0 ≡ without m root

module _ (m : Store) (h : TimeHeap) (v : IsValid m h) (n : ℕ) (size : h.cur_size ≡ suc n)
    (root : Ptr) (at_root : h.array 0 ≡ ref root) where
  -- The heap that pop_timer hands to percolate_down.
  abbrev cut : TimeHeap
  cut = record h { array = update h.array 0 (h.array n); cur_size = n }

  cut_count : (s : Slot) → held s cut + hit s (ref root) ≡ held s h
  cut_count s = elim (ℕ_discrete n 0) [
    | yes e ↦ rw (size, e, at_root) (omega arith)
    | no e ↦
        rw (size, ← at_root) (omega (arith, count-update s (h.array n) n 0 h.array (omega arith)))
  ]

  cut_ne : (s : Slot) → 0 < held s cut → s ≢ ref root
  cut_ne s pos e =
      omega (arith, cut_count s, v.owned.once s, hit_self (ref root), ap (λ t. hit t (ref root)) e)

  cut-AreOwned : AreOwned (without m root) n cut.array
  cut-AreOwned = record {
    live =
        λ s pos. without_live m root s (cut_ne s pos) (v.owned.live s (omega (arith, cut_count s)));
    once = λ s. omega (arith, cut_count s, v.owned.once s);
  }

  cut_key : (i : ℕ) → i < n → key (without m root) (cut.array i) ≡ key m (cut.array i)
  cut_key i lt =
      ap (λ (t : HeapTimer). t.expire)
        (without_key m root (cut.array i) (cut_ne (cut.array i) (count_pos n i cut.array lt)))

  cut_ordered : OrderedFrom 1 (without m root) n cut.array
  cut_ordered c p q r = ground (arith, cut_key c q, cut_key (parent c), v.ordered c)

  cut-Settled :
      Yields (Settled 0 (without m root) cut cut.array) (percolate_down (without m root) cut 0)
  cut-Settled = elim (ℕ_discrete n 0) [
    | yes e ↦ percolate_down-empty (without m root) cut e v.room
    | no e ↦ percolate_down-Settled 0 (without m root) cut 0 (
        Sinking-start 0 (without m root) cut (omega arith) (omega (arith, v.fits)) cut-AreOwned
          cut_ordered)
  ]

  -- On a valid heap that is not empty pop_timer ends without a fault: it frees the timer at the root, and
  -- leaves a valid heap of all the others, with the same capacity.
  pub pop_timer-Popped : Yields (Popped m h root) (pop_timer m h)
  unfolding pop_timer empty
  pop_timer-Popped =
      let root_live : is_live m (ref root) ≡ true =
        subst (λ s. is_live m s ≡ true) at_root
          (live_at m h.cur_size h.array v.owned 0 (omega arith)) in
      let last : h.cur_size - 1 ≡ n = omega arith in
      Yields-if (h.cur_size == 0) (λ none_left. absurd (ground arith))
        λ _.
          rw
            (
              read-ok h 0 v.room,
              at_root,
              at_root,
              release-ok m root root_live,
              read-ok h (h.cur_size - 1) (omega (arith, v.fits)),
              last,
              write-ok (record h { cur_size = n }) 0 (h.array n) v.room,
            )
            (Yields-bind cut-Settled λ h' s. yields (record {
              valid = record {
                room = omega (arith, s.capacity, v.room);
                fits = omega (arith, s.capacity, s.size, v.fits);
                owned =
                    rw s.size
                      (AreOwned-same (without m root) n _ _ (λ t. sym (s.same t)) cut-AreOwned);
                ordered = rw s.size s.ordered;
              };
              size = omega (arith, s.size);
              capacity = s.capacity;
              same = λ t. rw s.size (omega (arith, s.same t, cut_count t));
              freed = refl;
            }))
