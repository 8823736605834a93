-- ===== src/TimeHeap/Insert.antt =====
-- Building a heap of time_heap.h and adding to it.
use mathlib.Core.Path.{subst}
use linux_learning.Prelude.{
  ℕ, suc, ◌+◌, ◌-◌, ◌/◌, ◌≤◌, ◌<◌, ◌≡◌, refl, sym, ap, ℕ_discrete, ◌∙◌, true, some, arith, ltb, leb,
  ◌==◌, if◌then◌else◌, update, Yields, yields, Yields-if, Yields-weaken,
}
use linux_learning.TimeHeap.{
  Ptr, Store, TimeHeap, Slot, null, ref, stray, parent, add_timer, resize, new_from, as_written,
}
use linux_learning.TimeHeap.Count.{
  count, hit, count-agree, count-update_out, SameSlots, hit_eq, hit_le,
}
use linux_learning.TimeHeap.Order.{is_live, key, AreOwned, AreOwned-same, live_at, IsValid}
use linux_learning.TimeHeap.Down.{heapify-Settled}
use linux_learning.TimeHeap.Up.{
  as_meant, Rising, up_loop-Settled, up_loop-stays, up_loop_written-stray,
}

-- How often the heap holds an entry.
abbrev pub held : Slot → TimeHeap → ℕ
held s h = count s h.cur_size h.array

-- What add_timer's loop starts from: room for one more, and the entries as they were.
abbrev pub grown : TimeHeap → TimeHeap
grown h = record (if leb h.capacity h.cur_size then resize h else h) { cur_size = suc h.cur_size }

module _ (m : Store) (h : TimeHeap) (v : IsValid m h) where
  pub grown_room : h.cur_size < (grown h).capacity
  unfolding resize
  grown_room = ground (arith, v.room, v.fits)

  pub grown_entry : (i : ℕ) → i < h.cur_size → (grown h).array i ≡ h.array i
  unfolding resize
  grown_entry i lt = ground arith

  module _ (p : Ptr) (p_live : is_live m (ref p) ≡ true) (fresh : held (ref p) h ≡ 0) where
    count-grown :
        (s : Slot)
        → count s (suc h.cur_size) (update (grown h).array h.cur_size (ref p))
          ≡ held s h + hit s (ref p)
    count-grown s = ground (
      arith,
      count-update_out s (ref p) h.cur_size h.cur_size (grown h).array,
      count-agree s h.cur_size (grown h).array h.array grown_entry,
    )

    sum_live : (s : Slot) → 0 < held s h + hit s (ref p) → is_live m s ≡ true
    sum_live s pos = elim (ℕ_discrete (hit s (ref p)) 0) [
      | yes old ↦ v.owned.live s (omega arith)
      | no new ↦ rw (hit_eq s (ref p) (omega arith)) p_live
    ]

    sum_once : (s : Slot) → held s h + hit s (ref p) ≤ 1
    sum_once s = elim (ℕ_discrete (hit s (ref p)) 0) [
      | yes old ↦ omega (arith, v.owned.once s)
      | no new ↦ rw (hit_eq s (ref p) (omega arith)) (omega (arith, fresh, hit_le (ref p) (ref p)))
    ]

    grown-Rising : Rising m (grown h) h.cur_size p
    grown-Rising = record {
      inside = omega arith;
      fits = grown_room;
      owned = record {
        live = λ s pos. sum_live s (omega (arith, count-grown s));
        once = λ s. omega (arith, count-grown s, sum_once s);
      };
      edges = λ c q r s. ground (arith, v.ordered c, grown_entry c, grown_entry (parent c));
      bridged = λ c q r s t. absurd (omega arith);
    }

    -- add_timer, with the slip in its loop read as it is meant, given a valid heap and an allocated timer
    -- that is not in it, ends without a fault in a valid heap that holds that timer and those from before.
    pub add_timer-IsValid :
        Yields
          (λ h'.
            IsValid m h'
            × (h'.cur_size ≡ suc h.cur_size)
            × ((s : Slot) → held s h' ≡ held s h + hit s (ref p)))
          (add_timer as_meant m h (some p))
    unfolding add_timer
    add_timer-IsValid =
        Yields-weaken
          (up_loop-Settled (suc h.cur_size) m (grown h) h.cur_size p (omega arith) grown-Rising)
          λ h' s. (
            record {
              room = omega (arith, s.capacity, grown_room);
              fits = omega (arith, s.capacity, s.size, grown_room);
              owned =
                  rw s.size
                    (AreOwned-same m (suc h.cur_size) _ _ (λ t. sym (s.same t)) grown-Rising.owned);
              ordered = rw s.size s.ordered;
            },
            s.size,
            λ t. rw s.size (s.same t ∙ count-grown t),
          )

-- As it is written, add_timer on a valid heap, given an allocated timer that is not in it and that expires no
-- earlier than the parent of the free place, ends without a fault in a valid heap that holds that timer and
-- those from before.
pub add_timer_written-IsValid :
    (m : Store) (h : TimeHeap) (p : Ptr)
    → IsValid m h
    → is_live m (ref p) ≡ true
    → held (ref p) h ≡ 0
    → (0 < h.cur_size → key m (h.array (parent h.cur_size)) ≤ key m (ref p))
    → Yields
        (λ h'.
          IsValid m h'
          × (h'.cur_size ≡ suc h.cur_size)
          × ((s : Slot) → held s h' ≡ held s h + hit s (ref p)))
        (add_timer as_written m h (some p))
unfolding add_timer
add_timer_written-IsValid m h p v p_live fresh settled =
    subst (Yields _)
      (sym (
        up_loop-stays h.cur_size m (grown h) h.cur_size p (grown_room m h v) p_live
          (λ i lt. rw (grown_entry m h v i lt) (live_at m h.cur_size h.array v.owned i lt))
          (λ pos. rw (grown_entry m h v (parent h.cur_size) (omega arith)) (settled pos))))
      (add_timer-IsValid m h v p p_live fresh)

stray_invalid :
    (m : Store) (h : TimeHeap) (i n : ℕ) → i < h.cur_size → h.array i ≡ stray n → ¬ IsValid m h
stray_invalid m h i n lt e v = cc (live_at m h.cur_size h.array v.owned i lt, ap (is_live m) e)

-- As it is written, add_timer on a valid heap that is not empty, given an allocated timer that expires
-- before the parent of the free place, puts the parent's index there as a pointer: the heap that it
-- leaves is not valid.
pub add_timer_written-stray :
    (m : Store) (h : TimeHeap) (p : Ptr)
    → IsValid m h
    → is_live m (ref p) ≡ true
    → 0 < h.cur_size
    → key m (ref p) < key m (h.array (parent h.cur_size))
    → Yields
        (λ h'.
          (h'.cur_size ≡ suc h.cur_size)
          × (h'.array h.cur_size ≡ stray (parent h.cur_size))
          × (¬ IsValid m h'))
        (add_timer as_written m h (some p))
unfolding add_timer
add_timer_written-stray m h p v p_live pos earlier =
    Yields-weaken
      (up_loop_written-stray h.cur_size m (grown h) h.cur_size p pos (omega arith)
        (grown_room m h v) p_live
        (λ i lt. rw (grown_entry m h v i lt) (live_at m h.cur_size h.array v.owned i lt))
        (rw (grown_entry m h v (parent h.cur_size) (omega arith)) earlier))
      λ h' s. (
        s.0,
        s.1,
        λ bad. stray_invalid m h' h.cur_size (parent h.cur_size) (omega (arith, s.0)) s.1 bad,
      )

-- Given distinct pointers to allocated timers, no more of them than the capacity, which is positive, the
-- second constructor ends without an exception or a fault in a valid heap of exactly these timers.
pub new_from-IsValid :
    (m : Store) (init_array : ℕ → Slot) (size capacity : ℕ)
    → 0 < capacity
    → size ≤ capacity
    → AreOwned m size init_array
    → Yields
        (λ h.
          IsValid m h
          × (h.capacity ≡ capacity)
          × (h.cur_size ≡ size)
          × SameSlots size h.array init_array)
        (new_from m init_array size capacity)
unfolding new_from
new_from-IsValid m init_array size capacity pos le owned =
    let h : TimeHeap = record {
      array = λ i. if ltb i size then init_array i else null;
      capacity = capacity;
      cur_size = size;
    } in
    let same : SameSlots size h.array init_array =
      λ s. count-agree s size h.array init_array (λ i lt. ground arith) in
    let owned' : AreOwned m size h.array =
      AreOwned-same m size init_array h.array (λ s. sym (same s)) owned in
    Yields-if (ltb capacity size) (λ over. absurd (ground arith))
      λ _.
        Yields-if (size == 0)
          (λ none_given. yields (
            record {
              room = pos;
              fits = le;
              owned = owned';
              ordered = λ c p q r. absurd (ground arith);
            },
            refl,
            refl,
            same,
          ))
          (λ some_given.
            Yields-weaken
              (heapify-Settled ((size - 1) / 2 + 1) m h (ground arith) le owned'
                (λ c p q r. absurd (omega arith)))
              λ g s. (
                record {
                  room = omega (arith, s.capacity);
                  fits = omega (arith, s.capacity, s.size);
                  owned = rw s.size (AreOwned-same m size _ _ (λ t. sym (s.same t)) owned');
                  ordered = rw s.size s.ordered;
                },
                s.capacity,
                s.size,
                λ t. s.same t ∙ same t,
              ))
