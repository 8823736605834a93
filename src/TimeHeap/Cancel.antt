-- ===== src/TimeHeap/Cancel.antt =====
-- del_timer and the destructor of time_heap.h.
use mathlib.Core.Path.{subst}
use native.Mathlib.Nat.{add-zero, zero-add}
use linux_learning.Prelude.{
  ℕ, zero, suc, ◌+◌, ◌≤◌, ◌<◌, ◌≡◌, ◌≢◌, refl, sym, ap, ◌∙◌, true, none, some, arith, ltb,
  if◌then◌else◌, update, Yields, yields, Yields-weaken,
}
use linux_learning.TimeHeap.{
  Ptr, Store, TimeHeap, Slot, null, ref, stray, parent, del_timer, destroy, destroy_loop,
}
use linux_learning.TimeHeap.Count.{count, hit, hit_self}
use linux_learning.TimeHeap.Order.{is_live, timer, key, read-ok, deref-ok, IsValid}
use linux_learning.TimeHeap.Insert.{held}
use linux_learning.TimeHeap.Remove.{without, without_live, live_ref, release-ok}

-- The store in which the timer at `p` has no callback.
abbrev pub silenced : Store → Ptr → Store
silenced m p = update m p (some (record (timer m (ref p)) { cb_func = none }))

module _ (m : Store) (p : Ptr) (p_live : is_live m (ref p) ≡ true) where
  key-silenced : (s : Slot) → key (silenced m p) s ≡ key m s
  unfolding timer
  key-silenced null = refl
  key-silenced (ref q) = ground (arith, λ (e : p ≡ q). ap m e)
  key-silenced (stray n) = refl

  silenced_live : (s : Slot) → is_live m s ≡ true → is_live (silenced m p) s ≡ true
  silenced_live null h = h
  silenced_live (ref q) h = ground arith
  silenced_live (stray n) h = h

  silenced_callback : (timer (silenced m p) (ref p)).cb_func ≡ none
  unfolding timer
  silenced_callback = ground arith

  -- del_timer on an allocated timer ends without a fault, and a valid heap stays valid: the timer keeps
  -- its expiry and has no callback any more, and every other timer is as it was.
  pub del_timer-IsValid :
      (h : TimeHeap)
      → IsValid m h
      → Yields
          (λ m'.
            IsValid m' h
            × ((timer m' (ref p)).cb_func ≡ none)
            × ((timer m' (ref p)).expire ≡ (timer m (ref p)).expire)
            × ((q : Ptr) → q ≢ p → m' q ≡ m q))
          (del_timer m (some p))
  unfolding del_timer
  del_timer-IsValid h v = rw (deref-ok m (ref p) p_live) (
      yields (
        record {
          room = v.room;
          fits = v.fits;
          owned = record {
            live = λ s pos. silenced_live s (v.owned.live s pos);
            once = v.owned.once;
          };
          ordered = λ c q r s. omega (
            arith,
            key-silenced (h.array c),
            key-silenced (h.array (parent c)),
            v.ordered c q r s,
          );
        },
        silenced_callback,
        key-silenced (ref p),
        λ q ne. ground (arith, λ (e : p ≡ q). ne (sym e)),
      ))

-- How often an entry stands among the `n` from index `i` on.
abbrev pub ahead : Slot → ℕ → ℕ → (ℕ → Slot) → ℕ
ahead s zero i a = 0
ahead s (suc n) i a = hit s (a i) + ahead s n (i + 1) a

-- What the loop does at one address, when it holds a pointer.
destroy_loop-step :
    (n i : ℕ) (m : Store) (h : TimeHeap) (p : Ptr)
    → h.array i ≡ ref p
    → i + suc n ≤ h.capacity
    → ((s : Slot) → 0 < ahead s (suc n) i h.array → is_live m s ≡ true)
    → ((s : Slot) → ahead s (suc n) i h.array ≤ 1)
    → ((m' : Store)
        → ((s : Slot) → 0 < ahead s n (i + 1) h.array → is_live m' s ≡ true)
        → ((s : Slot) → ahead s n (i + 1) h.array ≤ 1)
        → Yields
            (λ g.
              (q : Ptr) → g q ≡ (if ltb 0 (ahead (ref q) n (i + 1) h.array) then none else m' q))
            (destroy_loop n (i + 1) m' h))
    → Yields
        (λ g. (q : Ptr) → g q ≡ (if ltb 0 (ahead (ref q) (suc n) i h.array) then none else m q))
        (destroy_loop (suc n) i m h)
unfolding destroy_loop
destroy_loop-step n i m h p at room live once again =
    let p_live : is_live m (ref p) ≡ true =
      subst (λ s. is_live m s ≡ true) at (live (h.array i) (omega (arith, hit_self (h.array i)))) in
    rw (read-ok h i (omega arith), at, release-ok m p p_live)
      (Yields-weaken
        (again (without m p) (λ s pos. without_live m p s (gone s pos) (live s (omega arith)))
          (λ s. omega (arith, once s)))
        λ g f q. ground (arith, f q, ap (hit (ref q)) at))
  where
    gone : (s : Slot) → 0 < ahead s n (i + 1) h.array → s ≢ ref p
    gone s pos e = omega (arith, once s, hit_self s, ap (hit s) (at ∙ sym e))

destroy_loop-frees :
    (n i : ℕ) (m : Store) (h : TimeHeap)
    → i + n ≤ h.capacity
    → ((s : Slot) → 0 < ahead s n i h.array → is_live m s ≡ true)
    → ((s : Slot) → ahead s n i h.array ≤ 1)
    → Yields
        (λ m'. (p : Ptr) → m' p ≡ (if ltb 0 (ahead (ref p) n i h.array) then none else m p))
        (destroy_loop n i m h)
unfolding destroy_loop
destroy_loop-frees zero i m h room live once = yields (λ p. refl)
destroy_loop-frees (suc n) i m h room live once =
    let (p, t, at, alloc) =
      live_ref m (h.array i) (live (h.array i) (omega (arith, hit_self (h.array i)))) in
    destroy_loop-step n i m h p at room live once
      (λ m' live' once'. destroy_loop-frees n (i + 1) m' h (omega arith) live' once')

ahead-suc :
    (s : Slot) (n i : ℕ) (a : ℕ → Slot) → ahead s (suc n) i a ≡ ahead s n i a + hit s (a (i + n))
ahead-suc s zero i a = omega (arith, ap (λ j. hit s (a j)) (add-zero i))
ahead-suc s (suc n) i a =
    let next : i + 1 + n ≡ i + suc n = omega arith in
    omega (arith, ahead-suc s n (i + 1) a, ap (λ j. hit s (a j)) next)

ahead-count : (s : Slot) (n : ℕ) (a : ℕ → Slot) → ahead s n 0 a ≡ count s n a
ahead-count s zero a = refl
ahead-count s (suc n) a =
    omega (arith, ahead-suc s n 0 a, ahead-count s n a, ap (λ j. hit s (a j)) (zero-add n))

-- The destructor of a valid heap ends without a fault, so no timer is deleted twice; afterwards the
-- heap's timers are freed and every other is as it was.
pub destroy-frees :
    (m : Store) (h : TimeHeap)
    → IsValid m h
    → Yields (λ m'. (p : Ptr) → m' p ≡ (if ltb 0 (held (ref p) h) then none else m p)) (destroy m h)
unfolding destroy
destroy-frees m h v =
    let same = λ (s : Slot). ahead-count s h.cur_size h.array in
    Yields-weaken
      (destroy_loop-frees h.cur_size 0 m h (omega (arith, v.fits))
        (λ s pos. v.owned.live s (omega (arith, same s)))
        (λ s. omega (arith, same s, v.owned.once s)))
      λ m' f p. rw (← same (ref p)) (f p)
