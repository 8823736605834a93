-- ===== src/TimeHeap/Down.antt =====
-- percolate_down of time_heap.h, and the loop that orders an array by it.
use mathlib.Core.Path.{fun_ext}
use linux_learning.Prelude.{
  ap, ℕ, zero, suc, ◌+◌, ◌-◌, ◌*◌, ◌≤◌, ◌<◌, ◌≡◌, ◌≢◌, ◌⊎◌, refl, sym, ◌∙◌, true, arith, ltb,
  ltb→lt, ok, update, Yields, yields, Yields-bind, Yields-if, Yields-weaken,
}
use linux_learning.TimeHeap.{
  Store, TimeHeap, Slot, parent, read, deref, pick_child, down_loop, percolate_down, heapify,
}
use linux_learning.TimeHeap.Count.{move_hole, SameSlots}
use linux_learning.TimeHeap.Order.{
  is_live, timer, key, deref-ok, read-ok, write-ok, OrderedFrom, AreOwned, AreOwned-same, live_at,
  Settled,
}

-- Only the edges below the hole may be out of order, once `tmp` fills it.
pub record Sinking (lo : ℕ) (m : Store) (h : TimeHeap) (hole : ℕ) (tmp : Slot) : Type 0 where
  pub inside : hole < h.cur_size
  pub fits : h.cur_size ≤ h.capacity
  pub owned : AreOwned m h.cur_size (update h.array hole tmp)
  pub edges :
      (c : ℕ)
      → 0 < c
      → c < h.cur_size
      → lo ≤ parent c
      → parent c ≢ hole
      → key m (update h.array hole tmp (parent c)) ≤ key m (update h.array hole tmp c)
  pub bridged :
      (c : ℕ)
      → 0 < c
      → c < h.cur_size
      → parent c ≡ hole
      → 0 < hole
      → lo ≤ parent hole
      → key m (h.array (parent hole)) ≤ key m (h.array c)

module _ (m : Store) (h : TimeHeap) (hole : ℕ) where
  -- The child of the hole that expires first.
  pub record IsEarlier (child : ℕ) : Type 0 where
    pub inside : child < h.cur_size
    pub below : parent child ≡ hole
    pub pos : 0 < child
    pub least :
        (c : ℕ)
        → 0 < c
        → c < h.cur_size
        → parent c ≡ hole
        → key m (h.array child) ≤ key m (h.array c)

module _ (m : Store) (h : TimeHeap) (hole : ℕ) (fits : h.cur_size ≤ h.capacity)
    (live : (i : ℕ) → i < h.cur_size → i ≢ hole → is_live m (h.array i) ≡ true) where
  visit-ok :
      (i : ℕ)
      → i < h.cur_size
      → i ≢ hole
      → (read h i ≡ ok (h.array i)) × (deref m (h.array i) ≡ ok (timer m (h.array i)))
  visit-ok i lt ne = (read-ok h i (omega arith), deref-ok m (h.array i) (live i lt ne))

  only_child : (c : ℕ) → 0 < c → parent c ≡ hole → (c ≡ hole * 2 + 1) ⊎ (c ≡ hole * 2 + 1 + 1)
  only_child c pos e = omega arith

  pub pick_child-IsEarlier :
      hole * 2 + 1 < h.cur_size → Yields (IsEarlier m h hole) (pick_child m h (hole * 2 + 1))
  unfolding pick_child
  pick_child-IsEarlier lt =
      Yields-if (ltb (hole * 2 + 1 + 1) h.cur_size)
        (λ two.
          let in_size = ltb→lt _ _ two in
          let right = visit-ok (hole * 2 + 1 + 1) in_size (omega arith) in
          let left = visit-ok (hole * 2 + 1) lt (omega arith) in
          rw (right.0, right.1, left.0, left.1)
            (yields record {
              inside = ground arith;
              below = ground arith;
              pos = ground arith;
              least = λ c p q r. ground (arith, only_child c p r);
            }))
        (λ one. yields (record {
          inside = lt;
          below = omega arith;
          pos = omega arith;
          least = λ c p q r. ground (arith, only_child c p r);
        }))

module _ (lo : ℕ) (m : Store) (h : TimeHeap) (hole : ℕ) (tmp : Slot) (v : Sinking lo m h hole tmp)
    (child : ℕ) (e : IsEarlier m h hole child) where
  -- The heap with the child's entry moved up, and the hole where it stood.
  abbrev raised : TimeHeap
  raised = record h { array = update h.array hole (h.array child) }

  raised-same : SameSlots h.cur_size (update raised.array child tmp) (update h.array hole tmp)
  raised-same =
      move_hole h.cur_size hole child h.array tmp v.inside e.inside (omega (arith, e.below, e.pos))

  sink_step : key m (h.array child) < key m tmp → Sinking lo m raised child tmp
  sink_step later = record {
    inside = e.inside;
    fits = v.fits;
    owned = AreOwned-same m h.cur_size _ _ (λ s. sym (raised-same s)) v.owned;
    edges = λ c p q r s.
        ground (arith, later, v.edges c, v.bridged child, e.least c, e.below, e.pos, e.inside);
    bridged = λ c p q r s t. ground (arith, v.edges c, e.below);
  }

  Settled-move :
      (h' : TimeHeap)
      → Settled lo m raised (update raised.array child tmp) h'
      → Settled lo m h (update h.array hole tmp) h'
  Settled-move h' s = record {
    capacity = s.capacity;
    size = s.size;
    same = λ t. s.same t ∙ raised-same t;
    ordered = s.ordered;
  }

down_loop-Settled :
    (k lo : ℕ) (m : Store) (h : TimeHeap) (hole : ℕ) (tmp : Slot)
    → h.cur_size - hole < k
    → Sinking lo m h hole tmp
    → Yields (Settled lo m h (update h.array hole tmp)) (down_loop k m h hole tmp)
unfolding down_loop
down_loop-Settled zero lo m h hole tmp f v = absurd (omega arith)
down_loop-Settled (suc k) lo m h hole tmp f v =
    Yields-if (ltb (hole * 2 + 1) h.cur_size)
      (λ more.
        Yields-bind
          (pick_child-IsEarlier m h hole v.fits
            (λ i lt ne. ground (arith, live_at m h.cur_size _ v.owned i lt)) (ltb→lt _ _ more))
          λ child e.
            let here = v.fits in
            let tmp_live : is_live m tmp ≡ true =
              ground (arith, live_at m h.cur_size _ v.owned hole v.inside) in
            let child_live : is_live m (h.array child) ≡ true =
              ground (arith, live_at m h.cur_size _ v.owned child e.inside, e.below, e.pos) in
            rw
              (
                read-ok h child (omega (arith, e.inside, here)),
                deref-ok m (h.array child) child_live,
                deref-ok m tmp tmp_live,
              )
              (Yields-if (ltb (key m (h.array child)) (key m tmp))
                (λ later. rw (write-ok h hole (h.array child) (omega (arith, v.inside, here))) (
                  Yields-weaken
                    (down_loop-Settled k lo m _ child tmp
                      (omega (arith, e.below, e.pos, e.inside, f))
                      (sink_step lo m h hole tmp v child e (ltb→lt _ _ later)))
                    λ h' s. Settled-move lo m h hole tmp v child e h' s))
                (λ settled. rw (write-ok h hole tmp (omega (arith, v.inside, here))) (
                  yields (record {
                    capacity = refl;
                    size = refl;
                    same = λ s. refl;
                    ordered = λ c p q r. ground (arith, v.edges c, e.least c, settled);
                  })))))
      (λ leaf. rw (write-ok h hole tmp (omega (arith, v.inside, v.fits))) (
        yields (record {
          capacity = refl;
          size = refl;
          same = λ s. refl;
          ordered = λ c p q r. ground (arith, v.edges c);
        })))

update_self : (a : ℕ → Slot) (i : ℕ) → update a i (a i) ≡ a
update_self a i = fun_ext λ j. ground (arith, λ (e : i ≡ j). ap a e)

-- percolate_down puts an entry that is too high in the tree where it belongs.
pub percolate_down-Settled :
    (lo : ℕ) (m : Store) (h : TimeHeap) (hole : ℕ)
    → Sinking lo m h hole (h.array hole)
    → Yields (Settled lo m h h.array) (percolate_down m h hole)
unfolding percolate_down
percolate_down-Settled lo m h hole v =
    let run =
      down_loop-Settled (suc h.cur_size) lo m h hole (h.array hole) (omega (arith, v.inside)) v in
    rw (read-ok h hole (omega (arith, v.inside, v.fits))) (rw (update_self h.array hole) at run)

pub Sinking-start :
    (i : ℕ) (m : Store) (h : TimeHeap)
    → i < h.cur_size
    → h.cur_size ≤ h.capacity
    → AreOwned m h.cur_size h.array
    → OrderedFrom (suc i) m h.cur_size h.array
    → Sinking i m h i (h.array i)
Sinking-start i m h inside fits owned ordered = record {
  inside = inside;
  fits = fits;
  owned = rw (update_self h.array i) owned;
  edges = λ c p q r s. ground (arith, ordered c, λ (e : i ≡ c). ap h.array e);
  bridged = λ c p q r s t. absurd (omega arith);
}

-- The loop of the second constructor orders the whole array.
pub heapify-Settled :
    (i : ℕ) (m : Store) (h : TimeHeap)
    → i ≤ h.cur_size
    → h.cur_size ≤ h.capacity
    → AreOwned m h.cur_size h.array
    → OrderedFrom i m h.cur_size h.array
    → Yields (Settled 0 m h h.array) (heapify m i h)
unfolding heapify
heapify-Settled zero m h le fits owned ordered =
    yields (record { capacity = refl; size = refl; same = λ s. refl; ordered = ordered })
heapify-Settled (suc i) m h le fits owned ordered =
    Yields-bind (percolate_down-Settled i m h i (Sinking-start i m h le fits owned ordered)) λ h' s.
      let owned' = AreOwned-same m h.cur_size _ _ (λ t. sym (s.same t)) owned in
      Yields-weaken
        (heapify-Settled i m h' (omega (arith, s.size)) (omega (arith, s.size, s.capacity))
          (rw s.size owned') (rw s.size s.ordered))
        λ g t. record {
          capacity = t.capacity ∙ s.capacity;
          size = t.size ∙ s.size;
          same = λ u. (rw s.size at (t.same u)) ∙ s.same u;
          ordered = rw s.size at t.ordered;
        }
