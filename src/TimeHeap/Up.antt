-- ===== src/TimeHeap/Up.antt =====
-- The loop of add_timer of time_heap.h, as it is meant and as it is written.
use linux_learning.Prelude.{
  ℕ, zero, suc, ◌≤◌, ◌<◌, ◌≡◌, ◌≢◌, refl, sym, ◌∙◌, true, arith, ltb, leb, ltb→lt, update,
  Bool-cases, inl, inr, Yields, yields, Yields-if, Yields-weaken,
}
use linux_learning.TimeHeap.{Ptr, Store, TimeHeap, ref, stray, parent, up_loop, Slot, as_written}
use linux_learning.TimeHeap.Count.{move_hole, SameSlots}
use linux_learning.TimeHeap.Order.{
  is_live, key, deref-ok, read-ok, write-ok, AreOwned, AreOwned-same, live_at, Settled,
}

-- What line 89 must mean: the entry at `parent`.
abbrev pub as_meant : ℕ → Slot → Slot
as_meant parent s = s

-- Only the edge above the hole may be out of order, once the timer `p` fills it.
pub record Rising (m : Store) (h : TimeHeap) (hole : ℕ) (p : Ptr) : Type 0 where
  pub inside : hole < h.cur_size
  pub fits : h.cur_size ≤ h.capacity
  pub owned : AreOwned m h.cur_size (update h.array hole (ref p))
  pub edges :
      (c : ℕ)
      → 0 < c
      → c < h.cur_size
      → c ≢ hole
      → key m (update h.array hole (ref p) (parent c)) ≤ key m (update h.array hole (ref p) c)
  pub bridged :
      (c : ℕ)
      → 0 < c
      → c < h.cur_size
      → parent c ≡ hole
      → 0 < hole
      → key m (h.array (parent hole)) ≤ key m (h.array c)

module _ (m : Store) (h : TimeHeap) (hole : ℕ) (p : Ptr) (v : Rising m h hole p)
    (pos : 0 < hole) where
  abbrev lowered : TimeHeap
  lowered = record h { array = update h.array hole (h.array (parent hole)) }

  lowered-same :
      SameSlots h.cur_size
        (update lowered.array (parent hole) (ref p))
        (update h.array hole (ref p))
  lowered-same =
      move_hole h.cur_size hole (parent hole) h.array (ref p) v.inside (omega (arith, v.inside))
        (omega arith)

  rise_step : key m (ref p) < key m (h.array (parent hole)) → Rising m lowered (parent hole) p
  rise_step earlier = record {
    inside = omega (arith, v.inside);
    fits = v.fits;
    owned = AreOwned-same m h.cur_size _ _ (λ s. sym (lowered-same s)) v.owned;
    edges =
        λ c q r s. ground (arith, earlier, v.edges c, v.edges (parent hole), v.bridged c, v.inside);
    bridged = λ c q r s t. ground (arith, v.edges c, v.edges (parent hole), v.inside);
  }

  Settled-move :
      (h' : TimeHeap)
      → Settled 0 m lowered (update lowered.array (parent hole) (ref p)) h'
      → Settled 0 m h (update h.array hole (ref p)) h'
  Settled-move h' s = record {
    capacity = s.capacity;
    size = s.size;
    same = λ t. s.same t ∙ lowered-same t;
    ordered = s.ordered;
  }

  parent_live : is_live m (h.array (parent hole)) ≡ true
  parent_live = ground (arith, live_at m h.cur_size _ v.owned (parent hole), v.inside)

-- The loop, read as it is meant, puts a timer that is too low in the tree where it belongs.
pub up_loop-Settled :
    (k : ℕ) (m : Store) (h : TimeHeap) (hole : ℕ) (p : Ptr)
    → hole < k
    → Rising m h hole p
    → Yields (Settled 0 m h (update h.array hole (ref p))) (up_loop k as_meant m h hole p)
unfolding up_loop
up_loop-Settled zero m h hole p f v = absurd (omega arith)
up_loop-Settled (suc k) m h hole p f v =
    let p_live : is_live m (ref p) ≡ true =
      ground (arith, live_at m h.cur_size _ v.owned hole v.inside) in
    let fits : h.cur_size ≤ h.capacity = v.fits in
    let inside : hole < h.cur_size = v.inside in
    let place = write-ok h hole (ref p) (omega arith) in
    Yields-if (ltb 0 hole)
      (λ pos.
        let pos' : 0 < hole = ltb→lt _ _ pos in
        rw
          (
            read-ok h (parent hole) (omega arith),
            deref-ok m (h.array (parent hole)) (parent_live m h hole p v pos'),
            deref-ok m (ref p) p_live,
          )
          (Yields-if (leb (key m (h.array (parent hole))) (key m (ref p)))
            (λ settled. rw place (
              yields (record {
                capacity = refl;
                size = refl;
                same = λ s. refl;
                ordered = λ c q r s. ground (arith, v.edges c);
              })))
            (λ earlier. rw (write-ok h hole (h.array (parent hole)) (omega arith)) (
              Yields-weaken
                (up_loop-Settled k m (lowered m h hole p v pos') (parent hole) p (omega arith)
                  (rise_step m h hole p v pos' (ground arith)))
                λ h' s. Settled-move m h hole p v pos' h' s))))
      (λ root. rw place (
        yields (record {
          capacity = refl;
          size = refl;
          same = λ s. refl;
          ordered = λ c q r s. ground (arith, v.edges c);
        })))

-- A timer that need not rise is put into the hole, whatever line 89 says.
pub up_loop-stays :
    (k : ℕ) (m : Store) (h : TimeHeap) (hole : ℕ) (p : Ptr)
    → hole < h.capacity
    → is_live m (ref p) ≡ true
    → ((i : ℕ) → i < hole → is_live m (h.array i) ≡ true)
    → (0 < hole → key m (h.array (parent hole)) ≤ key m (ref p))
    → up_loop (suc k) as_written m h hole p ≡ up_loop (suc k) as_meant m h hole p
unfolding up_loop
up_loop-stays k m h hole p room p_live live settled = elim (Bool-cases (ltb 0 hole)) [
  | inl pos ↦
      let pos' : 0 < hole = ltb→lt _ _ pos in
      let stays : leb (key m (h.array (parent hole))) (key m (ref p)) ≡ true =
        ground (arith, settled pos') in
      rw
        (
          pos,
          read-ok h (parent hole) (omega arith),
          deref-ok m (h.array (parent hole)) (live (parent hole) (omega arith)),
          deref-ok m (ref p) p_live,
          stays,
        )
        refl
  | inr root ↦ rw root refl
]

-- As it is written, the loop leaves the entries below the hole alone.
pub up_loop_written-frame :
    (k : ℕ) (m : Store) (h : TimeHeap) (hole : ℕ) (p : Ptr)
    → hole < k
    → hole < h.capacity
    → is_live m (ref p) ≡ true
    → ((i : ℕ) → i < hole → is_live m (h.array i) ≡ true)
    → Yields
        (λ h'. (h'.cur_size ≡ h.cur_size) × ((j : ℕ) → hole < j → h'.array j ≡ h.array j))
        (up_loop k as_written m h hole p)
unfolding up_loop
up_loop_written-frame zero m h hole p f room p_live live = absurd (omega arith)
up_loop_written-frame (suc k) m h hole p f room p_live live =
    let place = write-ok h hole (ref p) room in
    Yields-if (ltb 0 hole)
      (λ pos.
        let pos' : 0 < hole = ltb→lt _ _ pos in
        rw
          (
            read-ok h (parent hole) (omega arith),
            deref-ok m (h.array (parent hole)) (live (parent hole) (omega arith)),
            deref-ok m (ref p) p_live,
          )
          (Yields-if (leb (key m (h.array (parent hole))) (key m (ref p)))
            (λ settled. rw place (yields (refl, λ j lt. ground arith)))
            (λ earlier. rw (write-ok h hole (stray (parent hole)) room) (
              Yields-weaken
                (up_loop_written-frame k m
                  (record h { array = update h.array hole (stray (parent hole)) }) (parent hole) p
                  (omega arith) (omega arith) p_live (λ i lt. ground (arith, live i)))
                λ h' s. (s.0, λ j lt. ground (arith, s.1 j))))))
      (λ root. rw place (yields (refl, λ j lt. ground arith)))

-- A timer that has to rise leaves an integer in the hole behind it.
pub up_loop_written-stray :
    (k : ℕ) (m : Store) (h : TimeHeap) (hole : ℕ) (p : Ptr)
    → 0 < hole
    → hole < suc k
    → hole < h.capacity
    → is_live m (ref p) ≡ true
    → ((i : ℕ) → i < hole → is_live m (h.array i) ≡ true)
    → key m (ref p) < key m (h.array (parent hole))
    → Yields
        (λ h'. (h'.cur_size ≡ h.cur_size) × (h'.array hole ≡ stray (parent hole)))
        (up_loop (suc k) as_written m h hole p)
unfolding up_loop
up_loop_written-stray k m h hole p pos f room p_live live earlier =
    Yields-if (ltb 0 hole)
      (λ _.
        rw
          (
            read-ok h (parent hole) (omega arith),
            deref-ok m (h.array (parent hole)) (live (parent hole) (omega arith)),
            deref-ok m (ref p) p_live,
          )
          (Yields-if (leb (key m (h.array (parent hole))) (key m (ref p)))
            (λ settled. absurd (ground arith))
            (λ _. rw (write-ok h hole (stray (parent hole)) room) (
              Yields-weaken
                (up_loop_written-frame k m
                  (record h { array = update h.array hole (stray (parent hole)) }) (parent hole) p
                  (omega arith) (omega arith) p_live (λ i lt. ground (arith, live i)))
                λ h' s. (s.0, ground (arith, s.1 hole))))))
      (λ root. absurd (ground arith))
