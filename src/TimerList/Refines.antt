-- ===== src/TimerList/Refines.antt =====
-- sort_timer_list.cpp as a sorted list: each operation against its abstract counterpart.
use mathlib.Core.Path.{subst}
use linux_learning.Prelude.{
  ℕ, ◌<◌, ◌≡◌, sym, false, none, some, [], ◌∷◌, ◌++◌, arith, ltb, ◌==◌, Bool-cases, inl, inr,
  length, All, Yields, Yields-weaken,
}
use linux_learning.Links.{Ptr, Store}
use linux_learning.Links.Chain.{Cells, has}
use linux_learning.TimerList.{
  Task, TimerList, Timers, util_timer, add_timer, adjust_timer, del_timer, tick,
}
use linux_learning.TimerList.Spec.{
  IsList, IsSorted, SortedFrom, SortedFrom-remove, SortedFrom-weaken, Below, HasCallbacks, insert,
  insert-append, insert-SortedFrom, later,
}
use linux_learning.TimerList.Insert.{Became, add_timer-Became}
use linux_learning.TimerList.Delete.{del_timer-Removed}
use linux_learning.TimerList.Adjust.{adjust_timer-Became}
use linux_learning.TimerList.Ticks.{Ticked, tick-Due}

-- The outcome is the sorted list `l`, and no node but those of the list and `t` has changed.
abbrev pub Sorts : Store Task → Cells Task → Ptr → Timers → Type 0
Sorts m l t r = IsSorted r.0 r.1 l × ((q : Ptr) → has q l ≡ false → (q == t) ≡ false → r.0 q ≡ m q)

-- On a sorted list, given a new timer that is not in it and more rounds than the list has timers,
-- add_timer ends without a fault in the sorted list with the timer behind those that do not expire
-- later, and changes no other node of the store.
pub add_timer-IsSorted :
    (k : ℕ) (m : Store Task) (list : TimerList) (l : Cells Task) (t : Ptr) (d : Task)
    → IsSorted m list l
    → m t ≡ some (util_timer d)
    → has t l ≡ false
    → length l < k
    → Yields (Sorts m (insert t d l) t) (add_timer k m list (some t))
add_timer-IsSorted k m list l t d v new apart enough =
    Yields-weaken (add_timer-Became k m list l t d v.is new apart enough) λ r b.
      (record { is = b.is; sorted = insert-SortedFrom 0 t d l (omega arith) v.sorted }, b.same)

-- When a timer of a list that is sorted but for it has come to expire no earlier than those in front of
-- it, and there are more rounds than timers behind it, adjust_timer ends without a fault in the sorted
-- list that add_timer makes from it and the others, and changes no node outside of the list.
pub adjust_timer-IsSorted :
    (k : ℕ) (m : Store Task) (list : TimerList) (l : Cells Task) (t : Ptr) (d : Task)
    (r : Cells Task)
    → IsList m list (l ++ (t, d) ∷ r)
    → SortedFrom 0 (l ++ r)
    → Below d l
    → length r < k
    → Yields (Sorts m (insert t d (l ++ r)) t) (adjust_timer k m list (some t))
adjust_timer-IsSorted k m list l t d r v sorted below enough =
    Yields-weaken
      (subst (λ x. Yields (Became m x t) (adjust_timer k m list (some t)))
        (sym (insert-append t d l r below)) (adjust_timer-Became k m list l t d r v enough))
      λ s b. (
        record { is = b.is; sorted = insert-SortedFrom 0 t d (l ++ r) (omega arith) sorted },
        b.same,
      )

-- On a sorted list del_timer of one of its timers, wherever it stands, ends without a fault: the timer is
-- freed, the sorted list of the others is left, and no other node of the store has changed.
pub del_timer-IsSorted :
    (m : Store Task) (list : TimerList) (l : Cells Task) (t : Ptr) (d : Task) (r : Cells Task)
    → IsSorted m list (l ++ (t, d) ∷ r)
    → Yields (λ s. Sorts m (l ++ r) t s × (s.0 t ≡ none)) (del_timer m list (some t))
del_timer-IsSorted m list l t d r v =
    Yields-weaken (del_timer-Removed m list l t d r v.is) λ s b.
      ((record { is = b.is; sorted = SortedFrom-remove 0 l t d r v.sorted }, b.same), b.freed)

later-All :
    (cur lo : ℕ) (l : Cells Task) → SortedFrom lo l → cur < lo → All (λ c. cur < c.1.expire) l
later-All cur lo [] v lt = tt
later-All cur lo ((p, d) ∷ l) v lt = (omega arith, later-All cur d.expire l v.1 (omega arith))

later-SortedFrom :
    (lo cur : ℕ) (l : Cells Task)
    → SortedFrom lo l
    → SortedFrom lo (later cur l) × All (λ c. cur < c.1.expire) (later cur l)
later-SortedFrom lo cur [] v = (tt, tt)
later-SortedFrom lo cur ((p, d) ∷ l) v = elim (Bool-cases (ltb cur d.expire)) [
  | inl not_due ↦ rw not_due (v, (ground arith, later-All cur d.expire l v.1 (ground arith)))
  | inr due ↦ rw due (
      let (sorted, rest) = later-SortedFrom d.expire cur l v.1 in
      (SortedFrom-weaken d.expire lo (later cur l) v.0 sorted, rest))
]

-- On a sorted list in which every timer has a callback, given more rounds than it has timers, tick ends
-- without a fault. It calls the callbacks of the timers that are due, in order of expiry, and frees these
-- timers and no others; the sorted list of those that expire later is left, and no node outside of the
-- list has changed.
pub tick-IsSorted :
    (k cur : ℕ) (m : Store Task) (list : TimerList) (l : Cells Task)
    → IsSorted m list l
    → HasCallbacks l
    → length l < k
    → Yields
        (λ r.
          Ticked cur m l r
          × IsSorted r.1.0 r.1.1 (later cur l)
          × All (λ c. cur < c.1.expire) (later cur l))
        (tick k cur m list)
tick-IsSorted k cur m list l v h enough =
    let (sorted, later-All) = later-SortedFrom 0 cur l v.sorted in
    Yields-weaken (tick-Due k cur m list l v.is h enough)
      λ r t. (t, record { is = t.is; sorted = sorted }, later-All)
