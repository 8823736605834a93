-- ===== src/TimerList/RoundTrip.antt =====
-- sort_timer_list.cpp: a timer that is added and deleted again.
use mathlib.Core.Path.{subst}
use linux_learning.Prelude.{
  ℕ, ◌<◌, ◌≡◌, refl, sym, ap, ◌∙◌, false, none, some, [], ◌∷◌, ◌++◌, arith, ltb, Bool-cases, inl,
  inr, length, ◌>>=◌, Yields, Yields-bind, Yields-weaken,
}
use linux_learning.Links.{Ptr, Store}
use linux_learning.Links.Chain.{Cells, has}
use linux_learning.TimerList.{Task, TimerList, util_timer, add_timer, del_timer}
use linux_learning.TimerList.Spec.{IsSorted, insert, has-insert}
use linux_learning.TimerList.Refines.{Sorts, add_timer-IsSorted, del_timer-IsSorted}

-- A timer stands between two parts of the list that it was inserted into.
insert-splits :
    (t : Ptr) (d : Task) (l : Cells Task)
    → (a b : Cells Task) × (insert t d l ≡ a ++ (t, d) ∷ b) × (l ≡ a ++ b)
insert-splits t d [] = ([], [], refl, refl)
insert-splits t d ((p, e) ∷ l) =
    let (a, b, front, whole) = insert-splits t d l in
    elim (Bool-cases (ltb d.expire e.expire)) [
      | inl earlier ↦ rw earlier ([], (p, e) ∷ l, refl, refl)
      | inr not_earlier ↦
          rw not_earlier ((p, e) ∷ a, b, ap (λ r. (p, e) ∷ r) front, ap (λ r. (p, e) ∷ r) whole)
    ]

-- Adding a new timer to a sorted list, given more rounds than the list has timers, and deleting it again
-- ends without a fault in the sorted list that there was, with the timer freed and no node changed that is
-- not in the list.
pub add_timer-del_timer :
    (k : ℕ) (m : Store Task) (list : TimerList) (l : Cells Task) (t : Ptr) (d : Task)
    → IsSorted m list l
    → m t ≡ some (util_timer d)
    → has t l ≡ false
    → length l < k
    → Yields
        (λ r. Sorts m l t r × (r.0 t ≡ none))
        (add_timer k m list (some t) >>= λ r. del_timer r.0 r.1 (some t))
add_timer-del_timer k m list l t d v new apart enough =
    let (a, b, there, whole) = insert-splits t d l in
    Yields-bind (add_timer-IsSorted k m list l t d v new apart enough) λ r s.
      Yields-weaken (del_timer-IsSorted r.0 r.1 a t d b (subst (λ x. IsSorted r.0 r.1 x) there s.0))
        λ r' f. (
          (
            subst (λ x. IsSorted r'.0 r'.1 x) (sym whole) f.0.0,
            λ q out away.
                f.0.1 q (ap (has q) (sym whole) ∙ out) away
                ∙ s.1 q (has-insert q t d l ∙ ground (arith, away, out)) away,
          ),
          f.1,
        )
