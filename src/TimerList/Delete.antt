-- ===== src/TimerList/Delete.antt =====
-- del_timer of sort_timer_list.cpp.
use mathlib.Core.Path.{subst}
use mathlib.Core.List.{append-nil}
use linux_learning.Prelude.{
  ◌≡◌, refl, sym, ap, ◌∙◌, false, Option, none, some, [], ◌∷◌, ◌++◌, ◌==◌, update, update_at,
  update_away, Yields, yields,
}
use linux_learning.Links.{Ptr, Node, Store}
use linux_learning.Links.Chain.{
  Cells, Chain, first, last, last-append, has, node, deref-ok, delete-ok,
}
use linux_learning.Links.Ends.{last-inside, apart_of_inside}
use linux_learning.Links.Unlink.{
  freed-Chain, outside, same_self, or_left, Left, unlink_first, unlink_last, unlink_between,
}
use linux_learning.TimerList.{Task, TimerList, Timers, del_timer, same_ptr}
use linux_learning.TimerList.Spec.{IsList, TailOf}

-- The timer `t` is freed, the list `l` is left, and every other node is as it was.
pub record Removed (m : Store Task) (l : Cells Task) (t : Ptr) (r : Timers) : Type 0 where
  pub is : IsList r.0 r.1 l
  pub freed : r.0 t ≡ none
  pub same : (q : Ptr) → has q l ≡ false → (q == t) ≡ false → r.0 q ≡ m q

-- A list that ends in another node than `t` does not end in `t`.
tail_differs :
    (tail before : Option Ptr) (t x : Ptr) (f : Task) (r : Cells Task)
    → tail ≡ last before ((x, f) ∷ r)
    → has t ((x, f) ∷ r) ≡ false
    → same_ptr (some t) tail ≡ false
tail_differs tail before t x f r end out =
    let (q, e, i) = last-inside before x f r in
    ap (same_ptr (some t)) (end ∙ e) ∙ apart_of_inside t q ((x, f) ∷ r) out i

alone :
    (m : Store Task) (t : Ptr) (d : Task)
    → Chain m none ((t, d) ∷ []) none
    → Yields (Removed m [] t) (del_timer m (record { head = some t; tail = some t }) (some t))
unfolding del_timer
alone m t d c =
    rw (same_self t, delete-ok m t (node d none none) c.0)
      (yields (record {
        is = record { chain = tt; head = refl; tail = tt };
        freed = update_at m t none;
        same = λ q o n. update_away m t none q n;
      }))

-- What is left when the list is relinked and the node freed.
finish :
    (m m' : Store Task) (l : Cells Task) (t : Ptr) (tail : Option Ptr)
    → Left m l m'
    → has t l ≡ false
    → TailOf tail l
    → Removed m l t (update m' t none, record { head = first l none; tail = tail })
finish m m' l t tail v out end = record {
  is = record { chain = freed-Chain m' t none l out v.chain; head = refl; tail = end };
  freed = update_at m' t none;
  same = λ q o n. update_away m' t none q n ∙ v.same q o;
}

at_head :
    (m : Store Task) (tail : Option Ptr) (t x : Ptr) (d f : Task) (r : Cells Task)
    → Chain m none ((t, d) ∷ (x, f) ∷ r) none
    → tail ≡ last (some x) r
    → Yields
        (Removed m ((x, f) ∷ r) t)
        (del_timer m (record { head = some t; tail = tail }) (some t))
unfolding del_timer
at_head m tail t x d f r c end =
    let differs = tail_differs tail (some t) t x f r end c.1 in
    let (m1, step, v) = unlink_first m t x d f r c in
    rw
      (
        same_self t,
        differs,
        deref-ok m t (node d none (some x)) c.0,
        step,
        delete-ok m1 t (node d none (some x)) (v.same t c.1 ∙ c.0),
      )
      (yields (finish m m1 ((x, f) ∷ r) t tail v c.1 end))

at_tail :
    (m : Store Task) (p : Ptr) (e : Task) (l : Cells Task) (t : Ptr) (d : Task)
    → Chain m none ((p, e) ∷ l ++ (t, d) ∷ []) none
    → Yields
        (Removed m ((p, e) ∷ l) t)
        (del_timer m (record { head = some p; tail = some t }) (some t))
unfolding del_timer
at_tail m p e l t d c =
    let (out, _, _, at) = outside m none ((p, e) ∷ l) t d [] c in
    let (m1, step, v) = unlink_last m p e l t d c in
    rw
      (
        or_left (t == p) (has t l) out,
        same_self t,
        deref-ok m t (node d (last (some p) l) none) at,
        step,
        delete-ok m1 t (node d (last (some p) l) none) (v.same t out ∙ at),
      )
      (yields (finish m m1 ((p, e) ∷ l) t (last (some p) l) v out refl))

between :
    (m : Store Task) (tail : Option Ptr) (p : Ptr) (e : Task) (l : Cells Task) (t x : Ptr)
    (d f : Task) (r : Cells Task)
    → Chain m none ((p, e) ∷ l ++ (t, d) ∷ (x, f) ∷ r) none
    → tail ≡ last (some x) r
    → Yields
        (Removed m ((p, e) ∷ l ++ (x, f) ∷ r) t)
        (del_timer m (record { head = some p; tail = tail }) (some t))
unfolding del_timer
between m tail p e l t x d f r c end =
    let (out, behind, both, at) = outside m none ((p, e) ∷ l) t d ((x, f) ∷ r) c in
    let differs = tail_differs tail (some t) t x f r end behind in
    let (m1, step, m2, step', v) = unlink_between m p e l t x d f r c in
    let n : Node Task = node d (last (some p) l) (some x) in
    rw
      (
        or_left (t == p) (has t l) out,
        differs,
        deref-ok m t n at,
        step,
        step',
        delete-ok m2 t n (v.same t both ∙ at),
      )
      (yields (
        finish m m2 ((p, e) ∷ l ++ (x, f) ∷ r) t tail v both
          (end ∙ sym (last-append (some p) l ((x, f) ∷ r)))))

by_place :
    (m : Store Task) (tail : Option Ptr) (l : Cells Task) (t : Ptr) (d : Task) (r : Cells Task)
    → Chain m none (l ++ (t, d) ∷ r) none
    → TailOf tail (l ++ (t, d) ∷ r)
    → Yields
        (Removed m (l ++ r) t)
        (del_timer m (record { head = first (l ++ (t, d) ∷ r) none; tail = tail }) (some t))
by_place m tail [] t d [] c end =
    subst (λ o. Yields (Removed m [] t) (del_timer m (record { head = some t; tail = o }) (some t)))
      (sym end) (alone m t d c)
by_place m tail [] t d ((x, f) ∷ r) c end = at_head m tail t x d f r c end
by_place m tail ((p, e) ∷ l) t d [] c end =
    subst
      (λ o.
        Yields (Removed m ((p, e) ∷ l ++ []) t)
          (del_timer m (record { head = some p; tail = o }) (some t)))
      (sym (end ∙ last-append (some p) l ((t, d) ∷ [])))
      (subst
        (λ k.
          Yields (Removed m ((p, e) ∷ k) t)
            (del_timer m (record { head = some p; tail = some t }) (some t)))
        (sym (append-nil l)) (at_tail m p e l t d c))
by_place m tail ((p, e) ∷ l) t d ((x, f) ∷ r) c end =
    between m tail p e l t x d f r c (end ∙ last-append (some p) l ((t, d) ∷ (x, f) ∷ r))

-- del_timer on a timer of the list, wherever it stands, ends without a fault: the timer is freed, the
-- others stay in their order and linked in both directions, and no other node of the store has changed.
pub del_timer-Removed :
    (m : Store Task) (list : TimerList) (l : Cells Task) (t : Ptr) (d : Task) (r : Cells Task)
    → IsList m list (l ++ (t, d) ∷ r)
    → Yields (Removed m (l ++ r) t) (del_timer m list (some t))
del_timer-Removed m list l t d r v =
    subst
      (λ h.
        Yields (Removed m (l ++ r) t)
          (del_timer m (record { head = h; tail = list.tail }) (some t)))
      (sym v.head) (by_place m list.tail l t d r v.chain v.tail)
