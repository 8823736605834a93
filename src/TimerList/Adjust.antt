-- ===== src/TimerList/Adjust.antt =====
-- adjust_timer of sort_timer_list.cpp.
use mathlib.Core.Path.{subst}
use linux_learning.Prelude.{
  ℕ, ◌<◌, ◌≡◌, refl, sym, ◌∙◌, Bool, false, ◌||◌, Option, none, some, [], ◌∷◌, ◌++◌, arith, ltb,
  ◌==◌, Bool-cases, inl, inr, length, update, update_at, update_away, Yields, yields, Yields-weaken,
}
use linux_learning.Links.{Ptr, Node, Store}
use linux_learning.Links.Chain.{
  Cells, Chain, first, last, last-append, has, has-append, node, frame, split, join, deref-ok,
  set_next-ok,
}
use linux_learning.Links.Ends.{apart_of_inside}
use linux_learning.Links.Unlink.{
  outside, same_self, ==_away, or_left, or_right, unlink_first, unlink_between,
}
use linux_learning.TimerList.{Task, TimerList, adjust_timer, move_timer}
use linux_learning.TimerList.Spec.{IsList, TailOf, insert, has-insert}
use linux_learning.TimerList.Inserted.{add_after-Inserted}
use linux_learning.TimerList.Insert.{Became}

out_of_insert :
    (q t x : Ptr) (d f : Task) (r : Cells Task)
    → has q ((x, f) ∷ insert t d r) ≡ false
    → has q ((x, f) ∷ r) ≡ false
out_of_insert q t x d f r o = ground (arith, has-insert q t d r)

still_apart :
    (q t x : Ptr) (d f : Task) (r : Cells Task)
    → has q ((x, f) ∷ r) ≡ false
    → (q == t) ≡ false
    → has q ((x, f) ∷ insert t d r) ≡ false
still_apart q t x d f r o n = ground (arith, has-insert q t d r)

neither : (a b : Bool) → a ≡ false → b ≡ false → (a || b) ≡ false
neither a b e e' = ground arith

move_first :
    (k : ℕ) (m : Store Task) (tail : Option Ptr) (t x : Ptr) (d f : Task) (r : Cells Task)
    → Chain m none ((t, d) ∷ (x, f) ∷ r) none
    → tail ≡ last (some x) r
    → length r < k
    → Yields
        (Became m ((x, f) ∷ insert t d r) t)
        (move_timer k m (record { head = some t; tail = tail }) t)
unfolding move_timer
move_first k m tail t x d f r c end enough =
    let (m1, step, v) = unlink_first m t x d f r c in
    let n : Node Task = node d none (some x) in
    let m2 = update m1 t (some (node d none none)) in
    let kept : Chain m2 none ((x, f) ∷ r) none =
      frame m1 m2 none ((x, f) ∷ r) none
        (λ q i. update_away m1 t _ q (==_away t q (apart_of_inside t q ((x, f) ∷ r) c.1 i)))
        v.chain in
    rw (same_self t, deref-ok m t n c.0, step, set_next-ok m1 t n none (v.same t c.1 ∙ c.0))
      (Yields-weaken
        (add_after-Inserted k m2 (record { head = some x; tail = tail }) none x f r t d none none
          kept (update_at m1 t _) c.1 enough)
        λ s w. record {
          is = record { chain = w.chain; head = w.head; tail = w.tail end };
          same = λ q o n'.
              w.same q (out_of_insert q t x d f r o) n'
              ∙ update_away m1 t _ q n'
              ∙ v.same q (out_of_insert q t x d f r o);
        })

move_inside :
    (k : ℕ) (m : Store Task) (tail : Option Ptr) (p : Ptr) (e : Task) (l : Cells Task) (t x : Ptr)
    (d f : Task) (r : Cells Task)
    → Chain m none ((p, e) ∷ l ++ (t, d) ∷ (x, f) ∷ r) none
    → tail ≡ last (some x) r
    → length r < k
    → Yields
        (Became m ((p, e) ∷ l ++ (x, f) ∷ insert t d r) t)
        (move_timer k m (record { head = some p; tail = tail }) t)
unfolding move_timer
move_inside k m tail p e l t x d f r c end enough =
    let (out, behind, both, at) = outside m none ((p, e) ∷ l) t d ((x, f) ∷ r) c in
    let (m1, step, m2, step', v) = unlink_between m p e l t x d f r c in
    let (left, right, apart) = split m2 none ((p, e) ∷ l) ((x, f) ∷ r) none v.chain in
    let n : Node Task = node d (last (some p) l) (some x) in
    rw (or_left (t == p) (has t l) out, deref-ok m t n at, step, step')
      (Yields-weaken
        (add_after-Inserted k m2 (record { head = some p; tail = tail }) (last (some p) l) x f r t d
          (last (some p) l) (some x) right (v.same t both ∙ at) behind enough)
        λ s w. record {
          is = record {
            chain =
                join s.0 none ((p, e) ∷ l) ((x, f) ∷ insert t d r) none
                  (frame m2 s.0 none ((p, e) ∷ l) (some x)
                    (λ q i.
                      w.same q (apart q i) (==_away t q (apart_of_inside t q ((p, e) ∷ l) out i)))
                    left)
                  w.chain
                  (λ q i.
                    still_apart q t x d f r (apart q i)
                      (==_away t q (apart_of_inside t q ((p, e) ∷ l) out i)));
            head = w.head;
            tail = w.tail end ∙ sym (last-append (some p) l ((x, f) ∷ insert t d r));
          };
          same = λ q o n'.
              let parts : (has q ((p, e) ∷ l) || has q ((x, f) ∷ insert t d r)) ≡ false =
                sym (has-append q ((p, e) ∷ l) ((x, f) ∷ insert t d r)) ∙ o in
              let o' =
                out_of_insert q t x d f r
                  (or_right (has q ((p, e) ∷ l)) (has q ((x, f) ∷ insert t d r)) parts) in
              w.same q o' n'
              ∙ v.same q (
                  has-append q ((p, e) ∷ l) ((x, f) ∷ r)
                  ∙ neither _ _ (or_left (has q ((p, e) ∷ l)) (has q ((x, f) ∷ insert t d r)) parts)
                      o');
        })

-- A timer whose expiry is not before that of the next one moves behind it.
move :
    (k : ℕ) (m : Store Task) (tail : Option Ptr) (l : Cells Task) (t x : Ptr) (d f : Task)
    (r : Cells Task)
    → Chain m none (l ++ (t, d) ∷ (x, f) ∷ r) none
    → TailOf tail (l ++ (t, d) ∷ (x, f) ∷ r)
    → length r < k
    → Yields
        (Became m (l ++ (x, f) ∷ insert t d r) t)
        (move_timer k m (record { head = first (l ++ (t, d) ∷ (x, f) ∷ r) none; tail = tail }) t)
move k m tail [] t x d f r c end enough = move_first k m tail t x d f r c end enough
move k m tail ((p, e) ∷ l) t x d f r c end enough =
    move_inside k m tail p e l t x d f r c (end ∙ last-append (some p) l ((t, d) ∷ (x, f) ∷ r))
      enough

-- Given a list of timers and more rounds than there are timers behind the one that is adjusted,
-- adjust_timer ends without a fault: the timer goes behind those of them that do not expire later, and
-- no node outside of the list has changed.
pub adjust_timer-Became :
    (k : ℕ) (m : Store Task) (list : TimerList) (l : Cells Task) (t : Ptr) (d : Task)
    (r : Cells Task)
    → IsList m list (l ++ (t, d) ∷ r)
    → length r < k
    → Yields (Became m (l ++ insert t d r) t) (adjust_timer k m list (some t))
unfolding adjust_timer
adjust_timer-Became k m list l t d [] v enough =
    let (_, _, _, at) = outside m none l t d [] v.chain in
    rw (deref-ok m t (node d (last none l) none) at)
      (yields (record { is = v; same = λ q o n. refl }))
adjust_timer-Became k m list l t d ((x, f) ∷ r) v enough =
    let (left, (at, out, (at', out', right)), apart) =
      split m none l ((t, d) ∷ (x, f) ∷ r) none v.chain in
    let moved =
      subst
        (λ h.
          Yields (Became m (l ++ (x, f) ∷ insert t d r) t)
            (move_timer k m (record { head = h; tail = list.tail }) t))
        (sym v.head) (move k m list.tail l t x d f r v.chain v.tail (omega arith)) in
    rw
      (
        deref-ok m t (node d (last none l) (some x)) at,
        deref-ok m x (node f (some t) (first r none)) at',
      )
      (elim (Bool-cases (ltb d.expire f.expire)) [
        | inl earlier ↦ rw earlier (yields (record { is = v; same = λ q o n. refl }))
        | inr not_earlier ↦ rw not_earlier moved
      ])
