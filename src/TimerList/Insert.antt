-- ===== src/TimerList/Insert.antt =====
-- add_timer of sort_timer_list.cpp.
use mathlib.Core.Path.{subst}
use linux_learning.Prelude.{
  ℕ, ◌<◌, ◌≡◌, refl, sym, true, false, Option, none, some, [], ◌∷◌, arith, ltb, ◌==◌, Bool-cases,
  inl, inr, length, update, Yields, yields, Yields-weaken,
}
use linux_learning.Links.{Ptr, Store}
use linux_learning.Links.Chain.{
  Cells, Chain, first, last, has, node, frame, deref-ok, set_next-ok, set_prev-ok,
}
use linux_learning.TimerList.{Task, TimerList, Timers, add_timer, util_timer}
use linux_learning.TimerList.Spec.{IsList, TailOf, insert, has-insert}
use linux_learning.TimerList.Inserted.{add_after-Inserted}

-- The list `l` is there now, and the other nodes of the store are as they were.
pub record Became (m : Store Task) (l : Cells Task) (t : Ptr) (r : Timers) : Type 0 where
  pub is : IsList r.0 r.1 l
  pub same : (q : Ptr) → has q l ≡ false → (q == t) ≡ false → r.0 q ≡ m q

to_front :
    (k : ℕ) (m : Store Task) (tail : Option Ptr) (p : Ptr) (e : Task) (l : Cells Task) (t : Ptr)
    (d : Task)
    → Chain m none ((p, e) ∷ l) none
    → tail ≡ last (some p) l
    → m t ≡ some (node d none none)
    → has t ((p, e) ∷ l) ≡ false
    → ltb d.expire e.expire ≡ true
    → Yields
        (Became m ((t, d) ∷ (p, e) ∷ l) t)
        (add_timer k m (record { head = some p; tail = tail }) (some t))
unfolding add_timer
to_front k m tail p e l t d (at, out, rest) end new apart earlier =
    let m1 = update m t (some (node d none (some p))) in
    let n1 : m1 p ≡ some (node e none (first l none)) = ground arith in
    let m2 = update m1 p (some (node e (some t) (first l none))) in
    let kept : Chain m2 (some p) l none = frame m m2 (some p) l none (λ q i. ground arith) rest in
    rw
      (
        deref-ok m t (node d none none) new,
        deref-ok m p (node e none (first l none)) at,
        earlier,
        set_next-ok m t (node d none none) (some p) new,
        set_prev-ok m1 p (node e none (first l none)) (some t) n1,
      )
      (yields (record {
        is = record {
          chain = (ground arith, ground arith, (ground arith, out, kept));
          head = refl;
          tail = end;
        };
        same = λ q i n. ground arith;
      }))

to_rest :
    (k : ℕ) (m : Store Task) (tail : Option Ptr) (p : Ptr) (e : Task) (l : Cells Task) (t : Ptr)
    (d : Task)
    → Chain m none ((p, e) ∷ l) none
    → tail ≡ last (some p) l
    → m t ≡ some (node d none none)
    → has t ((p, e) ∷ l) ≡ false
    → length l < k
    → ltb d.expire e.expire ≡ false
    → Yields
        (Became m ((p, e) ∷ insert t d l) t)
        (add_timer k m (record { head = some p; tail = tail }) (some t))
unfolding add_timer
to_rest k m tail p e l t d (at, out, rest) end new apart enough not_earlier =
    rw
      (
        deref-ok m t (node d none none) new,
        deref-ok m p (node e none (first l none)) at,
        not_earlier,
      )
      (Yields-weaken
        (add_after-Inserted k m (record { head = some p; tail = tail }) none p e l t d none none
          (at, out, rest) new apart enough)
        λ r s. record {
          is = record { chain = s.chain; head = s.head; tail = s.tail end };
          same = λ q i n. s.same q (ground (arith, has-insert q t d l)) n;
        })

at_head :
    (k : ℕ) (m : Store Task) (tail : Option Ptr) (l : Cells Task) (t : Ptr) (d : Task)
    → Chain m none l none
    → TailOf tail l
    → m t ≡ some (node d none none)
    → has t l ≡ false
    → length l < k
    → Yields
        (Became m (insert t d l) t)
        (add_timer k m (record { head = first l none; tail = tail }) (some t))
at_head k m tail [] t d c end new apart enough =
    unfold add_timer in
    yields (record {
      is = record { chain = (new, refl, tt); head = refl; tail = refl };
      same = λ q i n. refl;
    })
at_head k m tail ((p, e) ∷ l) t d c end new apart enough =
    elim (Bool-cases (ltb d.expire e.expire)) [
      | inl earlier ↦ rw earlier (to_front k m tail p e l t d c end new apart earlier)
      | inr not_earlier ↦
          rw not_earlier (to_rest k m tail p e l t d c end new apart (omega arith) not_earlier)
    ]

-- Given a list of timers, a new timer that is not in it, and more rounds than the list has timers,
-- add_timer ends without a fault. The list then has the new timer behind those that do not expire later
-- and in front of the others, linked in both directions, and no other node of the store has changed.
pub add_timer-Became :
    (k : ℕ) (m : Store Task) (list : TimerList) (l : Cells Task) (t : Ptr) (d : Task)
    → IsList m list l
    → m t ≡ some (util_timer d)
    → has t l ≡ false
    → length l < k
    → Yields (Became m (insert t d l) t) (add_timer k m list (some t))
unfolding util_timer
add_timer-Became k m list l t d v new apart enough =
    subst
      (λ h.
        Yields (Became m (insert t d l) t)
          (add_timer k m (record { head = h; tail = list.tail }) (some t)))
      (sym v.head) (at_head k m list.tail l t d v.chain v.tail new apart enough)
