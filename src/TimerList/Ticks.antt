-- ===== src/TimerList/Ticks.antt =====
-- tick and the destructor of sort_timer_list.cpp.
use mathlib.Core.Path.{subst}
use linux_learning.Prelude.{
  ℕ, zero, suc, ◌<◌, ◌≡◌, refl, sym, ap, ◌∙◌, true, false, ◌||◌, Option, none, some, List, [], ◌∷◌,
  arith, ltb, ◌==◌, if◌then◌else◌, Option-cases, Bool-cases, inl, inr, length, update, update_away,
  ok, fault, Yields, yields, Yields-bind, Yields-weaken,
}
use linux_learning.Links.{Ptr, Store, set_prev}
use linux_learning.Links.Chain.{Cells, Chain, first, last, has, node, deref-ok, delete-ok}
use linux_learning.Links.Unlink.{freed-Chain, Left, or_left, or_right, unlink_first}
use linux_learning.TimerList.{
  Task, TimerList, Timers, Call, fire, tick_loop, tick, destroy_loop, destroy,
}
use linux_learning.TimerList.Spec.{IsList, TailOf, HasCallbacks, later, calls_of}

-- What a tick at time `cur` makes of the list `l`.
pub record Ticked (cur : ℕ) (m : Store Task) (l : Cells Task) (r : List Call × Timers)
    : Type 0 where
  pub calls : r.0 ≡ calls_of cur l
  pub is : IsList r.1.0 r.1.1 (later cur l)
  pub freed : (q : Ptr) → has q l ≡ true → has q (later cur l) ≡ false → r.1.0 q ≡ none
  pub same : (q : Ptr) → has q l ≡ false → r.1.0 q ≡ m q

has-later : (q : Ptr) (cur : ℕ) (l : Cells Task) → has q l ≡ false → has q (later cur l) ≡ false
has-later q cur [] o = refl
has-later q cur ((p, d) ∷ l) o = ground (arith, has-later q cur l)

-- The store behind `head->prev = NULL`, if there is a next timer, and `delete tmp`.
cut :
    (m : Store Task) (p : Ptr) (d : Task) (l : Cells Task)
    → Chain m none ((p, d) ∷ l) none
    → (m1 : Store Task) × ((elim (first l none) [ none ↦ ok m | some h ↦ set_prev m (some h) none ])
        ≡ ok m1)
      × (m1 p ≡ some (node d none (first l none)))
      × Left m l m1
cut m p d [] c = (m, refl, c.0, record { chain = tt; same = λ q o. refl })
cut m p d ((x, f) ∷ l) c =
    let (m1, step, v) = unlink_first m p x d f l c in (m1, step, v.same p c.1 ∙ c.0, v)

due_first :
    (cur : ℕ) (m m1 : Store Task) (p : Ptr) (d : Task) (l : Cells Task) (f : ℕ)
    (r : List Call × Timers)
    → has p l ≡ false
    → d.cb_func ≡ some f
    → ltb cur d.expire ≡ false
    → Left m l m1
    → Ticked cur (update m1 p none) l r
    → Ticked cur m ((p, d) ∷ l) (record { callback = f; argument = d.user_data } ∷ r.0, r.1)
due_first cur m m1 p d l f r out e due v t = record {
  calls = rw (due, e) (ap (λ c. record { callback = f; argument = d.user_data } ∷ c) t.calls);
  is = rw due t.is;
  freed = λ q i. rw due (λ o. by_place q i o);
  same = λ q o.
      t.same q (or_right (q == p) (has q l) o)
      ∙ update_away m1 p none q (or_left (q == p) (has q l) o)
      ∙ v.same q (or_right (q == p) (has q l) o);
}
  where
    by_place : (q : Ptr) → (q == p || has q l) ≡ true → has q (later cur l) ≡ false → r.1.0 q ≡ none
    by_place q i o = elim (Bool-cases (has q l)) [
      | inl behind ↦ t.freed q behind o
      | inr not_behind ↦ t.same q not_behind ∙ ground arith
    ]

fire-ok :
    (d : Task) (f : ℕ)
    → d.cb_func ≡ some f
    → fire d ≡ ok (record { callback = f; argument = d.user_data })
unfolding fire
fire-ok d f e =
    ap
      (λ o. elim o [ none ↦ fault | some g ↦ ok (record { callback = g; argument = d.user_data }) ])
      e

tick_loop-Ticked :
    (k cur : ℕ) (m : Store Task) (list : TimerList) (l : Cells Task)
    → IsList m list l
    → HasCallbacks l
    → length l < k
    → Yields (Ticked cur m l) (tick_loop k cur m list (first l none))
unfolding tick_loop
tick_loop-Ticked zero cur m list l v h enough = absurd (omega arith)
tick_loop-Ticked (suc k) cur m list [] v h enough =
    yields (record { calls = refl; is = v; freed = λ q i. absurd (cc i); same = λ q o. refl })
tick_loop-Ticked (suc k) cur m list ((p, d) ∷ l) v h enough =
    let (m1, step, at1, left) = cut m p d l v.chain in
    let list' : TimerList = record list { head = first l none } in
    let v' : IsList (update m1 p none) list' l = record {
      chain = freed-Chain m1 p none l v.chain.1 left.chain;
      head = refl;
      tail = shorter list.tail l v.tail;
    } in
    let next = tick_loop-Ticked k cur (update m1 p none) list' l v' h.1 (omega arith) in
    rw (deref-ok m p (node d none (first l none)) v.chain.0) (elim (Bool-cases (ltb cur d.expire)) [
      | inl not_due ↦ rw not_due (
          yields (record {
            calls = rw not_due refl;
            is = rw not_due v;
            freed = λ q i. rw not_due (λ o. absurd (cc (i, o)));
            same = λ q o. refl;
          }))
      | inr due ↦ elim (Option-cases d.cb_func) [
        | inl null ↦ absurd (cc (h.0, null))
        | inr (f, e) ↦
            rw (due, fire-ok d f e, step, delete-ok m1 p (node d none (first l none)) at1)
              (Yields-bind next λ r t. yields (due_first cur m m1 p d l f r v.chain.1 e due left t))
      ]
    ])
  where
    shorter : (tail : Option Ptr) (l : Cells Task) → tail ≡ last (some p) l → TailOf tail l
    shorter tail [] e = tt
    shorter tail (x ∷ l) e = e

-- When every timer of the list has a callback and there are more rounds than timers, tick ends without a
-- fault. It calls the callbacks of the timers at the front that are due, in their order, and frees these
-- timers; the list of the others is left, and no node outside of the list has changed.
pub tick-Due :
    (k cur : ℕ) (m : Store Task) (list : TimerList) (l : Cells Task)
    → IsList m list l
    → HasCallbacks l
    → length l < k
    → Yields (Ticked cur m l) (tick k cur m list)
unfolding tick
tick-Due k cur m list l v h enough =
    subst (λ o. Yields (Ticked cur m l) (tick_loop k cur m list o)) (sym v.head)
      (tick_loop-Ticked k cur m list l v h enough)

destroy_loop-frees :
    (k : ℕ) (m : Store Task) (before : Option Ptr) (l : Cells Task)
    → Chain m before l none
    → length l < k
    → Yields
        (λ m'. (q : Ptr) → m' q ≡ (if has q l then none else m q))
        (destroy_loop k m (first l none))
unfolding destroy_loop
destroy_loop-frees zero m before l c enough = absurd (omega arith)
destroy_loop-frees (suc k) m before [] c enough = yields (λ q. refl)
destroy_loop-frees (suc k) m before ((p, d) ∷ l) (at, out, rest) enough =
    let next =
      destroy_loop-frees k (update m p none) (some p) l (freed-Chain m p (some p) l out rest)
        (omega arith) in
    rw
      (
        deref-ok m p (node d before (first l none)) at,
        delete-ok m p (node d before (first l none)) at,
      )
      (Yields-weaken next λ m' f q. f q ∙ ground arith)

-- The destructor of a list, with more rounds than timers, ends without a fault; it frees exactly the
-- timers of the list.
pub destroy-Freed :
    (k : ℕ) (m : Store Task) (list : TimerList) (l : Cells Task)
    → IsList m list l
    → length l < k
    → Yields (λ m'. (q : Ptr) → m' q ≡ (if has q l then none else m q)) (destroy k m list)
unfolding destroy
destroy-Freed k m list l v enough =
    subst
      (λ o. Yields (λ m'. (q : Ptr) → m' q ≡ (if has q l then none else m q)) (destroy_loop k m o))
      (sym v.head) (destroy_loop-frees k m none l v.chain enough)
