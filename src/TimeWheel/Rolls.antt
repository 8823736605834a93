-- ===== src/TimeWheel/Rolls.antt =====
-- The loop of tick in time_wheel_timer.cpp, for one slot.
use mathlib.Core.Path.{subst}
use mathlib.Core.List.{append_assoc}
use linux_learning.Prelude.{
  ℕ, zero, suc, ◌<◌, ◌≡◌, refl, sym, ap, ◌∙◌, Bool, true, false, ◌||◌, none, some, List, [], ◌∷◌,
  ◌++◌, arith, ltb, ◌==◌, Option-cases, Bool-cases, inl, inr, length, update, update_away, ok,
  fault, Yields, yields, Yields-bind, Yields-weaken,
}
use linux_learning.Links.{Ptr, Node, Store}
use linux_learning.Links.Chain.{
  Cells, Chain, first, first-append, last, has, has-append, node, deref-ok,
}
use linux_learning.Links.Unlink.{or_left, or_right, outside, set_item}
use linux_learning.TimeWheel.{TwTimer, Wheel, Turning, Call, slot_count, fire, turned, tick_loop}
use linux_learning.TimeWheel.Spec.{HasCallbacks, less, roll, calls_of}
use linux_learning.TimeWheel.Slots.{Unlinked, unlink-Unlinked}

-- What the loop makes of the list `l` behind the timers `done`.
pub record Rolled (m : Store TwTimer) (w : Wheel) (done l : Cells TwTimer) (r : List Call × Turning)
    : Type 0 where
  pub calls : r.0 ≡ calls_of l
  pub chain : Chain r.1.0 none (done ++ roll l) none
  pub head : r.1.1.slots w.cur_slot ≡ first (done ++ roll l) none
  pub others : (s : ℕ) → (s == w.cur_slot) ≡ false → r.1.1.slots s ≡ w.slots s
  pub cursor : r.1.1.cur_slot ≡ w.cur_slot
  pub freed : (q : Ptr) → has q l ≡ true → has q (roll l) ≡ false → r.1.0 q ≡ none
  pub same : (q : Ptr) → has q (done ++ l) ≡ false → r.1.0 q ≡ m q

fire-ok :
    (d : TwTimer) (f : ℕ)
    → d.cb_func ≡ some f
    → fire d ≡ ok (record { callback = f; argument = d.user_data })
unfolding fire
fire-ok d f e =
    ap
      (λ o. elim o [ none ↦ fault | some g ↦ ok (record { callback = g; argument = d.user_data }) ])
      e

-- The first timer of the rest stays.
stays_first :
    (m : Store TwTimer) (w : Wheel) (done : Cells TwTimer) (p : Ptr) (d : TwTimer)
    (l : Cells TwTimer) (m1 : Store TwTimer) (r : List Call × Turning)
    → ltb 0 d.rotation ≡ true
    → ((q : Ptr) → (q == p) ≡ false → m1 q ≡ m q)
    → Rolled m1 w (done ++ (p, less d) ∷ []) l r
    → Rolled m w done ((p, d) ∷ l) r
stays_first m w done p d l m1 r stays other t =
    let path : (done ++ (p, less d) ∷ []) ++ roll l ≡ done ++ (p, less d) ∷ roll l =
      append_assoc done ((p, less d) ∷ []) (roll l) in
    record {
      calls = rw stays t.calls;
      chain = rw stays (subst (λ k. Chain r.1.0 none k none) path t.chain);
      head = rw stays (t.head ∙ ap (λ k. first k none) path);
      others = t.others;
      cursor = t.cursor;
      freed =
          λ q i. rw stays (λ o. t.freed q (behind q i o) (or_right (q == p) (has q (roll l)) o));
      same = λ q o.
          let o' : (has q done || (q == p || has q l)) ≡ false =
            sym (has-append q done ((p, d) ∷ l)) ∙ o in
          let o2 = or_right (has q done) (q == p || has q l) o' in
          t.same q (
            has-append q (done ++ (p, less d) ∷ []) l
            ∙ three q (or_left (has q done) (q == p || has q l) o') o2)
          ∙ other q (or_left (q == p) (has q l) o2);
    }
  where
    behind :
        (q : Ptr) → (q == p || has q l) ≡ true → (q == p || has q (roll l)) ≡ false → has q l ≡ true
    behind q i o = ground arith

    three :
        (q : Ptr)
        → has q done ≡ false
        → (q == p || has q l) ≡ false
        → (has q (done ++ (p, less d) ∷ []) || has q l) ≡ false
    three q a b = ground (arith, has-append q done ((p, less d) ∷ []))

-- The first timer of the rest is due.
due_first :
    (m m1 : Store TwTimer) (w w1 : Wheel) (done : Cells TwTimer) (p : Ptr) (d : TwTimer)
    (l : Cells TwTimer) (f : ℕ) (r : List Call × Turning)
    → ltb 0 d.rotation ≡ false
    → d.cb_func ≡ some f
    → has p (done ++ l) ≡ false
    → Unlinked m w w.cur_slot (done ++ l) p (m1, w1)
    → Rolled m1 w1 done l r
    → Rolled m w done ((p, d) ∷ l) (record { callback = f; argument = d.user_data } ∷ r.0, r.1)
due_first m m1 w w1 done p d l f r due e out u t = record {
  calls = rw (due, e) (ap (λ c. record { callback = f; argument = d.user_data } ∷ c) t.calls);
  chain = rw due t.chain;
  head = rw due (ap (λ c. r.1.1.slots c) (sym u.cursor) ∙ t.head);
  others = λ s n. t.others s (ap (λ c. s == c) u.cursor ∙ n) ∙ u.others s n;
  cursor = t.cursor ∙ u.cursor;
  freed = λ q i. rw due (λ o. by_place q i o);
  same = λ q o.
      let o' : (has q done || (q == p || has q l)) ≡ false =
        sym (has-append q done ((p, d) ∷ l)) ∙ o in
      let o2 = or_right (has q done) (q == p || has q l) o' in
      let o3 : has q (done ++ l) ≡ false =
        has-append q done l
        ∙ neither (has q done) (has q l) (or_left (has q done) (q == p || has q l) o')
            (or_right (q == p) (has q l) o2) in
      t.same q o3 ∙ u.same q o3 (or_left (q == p) (has q l) o2);
}
  where
    neither : (a b : Bool) → a ≡ false → b ≡ false → (a || b) ≡ false
    neither a b h h' = ground arith

    by_place : (q : Ptr) → (q == p || has q l) ≡ true → has q (roll l) ≡ false → r.1.0 q ≡ none
    by_place q i o = elim (Bool-cases (has q l)) [
      | inl inside ↦ t.freed q inside o
      | inr not_inside ↦
          let same_ptr : q ≡ p = ground arith in ap r.1.0 same_ptr ∙ t.same p out ∙ u.freed
    ]

pub tick_loop-Rolled :
    (k : ℕ) (m : Store TwTimer) (w : Wheel) (done l : Cells TwTimer)
    → w.cur_slot < slot_count
    → w.slots w.cur_slot ≡ first (done ++ l) none
    → Chain m none (done ++ l) none
    → HasCallbacks l
    → length l < k
    → Yields (Rolled m w done l) (tick_loop k m w (first l none))
unfolding tick_loop
tick_loop-Rolled zero m w done l lt e c h enough = absurd (omega arith)
tick_loop-Rolled (suc k) m w done [] lt e c h enough = yields (record {
  calls = refl;
  chain = c;
  head = e;
  others = λ s n. refl;
  cursor = refl;
  freed = λ q i. absurd (cc i);
  same = λ q o. refl;
})
tick_loop-Rolled (suc k) m w done ((p, d) ∷ l) lt e c h enough =
    let (_, _, both, at) = outside m none done p d l c in
    let n : Node TwTimer = node d (last none done) (first l none) in
    let m1 = update m p (some (turned n)) in
    let path : (done ++ (p, less d) ∷ []) ++ l ≡ done ++ (p, less d) ∷ l =
      append_assoc done ((p, less d) ∷ []) l in
    let kept : Chain m1 none ((done ++ (p, less d) ∷ []) ++ l) none =
      subst (λ x. Chain m1 none x none) (sym path) (set_item m none done p d (less d) l none c) in
    let head : w.slots w.cur_slot ≡ first ((done ++ (p, less d) ∷ []) ++ l) none =
      e
      ∙ first-append done ((p, d) ∷ l) none
      ∙ sym (first-append done ((p, less d) ∷ l) none)
      ∙ ap (λ x. first x none) (sym path) in
    let stays =
      tick_loop-Rolled k m1 w (done ++ (p, less d) ∷ []) l lt head kept h.1 (omega arith) in
    let next =
      λ (m' : Store TwTimer) (w' : Wheel) (u : Unlinked m w w.cur_slot (done ++ l) p (m', w')).
        tick_loop-Rolled k m' w' done l (omega (arith, u.cursor))
          (ap (λ x. w'.slots x) u.cursor ∙ u.head) u.chain h.1 (omega arith) in
    rw (deref-ok m p n at) (elim (Bool-cases (ltb 0 d.rotation)) [
      | inl more ↦ rw more (
          Yields-weaken stays
            λ r t. stays_first m w done p d l m1 r more (λ q o. update_away m p _ q o) t)
      | inr due ↦ elim (Option-cases d.cb_func) [
        | inl null ↦ absurd (cc (h.0, null))
        | inr (f, g) ↦
            rw (due, fire-ok d f g)
              (Yields-bind (unlink-Unlinked m w w.cur_slot done p d l lt e c) λ x u.
                Yields-bind (next x.0 x.1 u)
                  λ r t. yields (due_first m x.0 w x.1 done p d l f r due g both u t))
      ]
    ])
