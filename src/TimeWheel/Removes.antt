-- ===== src/TimeWheel/Removes.antt =====
-- del_timer of time_wheel_timer.cpp.
use mathlib.Core.Path.{subst}
use linux_learning.Prelude.{
  ℕ, ◌<◌, ◌≡◌, sym, ap, ◌∙◌, false, none, some, [], ◌∷◌, ◌++◌, arith, ◌==◌, update, Yields,
  Yields-weaken,
}
use linux_learning.Links.{Ptr, Store}
use linux_learning.Links.Chain.{Cells, Chain, first, last, has, has-append, node, frame, deref-ok}
use linux_learning.Links.Unlink.{outside}
use linux_learning.TimeWheel.{TwTimer, Wheel, Turning, slot_count, del_timer}
use linux_learning.TimeWheel.Spec.{IsWheel, InSlot}
use linux_learning.TimeWheel.Slots.{unlink-Unlinked}
use linux_learning.TimeWheel.Ticks.{by_slot, fewer-Apart}

InSlot-at :
    (s : ℕ) (l : Cells TwTimer) (t : Ptr) (d : TwTimer) (r : Cells TwTimer)
    → InSlot s (l ++ (t, d) ∷ r)
    → d.time_slot ≡ s
InSlot-at s [] t d r v = v.0
InSlot-at s ((x, f) ∷ l) t d r v = InSlot-at s l t d r v.1

InSlot-without :
    (s : ℕ) (l : Cells TwTimer) (t : Ptr) (d : TwTimer) (r : Cells TwTimer)
    → InSlot s (l ++ (t, d) ∷ r)
    → InSlot s (l ++ r)
InSlot-without s [] t d r v = v.1
InSlot-without s ((x, f) ∷ l) t d r v = (v.0, InSlot-without s l t d r v.1)

has-without :
    (q : Ptr) (l : Cells TwTimer) (t : Ptr) (d : TwTimer) (r : Cells TwTimer)
    → has q (l ++ (t, d) ∷ r) ≡ false
    → has q (l ++ r) ≡ false
has-without q l t d r o = ground (arith, has-append q l r, has-append q l ((t, d) ∷ r))

-- The wheel without the timer `t` of slot `s`.
pub record Removed (m : Store TwTimer) (w : Wheel) (slots : ℕ → Cells TwTimer) (s : ℕ)
    (l : Cells TwTimer) (t : Ptr) (r : Turning) : Type 0 where
  pub is : IsWheel r.0 r.1 (update slots s l)
  pub cursor : r.1.cur_slot ≡ w.cur_slot
  pub freed : r.0 t ≡ none
  pub same : (q : Ptr) → has q (slots s) ≡ false → r.0 q ≡ m q

-- On a well-formed wheel, del_timer of a timer of any slot, wherever it stands in the slot's list, ends
-- without a fault: the timer is freed, the wheel stays well formed with the cursor where it was and the
-- slot's other timers in their order, and no node outside of that slot has changed.
pub del_timer-Removed :
    (m : Store TwTimer) (w : Wheel) (slots : ℕ → Cells TwTimer) (s : ℕ) (l : Cells TwTimer)
    (t : Ptr) (d : TwTimer) (r : Cells TwTimer)
    → IsWheel m w slots
    → s < slot_count
    → slots s ≡ l ++ (t, d) ∷ r
    → Yields (Removed m w slots s (l ++ r) t) (del_timer m w (some t))
unfolding del_timer
del_timer-Removed m w slots s l t d r v lt e =
    let c : Chain m none (l ++ (t, d) ∷ r) none =
      subst (λ x. Chain m none x none) e (v.chains s lt) in
    let p : InSlot s (l ++ (t, d) ∷ r) = subst (InSlot s) e (v.placed s lt) in
    let (_, _, _, at) = outside m none l t d r c in
    let fewer : (q : Ptr) → has q (slots s) ≡ false → has q (l ++ r) ≡ false =
      λ q o. has-without q l t d r (sym (ap (has q) e) ∙ o) in
    let done = unlink-Unlinked m w s l t d r lt (v.heads s lt ∙ ap (λ x. first x none) e) c in
    rw (deref-ok m t (node d (last none l) (first r none)) at, InSlot-at s l t d r p)
      (Yields-weaken done λ x u.
        let same : (q : Ptr) → has q (slots s) ≡ false → x.0 q ≡ m q =
          λ q o. u.same q (fewer q o) (not_it q (sym (ap (has q) e) ∙ o)) in
        record {
          is = record {
            cursor = omega (arith, u.cursor, v.cursor);
            chains =
                by_slot slots s (l ++ r) (λ i y. Chain x.0 none y none) u.chain
                  (λ i n less.
                    frame m x.0 none (slots i) none (λ q h. same q (v.apart i s less lt n q h))
                      (v.chains i less));
            heads =
                by_slot slots s (l ++ r) (λ i y. x.1.slots i ≡ first y none) u.head
                  (λ i n less. u.others i n ∙ v.heads i less);
            apart = λ i j less less' n.
                fewer-Apart slots s (l ++ r) fewer i j (v.apart i j less less' n);
            placed =
                by_slot slots s (l ++ r) (λ i y. InSlot i y) (InSlot-without s l t d r p)
                  (λ i n less. v.placed i less);
          };
          cursor = u.cursor;
          freed = u.freed;
          same = same;
        })
  where
    not_it : (q : Ptr) → has q (l ++ (t, d) ∷ r) ≡ false → (q == t) ≡ false
    not_it q o = ground (arith, has-append q l ((t, d) ∷ r))
