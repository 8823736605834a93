-- ===== src/TimeWheel/Ticks.antt =====
-- tick of time_wheel_timer.cpp, for the wheel.
use mathlib.Core.Path.{subst}
use linux_learning.Prelude.{
  ℕ, ◌+◌, ◌%◌, ◌<◌, ◌≡◌, sym, ap, ◌∙◌, true, false, none, List, [], arith, ◌==◌, Bool-cases, inl,
  inr, length, update, update_at, update_away, Yields, yields, Yields-bind,
}
use linux_learning.Links.{Ptr, Store}
use linux_learning.Links.Chain.{Cells, Chain, first, has, frame, Apart}
use linux_learning.TimeWheel.{TwTimer, Wheel, Turning, Call, slot_count, tick_loop, tick, turn}
use linux_learning.TimeWheel.Spec.{
  IsWheel, HasCallbacks, InSlot, InSlot-roll, roll, calls_of, has-roll,
}
use linux_learning.TimeWheel.Slots.{slot-ok}
use linux_learning.TimeWheel.Rolls.{Rolled, tick_loop-Rolled}

-- What a tick makes of the wheel: the list of the current slot is rolled, the others stay.
pub record Ticked (m : Store TwTimer) (w : Wheel) (slots : ℕ → Cells TwTimer)
    (r : List Call × Turning) : Type 0 where
  pub calls : r.0 ≡ calls_of (slots w.cur_slot)
  pub is : IsWheel r.1.0 r.1.1 (update slots w.cur_slot (roll (slots w.cur_slot)))
  pub cursor : r.1.1.cur_slot ≡ (w.cur_slot + 1) % slot_count
  pub freed :
      (q : Ptr)
      → has q (slots w.cur_slot) ≡ true
      → has q (roll (slots w.cur_slot)) ≡ false
      → r.1.0 q ≡ none
  pub same : (q : Ptr) → has q (slots w.cur_slot) ≡ false → r.1.0 q ≡ m q

-- To show something of the list of each slot: for the current one, and for the others.
pub by_slot :
    (slots : ℕ → Cells TwTimer) (c : ℕ) (l : Cells TwTimer) (P : ℕ → Cells TwTimer → Type 0)
    → P c l
    → ((s : ℕ) → (s == c) ≡ false → s < slot_count → P s (slots s))
    → (s : ℕ) → s < slot_count
    → P s (update slots c l s)
by_slot slots c l P here other s lt = elim (Bool-cases (s == c)) [
  | inl at ↦
      let e : s ≡ c = ground arith in
      subst (λ i. P i (update slots c l i)) (sym e) (subst (P c) (sym (update_at slots c l)) here)
  | inr away ↦ subst (P s) (sym (update_away slots c l s away)) (other s away lt)
]

-- A slot whose list loses timers stays apart from the others.
pub fewer-Apart :
    (slots : ℕ → Cells TwTimer) (c : ℕ) (l : Cells TwTimer)
    → ((q : Ptr) → has q (slots c) ≡ false → has q l ≡ false)
    → (s s' : ℕ) → Apart (slots s) (slots s')
    → Apart (update slots c l s) (update slots c l s')
fewer-Apart slots c l fewer s s' apart q i = out s' (apart q (inside s i))
  where
    out : (x : ℕ) → has q (slots x) ≡ false → has q (update slots c l x) ≡ false
    out x o = elim (Bool-cases (c == x)) [
      | inl here ↦
          let e : c ≡ x = ground arith in rw here (fewer q (ap (λ y. has q (slots y)) e ∙ o))
      | inr away ↦ rw away o
    ]

    inside : (x : ℕ) → has q (update slots c l x) ≡ true → has q (slots x) ≡ true
    inside x i = elim (Bool-cases (has q (slots x))) [
      | inl there ↦ there
      | inr away ↦ absurd (cc (out x away, i))
    ]

-- On a wheel of which every timer in the current slot has a callback, given more rounds than that slot
-- has timers, tick ends without a fault. It calls the callbacks of the timers of the current slot that
-- have no rotation left, in the order of the list, and frees these timers; the others of the slot lose
-- one rotation. The wheel stays well formed with the cursor moved on by one, and no node outside of the
-- current slot has changed.
pub tick-Ticked_wheel :
    (k : ℕ) (m : Store TwTimer) (w : Wheel) (slots : ℕ → Cells TwTimer)
    → IsWheel m w slots
    → HasCallbacks (slots w.cur_slot)
    → length (slots w.cur_slot) < k
    → Yields (Ticked m w slots) (tick k m w)
unfolding tick turn
tick-Ticked_wheel k m w slots v h enough =
    let c = w.cur_slot in
    let l = slots c in
    let loop =
      subst (λ o. Yields (Rolled m w [] l) (tick_loop k m w o)) (sym (v.heads c v.cursor))
        (tick_loop-Rolled k m w [] l v.cursor (v.heads c v.cursor) (v.chains c v.cursor) h
          enough) in
    rw (slot-ok w c v.cursor) (
      Yields-bind loop λ r t. yields (record {
        calls = t.calls;
        is = record {
          cursor = omega arith;
          chains =
              by_slot slots c (roll l) (λ s x. Chain r.1.0 none x none) t.chain
                (λ s n lt.
                  frame m r.1.0 none (slots s) none
                    (λ q i. t.same q (v.apart s c lt v.cursor n q i)) (v.chains s lt));
          heads =
              by_slot slots c (roll l) (λ s x. r.1.1.slots s ≡ first x none) t.head
                (λ s n lt. t.others s n ∙ v.heads s lt);
          apart = λ s s' lt lt' n.
              fewer-Apart slots c (roll l) (λ q o. has-roll q l o) s s' (v.apart s s' lt lt' n);
          placed =
              by_slot slots c (roll l) (λ s x. InSlot s x) (InSlot-roll c l (v.placed c v.cursor))
                (λ s n lt. v.placed s lt);
        };
        cursor = ap (λ x. (x + 1) % slot_count) t.cursor;
        freed = t.freed;
        same = t.same;
      }))
