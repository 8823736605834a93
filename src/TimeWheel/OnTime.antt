-- ===== src/TimeWheel/OnTime.antt =====
-- Many ticks of time_wheel_timer.cpp.
use linux_learning.Prelude.{
  ℕ, zero, suc, ◌-◌, ◌<◌, ◌≡◌, ◌≢◌, sym, ap, ◌∙◌, true, false, Option, none, some, List, [], ◌∷◌,
  ◌++◌, arith, ◌==◌, is_some, length, update, update_at, update_away, Bool-cases, inl, inr, Run, ok,
  ◌>>=◌, Yields, yields, Yields-bind,
}
use linux_learning.Links.{Ptr, Store}
use linux_learning.Links.Chain.{Cells, Chain, has}
use linux_learning.TimeWheel.{TwTimer, Wheel, Turning, Call, slot_count, tick}
use linux_learning.TimeWheel.Spec.{
  IsWheel, has-roll, HasCallbacks, HasCallbacks-roll, roll, length-roll, rotation_of, countdown,
}
use linux_learning.TimeWheel.Ticks.{Ticked, tick-Ticked_wheel, by_slot}

-- `n` ticks, one after the other, with all the calls.
abbrev pub ticks : ℕ → ℕ → Store TwTimer → Wheel → Run (List Call × Turning)
ticks zero fuel m w = ok ([], (m, w))
ticks (suc n) fuel m w = do
  (calls, (m', w')) ← tick fuel m w
  (more, r) ← ticks n fuel m' w'
  ok (calls ++ more, r)

-- Every timer has a callback, and no slot has more timers than there are rounds.
pub record Ready (fuel : ℕ) (slots : ℕ → Cells TwTimer) : Type 0 where
  pub callbacks : (s : ℕ) → s < slot_count → HasCallbacks (slots s)
  pub rounds : (s : ℕ) → s < slot_count → length (slots s) < fuel

-- The timer `q` is in a slot, `n` ticks before the one that calls it.
pub record Waits (w : Wheel) (slots : ℕ → Cells TwTimer) (q : Ptr) (n : ℕ) : Type 0 where
  pub at : ℕ
  pub in_range : at < slot_count
  pub rotation : ℕ
  pub found : rotation_of q (slots at) ≡ some rotation
  pub left : countdown w.cur_slot at rotation ≡ n

Ready-roll :
    (fuel : ℕ) (slots : ℕ → Cells TwTimer) (c : ℕ)
    → c < slot_count
    → Ready fuel slots
    → Ready fuel (update slots c (roll (slots c)))
Ready-roll fuel slots c lt v = record {
  callbacks =
      by_slot slots c (roll (slots c)) (λ s l. HasCallbacks l)
        (HasCallbacks-roll (slots c) (v.callbacks c lt)) (λ s n less. v.callbacks s less);
  rounds =
      by_slot slots c (roll (slots c)) (λ s l. length l < fuel)
        (omega (arith, length-roll (slots c), v.rounds c lt)) (λ s n less. v.rounds s less);
}

rotation_of-roll :
    (q : Ptr) (l : Cells TwTimer) (k : ℕ)
    → rotation_of q l ≡ some (suc k)
    → rotation_of q (roll l) ≡ some k
rotation_of-roll q [] k e = absurd (cc e)
rotation_of-roll q ((p, d) ∷ l) k e = ground (arith, rotation_of-roll q l k)

has-rotation_of : (q : Ptr) (l : Cells TwTimer) (k : ℕ) → rotation_of q l ≡ some k → has q l ≡ true
has-rotation_of q [] k e = absurd (cc e)
has-rotation_of q ((p, d) ∷ l) k e = ground (arith, has-rotation_of q l k)

due_leaves :
    (m : Store TwTimer) (before : Option Ptr) (q : Ptr) (l : Cells TwTimer)
    → Chain m before l none
    → rotation_of q l ≡ some 0
    → has q (roll l) ≡ false
due_leaves m before q [] c e = absurd (cc e)
due_leaves m before q ((p, d) ∷ l) (at, out, rest) e = elim (Bool-cases (q == p)) [
  | inl here ↦
      let same : q ≡ p = ground arith in
      let gone : has q (roll l) ≡ false = has-roll q l (ap (λ x. has x l) same ∙ out) in
      ground arith
  | inr away ↦ ground (arith, due_leaves m (some p) q l rest)
]

Waits-tick :
    (m : Store TwTimer) (w : Wheel) (slots : ℕ → Cells TwTimer) (q : Ptr) (n : ℕ)
    (r : List Call × Turning)
    → w.cur_slot < slot_count
    → Waits w slots q (suc n)
    → Ticked m w slots r
    → Waits r.1.1 (update slots w.cur_slot (roll (slots w.cur_slot))) q n
Waits-tick m w slots q n r lt v t = elim (Bool-cases (v.at == w.cur_slot)) [
  | inl here ↦
      let e : v.at ≡ w.cur_slot = ground arith in
      record {
        at = w.cur_slot;
        in_range = lt;
        rotation = v.rotation - 1;
        found =
            ap (rotation_of q) (update_at slots w.cur_slot _)
            ∙ rotation_of-roll q (slots w.cur_slot) (v.rotation - 1) (
                sym (ap (λ x. rotation_of q (slots x)) e)
                ∙ v.found
                ∙ ap some (omega (arith, e, v.left, lt)));
        left = omega (arith, e, v.left, lt, t.cursor);
      }
  | inr away ↦
      let apart : (w.cur_slot == v.at) ≡ false = ground arith in
      let off : v.at ≢ w.cur_slot = λ e. absurd (ground (arith, e)) in
      record {
        at = v.at;
        in_range = v.in_range;
        rotation = v.rotation;
        found = ap (rotation_of q) (update_away slots w.cur_slot _ v.at away) ∙ v.found;
        left = omega (arith, off, v.left, lt, v.in_range, t.cursor);
      }
]

allocated :
    (m : Store TwTimer) (before : Option Ptr) (q : Ptr) (l : Cells TwTimer)
    → Chain m before l none
    → has q l ≡ true
    → is_some (m q) ≡ true
allocated m before q [] c i = absurd (cc i)
allocated m before q ((p, d) ∷ l) (at, out, rest) i = elim (Bool-cases (q == p)) [
  | inl here ↦ let same : q ≡ p = ground arith in ap (λ x. is_some (m x)) same ∙ ap is_some at
  | inr away ↦ allocated m (some p) q l rest (ground arith)
]

-- The last tick of a timer.
last_tick :
    (fuel : ℕ) (m : Store TwTimer) (w : Wheel) (slots : ℕ → Cells TwTimer) (q : Ptr)
    → IsWheel m w slots
    → Ready fuel slots
    → Waits w slots q 0
    → Yields (λ r. r.1.0 q ≡ none) (ticks 1 fuel m w)
last_tick fuel m w slots q v ready wait =
    let c = w.cur_slot in
    let here : wait.at ≡ c = omega (arith, wait.left, wait.in_range, v.cursor) in
    let now : wait.rotation ≡ 0 = omega (arith, wait.left) in
    let found : rotation_of q (slots c) ≡ some 0 =
      sym (ap (λ x. rotation_of q (slots x)) here) ∙ wait.found ∙ ap some now in
    Yields-bind
      (tick-Ticked_wheel fuel m w slots v (ready.callbacks c v.cursor) (ready.rounds c v.cursor))
      λ r t. yields (
        t.freed q (has-rotation_of q (slots c) 0 found)
          (due_leaves m none q (slots c) (v.chains c v.cursor) found))

-- On a well-formed wheel in which every timer has a callback, given more rounds than any slot has timers,
-- a timer that is `n` ticks away from its call is still allocated after `n` ticks, and the next tick
-- frees it; no tick has a fault.
pub ticks-on_time :
    (n fuel : ℕ) (m : Store TwTimer) (w : Wheel) (slots : ℕ → Cells TwTimer) (q : Ptr)
    → IsWheel m w slots
    → Ready fuel slots
    → Waits w slots q n
    → Yields (λ r. is_some (r.1.0 q) ≡ true) (ticks n fuel m w)
      × Yields (λ r. r.1.0 q ≡ none) (ticks (suc n) fuel m w)
ticks-on_time zero fuel m w slots q v ready wait = (
  yields (
      allocated m none q (slots wait.at) (v.chains wait.at wait.in_range)
        (has-rotation_of q (slots wait.at) wait.rotation wait.found)),
  last_tick fuel m w slots q v ready wait,
)
ticks-on_time (suc n) fuel m w slots q v ready wait =
    let c = w.cur_slot in
    let rest = λ (r : List Call × Turning) (t : Ticked m w slots r).
      ticks-on_time n fuel r.1.0 r.1.1 (update slots c (roll (slots c))) q t.is
        (Ready-roll fuel slots c v.cursor ready) (Waits-tick m w slots q n r v.cursor wait t) in
    let first_tick =
      tick-Ticked_wheel fuel m w slots v (ready.callbacks c v.cursor) (ready.rounds c v.cursor) in
    (
      Yields-bind first_tick (λ r t. Yields-bind (rest r t).0 λ x h. yields h),
      Yields-bind first_tick (λ r t. Yields-bind (rest r t).1 λ x h. yields h),
    )
