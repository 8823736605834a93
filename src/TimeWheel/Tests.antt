-- ===== src/TimeWheel/Tests.antt =====
-- A wheel of time_wheel_timer.cpp with two timers, and its theorems there.
use mathlib.Core.Path.{subst}
use linux_learning.Prelude.{
  ℕ, ◌<◌, ◌≡◌, refl, sym, Bool-cases, inl, inr, true, false, none, some, List, [], ◌∷◌, arith, ◌==◌,
  if◌then◌else◌, is_some, length, update, ok, Run, ◌>>=◌, Yields, pos,
}
use linux_learning.Links.{Store, deref, set_next, set_prev, delete}
use linux_learning.Links.Chain.{Cells, Chain, has, node}
use linux_learning.TimeWheel.{
  TwTimer, Wheel, Turning, Call, time_wheel, slot, tw_timer, ticks_of, add_at, add_timer, link_back,
  unlink, del_timer, fire, tick, tick_loop, turn, clear_slot, clear_slots, destroy,
}
use linux_learning.TimeWheel.Spec.{IsWheel, InSlot, HasCallbacks}
use linux_learning.TimeWheel.Ticks.{Ticked, tick-Ticked_wheel}
use linux_learning.TimeWheel.Adds.{Added, add_timer-Added}
use linux_learning.TimeWheel.Removes.{Removed, del_timer-Removed}
use linux_learning.TimeWheel.OnTime.{Ready, Waits, ticks, ticks-on_time}

abbrev timer : ℕ → ℕ → ℕ → TwTimer
timer rotation ts u = record {
  rotation = rotation;
  time_slot = ts;
  cb_func = some 7;
  user_data = u;
}

-- Slot 1 has a timer that is due and one that is to go round once more.
abbrev one : Cells TwTimer
one = (1, timer 0 1 10) ∷ (2, timer 1 1 20) ∷ []

abbrev store : Store TwTimer
store p =
    if p == 1
    then some (node (timer 0 1 10) none (some 2))
    else if p == 2
    then some (node (timer 1 1 20) (some 1) none)
    else none

abbrev wheel : Wheel
wheel = record { slots = λ s. if s == 1 then some 1 else none; cur_slot = 1 }

abbrev lists : ℕ → Cells TwTimer
lists s = if s == 1 then one else []

each_list :
    (P : ℕ → Cells TwTimer → Type 0) → P 1 one → ((s : ℕ) → P s []) → (s : ℕ) → P s (lists s)
each_list P here other s = elim (Bool-cases (s == 1)) [
  | inl at ↦ let e : s ≡ 1 = ground arith in subst (λ i. P i (lists i)) (sym e) here
  | inr away ↦ rw away (other s)
]

wheel-IsWheel : IsWheel store wheel lists
wheel-IsWheel = record {
  cursor = omega arith;
  chains =
      λ s lt. each_list (λ i l. Chain store none l none) (refl, refl, (refl, refl, tt)) (λ i. tt) s;
  heads = λ s lt. ground arith;
  apart = λ s s' lt lt' n q i. ground arith;
  placed = λ s lt. each_list InSlot (refl, (refl, tt)) (λ i. tt) s;
}

lists-Ready : Ready 3 lists
lists-Ready = record {
  callbacks = λ s lt. each_list (λ i l. HasCallbacks l) (refl, (refl, tt)) (λ i. tt) s;
  rounds = λ s lt. each_list (λ i l. length l < 3) (omega arith) (λ i. omega arith) s;
}

tick-Ticked_wheel_example : Yields (Ticked store wheel lists) (tick 3 store wheel)
tick-Ticked_wheel_example =
    tick-Ticked_wheel 3 store wheel lists wheel-IsWheel (refl, (refl, tt)) (omega arith)

add_timer-Added_example : Yields (Added store wheel lists 3 130) (add_timer store wheel 3 (pos 130))
add_timer-Added_example =
    add_timer-Added store wheel lists 3 130 wheel-IsWheel
      (λ s lt. each_list (λ i l. has 3 l ≡ false) refl (λ i. refl) s)

del_timer-Removed_example :
    Yields (Removed store wheel lists 1 ((1, timer 0 1 10) ∷ []) 2) (del_timer store wheel (some 2))
del_timer-Removed_example =
    del_timer-Removed store wheel lists 1 ((1, timer 0 1 10) ∷ []) 2 (timer 1 1 20) [] wheel-IsWheel
      (omega arith) refl

second-Waits : Waits wheel lists 2 60
second-Waits = record { at = 1; in_range = omega arith; rotation = 1; found = refl; left = refl }

ticks-on_time_example :
    Yields (λ r. is_some (r.1.0 2) ≡ true) (ticks 60 3 store wheel)
    × Yields (λ r. r.1.0 2 ≡ none) (ticks 61 3 store wheel)
ticks-on_time_example =
    ticks-on_time 60 3 store wheel lists 2 wheel-IsWheel lists-Ready second-Waits

-- Two timers are added to a new wheel, one is taken off, and the wheel is turned twice.
run : Run (List Call × Turning)
unfolding add_timer add_at tw_timer ticks_of slot set_next set_prev deref delete del_timer unlink
    link_back tick tick_loop fire turn time_wheel
run = do
  (p, (m1, w1)) ← add_timer (λ q. none) time_wheel 1 (pos 0)
  (p2, (m2, w2)) ← add_timer (update m1 1 (some (node (timer 0 1 10) none none))) w1 2 (pos 1)
  (m3, w3) ← del_timer m2 w2 (some 2)
  (calls, (m4, w4)) ← tick 3 m3 w3
  tick 3 m4 w4

calls_of_run :
    (r : List Call × Turning) × (run ≡ ok r)
    × (r.0 ≡ record { callback = 7; argument = 10 } ∷ [])
    × (r.1.1.slots 1 ≡ none)
    × (r.1.1.cur_slot ≡ 2)
unfolding run
calls_of_run = (_, refl, refl, refl, refl)

destroy_run : (m : Store TwTimer) × (destroy 3 store wheel ≡ ok m) × (m 1 ≡ none) × (m 2 ≡ none)
unfolding destroy clear_slots clear_slot slot deref delete
destroy_run = (_, refl, refl, refl)
