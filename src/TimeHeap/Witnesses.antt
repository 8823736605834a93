-- ===== src/TimeHeap/Witnesses.antt =====
-- The theorems about time_heap.h at concrete heaps.
use linux_learning.Prelude.{
  ℕ, ◌+◌, ◌<◌, ◌≤◌, ◌≡◌, refl, true, none, some, arith, ◌==◌, if◌then◌else◌, Yields,
}
use linux_learning.TimeHeap.{
  HeapTimer, Store, TimeHeap, Slot, null, ref, stray, as_written, add_timer, pop_timer, tick,
}
use linux_learning.TimeHeap.Count.{count, hit}
use linux_learning.TimeHeap.Order.{is_live, timer, AreOwned, IsValid}
use linux_learning.TimeHeap.Insert.{held, add_timer_written-IsValid, add_timer_written-stray}
use linux_learning.TimeHeap.Remove.{Popped, pop_timer-Popped}
use linux_learning.TimeHeap.Ticks.{Ticked, tick-Ticked}

abbrev timer_at : ℕ → HeapTimer
timer_at e = record { expire = e; cb_func = some 1; user_data = e }

abbrev store : Store
store p =
    if p == 1
    then some (timer_at 30)
    else if p == 2
    then some (timer_at 10)
    else if p == 3
    then some (timer_at 20)
    else none

abbrev pair : TimeHeap
pair = record {
  array = λ i. if i == 0 then ref 2 else if i == 1 then ref 1 else null;
  capacity = 4;
  cur_size = 2;
}

pair_owned : AreOwned store 2 pair.array
pair_owned = record { live = λ s h. live s h; once = λ s. once s }
  where
    live : (s : Slot) → 0 < count s 2 pair.array → is_live store s ≡ true
    live null h = absurd (omega arith)
    live (ref p) h = ground arith
    live (stray n) h = absurd (omega arith)

    once : (s : Slot) → count s 2 pair.array ≤ 1
    once null = omega arith
    once (ref p) = ground arith
    once (stray n) = omega arith

pair-IsValid : IsValid store pair
unfolding timer
pair-IsValid = record {
  room = omega arith;
  fits = omega arith;
  owned = pair_owned;
  ordered = λ c p q r. ground arith;
}

tick-Ticked_example : Yields (Ticked 15 store pair) (tick 15 store pair)
tick-Ticked_example = tick-Ticked 15 store pair pair-IsValid

add_timer_written-IsValid_example :
    Yields
      (λ h'.
        IsValid store h'
        × (h'.cur_size ≡ 3)
        × ((s : Slot) → held s h' ≡ held s pair + hit s (ref 3)))
      (add_timer as_written store pair (some 3))
unfolding timer
add_timer_written-IsValid_example =
    add_timer_written-IsValid store pair 3 pair-IsValid refl refl (λ pos. omega arith)

pop_timer-Popped_example : Yields (Popped store pair 2) (pop_timer store pair)
pop_timer-Popped_example = pop_timer-Popped store pair pair-IsValid 1 refl 2 refl

-- The timer at 3 expires before its parent, the one at 1.
abbrev late : TimeHeap
late = record { array = λ i. if i == 0 then ref 1 else null; capacity = 4; cur_size = 1 }

late-IsValid : IsValid store late
late-IsValid = record {
  room = omega arith;
  fits = omega arith;
  owned = record { live = λ s h. live s h; once = λ s. once s };
  ordered = λ c p q r. absurd (omega arith);
}
  where
    live : (s : Slot) → 0 < count s 1 late.array → is_live store s ≡ true
    live null h = absurd (omega arith)
    live (ref p) h = ground arith
    live (stray n) h = absurd (omega arith)

    once : (s : Slot) → count s 1 late.array ≤ 1
    once null = omega arith
    once (ref p) = ground arith
    once (stray n) = omega arith

add_timer_written-stray_example :
    Yields
      (λ h'. (h'.cur_size ≡ 2) × (h'.array 1 ≡ stray 0) × (¬ IsValid store h'))
      (add_timer as_written store late (some 3))
unfolding timer
add_timer_written-stray_example =
    add_timer_written-stray store late 3 late-IsValid refl (omega arith) (omega arith)
