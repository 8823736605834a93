-- ===== src/TimeHeap/Tests.antt =====
-- Runs of time_heap.h.
use linux_learning.Prelude.{
  ℕ, ◌≡◌, refl, none, some, [], ◌∷◌, Run, ok, fault, ◌>>=◌, ◌==◌, if◌then◌else◌,
}
use linux_learning.TimeHeap.Up.{as_meant}
use linux_learning.TimeHeap.{
  Store, HeapTimer, TimeHeap, Slot, as_written, add_timer, new_empty, up_loop, resize, tick,
  tick_loop, pop_timer, percolate_down, down_loop, pick_child, empty, read, write, deref, release,
}

abbrev timer_at : ℕ → HeapTimer
timer_at e = record { expire = e; cb_func = some 1; user_data = e }

abbrev store : Store
store p =
    if p == 1
    then some (timer_at 30)
    else if p == 2
    then some (timer_at 10)
    else if p == 3
    then some (timer_at 20)
    else none

abbrev three : (ℕ → Slot → Slot) → Run TimeHeap
three w = do
  a ← add_timer w store (new_empty 1) (some 1)
  b ← add_timer w store a (some 2)
  add_timer w store b (some 3)

two_fired :
    (do h ← three as_meant; (calls, m, h') ← tick 20 store h; ok calls)
    ≡ ok (record { callback = 1; argument = 10 } ∷ record { callback = 1; argument = 20 } ∷ [])
unfolding add_timer new_empty up_loop resize tick tick_loop pop_timer percolate_down down_loop
    pick_child empty read write deref release
two_fired = refl

written_faults : (do h ← three as_written; tick 20 store h) ≡ fault
unfolding add_timer new_empty up_loop resize tick tick_loop pop_timer percolate_down down_loop
    pick_child empty read write deref release
written_faults = refl
