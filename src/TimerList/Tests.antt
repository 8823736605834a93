-- ===== src/TimerList/Tests.antt =====
-- A list of sort_timer_list.cpp with two timers, and its theorems there.
use linux_learning.Prelude.{
  ℕ, ◌<◌, ◌≡◌, refl, none, some, List, [], ◌∷◌, arith, ◌==◌, if◌then◌else◌, All, ok, Run, ◌>>=◌,
  Yields,
}
use linux_learning.Links.{Ptr, Store, deref, set_next, set_prev, delete}
use linux_learning.Links.Chain.{Cells, has, node}
use linux_learning.TimerList.{
  Task, TimerList, Timers, Call, util_timer, sort_timer_list, add_timer, add_after, insert_loop,
  adjust_timer, move_timer, del_timer, fire, tick, tick_loop, destroy,
}
use linux_learning.TimerList.Spec.{IsList, IsSorted, later}
use linux_learning.TimerList.Ticks.{Ticked, destroy-Freed}
use linux_learning.TimerList.RoundTrip.{add_timer-del_timer}
use linux_learning.TimerList.Refines.{
  Sorts, add_timer-IsSorted, adjust_timer-IsSorted, del_timer-IsSorted, tick-IsSorted,
}

abbrev task : ℕ → Task
task e = record { expire = e; cb_func = some 1; user_data = e }

-- Three new timers, of which the first two are in the list.
abbrev alloc : Store Task
unfolding util_timer
alloc p =
    if p == 1
    then some (util_timer (task 10))
    else if p == 2
    then some (util_timer (task 20))
    else if p == 3
    then some (util_timer (task 15))
    else none

-- All three are added, the second gets a later time and moves, and the first two in the list are due.
run : Run (List Call × Timers)
unfolding util_timer sort_timer_list add_timer add_after insert_loop adjust_timer move_timer tick
    tick_loop fire deref set_next set_prev delete del_timer
run = do
  (m1, l1) ← add_timer 5 alloc sort_timer_list (some 2)
  (m2, l2) ← add_timer 5 m1 l1 (some 1)
  (m3, l3) ← add_timer 5 m2 l2 (some 3)
  (m4, l4) ← del_timer m3 l3 (some 2)
  tick 5 15 m4 l4

calls_of_run :
    (r : List Call × Timers) × (run ≡ ok r)
    × (r.0 ≡ record { callback = 1; argument = 10 } ∷ record { callback = 1; argument = 15 } ∷ [])
    × (r.1.1.head ≡ none)
unfolding run util_timer
calls_of_run = (_, refl, refl, refl)

abbrev two : Cells Task
two = (1, task 10) ∷ (2, task 20) ∷ []

abbrev store : Store Task
store p =
    if p == 1
    then some (node (task 10) none (some 2))
    else if p == 2
    then some (node (task 20) (some 1) none)
    else if p == 3
    then some (node (task 15) none none)
    else none

abbrev list : TimerList
list = record { head = some 1; tail = some 2 }

two-IsList : IsList store list two
two-IsList = record { chain = (refl, refl, (refl, refl, tt)); head = refl; tail = refl }

two-IsSorted : IsSorted store list two
two-IsSorted = record { is = two-IsList; sorted = (omega arith, (omega arith, tt)) }

add_timer-IsSorted_example :
    Yields
      (Sorts store ((1, task 10) ∷ (3, task 15) ∷ (2, task 20) ∷ []) 3)
      (add_timer 3 store list (some 3))
unfolding util_timer
add_timer-IsSorted_example =
    add_timer-IsSorted 3 store list two 3 (task 15) two-IsSorted refl refl (omega arith)

del_timer-IsSorted_example :
    Yields
      (λ s. Sorts store ((2, task 20) ∷ []) 1 s × (s.0 1 ≡ none))
      (del_timer store list (some 1))
del_timer-IsSorted_example =
    del_timer-IsSorted store list [] 1 (task 10) ((2, task 20) ∷ []) two-IsSorted

tick-IsSorted_example :
    Yields
      (λ r.
        Ticked 10 store two r
        × IsSorted r.1.0 r.1.1 (later 10 two)
        × All (λ c. 10 < c.1.expire) (later 10 two))
      (tick 3 10 store list)
tick-IsSorted_example =
    tick-IsSorted 3 10 store list two two-IsSorted (refl, (refl, tt)) (omega arith)

-- The first timer has been given more time than the second.
abbrev extended : Store Task
extended p =
    if p == 1
    then some (node (task 30) none (some 2))
    else if p == 2
    then some (node (task 20) (some 1) none)
    else none

extended-IsList : IsList extended list ((1, task 30) ∷ (2, task 20) ∷ [])
extended-IsList = record { chain = (refl, refl, (refl, refl, tt)); head = refl; tail = refl }

adjust_timer-IsSorted_example :
    Yields
      (Sorts extended ((2, task 20) ∷ (1, task 30) ∷ []) 1)
      (adjust_timer 2 extended list (some 1))
adjust_timer-IsSorted_example =
    adjust_timer-IsSorted 2 extended list [] 1 (task 30) ((2, task 20) ∷ []) extended-IsList
      (omega arith, tt) tt (omega arith)

destroy-Freed_example :
    Yields (λ m. (q : Ptr) → m q ≡ (if has q two then none else store q)) (destroy 3 store list)
destroy-Freed_example = destroy-Freed 3 store list two two-IsList (omega arith)

add_timer-del_timer_example :
    Yields
      (λ r. Sorts store two 3 r × (r.0 3 ≡ none))
      (add_timer 3 store list (some 3) >>= λ r. del_timer r.0 r.1 (some 3))
unfolding util_timer
add_timer-del_timer_example =
    add_timer-del_timer 3 store list two 3 (task 15) two-IsSorted refl refl (omega arith)
