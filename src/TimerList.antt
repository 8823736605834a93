-- ===== src/TimerList.antt =====
-- HTTP_server_learning/sort_timer_list.cpp: timers in a doubly linked list, sorted by expiry.
-- The nodes live in a store, see Links; `time_t` values are numbers. Loops that walk the list run on
-- fuel, and one round for each timer and one more are enough.
pub mod Spec
pub mod Inserted
pub mod Insert
pub mod Delete
pub mod Adjust
pub mod Ticks
pub mod Refines
pub mod RoundTrip
mod Tests
use linux_learning.Prelude.{
  ℕ, zero, suc, Bool, true, false, Option, none, some, List, [], ◌∷◌, ltb, ◌==◌, if◌then◌else◌, Run,
  ok, fault, out_of_fuel, ◌>>=◌,
}
use linux_learning.Links.{Ptr, Node, Store, deref, set_next, set_prev, delete}

-- `util_timer` without its two pointers; a callback is a function's address.
pub record Task : Type 0 where
  pub expire : ℕ
  pub cb_func : Option ℕ
  pub user_data : ℕ

-- `util_timer()`, with the members that its creator sets.
unfoldable pub util_timer : Task → Node Task
util_timer task = record { item = task; prev = none; next = none }

pub record TimerList : Type 0 where
  pub head : Option Ptr
  pub tail : Option Ptr

abbrev pub Timers : Type 0
Timers = Store Task × TimerList

pub sort_timer_list : TimerList
sort_timer_list = record { head = none; tail = none }

abbrev pub same_ptr : Option Ptr → Option Ptr → Bool
same_ptr none none = true
same_ptr (some p) (some q) = p == q
same_ptr _ _ = false

-- The loop of the private add_timer, and the end of it when the loop has run through.
pub insert_loop : ℕ → Store Task → TimerList → Ptr → Option Ptr → Option Ptr → Run Timers
insert_loop zero m list timer prev tmp = out_of_fuel
insert_loop (suc k) m list timer prev none = do
  m1 ← set_next m prev (some timer)
  m2 ← set_next m1 (some timer) none
  m3 ← set_prev m2 (some timer) prev
  ok (m3, record list { tail = some timer })
insert_loop (suc k) m list timer prev (some tmp) = do
  t ← deref m (some timer)
  n ← deref m (some tmp)
  let here : Run Timers = do
    m1 ← set_next m prev (some timer)
    m2 ← set_next m1 (some timer) (some tmp)
    m3 ← set_prev m2 (some tmp) (some timer)
    m4 ← set_prev m3 (some timer) prev
    ok (m4, list)
  let on = insert_loop k m list timer (some tmp) n.next
  if ltb t.item.expire n.item.expire then here else on

-- `add_timer(util_timer *timer, util_timer *list_head)`
pub add_after : ℕ → Store Task → TimerList → Ptr → Option Ptr → Run Timers
add_after fuel m list timer list_head = do
  n ← deref m list_head
  insert_loop fuel m list timer list_head n.next

-- The public add_timer.
pub add_timer : ℕ → Store Task → TimerList → Option Ptr → Run Timers
add_timer fuel m list none = ok (m, list)
add_timer fuel m list (some timer) =
    let other : Run Timers = do
      t ← deref m (some timer)
      h ← deref m list.head
      let in_front : Run Timers = do
        m1 ← set_next m (some timer) list.head
        m2 ← set_prev m1 list.head (some timer)
        ok (m2, record list { head = some timer })
      let behind = add_after fuel m list timer list.head
      if ltb t.item.expire h.item.expire then in_front else behind
    in elim list.head [
      | none ↦ ok (m, record { head = some timer; tail = some timer })
      | some h ↦ other
    ]

-- The part of adjust_timer behind its early returns.
pub move_timer : ℕ → Store Task → TimerList → Ptr → Run Timers
move_timer fuel m list timer =
    let at_head : Run Timers = do
      h ← deref m list.head
      m1 ← set_prev m h.next none
      m2 ← set_next m1 (some timer) none
      add_after fuel m2 (record list { head = h.next }) timer h.next
    in let inside : Run Timers = do
      t ← deref m (some timer)
      m1 ← set_next m t.prev t.next
      m2 ← set_prev m1 t.next t.prev
      add_after fuel m2 list timer t.next
      in if same_ptr (some timer) list.head then at_head else inside

-- Only a later expiry is provided for.
pub adjust_timer : ℕ → Store Task → TimerList → Option Ptr → Run Timers
adjust_timer fuel m list none = ok (m, list)
adjust_timer fuel m list (some timer) = do
  t ← deref m (some timer)
  let compared : Run Timers = do
    n ← deref m t.next
    let moved = move_timer fuel m list timer
    if ltb t.item.expire n.item.expire then ok (m, list) else moved
  elim t.next [ none ↦ ok (m, list) | some n ↦ compared ]

pub del_timer : Store Task → TimerList → Option Ptr → Run Timers
del_timer m list none = ok (m, list)
del_timer m list (some timer) =
    let alone : Run Timers = do
      m1 ← delete m (some timer)
      ok (m1, record { head = none; tail = none })
    in let at_head : Run Timers = do
      h ← deref m list.head
      m1 ← set_prev m h.next none
      m2 ← delete m1 (some timer)
      ok (m2, record list { head = h.next })
      in let at_tail : Run Timers = do
        t ← deref m list.tail
        m1 ← set_next m t.prev none
        m2 ← delete m1 (some timer)
        ok (m2, record list { tail = t.prev })
        in let inside : Run Timers = do
          t ← deref m (some timer)
          m1 ← set_next m t.prev t.next
          m2 ← set_prev m1 t.next t.prev
          m3 ← delete m2 (some timer)
          ok (m3, list)
          in if same_ptr (some timer) list.head
            then (if same_ptr (some timer) list.tail then alone else at_head)
            else if same_ptr (some timer) list.tail
            then at_tail
            else inside

-- A call of `cb_func(user_data)`.
pub record Call : Type 0 where
  pub callback : ℕ
  pub argument : ℕ

-- A null callback is a fault.
pub fire : Task → Run Call
fire t = elim t.cb_func [
  | none ↦ fault
  | some f ↦ ok (record { callback = f; argument = t.user_data })
]

-- The loop of tick at time `cur`, with the calls in the order in which they are made.
pub tick_loop : ℕ → ℕ → Store Task → TimerList → Option Ptr → Run (List Call × Timers)
tick_loop zero cur m list tmp = out_of_fuel
tick_loop (suc k) cur m list none = ok ([], (m, list))
tick_loop (suc k) cur m list (some tmp) = do
  n ← deref m (some tmp)
  let due : Run (List Call × Timers) = do
    call ← fire n.item
    m1 ← elim n.next [ none ↦ ok m | some h ↦ set_prev m (some h) none ]
    m2 ← delete m1 (some tmp)
    (calls, rest) ← tick_loop k cur m2 (record list { head = n.next }) n.next
    ok (call ∷ calls, rest)
  if ltb cur n.item.expire then ok ([], (m, list)) else due

pub tick : ℕ → ℕ → Store Task → TimerList → Run (List Call × Timers)
tick fuel cur m list = tick_loop fuel cur m list list.head

-- The destructor's loop, which leaves `head` null.
pub destroy_loop : ℕ → Store Task → Option Ptr → Run (Store Task)
destroy_loop zero m tmp = out_of_fuel
destroy_loop (suc k) m none = ok m
destroy_loop (suc k) m (some tmp) = do
  n ← deref m (some tmp)
  m1 ← delete m (some tmp)
  destroy_loop k m1 n.next

pub destroy : ℕ → Store Task → TimerList → Run (Store Task)
destroy fuel m list = destroy_loop fuel m list.head
