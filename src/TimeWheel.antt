-- ===== src/TimeWheel.antt =====
-- HTTP_server_learning/time_wheel_timer.cpp: a wheel of 60 slots, each a doubly linked list of timers.
-- The nodes live in a store, see Links. A callback is a function's address, and calling one only adds to
-- the log of calls. The loops that walk a list run on fuel: a round for each timer and one more.
pub mod Slots
pub mod Spec
pub mod Rolls
pub mod Ticks
pub mod Adds
pub mod Removes
pub mod OnTime
mod Tests
use linux_learning.Prelude.{
  ℕ, zero, suc, ◌+◌, ◌-◌, ◌/◌, ◌%◌, Bool, true, false, Option, none, some, List, [], ◌∷◌, ltb, ◌==◌,
  if◌then◌else◌, update, Run, ok, fault, out_of_fuel, ◌>>=◌, ℤ, pos, negsuc,
}
use linux_learning.Links.{Ptr, Node, Store, deref, set_next, set_prev, delete}

-- `N` and `SI`.
abbrev pub slot_count : ℕ
slot_count = 60

abbrev pub interval : ℕ
interval = 1

-- `tw_timer` without its two pointers.
pub record TwTimer : Type 0 where
  pub rotation : ℕ
  pub time_slot : ℕ
  pub cb_func : Option ℕ
  pub user_data : ℕ

-- `tw_timer(int rot, int ts)`; what the constructor leaves unset is null.
pub tw_timer : ℕ → ℕ → Node TwTimer
tw_timer rot ts = record {
  item = record { rotation = rot; time_slot = ts; cb_func = none; user_data = 0 };
  prev = none;
  next = none;
}

pub record Wheel : Type 0 where
  pub slots : ℕ → Option Ptr
  pub cur_slot : ℕ

abbrev pub Turning : Type 0
Turning = Store TwTimer × Wheel

-- `time_wheel()`
pub time_wheel : Wheel
time_wheel = record { slots = λ i. none; cur_slot = 0 }

-- `slots[ts]`
pub slot : Wheel → ℕ → Run (Option Ptr)
slot w ts = if ltb ts slot_count then ok (w.slots ts) else fault

abbrev pub set_slot : Wheel → ℕ → Option Ptr → Wheel
set_slot w ts p = record w { slots = update w.slots ts p }

-- After how many turns a timer is to be looked at. The source's `ticks` is read as a local variable.
pub ticks_of : ℕ → ℕ
ticks_of timeout = if ltb timeout interval then 1 else timeout / interval

-- add_timer with a timeout that is not negative; `fresh` is the address that `new` gives.
pub add_at : Store TwTimer → Wheel → Ptr → ℕ → Run (Option Ptr × Turning)
add_at m w fresh timeout =
    let ticks = ticks_of timeout in
    let ts = (w.cur_slot + ticks % slot_count) % slot_count in
    let m0 = update m fresh (some (tw_timer (ticks / slot_count) ts)) in
    do
      head ← slot w ts
      let linked : Run (Option Ptr × Turning) = do
        m1 ← set_next m0 (some fresh) head
        m2 ← set_prev m1 head (some fresh)
        ok (some fresh, (m2, set_slot w ts (some fresh)))
      elim head [ none ↦ ok (some fresh, (m0, set_slot w ts (some fresh))) | some h ↦ linked ]

pub add_timer : Store TwTimer → Wheel → Ptr → ℤ → Run (Option Ptr × Turning)
add_timer m w fresh (negsuc n) = ok (none, (m, w))
add_timer m w fresh (pos n) = add_at m w fresh n

abbrev pub is_head : Ptr → Option Ptr → Bool
is_head p none = false
is_head p (some q) = p == q

-- `if(p) p->prev = v;`
pub link_back : Store TwTimer → Option Ptr → Option Ptr → Run (Store TwTimer)
link_back m none v = ok m
link_back m (some p) v = set_prev m (some p) v

-- What del_timer and tick do with the timer `p` of slot `ts`: it leaves the list and is deleted.
pub unlink : Store TwTimer → Wheel → ℕ → Ptr → Run Turning
unlink m w ts p = do
  head ← slot w ts
  n ← deref m (some p)
  let at_head : Run Turning = do
    m1 ← link_back m n.next none
    m2 ← delete m1 (some p)
    ok (m2, set_slot w ts n.next)
  let inside : Run Turning = do
    m1 ← set_next m n.prev n.next
    m2 ← link_back m1 n.next n.prev
    m3 ← delete m2 (some p)
    ok (m3, w)
  if is_head p head then at_head else inside

pub del_timer : Store TwTimer → Wheel → Option Ptr → Run Turning
del_timer m w none = ok (m, w)
del_timer m w (some timer) = do n ← deref m (some timer); unlink m w n.item.time_slot timer

-- A call of `cb_func(user_data)`; a null callback is a fault.
pub record Call : Type 0 where
  pub callback : ℕ
  pub argument : ℕ

pub fire : TwTimer → Run Call
fire t = elim t.cb_func [
  | none ↦ fault
  | some f ↦ ok (record { callback = f; argument = t.user_data })
]

-- `tmp->rotation--`
abbrev pub turned : Node TwTimer → Node TwTimer
turned n = record n { item = record n.item { rotation = n.item.rotation - 1 } }

-- The loop of tick, with the calls in the order in which they are made.
pub tick_loop : ℕ → Store TwTimer → Wheel → Option Ptr → Run (List Call × Turning)
tick_loop zero m w tmp = out_of_fuel
tick_loop (suc k) m w none = ok ([], (m, w))
tick_loop (suc k) m w (some tmp) = do
  n ← deref m (some tmp)
  let due : Run (List Call × Turning) = do
    call ← fire n.item
    (m', w') ← unlink m w w.cur_slot tmp
    (calls, rest) ← tick_loop k m' w' n.next
    ok (call ∷ calls, rest)
  let stays = tick_loop k (update m tmp (some (turned n))) w n.next
  if ltb 0 n.item.rotation then stays else due

-- `cur_slot = ++cur_slot % N`
pub turn : Wheel → Wheel
turn w = record w { cur_slot = (w.cur_slot + 1) % slot_count }

pub tick : ℕ → Store TwTimer → Wheel → Run (List Call × Turning)
tick fuel m w = do
  head ← slot w w.cur_slot
  (calls, (m', w')) ← tick_loop fuel m w head
  ok (calls, (m', turn w'))

-- The inner loop of the destructor.
pub clear_slot : ℕ → Store TwTimer → Option Ptr → Run (Store TwTimer)
clear_slot zero m tmp = out_of_fuel
clear_slot (suc k) m none = ok m
clear_slot (suc k) m (some tmp) = do
  n ← deref m (some tmp)
  m' ← delete m (some tmp)
  clear_slot k m' n.next

-- The outer one, from slot `i` on with the slots left.
pub clear_slots : ℕ → ℕ → ℕ → Store TwTimer → Wheel → Run (Store TwTimer)
clear_slots zero fuel i m w = ok m
clear_slots (suc n) fuel i m w = do
  head ← slot w i
  m' ← clear_slot fuel m head
  clear_slots n fuel (i + 1) m' w

pub destroy : ℕ → Store TwTimer → Wheel → Run (Store TwTimer)
destroy fuel m w = clear_slots slot_count fuel 0 m w
