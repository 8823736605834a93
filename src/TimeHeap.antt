-- ===== src/TimeHeap.antt =====
-- HTTP_server_learning/time_heap.h: timers in a binary min-heap of pointers.
-- The timers live in a store, since `del_timer` changes a timer that the heap also points to; a freed
-- or unallocated address holds `none`. `time_t` values are numbers, and indices stay far below 2^31.
-- `new` is taken to succeed, and a callback only adds to the log of calls.
pub mod Count
pub mod Order
pub mod Down
pub mod Up
pub mod Insert
pub mod Remove
pub mod Ticks
pub mod Cancel
mod Tests
mod Witnesses
use linux_learning.Prelude.{
  ℕ, zero, suc, ◌+◌, ◌-◌, ◌*◌, ◌/◌, Bool, true, false, Option, none, some, List, [], ◌∷◌, ltb, leb,
  ◌==◌, if◌then◌else◌, is_some, update, Run, ok, thrown, fault, out_of_fuel, ◌>>=◌,
}

abbrev pub Ptr : Type 0
Ptr = ℕ

pub record HeapTimer : Type 0 where
  pub expire : ℕ
  pub cb_func : Option ℕ
  pub user_data : ℕ

abbrev pub Store : Type 0
Store = Ptr → Option HeapTimer

-- An entry of `array`: NULL, a pointer to a timer, or an integer that was stored as a pointer.
pub data Slot : Type 0 where
  null : Slot
  ref : Ptr → Slot
  stray : ℕ → Slot

pub record TimeHeap : Type 0 where
  pub array : ℕ → Slot
  pub capacity : ℕ
  pub cur_size : ℕ

-- `heap_timer(int delay)`, at time `now`; the callback and its argument are set by the caller.
pub heap_timer : ℕ → ℕ → Option ℕ → ℕ → HeapTimer
heap_timer now delay cb user = record { expire = now + delay; cb_func = cb; user_data = user }

unfoldable pub read : TimeHeap → ℕ → Run Slot
read h i = if ltb i h.capacity then ok (h.array i) else fault

unfoldable pub write : TimeHeap → ℕ → Slot → Run TimeHeap
write h i s = if ltb i h.capacity then ok (record h { array = update h.array i s }) else fault

-- `s->...`
unfoldable pub deref : Store → Slot → Run HeapTimer
deref m (ref p) = elim (m p) [ none ↦ fault | some t ↦ ok t ]
deref m null = fault
deref m (stray n) = fault

abbrev pub parent : ℕ → ℕ
parent hole = (hole - 1) / 2

pub empty : TimeHeap → Bool
empty h = h.cur_size == 0

-- The child that percolate_down compares with: the right one if it exists and expires earlier.
pub pick_child : Store → TimeHeap → ℕ → Run ℕ
pick_child m h child =
    if ltb (child + 1) h.cur_size
    then (do
      r ← read h (child + 1)
      rt ← deref m r
      l ← read h child
      lt ← deref m l
      ok (if ltb rt.expire lt.expire then child + 1 else child))
    else ok child

-- The loop of percolate_down and the write behind it. `hole * 2 + 1 <= cur_size - 1` is over `int`,
-- so it is false at `cur_size == 0`. The source's `array[hold]` is read as `array[hole]`.
pub down_loop : ℕ → Store → TimeHeap → ℕ → Slot → Run TimeHeap
down_loop zero m h hole tmp = out_of_fuel
down_loop (suc k) m h hole tmp =
    let step : Run TimeHeap = do
      child ← pick_child m h (hole * 2 + 1)
      c ← read h child
      ct ← deref m c
      mt ← deref m tmp
      let sink = write h hole c >>= λ h'. down_loop k m h' child tmp
      if ltb ct.expire mt.expire then sink else write h hole tmp
    in if ltb (hole * 2 + 1) h.cur_size then step else write h hole tmp

pub percolate_down : Store → TimeHeap → ℕ → Run TimeHeap
percolate_down m h hole = do tmp ← read h hole; down_loop (suc h.cur_size) m h hole tmp

-- `time_heap(int cap)`
pub new_empty : ℕ → TimeHeap
new_empty cap = record { array = λ _. null; capacity = cap; cur_size = 0 }

-- The loop `for(i = start; i >= 0; --i)`, counted by the rounds left.
pub heapify : Store → ℕ → TimeHeap → Run TimeHeap
heapify m zero h = ok h
heapify m (suc i) h = percolate_down m h i >>= λ h'. heapify m i h'

-- `time_heap(heap_timer **init_array, int size, int capacity)`
pub new_from : Store → (ℕ → Slot) → ℕ → ℕ → Run TimeHeap
new_from m init_array size capacity =
    if ltb capacity size
    then thrown
    else (let h : TimeHeap = record {
      array = λ i. if ltb i size then init_array i else null;
      capacity = capacity;
      cur_size = size;
    } in
        if size == 0 then ok h else heapify m ((size - 1) / 2 + 1) h)

-- Twice the capacity, the first `cur_size` entries copied.
pub resize : TimeHeap → TimeHeap
resize h = record h {
  array = λ i. if ltb i h.cur_size then h.array i else null;
  capacity = 2 * h.capacity;
}

-- What line 89 stores, given `parent` and the entry there: `array[hole] = parent` is an `int` stored as a
-- pointer.
abbrev pub as_written : ℕ → Slot → Slot
as_written parent s = stray parent

-- The loop of add_timer and the write behind it, with what line 89 stores as an argument, so that a repair
-- of that line can be looked at too.
pub up_loop : ℕ → (ℕ → Slot → Slot) → Store → TimeHeap → ℕ → Ptr → Run TimeHeap
up_loop zero w m h hole timer = out_of_fuel
up_loop (suc k) w m h hole timer =
    let step : Run TimeHeap = do
      s ← read h (parent hole)
      above ← deref m s
      t ← deref m (ref timer)
      let rise = write h hole (w (parent hole) s) >>= λ h'. up_loop k w m h' (parent hole) timer
      if leb above.expire t.expire then write h hole (ref timer) else rise
    in if ltb 0 hole then step else write h hole (ref timer)

pub add_timer : (ℕ → Slot → Slot) → Store → TimeHeap → Option Ptr → Run TimeHeap
add_timer w m h none = ok h
add_timer w m h (some timer) =
    let roomy = if leb h.capacity h.cur_size then resize h else h in
    let hole = h.cur_size in
    up_loop (suc hole) w m (record roomy { cur_size = suc hole }) hole timer

-- Only the callback goes; the timer stays in the heap until it expires.
pub del_timer : Store → Option Ptr → Run Store
del_timer m none = ok m
del_timer m (some p) = do t ← deref m (ref p); ok (update m p (some (record t { cb_func = none })))

pub top : TimeHeap → Run Slot
top h = if empty h then ok null else read h 0

-- `delete`
unfoldable pub release : Store → Slot → Run Store
release m (ref p) = elim (m p) [ none ↦ fault | some t ↦ ok (update m p none) ]
release m null = ok m
release m (stray n) = fault

pub pop_timer : Store → TimeHeap → Run (Store × TimeHeap)
pop_timer m h = if empty h then ok (m, h) else do
  root ← read h 0
  let pop : Run (Store × TimeHeap) = do
    m' ← release m root
    last ← read h (h.cur_size - 1)
    h' ← write (record h { cur_size = h.cur_size - 1 }) 0 last
    h'' ← percolate_down m' h' 0
    ok (m', h'')
  elim root [ null ↦ ok (m, h) | ref p ↦ pop | stray n ↦ pop ]

-- A call of `cb_func(user_data)`.
pub record Call : Type 0 where
  pub callback : ℕ
  pub argument : ℕ

abbrev pub fire : HeapTimer → List Call → List Call
fire t calls = elim t.cb_func [
  | none ↦ calls
  | some f ↦ record { callback = f; argument = t.user_data } ∷ calls
]

-- The loop of tick at time `cur`, with the calls in the order in which they are made.
pub tick_loop : ℕ → ℕ → Store → TimeHeap → Slot → Run (List Call × Store × TimeHeap)
tick_loop zero cur m h tmp = out_of_fuel
tick_loop (suc k) cur m h tmp =
    if empty h
    then ok ([], m, h)
    else (let due : Run (List Call × Store × TimeHeap) = do
      root ← read h 0
      rt ← deref m root
      (m', h') ← pop_timer m h
      next ← read h' 0
      (calls, m'', h'') ← tick_loop k cur m' h' next
      ok (fire rt calls, m'', h'')
      in let look : Run (List Call × Store × TimeHeap) = do
        t ← deref m tmp
        if ltb cur t.expire then ok ([], m, h) else due
        in elim tmp [ null ↦ ok ([], m, h) | ref p ↦ look | stray n ↦ look ])

pub tick : ℕ → Store → TimeHeap → Run (List Call × Store × TimeHeap)
tick cur m h = do tmp ← read h 0; tick_loop (suc h.cur_size) cur m h tmp

-- `~time_heap()`: the first `n` timers are deleted, from index 0 on.
pub destroy_loop : ℕ → ℕ → Store → TimeHeap → Run Store
destroy_loop zero i m h = ok m
destroy_loop (suc n) i m h = do s ← read h i; m' ← release m s; destroy_loop n (i + 1) m' h

pub destroy : Store → TimeHeap → Run Store
destroy m h = destroy_loop h.cur_size 0 m h
