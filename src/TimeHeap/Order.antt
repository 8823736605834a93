-- ===== src/TimeHeap/Order.antt =====
-- The order of the heap of time_heap.h, and when a heap is well formed over a store.
use linux_learning.Prelude.{
  ℕ, zero, suc, ◌≤◌, ◌<◌, ◌≡◌, Bool, true, false, none, some, arith, is_some, ok, update,
}
use linux_learning.TimeHeap.{
  Store, HeapTimer, TimeHeap, Slot, null, ref, stray, parent, deref, read, write,
}
use linux_learning.TimeHeap.Count.{count, count_pos, SameSlots}

-- `s` points to an allocated timer.
abbrev pub is_live : Store → Slot → Bool
is_live m (ref p) = is_some (m p)
is_live m null = false
is_live m (stray n) = false

-- The timer that `s` points to; one that never expires in its place if there is none.
unfoldable pub timer : Store → Slot → HeapTimer
timer m (ref p) = elim (m p) [
  | none ↦ record { expire = 0; cb_func = none; user_data = 0 }
  | some t ↦ t
]
timer m _ = record { expire = 0; cb_func = none; user_data = 0 }

abbrev pub key : Store → Slot → ℕ
key m s = (timer m s).expire

pub deref-ok : (m : Store) (s : Slot) → is_live m s ≡ true → deref m s ≡ ok (timer m s)
unfolding deref timer
deref-ok m null h = ground arith
deref-ok m (ref p) h = ground arith
deref-ok m (stray n) h = ground arith

pub read-ok : (h : TimeHeap) (i : ℕ) → i < h.capacity → read h i ≡ ok (h.array i)
unfolding read
read-ok h i lt = ground arith

pub write-ok :
    (h : TimeHeap) (i : ℕ) (s : Slot)
    → i < h.capacity
    → write h i s ≡ ok (record h { array = update h.array i s })
unfolding write
write-ok h i s lt = ground arith

-- Every edge whose parent is at `lo` or later is in order.
abbrev pub OrderedFrom : ℕ → Store → ℕ → (ℕ → Slot) → Type 0
OrderedFrom lo m n a = (c : ℕ) → 0 < c → c < n → lo ≤ parent c → key m (a (parent c)) ≤ key m (a c)

-- The entries are distinct pointers to allocated timers.
pub record AreOwned (m : Store) (n : ℕ) (a : ℕ → Slot) : Type 0 where
  pub live : (s : Slot) → 0 < count s n a → is_live m s ≡ true
  pub once : (s : Slot) → count s n a ≤ 1

pub record IsValid (m : Store) (h : TimeHeap) : Type 0 where
  pub room : 0 < h.capacity
  pub fits : h.cur_size ≤ h.capacity
  pub owned : AreOwned m h.cur_size h.array
  pub ordered : OrderedFrom 0 m h.cur_size h.array

pub AreOwned-same :
    (m : Store) (n : ℕ) (a b : ℕ → Slot) → SameSlots n a b → AreOwned m n a → AreOwned m n b
AreOwned-same m n a b same o = record {
  live = λ s h. o.live s (omega (arith, same s));
  once = λ s. omega (arith, same s, o.once s);
}

pub live_at :
    (m : Store) (n : ℕ) (a : ℕ → Slot) → AreOwned m n a → (i : ℕ) → i < n → is_live m (a i) ≡ true
live_at m n a o i h = o.live (a i) (count_pos n i a h)

root_least_below :
    (k : ℕ) (m : Store) (n : ℕ) (a : ℕ → Slot)
    → OrderedFrom 0 m n a
    → (i : ℕ) → i < k
    → i < n
    → key m (a 0) ≤ key m (a i)
root_least_below zero m n a ordered i f h = absurd (omega arith)
root_least_below (suc k) m n a ordered zero f h = omega arith
root_least_below (suc k) m n a ordered (suc i) f h = omega (
  arith,
  ordered (suc i) (omega arith) h (omega arith),
  root_least_below k m n a ordered (parent (suc i)) (omega arith) (omega arith),
)

-- No timer of the heap expires before the one at the root.
pub root_least :
    (m : Store) (n : ℕ) (a : ℕ → Slot)
    → OrderedFrom 0 m n a
    → (i : ℕ) → i < n
    → key m (a 0) ≤ key m (a i)
root_least m n a ordered i h = root_least_below (suc i) m n a ordered i (omega arith) h

-- `h'` holds the entries `b` in order from `lo`, in an array of the capacity of `h`.
pub record Settled (lo : ℕ) (m : Store) (h : TimeHeap) (b : ℕ → Slot) (h' : TimeHeap) : Type 0 where
  pub capacity : h'.capacity ≡ h.capacity
  pub size : h'.cur_size ≡ h.cur_size
  pub same : SameSlots h.cur_size h'.array b
  pub ordered : OrderedFrom lo m h.cur_size h'.array
