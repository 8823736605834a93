-- ===== src/Links.antt =====
-- Nodes of a doubly linked list in a store, as HTTP_server_learning/sort_timer_list.cpp and
-- time_wheel_timer.cpp chain their timers.
-- An address that holds `none` is freed or was never allocated; using it is a fault.
pub mod Chain
pub mod Ends
pub mod Unlink
use linux_learning.Prelude.{ℕ, Option, none, some, update, Run, ok, fault}

abbrev pub Ptr : Type 0
Ptr = ℕ

-- A timer: what it says, and its two pointers, `none` for NULL.
pub record Node {ℓ} (D : Type ℓ) : Type ℓ where
  pub item : D
  pub prev : Option Ptr
  pub next : Option Ptr

abbrev pub Store {ℓ} : Type ℓ → Type ℓ
Store D = Ptr → Option (Node D)

module _ {ℓ} {D : Type ℓ} where
  -- `p->...`
  unfoldable pub deref : Store D → Option Ptr → Run (Node D)
  deref m none = fault
  deref m (some p) = elim (m p) [ none ↦ fault | some n ↦ ok n ]

  -- `p->next = v`
  unfoldable pub set_next : Store D → Option Ptr → Option Ptr → Run (Store D)
  set_next m none v = fault
  set_next m (some p) v = elim (m p) [
    | none ↦ fault
    | some n ↦ ok (update m p (some (record n { next = v })))
  ]

  -- `p->prev = v`
  unfoldable pub set_prev : Store D → Option Ptr → Option Ptr → Run (Store D)
  set_prev m none v = fault
  set_prev m (some p) v = elim (m p) [
    | none ↦ fault
    | some n ↦ ok (update m p (some (record n { prev = v })))
  ]

  -- `delete p`
  unfoldable pub delete : Store D → Option Ptr → Run (Store D)
  delete m none = ok m
  delete m (some p) = elim (m p) [ none ↦ fault | some n ↦ ok (update m p none) ]
