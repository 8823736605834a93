-- ===== src/TimerList/Spec.antt =====
-- The abstract view of the list of sort_timer_list.cpp: its timers in order.
use linux_learning.Prelude.{
  ℕ, ◌≤◌, ◌≡◌, refl, ap, true, false, ◌||◌, Option, none, some, List, [], ◌∷◌, ◌++◌, arith, ltb,
  ◌==◌, if◌then◌else◌, is_some, Bool-cases, inl, inr,
}
use linux_learning.Links.{Ptr, Store}
use linux_learning.Links.Chain.{Cells, Chain, first, last, has}
use linux_learning.TimerList.{Task, TimerList, Call}

-- A list that is not empty ends where `tail` points.
abbrev pub TailOf : Option Ptr → Cells Task → Type 0
TailOf tail [] = Unit
TailOf tail ((p, d) ∷ l) = tail ≡ last (some p) l

pub record IsList (m : Store Task) (list : TimerList) (l : Cells Task) : Type 0 where
  pub chain : Chain m none l none
  pub head : list.head ≡ first l none
  pub tail : TailOf list.tail l

-- Each timer expires at `lo` or later, and none before the one in front of it.
abbrev pub SortedFrom : ℕ → Cells Task → Type 0
SortedFrom lo [] = Unit
SortedFrom lo ((p, d) ∷ l) = (lo ≤ d.expire) × SortedFrom d.expire l

-- A timer goes behind those that do not expire later.
abbrev pub insert : Ptr → Task → Cells Task → Cells Task
insert t d [] = (t, d) ∷ []
insert t d ((p, e) ∷ l) =
    let rest = insert t d l in if ltb d.expire e.expire then (t, d) ∷ (p, e) ∷ l else (p, e) ∷ rest

-- The timers that are left after a tick at time `cur`, and the calls that it makes.
abbrev pub later : ℕ → Cells Task → Cells Task
later cur [] = []
later cur ((p, d) ∷ l) = let rest = later cur l in if ltb cur d.expire then (p, d) ∷ l else rest

abbrev pub call_of : Task → List Call → List Call
call_of d calls = elim d.cb_func [
  | none ↦ calls
  | some f ↦ record { callback = f; argument = d.user_data } ∷ calls
]

abbrev pub calls_of : ℕ → Cells Task → List Call
calls_of cur [] = []
calls_of cur ((p, d) ∷ l) =
    let rest = calls_of cur l in if ltb cur d.expire then [] else call_of d rest

-- Every timer has a callback.
abbrev pub HasCallbacks : Cells Task → Type 0
HasCallbacks [] = Unit
HasCallbacks ((p, d) ∷ l) = (is_some d.cb_func ≡ true) × HasCallbacks l

pub has-insert :
    (q t : Ptr) (d : Task) (l : Cells Task) → has q (insert t d l) ≡ (q == t || has q l)
has-insert q t d [] = refl
has-insert q t d ((p, e) ∷ l) = ground (arith, has-insert q t d l)

pub insert-SortedFrom :
    (lo : ℕ) (t : Ptr) (d : Task) (l : Cells Task)
    → lo ≤ d.expire
    → SortedFrom lo l
    → SortedFrom lo (insert t d l)
insert-SortedFrom lo t d [] le v = (le, tt)
insert-SortedFrom lo t d ((p, e) ∷ l) le v =
    let rest = insert-SortedFrom e.expire t d l in
    elim (Bool-cases (ltb d.expire e.expire)) [
      | inl earlier ↦ rw earlier (le, (ground arith, v.1))
      | inr not_earlier ↦ rw not_earlier (v.0, rest (ground arith) v.1)
    ]

-- The timers in order of expiry, as they are linked.
pub record IsSorted (m : Store Task) (list : TimerList) (l : Cells Task) : Type 0 where
  pub is : IsList m list l
  pub sorted : SortedFrom 0 l

pub SortedFrom-weaken :
    (lo lo' : ℕ) (l : Cells Task) → lo' ≤ lo → SortedFrom lo l → SortedFrom lo' l
SortedFrom-weaken lo lo' [] le v = tt
SortedFrom-weaken lo lo' ((p, d) ∷ l) le v = (omega arith, v.1)

pub SortedFrom-remove :
    (lo : ℕ) (l : Cells Task) (t : Ptr) (d : Task) (r : Cells Task)
    → SortedFrom lo (l ++ (t, d) ∷ r)
    → SortedFrom lo (l ++ r)
SortedFrom-remove lo [] t d r v = SortedFrom-weaken d.expire lo r v.0 v.1
SortedFrom-remove lo ((p, e) ∷ l) t d r v = (v.0, SortedFrom-remove e.expire l t d r v.1)

-- No timer of the list expires after `d`.
abbrev pub Below : Task → Cells Task → Type 0
Below d [] = Unit
Below d ((p, e) ∷ l) = (e.expire ≤ d.expire) × Below d l

pub insert-append :
    (t : Ptr) (d : Task) (l r : Cells Task) → Below d l → insert t d (l ++ r) ≡ l ++ insert t d r
insert-append t d [] r v = refl
insert-append t d ((p, e) ∷ l) r v =
    let not_earlier : ltb d.expire e.expire ≡ false = ground arith in
    rw not_earlier (ap (λ k. (p, e) ∷ k) (insert-append t d l r v.1))
