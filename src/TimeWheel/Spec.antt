-- ===== src/TimeWheel/Spec.antt =====
-- The abstract view of the wheel of time_wheel_timer.cpp: a list of timers for each slot.
use linux_learning.Prelude.{
  ℕ, ◌+◌, ◌-◌, ◌*◌, ◌%◌, ◌≤◌, ◌<◌, ◌≡◌, refl, true, false, Option, none, some, List, [], ◌∷◌, arith,
  ltb, ◌==◌, if◌then◌else◌, is_some, length, Bool-cases, inl, inr,
}
use linux_learning.Links.{Ptr, Store}
use linux_learning.Links.Chain.{Cells, Chain, first, has, Apart}
use linux_learning.TimeWheel.{TwTimer, Wheel, Call, slot_count}

abbrev pub InSlot : ℕ → Cells TwTimer → Type 0
InSlot s [] = Unit
InSlot s ((p, d) ∷ l) = (d.time_slot ≡ s) × InSlot s l

-- Each slot points to its own list of timers, and no timer is in two of them.
pub record IsWheel (m : Store TwTimer) (w : Wheel) (slots : ℕ → Cells TwTimer) : Type 0 where
  pub cursor : w.cur_slot < slot_count
  pub chains : (s : ℕ) → s < slot_count → Chain m none (slots s) none
  pub heads : (s : ℕ) → s < slot_count → w.slots s ≡ first (slots s) none
  pub apart :
      (s s' : ℕ) → s < slot_count → s' < slot_count → (s == s') ≡ false → Apart (slots s) (slots s')
  pub placed : (s : ℕ) → s < slot_count → InSlot s (slots s)

abbrev pub HasCallbacks : Cells TwTimer → Type 0
HasCallbacks [] = Unit
HasCallbacks ((p, d) ∷ l) = (is_some d.cb_func ≡ true) × HasCallbacks l

abbrev pub less : TwTimer → TwTimer
less d = record d { rotation = d.rotation - 1 }

-- What a tick leaves of the list of the slot that it looks at, and the calls that it makes.
abbrev pub roll : Cells TwTimer → Cells TwTimer
roll [] = []
roll ((p, d) ∷ l) = let rest = roll l in if ltb 0 d.rotation then (p, less d) ∷ rest else rest

abbrev pub call_of : TwTimer → List Call → List Call
call_of d calls = elim d.cb_func [
  | none ↦ calls
  | some f ↦ record { callback = f; argument = d.user_data } ∷ calls
]

abbrev pub calls_of : Cells TwTimer → List Call
calls_of [] = []
calls_of ((p, d) ∷ l) = let rest = calls_of l in if ltb 0 d.rotation then rest else call_of d rest

pub has-roll : (q : Ptr) (l : Cells TwTimer) → has q l ≡ false → has q (roll l) ≡ false
has-roll q [] o = refl
has-roll q ((p, d) ∷ l) o = ground (arith, has-roll q l)

pub InSlot-roll : (s : ℕ) (l : Cells TwTimer) → InSlot s l → InSlot s (roll l)
InSlot-roll s [] v = tt
InSlot-roll s ((p, d) ∷ l) v = elim (Bool-cases (ltb 0 d.rotation)) [
  | inl stays ↦ rw stays (v.0, InSlot-roll s l v.1)
  | inr due ↦ rw due (InSlot-roll s l v.1)
]

pub HasCallbacks-roll : (l : Cells TwTimer) → HasCallbacks l → HasCallbacks (roll l)
HasCallbacks-roll [] v = tt
HasCallbacks-roll ((p, d) ∷ l) v = elim (Bool-cases (ltb 0 d.rotation)) [
  | inl stays ↦ rw stays (v.0, HasCallbacks-roll l v.1)
  | inr due ↦ rw due (HasCallbacks-roll l v.1)
]

pub length-roll : (l : Cells TwTimer) → length (roll l) ≤ length l
length-roll [] = omega arith
length-roll ((p, d) ∷ l) = ground (arith, length-roll l)

-- How many turns the timer of a list still stays there.
abbrev pub rotation_of : Ptr → Cells TwTimer → Option ℕ
rotation_of q [] = none
rotation_of q ((p, d) ∷ l) = let rest = rotation_of q l in if q == p then some d.rotation else rest

-- How many ticks go by before the one that calls a timer of slot `s` with `rotation`.
abbrev pub countdown : ℕ → ℕ → ℕ → ℕ
countdown cur s rotation = (s + slot_count - cur) % slot_count + slot_count * rotation
