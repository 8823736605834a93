-- ===== src/TimeWheel/Slots.antt =====
-- One slot of time_wheel_timer.cpp: unlinking a timer, and the loop of tick.
use mathlib.Core.List.{append-nil}
use linux_learning.Prelude.{
  ℕ, ◌<◌, ◌≡◌, refl, ◌∙◌, false, none, some, [], ◌∷◌, ◌++◌, arith, ◌==◌, update, update_at,
  update_away, ok, Yields, yields,
}
use linux_learning.Links.{Ptr, Node, Store}
use linux_learning.Links.Chain.{Cells, Chain, first, last, has, node, deref-ok, delete-ok}
use linux_learning.Links.Unlink.{
  Left, freed-Chain, outside, same_self, or_left, unlink_first, unlink_last, unlink_between,
}
use linux_learning.TimeWheel.{
  TwTimer, Wheel, Turning, slot_count, slot, set_slot, link_back, unlink,
}

pub slot-ok : (w : Wheel) (ts : ℕ) → ts < slot_count → slot w ts ≡ ok (w.slots ts)
unfolding slot
slot-ok w ts lt = ground arith

-- The timer `t` is freed, slot `ts` has the list `l`, and all else is as it was.
pub record Unlinked (m : Store TwTimer) (w : Wheel) (ts : ℕ) (l : Cells TwTimer) (t : Ptr)
    (r : Turning) : Type 0 where
  pub chain : Chain r.0 none l none
  pub head : r.1.slots ts ≡ first l none
  pub others : (s : ℕ) → (s == ts) ≡ false → r.1.slots s ≡ w.slots s
  pub cursor : r.1.cur_slot ≡ w.cur_slot
  pub freed : r.0 t ≡ none
  pub same : (q : Ptr) → has q l ≡ false → (q == t) ≡ false → r.0 q ≡ m q

finish_head :
    (m m' : Store TwTimer) (w : Wheel) (ts : ℕ) (l : Cells TwTimer) (t : Ptr)
    → Left m l m'
    → has t l ≡ false
    → Unlinked m w ts l t (update m' t none, set_slot w ts (first l none))
finish_head m m' w ts l t v out = record {
  chain = freed-Chain m' t none l out v.chain;
  head = update_at w.slots ts (first l none);
  others = λ s n. update_away w.slots ts (first l none) s n;
  cursor = refl;
  freed = update_at m' t none;
  same = λ q o n. update_away m' t none q n ∙ v.same q o;
}

finish_inside :
    (m m' : Store TwTimer) (w : Wheel) (ts : ℕ) (l : Cells TwTimer) (t : Ptr)
    → Left m l m'
    → has t l ≡ false
    → w.slots ts ≡ first l none
    → Unlinked m w ts l t (update m' t none, w)
finish_inside m m' w ts l t v out e = record {
  chain = freed-Chain m' t none l out v.chain;
  head = e;
  others = λ s n. refl;
  cursor = refl;
  freed = update_at m' t none;
  same = λ q o n. update_away m' t none q n ∙ v.same q o;
}

-- A timer of a slot, wherever it stands in the slot's list, is taken out of it and freed.
pub unlink-Unlinked :
    (m : Store TwTimer) (w : Wheel) (ts : ℕ) (l : Cells TwTimer) (t : Ptr) (d : TwTimer)
    (r : Cells TwTimer)
    → ts < slot_count
    → w.slots ts ≡ first (l ++ (t, d) ∷ r) none
    → Chain m none (l ++ (t, d) ∷ r) none
    → Yields (Unlinked m w ts (l ++ r) t) (unlink m w ts t)
unfolding unlink link_back
unlink-Unlinked m w ts [] t d [] lt e c =
    rw
      (
        slot-ok w ts lt,
        e,
        deref-ok m t (node d none none) c.0,
        same_self t,
        delete-ok m t (node d none none) c.0,
      )
      (yields (finish_head m m w ts [] t (record { chain = tt; same = λ q o. refl }) refl))
unlink-Unlinked m w ts [] t d ((x, f) ∷ r) lt e c =
    let n : Node TwTimer = node d none (some x) in
    let (m1, step, v) = unlink_first m t x d f r c in
    rw
      (
        slot-ok w ts lt,
        e,
        deref-ok m t n c.0,
        same_self t,
        step,
        delete-ok m1 t n (v.same t c.1 ∙ c.0),
      )
      (yields (finish_head m m1 w ts ((x, f) ∷ r) t v c.1))
unlink-Unlinked m w ts ((p, a) ∷ l) t d [] lt e c =
    let n : Node TwTimer = node d (last (some p) l) none in
    let (out, _, _, at) = outside m none ((p, a) ∷ l) t d [] c in
    let (m1, step, v) = unlink_last m p a l t d c in
    rw (append-nil l) (
      rw
        (
          slot-ok w ts lt,
          e,
          deref-ok m t n at,
          or_left (t == p) (has t l) out,
          step,
          delete-ok m1 t n (v.same t out ∙ at),
        )
        (yields (finish_inside m m1 w ts ((p, a) ∷ l) t v out e)))
unlink-Unlinked m w ts ((p, a) ∷ l) t d ((x, f) ∷ r) lt e c =
    let n : Node TwTimer = node d (last (some p) l) (some x) in
    let (out, _, both, at) = outside m none ((p, a) ∷ l) t d ((x, f) ∷ r) c in
    let (m1, step, m2, step', v) = unlink_between m p a l t x d f r c in
    rw
      (
        slot-ok w ts lt,
        e,
        deref-ok m t n at,
        or_left (t == p) (has t l) out,
        step,
        step',
        delete-ok m2 t n (v.same t both ∙ at),
      )
      (yields (finish_inside m m2 w ts ((p, a) ∷ l ++ (x, f) ∷ r) t v both e))
