-- ===== src/TimeWheel/Adds.antt =====
-- add_timer of time_wheel_timer.cpp.
use linux_learning.Prelude.{
  ℕ, ◌+◌, ◌/◌, ◌%◌, ◌<◌, ◌≡◌, refl, ap, ◌∙◌, true, false, ◌||◌, Option, none, some, [], ◌∷◌, arith,
  ltb, ◌==◌, if◌then◌else◌, update, update_at, update_away, Yields, yields, Yields-weaken, pos,
  Bool-cases, inl, inr,
}
use linux_learning.Links.{Ptr, Store}
use linux_learning.Links.Chain.{
  Cells, Chain, first, has, node, frame, Apart, set_next-ok, set_prev-ok,
}
use linux_learning.Links.Ends.{apart_of_inside}
use linux_learning.Links.Unlink.{==_away, or_left, or_right}
use linux_learning.TimeWheel.{
  TwTimer, Wheel, Turning, slot_count, interval, ticks_of, tw_timer, add_at, add_timer, set_slot,
}
use linux_learning.TimeWheel.Spec.{IsWheel, InSlot, countdown}
use linux_learning.TimeWheel.Slots.{slot-ok}
use linux_learning.TimeWheel.Ticks.{by_slot}

-- The new list of slot `ts`, and the rest as it was.
record Linked (m : Store TwTimer) (w : Wheel) (ts : ℕ) (l : Cells TwTimer) (fresh : Ptr)
    (d : TwTimer) (r : Option Ptr × Turning) : Type 0 where
  given : r.0 ≡ some fresh
  chain : Chain r.1.0 none ((fresh, d) ∷ l) none
  wheel : r.1.1 ≡ set_slot w ts (some fresh)
  same : (q : Ptr) → has q l ≡ false → (q == fresh) ≡ false → r.1.0 q ≡ m q

-- What a new timer says.
abbrev pub new_timer : ℕ → ℕ → TwTimer
new_timer rotation ts = record {
  rotation = rotation;
  time_slot = ts;
  cb_func = none;
  user_data = 0;
}

abbrev pub slot_for : Wheel → ℕ → ℕ
slot_for w timeout = (w.cur_slot + ticks_of timeout % slot_count) % slot_count

abbrev pub timer_for : Wheel → ℕ → TwTimer
timer_for w timeout = new_timer (ticks_of timeout / slot_count) (slot_for w timeout)

add_at-Linked :
    (m : Store TwTimer) (w : Wheel) (fresh : Ptr) (timeout : ℕ) (l : Cells TwTimer)
    → w.slots (slot_for w timeout) ≡ first l none
    → Chain m none l none
    → has fresh l ≡ false
    → Yields
        (Linked m w (slot_for w timeout) l fresh (timer_for w timeout))
        (add_at m w fresh timeout)
unfolding add_at tw_timer
add_at-Linked m w fresh timeout [] e c out =
    rw (slot-ok w (slot_for w timeout) (omega arith), e)
      (yields (record {
        given = refl;
        chain = (update_at m fresh _, refl, tt);
        wheel = refl;
        same = λ q o n. update_away m fresh _ q n;
      }))
add_at-Linked m w fresh timeout ((x, f) ∷ l) e (at, o, rest) out =
    let d = timer_for w timeout in
    let ts = slot_for w timeout in
    let m0 = update m fresh (some (node d none none)) in
    let m1 = update m0 fresh (some (node d none (some x))) in
    let x_away : (x == fresh) ≡ false = ==_away fresh x (or_left (fresh == x) (has fresh l) out) in
    let n1 : m1 x ≡ some (node f none (first l none)) =
      update_away m0 fresh _ x x_away ∙ update_away m fresh _ x x_away ∙ at in
    let m2 = update m1 x (some (node f (some fresh) (first l none))) in
    let elsewhere : (q : Ptr) → (q == fresh) ≡ false → (q == x) ≡ false → m2 q ≡ m q = λ q nf nx.
      update_away m1 x _ q nx ∙ update_away m0 fresh _ q nf ∙ update_away m fresh _ q nf in
    rw (slot-ok w ts (omega arith), e)
      (rw
        (
          e,
          set_next-ok m0 fresh (node d none none) (some x) (update_at m fresh _),
          set_prev-ok m1 x (node f none (first l none)) (some fresh) n1,
        )
        (yields (record {
          given = refl;
          chain = (
            update_away m1 x _ fresh (==_away x fresh x_away) ∙ update_at m0 fresh _,
            out,
            (
              update_at m1 x _,
              o,
              frame m m2 (some x) l none
                  (λ q i.
                    elsewhere q
                      (==_away fresh q
                        (apart_of_inside fresh q l (or_right (fresh == x) (has fresh l) out) i))
                      (==_away x q (apart_of_inside x q l o i)))
                  rest,
            ),
          );
          wheel = refl;
          same = λ q out' n. elsewhere q n (or_left (q == x) (has q l) out');
        })))

-- How the wheel looks when a timer was added.
pub record Added (m : Store TwTimer) (w : Wheel) (slots : ℕ → Cells TwTimer) (fresh : Ptr)
    (timeout : ℕ) (r : Option Ptr × Turning) : Type 0 where
  pub given : r.0 ≡ some fresh
  pub is : IsWheel r.1.0 r.1.1 (
      update slots (slot_for w timeout) ((fresh, timer_for w timeout) ∷ slots (slot_for w timeout)))
  pub cursor : r.1.1.cur_slot ≡ w.cur_slot
  pub due :
      countdown w.cur_slot (slot_for w timeout) (timer_for w timeout).rotation
      ≡ (if timeout == 0 then 1 else timeout)
  pub same :
      (s : ℕ) (q : Ptr)
      → s < slot_count
      → has q (slots s) ≡ true
      → (s == slot_for w timeout) ≡ false
      → r.1.0 q ≡ m q

back :
    (cur t : ℕ)
    → cur < slot_count
    → countdown cur ((cur + t % slot_count) % slot_count) (t / slot_count) ≡ t
back cur t lt = omega arith

by_one : (t : ℕ) → t / interval ≡ t
by_one t = omega arith

countdown-slot_for :
    (w : Wheel) (timeout : ℕ)
    → w.cur_slot < slot_count
    → countdown w.cur_slot (slot_for w timeout) (timer_for w timeout).rotation
      ≡ (if timeout == 0 then 1 else timeout)
unfolding ticks_of
countdown-slot_for w timeout lt = elim (Bool-cases (timeout == 0)) [
  | inl now ↦ let e : timeout ≡ 0 = ground arith in rw e (back w.cur_slot 1 lt)
  | inr later ↦
      let e : ltb timeout 1 ≡ false = ground arith in
      rw (later, e, by_one timeout) (back w.cur_slot timeout lt)
]

push-Apart :
    (slots : ℕ → Cells TwTimer) (ts : ℕ) (fresh : Ptr) (d : TwTimer)
    → ts < slot_count
    → ((s : ℕ) → s < slot_count → has fresh (slots s) ≡ false)
    → ((s s' : ℕ)
        → s < slot_count
        → s' < slot_count
        → (s == s') ≡ false
        → Apart (slots s) (slots s'))
    → (s s' : ℕ) → s < slot_count
    → s' < slot_count
    → (s == s') ≡ false
    → Apart (update slots ts ((fresh, d) ∷ slots ts) s) (update slots ts ((fresh, d) ∷ slots ts) s')
push-Apart slots ts fresh d in_range new apart s s' lt lt' n q = elim (Bool-cases (ts == s')) [
  | inl here ↦
      let off : (ts == s) ≡ false = ground arith in
      rw (here, off)
        (λ i.
          neither (apart_of_inside fresh q (slots s) (new s lt) i)
            (apart s ts lt in_range (==_away ts s off) q i))
  | inr away ↦ elim (Bool-cases (ts == s)) [
    | inl here ↦ rw (away, here) (λ i. either i away)
    | inr away' ↦ rw (away, away') (apart s s' lt lt' n q)
  ]
]
  where
    neither :
        (fresh == q) ≡ false → has q (slots ts) ≡ false → (q == fresh || has q (slots ts)) ≡ false
    neither a b = ground arith

    either : (q == fresh || has q (slots ts)) ≡ true → (ts == s') ≡ false → has q (slots s') ≡ false
    either i away = elim (Bool-cases (q == fresh)) [
      | inl one ↦ let e : q ≡ fresh = ground arith in ap (λ x. has x (slots s')) e ∙ new s' lt'
      | inr other ↦ apart ts s' in_range lt' away q (ground arith)
    ]

-- On a well-formed wheel, given a new address and a timeout that is not negative, add_timer ends without
-- a fault and returns the address. The wheel stays well formed with a new timer at the head of one slot
-- and all others as they were; as many ticks as the timeout says, and one for a timeout of 0, go by
-- without calling it, and the tick behind them is the one that calls it.
pub add_timer-Added :
    (m : Store TwTimer) (w : Wheel) (slots : ℕ → Cells TwTimer) (fresh : Ptr) (timeout : ℕ)
    → IsWheel m w slots
    → ((s : ℕ) → s < slot_count → has fresh (slots s) ≡ false)
    → Yields (Added m w slots fresh timeout) (add_timer m w fresh (pos timeout))
unfolding add_timer
add_timer-Added m w slots fresh timeout v new =
    let ts = slot_for w timeout in
    let d = timer_for w timeout in
    let lt : ts < slot_count = omega arith in
    let l = slots ts in
    Yields-weaken (add_at-Linked m w fresh timeout l (v.heads ts lt) (v.chains ts lt) (new ts lt))
      λ r t.
        let kept : (s : ℕ)
            → (s == ts) ≡ false
            → s < slot_count
            → (q : Ptr) → has q (slots s) ≡ true
            → r.1.0 q ≡ m q =
          λ s n less q i.
            t.same q (v.apart s ts less lt n q i)
              (==_away fresh q (apart_of_inside fresh q (slots s) (new s less) i)) in
        record {
          given = t.given;
          is = record {
            cursor = omega (arith, ap (λ (x : Wheel). x.cur_slot) t.wheel, v.cursor);
            chains =
                by_slot slots ts ((fresh, d) ∷ l) (λ s x. Chain r.1.0 none x none) t.chain
                  (λ s n less. frame m r.1.0 none (slots s) none (kept s n less) (v.chains s less));
            heads =
                by_slot slots ts ((fresh, d) ∷ l) (λ s x. r.1.1.slots s ≡ first x none)
                  (ap (λ (x : Wheel). x.slots ts) t.wheel ∙ update_at w.slots ts (some fresh))
                  (λ s n less.
                    ap (λ (x : Wheel). x.slots s) t.wheel
                    ∙ update_away w.slots ts (some fresh) s n
                    ∙ v.heads s less);
            apart = push-Apart slots ts fresh d lt new v.apart;
            placed =
                by_slot slots ts ((fresh, d) ∷ l) (λ s x. InSlot s x) (refl, v.placed ts lt)
                  (λ s n less. v.placed s less);
          };
          cursor = ap (λ (x : Wheel). x.cur_slot) t.wheel;
          due = countdown-slot_for w timeout v.cursor;
          same = λ s q less i n. kept s n less q i;
        }
