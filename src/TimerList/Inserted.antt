-- ===== src/TimerList/Inserted.antt =====
-- The loop of add_timer in sort_timer_list.cpp.
use linux_learning.Prelude.{
  ℕ, zero, suc, ◌<◌, ◌≡◌, refl, ◌∙◌, true, false, Option, none, some, [], ◌∷◌, arith, ltb, ◌==◌,
  Bool-cases, inl, inr, length, update, Yields, yields, Yields-weaken,
}
use linux_learning.Links.{Ptr, Store}
use linux_learning.Links.Chain.{
  Cells, Chain, first, last, has, node, frame, deref-ok, set_next-ok, set_prev-ok,
}
use linux_learning.TimerList.{Task, TimerList, Timers, insert_loop, add_after}
use linux_learning.TimerList.Spec.{insert, has-insert}

-- The outcome of inserting `t` behind the first of `c ∷ l`.
pub record Inserted (m : Store Task) (list : TimerList) (before : Option Ptr) (p : Ptr) (e : Task)
    (l : Cells Task) (t : Ptr) (d : Task) (r : Timers) : Type 0 where
  pub chain : Chain r.0 before ((p, e) ∷ insert t d l) none
  pub head : r.1.head ≡ list.head
  pub tail : list.tail ≡ last (some p) l → r.1.tail ≡ last (some p) (insert t d l)
  pub same : (q : Ptr) → has q ((p, e) ∷ l) ≡ false → (q == t) ≡ false → r.0 q ≡ m q

at_end :
    (k : ℕ) (m : Store Task) (list : TimerList) (before : Option Ptr) (p : Ptr) (e : Task) (t : Ptr)
    (d : Task) (x y : Option Ptr)
    → Chain m before ((p, e) ∷ []) none
    → m t ≡ some (node d x y)
    → (t == p) ≡ false
    → Yields (Inserted m list before p e [] t d) (insert_loop (suc k) m list t (some p) none)
unfolding insert_loop
at_end k m list before p e t d x y (at, out, rest) new apart =
    let m1 = update m p (some (node e before (some t))) in
    let n1 : m1 t ≡ some (node d x y) = ground arith in
    let m2 = update m1 t (some (node d x none)) in
    let n2 : m2 t ≡ some (node d x none) = ground arith in
    rw
      (
        set_next-ok m p (node e before none) (some t) at,
        set_next-ok m1 t (node d x y) none n1,
        set_prev-ok m2 t (node d x none) (some p) n2,
      )
      (yields (record {
        chain = (ground arith, ground arith, (ground arith, refl, tt));
        head = refl;
        tail = λ _. refl;
        same = ground arith;
      }))

-- The timer goes in front of the next one.
in_front :
    (k : ℕ) (m : Store Task) (list : TimerList) (before : Option Ptr) (p : Ptr) (e : Task) (x : Ptr)
    (f : Task) (l : Cells Task) (t : Ptr) (d : Task) (a b : Option Ptr)
    → Chain m before ((p, e) ∷ (x, f) ∷ l) none
    → m t ≡ some (node d a b)
    → has t ((p, e) ∷ (x, f) ∷ l) ≡ false
    → ltb d.expire f.expire ≡ true
    → Yields
        (Inserted m list before p e ((x, f) ∷ l) t d)
        (insert_loop (suc k) m list t (some p) (some x))
unfolding insert_loop
in_front k m list before p e x f l t d a b (at, out, (at', out', rest)) new apart earlier =
    let m1 = update m p (some (node e before (some t))) in
    let n1 : m1 t ≡ some (node d a b) = ground arith in
    let m2 = update m1 t (some (node d a (some x))) in
    let n2 : m2 x ≡ some (node f (some p) (first l none)) = ground arith in
    let m3 = update m2 x (some (node f (some t) (first l none))) in
    let n3 : m3 t ≡ some (node d a (some x)) = ground arith in
    let m4 = update m3 t (some (node d (some p) (some x))) in
    let kept : Chain m4 (some x) l none = frame m m4 (some x) l none (λ q i. ground arith) rest in
    rw
      (
        deref-ok m t (node d a b) new,
        deref-ok m x (node f (some p) (first l none)) at',
        earlier,
        set_next-ok m p (node e before (some x)) (some t) at,
        set_next-ok m1 t (node d a b) (some x) n1,
        set_prev-ok m2 x (node f (some p) (first l none)) (some t) n2,
        set_prev-ok m3 t (node d a (some x)) (some p) n3,
      )
      (yields (record {
        chain =
            rw earlier (
              ground arith,
              ground arith,
              (ground arith, ground arith, (ground arith, out', kept)),
            );
        head = refl;
        tail = λ h. rw earlier h;
        same = λ q i n. ground arith;
      }))

go_on :
    (k : ℕ) (m : Store Task) (list : TimerList) (p t x : Ptr) (d f : Task)
    (a b next prev : Option Ptr)
    → m t ≡ some (node d a b)
    → m x ≡ some (node f prev next)
    → ltb d.expire f.expire ≡ false
    → insert_loop (suc k) m list t (some p) (some x) ≡ insert_loop k m list t (some x) next
unfolding insert_loop
go_on k m list p t x d f a b next prev new at not_earlier =
    rw (deref-ok m t (node d a b) new, deref-ok m x (node f prev next) at, not_earlier) refl

-- The loop puts the timer where `insert` does, and keeps every other node of the store.
pub insert_loop-Inserted :
    (k : ℕ) (m : Store Task) (list : TimerList) (before : Option Ptr) (p : Ptr) (e : Task)
    (l : Cells Task) (t : Ptr) (d : Task) (a b : Option Ptr)
    → Chain m before ((p, e) ∷ l) none
    → m t ≡ some (node d a b)
    → has t ((p, e) ∷ l) ≡ false
    → length l < k
    → Yields (Inserted m list before p e l t d) (insert_loop k m list t (some p) (first l none))
insert_loop-Inserted zero m list before p e l t d a b c new apart enough = absurd (omega arith)
insert_loop-Inserted (suc k) m list before p e [] t d a b c new apart enough =
    at_end k m list before p e t d a b c new (ground arith)
insert_loop-Inserted (suc k) m list before p e ((x, f) ∷ l) t d a b (at, out, rest) new apart
      enough =
    let next =
      insert_loop-Inserted k m list (some p) x f l t d a b rest new (ground arith) (omega arith) in
    elim (Bool-cases (ltb d.expire f.expire)) [
      | inl earlier ↦ in_front k m list before p e x f l t d a b (at, out, rest) new apart earlier
      | inr not_earlier ↦
          rw (go_on k m list p t x d f a b (first l none) (some p) new rest.0 not_earlier) (
            Yields-weaken next λ r s. record {
              chain = rw not_earlier (
                s.same p (ground arith) (ground arith) ∙ at,
                ground (arith, has-insert p t d l),
                s.chain,
              );
              head = s.head;
              tail = λ h. rw not_earlier (s.tail h);
              same = λ q i n. s.same q (ground arith) n;
            })
    ]

pub add_after-Inserted :
    (k : ℕ) (m : Store Task) (list : TimerList) (before : Option Ptr) (p : Ptr) (e : Task)
    (l : Cells Task) (t : Ptr) (d : Task) (a b : Option Ptr)
    → Chain m before ((p, e) ∷ l) none
    → m t ≡ some (node d a b)
    → has t ((p, e) ∷ l) ≡ false
    → length l < k
    → Yields (Inserted m list before p e l t d) (add_after k m list t (some p))
unfolding add_after
add_after-Inserted k m list before p e l t d a b c new apart enough =
    rw (deref-ok m p (node e before (first l none)) c.0)
      (insert_loop-Inserted k m list before p e l t d a b c new apart enough)
