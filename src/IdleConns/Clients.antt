-- ===== src/IdleConns/Clients.antt =====
-- The branches of close_inactive_connection.cpp for new clients and for those that send or leave.
use mathlib.Core.Path.{subst}
use linux_learning.Prelude.{
  ℕ, ◌+◌, ◌*◌, ◌≤◌, ◌<◌, ◌≡◌, refl, sym, ap, ◌∙◌, true, false, Option, none, some, [], ◌∷◌, ◌++◌,
  arith, ◌==◌, length-append, All, Bool-cases, inl, inr, update, update_at, update_away, by_index,
  ok, Yields, yields, Yields-bind, Yields-weaken,
}
use linux_learning.Links.{Ptr, Node, Store}
use linux_learning.Links.Chain.{Cells, Chain, first, last, last-append, has, frame, node, deref-ok}
use linux_learning.Links.Ends.{apart_of_inside}
use linux_learning.Links.Unlink.{==_away, outside, set_item}
use linux_learning.TimerList.{Task, TimerList, util_timer}
use linux_learning.TimerList.Spec.{IsList, IsSorted, SortedFrom-remove, Below, insert}
use linux_learning.TimerList.Refines.{add_timer-IsSorted, adjust_timer-IsSorted, del_timer-IsSorted}
use linux_learning.IdleConns.{
  ClientData, Idle, Received, again, failed, closed, got, fd_limit, timeslot, cb_func_address,
  list_fuel, client, cb_func, add_client, drop_client, prolong, on_client,
}
use linux_learning.IdleConns.Spec.{
  IsIdle, Owns, Owns-later, Owns-update, timed, timed-append, timed-insert, timed-found, not_timed,
  few_timers, All-insert, All-parts,
}

pub client-ok : (s : Idle) (fd : ℕ) → fd < fd_limit → client s fd ≡ ok (s.users fd)
unfolding client
client-ok s fd lt = ground arith

-- An address that is not allocated is no timer's.
not_allocated :
    (m : Store Task) (before : Option Ptr) (q : Ptr) (l : Cells Task)
    → Chain m before l none
    → m q ≡ none
    → has q l ≡ false
not_allocated m before q [] c e = refl
not_allocated m before q ((p, d) ∷ l) (at, out, rest) e = elim (Bool-cases (q == p)) [
  | inl here ↦ let same : q ≡ p = ground arith in absurd (cc (sym e ∙ ap m same ∙ at))
  | inr away ↦ rw away (not_allocated m (some p) q l rest e)
]

-- The timer that a connection gets at the time `now`.
abbrev pub new_timer : ℕ → ℕ → Task
new_timer now fd = record {
  expire = now + 3 * timeslot;
  cb_func = some cb_func_address;
  user_data = fd;
}

pub add_client-IsIdle :
    (was now : ℕ) (s : Idle) (l : Cells Task) (connfd : ℕ) (fresh : Ptr)
    → IsIdle was s l
    → was ≤ now
    → connfd < fd_limit
    → s.sockets connfd ≡ false
    → s.store fresh ≡ none
    → Yields
        (λ s'. IsIdle now s' (insert fresh (new_timer now connfd) l))
        (add_client s (some connfd) fresh now)
unfolding add_client util_timer
add_client-IsIdle was now s l connfd fresh v le lt unused new =
    let d = new_timer now connfd in
    let m = update s.store fresh (some (util_timer d)) in
    let u : ClientData = record { sockfd = connfd; timer = some fresh } in
    let out = not_allocated s.store none fresh l v.sorted.is.chain new in
    let none_yet : timed connfd l ≡ false = sym (v.is_open connfd) ∙ unused in
    let at = update_at s.users connfd u in
    let sorted : IsSorted m s.timer_list l = record {
      is = record {
        chain =
            frame s.store m none l none
              (λ q i.
                update_away s.store fresh _ q (==_away fresh q (apart_of_inside fresh q l out i)))
              v.sorted.is.chain;
        head = v.sorted.is.head;
        tail = v.sorted.is.tail;
      };
      sorted = v.sorted.sorted;
    } in
    rw (client-ok s connfd lt) (
      Yields-bind
        (add_timer-IsSorted list_fuel m s.timer_list l fresh d sorted (update_at s.store fresh _)
          out (omega (arith, few_timers s.store s.users was l v.sorted.is.chain v.owns)))
        λ r t. yields (record {
          sorted = t.0;
          owns =
              All-insert (Owns (update s.users connfd u) now) fresh d l
                (record {
                  calls = refl;
                  below = lt;
                  timer = ap (λ (x : ClientData). x.timer) at;
                  socket = ap (λ (x : ClientData). x.sockfd) at;
                  recent = omega arith;
                })
                (Owns-update s.users now connfd u l none_yet
                  (Owns-later s.users was now l le v.owns));
          is_open =
              by_index s.sockets connfd true (λ fd b. b ≡ timed fd (insert fresh d l))
                (sym (timed-insert connfd fresh d l ∙ ground arith))
                (λ fd away. v.is_open fd ∙ sym (timed-insert fd fresh d l ∙ ground arith));
        }))

-- The connection of a timer is closed, and the timer is deleted.
drop_client-IsIdle :
    (now : ℕ) (s : Idle) (a : Cells Task) (p : Ptr) (d : Task) (b : Cells Task)
    → IsIdle now s (a ++ (p, d) ∷ b)
    → Yields (λ s'. IsIdle now s' (a ++ b)) (drop_client s d.user_data (some p))
unfolding drop_client cb_func
drop_client-IsIdle now s a p d b v =
    let fd = d.user_data in
    let (own, _, _, others) = All-parts (Owns s.users now) a (p, d) b v.owns in
    let (_, _, out, _) = outside s.store none a p d b v.sorted.is.chain in
    let alone : timed fd (a ++ b) ≡ false =
      not_timed s.users now fd p (a ++ b) others own.timer out in
    rw (client-ok s fd own.below) (
      Yields-bind (del_timer-IsSorted s.store s.timer_list a p d b v.sorted) λ r t. yields (record {
        sorted = t.0.0;
        owns = others;
        is_open = rw own.socket (
            by_index s.sockets fd false (λ g x. x ≡ timed g (a ++ b)) (sym alone)
              (λ g away.
                v.is_open g
                ∙ timed-append g a ((p, d) ∷ b)
                ∙ sym (timed-append g a b ∙ ground arith)));
      }))

-- The same list with another item.
other_item :
    (m m' : Store Task) (list : TimerList) (a : Cells Task) (p : Ptr) (d d' : Task) (b : Cells Task)
    → Chain m' none (a ++ (p, d') ∷ b) none
    → IsList m list (a ++ (p, d) ∷ b)
    → IsList m' list (a ++ (p, d') ∷ b)
other_item m m' list [] p d d' b c v = record { chain = c; head = v.head; tail = v.tail }
other_item m m' list ((x, e) ∷ a) p d d' b c v = record {
  chain = c;
  head = v.head;
  tail = v.tail ∙ last-append (some x) a ((p, d) ∷ b) ∙ sym (last-append (some x) a ((p, d') ∷ b));
}

Owns-Below :
    (users : ℕ → ClientData) (was : ℕ) (d : Task) (l : Cells Task)
    → All (Owns users was) l
    → was + 3 * timeslot ≤ d.expire
    → Below d l
Owns-Below users was d [] v le = tt
Owns-Below users was d (c ∷ l) v le = (omega (arith, v.0.recent), Owns-Below users was d l v.1 le)

-- A connection gets more time.
prolong-IsIdle :
    (was now : ℕ) (s : Idle) (a : Cells Task) (p : Ptr) (d : Task) (b : Cells Task)
    → IsIdle was s (a ++ (p, d) ∷ b)
    → was ≤ now
    → Yields
        (λ s'. IsIdle now s' (insert p (record d { expire = now + 3 * timeslot }) (a ++ b)))
        (prolong s (some p) now)
unfolding prolong
prolong-IsIdle was now s a p d b v le =
    let d' : Task = record d { expire = now + 3 * timeslot } in
    let (own, left, _, others) = All-parts (Owns s.users was) a (p, d) b v.owns in
    let (_, _, _, at) = outside s.store none a p d b v.sorted.is.chain in
    let n : Node Task = node d (last none a) (first b none) in
    let m = update s.store p (some (node d' (last none a) (first b none))) in
    let is =
      other_item s.store m s.timer_list a p d d' b
        (set_item s.store none a p d d' b none v.sorted.is.chain) v.sorted.is in
    rw (deref-ok s.store p n at) (
      Yields-bind
        (adjust_timer-IsSorted list_fuel m s.timer_list a p d' b is
          (SortedFrom-remove 0 a p d b v.sorted.sorted)
          (Owns-Below s.users was d' a left (omega arith))
          (omega (
            arith,
            length-append a ((p, d) ∷ b),
            few_timers s.store s.users was (a ++ (p, d) ∷ b) v.sorted.is.chain v.owns,
          )))
        λ r t. yields (record {
          sorted = t.0;
          owns =
              All-insert (Owns s.users now) p d' (a ++ b)
                (record {
                  calls = own.calls;
                  below = own.below;
                  timer = own.timer;
                  socket = own.socket;
                  recent = omega arith;
                })
                (Owns-later s.users was now (a ++ b) le others);
          is_open = λ g.
              v.is_open g
              ∙ timed-append g a ((p, d) ∷ b)
              ∙ sym (timed-insert g p d' (a ++ b) ∙ ground (arith, timed-append g a b));
        }))

known_client-IsIdle :
    (was now : ℕ) (s : Idle) (a : Cells Task) (p : Ptr) (d : Task) (b : Cells Task)
    (received : Received)
    → IsIdle was s (a ++ (p, d) ∷ b)
    → was ≤ now
    → Yields (λ s'. (l : Cells Task) × IsIdle now s' l) (on_client s d.user_data received now)
unfolding on_client
known_client-IsIdle was now s a p d b received v le =
    let l = a ++ (p, d) ∷ b in
    let own = (All-parts (Owns s.users was) a (p, d) b v.owns).0 in
    let v' : IsIdle now s l = record {
      sorted = v.sorted;
      owns = Owns-later s.users was now l le v.owns;
      is_open = v.is_open;
    } in
    rw (client-ok s d.user_data own.below)
      (by_report (s.users d.user_data).timer own.timer received v')
  where
    by_report :
        (t : Option Ptr)
        → t ≡ some p
        → (r : Received) → IsIdle now s (a ++ (p, d) ∷ b)
        → Yields
            (λ s'. (l : Cells Task) × IsIdle now s' l)
            (elim r [
              | again ↦ ok s
              | failed ↦ drop_client s d.user_data t
              | closed ↦ drop_client s d.user_data t
              | got bytes ↦ prolong s t now
            ])
    by_report t e again v' = yields (_, v')
    by_report t e failed v' =
        rw e (Yields-weaken (drop_client-IsIdle now s a p d b v') λ s' w. (_, w))
    by_report t e closed v' =
        rw e (Yields-weaken (drop_client-IsIdle now s a p d b v') λ s' w. (_, w))
    by_report t e (got bytes) v' =
        rw e (Yields-weaken (prolong-IsIdle was now s a p d b v le) λ s' w. (_, w))

pub on_client-IsIdle :
    (was now : ℕ) (s : Idle) (l : Cells Task) (fd : ℕ) (received : Received)
    → IsIdle was s l
    → was ≤ now
    → s.sockets fd ≡ true
    → Yields (λ s'. (l' : Cells Task) × IsIdle now s' l') (on_client s fd received now)
on_client-IsIdle was now s l fd received v le is_open =
    let (a, p, d, b, path, at) = timed-found fd l (sym (v.is_open fd) ∙ is_open) in
    subst (λ x. Yields (λ s'. (l' : Cells Task) × IsIdle now s' l') (on_client s x received now)) at
      (known_client-IsIdle was now s a p d b received (subst (IsIdle was s) path v) le)
