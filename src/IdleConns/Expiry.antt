-- ===== src/IdleConns/Expiry.antt =====
-- timer_handler of close_inactive_connection.cpp.
use mathlib.Core.Path.{subst}
use linux_learning.Prelude.{
  ℕ, ◌+◌, ◌<◌, ◌≡◌, refl, sym, ap, ◌∙◌, true, false, Option, none, some, [], ◌∷◌, arith, ltb,
  is_some, All, Bool-cases, inl, inr, update, by_index, Yields, yields, Yields-bind, Yields-weaken,
}
use linux_learning.Links.{Ptr, Store}
use linux_learning.Links.Chain.{Cells, Chain, has}
use linux_learning.TimerList.{Task}
use linux_learning.TimerList.Spec.{IsSorted, HasCallbacks, later, calls_of}
use linux_learning.TimerList.Refines.{tick-IsSorted}
use linux_learning.IdleConns.{ClientData, Idle, list_fuel, cb_func, run_calls, timer_handler}
use linux_learning.IdleConns.Spec.{IsIdle, Owns, timed, not_timed, few_timers}
use linux_learning.IdleConns.Clients.{client-ok}

owned-HasCallbacks :
    (users : ℕ → ClientData) (now : ℕ) (l : Cells Task) → All (Owns users now) l → HasCallbacks l
owned-HasCallbacks users now [] v = tt
owned-HasCallbacks users now (c ∷ l) v = (ap is_some v.0.calls, owned-HasCallbacks users now l v.1)

All-later {κ} : (P : Ptr × Task → Type κ) (cur : ℕ) (l : Cells Task) → All P l → All P (later cur l)
All-later P cur [] v = tt
All-later P cur ((p, d) ∷ l) v = elim (Bool-cases (ltb cur d.expire)) [
  | inl waits ↦ rw waits v
  | inr due ↦ rw due (All-later P cur l v.1)
]

-- Only the sockets have changed, and those with a timer in `l` are open.
record Closed (s : Idle) (l : Cells Task) (s' : Idle) : Type 0 where
  users : s'.users ≡ s.users
  store : s'.store ≡ s.store
  list : s'.timer_list ≡ s.timer_list
  alarms : s'.alarms ≡ s.alarms
  is_open : (fd : ℕ) → s'.sockets fd ≡ timed fd l

run_calls-Closed :
    (cur now : ℕ) (m : Store Task) (before : Option Ptr) (l : Cells Task) (s : Idle)
    → Chain m before l none
    → All (Owns s.users now) l
    → ((fd : ℕ) → s.sockets fd ≡ timed fd l)
    → Yields (Closed s (later cur l)) (run_calls s (calls_of cur l))
unfolding run_calls cb_func
run_calls-Closed cur now m before [] s c v o =
    yields (record { users = refl; store = refl; list = refl; alarms = refl; is_open = o })
run_calls-Closed cur now m before ((p, d) ∷ l) s (at, out, rest) v o =
    let fd = d.user_data in
    let alone = not_timed s.users now fd p l v.1 v.0.timer out in
    let closed : (g : ℕ) → update s.sockets fd false g ≡ timed g l =
      by_index s.sockets fd false (λ g b. b ≡ timed g l) (sym alone)
        (λ g away. o g ∙ ground arith) in
    let go =
      run_calls-Closed cur now m (some p) l (record s { sockets = update s.sockets fd false }) rest
        v.1 closed in
    elim (Bool-cases (ltb cur d.expire)) [
      | inl waits ↦
          rw waits (
            yields (record { users = refl; store = refl; list = refl; alarms = refl; is_open = o }))
      | inr due ↦
          rw (due, v.0.calls, client-ok s fd v.0.below, v.0.socket)
            (Yields-weaken go λ s' t. record {
              users = t.users;
              store = t.store;
              list = t.list;
              alarms = t.alarms;
              is_open = t.is_open;
            })
    ]

-- The timers that are left, and what is known of them.
pub record Expired (cur now : ℕ) (s : Idle) (l : Cells Task) (s' : Idle) : Type 0 where
  pub is : IsIdle now s' (later cur l)
  pub rest : All (λ c. cur < c.1.expire) (later cur l)
  pub again : s'.alarms ≡ s.alarms + 1
  pub freed : (q : Ptr) → has q l ≡ true → has q (later cur l) ≡ false → s'.store q ≡ none

-- On a server where each open connection has a timer of its own in the sorted list, timer_handler ends
-- without a fault. The connections whose timers are due are closed and their timers freed, and no others: those that stay
-- open are the ones with a timer that expires later. The alarm is set again.
pub timer_handler-Expired :
    (cur now : ℕ) (s : Idle) (l : Cells Task)
    → IsIdle now s l
    → Yields (Expired cur now s l) (timer_handler cur s)
unfolding timer_handler
timer_handler-Expired cur now s l v =
    Yields-bind
      (tick-IsSorted list_fuel cur s.store s.timer_list l v.sorted
        (owned-HasCallbacks s.users now l v.owns)
        (omega (arith, few_timers s.store s.users now l v.sorted.is.chain v.owns)))
      λ r t.
        let s1 : Idle = record s { store = r.1.0; timer_list = r.1.1 } in
        rw (t.0.calls) (
          Yields-bind
            (run_calls-Closed cur now s.store none l s1 v.sorted.is.chain v.owns v.is_open)
            λ s' c. yields (record {
              is = record {
                sorted =
                    subst (λ m. IsSorted m s'.timer_list (later cur l)) (sym c.store)
                      (subst (λ x. IsSorted r.1.0 x (later cur l)) (sym c.list) t.1);
                owns =
                    subst (λ u. All (Owns u now) (later cur l)) (sym c.users)
                      (All-later (Owns s.users now) cur l v.owns);
                is_open = c.is_open;
              };
              rest = t.2;
              again = ap (λ n. n + 1) c.alarms;
              freed = λ q i o. ap (λ (m : Store Task). m q) c.store ∙ t.0.freed q i o;
            }))
