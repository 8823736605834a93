-- ===== src/ThreadPool/Locks.antt =====
-- HTTP_server_learning/locker.h: what its three classes initialise and release. What the calls of pthread
-- and of the semaphores report is an argument, `true` for 0.
use linux_learning.Prelude.{
  ℕ, ◌+◌, ◌-◌, ◌≡◌, refl, ap, ◌∙◌, arith, Bool, true, false, List, [], ◌∷◌, Run, ok, thrown,
}

-- How many semaphores, mutexes and condition variables are initialised.
pub record Resources : Type 0 where
  pub sems : ℕ
  pub mutexes : ℕ
  pub conds : ℕ

-- `sem()`
pub new_sem : Bool → Resources → Resources × Run (Unit {0})
new_sem true r = (record r { sems = r.sems + 1 }, ok tt)
new_sem false r = (r, thrown)

-- `~sem()`
pub delete_sem : Resources → Resources
delete_sem r = record r { sems = r.sems - 1 }

-- `locker()`
pub new_locker : Bool → Resources → Resources × Run (Unit {0})
new_locker true r = (record r { mutexes = r.mutexes + 1 }, ok tt)
new_locker false r = (r, thrown)

-- `~locker()`
pub delete_locker : Resources → Resources
delete_locker r = record r { mutexes = r.mutexes - 1 }

-- `cond()`; when the condition variable cannot be initialised, the mutex is released again.
pub init_cond : Bool → Resources → Resources × Run (Unit {0})
init_cond true r = (record r { conds = r.conds + 1 }, ok tt)
init_cond false r = (delete_locker r, thrown)

pub new_cond : (mutex_init cond_init : Bool) → Resources → Resources × Run (Unit {0})
new_cond true cond_init r = init_cond cond_init (record r { mutexes = r.mutexes + 1 })
new_cond false cond_init r = (r, thrown)

-- `~cond()`
pub delete_cond : Resources → Resources
delete_cond r = record r { mutexes = r.mutexes - 1; conds = r.conds - 1 }

-- The calls that a method makes on the mutex and the condition variable of its object.
pub data Call : Type 0 where
  mutex_lock mutex_unlock cond_wait cond_signal : Call

-- `cond::wait`, with what it returns.
pub wait_cond : Bool → List Call × Bool
wait_cond ret = (mutex_lock ∷ cond_wait ∷ mutex_unlock ∷ [], ret)

-- `cond::signal`
pub signal_cond : Bool → List Call × Bool
signal_cond ret = (cond_signal ∷ [], ret)

-- A life of an object: its constructor, and its destructor when the constructor did not throw.
abbrev pub life : Resources × Run (Unit {0}) → (Resources → Resources) → Resources
life (r, ok _) delete = delete r
life (r, _) delete = r

-- Whatever the calls report, an object of each class leaves nothing initialised behind.
pub life-released :
    (mutex_init cond_init sem_init : Bool) (r : Resources)
    → (life (new_sem sem_init r) delete_sem ≡ r)
      × (life (new_locker mutex_init r) delete_locker ≡ r)
      × (life (new_cond mutex_init cond_init r) delete_cond ≡ r)
life-released mutex_init cond_init sem_init r =
    (sems sem_init, lockers mutex_init, conds mutex_init cond_init)
  where
    back : (n : ℕ) → n + 1 - 1 ≡ n
    back n = omega arith

    sems : (b : Bool) → life (new_sem b r) delete_sem ≡ r
    sems true = unfold new_sem delete_sem in ap (λ n. record r { sems = n }) (back r.sems)
    sems false = unfold new_sem in refl

    lockers : (b : Bool) → life (new_locker b r) delete_locker ≡ r
    lockers true =
        unfold new_locker delete_locker in ap (λ n. record r { mutexes = n }) (back r.mutexes)
    lockers false = unfold new_locker in refl

    conds : (b c : Bool) → life (new_cond b c r) delete_cond ≡ r
    conds true true =
        unfold new_cond init_cond delete_cond in
        ap (λ n. record r { mutexes = n; conds = r.conds + 1 - 1 }) (back r.mutexes)
        ∙ ap (λ n. record r { conds = n }) (back r.conds)
    conds true false =
        unfold new_cond init_cond delete_locker in
        ap (λ n. record r { mutexes = n }) (back r.mutexes)
    conds false c = unfold new_cond in refl
