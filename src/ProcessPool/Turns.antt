-- ===== src/ProcessPool/Turns.antt =====
-- The round robin of processpool.cpp: which child gets the next connection.
use native.Mathlib.Nat.{mod-eq_of_lt, mod-lt, mod-eq-sub-mod, mod-add-mod, add-mod_right}
use mathlib.Core.Path.{subst}
use linux_learning.Prelude.{
  ℕ, zero, suc, ◌+◌, ◌-◌, ◌%◌, ◌≤◌, ◌<◌, ◌≡◌, ◌≢◌, ◌⊎◌, inl, inr, refl, sym, ap, ◌∙◌, Bool, true,
  false, none, ◌∷◌, arith, ltb, ◌==◌, if◌then◌else◌, is_some, Bool-cases, Option-cases, ℕ_discrete,
  ok, Yields, yields, Yields-bind, Yields-if,
}
use linux_learning.ProcessPool.{Pool, Parent, pid_of, turn_loop, dispatch, new_conn, set_stop}

-- The child `j` places behind `start`.
abbrev pub turn : Pool → ℕ → ℕ → ℕ
turn p start j = (start + j) % p.process_number

abbrev pub AllGone : Pool → Type 0
AllGone p = (i : ℕ) → i < p.process_number → p.sub_process i ≡ none

-- The first child in turn that runs.
pub record Chosen (p : Pool) (start i : ℕ) : Type 0 where
  pub ahead : ℕ
  pub place : i ≡ turn p start ahead
  pub alive : is_some (p.sub_process i) ≡ true
  pub skipped : (j : ℕ) → j < ahead → p.sub_process (turn p start j) ≡ none

pid_of-ok : (p : Pool) (i : ℕ) → i < p.process_number → pid_of p i ≡ ok (p.sub_process i)
unfolding pid_of
pid_of-ok p i lt = ground arith

-- A place other than the first is not the first.
turn_away : (n start j : ℕ) → start < n → 0 < j → j < n → (start + j) % n ≢ start
turn_away n start j lt pos less = elim (Bool-cases (ltb (start + j) n)) [
  | inl small ↦ λ e. omega (arith, mod-eq_of_lt {n = start + j} {m = n} (ground arith))
  | inr big ↦
      let ge : n ≤ start + j = ground arith in
      λ e. omega (
        arith,
        mod-eq-sub-mod {n = start + j} {m = n} ge,
        mod-eq_of_lt {n = start + j - n} {m = n} (omega arith),
      )
]

-- Each child has a place.
turn_covers : (n start i : ℕ) → start < n → i < n → (j : ℕ) × (j < n) × ((start + j) % n ≡ i)
turn_covers n start i lt less = elim (Bool-cases (ltb i start)) [
  | inl before ↦
      let around : start + (i + n - start) ≡ i + n = ground arith in
      (i + n - start, ground arith, ap (λ x. x % n) around ∙ add-mod_right i n ∙ mod-eq_of_lt less)
  | inr after ↦
      let direct : start + (i - start) ≡ i = ground arith in
      (i - start, ground arith, ap (λ x. x % n) direct ∙ mod-eq_of_lt less)
]

module _ (p : Pool) (start : ℕ) (inside : start < p.process_number) where
  all_skipped : ((j : ℕ) → j < p.process_number → p.sub_process (turn p start j) ≡ none) → AllGone p
  all_skipped dead i lt =
      let (j, less, e) = turn_covers p.process_number start i inside lt in
      ap p.sub_process (sym e) ∙ dead j less

  -- What the loop finds: a child to send to, or none that runs.
  abbrev Found : ℕ → Type 0
  Found i = (i < p.process_number) × (Chosen p start i ⊎ (AllGone p × (i ≡ start)))

  -- One more child has been passed over.
  one_more :
      (j : ℕ)
      → ((j' : ℕ) → j' < j → p.sub_process (turn p start j') ≡ none)
      → p.sub_process (turn p start j) ≡ none
      → (j' : ℕ) → j' < j + 1
      → p.sub_process (turn p start j') ≡ none
  one_more j dead gone j' lt = elim (ℕ_discrete j' j) [
    | yes same ↦ ap (λ i. p.sub_process (turn p start i)) same ∙ gone
    | no other ↦ dead j' (omega arith)
  ]

  -- A child that does not run is passed over: the loop is back at the start, or goes on.
  turn_loop-gone :
      (k j i : ℕ)
      → j < p.process_number
      → ((j' : ℕ) → j' < j + 1 → p.sub_process (turn p start j') ≡ none)
      → i ≡ turn p start (j + 1)
      → (j + 1 < p.process_number → Yields Found (turn_loop k p start i))
      → Yields Found (if i == start then ok i else turn_loop k p start i)
  turn_loop-gone k j i lt dead place more = elim (ℕ_discrete (j + 1) p.process_number) [
    | yes last ↦
        let n = p.process_number in
        let back : i ≡ start =
          place ∙ ap (λ x. (start + x) % n) last ∙ add-mod_right start n ∙ mod-eq_of_lt inside in
        Yields-if (i == start)
          (λ _.
            yields
              (omega (arith, back), inr (all_skipped (λ j' less. dead j' (omega arith)), back)))
          (λ other. absurd (ground arith))
    | no inner ↦
        Yields-if (i == start)
          (λ same. absurd (
            turn_away p.process_number start (j + 1) inside (omega arith) (omega arith)
              (sym place ∙ ground arith)))
          (λ _. more (omega arith))
  ]

  turn_round :
      (k j i : ℕ)
      → j < p.process_number
      → ((j' : ℕ) → j' < j → p.sub_process (turn p start j') ≡ none)
      → i ≡ turn p start j
      → (p.sub_process i ≡ none
          → (i' : ℕ) → i' ≡ turn p start (j + 1)
          → j + 1 < p.process_number
          → Yields Found (turn_loop k p start i'))
      → Yields Found (turn_loop (suc k) p start i)
  unfolding turn_loop
  turn_round k j i within dead place more =
      let n = p.process_number in
      let lt : i < n = omega (arith, mod-lt (start + j) {m = n} (omega arith)) in
      let next : (i + 1) % n ≡ turn p start (j + 1) =
        ap (λ x. (x + 1) % n) place ∙ mod-add-mod (start + j) n 1 ∙ ap (λ x. x % n) (omega arith) in
      rw (pid_of-ok p i lt) (elim (Option-cases (p.sub_process i)) [
        | inr (pid, runs) ↦ rw runs (
            yields
              (lt, inl (record { ahead = j; place = place; alive = rw runs refl; skipped = dead })))
        | inl gone ↦ rw gone (
            turn_loop-gone k j ((i + 1) % n) within (one_more j dead (rw (← place) gone)) next
              (more gone ((i + 1) % n) next))
      ])

  turn_loop-Found :
      (k j i : ℕ)
      → j + suc k ≡ p.process_number
      → ((j' : ℕ) → j' < j → p.sub_process (turn p start j') ≡ none)
      → i ≡ turn p start j
      → Yields Found (turn_loop (suc k) p start i)
  turn_loop-Found zero j i e dead place =
      turn_round zero j i (omega arith) dead place (λ gone i' place' less. absurd (omega arith))
  turn_loop-Found (suc k) j i e dead place =
      turn_round (suc k) j i (omega arith) dead place λ gone i' place' less.
        turn_loop-Found k (j + 1) i' (omega arith) (one_more j dead (rw (← place) gone)) place'

  -- As many rounds as there are children are enough.
  turn_loop-enough : Yields Found (turn_loop p.process_number p start start)
  turn_loop-enough =
      let some_child : p.process_number ≡ suc (p.process_number - 1) = omega arith in
      let first : start ≡ turn p start 0 =
        sym (ap (λ x. x % p.process_number) (omega arith) ∙ mod-eq_of_lt inside) in
      subst (λ k. Yields Found (turn_loop k p start start)) (sym some_child)
        (turn_loop-Found (p.process_number - 1) 0 start (omega arith)
          (λ j less. absurd (omega arith)) first)

pub mod_inside : (i n : ℕ) → i < n → (i + 1) % n < n
mod_inside i n lt = mod-lt (i + 1) (omega arith)

-- What becomes of a connection: it goes to the first child in turn that runs, or the parent stops.
pub data Dispatched (p : Parent) : Bool × Parent → Type 0 where
  to_child :
      (i : ℕ)
      → i < p.pool.process_number
      → Chosen p.pool p.counter i
      → Dispatched p
          (true, record p { counter = (i + 1) % p.pool.process_number; acts = new_conn i ∷ p.acts })
  to_none : AllGone p.pool → Dispatched p (false, set_stop true p)

gone_child : (p : Pool) (i : ℕ) → i < p.process_number → AllGone p → p.sub_process i ≡ none
gone_child p i lt gone = gone i lt

-- If the counter is the index of a child, a new connection is dealt with without a fault and in at most
-- one turn: it is sent to the first running child from the counter on, and the next turn starts behind
-- that child; or no child runs, nothing is sent, and the parent is told to stop.
pub dispatch-Dispatched :
    (p : Parent) → p.counter < p.pool.process_number → Yields (Dispatched p) (dispatch p)
unfolding dispatch
dispatch-Dispatched p inside =
    Yields-bind (turn_loop-enough p.pool p.counter inside) λ i (lt, found).
      rw (pid_of-ok p.pool i lt) (elim found [
        | inl chosen ↦ rw chosen.alive (yields (to_child i lt chosen))
        | inr (gone, at_start) ↦ rw (gone_child p.pool i lt gone) (yields (to_none gone))
      ])
