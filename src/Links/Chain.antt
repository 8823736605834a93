-- ===== src/Links/Chain.antt =====
-- The lists that the nodes of a store stand for.
use mathlib.Core.Bool.{or_assoc}
use linux_learning.Prelude.{
  ◌≡◌, refl, sym, ap, ◌∙◌, Bool, true, false, ◌||◌, Option, none, some, List, [], ◌∷◌, ◌++◌, arith,
  ◌==◌, update, ok,
}
use linux_learning.Links.{Ptr, Node, Store, deref, set_next, set_prev, delete}

-- The timers of a list in order, each with what it says.
abbrev pub Cells {ℓ} : Type ℓ → Type ℓ
Cells D = List (Ptr × D)

module _ {ℓ} {D : Type ℓ} where
  abbrev pub node : D → Option Ptr → Option Ptr → Node D
  node d b a = record { item = d; prev = b; next = a }

  abbrev pub has : Ptr → Cells D → Bool
  has q [] = false
  has q ((p, d) ∷ l) = q == p || has q l

  -- The first pointer, with `stop` behind the list, and the last one, with `before` in front of it.
  abbrev pub first : Cells D → Option Ptr → Option Ptr
  first [] stop = stop
  first ((p, d) ∷ l) stop = some p

  abbrev pub last : Option Ptr → Cells D → Option Ptr
  last before [] = before
  last before ((p, d) ∷ l) = last (some p) l

  -- The distinct nodes `l` are linked in both directions, from `before` to `stop`.
  abbrev pub Chain : Store D → Option Ptr → Cells D → Option Ptr → Type ℓ
  Chain m before [] stop = Unit
  Chain m before ((p, d) ∷ l) stop =
      (m p ≡ some (node d before (first l stop))) × (has p l ≡ false) × Chain m (some p) l stop

  pub deref-ok : (m : Store D) (p : Ptr) (n : Node D) → m p ≡ some n → deref m (some p) ≡ ok n
  unfolding deref
  deref-ok m p n e = rw (e, deref) refl

  pub set_next-ok :
      (m : Store D) (p : Ptr) (n : Node D) (v : Option Ptr)
      → m p ≡ some n
      → set_next m (some p) v ≡ ok (update m p (some (record n { next = v })))
  unfolding set_next
  set_next-ok m p n v e = rw (e, set_next) refl

  pub set_prev-ok :
      (m : Store D) (p : Ptr) (n : Node D) (v : Option Ptr)
      → m p ≡ some n
      → set_prev m (some p) v ≡ ok (update m p (some (record n { prev = v })))
  unfolding set_prev
  set_prev-ok m p n v e = rw (e, set_prev) refl

  pub delete-ok :
      (m : Store D) (p : Ptr) (n : Node D) → m p ≡ some n → delete m (some p) ≡ ok (update m p none)
  unfolding delete
  delete-ok m p n e = rw (e, delete) refl

  -- A chain outlives every change elsewhere.
  pub frame :
      (m m' : Store D) (before : Option Ptr) (l : Cells D) (stop : Option Ptr)
      → ((q : Ptr) → has q l ≡ true → m' q ≡ m q)
      → Chain m before l stop
      → Chain m' before l stop
  frame m m' before [] stop same c = tt
  frame m m' before ((p, d) ∷ l) stop same (at, out, rest) = (
    same p (ground arith) ∙ at,
    out,
    frame m m' (some p) l stop (λ q i. same q (ground arith)) rest,
  )

  pub has-append : (q : Ptr) (l r : Cells D) → has q (l ++ r) ≡ (has q l || has q r)
  has-append q [] r = refl
  has-append q (x ∷ l) r = rw (has-append q l r, or_assoc)

  pub first-append :
      (l r : Cells D) (stop : Option Ptr) → first (l ++ r) stop ≡ first l (first r stop)
  first-append [] r stop = refl
  first-append (x ∷ l) r stop = refl

  pub last-append :
      (before : Option Ptr) (l r : Cells D) → last before (l ++ r) ≡ last (last before l) r
  last-append before [] r = refl
  last-append before ((p, d) ∷ l) r = last-append (some p) l r

  abbrev pub Apart : Cells D → Cells D → Type 0
  Apart l r = (q : Ptr) → has q l ≡ true → has q r ≡ false

  pub split :
      (m : Store D) (before : Option Ptr) (l r : Cells D) (stop : Option Ptr)
      → Chain m before (l ++ r) stop
      → Chain m before l (first r stop) × Chain m (last before l) r stop × Apart l r
  split m before [] r stop c = (tt, c, λ q i. absurd (cc i))
  split m before ((p, d) ∷ l) r stop (at, out, rest) =
      let (left, right, apart) = split m (some p) l r stop rest in
      (
        (
          at ∙ ap (λ s. some (node d before s)) (first-append l r stop),
          ground (arith, has-append p l r),
          left,
        ),
        right,
        λ q i. ground (arith, apart q, has-append p l r),
      )

  pub join :
      (m : Store D) (before : Option Ptr) (l r : Cells D) (stop : Option Ptr)
      → Chain m before l (first r stop)
      → Chain m (last before l) r stop
      → Apart l r
      → Chain m before (l ++ r) stop
  join m before [] r stop left right apart = right
  join m before ((p, d) ∷ l) r stop (at, out, rest) right apart = (
    at ∙ ap (λ s. some (node d before s)) (sym (first-append l r stop)),
    ground (arith, has-append p l r, apart p),
    join m (some p) l r stop rest right (λ q i. apart q (ground arith)),
  )
