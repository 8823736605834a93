-- ===== src/Links/Ends.antt =====
-- The two ends of a chain, and what a change of their pointers makes of it.
use linux_learning.Prelude.{◌≡◌, refl, ◌∙◌, true, false, Option, some, [], ◌∷◌, arith, ◌==◌}
use linux_learning.Links.{Ptr, Node, Store}
use linux_learning.Links.Chain.{Cells, Chain, first, last, has, node, frame}

module _ {ℓ} {D : Type ℓ} where
  pub apart_of_inside :
      (p q : Ptr) (l : Cells D) → has p l ≡ false → has q l ≡ true → (p == q) ≡ false
  apart_of_inside p q [] out i = absurd (cc i)
  apart_of_inside p q ((x, f) ∷ l) out i = ground (arith, apart_of_inside p q l)

  -- The last node of a list that is not empty, whose `next` may be set anew.
  pub record End (m : Store D) (before : Option Ptr) (l : Cells D) (stop : Option Ptr)
      : Type ℓ where
    pub ptr : Ptr
    pub is_last : last before l ≡ some ptr
    pub inside : has ptr l ≡ true
    pub cell : Node D
    pub at : m ptr ≡ some cell
    pub relink :
        (m' : Store D) (stop' : Option Ptr)
        → m' ptr ≡ some (record cell { next = stop' })
        → ((q : Ptr) → has q l ≡ true → (q == ptr) ≡ false → m' q ≡ m q)
        → Chain m' before l stop'

  pub nonempty-End :
      (m : Store D) (before : Option Ptr) (p : Ptr) (d : D) (l : Cells D) (stop : Option Ptr)
      → Chain m before ((p, d) ∷ l) stop
      → End m before ((p, d) ∷ l) stop
  nonempty-End m before p d [] stop (at, out, rest) = record {
    ptr = p;
    is_last = refl;
    inside = ground arith;
    cell = node d before stop;
    at = at;
    relink = λ m' stop' e same. (e, refl, tt);
  }
  nonempty-End m before p d ((x, f) ∷ l) stop (at, out, rest) =
      let end = nonempty-End m (some p) x f l stop rest in
      record {
        ptr = end.ptr;
        is_last = end.is_last;
        inside = ground (arith, end.inside);
        cell = end.cell;
        at = end.at;
        relink = λ m' stop' e same. (
          same p (ground arith) (apart_of_inside p end.ptr ((x, f) ∷ l) out end.inside) ∙ at,
          out,
          end.relink m' stop' e (λ q i n. same q (ground arith) n),
        );
      }

  -- A chain with a new node in front of it.
  pub rehead :
      (m m' : Store D) (before before' : Option Ptr) (p : Ptr) (d : D) (l : Cells D)
      (stop : Option Ptr)
      → Chain m before ((p, d) ∷ l) stop
      → m' p ≡ some (node d before' (first l stop))
      → ((q : Ptr) → has q ((p, d) ∷ l) ≡ true → (q == p) ≡ false → m' q ≡ m q)
      → Chain m' before' ((p, d) ∷ l) stop
  rehead m m' before before' p d l stop (at, out, rest) e same =
      (e, out, frame m m' (some p) l stop (λ q i. same q (ground arith) (ground arith)) rest)

  pub last-inside :
      (before : Option Ptr) (p : Ptr) (d : D) (l : Cells D)
      → (q : Ptr) × (last before ((p, d) ∷ l) ≡ some q) × (has q ((p, d) ∷ l) ≡ true)
  last-inside before p d [] = (p, refl, ground arith)
  last-inside before p d ((x, f) ∷ l) =
      let (q, e, i) = last-inside (some p) x f l in (q, e, ground (arith, i))
