-- ===== src/Links/Unlink.antt =====
-- Taking a node out of a chain: the nodes on its two sides are linked to one another.
use linux_learning.Prelude.{
  ◌≡◌, refl, sym, ap, ◌∙◌, Bool, true, false, ◌||◌, Option, none, some, [], ◌∷◌, ◌++◌, arith, ◌==◌,
  update, update_at, update_away, ok,
}
use linux_learning.Links.{Ptr, Store, set_next, set_prev}
use linux_learning.Links.Chain.{
  Cells, Chain, first, last, has, has-append, first-append, node, frame, split, join, set_next-ok,
  set_prev-ok,
}
use linux_learning.Links.Ends.{nonempty-End, rehead, apart_of_inside}

pub or_left : (a b : Bool) → (a || b) ≡ false → a ≡ false
or_left true b e = e
or_left false b e = refl

pub or_right : (a b : Bool) → (a || b) ≡ false → b ≡ false
or_right true b e = absurd cc
or_right false b e = e

pub ==_away : (a b : Ptr) → (a == b) ≡ false → (b == a) ≡ false
==_away a b e = ground arith

pub same_self : (t : Ptr) → (t == t) ≡ true
same_self t = ground arith

module _ {ℓ} {D : Type ℓ} where
  -- The chain is `l`, and every other node is as it was.
  pub record Left (m : Store D) (l : Cells D) (m' : Store D) : Type ℓ where
    pub chain : Chain m' none l none
    pub same : (q : Ptr) → has q l ≡ false → m' q ≡ m q

  -- The first node goes.
  pub unlink_first :
      (m : Store D) (t x : Ptr) (d f : D) (r : Cells D)
      → Chain m none ((t, d) ∷ (x, f) ∷ r) none
      → (m' : Store D) × (set_prev m (some x) none ≡ ok m') × Left m ((x, f) ∷ r) m'
  unlink_first m t x d f r (at, out, rest) =
      let m' = update m x (some (node f none (first r none))) in
      (
        m',
        set_prev-ok m x (node f (some t) (first r none)) none rest.0,
        record {
          chain = rehead m m' (some t) none x f r none rest (ground arith) (λ q i n. ground arith);
          same = λ q o. ground arith;
        },
      )

  -- The last one goes.
  pub unlink_last :
      (m : Store D) (p : Ptr) (e : D) (l : Cells D) (t : Ptr) (d : D)
      → Chain m none ((p, e) ∷ l ++ (t, d) ∷ []) none
      → (m' : Store D) × (set_next m (last (some p) l) none ≡ ok m') × Left m ((p, e) ∷ l) m'
  unlink_last m p e l t d c =
      let (left, right, apart) = split m none ((p, e) ∷ l) ((t, d) ∷ []) none c in
      let end = nonempty-End m none p e l (some t) left in
      let m' = update m end.ptr (some (record end.cell { next = none })) in
      (
        m',
        ap (λ o. set_next m o none) end.is_last ∙ set_next-ok m end.ptr end.cell none end.at,
        record {
          chain = end.relink m' none (update_at m end.ptr _) (λ q i n. update_away m end.ptr _ q n);
          same = λ q o.
              update_away m end.ptr _ q (apart_of_inside q end.ptr ((p, e) ∷ l) o end.inside);
        },
      )

  -- One between two others goes.
  pub unlink_between :
      (m : Store D) (p : Ptr) (e : D) (l : Cells D) (t x : Ptr) (d f : D) (r : Cells D)
      → Chain m none ((p, e) ∷ l ++ (t, d) ∷ (x, f) ∷ r) none
      → (m1 : Store D) × (set_next m (last (some p) l) (some x) ≡ ok m1)
        × (m2 : Store D) × (set_prev m1 (some x) (last (some p) l) ≡ ok m2)
        × Left m ((p, e) ∷ l ++ (x, f) ∷ r) m2
  unlink_between m p e l t x d f r c =
      let left_part : Cells D = (p, e) ∷ l in
      let right_part : Cells D = (x, f) ∷ r in
      let (left, (at, out, right), apart) = split m none left_part ((t, d) ∷ right_part) none c in
      let end = nonempty-End m none p e l (some t) left in
      let m1 = update m end.ptr (some (record end.cell { next = some x })) in
      let o : has end.ptr right_part ≡ false =
        or_right (end.ptr == t) (has end.ptr right_part) (apart end.ptr end.inside) in
      let ptr_away : (end.ptr == x) ≡ false = or_left (end.ptr == x) (has end.ptr r) o in
      let x_away : (x == end.ptr) ≡ false = ==_away end.ptr x ptr_away in
      let n1 : m1 x ≡ some (node f (some t) (first r none)) =
        update_away m end.ptr _ x x_away ∙ right.0 in
      let m2 = update m1 x (some (node f (some end.ptr) (first r none))) in
      (
        m1,
        ap (λ o. set_next m o (some x)) end.is_last
            ∙ set_next-ok m end.ptr end.cell (some x) end.at,
        m2,
        ap (set_prev m1 (some x)) end.is_last
            ∙ set_prev-ok m1 x (node f (some t) (first r none)) (some end.ptr) n1,
        record {
          chain =
              join m2 none left_part right_part none
                (end.relink m2 (some x)
                  (update_away m1 x _ end.ptr ptr_away ∙ update_at m end.ptr _)
                  (λ q i n.
                    update_away m1 x _ q (
                      or_left (q == x) (has q r) (or_right (q == t) (has q right_part) (apart q i)))
                    ∙ update_away m end.ptr _ q n))
                (rehead m m2 (some t) (last (some p) l) x f r none right
                  (update_at m1 x _ ∙ ap (λ b. some (node f b (first r none))) (sym end.is_last))
                  (λ q i n.
                    update_away m1 x _ q n
                    ∙ update_away m end.ptr _ q
                        (==_away end.ptr q (apart_of_inside end.ptr q right_part o i))))
                (λ q i. or_right (q == t) (has q right_part) (apart q i));
          same = λ q out.
              let both : (has q left_part || has q right_part) ≡ false =
                sym (has-append q left_part right_part) ∙ out in
              update_away m1 x _ q
                (or_left (q == x) (has q r) (or_right (has q left_part) (has q right_part) both))
              ∙ update_away m end.ptr _ q (
                  apart_of_inside q end.ptr left_part
                    (or_left (has q left_part) (has q right_part) both) end.inside);
        },
      )

  -- Freeing a node outside of a chain.
  pub freed-Chain :
      (m : Store D) (t : Ptr) (before : Option Ptr) (l : Cells D)
      → has t l ≡ false
      → Chain m before l none
      → Chain (update m t none) before l none
  freed-Chain m t before l out c =
      frame m (update m t none) before l none
        (λ q i. update_away m t none q (==_away t q (apart_of_inside t q l out i))) c

  -- A node is neither among those in front of it nor among those behind it.
  pub outside :
      (m : Store D) (before : Option Ptr) (l : Cells D) (t : Ptr) (d : D) (r : Cells D)
      → Chain m before (l ++ (t, d) ∷ r) none
      → (has t l ≡ false)
        × (has t r ≡ false)
        × (has t (l ++ r) ≡ false)
        × (m t ≡ some (node d (last before l) (first r none)))
  outside m before l t d r c =
      let (left, (at, out, right), apart) = split m before l ((t, d) ∷ r) none c in
      let out_left : has t l ≡ false = not_inside (has t l) (λ i. apart t i) in
      (out_left, out, has-append t l r ∙ ground arith, at)
    where
      not_inside : (b : Bool) → (b ≡ true → (t == t || has t r) ≡ false) → b ≡ false
      not_inside true apart = absurd (ground (arith, apart refl))
      not_inside false apart = refl

  -- A node says something else.
  pub set_item :
      (m : Store D) (before : Option Ptr) (l : Cells D) (p : Ptr) (d d' : D) (r : Cells D)
      (stop : Option Ptr)
      → Chain m before (l ++ (p, d) ∷ r) stop
      → Chain
          (update m p (some (node d' (last before l) (first r stop))))
          before
          (l ++ (p, d') ∷ r)
          stop
  set_item m before [] p d d' r stop (at, o, rest) = (
    update_at m p _,
    o,
    frame m (update m p _) (some p) r stop
        (λ q i. update_away m p _ q (==_away p q (apart_of_inside p q r o i))) rest,
  )
  set_item m before ((x, e) ∷ l) p d d' r stop (at, o, rest) =
      let o' : (has x l || (x == p || has x r)) ≡ false = sym (has-append x l ((p, d) ∷ r)) ∙ o in
      (
        update_away m p _ x (or_left (x == p) (has x r) (or_right (has x l) (x == p || has x r) o'))
            ∙ at
            ∙ ap (λ s. some (node e before s))
                (first-append l ((p, d) ∷ r) stop ∙ sym (first-append l ((p, d') ∷ r) stop)),
        has-append x l ((p, d') ∷ r) ∙ o',
        set_item m (some x) l p d d' r stop rest,
      )
