-- ===== src/Du/Path.antt =====
-- The buffer of du_scratch.cpp as the string that it holds.
use linux_learning.Prelude.{
  ℕ, ◌+◌, ◌<◌, ◌≡◌, refl, ◌∙◌, arith, true, List, [], ◌∷◌, ◌++◌, ltb, length, length-append, update,
  update_at, ok, Yields, yields, Yields-weaken,
}
use linux_learning.CString.{Bytes, NoNul}
use linux_learning.CString.Spells.{Spells, Spells-cut, Spells-join, c_str-Spells}
use linux_learning.Du.{buffer_size, put, put_all, strcat, into, Du, cut}

put-ok : (s : Bytes) (at c : ℕ) → at < buffer_size → put s at c ≡ ok (update s at c)
unfolding put
put-ok s at c lt = let inside : ltb at buffer_size ≡ true = ground arith in rw inside refl

put_all-Spells :
    (name : List ℕ) (s : Bytes) (at : ℕ)
    → at + length name < buffer_size
    → Yields
        (λ s'. Spells s' at name × ((i : ℕ) → i < at → s' i ≡ s i))
        (put_all s at (name ++ 0 ∷ []))
unfolding put_all
put_all-Spells [] s at fits =
    rw (put-ok s at 0 (omega (arith, fits))) (yields (update_at s at 0, λ i lt. ground (arith, lt)))
put_all-Spells (c ∷ name) s at fits = rw (put-ok s at c (omega (arith, fits))) (
    Yields-weaken (put_all-Spells name (update s at c) (at + 1) (omega (arith, fits))) λ s' v. (
      (v.1 at (omega arith) ∙ update_at s at c, v.0),
      λ i lt. v.1 i (omega arith) ∙ ground (arith, lt),
    ))

-- strcat puts the name behind the path.
pub strcat-Spells :
    (path name : List ℕ) (s : Bytes)
    → length path + length name < buffer_size
    → NoNul path
    → Spells s 0 path
    → Yields (λ s'. Spells s' 0 (path ++ name)) (strcat s name)
unfolding strcat
strcat-Spells path name s fits n v =
    rw (c_str-Spells buffer_size path s 0 (omega (arith, fits)) n v) (
      Yields-weaken (put_all-Spells name s (length path) fits)
        λ s' t. Spells-join path name s s' 0 (length path) (omega arith) v t.1 t.0)

-- The slash behind the name of a directory.
pub into-Spells :
    (p : ℕ) (path name : List ℕ) (s : Bytes)
    → p ≡ length path
    → p + length name + 1 < buffer_size
    → Spells s 0 (path ++ name)
    → Yields (λ s'. Spells s' 0 ((path ++ name) ++ b'/' ∷ [])) (into p name s)
unfolding into
into-Spells p path name s e fits v =
    let n = p + length name in
    let whole : n ≡ length (path ++ name) = omega (arith, e, length-append path name) in
    let s' = update (update s n b'/') (n + 1) 0 in
    rw (put-ok s n b'/' (omega (arith, fits)), put-ok (update s n b'/') (n + 1) 0 fits)
      (yields (
        Spells-join (path ++ name) (b'/' ∷ []) s s' 0 n (omega (arith, whole)) v
          (λ i lt. ground (arith, lt)) (ground arith, ground arith)))

-- The path is left when what was put behind it is cut off.
pub cut-Spells :
    (p : ℕ) (path more : List ℕ) (d : Du)
    → p ≡ length path
    → p < buffer_size
    → Spells d.s 0 (path ++ more)
    → cut p d ≡ ok (record d { s = update d.s p 0 }) × Spells (update d.s p 0) 0 path
unfolding cut
cut-Spells p path more d e fits v =
    (rw (put-ok d.s p 0 fits) refl, Spells-cut path more d.s 0 p (omega (arith, e)) v)
