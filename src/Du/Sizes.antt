-- ===== src/Du/Sizes.antt =====
-- The sizes that du_scratch.cpp prints.
use mathlib.Core.Path.{subst}
use mathlib.Core.List.{append_assoc, append-nil}
use linux_learning.Prelude.{
  ℕ, ◌+◌, ◌*◌, ◌/◌, ◌<◌, ◌≡◌, ◌≢◌, refl, ap, ◌∙◌, All-append, arith, Bool, true, false, Bool-cases,
  inl, inr, List, [], ◌∷◌, ◌++◌, if◌then◌else◌, length, length-append, update, Run, ok, ◌>>=◌,
  Yields, yields, Yields-bind,
}
use linux_learning.CString.{Bytes, NoNul}
use linux_learning.Du.{
  Listing, end, directory, sealed, regular, other, Line, Du, buffer_size, is_dots, into, cut, dfs,
  du, put, put_all,
}
use linux_learning.CString.Spells.{Spells, c_str-Spells}
use linux_learning.Du.Path.{strcat-Spells, into-Spells, cut-Spells}

-- What is in a listing takes so many bytes: a directory 4096 and what is in it.
abbrev pub bytes_in : Listing → ℕ
bytes_in end = 0
bytes_in (directory name children rest) =
    let below = 4096 + bytes_in children in
    let more = bytes_in rest in (if is_dots name then 0 else below) + more
bytes_in (sealed name rest) = bytes_in rest
bytes_in (regular name blocks rest) =
    let more = bytes_in rest in (if is_dots name then 0 else blocks * 512) + more
bytes_in (other name rest) = bytes_in rest

-- The line for a directory.
abbrev pub line : List ℕ → ℕ → Line
line path bytes = (bytes / 1024, path)

-- The lines for the directories in a listing, each behind those in it.
abbrev pub lines_in : List ℕ → Listing → List Line
lines_in path end = []
lines_in path (directory name children rest) =
    let sub = (path ++ name) ++ b'/' ∷ [] in
    let below = lines_in sub children ++ line sub (4096 + bytes_in children) ∷ [] in
    let more = lines_in path rest in (if is_dots name then [] else below) ++ more
lines_in path (sealed name rest) = lines_in path rest
lines_in path (regular name blocks rest) = lines_in path rest
lines_in path (other name rest) = lines_in path rest

-- Each path, with the slash of a directory that is opened, has room in the buffer.
abbrev pub Fits : ℕ → Listing → Type 0
Fits p end = Unit
Fits p (directory name children rest) =
    NoNul name
    × (p + length name + 1 < buffer_size)
    × Fits (p + length name + 1) children
    × Fits p rest
Fits p (sealed name rest) = NoNul name × (p + length name < buffer_size) × Fits p rest
Fits p (regular name blocks rest) = NoNul name × (p + length name < buffer_size) × Fits p rest
Fits p (other name rest) = NoNul name × (p + length name < buffer_size) × Fits p rest

-- The outcome for the directory at `path`.
pub record Sized (path : List ℕ) (bytes : ℕ) (lines : List Line) (d : Du) : Type 0 where
  pub sz : d.sz ≡ bytes
  pub path_kept : Spells d.s 0 path
  pub out : d.out ≡ lines ++ line path bytes ∷ []

-- A Dfs with so many bytes and such lines so far, and what it yields in the end.
abbrev Goes : ℕ → List ℕ → Listing → Du → Run Du → Type 0
Goes p path listing d result =
    Yields (Sized path (d.sz + bytes_in listing) (d.out ++ lines_in path listing)) result

-- The end of a round, after which the Dfs goes on with other numbers.
round-Goes :
    (p : ℕ) (path more : List ℕ) (rest : Listing) (d : Du) (bytes : ℕ) (lines : List Line)
    → p ≡ length path
    → p < buffer_size
    → Spells d.s 0 (path ++ more)
    → d.sz + bytes_in rest ≡ bytes
    → d.out ++ lines_in path rest ≡ lines
    → ((d' : Du) → Spells d'.s 0 path → d'.sz ≡ d.sz → Goes p path rest d' (dfs rest p d'))
    → Yields (Sized path bytes lines) (cut p d >>= λ d'. dfs rest p d')
round-Goes p path more rest d bytes lines e lt v total all go =
    let (cuts, kept) = cut-Spells p path more d e lt v in
    rw cuts (
      subst (λ n. Yields (Sized path n lines) (dfs rest p (record d { s = update d.s p 0 }))) total
        (subst
          (λ l.
            Yields (Sized path (d.sz + bytes_in rest) l)
              (dfs rest p (record d { s = update d.s p 0 })))
          all (go (record d { s = update d.s p 0 }) kept refl)))

-- What the Dfs of a directory inside adds.
record Added (path more : List ℕ) (bytes : ℕ) (lines : List Line) (d : Du) : Type 0 where
  pub sum : d.sz ≡ bytes
  pub longer : Spells d.s 0 (path ++ more)
  pub printed : d.out ≡ lines

below-Added :
    (p : ℕ) (path name : List ℕ) (children : Listing) (d : Du) (s1 : Bytes)
    → p ≡ length path
    → p + length name + 1 < buffer_size
    → NoNul path
    → NoNul name
    → Spells s1 0 (path ++ name)
    → let sub = (path ++ name) ++ b'/' ∷ [] in
      let inside : Bytes → Du = λ s2. record { sz = 4096; s = s2; out = d.out } in
      ((s2 : Bytes)
        → p + length name + 1 ≡ length sub
        → NoNul sub
        → Spells s2 0 sub
        → Goes
            (p + length name + 1)
            sub
            children
            (inside s2)
            (dfs children (p + length name + 1) (inside s2)))
      → Yields
          (Added path
            (name ++ b'/' ∷ [])
            (d.sz + (4096 + bytes_in children))
            ((d.out ++ lines_in sub children) ++ line sub (4096 + bytes_in children) ∷ []))
          (into p name s1 >>= λ s2. dfs children (p + length name + 1) (inside s2) >>= λ child.
            ok (record child { sz = d.sz + child.sz }))
below-Added p path name children d s1 e lt path_n name_n t go =
    let slash = b'/' ∷ [] in
    let no_nul : ℕ → Type 0 = λ c. c ≢ 0 in
    let sub_n : NoNul ((path ++ name) ++ slash) =
      All-append no_nul (path ++ name) slash (All-append no_nul path name path_n name_n)
        ((λ same. absurd (omega (arith, same))), tt) in
    let sub_e : p + length name + 1 ≡ length ((path ++ name) ++ slash) =
      omega (arith, e, length-append (path ++ name) slash, length-append path name) in
    Yields-bind (into-Spells p path name s1 e lt t) λ s2 t2.
      Yields-bind (go s2 sub_e sub_n t2) λ child c. yields (record {
        sum = ap (λ k. d.sz + k) c.sz;
        longer = subst (Spells child.s 0) (append_assoc path name slash) c.path_kept;
        printed = c.out;
      })

dfs-Sized :
    (listing : Listing) (p : ℕ) (path : List ℕ) (d : Du)
    → p ≡ length path
    → p < buffer_size
    → NoNul path
    → Spells d.s 0 path
    → Fits p listing
    → d.sz + bytes_in listing < 4294967296
    → Goes p path listing d (dfs listing p d)
unfolding dfs
dfs-Sized end p path d e lt n v fits small =
    let whole : d.sz + 0 ≡ d.sz = omega arith in
    rw (c_str-Spells buffer_size path d.s 0 (omega (arith, e, lt)) n v, whole, append-nil d.out)
      (yields (record { sz = omega (arith, small); path_kept = v; out = refl }))
dfs-Sized (directory name children rest) p path d e lt n v fits small =
    let big = 4096 + bytes_in children in
    let split : (b : Bool)
        → is_dots name ≡ b
        → d.sz + ((if b then 0 else big) + bytes_in rest) < 4294967296 =
      λ b is.
        subst (λ b'. d.sz + ((if b' then 0 else big) + bytes_in rest) < 4294967296) is small in
    Yields-bind (strcat-Spells path name d.s (omega (arith, e, fits.1)) n v) λ s1 t.
      elim (Bool-cases (is_dots name)) [
        | inl dots ↦ rw dots (
            round-Goes p path name rest (record d { s = s1 }) _ _ e lt t (omega arith) refl
              λ d' w z.
                dfs-Sized rest p path d' e lt n w fits.3 (omega (arith, z, split true dots)))
        | inr named ↦
            let sub = (path ++ name) ++ b'/' ∷ [] in
            rw named (
              Yields-bind
                (below-Added p path name children d s1 e fits.1 n fits.0 t λ s2 sub_e sub_n t2.
                  dfs-Sized children (p + length name + 1) sub
                    (record { sz = 4096; s = s2; out = d.out }) sub_e fits.1 sub_n t2 fits.2
                    (omega (arith, split false named)))
                λ d1 t1.
                  round-Goes p path (name ++ b'/' ∷ []) rest d1 _ _ e lt t1.longer
                    (omega (arith, t1.sum))
                    (ap (λ o. o ++ lines_in path rest)
                        (t1.printed
                          ∙ append_assoc d.out (lines_in sub children) (line sub big ∷ []))
                      ∙ append_assoc d.out (lines_in sub children ++ line sub big ∷ [])
                          (lines_in path rest))
                    λ d' w z.
                      dfs-Sized rest p path d' e lt n w fits.3
                        (omega (arith, z, t1.sum, split false named)))
      ]
dfs-Sized (sealed name rest) p path d e lt n v fits small =
    Yields-bind (strcat-Spells path name d.s (omega (arith, e, fits.1)) n v) λ s1 t.
      round-Goes p path name rest (record d { s = s1 }) _ _ e lt t refl refl
        λ d' w z. dfs-Sized rest p path d' e lt n w fits.2 (omega (arith, z, small))
dfs-Sized (regular name blocks rest) p path d e lt n v fits small =
    let more = if is_dots name then 0 else blocks * 512 in
    Yields-bind (strcat-Spells path name d.s (omega (arith, e, fits.1)) n v) λ s1 t.
      round-Goes p path name rest (record d { sz = d.sz + more; s = s1 }) _ _ e lt t (omega arith)
        refl λ d' w z. dfs-Sized rest p path d' e lt n w fits.2 (omega (arith, z, small))
dfs-Sized (other name rest) p path d e lt n v fits small =
    Yields-bind (strcat-Spells path name d.s (omega (arith, e, fits.1)) n v) λ s1 t.
      round-Goes p path name rest (record d { s = s1 }) _ _ e lt t refl refl
        λ d' w z. dfs-Sized rest p path d' e lt n w fits.2 (omega (arith, z, small))

-- For a tree in which stat succeeds for each path that Dfs makes, as it does for those below the current
-- directory that no one removes and that are no dangling links, and in which closedir ignores the null
-- pointer of a directory that cannot be opened: when its names have no NUL, its paths have room in the
-- buffer, and it takes less than 4 GiB, the lines are those of its directories, each behind the directories in it and under its own path: each has 4096 bytes and those of
-- the files and directories in it. In the end the buffer holds the path that it started from.
pub du-Sized :
    (listing : Listing)
    → Fits 2 listing
    → 4096 + bytes_in listing < 4294967296
    → Yields
        (Sized (b'.' ∷ b'/' ∷ []) (4096 + bytes_in listing) (lines_in (b'.' ∷ b'/' ∷ []) listing))
        (du listing)
unfolding du put put_all
du-Sized listing fits small =
    dfs-Sized listing 2 (b'.' ∷ b'/' ∷ []) _ refl (omega arith)
      ((λ same. absurd (cc same)), ((λ same. absurd (cc same)), tt)) (refl, (refl, refl)) fits small
