-- ===== src/Du/Tests.antt =====
-- A small tree for du_scratch.cpp.
use linux_learning.Prelude.{arith, [], ◌∷◌, Yields}
use linux_learning.Du.{Listing, end, directory, sealed, regular, other, is_dots, same, du}
use linux_learning.Du.Sizes.{Sized, du-Sized}

-- `.`, a directory `d` with a file `f` of eight blocks, a directory that cannot be opened, and a link.
abbrev tree : Listing
tree =
    directory (b'.' ∷ []) end (
      directory (b'd' ∷ []) (regular (b'f' ∷ []) 8 end)
        (sealed (b'x' ∷ []) (other (b'l' ∷ []) end)))

du-Sized_example :
    Yields (Sized (b'.' ∷ b'/' ∷ []) 12288 ((8, b'.' ∷ b'/' ∷ b'd' ∷ b'/' ∷ []) ∷ [])) (du tree)
unfolding is_dots same
du-Sized_example =
    du-Sized tree
      (
        ((λ e. absurd (cc e)), tt),
        omega arith,
        tt,
        (
          ((λ e. absurd (cc e)), tt),
          omega arith,
          (((λ e. absurd (cc e)), tt), omega arith, tt),
          (((λ e. absurd (cc e)), tt), omega arith, (((λ e. absurd (cc e)), tt), omega arith, tt)),
        ),
      )
      (omega arith)
