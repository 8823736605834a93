-- ===== src/Tail/Tests.antt =====
-- Small files for tail_scratch.cpp.
use linux_learning.Prelude.{ℕ, ◌≡◌, ◌≢◌, refl, inr, List, [], ◌∷◌, arith, All, pos}
use linux_learning.Tail.{print, go_back, tail}
use linux_learning.Tail.Lines.{LastLines, tail-LastLines}

-- Three lines.
abbrev lines : List ℕ
lines = b'a' ∷ 10 ∷ b'b' ∷ 10 ∷ b'c' ∷ 10 ∷ []

lines-All : All (λ c. c ≢ 255) lines
lines-All = (
  (λ e. absurd (omega (arith, e))),
  (
    (λ e. absurd (omega (arith, e))),
    (
      (λ e. absurd (omega (arith, e))),
      (
        (λ e. absurd (omega (arith, e))),
        ((λ e. absurd (omega (arith, e))), ((λ e. absurd (omega (arith, e))), tt)),
      ),
    ),
  ),
)

tail-LastLines_example : LastLines 2 lines (tail (pos 2) lines)
tail-LastLines_example = tail-LastLines 1 lines lines-All (inr refl)

-- Without a newline at the end a line more is printed.
one_more_line : tail (pos 1) (b'a' ∷ 10 ∷ b'b' ∷ []) ≡ b'a' ∷ 10 ∷ b'b' ∷ []
unfolding tail go_back print
one_more_line = refl

two_lines : tail (pos 2) lines ≡ b'b' ∷ 10 ∷ b'c' ∷ 10 ∷ []
unfolding tail go_back print
two_lines = refl
