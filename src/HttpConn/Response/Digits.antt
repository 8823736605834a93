-- ===== src/HttpConn/Response/Digits.antt =====
-- The length of what `%d` prints in http_conn.cpp.
use native.Mathlib.Nat.{pow-succ'}
use linux_learning.Prelude.{
  ℕ, zero, suc, ◌+◌, ◌/◌, ◌%◌, ◌^◌, ◌≤◌, ◌<◌, ◌≡◌, arith, true, List, [], ◌∷◌, ltb, length,
}
use linux_learning.HttpConn.Response.{decimal, decimal_loop}

-- The numbers below 10 ^ k have at most k digits.
length-decimal_loop :
    (fuel k n : ℕ) (digits : List ℕ)
    → n < 10 ^ suc k
    → length (decimal_loop fuel n digits) ≤ suc k + length digits
unfolding decimal_loop
length-decimal_loop zero k n digits lt = omega arith
length-decimal_loop (suc fuel) zero n digits lt =
    let one : ltb n 10 ≡ true = ground (arith, lt) in rw one (omega arith)
length-decimal_loop (suc fuel) (suc k) n digits lt =
    let fewer : n / 10 < 10 ^ suc k = omega (arith, lt, pow-succ' 10 (suc k)) in
    let rest = length-decimal_loop fuel k (n / 10) ((48 + n % 10) ∷ digits) fewer in
    ground (arith, rest)

pub length-decimal : (n : ℕ) → n < 2 ^ 31 → length (decimal n) ≤ 10
unfolding decimal
length-decimal n lt = length-decimal_loop (suc n) 9 n [] (omega (arith, lt))
