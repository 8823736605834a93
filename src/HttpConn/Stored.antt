-- ===== src/HttpConn/Stored.antt =====
-- The bytes that store_bytes writes into a buffer of http_conn.cpp.
use linux_learning.Prelude.{
  ℕ, ◌+◌, ◌≤◌, ◌<◌, ◌≡◌, refl, ap, ◌∙◌, arith, List, [], ◌∷◌, ◌++◌, length, update, update_at,
}
use linux_learning.CString.{Bytes}
use linux_learning.CString.Spells.{Reads}
use linux_learning.HttpConn.{store_bytes}

pub store_bytes-before :
    (l : List ℕ) (buf : Bytes) (at j : ℕ) → j < at → store_bytes buf at l j ≡ buf j
unfolding store_bytes
store_bytes-before [] buf at j lt = refl
store_bytes-before (x ∷ l) buf at j lt =
    store_bytes-before l (update buf at x) (at + 1) j (omega arith) ∙ ground arith

pub store_bytes-behind :
    (l : List ℕ) (buf : Bytes) (at j : ℕ) → at + length l ≤ j → store_bytes buf at l j ≡ buf j
unfolding store_bytes
store_bytes-behind [] buf at j le = refl
store_bytes-behind (x ∷ l) buf at j le =
    store_bytes-behind l (update buf at x) (at + 1) j (omega (arith, le)) ∙ ground (arith, le)

pub store_bytes-append :
    (chunk more : List ℕ) (buf : Bytes) (at : ℕ)
    → store_bytes (store_bytes buf at chunk) (at + length chunk) more
      ≡ store_bytes buf at (chunk ++ more)
unfolding store_bytes
store_bytes-append [] more buf at = ap (λ p. store_bytes buf p more) (omega arith)
store_bytes-append (c ∷ chunk) more buf at =
    ap (λ p. store_bytes (store_bytes (update buf at c) (at + 1) chunk) p more) (omega arith)
    ∙ store_bytes-append chunk more (update buf at c) (at + 1)

pub store_bytes-Reads :
    (chunk : List ℕ) (buf : Bytes) (at : ℕ) → Reads (store_bytes buf at chunk) at chunk
unfolding store_bytes
store_bytes-Reads [] buf at = tt
store_bytes-Reads (c ∷ chunk) buf at = (
  store_bytes-before chunk (update buf at c) (at + 1) at (omega arith) ∙ update_at buf at c,
  store_bytes-Reads chunk (update buf at c) (at + 1),
)
