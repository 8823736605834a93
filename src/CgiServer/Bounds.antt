-- ===== src/CgiServer/Bounds.antt =====
-- The buffer of CGI_concurrent_pool.cpp.
use linux_learning.Prelude.{ℕ, suc, ◌≤◌, ◌≡◌, ◌⊎◌, List, [], ◌∷◌, length}
use linux_learning.CgiServer.{Received, got}

-- The number of bytes that recv reports.
abbrev pub size : Received → ℕ
size (got b bytes) = suc (length bytes)
size _ = 0

-- recv gives at most as many bytes as it is asked for, and one of the calls gives none.
abbrev pub Recvs : List (ℕ → Received) → Type 0
Recvs [] = ⊥
Recvs (recv ∷ rest) =
    ((room : ℕ) → size (recv room) ≤ room) × (((room : ℕ) → size (recv room) ≡ 0) ⊎ Recvs rest)
