-- ===== src/CgiServer/Tests.antt =====
-- A client of CGI_concurrent_pool.cpp.
use linux_learning.Prelude.{ℕ, leb, if◌then◌else◌, ◌≡◌, refl, true, List, [], ◌∷◌, ok}
use linux_learning.CString.{c_str, string_in}
use linux_learning.HttpConn.{store_bytes}
use linux_learning.CgiServer.{
  CgiConn, Received, got, would_block, in_child, Ended, runs, find_end, start, on_recv, process,
}

-- The name "ls" comes in two pieces, when it is asked for enough bytes.
abbrev pieces : List (ℕ → Received)
pieces =
    (λ room. if leb 3 room then got b'l' (b's' ∷ 13 ∷ []) else would_block)
    ∷ (λ room. if leb 1 room then got 10 [] else would_block)
    ∷ (λ room. would_block)
    ∷ []

ended :
    (r : Ended × CgiConn) × (process
        (λ _. true)
        in_child
        (record { buf = λ _. 0; read_idx = 0 })
        ((λ room. got b'l' (b's' ∷ 13 ∷ 10 ∷ [])) ∷ [])
      ≡ ok r)
    × (r.0 ≡ runs (b'l' ∷ b's' ∷ []))
unfolding process on_recv find_end start store_bytes c_str string_in
ended = (_, refl, refl)
