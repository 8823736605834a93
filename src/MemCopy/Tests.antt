-- ===== src/MemCopy/Tests.antt =====
-- Copies of memcpy_memmove_scratch.cpp in a small memory.
use linux_learning.Prelude.{◌+◌, ◌≡◌, refl, ok, ℕ}
use linux_learning.CString.{Bytes}
use linux_learning.MemCopy.{memmove, copy_down}

abbrev letters : Bytes
letters a = a + 100

moved_up :
    (r : Bytes × ℕ) × (memmove letters 12 10 3 ≡ ok r)
    × (r.0 12 ≡ 110)
    × (r.0 11 ≡ 109)
    × (r.1 ≡ 14)
unfolding memmove copy_down
moved_up = (_, refl, refl, refl, refl)
