-- ===== src/MemCopy.antt =====
-- C_C++/memcpy_memmove_scratch.cpp. Memory is a function from addresses, and 0 is the null
-- pointer. An assertion that fails is `thrown`.
pub mod Copied
mod Tests
use linux_learning.Prelude.{
  ℕ, zero, suc, ◌+◌, ◌-◌, Bool, true, false, ◌&&◌, ltb, leb, ◌==◌, if◌then◌else◌, update, Run, ok,
  thrown, fault, ◌>>=◌,
}
use linux_learning.CString.{Bytes}

-- `while(count--) *tmp_dest++ = *tmp_src++;`
pub copy_up : ℕ → Bytes → ℕ → ℕ → Bytes
copy_up zero m tmp_dest tmp_src = m
copy_up (suc count) m tmp_dest tmp_src =
    copy_up count (update m tmp_dest (m tmp_src)) (tmp_dest + 1) (tmp_src + 1)

-- `while(count--) *tmp_dest-- = *tmp_src--;`, which must not get to the null pointer.
pub copy_down : ℕ → Bytes → ℕ → ℕ → Run Bytes
copy_down zero m tmp_dest tmp_src = ok m
copy_down (suc count) m tmp_dest tmp_src =
    let rest = copy_down count (update m tmp_dest (m tmp_src)) (tmp_dest - 1) (tmp_src - 1) in
    if ltb 0 tmp_dest && ltb 0 tmp_src then rest else fault

-- `_memcpy`; the memory behind it, and what it returns.
pub memcpy : Bytes → (dest src count : ℕ) → Run (Bytes × ℕ)
memcpy m dest src count =
    if ltb 0 src && ltb 0 dest then ok (copy_up count m dest src, dest) else thrown

-- `_memmove`; the two pointers that the loops use are set before `dest` and `src` are moved.
pub memmove : Bytes → (dest src count : ℕ) → Run (Bytes × ℕ)
memmove m dest src count =
    let down : Run (Bytes × ℕ) = do m' ← copy_down count m dest src; ok (m', dest + count - 1)
    in if ltb 0 src && ltb 0 dest
      then (if leb dest src then ok (copy_up count m dest src, dest) else down)
      else thrown
