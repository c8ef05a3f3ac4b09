-- ===== src/Compat/Strings.antt =====
-- strlcpy and strlcat of shims/compat/libglibc-compat.c, over a buffer that is a list of bytes. A
-- write out of the buffer changes nothing in the model; `Laws` shows that there is none.
pub mod Laws
use atlantic_engine.Base.{
  ℕ, zero, suc, ◌+◌, ◌-◌, ◌<◌, ◌≤◌, Bool, true, false, List, [], ◌∷◌, ◌++◌, ltb, ◌==◌,
  if◌then◌else◌, length, set, take, drop, Bytes, nonempty,
}

-- `memcpy (dst + at, src, n)`
pub memcpy : Bytes → ℕ → Bytes → ℕ → Bytes
memcpy dst at src zero = dst
memcpy dst at [] (suc n) = dst
memcpy dst at (c ∷ src) (suc n) = memcpy (set dst at c) (at + 1) src n

-- `strnlen (dst, size)`: the bytes before the first NUL, of the first `size` ones.
pub strnlen : Bytes → ℕ → ℕ
strnlen dst zero = 0
strnlen [] (suc size) = 0
strnlen (c ∷ dst) (suc size) = if c == 0 then 0 else suc (strnlen dst size)

-- `copylen`
copylen : Bytes → ℕ → ℕ
copylen src size = if ltb (length src) (size - 1) then length src else size - 1

-- `memcpy (dst, src, n); dst[n] = '\0'` on the buffer from `at` on.
copy_and_end : Bytes → ℕ → Bytes → ℕ → Bytes
copy_and_end dst at src n = set (memcpy dst at src n) (at + n) 0

-- On the buffer `dst + at`, of which the caller gives `size`: the buffer after the call, and the
-- result. `src` is the source string without its NUL.
strlcpy_at : Bytes → ℕ → Bytes → ℕ → Bytes × ℕ
strlcpy_at dst at src size =
    if ltb 0 size
    then (copy_and_end dst at src (copylen src size), length src)
    else (dst, length src)

pub strlcpy : Bytes → Bytes → ℕ → Bytes × ℕ
strlcpy dst src size = strlcpy_at dst 0 src size

-- `return dstlen + strlcpy (...)`
add_result : ℕ → Bytes × ℕ → Bytes × ℕ
add_result dstlen (dst, n) = (dst, dstlen + n)

pub strlcat : Bytes → Bytes → ℕ → Bytes × ℕ
strlcat dst src size =
    if strnlen dst size == size
    then (dst, size + length src)
    else add_result (strnlen dst size)
        (strlcpy_at dst (strnlen dst size) src (size - strnlen dst size))
