-- ===== src/Compat/Random.antt =====
-- arc4random and arc4random_buf of shims/compat/libglibc-compat.c over getrandom(2).
pub mod Filling
pub mod Word
mod Tests
use atlantic_engine.Base.{
  ℕ, zero, suc, ◌+◌, ◌-◌, ◌<◌, ◌≤◌, Bool, true, false, Option, none, some, List, [], ◌∷◌, ◌++◌, ltb,
  ◌*◌, if◌then◌else◌, length, Bytes,
}
use atlantic_engine.Compat.Strings.{memcpy}

-- What `syscall (SYS_getrandom, p, n, 0)` does: `some bytes` is written at `p` and their count is
-- returned; `none` is the result -1. It may depend on how many calls came before.
abbrev pub GetRandom : Type 0
GetRandom = ℕ → ℕ → Option Bytes

-- The bytes that a call stores from `at` on.
pub store : Bytes → ℕ → Bytes → Bytes
store buf at bytes = memcpy buf at bytes (length bytes)

-- The little-endian value of the bytes of `val`.
value_of : Bytes → ℕ
value_of [] = 0
value_of (b ∷ bytes) = b + 256 * value_of bytes

-- What the call leaves in `val`, which is 0 before it.
filled : Option Bytes → Bytes
filled none = 0 ∷ 0 ∷ 0 ∷ 0 ∷ []
filled (some bytes) = store (0 ∷ 0 ∷ 0 ∷ 0 ∷ []) 0 bytes

pub arc4random : GetRandom → ℕ
arc4random getrandom = value_of (filled (getrandom 0 4))

-- `if (n <= 0) break; done += n`, on a call's result.
round {ℓ} : {R : Type ℓ} → Option Bytes → (Bytes → Option R) → R → Option R
round none again stop = some stop
round (some []) again stop = some stop
round (some (b ∷ bytes)) again stop = again (b ∷ bytes)

-- The loop, with `done` bytes filled by `calls` calls: the buffer and `done` at its end. `none`
-- means that the fuel ran out.
fill_from : GetRandom → ℕ → Bytes → ℕ → ℕ → ℕ → Option (Bytes × ℕ)
fill_from getrandom zero buf nbytes done calls = none
fill_from getrandom (suc fuel) buf nbytes done calls =
    if ltb done nbytes
    then round (getrandom calls (nbytes - done))
        (λ bytes.
          fill_from getrandom fuel (store buf done bytes) nbytes (done + length bytes) (calls + 1))
        (buf, done)
    else some (buf, done)

-- Each round but the last fills a byte at least, so the fuel is the number of bytes and one.
pub arc4random_buf : GetRandom → Bytes → ℕ → Option (Bytes × ℕ)
arc4random_buf getrandom buf nbytes = fill_from getrandom (suc nbytes) buf nbytes 0 0
