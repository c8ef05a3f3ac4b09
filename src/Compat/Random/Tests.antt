-- ===== src/Compat/Random/Tests.antt =====
-- The theorem on random bytes at a kernel that gives two bytes, and then is interrupted.
use atlantic_engine.Base.{
  zero, suc, ◌≤◌, ◌≡◌, none, some, List, [], ◌∷◌, ◌++◌, Bytes, codes, length, drop, arith, leb,
  if◌then◌else◌,
}
use atlantic_engine.Compat.Random.{GetRandom, arc4random_buf}
use atlantic_engine.Compat.Random.Filling.{Fits, Given, join, arc4random_buf_lem}

two_bytes : GetRandom
two_bytes zero n = if leb 2 n then some (8 ∷ 9 ∷ []) else none
two_bytes (suc calls) n = none

two_bytes-Fits : Fits two_bytes
unfolding two_bytes
two_bytes-Fits zero n bytes e = ground arith
two_bytes-Fits (suc calls) n bytes e = cc

arc4random_buf_example :
    (chunks : List Bytes) × (arc4random_buf two_bytes (codes "abcdef") 5
      ≡ some (join chunks ++ drop (length (join chunks)) (codes "abcdef"), length (join chunks)))
    × (length (join chunks) ≤ 5)
    × Given two_bytes 5 0 0 chunks
arc4random_buf_example =
    arc4random_buf_lem two_bytes 5 two_bytes-Fits (codes "abcdef") (omega arith)
