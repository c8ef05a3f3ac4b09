-- ===== src/Compat/Random/Word.antt =====
-- The number that arc4random makes of the bytes it is given.
use atlantic_engine.Base.{ℕ, ◌/◌, ◌%◌, ◌^◌, ◌<◌, ◌≡◌, refl, some, [], ◌∷◌, All, arith}
use atlantic_engine.Compat.Strings.Laws.{memcpy_lem}
use atlantic_engine.Compat.Random.{GetRandom, store, value_of, filled, arc4random}

-- The bytes of the number, the lowest first, are the ones given.
bytes_of_value :
    (a b c d : ℕ)
    → a < 256
    → b < 256
    → c < 256
    → d < 256
    → let v = value_of (a ∷ b ∷ c ∷ d ∷ []) in
      (v < 2 ^ 32)
      × (v % 256 ≡ a)
      × (v / 256 % 256 ≡ b)
      × (v / 65536 % 256 ≡ c)
      × (v / 16777216 ≡ d)
unfolding value_of
bytes_of_value a b c d ha hb hc hd =
    (omega arith, omega arith, omega arith, omega arith, omega arith)

filled_whole : (a b c d : ℕ) → filled (some (a ∷ b ∷ c ∷ d ∷ [])) ≡ a ∷ b ∷ c ∷ d ∷ []
unfolding filled store
filled_whole a b c d =
    memcpy_lem [] (0 ∷ 0 ∷ 0 ∷ 0 ∷ []) (a ∷ b ∷ c ∷ d ∷ []) 0 4 refl (omega arith) (omega arith)

-- When getrandom gives four bytes, arc4random returns a number below 2 ^ 32 whose four bytes, the
-- lowest first, are the ones given.
pub arc4random_lem :
    (getrandom : GetRandom) (a b c d : ℕ)
    → getrandom 0 4 ≡ some (a ∷ b ∷ c ∷ d ∷ [])
    → All (λ x. x < 256) (a ∷ b ∷ c ∷ d ∷ [])
    → let v = arc4random getrandom in
      (v < 2 ^ 32)
      × (v % 256 ≡ a)
      × (v / 256 % 256 ≡ b)
      × (v / 65536 % 256 ≡ c)
      × (v / 16777216 ≡ d)
unfolding arc4random
arc4random_lem getrandom a b c d e bytes =
    rw (e, filled_whole a b c d)
      (bytes_of_value a b c d bytes.0 (bytes.1.0) (bytes.1.1.0) (bytes.1.1.1.0))
