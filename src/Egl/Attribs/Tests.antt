-- ===== src/Egl/Attribs/Tests.antt =====
-- The theorems on attribute lists at the list that asks for a fence with a status.
use atlantic_engine.Base.{
  ℕ, zero, suc, ◌≡◌, refl, none, some, List, [], ◌∷◌, ◌++◌, ◌+◌, ◌^◌, All, arith,
}
use atlantic_engine.Egl.Attribs.{egl_none, attrib_to_int}
use atlantic_engine.Egl.Attribs.Pairs.{flat, read_pairs, IsPlain}
use atlantic_engine.Egl.Attribs.RoundTrip.{
  IsReadable, attrib_to_int_roundtrip, attrib_to_int_overrun,
}

abbrev pair : ℕ × ℕ
pair = (0x30f1, 0x30f2)

pair-IsPlain : IsPlain pair
pair-IsPlain = (λ h. omega arith, omega arith, λ h. omega arith, omega arith)

repeat : ℕ → List (ℕ × ℕ)
repeat zero = []
repeat (suc n) = pair ∷ repeat n

abbrev cells : ℕ → List ℕ
cells zero = []
cells (suc n) = 7 ∷ cells n

repeat-All : (n : ℕ) → All IsPlain (repeat n)
unfolding repeat
repeat-All zero = tt
repeat-All (suc n) = (pair-IsPlain, repeat-All n)

-- The second value has more than 32 bits.
abbrev wide : List (ℕ × ℕ)
wide = (0x30f1, 0x30f2) ∷ (0x3100, 2 ^ 40 + 5) ∷ []

wide-All : All IsReadable wide
wide-All = ((λ h. omega arith, λ h. omega arith), ((λ h. omega arith, λ h. omega arith), tt))

attrib_to_int_roundtrip_example :
    read_pairs (attrib_to_int (some (flat wide ++ egl_none ∷ [])) (cells 64) 64)
    ≡ some ((0x30f1, 0x30f2) ∷ (0x3100, 5) ∷ [])
attrib_to_int_roundtrip_example =
    attrib_to_int_roundtrip wide [] (cells 64) 64 wide-All (omega arith) refl

attrib_to_int_overrun_example :
    read_pairs
      (attrib_to_int (some (flat (repeat 31) ++ 0x30f1 ∷ 0x30f2 ∷ egl_none ∷ [])) (cells 64) 64)
    ≡ none
unfolding repeat
attrib_to_int_overrun_example =
    attrib_to_int_overrun (repeat 31) 0x30f1 0x30f2 (egl_none ∷ []) (cells 64) refl (repeat-All 32)
      refl
