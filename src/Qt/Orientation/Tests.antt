-- ===== src/Qt/Orientation/Tests.antt =====
-- The theorem on angles at a reading whose compass angle is rounded up to a whole turn: the unit is
-- half a degree, and sums are rounded up to whole degrees.
use atlantic_engine.Base.{◌+◌, ◌-◌, ◌%◌, ◌≡◌, true, some, arith}
use atlantic_engine.Base.Int.{ℤ, pos, negsuc, neg, leb_ℤ}
use atlantic_engine.Qt.Orientation.{Rotation, handle_rotation_changed}
use atlantic_engine.Qt.Orientation.Ranges.{IsRounding, InRange, handle_rotation_changed-InRange}

abbrev rounded_up : ℤ → ℤ
rounded_up (pos n) = pos (n + n % 2)
rounded_up (negsuc n) = neg ((n + 1) - (n + 1) % 2)

rounded_up_monotone : (a b : ℤ) → leb_ℤ a b ≡ true → leb_ℤ (rounded_up a) (rounded_up b) ≡ true
rounded_up_monotone (pos m) (pos n) le = ground arith
rounded_up_monotone (pos m) (negsuc n) le = ground arith
rounded_up_monotone (negsuc m) (pos n) le = ground arith
rounded_up_monotone (negsuc m) (negsuc n) le = ground arith

rounded_up-IsRounding : IsRounding 2 rounded_up
rounded_up-IsRounding = record {
  monotone = rounded_up_monotone;
  keeps = λ n small. ground arith;
  keeps_neg = λ n small. ground arith;
}

abbrev on_its_back : Rotation
on_its_back = record { x = negsuc 17; y = negsuc 359; z = negsuc 0; has_z = true }

handle_rotation_changed-InRange_example :
    InRange 2 (handle_rotation_changed 2 rounded_up (some on_its_back))
handle_rotation_changed-InRange_example =
    handle_rotation_changed-InRange 2 rounded_up (some on_its_back) rounded_up-IsRounding
      (omega arith)
