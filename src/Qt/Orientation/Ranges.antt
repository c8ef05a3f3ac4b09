-- ===== src/Qt/Orientation/Ranges.antt =====
-- The angles that a page gets.
use atlantic_engine.Base.{
  ℕ, zero, suc, ◌*◌, ◌%◌, ◌<◌, ◌≤◌, ◌≡◌, refl, sym, ap, ◌∙◌, Bool, true, false, Bool-cases, not,
  Option, none, some, if◌then◌else◌, arith, inl, inr,
}
use native.Mathlib.Nat.{mod-lt}
use atlantic_engine.Base.Int.{ℤ, pos, negsuc, neg, ltb_ℤ, leb_ℤ, rem, ◌+ℤ◌, ◌-ℤ◌}
use atlantic_engine.Qt.Orientation.{
  Rotation, Orientation, degrees, fold_turn, wrap_to_180, flip, handle_rotation_changed,
}

-- The rounding of IEEE 754: it keeps the order, and a whole number of degrees is a double.
pub record IsRounding (unit : ℕ) (rounded : ℤ → ℤ) : Type 0 where
  pub monotone : (a b : ℤ) → leb_ℤ a b ≡ true → leb_ℤ (rounded a) (rounded b) ≡ true
  pub keeps : (n : ℕ) → n ≤ 360 → rounded (degrees unit n) ≡ degrees unit n
  pub keeps_neg : (n : ℕ) → n ≤ 360 → rounded (pos 0 -ℤ degrees unit n) ≡ pos 0 -ℤ degrees unit n

-- From `lo` to `hi`, both included.
abbrev pub Within : ℤ → ℤ → ℤ → Type 0
Within lo hi a = (leb_ℤ lo a ≡ true) × (leb_ℤ a hi ≡ true)

module _ (unit : ℕ) where
  abbrev pub IsBeta : ℤ → Type 0
  IsBeta = Within (pos 0 -ℤ degrees unit 180) (degrees unit 180)

  abbrev pub IsGamma : ℤ → Type 0
  IsGamma = Within (pos 0 -ℤ degrees unit 90) (degrees unit 90)

  abbrev pub IsAlpha : Bool → Option ℤ → Type 0
  IsAlpha absolute none = absolute ≡ false
  IsAlpha absolute (some a) = (absolute ≡ true) × Within (pos 0) (degrees unit 360) a

  -- The angles are those that the specification of the web asks for, up to the upper ends of the ranges
  -- of alpha and beta.
  abbrev pub InRange : Option Orientation → Type 0
  InRange none = Unit
  InRange (some o) = IsAlpha o.absolute o.alpha × IsBeta o.beta × IsGamma o.gamma

  -- The remainder of a turn.
  abbrev InTurn : ℤ → Type 0
  InTurn = Within (pos 0) (degrees unit 360)

  rem-small :
      (s : ℤ)
      → 0 < unit
      → Within (pos 0 -ℤ degrees unit 360) (degrees unit 360) (rem s (360 * unit))
  rem-small (pos n) some_unit =
      let small : n % (360 * unit) < 360 * unit = mod-lt n (omega arith) in ground arith
  rem-small (negsuc n) some_unit = negated (suc n % (360 * unit)) (mod-lt (suc n) (omega arith))
    where
      negated :
          (r : ℕ) → r < 360 * unit → Within (pos 0 -ℤ degrees unit 360) (degrees unit 360) (neg r)
      negated zero small = ground arith
      negated (suc k) small = ground arith

  shifted-small :
      (w : ℤ)
      → Within (pos 0 -ℤ degrees unit 360) (degrees unit 360) w
      → ltb_ℤ w (pos 0) ≡ true
      → Within (pos 0) (degrees unit 360) (w +ℤ degrees unit 360)
  shifted-small (pos n) w_in negative = ground arith
  shifted-small (negsuc n) w_in negative = ground arith

  turned-IsBeta : (w : ℤ) → InTurn w → IsBeta (w -ℤ degrees unit 180)
  turned-IsBeta (pos n) w_in = ground arith
  turned-IsBeta (negsuc n) w_in = ground arith

  above-IsGamma :
      (g : ℤ) → IsBeta g → ltb_ℤ (degrees unit 90) g ≡ true → IsGamma (degrees unit 180 -ℤ g)
  above-IsGamma (pos n) g_in above = ground arith
  above-IsGamma (negsuc n) g_in above = ground arith

  below-IsGamma :
      (g : ℤ)
      → IsBeta g
      → ltb_ℤ g (pos 0 -ℤ degrees unit 90) ≡ true
      → IsGamma ((pos 0 -ℤ degrees unit 180) -ℤ g)
  below-IsGamma (pos n) g_in below = ground arith
  below-IsGamma (negsuc n) g_in below = ground arith

  module _ {rounded : ℤ → ℤ} (rounding : IsRounding unit rounded) (some_unit : 0 < unit) where
    -- A bound that is a double holds of the rounded number too.
    rounded-Within :
        (lo hi a : ℤ)
        → rounded lo ≡ lo
        → rounded hi ≡ hi
        → Within lo hi a
        → Within lo hi (rounded a)
    rounded-Within lo hi a lo_kept hi_kept (above, below) = (
      ap (λ b. leb_ℤ b (rounded a)) (sym lo_kept) ∙ rounding.monotone lo a above,
      ap (λ b. leb_ℤ (rounded a) b) (sym hi_kept) ∙ rounding.monotone a hi below,
    )

    zero_kept : rounded (pos 0) ≡ pos 0
    zero_kept =
        let none_left : degrees unit 0 ≡ pos 0 = ap pos (omega arith) in
        ap rounded (sym none_left) ∙ (rounding.keeps 0 (omega arith) ∙ none_left)

    fold_turn-InTurn : (s : ℤ) → InTurn (fold_turn unit rounded s)
    unfolding fold_turn
    fold_turn-InTurn s =
        let w = rem s (360 * unit) in
        let w_in = rem-small s some_unit in
        elim (Bool-cases (ltb_ℤ w (pos 0))) [
          | inl negative ↦ rw negative (
              rounded-Within (pos 0) (degrees unit 360) (w +ℤ degrees unit 360) zero_kept
                (rounding.keeps 360 (omega arith)) (shifted-small w w_in negative))
          | inr positive ↦ rw positive (ap not positive, w_in.1)
        ]

    wrap_to_180-IsBeta : (d : ℤ) → IsBeta (wrap_to_180 unit rounded d)
    unfolding wrap_to_180
    wrap_to_180-IsBeta d =
        let s = rounded (d +ℤ degrees unit 180) in
        rounded-Within (pos 0 -ℤ degrees unit 180) (degrees unit 180)
          (fold_turn unit rounded s -ℤ degrees unit 180) (rounding.keeps_neg 180 (omega arith))
          (rounding.keeps 180 (omega arith))
          (turned-IsBeta (fold_turn unit rounded s) (fold_turn-InTurn s))

    rounded-IsGamma : (g : ℤ) → IsGamma g → IsGamma (rounded g)
    rounded-IsGamma g =
        rounded-Within (pos 0 -ℤ degrees unit 90) (degrees unit 90) g
          (rounding.keeps_neg 90 (omega arith)) (rounding.keeps 90 (omega arith))

    flip-InRange :
        (beta gamma : ℤ)
        → IsBeta beta
        → IsBeta gamma
        → IsBeta (flip unit rounded beta gamma).0 × IsGamma (flip unit rounded beta gamma).1
    unfolding flip
    flip-InRange beta gamma b_in g_in =
        let flipped_in = wrap_to_180-IsBeta (rounded (degrees unit 180 -ℤ beta)) in
        elim (Bool-cases (ltb_ℤ (degrees unit 90) gamma)) [
          | inl above ↦ rw above (
            flipped_in,
            rounded-IsGamma (degrees unit 180 -ℤ gamma) (above-IsGamma gamma g_in above),
          )
          | inr not_above ↦ elim (Bool-cases (ltb_ℤ gamma (pos 0 -ℤ degrees unit 90))) [
            | inl below ↦
                rw (not_above, below)
                  (
                    flipped_in,
                    rounded-IsGamma ((pos 0 -ℤ degrees unit 180) -ℤ gamma)
                        (below-IsGamma gamma g_in below),
                  )
            | inr not_below ↦ rw (not_above, not_below) (b_in, (ap not not_below, ap not not_above))
          ]
        ]

    fold_turn-IsAlpha :
        (z : ℤ) (has_z : Bool)
        → IsAlpha has_z (if has_z then some (fold_turn unit rounded z) else none)
    fold_turn-IsAlpha z false = refl
    fold_turn-IsAlpha z true = (refl, fold_turn-InTurn z)

-- For every reading of finite numbers, however far its angles are from a turn, a page gets a beta from
-- -180 to 180 degrees, a gamma from -90 to 90 degrees, and an alpha from 0 to 360 degrees if the
-- reading has a compass, and none if it has not; the ends are included. Sums are rounded in any way
-- that keeps the order and keeps whole numbers of degrees, and there is some unit of angles.
pub handle_rotation_changed-InRange :
    (unit : ℕ) (rounded : ℤ → ℤ) (reading : Option Rotation)
    → IsRounding unit rounded
    → 0 < unit
    → InRange unit (handle_rotation_changed unit rounded reading)
unfolding handle_rotation_changed
handle_rotation_changed-InRange unit rounded none rounding some_unit = tt
handle_rotation_changed-InRange unit rounded (some r) rounding some_unit =
    let beta = wrap_to_180 unit rounded (pos 0 -ℤ r.x) in
    let gamma = wrap_to_180 unit rounded (rounded (r.y -ℤ degrees unit 180)) in
    let (b_in, g_in) =
      flip-InRange unit rounding some_unit beta gamma
        (wrap_to_180-IsBeta unit rounding some_unit (pos 0 -ℤ r.x))
        (wrap_to_180-IsBeta unit rounding some_unit (rounded (r.y -ℤ degrees unit 180))) in
    (fold_turn-IsAlpha unit rounding some_unit r.z r.has_z, b_in, g_in)
