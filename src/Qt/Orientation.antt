-- ===== src/Qt/Orientation.antt =====
-- qt5-plugin/WPEDeviceOrientationBridge.cpp: the sensors of the device, for the pages of a view. An
-- angle or an acceleration is a finite double, as a whole number of the least units of doubles, `unit`
-- of them to a degree. fmod is exact; a sum or difference is rounded to a double, which is the
-- parameter `rounded`.
pub mod Ranges
pub mod Sensors
mod Tests
use atlantic_engine.Base.{
  ℕ, ◌*◌, Bool, true, false, not, ◌&&◌, ◌||◌, Option, none, some, List, [], ◌∷◌, ◌++◌,
  if◌then◌else◌, ◌==◌, ltb,
}
use atlantic_engine.Base.Int.{ℤ, pos, ltb_ℤ, rem, ◌+ℤ◌, ◌-ℤ◌}

-- QRotationReading, and QRotationSensor::hasZ
pub record Rotation : Type 0 where
  pub x : ℤ
  pub y : ℤ
  pub z : ℤ
  pub has_z : Bool

-- The arguments of wpe_sfos_device_orientation_changed; `none` is NAN.
pub record Orientation : Type 0 where
  pub alpha : Option ℤ
  pub beta : ℤ
  pub gamma : ℤ
  pub absolute : Bool

abbrev pub degrees : ℕ → ℕ → ℤ
degrees unit n = pos (n * unit)

module _ (unit : ℕ) (rounded : ℤ → ℤ) where
  -- `fmod (s, 360.0)`, with a turn added to a negative result.
  unfoldable pub fold_turn : ℤ → ℤ
  fold_turn s =
      let w = rem s (360 * unit) in if ltb_ℤ w (pos 0) then rounded (w +ℤ degrees unit 360) else w

  -- `wrapTo180`
  unfoldable pub wrap_to_180 : ℤ → ℤ
  wrap_to_180 d = rounded (fold_turn (rounded (d +ℤ degrees unit 180)) -ℤ degrees unit 180)

  -- The rule for a device that is rolled past on-edge.
  unfoldable pub flip : ℤ → ℤ → ℤ × ℤ
  flip beta gamma =
      let flipped = wrap_to_180 (rounded (degrees unit 180 -ℤ beta)) in
      if ltb_ℤ (degrees unit 90) gamma
      then (flipped, rounded (degrees unit 180 -ℤ gamma))
      else if ltb_ℤ gamma (pos 0 -ℤ degrees unit 90)
      then (flipped, rounded ((pos 0 -ℤ degrees unit 180) -ℤ gamma))
      else (beta, gamma)

  -- `handleRotationChanged`; without a reading nothing is dispatched.
  unfoldable pub handle_rotation_changed : Option Rotation → Option Orientation
  handle_rotation_changed none = none
  handle_rotation_changed (some r) =
      let (beta, gamma) =
        flip (wrap_to_180 (pos 0 -ℤ r.x)) (wrap_to_180 (rounded (r.y -ℤ degrees unit 180))) in
      some (record {
        alpha = if r.has_z then some (fold_turn r.z) else none;
        beta = beta;
        gamma = gamma;
        absolute = r.has_z;
      })

-- Three values of a sensor.
pub record Vector : Type 0 where
  pub x : ℤ
  pub y : ℤ
  pub z : ℤ

-- The arguments of wpe_sfos_device_motion_changed. The interval is 1000 / rate.
pub record Motion : Type 0 where
  pub acceleration : Option Vector
  pub including_gravity : Vector
  pub alpha_rate : Option ℤ
  pub beta_rate : Option ℤ
  pub gamma_rate : Option ℤ
  pub interval : Option (ℕ × ℕ)

abbrev rates : Option Vector → Option ℤ × Option ℤ × Option ℤ
rates none = (none, none, none)
rates (some gyro) = (some gyro.z, some gyro.x, some gyro.y)

-- `handleMotionChanged`, from the readings of the accelerometer, of the one without gravity and of the
-- gyroscope, and the data rate.
unfoldable pub handle_motion_changed :
    Option Vector → Option Vector → Option Vector → ℕ → Option Motion
handle_motion_changed none linear gyro rate = none
handle_motion_changed (some reading) linear gyro rate =
    let (alpha, beta, gamma) = rates gyro in
    some (record {
      acceleration = linear;
      including_gravity = reading;
      alpha_rate = alpha;
      beta_rate = beta;
      gamma_rate = gamma;
      interval = if ltb 0 rate then some (1000, rate) else none;
    })

-- The sensors of a bridge.
pub data Sensor : Type 0 where
  rotation accelerometer linear gyroscope : Sensor

pub data Call : Type 0 where
  create start stop : Sensor → Call

pub record Bridge : Type 0 where
  pub orientation_active : Bool
  pub motion_active : Bool
  pub has_rotation : Bool
  pub has_accelerometer : Bool
  pub has_linear : Bool
  pub has_gyroscope : Bool

abbrev call_if : Bool → Call → List Call
call_if b c = if b then c ∷ [] else []

abbrev same : Bool → Bool → Bool
same a b = if a then b else not b

-- The first half of `setNeeded`.
unfoldable pub set_orientation : Bool → Bridge → Bridge × List Call
set_orientation needed b =
    if same needed b.orientation_active
    then (b, [])
    else if needed
    then (
      record b { has_rotation = true; orientation_active = true },
      call_if (not b.has_rotation) (create rotation) ++ start rotation ∷ [],
    )
    else (record b { orientation_active = false }, call_if b.has_rotation (stop rotation))

-- The second half. The flag is whether the accelerometer can leave gravity out.
unfoldable pub set_motion : Bool → Bool → Bridge → Bridge × List Call
set_motion user_mode needed b =
    if same needed b.motion_active
    then (b, [])
    else if needed
    then (
      record b {
        has_accelerometer = true;
        has_linear = b.has_linear || (not b.has_accelerometer && user_mode);
        has_gyroscope = true;
        motion_active = true;
      },
      call_if (not b.has_accelerometer) (create accelerometer)
          ++ (call_if (not b.has_accelerometer && user_mode) (create linear)
              ++ (call_if (not b.has_gyroscope) (create gyroscope)
                  ++ (start accelerometer
                      ∷ (call_if (b.has_linear || (not b.has_accelerometer && user_mode))
                            (start linear)
                          ++ start gyroscope ∷ [])))),
    )
    else (
      record b { motion_active = false },
      call_if b.has_accelerometer (stop accelerometer)
          ++ (call_if b.has_linear (stop linear) ++ call_if b.has_gyroscope (stop gyroscope)),
    )

-- `setNeeded`
unfoldable pub set_needed : Bool → Bool → Bool → Bridge → Bridge × List Call
set_needed user_mode orientation motion b =
    let (b1, calls) = set_orientation orientation b in
    let (b2, more) = set_motion user_mode motion b1 in (b2, calls ++ more)

-- `ensure`: the views that have a bridge, and whether a new one is made. A null view is `none`.
abbrev contains : ℕ → List ℕ → Bool
contains v [] = false
contains v (w ∷ ws) = v == w || contains v ws

unfoldable pub ensure : Option ℕ → List ℕ → List ℕ × Bool
ensure none bridged = (bridged, false)
ensure (some view) bridged =
    if contains view bridged then (bridged, false) else (view ∷ bridged, true)

-- The view goes away, and its bridge with it.
unfoldable pub forget : ℕ → List ℕ → List ℕ
forget view [] = []
forget view (w ∷ ws) = let rest = forget view ws in if view == w then rest else w ∷ rest
