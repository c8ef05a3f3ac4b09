-- ===== src/Qt/Orientation/Sensors.antt =====
-- Sensors run while a page needs them.
use atlantic_engine.Base.{
  ◌≡◌, refl, ap, ◌∙◌, Bool, true, false, not, ◌&&◌, List, [], ◌∷◌, ◌++◌, if◌then◌else◌, arith,
}
use atlantic_engine.Qt.Orientation.{
  Sensor, rotation, accelerometer, linear, gyroscope, Call, create, start, stop, Bridge,
  set_orientation, set_motion, set_needed,
}

abbrev pub is_sensor : Sensor → Sensor → Bool
is_sensor rotation rotation = true
is_sensor accelerometer accelerometer = true
is_sensor linear linear = true
is_sensor gyroscope gyroscope = true
is_sensor _ _ = false

-- Whether a sensor was last started or stopped.
unfoldable pub runs : Bool → Sensor → List Call → Bool
runs on s [] = on
runs on s (create t ∷ calls) = runs on s calls
runs on s (start t ∷ calls) = runs (if is_sensor s t then true else on) s calls
runs on s (stop t ∷ calls) = runs (if is_sensor s t then false else on) s calls

-- A bridge after its constructor.
abbrev pub fresh : Bridge
fresh = record {
  orientation_active = false;
  motion_active = false;
  has_rotation = false;
  has_accelerometer = false;
  has_linear = false;
  has_gyroscope = false;
}

-- What the page asks for, one change after the other: orientation, and motion.
unfoldable pub needs : Bool → Bridge → List (Bool × Bool) → Bridge × List Call
needs user_mode b [] = (b, [])
needs user_mode b ((o, m) ∷ rest) =
    let (b1, calls) = set_needed user_mode o m b in
    let (b2, more) = needs user_mode b1 rest in (b2, calls ++ more)

unfoldable pub last_need : Bool × Bool → List (Bool × Bool) → Bool × Bool
last_need need [] = need
last_need need (next ∷ rest) = last_need next rest

runs-append :
    (on : Bool) (s : Sensor) (cs ds : List Call) → runs on s (cs ++ ds) ≡ runs (runs on s cs) s ds
unfolding runs
runs-append on s [] ds = refl
runs-append on s (create t ∷ cs) ds = runs-append on s cs ds
runs-append on s (start t ∷ cs) ds = runs-append _ s cs ds
runs-append on s (stop t ∷ cs) ds = runs-append _ s cs ds

-- Whether a sensor should run, for a need.
abbrev pub should_run : Bool → Sensor → Bool × Bool → Bool
should_run user_mode rotation need = need.0
should_run user_mode accelerometer need = need.1
should_run user_mode linear need = need.1 && user_mode
should_run user_mode gyroscope need = need.1

-- The members of a bridge fit what the page needs.
record Fits (user_mode : Bool) (b : Bridge) (need : Bool × Bool) : Type 0 where
  orientation : b.orientation_active ≡ need.0
  motion : b.motion_active ≡ need.1
  rotation_made : (need.0 && not b.has_rotation) ≡ false
  motion_made : (need.1 && not b.has_accelerometer) ≡ false
  linear_made : b.has_linear ≡ (b.has_accelerometer && user_mode)
  gyroscope_made : b.has_gyroscope ≡ b.has_accelerometer

set_needed-Fits :
    (user_mode o m : Bool) (b : Bridge) (need : Bool × Bool)
    → Fits user_mode b need
    → Fits user_mode (set_needed user_mode o m b).0 (o, m)
unfolding set_needed set_orientation set_motion
set_needed-Fits user_mode o m b need fits = ground arith

set_needed-runs :
    (user_mode o m : Bool) (b : Bridge) (need : Bool × Bool) (s : Sensor)
    → Fits user_mode b need
    → runs (should_run user_mode s need) s (set_needed user_mode o m b).1
      ≡ should_run user_mode s (o, m)
unfolding set_needed set_orientation set_motion runs
set_needed-runs user_mode o m b need rotation fits = ground arith
set_needed-runs user_mode o m b need accelerometer fits = ground arith
set_needed-runs user_mode o m b need linear fits = ground arith
set_needed-runs user_mode o m b need gyroscope fits = ground arith

needs-runs :
    (user_mode : Bool) (b : Bridge) (need : Bool × Bool) (rest : List (Bool × Bool)) (s : Sensor)
    → Fits user_mode b need
    → runs (should_run user_mode s need) s (needs user_mode b rest).1
      ≡ should_run user_mode s (last_need need rest)
unfolding needs runs last_need
needs-runs user_mode b need [] s fits = refl
needs-runs user_mode b need ((o, m) ∷ rest) s fits =
    let b1 = (set_needed user_mode o m b).0 in
    runs-append (should_run user_mode s need) s (set_needed user_mode o m b).1
      (needs user_mode b1 rest).1
    ∙ (ap (λ on. runs on s (needs user_mode b1 rest).1)
          (set_needed-runs user_mode o m b need s fits)
        ∙ needs-runs user_mode b1 (o, m) rest s (set_needed-Fits user_mode o m b need fits))

-- After any changes of what a page listens to, a sensor is running if and only if the last one needs
-- it: rotation for orientation, the accelerometer and the gyroscope for motion, and the one without
-- gravity for motion where the device has that mode. Before the first change no sensor runs.
pub runs-needs :
    (user_mode : Bool) (changes : List (Bool × Bool)) (s : Sensor)
    → runs false s (needs user_mode fresh changes).1
      ≡ should_run user_mode s (last_need (false, false) changes)
runs-needs user_mode changes s =
    ap (λ on. runs on s (needs user_mode fresh changes).1) (off user_mode s)
    ∙ needs-runs user_mode fresh (false, false) changes s
        (record {
          orientation = refl;
          motion = refl;
          rotation_made = refl;
          motion_made = refl;
          linear_made = refl;
          gyroscope_made = refl;
        })
  where
    off : (user_mode : Bool) (s : Sensor) → false ≡ should_run user_mode s (false, false)
    off user_mode rotation = refl
    off user_mode accelerometer = refl
    off user_mode linear = refl
    off user_mode gyroscope = refl
