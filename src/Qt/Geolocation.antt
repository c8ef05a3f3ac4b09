-- ===== src/Qt/Geolocation.antt =====
-- qt5-plugin/WPEGeolocationBridge.cpp: positions of the device, for the pages of a context. A number
-- of degrees or metres is a whole number of units, `unit` of them to a metre, in place of a double.
pub mod Updates
mod Tests
use atlantic_engine.Base.{
  ℕ, ◌*◌, Bool, true, false, not, ◌&&◌, ◌||◌, Option, none, some, List, [], ◌∷◌, ◌++◌,
  if◌then◌else◌, ◌==◌,
}
use atlantic_engine.Base.Int.{ℤ, pos}

-- QGeoPositionInfo with its QGeoCoordinate. An attribute that is not there is `none`.
pub record Info : Type 0 where
  pub valid : Bool  -- QGeoPositionInfo::isValid
  pub coordinate_valid : Bool
  pub latitude : ℤ
  pub longitude : ℤ
  pub altitude : ℤ
  pub is_3d : Bool  -- QGeoCoordinate::Coordinate3D
  pub horizontal_accuracy : Option ℤ
  pub vertical_accuracy : Option ℤ
  pub ground_speed : Option ℤ
  pub direction : Option ℤ
  pub timestamp : Option ℕ

-- WebKitGeolocationPosition
pub record Position : Type 0 where
  pub latitude : ℤ
  pub longitude : ℤ
  pub accuracy : ℤ
  pub timestamp : Option ℕ
  pub altitude : Option ℤ
  pub altitude_accuracy : Option ℤ
  pub speed : Option ℤ
  pub heading : Option ℤ

-- The calls to the position source of Qt, and to the manager of WebKit.
pub data Call : Type 0 where
  create_source connect_signals start_updates stop_updates : Call
  set_method : Bool → Call  -- AllPositioningMethods, or NonSatellitePositioningMethods
  failed : Call
  update_position : Position → Call

abbrev pub or_value : Option ℤ → ℤ → ℤ
or_value none d = d
or_value (some v) d = v

module _ (unit : ℕ) where
  -- `handlePositionUpdated`
  unfoldable pub handle_position_updated : Info → List Call
  handle_position_updated info =
      if not info.coordinate_valid
      then []
      else update_position (record {
        latitude = info.latitude;
        longitude = info.longitude;
        accuracy = or_value info.horizontal_accuracy (pos (1000 * unit));
        timestamp = info.timestamp;
        altitude = if info.is_3d then some info.altitude else none;
        altitude_accuracy = if info.is_3d then info.vertical_accuracy else none;
        speed = info.ground_speed;
        heading = info.direction;
      })
        ∷ []

  -- `start`: whether m_source is there, whether Qt has a source, whether the manager wants high
  -- accuracy, and the last known position.
  unfoldable pub start : Bool → Bool → Info → Bool → Bool × List Call
  start available high_accuracy last_known has_source =
      let seed = if last_known.valid then handle_position_updated last_known else [] in
      if not has_source && not available then (false, failed ∷ []) else (
        true,
        (if has_source then [] else create_source ∷ connect_signals ∷ [])
            ++ (set_method high_accuracy ∷ start_updates ∷ seed),
      )

-- `stop`
unfoldable pub stop : Bool → List Call
stop has_source = if has_source then stop_updates ∷ [] else []

-- The error of a source that is connected.
abbrev pub source_error : List Call
source_error = failed ∷ []

-- `ensure`: the contexts that have a bridge, and whether a new one is made. A null context is `none`.
abbrev contains : ℕ → List ℕ → Bool
contains c [] = false
contains c (d ∷ ds) = c == d || contains c ds

unfoldable pub ensure : Option ℕ → List ℕ → List ℕ × Bool
ensure none bridged = (bridged, false)
ensure (some context) bridged =
    if contains context bridged then (bridged, false) else (context ∷ bridged, true)
