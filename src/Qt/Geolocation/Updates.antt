-- ===== src/Qt/Geolocation/Updates.antt =====
-- Any order of events at the bridge of qt5-plugin/WPEGeolocationBridge.cpp, and what is expected of it.
pub mod Served
use atlantic_engine.Base.{
  ℕ, ◌+◌, ◌*◌, or_else, some, none, ◌≡◌, refl, sym, ap, ◌∙◌, Bool, true, false, not, ◌&&◌, ◌||◌,
  Option, List, [], ◌∷◌, ◌++◌, if◌then◌else◌, arith,
}
use atlantic_engine.Base.Int.{pos}
use atlantic_engine.Qt.Geolocation.{
  Info, Position, Call, create_source, connect_signals, start_updates, stop_updates, set_method,
  failed, update_position, handle_position_updated, start, stop, source_error,
}

-- What happens to a bridge: the two signals of the manager, and the two of a source. A start comes
-- with whether Qt has a source, the accuracy that is asked for, and the last known position.
pub data Event : Type 0 where
  starts : Bool → Bool → Info → Event
  stops : Event
  updated : Info → Event
  errs : Event

module _ (unit : ℕ) where
  -- A source that is not there sends no signal.
  unfoldable pub react : Bool → Event → Bool × List Call
  react has_source (starts available high_accuracy last_known) =
      start unit available high_accuracy last_known has_source
  react has_source stops = (has_source, stop has_source)
  react has_source (updated info) =
      (has_source, if has_source then handle_position_updated unit info else [])
  react has_source errs = (has_source, if has_source then source_error else [])

  unfoldable pub react_all : Bool → List Event → Bool × List Call
  react_all has_source [] = (has_source, [])
  react_all has_source (e ∷ es) =
      let (has1, calls) = react has_source e in
      let (has2, more) = react_all has1 es in (has2, calls ++ more)

-- Whether updates were last started or stopped.
unfoldable pub running : Bool → List Call → Bool
running on [] = on
running on (start_updates ∷ calls) = running true calls
running on (stop_updates ∷ calls) = running false calls
running on (_ ∷ calls) = running on calls

-- A sum over the calls. A weight of 1 for one kind of call counts that kind.
unfoldable pub total : (Call → ℕ) → List Call → ℕ
total k [] = 0
total k (c ∷ calls) = k c + total k calls

abbrev pub of_source : Call → ℕ
of_source create_source = 1
of_source _ = 0

-- The positions that WebKit is told.
unfoldable pub told : List Call → List Position
told [] = []
told (update_position p ∷ calls) = p ∷ told calls
told (_ ∷ calls) = told calls

-- The position is that of the fix: its place and time, its accuracy, or a kilometre if the fix has none,
-- its height and the accuracy of that if the fix is of three dimensions, and its speed and direction.
pub record IsOf (unit : ℕ) (info : Info) (p : Position) : Type 0 where
  pub place : (p.latitude ≡ info.latitude) × (p.longitude ≡ info.longitude)
  pub time : p.timestamp ≡ info.timestamp
  pub accuracy : some p.accuracy ≡ or_else info.horizontal_accuracy (some (pos (1000 * unit)))
  pub height : p.altitude ≡ (if info.is_3d then some info.altitude else none)
  pub height_accuracy : p.altitude_accuracy ≡ (if info.is_3d then info.vertical_accuracy else none)
  pub motion : (p.speed ≡ info.ground_speed) × (p.heading ≡ info.direction)

-- Each position is that of the fix in the same place, and there are as many.
unfoldable pub AreOf : ℕ → List Info → List Position → Type 0
AreOf unit [] [] = Unit
AreOf unit (info ∷ infos) (p ∷ ps) = IsOf unit info p × AreOf unit infos ps
AreOf unit _ _ = ⊥

abbrev pub of_failure : Call → ℕ
of_failure failed = 1
of_failure _ = 0

-- What is expected of a series of events: a source from the first start at which Qt has one, updates
-- wanted while the last signal of the manager is a start, the fixes that have a coordinate, a failure for each start without a source and for each error of the source.
unfoldable pub has_source_after : Bool → List Event → Bool
has_source_after had [] = had
has_source_after had (starts available high_accuracy last_known ∷ es) =
    has_source_after (had || available) es
has_source_after had (_ ∷ es) = has_source_after had es

unfoldable pub wanted : Bool → List Event → Bool
wanted on [] = on
wanted on (starts available high_accuracy last_known ∷ es) = wanted true es
wanted on (stops ∷ es) = wanted false es
wanted on (_ ∷ es) = wanted on es

abbrev pub one_if : Bool → ℕ
one_if b = if b then 1 else 0

-- The fixes that WebKit should hear of.
unfoldable pub fixes : Bool → List Event → List Info
fixes had [] = []
fixes had (starts available high_accuracy last_known ∷ es) =
    let rest = fixes (had || available) es in
    if (had || available) && (last_known.valid && last_known.coordinate_valid)
    then last_known ∷ rest
    else rest
fixes had (updated info ∷ es) =
    let rest = fixes had es in if had && info.coordinate_valid then info ∷ rest else rest
fixes had (_ ∷ es) = fixes had es

unfoldable pub troubles : Bool → List Event → ℕ
troubles had [] = 0
troubles had (starts available high_accuracy last_known ∷ es) =
    one_if (not (had || available)) + troubles (had || available) es
troubles had (errs ∷ es) = one_if had + troubles had es
troubles had (_ ∷ es) = troubles had es
