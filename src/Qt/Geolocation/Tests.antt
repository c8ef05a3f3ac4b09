-- ===== src/Qt/Geolocation/Tests.antt =====
-- The theorem on positions at a session without a source at first.
use atlantic_engine.Base.{◌≡◌, true, false, none, some, List, [], ◌∷◌, ◌&&◌}
use atlantic_engine.Base.Int.{pos}
use atlantic_engine.Qt.Geolocation.{Info}
use atlantic_engine.Qt.Geolocation.Updates.{
  Event, starts, stops, updated, errs, react_all, running, total, of_source, told, AreOf,
  of_failure, has_source_after, wanted, one_if, fixes, troubles,
}
use atlantic_engine.Qt.Geolocation.Updates.Served.{react_all_lem}

abbrev fix : Info
fix = record {
  valid = true;
  coordinate_valid = true;
  latitude = pos 60170;
  longitude = pos 24940;
  altitude = pos 12;
  is_3d = true;
  horizontal_accuracy = some (pos 8);
  vertical_accuracy = none;
  ground_speed = none;
  direction = none;
  timestamp = some 1700000000;
}

abbrev no_fix : Info
no_fix = record fix { valid = false; coordinate_valid = false }

abbrev session : List Event
session =
    starts false true no_fix
    ∷ starts true true fix
    ∷ updated fix
    ∷ updated no_fix
    ∷ errs
    ∷ stops
    ∷ starts true false fix
    ∷ []

react_all_example :
    let calls = (react_all 1000 false session).1 in
    (total of_source calls ≡ one_if (has_source_after false session))
    × (running false calls ≡ (wanted false session && has_source_after false session))
    × AreOf 1000 (fixes false session) (told calls)
    × (total of_failure calls ≡ troubles false session)
react_all_example = react_all_lem 1000 session
