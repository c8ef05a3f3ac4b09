-- ===== src/Qt/Touch/Tests.antt =====
-- The theorems on touch events at two fingers.
use atlantic_engine.Base.{◌≡◌, refl, some, List, [], ◌∷◌}
use atlantic_engine.Base.Int.{ℤ, pos}
use atlantic_engine.Qt.Touch.{Point, pressed, moved, released, begin, cancel, dispatch_touch_event}
use atlantic_engine.Qt.Touch.Replay.{replay, dispatch_touch_event-replay}
use atlantic_engine.Qt.Touch.Replay.Release.{dispatch_touch_event_last}

abbrev two_down : List (Point ℤ)
two_down =
    record { id = 4; state = pressed; x = pos 10; y = pos 20 }
    ∷ record { id = 5; state = pressed; x = pos 30; y = pos 20 }
    ∷ []

abbrev one_moves : List (Point ℤ)
one_moves =
    record { id = 4; state = moved; x = pos 11; y = pos 22 }
    ∷ record { id = 5; state = released; x = pos 30; y = pos 20 }
    ∷ []

dispatch_touch_event-replay_example :
    let r = dispatch_touch_event (λ (v : ℤ). v) 100 0 begin two_down [] in replay [] r.1 ≡ some r.0
dispatch_touch_event-replay_example =
    dispatch_touch_event-replay (λ (v : ℤ). v) 100 0 begin two_down [] refl

dispatch_touch_event_last_example :
    let r = dispatch_touch_event (λ (v : ℤ). v) 200 0 cancel one_moves (5 ∷ 4 ∷ []) in
    (r.0 ≡ []) × (replay (5 ∷ 4 ∷ []) r.1 ≡ some [])
dispatch_touch_event_last_example =
    dispatch_touch_event_last (λ (v : ℤ). v) 200 0 cancel one_moves (5 ∷ 4 ∷ []) tt
      (refl, (refl, tt))
