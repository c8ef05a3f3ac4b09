-- ===== src/Qt/Touch.antt =====
-- WPEQtViewBackend::dispatchTouchEvent of qt5-plugin: one Qt event with many points becomes a series
-- of libwpe events that each announce one change.

pub mod Replay
mod Tests
use atlantic_engine.Base.{
  ℕ, Bool, true, false, not, ◌&&◌, ◌||◌, Option, none, some, List, [], ◌∷◌, ◌++◌, ◌==◌,
  if◌then◌else◌,
}
use atlantic_engine.Base.Int.{ℤ}

pub data PointState : Type 0 where
  pressed moved stationary released : PointState

-- A QTouchEvent::TouchPoint. An id is not negative, and `C` is the type of coordinates in pixels.
pub record Point (C : Type 0) : Type 0 where
  pub id : ℕ
  pub state : PointState
  pub x : C
  pub y : C

-- QEvent::TouchBegin, TouchUpdate, TouchEnd and TouchCancel.
pub data Kind : Type 0 where
  begin update end cancel : Kind

-- wpe_input_touch_event_type
pub data Change : Type 0 where
  down up motion : Change

-- wpe_input_touch_event_raw and wpe_input_touch_event
pub record Raw : Type 0 where
  pub type : Change
  pub time : ℕ
  pub id : ℕ
  pub x : ℤ
  pub y : ℤ

pub record Touch : Type 0 where
  pub touchpoints : List Raw
  pub type : Change
  pub id : ℕ
  pub time : ℕ
  pub modifiers : ℕ

-- QSet<int>
abbrev pub contains : ℕ → List ℕ → Bool
contains id [] = false
contains id (j ∷ ids) = id == j || contains id ids

abbrev pub remove : ℕ → List ℕ → List ℕ
remove id [] = []
remove id (j ∷ ids) = let rest = remove id ids in if id == j then rest else j ∷ rest

abbrev pub is_pressed : PointState → Bool
is_pressed pressed = true
is_pressed _ = false

abbrev pub is_moved : PointState → Bool
is_moved moved = true
is_moved _ = false

abbrev pub is_released : PointState → Bool
is_released released = true
is_released _ = false

-- `event->type () == QEvent::TouchEnd`
abbrev pub is_end : Kind → Bool
is_end end = true
is_end _ = false

-- The set at the start of an event: TouchBegin clears it.
abbrev pub announced_at : Kind → List ℕ → List ℕ
announced_at begin announced = []
announced_at _ announced = announced

-- `toLogical`, and the time and modifiers of the event.
module _ {C : Type 0} (to_logical : C → ℤ) (time modifiers : ℕ) where
  -- The loop of `dispatchOne`, over the announced points.
  raw_points : List (Point C) → List ℕ → Change → ℕ → List Raw
  raw_points [] announced type main = []
  raw_points (p ∷ ps) announced type main =
      let rest = raw_points ps announced type main in
      if contains p.id announced
      then record {
        type = if p.id == main then type else motion;
        time = time;
        id = p.id;
        x = to_logical p.x;
        y = to_logical p.y;
      }
        ∷ rest
      else rest

  -- `if (count)`
  emit : List Raw → Change → ℕ → List Touch
  emit [] type main = []
  emit (r ∷ rs) type main =
      record { touchpoints = r ∷ rs; type = type; id = main; time = time; modifiers = modifiers }
      ∷ []

  -- `dispatchOne`
  dispatch_one : List (Point C) → List ℕ → Change → ℕ → List Touch
  dispatch_one points announced type main = emit (raw_points points announced type main) type main

  -- The loop over the pressed points. It goes over `rest`; an event carries all of `points`.
  press : List (Point C) → List (Point C) → List ℕ → List ℕ × List Touch
  press points [] announced = (announced, [])
  press points (p ∷ rest) announced =
      if is_pressed p.state && not (contains p.id announced)
      then (
        (press points rest (p.id ∷ announced)).0,
        dispatch_one points (p.id ∷ announced) down p.id
            ++ (press points rest (p.id ∷ announced)).1,
      )
      else press points rest announced

  -- The search for `movedId`.
  find_moved : List (Point C) → List ℕ → Option ℕ
  find_moved [] announced = none
  find_moved (p ∷ rest) announced =
      let found = find_moved rest announced in
      if is_moved p.state && contains p.id announced then some p.id else found

  move : List (Point C) → List ℕ → Option ℕ → List Touch
  move points announced none = []
  move points announced (some id) = dispatch_one points announced motion id

  -- The loops that end points: those that are released, or all of them.
  lift : Bool → List (Point C) → List (Point C) → List ℕ → List ℕ × List Touch
  lift all points [] announced = (announced, [])
  lift all points (p ∷ rest) announced =
      if (is_released p.state || all) && contains p.id announced
      then (
        (lift all points rest (remove p.id announced)).0,
        dispatch_one points announced up p.id ++ (lift all points rest (remove p.id announced)).1,
      )
      else lift all points rest announced

  -- The three loops of an event that is no TouchCancel.
  change : Bool → List (Point C) → List ℕ → List ℕ × List Touch
  change all points announced =
      let (s1, begun) = press points points announced in
      let motions = move points s1 (find_moved points s1) in
      let (s2, lifted) = lift all points points s1 in (s2, begun ++ (motions ++ lifted))

  -- The set of announced points after the event, and the events that are dispatched.
  pub dispatch_touch_event : Kind → List (Point C) → List ℕ → List ℕ × List Touch
  dispatch_touch_event kind [] announced = (announced, [])
  dispatch_touch_event cancel (p ∷ ps) announced = ([], (lift true (p ∷ ps) (p ∷ ps) announced).1)
  dispatch_touch_event kind (p ∷ ps) announced =
      change (is_end kind) (p ∷ ps) (announced_at kind announced)
