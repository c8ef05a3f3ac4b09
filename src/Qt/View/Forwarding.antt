-- ===== src/Qt/View/Forwarding.antt =====
-- The events of the item of qt5-plugin/WPEQtView.cpp, on their way to the view backend.
pub mod Held
pub mod Reported
mod Tests
use atlantic_engine.Base.{
  ℕ, Bool, true, false, Option, none, some, List, [], ◌∷◌, if◌then◌else◌, map,
}
use atlantic_engine.Base.Int.{ℤ}
use atlantic_engine.Qt.Input.{
  Button, Pointer, PointerEvent, hover_enter, hover_leave, hover_move, mouse_press, mouse_release,
  AxisEvent, dispatch_wheel_event,
}
use atlantic_engine.Qt.Input.Keys.{Key, KeyModifiers, KeyEvent, QtKey, dispatch_key_event}
use atlantic_engine.Qt.Touch.{Point, Kind, Touch, dispatch_touch_event}

-- What the backend asks of Qt and libwpe; `C` is the type of coordinates in pixels.
pub record Toolkit (C : Type 0) : Type 0 where
  pub to_logical : C → ℤ
  pub eighth : ℤ → ℤ
  pub equals : ℤ → C → Bool
  pub mask : Bool → Bool → ℕ  -- the bits of libwpe for the two buttons
  pub of_application : KeyModifiers
  pub of_libwpe : Key → Bool → ℕ

-- The events of the item, with their times and positions.
pub data ItemEvent (C : Type 0) : Type 0 where
  presses : Button → ℕ → C → C → ItemEvent C
  releases : Button → ℕ → C → C → ItemEvent C
  enters leaves : ItemEvent C
  hovers : ℕ → C → C → ItemEvent C
  wheels : ℤ → ℤ → C → C → ItemEvent C
  key_goes : QtKey → Bool → ItemEvent C  -- down, or up
  touches : ℕ → Kind → List (Point C) → ItemEvent C

-- The members of the backend that keep track of its input.
pub record Inputs : Type 0 where
  pub pointer : Pointer
  pub announced : List ℕ

-- What reaches the item's focus and the web process.
pub data Dispatch : Type 0 where
  force_active_focus : Dispatch
  pointer_event : PointerEvent → Dispatch
  axis_event : AxisEvent → Dispatch
  key_event : KeyEvent → Dispatch
  touch_event : Touch → Dispatch

module _ {C : Type 0} (t : Toolkit C) where
  -- `modifiers`; m_keyboardModifiers is never set.
  unfoldable pub modifiers : Pointer → ℕ
  modifiers p = t.mask p.button1 p.button2

  -- The handler of the backend for each event.
  unfoldable pub deliver : ItemEvent C → Inputs → Inputs × List Dispatch
  deliver (presses b time x y) i =
      let (p, e) = mouse_press b time (t.to_logical x) (t.to_logical y) i.pointer in
      (record i { pointer = p }, pointer_event e ∷ [])
  deliver (releases b time x y) i =
      let (p, e) = mouse_release b time (t.to_logical x) (t.to_logical y) i.pointer in
      (record i { pointer = p }, pointer_event e ∷ [])
  deliver enters i = (record i { pointer = hover_enter (i.pointer) }, [])
  deliver leaves i = (record i { pointer = hover_leave (i.pointer) }, [])
  deliver (hovers time x y) i =
      (i, map pointer_event (hover_move time (t.to_logical x) (t.to_logical y) i.pointer))
  deliver (wheels dx dy x y) i =
      (i, axis_event (dispatch_wheel_event t.to_logical t.eighth t.equals dx dy x y) ∷ [])
  deliver (key_goes key pressed) i =
      (i, key_event (dispatch_key_event t.of_application t.of_libwpe key pressed) ∷ [])
  deliver (touches time kind points) i =
      let (announced, sent) =
        dispatch_touch_event t.to_logical time (modifiers i.pointer) kind points i.announced in
      (record i { announced = announced }, map touch_event sent)

  -- The event handlers of the item, with or without m_backend. A press of the mouse takes the focus.
  unfoldable pub forward : ItemEvent C → Option Inputs → Option Inputs × List Dispatch
  forward (presses b time x y) none = (none, force_active_focus ∷ [])
  forward (presses b time x y) (some i) =
      let (i1, sent) = deliver (presses b time x y) i in (some i1, force_active_focus ∷ sent)
  forward e none = (none, [])
  forward e (some i) = let (i1, sent) = deliver e i in (some i1, sent)
