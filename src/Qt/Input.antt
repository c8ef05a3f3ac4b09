-- ===== src/Qt/Input.antt =====
-- The pointer and the wheel of qt5-plugin/WPEQtViewBackend.cpp.
pub mod Keys
pub mod Keysym
mod Tests
use atlantic_engine.Base.{ℕ, Bool, true, false, not, ◌&&◌, ◌||◌, List, [], ◌∷◌, if◌then◌else◌, ◌==◌}
use atlantic_engine.Base.Int.{ℤ, pos}

-- Qt::LeftButton, Qt::RightButton, and the buttons that the code does not name.
pub data Button : Type 0 where
  left right other : Button

-- The members. The pointer modifiers are two bits of a mask.
pub record Pointer : Type 0 where
  pub hovering : Bool
  pub button1 : Bool  -- wpe_input_pointer_modifier_button1 in m_mouseModifiers
  pub button2 : Bool
  pub pressed_button : ℕ

-- wpe_input_pointer_event, with the mask as its two bits.
pub record PointerEvent : Type 0 where
  pub is_motion : Bool
  pub time : ℕ
  pub x : ℤ
  pub y : ℤ
  pub button : ℕ
  pub state : ℕ
  pub modifier1 : Bool
  pub modifier2 : Bool

-- The number of a button in libwpe, and the bits that it sets.
abbrev pub number_of : Button → ℕ
number_of left = 1
number_of right = 2
number_of other = 0

abbrev pub is_left : Button → Bool
is_left left = true
is_left _ = false

abbrev pub is_right : Button → Bool
is_right right = true
is_right _ = false

-- `dispatchHoverEnterEvent` and `dispatchHoverLeaveEvent`
unfoldable pub hover_enter : Pointer → Pointer
hover_enter p = record p { hovering = true; button1 = false; button2 = false }

unfoldable pub hover_leave : Pointer → Pointer
hover_leave p = record p { hovering = false }

-- `dispatchHoverMoveEvent`, for a time and a position in logical units.
unfoldable pub hover_move : ℕ → ℤ → ℤ → Pointer → List PointerEvent
hover_move time x y p =
    if not p.hovering
    then []
    else record {
      is_motion = true;
      time = time;
      x = x;
      y = y;
      button = p.pressed_button;
      state = if p.pressed_button == 0 then 0 else 1;
      modifier1 = p.button1;
      modifier2 = p.button2;
    }
      ∷ []

-- `dispatchMousePressEvent`
unfoldable pub mouse_press : Button → ℕ → ℤ → ℤ → Pointer → Pointer × PointerEvent
mouse_press b time x y p =
    let p1 = record p {
      pressed_button = number_of b;
      button1 = p.button1 || is_left b;
      button2 = p.button2 || is_right b;
    } in
    (
      p1,
      record {
        is_motion = false;
        time = time;
        x = x;
        y = y;
        button = number_of b;
        state = 1;
        modifier1 = p1.button1;
        modifier2 = p1.button2;
      },
    )

-- `dispatchMouseReleaseEvent`
unfoldable pub mouse_release : Button → ℕ → ℤ → ℤ → Pointer → Pointer × PointerEvent
mouse_release b time x y p =
    let p1 = record p {
      pressed_button = 0;
      button1 = p.button1 && not (is_left b);
      button2 = p.button2 && not (is_right b);
    } in
    (
      p1,
      record {
        is_motion = false;
        time = time;
        x = x;
        y = y;
        button = number_of b;
        state = 0;
        modifier1 = p1.button1;
        modifier2 = p1.button2;
      },
    )

-- wpe_input_axis_2d_event
pub record AxisEvent : Type 0 where
  pub x_axis : ℤ
  pub y_axis : ℤ
  pub x : ℤ
  pub y : ℤ

-- `dispatchWheelEvent`. A turn is in eighths of a degree, QPoint's division by 8 is `eighth`, and
-- `equals` compares a turn with a position.
module _ {C : Type 0} (to_logical : C → ℤ) (eighth : ℤ → ℤ) (equals : ℤ → C → Bool) where
  unfoldable pub dispatch_wheel_event : ℤ → ℤ → C → C → AxisEvent
  dispatch_wheel_event delta_x delta_y x y = record {
    x_axis = if equals delta_y y then eighth delta_x else pos 0;
    y_axis = if equals delta_y y then pos 0 else eighth delta_y;
    x = to_logical x;
    y = to_logical y;
  }
