-- ===== src/Qt/Subsurface.antt =====
-- qt5-plugin/WPEWaylandSubsurface.cpp: the surface that shows the frames of one tab without the Qt
-- scene. The answers of Qt, Wayland and EGL are a parameter, `Host`.
pub mod Create
pub mod Show
pub mod Position
pub mod Handles
use atlantic_engine.Base.{
  ℕ, Bool, false, not, ◌&&◌, Option, none, List, [], ◌∷◌, ◌++◌, if◌then◌else◌, Bytes, codes,
}
use atlantic_engine.Base.Int.{ℤ, pos, ltb_ℤ, ◌==ℤ◌}
use atlantic_engine.Qt.Env.{env_on}
use atlantic_engine.Qt.Frames.{is_some}

-- QRect, in device pixels.
pub record Rect : Type 0 where
  pub x : ℤ
  pub y : ℤ
  pub width : ℤ
  pub height : ℤ

abbrev pub is_positive : ℤ → Bool
is_positive n = ltb_ℤ (pos 0) n

abbrev pub same_rect : Rect → Rect → Bool
same_rect a b = (a.x ==ℤ b.x && a.y ==ℤ b.y) && (a.width ==ℤ b.width && a.height ==ℤ b.height)

-- `enabled`
abbrev pub enabled : (Bytes → Option Bytes) → Bool
enabled getenv = env_on (getenv (codes "ATLANTIC_DIRECT_COMPOSITE"))

-- The static pointers of the file. A window or a surface is a number.
pub record Statics : Type 0 where
  pub shell_window : Option ℕ
  pub chrome_surface : Option ℕ
  pub web_surface : Option ℕ

abbrev pub set_shell_window : Option ℕ → Statics → Statics
set_shell_window shell g = record g { shell_window = shell }

abbrev pub set_chrome_surface : Option ℕ → Statics → Statics
set_chrome_surface surface g = record g { chrome_surface = surface }

abbrev pub set_active_web_surface : Option ℕ → Statics → Statics
set_active_web_surface surface g = record g { web_surface = surface }

-- What the component creates and destroys.
pub data Handle : Type 0 where
  queue registry compositor subcompositor surface subsurface region : Handle
  context egl_window egl_surface shader program texture : Handle

-- The calls to Wayland, EGL and OpenGL, in order.
pub data Call : Type 0 where
  make : Handle → Call
  drop : Handle → Call
  set_position : ℤ → ℤ → Call  -- wl_subsurface_set_position
  place_below : ℕ → Call
  set_desync commit_parent flush swap_buffers : Call
  resize : ℤ → ℤ → Call  -- wl_egl_window_resize
  viewport : ℤ → ℤ → Call
  bind : ℕ → Call
  draw : Bool → Call  -- the strip, with the image flipped or not

-- The answers to the calls. A flag is true where the call succeeds.
pub record Host : Type 0 where
  pub native_interface : Bool
  pub display : Bool  -- the resource "display"
  pub wl_display : Bool  -- the resource "wl_display"
  pub surface_of : ℕ → Option ℕ  -- the surface of a window
  pub queue_made : Bool
  pub globals : List Bytes  -- the interfaces that the registry announces
  pub surface_made : Bool
  pub subsurface_made : Bool
  pub region_made : Bool
  pub egl_display_found : Bool
  pub config_chosen : Bool
  pub context_made : Bool
  pub egl_window_made : Bool
  pub egl_surface_made : Bool
  pub made_current : Bool
  pub image_target_found : Bool  -- glEGLImageTargetTexture2DOES

-- The members. A handle is true where the pointer is not null.
pub record Surface : Type 0 where
  pub valid : Bool
  pub attempted : Bool
  pub hidden : Bool
  pub geometry : Rect
  pub applied : Rect
  pub display : Bool
  pub parent : Option ℕ
  pub has_compositor : Bool
  pub has_subcompositor : Bool
  pub has_surface : Bool
  pub has_subsurface : Bool
  pub egl_display : Bool
  pub has_context : Bool
  pub has_egl_window : Bool
  pub has_egl_surface : Bool
  pub has_program : Bool
  pub has_texture : Bool

abbrev pub make_if : Bool → Handle → List Call
make_if b h = if b then make h ∷ [] else []

abbrev pub drop_if : Bool → Handle → List Call
drop_if b h = if b then drop h ∷ [] else []

-- `destroy`
unfoldable pub destroy : Surface → Surface × List Call
destroy s = (
  record s {
    has_texture = false;
    has_program = false;
    has_egl_surface = false;
    has_context = false;
    has_egl_window = false;
    has_subsurface = false;
    has_surface = false;
    has_subcompositor = false;
    has_compositor = false;
    valid = false;
  },
  drop_if (s.egl_display && s.has_texture) texture
      ++ (drop_if (s.egl_display && s.has_program) program
          ++ (drop_if (s.egl_display && s.has_egl_surface) egl_surface
              ++ (drop_if (s.egl_display && s.has_context) context
                  ++ (drop_if s.has_egl_window egl_window
                      ++ (drop_if s.has_subsurface subsurface
                          ++ (drop_if s.has_surface surface
                              ++ (drop_if s.has_subcompositor subcompositor
                                  ++ drop_if s.has_compositor compositor))))))),
)

-- `commitParent`
unfoldable pub commit : Surface → List Call
commit s =
    if not (is_some s.parent)
    then []
    else if s.display
    then commit_parent ∷ flush ∷ []
    else commit_parent ∷ []

-- A surface after its constructor.
abbrev pub fresh : Surface
fresh = record {
  valid = false;
  attempted = false;
  hidden = false;
  geometry = record { x = pos 0; y = pos 0; width = pos 0; height = pos 0 };
  applied = record { x = pos 0; y = pos 0; width = pos 0; height = pos 0 };
  display = false;
  parent = none;
  has_compositor = false;
  has_subcompositor = false;
  has_surface = false;
  has_subsurface = false;
  egl_display = false;
  has_context = false;
  has_egl_window = false;
  has_egl_surface = false;
  has_program = false;
  has_texture = false;
}
