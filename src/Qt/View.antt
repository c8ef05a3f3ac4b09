-- ===== src/Qt/View.antt =====
-- The item of qt5-plugin/WPEQtView.cpp: its members, what it asks of WebKit, and how it makes the web
-- view. What Qt, EGL and WebKit answer is a parameter, `Setup`.
pub mod Settings
pub mod Buffering
pub mod OnScreen
pub mod Loading
pub mod Painting
pub mod Scripts
pub mod Forwarding
pub mod Sessions
pub mod Closing
pub mod Chrome
pub mod Window
mod Tests
use atlantic_engine.Base.{
  ℕ, Bool, true, false, not, ◌&&◌, ◌||◌, Option, none, some, List, [], ◌∷◌, ◌++◌, if◌then◌else◌,
  map, ◌==◌, Bytes, codes, streq, nonempty,
}
use atlantic_engine.Base.Int.{ℤ, pos, leb_ℤ}
use atlantic_engine.Qt.Frames.{is_some}
use atlantic_engine.Qt.Subsurface
use atlantic_engine.Qt.Subsurface.{Rect, Statics, Host, Surface, set_active_web_surface}
use atlantic_engine.Qt.Subsurface.Create.{ensure_created}
use atlantic_engine.Qt.Subsurface.Show.{set_geometry, set_visible}

-- A size in pixels. QSizeF::isValid is that neither side is negative.
pub record Size : Type 0 where
  pub width : ℤ
  pub height : ℤ

abbrev pub is_valid : Size → Bool
is_valid s = leb_ℤ (pos 0) s.width && leb_ℤ (pos 0) s.height

-- A scale in thousandths; scales are not negative.
abbrev pub scale_1 : ℕ
scale_1 = 1000

-- What the surroundings answer, and the switches that are read from the environment once.
pub record Setup : Type 0 where
  pub backend_made : Bool  -- WPEQtViewBackend::create
  pub direct : Bool  -- WPEWaylandSubsurface::enabled
  pub true_scale : Bool  -- WPEQtViewBackend::trueDeviceScaleEnabled
  pub overlay_test : Bool  -- WPEChromeOverlay::testEnabled
  pub host : Host
  pub window : Option ℕ
  pub scene_rect : Size → Rect  -- the item in the window, in device pixels
  pub content_surface : ℕ  -- the surface of this view's frames
  pub logical : ℤ → ℕ → ℤ  -- std::lround (side / scale)
  pub features : List Bytes  -- the identifiers that WebKit lists

-- The calls that reach WebKit and the rest of the browser, in order.
pub data Request : Type 0 where
  new_backend : Size → Request
  new_view : Bool → Request  -- g_object_new, with the ephemeral session or without
  load_uri : Bytes → Request
  load_html : Bytes → Bytes → Request
  set_user_agent : Bytes → Request
  set_zoom_level : ℕ → Request
  dispatch_scale : ℕ → Request
  dispatch_size : Size → Request
  activity : Bool → Request  -- visible and focused, added or removed
  enable_feature : Bytes → Request
  on_surface : Subsurface.Call → Request
  schedule_overlay update_window view_created : Request

pub record View : Type 0 where
  pub created : Bool  -- m_backend and m_webView
  pub size : Size
  pub backend_size : Size  -- the backend's m_size and m_deviceScaleFactor
  pub device_scale : ℕ
  pub url : Bytes
  pub html : Bytes
  pub base_url : Bytes
  pub visible : Bool
  pub private : Bool
  pub error : Bool
  pub pending_scale : ℕ
  pub pending_agent : Bytes
  pub subsurface : Option Surface
  pub statics : Statics
  pub overlay : Bool
  pub overlay_attempted : Bool

-- WPEQtViewBackend::resize
unfoldable pub backend_resize : Setup → Size → View → View × List Request
backend_resize e size v = if not (is_valid size) then (v, []) else (
  record v { backend_size = size },
  dispatch_size (record {
    width = e.logical size.width v.device_scale;
    height = e.logical size.height v.device_scale;
  })
      ∷ [],
)

-- WPEQtViewBackend::setDeviceScaleFactor
unfoldable pub backend_set_scale : Setup → ℕ → View → View × List Request
backend_set_scale e scale v =
    if (not e.true_scale || scale == 0) || scale == v.device_scale then (v, []) else (
      record v { device_scale = scale },
      dispatch_scale scale
          ∷ (if is_valid v.backend_size
              then dispatch_size (record {
                width = e.logical v.backend_size.width scale;
                height = e.logical v.backend_size.height scale;
              })
                ∷ []
              else []),
    )

abbrev surface_valid : Option Surface → Bool
surface_valid none = false
surface_valid (some s) = s.valid

-- `sceneGraphComposited`
unfoldable pub scene_graph_composited : View → Bool
scene_graph_composited v = not (surface_valid v.subsurface)

abbrev has_window : Setup → Bool
has_window e = is_some e.window

-- `maybeCreateChromeOverlay`
unfoldable pub maybe_create_chrome_overlay : Setup → View → View × List Request
maybe_create_chrome_overlay e v =
    if (v.overlay || v.overlay_attempted) || not e.overlay_test
    then (v, [])
    else if not (surface_valid v.subsurface) || not (has_window e)
    then (v, [])
    else (record v { overlay_attempted = true }, schedule_overlay ∷ [])

place_surface : Setup → Option Surface → View → View × List Request
place_surface e none v = (v, [])
place_surface e (some s) v =
    let (s1, calls) = set_geometry (e.scene_rect v.size) s in
    let (v1, overlay) = maybe_create_chrome_overlay e (record v { subsurface = some s1 }) in
    (v1, map on_surface calls ++ (overlay ++ update_window ∷ []))

-- `updateSubsurfaceGeometry`
unfoldable pub update_subsurface_geometry : Setup → View → View × List Request
unfolding place_surface
update_subsurface_geometry e v =
    if not (has_window e) then (v, []) else place_surface e v.subsurface v

-- The subsurface of `createWebView`. One that cannot be set up is deleted again.
unfoldable pub create_subsurface : Setup → View → View × List Request
create_subsurface e v =
    let (s, calls, ok) = ensure_created e.host v.statics e.window Subsurface.fresh in
    let (v1, placed) = update_subsurface_geometry e (record v { subsurface = some s }) in
    let (v2, overlay) = maybe_create_chrome_overlay e v1 in
    if not e.direct || is_some v.subsurface
    then (v, [])
    else if ok
    then (v2, map on_surface calls ++ (placed ++ overlay))
    else (v, map on_surface (calls ++ (Subsurface.destroy s).1))

-- The scale that was asked for before there was a view.
unfoldable pub apply_scale : Setup → View → View × List Request
apply_scale e v =
    if v.pending_scale == scale_1
    then (v, [])
    else if e.true_scale
    then backend_set_scale e v.pending_scale v
    else (v, set_zoom_level v.pending_scale ∷ [])

-- The user agent and the content that were asked for before there was a view.
unfoldable pub apply_agent : View → List Request
apply_agent v = if nonempty v.pending_agent then set_user_agent v.pending_agent ∷ [] else []

unfoldable pub apply_content : View → List Request
apply_content v =
    if nonempty v.url
    then load_uri v.url ∷ []
    else if nonempty v.html
    then load_html v.html v.base_url ∷ []
    else []

-- The features that WebKit has and leaves off.
abbrev pub wanted_features : List Bytes
wanted_features =
    codes "HiddenPageDOMTimerThrottling"
    ∷ codes "HiddenPageCSSAnimationSuspension"
    ∷ codes "PeerConnection"
    ∷ codes "MediaDevices"
    ∷ codes "InputTypeDate"
    ∷ codes "InputTypeDateTimeLocal"
    ∷ codes "InputTypeMonth"
    ∷ codes "InputTypeWeek"
    ∷ codes "InputTypeTime"
    ∷ codes "InputTypeColor"
    ∷ []

abbrev is_wanted : List Bytes → Bytes → Bool
is_wanted [] x = false
is_wanted (w ∷ ws) x = streq x w || is_wanted ws x

unfoldable pub enable_features : List Bytes → List Request
enable_features [] = []
enable_features (x ∷ xs) =
    let rest = enable_features xs in
    if is_wanted wanted_features x then enable_feature x ∷ rest else rest

show_surface : Setup → Option Surface → View → View × List Request
show_surface e none v = (v, [])
show_surface e (some s) v =
    let (s1, calls) = set_visible v.visible s in
    (
      record v {
        subsurface = some s1;
        statics =
            if v.visible
            then set_active_web_surface (some e.content_surface) v.statics
            else v.statics;
      },
      map on_surface calls,
    )

-- `applyWebKitVisibility`
unfoldable pub apply_visibility : Setup → View → View × List Request
unfolding show_surface
apply_visibility e v =
    if not v.created
    then (v, [])
    else let (v1, calls) = show_surface e v.subsurface v in (v1, activity v.visible ∷ calls)

-- `createWebView`, for an item in a window: without one the code asks a null window for its OpenGL
-- context, which is in Qt/View/Window. Where the backend cannot be made, the code stops the program.
unfoldable pub create_web_view : Setup → View → View × List Request
create_web_view e v =
    let (v1, surface_calls) =
      create_subsurface e
        (record v { created = true; backend_size = v.size; device_scale = scale_1 }) in
    let (v2, scale_calls) = apply_scale e v1 in
    let (v3, visibility_calls) = apply_visibility e v2 in
    if v.created || not e.backend_made then (v, []) else (
      v3,
      new_backend v.size ∷ surface_calls
          ++ (new_view v.private
              ∷ (scale_calls
                  ++ (apply_agent v
                      ++ (apply_content v
                          ++ (enable_features e.features
                              ++ (visibility_calls ++ view_created ∷ [])))))),
    )
