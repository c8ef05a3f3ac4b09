-- ===== src/Qt/View/Chrome.antt =====
-- A view of qt5-plugin/WPEQtView.cpp with the chrome overlay that it makes above its surface, in the
-- test mode of the overlay. What the window system answers is a parameter, `Platform`.
pub mod Balanced
pub mod Settled
pub mod Outlived
mod Tests
use atlantic_engine.Base.{
  ℕ, Bool, true, false, not, ◌&&◌, ◌||◌, ◌+◌, ◌-◌, ◌==◌, Option, none, some, List, [], ◌∷◌, ◌++◌,
  if◌then◌else◌, map,
}
use atlantic_engine.Base.Int.{ℤ}
use atlantic_engine.Qt.Frames.{is_some}
use atlantic_engine.Qt.Subsurface
use atlantic_engine.Qt.Subsurface.{is_positive}
use atlantic_engine.Qt.Overlay.Setup.{
  Call, make, drop, frame_callback, Host, Parts, create, destroy,
}
use atlantic_engine.Qt.Overlay.Setup.Balance.{new_parts}
use atlantic_engine.Qt.View.{Size, Setup, Request, schedule_overlay, View}
use atlantic_engine.Qt.View.Closing.{Farewell, Step, perform, destroy_view}

-- The answers to `createChromeOverlayNow`, with those to the overlay's own calls in `host`. The
-- overlay gets its display, its parent and its size from the view, whatever `host` says of them.
pub record Platform : Type 0 where
  pub native_interface : Bool
  pub display : Bool  -- the resource "display"
  pub wl_display : Bool  -- the resource "wl_display"
  pub parent_surface : Bool  -- the surface of the window of the view
  pub to_pixels : ℤ → ℤ  -- qRound (side * dpr)
  pub window_pixels : Size  -- window ()->size () * dpr
  pub host : Host

-- What is done, in order.
pub data Act : Type 0 where
  asked : Request → Act
  on_overlay : Call → Act
  raise_above : ℕ → Act  -- wl_subsurface_place_above
  commit_parent flush : Act
  leave : Farewell → Act

-- A view, its `m_chromeOverlay`, the calls of `createChromeOverlayNow` that are queued, and the callbacks
-- of drawn frames that the compositor has not answered.
pub record Tab : Type 0 where
  pub view : View
  pub chrome : Option Parts
  pub queued : ℕ
  pub callbacks : ℕ

-- QSize::isEmpty
abbrev is_empty : Size → Bool
is_empty s = not (is_positive s.width && is_positive s.height)

abbrev pub surface_valid : Option Subsurface.Surface → Bool
surface_valid none = false
surface_valid (some s) = s.valid

-- `webContentSurface`
unfoldable pub web_content_surface : Setup → View → Option ℕ
web_content_surface e v = at v.subsurface
  where
    at : Option Subsurface.Surface → Option ℕ
    at none = none
    at (some s) = if s.has_surface then some e.content_surface else none

-- `setWebSurface`
unfoldable pub set_web_surface : Parts → Option ℕ → List Act
set_web_surface o none = []
set_web_surface o (some web) =
    if not o.valid || not o.has_subsurface then [] else raise_above web ∷ commit_parent ∷ flush ∷ []

-- The overlay that is made gets these answers.
unfoldable pub overlay_host : Platform → Size → Host
overlay_host p size = record p.host {
  display = p.display || p.wl_display;
  parent = p.parent_surface;
  size_empty =
      is_empty (record { width = p.to_pixels size.width; height = p.to_pixels size.height })
      && is_empty p.window_pixels;
}

-- The end of `createChromeOverlayNow`, from `new WPEChromeOverlay` on. One that cannot be set up is
-- deleted again.
unfoldable pub make_overlay : Setup → Host → Tab → Tab × List Act
make_overlay e h t =
    let (g, o, calls, ok) = create h t.view.statics new_parts in
    let t1 = record t { view = record t.view { statics = g } } in
    if not ok then (t1, map on_overlay (calls ++ (destroy o).1)) else (
      record t1 { chrome = some o },
      map on_overlay calls ++ set_web_surface o (web_content_surface e t.view),
    )

-- `createChromeOverlayNow`
unfoldable pub create_chrome_overlay_now : Setup → Platform → Tab → Tab × List Act
create_chrome_overlay_now e p t =
    let h = overlay_host p t.view.size in
    if is_some t.chrome || not (surface_valid t.view.subsurface)
    then (t, [])
    else if not (is_some e.window) || not p.native_interface
    then (t, [])
    else if (not h.display || not h.parent) || h.size_empty
    then (t, [])
    else make_overlay e h t

-- The calls that a list of requests queues.
unfoldable pub scheduled : List Request → ℕ
scheduled [] = 0
scheduled (schedule_overlay ∷ rest) = 1 + scheduled rest
scheduled (_ ∷ rest) = scheduled rest

-- The part of `renderFrame` that asks for the callback of a frame.
unfoldable pub request_frame : Option Parts → Tab → Tab × List Act
request_frame none t = (t, [])
request_frame (some o) t =
    if not o.valid
    then (t, [])
    else (record t { callbacks = t.callbacks + 1 }, on_overlay (make frame_callback) ∷ [])

-- `chromeFrameDone`, of a callback that is pending. What onFrameDone does is in Qt/Overlay.
unfoldable pub frame_done : Tab → Tab × List Act
frame_done t =
    if t.callbacks == 0
    then (t, [])
    else (record t { callbacks = t.callbacks - 1 }, on_overlay (drop frame_callback) ∷ [])

-- What happens to the view: a step of its own, the delivery of a queued call, a frame of the overlay that
-- is drawn, or the compositor's answer to one.
pub data Event : Type 0 where
  steps : Step → Event
  delivers draws answers : Event

unfoldable pub react : Setup → Platform → Tab → Event → Tab × List Act
react e p t (steps s) =
    let (v, requests) = perform e (record t.view { overlay = is_some t.chrome }) s in
    (record t { view = v; queued = t.queued + scheduled requests }, map asked requests)
react e p t draws = request_frame t.chrome t
react e p t answers = frame_done t
react e p t delivers =
    if t.queued == 0
    then (t, [])
    else create_chrome_overlay_now e p (record t { queued = t.queued - 1 })

unfoldable pub react_all : Setup → Platform → Tab → List Event → Tab × List Act
react_all e p t [] = (t, [])
react_all e p t (x ∷ xs) =
    let (t1, acts) = react e p t x in let (t2, more) = react_all e p t1 xs in (t2, acts ++ more)

-- `delete m_chromeOverlay`
unfoldable pub delete_overlay : Option Parts → List Act
delete_overlay none = []
delete_overlay (some o) = map on_overlay (destroy o).1

-- `~WPEQtView`, with the destructor of the overlay.
unfoldable pub destroy_tab : Bool → Tab → List Act
destroy_tab has_list t =
    delete_overlay t.chrome ++ map leave (destroy_view has_list (record t.view { overlay = false }))

-- The calls to the parts of an overlay among all that is done.
unfoldable pub overlay_calls : List Act → List Call
overlay_calls [] = []
overlay_calls (on_overlay call ∷ rest) = call ∷ overlay_calls rest
overlay_calls (_ ∷ rest) = overlay_calls rest
