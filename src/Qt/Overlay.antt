-- ===== src/Qt/Overlay.antt =====
-- The rendering of qt5-plugin/WPEChromeOverlay.cpp: when the chrome is drawn, and how the compositor's
-- frame callbacks hold it back. The event loop owns the callbacks and the timers.
pub mod Pace
pub mod Setup
pub mod Pending
mod Tests
use atlantic_engine.Base.{
  ℕ, Bool, true, false, not, ◌&&◌, ◌||◌, Option, none, some, List, [], ◌∷◌, ◌++◌, if◌then◌else◌,
  ◌==◌,
}

-- The members; a size in device pixels, a surface as a number.
pub record Overlay : Type 0 where
  pub valid : Bool
  pub dirty : Bool
  pub render_pending : Bool
  pub throttled : Bool
  pub has_subsurface : Bool
  pub last_placed : Option ℕ
  pub size : ℕ × ℕ
  pub fbo : Option (ℕ × ℕ)  -- the size of the framebuffer object

pub data Call : Type 0 where
  queue_render : Call  -- a timer of 0 ms
  queue_timeout : Call  -- the timer of 100 ms
  place_above : ℕ → Call
  commit_parent draw_scene request_frame swap_buffers : Call
  make_fbo : ℕ × ℕ → Call

-- What Qt, EGL and Wayland answer while a frame is drawn.
pub record Host : Type 0 where
  pub scene_current : Bool  -- QOpenGLContext::makeCurrent
  pub fbo_valid : Bool
  pub surface_current : Bool  -- eglMakeCurrent
  pub frame_made : Bool  -- wl_surface_frame

-- `scheduleRender`
unfoldable pub schedule_render : Overlay → Overlay × List Call
schedule_render o =
    if o.render_pending || o.throttled
    then (record o { dirty = true }, [])
    else (record o { dirty = true; render_pending = true }, queue_render ∷ [])

-- `onFrameDone`
unfoldable pub on_frame_done : Overlay → Overlay × List Call
unfolding schedule_render
on_frame_done o =
    if o.dirty
    then schedule_render (record o { throttled = false })
    else (record o { throttled = false }, [])

-- The timer of 100 ms.
unfoldable pub on_timeout : Overlay → Overlay × List Call
unfolding schedule_render
on_timeout o = if o.throttled then schedule_render (record o { throttled = false }) else (o, [])

abbrev same_surface : ℕ → Option ℕ → Bool
same_surface web none = false
same_surface web (some placed) = web == placed

-- The placing above the active surface, `WPEWaylandSubsurface::webSurface`.
unfoldable pub place : Option ℕ → Overlay → Overlay × List Call
place none o = (o, [])
place (some web) o =
    if same_surface web o.last_placed
    then (o, [])
    else (record o { last_placed = some web }, place_above web ∷ commit_parent ∷ [])

abbrev pub same_size : ℕ × ℕ → Option (ℕ × ℕ) → Bool
same_size (w, h) none = false
same_size (w, h) (some (v, g)) = v == w && g == h

-- `ensureFbo`
unfoldable pub ensure_fbo : Bool → Overlay → Overlay × List Call × Bool
ensure_fbo fbo_valid o =
    if same_size o.size o.fbo
    then (o, [], true)
    else (record o { fbo = some o.size }, make_fbo o.size ∷ [], fbo_valid)

-- The end of `renderFrame`: the blit and the swap.
unfoldable pub blit : Host → Overlay → Overlay × List Call
blit h o =
    if not h.surface_current
    then (o, [])
    else if h.frame_made
    then (record o { throttled = true }, request_frame ∷ queue_timeout ∷ swap_buffers ∷ [])
    else (o, swap_buffers ∷ [])

-- The drawing of the scene, and the rest of `renderFrame`.
unfoldable pub draw : Host → Overlay → Overlay × List Call
unfolding ensure_fbo blit
draw h o =
    let (o1, made, ok) = ensure_fbo h.fbo_valid o in
    let (o2, calls) = blit h o1 in
    if not h.scene_current
    then (o, [])
    else if not ok
    then (o1, made)
    else (o2, made ++ draw_scene ∷ calls)

-- `renderFrame`
unfoldable pub render_frame : Host → Option ℕ → Overlay → Overlay × List Call
unfolding place draw
render_frame h web o =
    if not o.valid || o.throttled
    then (o, [])
    else let (o1, placed) = place web (record o { dirty = false }) in
      let (o2, calls) = draw h o1 in (o2, placed ++ calls)

-- The timer of 0 ms.
unfoldable pub on_render : Host → Option ℕ → Overlay → Overlay × List Call
unfolding render_frame
on_render h web o = render_frame h web (record o { render_pending = false })

-- `setWebSurface`
unfoldable pub set_web_surface : Option ℕ → Overlay → List Call
set_web_surface none o = []
set_web_surface (some web) o =
    if not o.valid || not o.has_subsurface then [] else place_above web ∷ commit_parent ∷ []

-- `contentReady`
unfoldable pub content_ready : Overlay → Overlay × List Call
unfolding schedule_render
content_ready o = if not o.valid then (o, []) else schedule_render o

-- What the event loop delivers: a change of the scene, the two timers, and the frame callback.
pub data Event : Type 0 where
  changed : Event
  render : Host → Option ℕ → Event
  frame_done timeout : Event

unfoldable pub step : Overlay → Event → Overlay × List Call
unfolding schedule_render on_render on_frame_done on_timeout
step o changed = schedule_render o
step o (render h web) = on_render h web o
step o frame_done = on_frame_done o
step o timeout = on_timeout o

unfoldable pub run : Overlay → List Event → Overlay × List Call
unfolding step
run o [] = (o, [])
run o (e ∷ es) = let (o1, calls) = step o e in let (o2, rest) = run o1 es in (o2, calls ++ rest)
