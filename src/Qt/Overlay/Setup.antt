-- ===== src/Qt/Overlay/Setup.antt =====
-- Setting the chrome overlay up and destroying it, in qt5-plugin/WPEChromeOverlay.cpp. The calls that
-- place the surface, its input region and the event queue are left out.
pub mod Dangling
pub mod Balance
pub mod Surfaced
pub mod Bound
pub mod Lasting
use atlantic_engine.Base.{
  ℕ, Bool, true, false, not, ◌&&◌, ◌||◌, Option, none, some, List, [], ◌∷◌, ◌++◌, if◌then◌else◌,
  Bytes, codes, streq,
}
use atlantic_engine.Qt.Frames.{is_some}
use atlantic_engine.Qt.Subsurface.{Statics, set_chrome_surface}

-- What the overlay creates and destroys.
pub data Part : Type 0 where
  compositor subcompositor surface subsurface context offscreen egl_window egl_surface : Part
  render_control quick_window engine component root fbo shader program : Part
  frame_callback : Part  -- of wl_surface_frame

pub data Call : Type 0 where
  make : Part → Call
  drop : Part → Call
  commit_parent : Call

-- The answers of Qt, Wayland and EGL.
pub record Host : Type 0 where
  pub display : Bool
  pub parent : Bool
  pub size_empty : Bool
  pub queue_made : Bool
  pub globals : List Bytes
  pub surface_made : Option ℕ
  pub subsurface_made : Bool
  pub context_created : Bool
  pub offscreen_current : Bool  -- makeCurrent on the offscreen surface, in setupEgl
  pub scene_current : Bool  -- the same in setupScene
  pub egl_current : Bool  -- eglGetCurrentDisplay and eglGetCurrentContext give something
  pub config_found : Bool
  pub egl_window_made : Bool
  pub egl_surface_made : Bool
  pub blit_current : Bool  -- eglMakeCurrent on the window surface
  pub test : Bool  -- testEnabled
  pub component_error : Bool
  pub root_made : Bool

-- The members that hold what was created.
pub record Parts : Type 0 where
  pub valid : Bool
  pub has_compositor : Bool
  pub has_subcompositor : Bool
  pub surface_at : Option ℕ
  pub has_subsurface : Bool
  pub has_context : Bool
  pub has_offscreen : Bool
  pub has_egl_window : Bool
  pub has_egl_surface : Bool
  pub has_scene : Bool  -- the render control, the window and the engine
  pub has_component : Bool
  pub has_root : Bool
  pub has_fbo : Bool
  pub has_program : Bool  -- m_blitProgram

abbrev drop_if : Bool → Part → List Call
drop_if b p = if b then drop p ∷ [] else []

-- `onRegistryGlobal`
unfoldable pub on_registry_global : Parts → Bytes → Parts × List Call
on_registry_global o interface =
    if streq interface (codes "wl_compositor")
    then (record o { has_compositor = true }, make compositor ∷ [])
    else if streq interface (codes "wl_subcompositor")
    then (record o { has_subcompositor = true }, make subcompositor ∷ [])
    else (o, [])

unfoldable pub announce : Parts → List Bytes → Parts × List Call
announce o [] = (o, [])
announce o (interface ∷ rest) =
    let (o1, calls) = on_registry_global o interface in
    let (o2, more) = announce o1 rest in (o2, calls ++ more)

-- `bindGlobals`
unfoldable pub bind_globals : Host → Parts → Parts × List Call × Bool
bind_globals h o =
    if not h.queue_made
    then (o, [], false)
    else let (o1, calls) = announce o h.globals in
      (o1, calls, o1.has_compositor && o1.has_subcompositor)

-- `setupEgl`, with its early returns in turn.
unfoldable pub setup_egl : Host → Parts → Parts × List Call × Bool
setup_egl h o =
    if not o.has_context || not o.has_offscreen
    then (o, [], false)
    else if not h.offscreen_current || not h.egl_current
    then (o, [], false)
    else if not h.config_found || not h.egl_window_made
    then (o, [], false)
    else if not h.egl_surface_made
    then (record o { has_egl_window = true }, make egl_window ∷ [], false)
    else (
      record o { has_egl_window = true; has_egl_surface = true },
      make egl_window ∷ make egl_surface ∷ [],
      true,
    )

-- `setupScene`
unfoldable pub setup_scene : Host → Parts → Parts × List Call × Bool
setup_scene h o =
    let o1 = record o { has_scene = true } in
    let scene = make render_control ∷ make quick_window ∷ make engine ∷ [] in
    if not h.scene_current
    then (o1, scene, false)
    else if not h.test
    then (o1, scene, true)
    else if h.component_error
    then (record o1 { has_component = true }, scene ++ make component ∷ [], false)
    else if not h.root_made
    then (record o1 { has_component = true }, scene ++ make component ∷ [], false)
    else (
      record o1 { has_component = true; has_root = true },
      scene ++ make component ∷ make root ∷ [],
      true,
    )

-- `destroy`. The blit program and its two shaders stay.
unfoldable pub destroy : Parts → Parts × List Call
destroy o = (
  record {
    valid = false;
    has_compositor = false;
    has_subcompositor = false;
    surface_at = none;
    has_subsurface = false;
    has_context = false;
    has_offscreen = false;
    has_egl_window = false;
    has_egl_surface = false;
    has_scene = false;
    has_component = false;
    has_root = false;
    has_fbo = false;
    has_program = o.has_program;
  },
  drop_if o.has_component component
      ++ (drop_if o.has_root root
          ++ (drop_if o.has_scene render_control
              ++ (drop_if o.has_scene quick_window
                  ++ (drop_if o.has_scene engine
                      ++ (drop_if o.has_fbo fbo
                          ++ (drop_if o.has_egl_surface egl_surface
                              ++ (drop_if o.has_egl_window egl_window
                                  ++ (drop_if o.has_offscreen offscreen
                                      ++ (drop_if o.has_context context
                                          ++ (drop_if o.has_subsurface subsurface
                                              ++ (drop_if (is_some o.surface_at) surface
                                                  ++ (drop_if o.has_subcompositor subcompositor
                                                      ++ drop_if o.has_compositor
                                                          compositor)))))))))))),
)

-- `create` after a step: on failure everything is destroyed.
unfoldable pub or_destroy : Parts × List Call × Bool → Parts × List Call × Bool
or_destroy r = let (o, dropped) = destroy r.0 in if r.2 then r else (o, r.1 ++ dropped, false)

-- `create` from the blit program on. The shaders are not kept in a member.
unfoldable pub finish : Host → Parts → Parts × List Call × Bool
finish h o =
    let (o1, calls, ok) = setup_scene h (record o { has_program = true }) in
    let built = make shader ∷ make shader ∷ make program ∷ calls in
    if not h.blit_current
    then (o, [], false)
    else if not ok
    then (o1, built, false)
    else (record o1 { valid = true }, built, true)

-- `create` from the OpenGL context on.
unfoldable pub set_up : Host → Parts → Parts × List Call × Bool
set_up h o =
    let o1 = record o { has_context = true } in
    let o2 = record o1 { has_offscreen = true } in
    let (o3, made, ok) = setup_egl h o2 in
    let (o4, calls, done) = finish h o3 in
    if not h.context_created
    then (o1, make context ∷ [], false)
    else if not ok
    then (o3, make context ∷ make offscreen ∷ made, false)
    else (o4, make context ∷ make offscreen ∷ (made ++ calls), done)

make_surfaces : Option ℕ → Bool → List Call
make_surfaces none false = []
make_surfaces none true = make subsurface ∷ []
make_surfaces (some n) false = make surface ∷ []
make_surfaces (some n) true = make surface ∷ make subsurface ∷ []

-- `create` from the two surfaces on. The surface is published to the tabs before the rest is set up.
unfoldable pub publish : Host → Statics → Parts → Statics × Parts × List Call × Bool
unfolding make_surfaces
publish h g o =
    let o1 = record o { surface_at = h.surface_made; has_subsurface = h.subsurface_made } in
    let (o2, calls, ok) = or_destroy (set_up h o1) in
    if not (is_some h.surface_made) || not h.subsurface_made
    then (g, o1, make_surfaces h.surface_made h.subsurface_made, false)
    else (
      set_chrome_surface h.surface_made g,
      o2,
      make_surfaces h.surface_made h.subsurface_made ++ commit_parent ∷ calls,
      ok,
    )

-- `create`
unfoldable pub create : Host → Statics → Parts → Statics × Parts × List Call × Bool
create h g o =
    let (o1, bound, found) = bind_globals h o in
    let (g2, o2, calls, ok) = publish h g o1 in
    if o.valid
    then (g, o, [], true)
    else if (not h.display || not h.parent) || h.size_empty
    then (g, o, [], false)
    else if not found
    then (g, o1, bound, false)
    else (g2, o2, bound ++ calls, ok)
