-- ===== src/Qt/Subsurface/Create.antt =====
-- Setting the surface of a tab up, in qt5-plugin/WPEWaylandSubsurface.cpp.
use atlantic_engine.Base.{
  ℕ, Bool, true, false, not, ◌&&◌, ◌||◌, Option, none, some, List, [], ◌∷◌, ◌++◌, if◌then◌else◌,
  or_else, Bytes, codes, streq,
}
use atlantic_engine.Qt.Frames.{is_some}
use atlantic_engine.Qt.Subsurface.{
  is_positive, Statics, queue, registry, compositor, subcompositor, surface, subsurface, region,
  context, egl_window, egl_surface, shader, program, texture, Call, make, drop, set_position,
  place_below, set_desync, Host, Surface, make_if, destroy, commit,
}

-- `onRegistryGlobal`
unfoldable pub on_registry_global : Surface → Bytes → Surface × List Call
on_registry_global s interface =
    if streq interface (codes "wl_compositor")
    then (record s { has_compositor = true }, make compositor ∷ [])
    else if streq interface (codes "wl_subcompositor")
    then (record s { has_subcompositor = true }, make subcompositor ∷ [])
    else (s, [])

-- The roundtrip announces each global in turn.
unfoldable pub announce : Surface → List Bytes → Surface × List Call
announce s [] = (s, [])
announce s (interface ∷ rest) =
    let (s1, calls) = on_registry_global s interface in
    let (s2, more) = announce s1 rest in (s2, calls ++ more)

-- `bindGlobals`
unfoldable pub bind_globals : Host → Surface → Surface × List Call × Bool
bind_globals h s =
    if not h.queue_made
    then (s, [], false)
    else let (s1, calls) = announce s h.globals in
      (
        s1,
        make queue ∷ make registry ∷ (calls ++ drop registry ∷ drop queue ∷ []),
        s1.has_compositor && s1.has_subcompositor,
      )

-- `setupEgl`, with its early returns in turn.
unfoldable pub setup_egl : Host → Surface → Surface × List Call × Bool
setup_egl h s =
    if not h.egl_display_found
    then (record s { egl_display = false }, [], false)
    else if not h.config_chosen
    then (record s { egl_display = true }, [], false)
    else if not h.context_made
    then (record s { egl_display = true; has_context = false }, [], false)
    else if not h.egl_window_made
    then (
      record s { egl_display = true; has_context = true; has_egl_window = false },
      make context ∷ [],
      false,
    )
    else if not h.egl_surface_made
    then (
      record s {
        egl_display = true;
        has_context = true;
        has_egl_window = true;
        has_egl_surface = false;
      },
      make context ∷ make egl_window ∷ [],
      false,
    )
    else if not h.made_current || not h.image_target_found
    then (
      record s {
        egl_display = true;
        has_context = true;
        has_egl_window = true;
        has_egl_surface = true;
      },
      make context ∷ make egl_window ∷ make egl_surface ∷ [],
      false,
    )
    else (
      record s {
        egl_display = true;
        has_context = true;
        has_egl_window = true;
        has_egl_surface = true;
        has_program = true;
        has_texture = true;
      },
      make context
          ∷ make egl_window
          ∷ make egl_surface
          ∷ make shader
          ∷ make shader
          ∷ make program
          ∷ make texture
          ∷ [],
      true,
    )

-- The part of `ensureCreated` that sets the new surface up, until `setupEgl`. The surface is placed
-- below the chrome, or below its parent.
unfoldable pub arrange : Host → Option ℕ → Surface → List Call
arrange h chrome s =
    (if h.region_made then make region ∷ drop region ∷ [] else [])
    ++ (set_desync
        ∷ (place (or_else chrome s.parent)
            ++ (if is_positive s.geometry.width
                then set_position s.geometry.x s.geometry.y ∷ []
                else [])))
  where
    place : Option ℕ → List Call
    place none = []
    place (some sibling) = place_below sibling ∷ []

-- The end of `ensureCreated`, from `setupEgl` on.
unfoldable pub activate : Host → Surface → Surface × List Call × Bool
activate h s =
    let (s1, made, ok) = setup_egl h s in
    let (s2, dropped) = destroy s1 in
    if not ok
    then (s2, made ++ dropped, false)
    else (record s1 { applied = s1.geometry; valid = true }, made ++ commit s1, true)

-- The surface and the subsurface of `ensureCreated`.
unfoldable pub create_surface : Host → Option ℕ → Surface → Surface × List Call × Bool
create_surface h chrome s =
    let s1 = record s { has_surface = h.surface_made; has_subsurface = h.subsurface_made } in
    let made = make_if h.surface_made surface ++ make_if h.subsurface_made subsurface in
    let (s2, calls, ok) = activate h s1 in
    if not h.surface_made || not h.subsurface_made
    then (s1, made, false)
    else (s2, made ++ (arrange h chrome s1 ++ calls), ok)

-- `s_shellWindow ? s_shellWindow : window`
abbrev pub shell_or : Option ℕ → ℕ → ℕ
shell_or none window = window
shell_or (some shell) window = shell

-- `ensureCreated` once the display and the parent surface are looked up.
unfoldable pub attach : Host → Option ℕ → Surface → Surface × List Call × Bool
attach h chrome s =
    let (s1, bound, ok) = bind_globals h s in
    let (s2, calls, created) = create_surface h chrome s1 in
    if not s.display || not (is_some s.parent)
    then (s, [], false)
    else if not ok
    then (s1, bound, false)
    else (s2, bound ++ calls, created)

-- `ensureCreated`, for the window that the view is in.
unfoldable pub ensure_created : Host → Statics → Option ℕ → Surface → Surface × List Call × Bool
ensure_created h g none s = (s, [], s.valid)
ensure_created h g (some window) s =
    if s.valid
    then (s, [], true)
    else if s.attempted
    then (s, [], s.valid)
    else if not h.native_interface
    then (record s { attempted = true }, [], false)
    else attach h g.chrome_surface (record s {
      attempted = true;
      display = h.display || h.wl_display;
      parent = h.surface_of (shell_or g.shell_window window);
    })
