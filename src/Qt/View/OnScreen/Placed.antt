-- ===== src/Qt/View/OnScreen/Placed.antt =====
-- Each step of a view keeps its surface where the compositor should show it.
use atlantic_engine.Base.{
  ◌≡◌, refl, sym, ap, ◌∙◌, Bool, true, not, some, List, [], ◌∷◌, ◌++◌, arith, map, if_false,
}
use atlantic_engine.Qt.Subsurface.{Rect, Surface}
use atlantic_engine.Qt.Subsurface.Show.{set_geometry, set_visible}
use atlantic_engine.Qt.Subsurface.Position.{
  Scene, latch, IsShown, geometry-IsShown, visible-IsShown,
}
use atlantic_engine.Qt.View.{
  Setup, Request, on_surface, update_window, activity, View, has_window,
  maybe_create_chrome_overlay, place_surface, update_subsurface_geometry, show_surface,
  apply_visibility,
}
use atlantic_engine.Qt.View.OnScreen.{scene_after, scene_after-append, surface-scene}

-- The surface of a view is active, where the view is, and hidden or not as `h` says.
pub record IsPlaced (e : Setup) (v : View) (c : Scene) (h : Bool) : Type 0 where
  pub surface : Surface
  pub found : v.subsurface ≡ some surface
  pub shown : IsShown surface c
  pub geometry : surface.geometry ≡ e.scene_rect v.size
  pub hidden : surface.hidden ≡ h
  pub created : v.created ≡ true

pub rehide :
    (e : Setup) (v : View) (c : Scene) (h h' : Bool) → h ≡ h' → IsPlaced e v c h → IsPlaced e v c h'
rehide e v c h h' same_flag placed = record {
  surface = placed.surface;
  found = placed.found;
  shown = placed.shown;
  geometry = placed.geometry;
  hidden = placed.hidden ∙ same_flag;
  created = placed.created;
}

-- A step that leaves the surface, its place and the scene alone.
pub record IsQuiet (v : View) (r : View × List Request) : Type 0 where
  pub subsurface : r.0.subsurface ≡ v.subsurface
  pub size : r.0.size ≡ v.size
  pub created : r.0.created ≡ v.created
  pub visible : r.0.visible ≡ v.visible
  pub scene : (c : Scene) → scene_after c r.1 ≡ c

pub quiet-IsPlaced :
    (e : Setup) (v : View) (r : View × List Request) (c : Scene) (h : Bool)
    → IsQuiet v r
    → IsPlaced e v c h
    → IsPlaced e r.0 (scene_after c r.1) h
quiet-IsPlaced e v r c h quiet placed = rw (quiet.scene c) (record {
  surface = placed.surface;
  found = quiet.subsurface ∙ placed.found;
  shown = placed.shown;
  geometry = placed.geometry ∙ ap e.scene_rect (sym quiet.size);
  hidden = placed.hidden;
  created = quiet.created ∙ placed.created;
})

pub overlay-IsQuiet : (e : Setup) (v : View) → IsQuiet v (maybe_create_chrome_overlay e v)
unfolding maybe_create_chrome_overlay scene_after
overlay-IsQuiet e v = ground arith

geometry_kept :
    (s : Surface) (r : Rect)
    → ((set_geometry r s).0.geometry ≡ r) × ((set_geometry r s).0.hidden ≡ s.hidden)
unfolding set_geometry
geometry_kept s r = ground arith

visible_kept :
    (s : Surface) (b : Bool)
    → s.valid ≡ true
    → ((set_visible b s).0.geometry ≡ s.geometry) × ((set_visible b s).0.hidden ≡ not b)
unfolding set_visible
visible_kept s b valid = ground arith

window-scene : (c : Scene) → scene_after c (update_window ∷ []) ≡ c
unfolding scene_after
window-scene c = refl

place_surface-IsPlaced :
    (e : Setup) (v : View) (c : Scene) (s : Surface)
    → IsShown s c
    → v.created ≡ true
    → let r = place_surface e (some s) v in IsPlaced e r.0 (scene_after c r.1) s.hidden
unfolding place_surface
place_surface-IsPlaced e v c s shown created =
    let r = e.scene_rect v.size in
    let s1 = (set_geometry r s).0 in
    let calls = (set_geometry r s).1 in
    let v1 = record v { subsurface = some s1 } in
    let (geometry, hidden) = geometry_kept s r in
    let overlay = (maybe_create_chrome_overlay e v1).1 in
    let start : IsPlaced e v1 (latch c calls) s.hidden = record {
      surface = s1;
      found = refl;
      shown = geometry-IsShown s c r shown;
      geometry = geometry;
      hidden = hidden;
      created = created;
    } in
    let still : scene_after c (map on_surface calls ++ (overlay ++ update_window ∷ []))
        ≡ scene_after (latch c calls) overlay =
      scene_after-append c (map on_surface calls) (overlay ++ update_window ∷ [])
      ∙ (ap (λ c'. scene_after c' (overlay ++ update_window ∷ [])) (surface-scene c calls)
          ∙ (scene_after-append (latch c calls) overlay (update_window ∷ [])
              ∙ window-scene (scene_after (latch c calls) overlay))) in
    rw still (
      quiet-IsPlaced e v1 (maybe_create_chrome_overlay e v1) (latch c calls) s.hidden
        (overlay-IsQuiet e v1) start)

-- Where the window is, the surface moves to where the view is now.
pub update-IsPlaced :
    (e : Setup) (v : View) (c : Scene) (s : Surface)
    → has_window e ≡ true
    → v.subsurface ≡ some s
    → IsShown s c
    → v.created ≡ true
    → let r = update_subsurface_geometry e v in IsPlaced e r.0 (scene_after c r.1) s.hidden
unfolding update_subsurface_geometry
update-IsPlaced e v c s window found shown created =
    rw (window, found) (place_surface-IsPlaced e v c s shown created)

show_surface-IsPlaced :
    (e : Setup) (v : View) (c : Scene) (s : Surface)
    → IsShown s c
    → s.geometry ≡ e.scene_rect v.size
    → v.created ≡ true
    → let r = show_surface e (some s) v in IsPlaced e r.0 (scene_after c r.1) (not v.visible)
unfolding show_surface
show_surface-IsPlaced e v c s shown geometry created =
    let s1 = (set_visible v.visible s).0 in
    let (kept, hidden) = visible_kept s v.visible shown.valid in
    rw (surface-scene c (set_visible v.visible s).1) (record {
      surface = s1;
      found = refl;
      shown = visible-IsShown s c v.visible shown;
      geometry = kept ∙ geometry;
      hidden = hidden;
      created = created;
    })

activity-scene :
    (c : Scene) (b : Bool) (rs : List Request) → scene_after c (activity b ∷ rs) ≡ scene_after c rs
unfolding scene_after
activity-scene c b rs = refl

apply_visibility_made :
    (e : Setup) (v : View) (s : Surface)
    → v.subsurface ≡ some s
    → v.created ≡ true
    → let r = show_surface e (some s) v in apply_visibility e v ≡ (r.0, activity v.visible ∷ r.1)
unfolding apply_visibility
apply_visibility_made e v s found created =
    let act : View × List Request → View × List Request = λ r. (r.0, activity v.visible ∷ r.1) in
    if_false (not v.created) (v, []) (act (show_surface e v.subsurface v)) (ap not created)
    ∙ ap (λ o. act (show_surface e o v)) found

-- The surface shows or hides with the view.
pub visibility-IsPlaced :
    (e : Setup) (v : View) (c : Scene) (h : Bool)
    → IsPlaced e v c h
    → let r = apply_visibility e v in IsPlaced e r.0 (scene_after c r.1) (not v.visible)
visibility-IsPlaced e v c h placed =
    let s = placed.surface in
    let r = show_surface e (some s) v in
    rw (apply_visibility_made e v s placed.found placed.created, activity-scene c v.visible r.1)
      (show_surface-IsPlaced e v c s placed.shown placed.geometry placed.created)
