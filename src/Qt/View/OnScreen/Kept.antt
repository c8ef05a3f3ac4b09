-- ===== src/Qt/View/OnScreen/Kept.antt =====
-- Each setting of a view keeps its surface where the compositor should show it.
use atlantic_engine.Base.{
  ◌≡◌, sym, ap, ◌∙◌, Bool, true, Bool-cases, not, List, [], ◌++◌, arith, inl, inr, if_true, Bytes,
  ℕ,
}
use atlantic_engine.Qt.Subsurface.Position.{Scene}
use atlantic_engine.Qt.View.{
  Size, Setup, Request, View, has_window, backend_resize, backend_set_scale, apply_scale,
  maybe_create_chrome_overlay, update_subsurface_geometry, apply_visibility, place_surface,
  show_surface,
}
use atlantic_engine.Qt.View.Settings.{
  geometry_changed, set_url, set_html, set_agent, set_scale, set_webkit_visible,
}
use atlantic_engine.Qt.View.Settings
use atlantic_engine.Qt.View.Buffering.{Setting, resized, url, html, agent, scale, visible, set}
use atlantic_engine.Qt.View.OnScreen.{scene_after, scene_after-append}
use atlantic_engine.Qt.View.OnScreen.Placed.{
  IsPlaced, rehide, IsQuiet, quiet-IsPlaced, update-IsPlaced, visibility-IsPlaced,
}

resize-IsQuiet : (e : Setup) (v : View) (size : Size) → IsQuiet v (backend_resize e size v)
unfolding backend_resize scene_after
resize-IsQuiet e v size = ground arith

pub scale-IsQuiet : (e : Setup) (v : View) (s : ℕ) → IsQuiet v (backend_set_scale e s v)
unfolding backend_set_scale scene_after
scale-IsQuiet e v s = ground arith

pub apply_scale-IsQuiet : (e : Setup) (v : View) → IsQuiet v (apply_scale e v)
unfolding apply_scale scene_after
apply_scale-IsQuiet e v = ground (arith, scale-IsQuiet e v v.pending_scale)

url-IsQuiet : (v : View) (u : Bytes) → IsQuiet v (set_url u v)
unfolding set_url scene_after
url-IsQuiet v u = ground arith

html-IsQuiet : (v : View) (h base : Bytes) → IsQuiet v (set_html h base v)
unfolding set_html scene_after
html-IsQuiet v h base = ground arith

agent-IsQuiet : (v : View) (a : Bytes) → IsQuiet v (set_agent a v)
unfolding set_agent scene_after
agent-IsQuiet v a = ground arith

set_scale-IsQuiet : (e : Setup) (v : View) (s : ℕ) → IsQuiet v (set_scale e s v)
unfolding set_scale scene_after
set_scale-IsQuiet e v s =
    let q = scale-IsQuiet e (record v { pending_scale = s }) s in
    ground (arith, q.subsurface, q.size, q.created, q.visible, q.scene)

pub geometry_changed_made :
    (e : Setup) (v : View) (size : Size)
    → v.created ≡ true
    → let r = backend_resize e size (record v { size = size }) in
      let r' = update_subsurface_geometry e r.0 in geometry_changed e size v ≡ (r'.0, r.1 ++ r'.1)
unfolding geometry_changed
geometry_changed_made e v size created =
    let next : View × List Request → View × List Request =
      λ r. ((update_subsurface_geometry e r.0).0, r.1 ++ (update_subsurface_geometry e r.0).1) in
    ap next (
      if_true v.created (backend_resize e size (record v { size = size }))
        (record v { size = size }, []) created)

geometry-IsPlaced :
    (e : Setup) (v : View) (c : Scene) (h : Bool) (size : Size)
    → has_window e ≡ true
    → IsPlaced e v c h
    → let r = geometry_changed e size v in IsPlaced e r.0 (scene_after c r.1) h
geometry-IsPlaced e v c h size window placed =
    let r = backend_resize e size (record v { size = size }) in
    let quiet = resize-IsQuiet e (record v { size = size }) size in
    let calls = (update_subsurface_geometry e r.0).1 in
    let still : scene_after c (r.1 ++ calls) ≡ scene_after c calls =
      scene_after-append c r.1 calls ∙ ap (λ c'. scene_after c' calls) (quiet.scene c) in
    rw (geometry_changed_made e v size placed.created, still, sym placed.hidden)
      (update-IsPlaced e r.0 c placed.surface window (quiet.subsurface ∙ placed.found) placed.shown
        (quiet.created ∙ placed.created))

pub update_visible : (e : Setup) (v : View) → (update_subsurface_geometry e v).0.visible ≡ v.visible
unfolding update_subsurface_geometry place_surface maybe_create_chrome_overlay
update_visible e v = ground arith

pub apply_visible : (e : Setup) (v : View) → (apply_visibility e v).0.visible ≡ v.visible
unfolding apply_visibility show_surface
apply_visible e v = ground arith

settle :
    (e : Setup) (v : View) (c : Scene) (r : View × List Request)
    → IsQuiet v r
    → IsPlaced e v c (not v.visible)
    → IsPlaced e r.0 (scene_after c r.1) (not r.0.visible)
settle e v c r quiet placed =
    rehide e r.0 (scene_after c r.1) (not v.visible) (not r.0.visible) (ap not (sym quiet.visible))
      (quiet-IsPlaced e v r c (not v.visible) quiet placed)

pub geometry_visible :
    (e : Setup) (v : View) (size : Size)
    → v.created ≡ true
    → (geometry_changed e size v).0.visible ≡ v.visible
geometry_visible e v size created =
    let quiet = resize-IsQuiet e (record v { size = size }) size in
    ap (λ (r : View × List Request). r.0.visible) (geometry_changed_made e v size created)
    ∙ (update_visible e (backend_resize e size (record v { size = size })).0 ∙ quiet.visible)

webkit_visible-IsPlaced :
    (e : Setup) (v : View) (c : Scene) (b : Bool)
    → IsPlaced e v c (not v.visible)
    → let r = set_webkit_visible e b v in IsPlaced e r.0 (scene_after c r.1) (not r.0.visible)
unfolding set_webkit_visible scene_after
webkit_visible-IsPlaced e v c b placed = elim (Bool-cases (Settings.same v.visible b)) [
  | inl known ↦ simp known placed
  | inr changed ↦
      let v1 = record v { visible = b } in
      let start : IsPlaced e v1 c (not v.visible) = record {
        surface = placed.surface;
        found = placed.found;
        shown = placed.shown;
        geometry = placed.geometry;
        hidden = placed.hidden;
        created = placed.created;
      } in
      let r = apply_visibility e v1 in
      simp changed (
        rehide e r.0 (scene_after c r.1) (not b) (not r.0.visible)
          (ap not (sym (apply_visible e v1))) (visibility-IsPlaced e v1 c (not v.visible) start))
]

pub set-IsPlaced :
    (e : Setup) (v : View) (c : Scene) (s : Setting)
    → has_window e ≡ true
    → IsPlaced e v c (not v.visible)
    → let r = set e v s in IsPlaced e r.0 (scene_after c r.1) (not r.0.visible)
unfolding set
set-IsPlaced e v c (resized size) window placed =
    let r = geometry_changed e size v in
    rehide e r.0 (scene_after c r.1) (not v.visible) (not r.0.visible)
      (ap not (sym (geometry_visible e v size placed.created)))
      (geometry-IsPlaced e v c (not v.visible) size window placed)
set-IsPlaced e v c (url u) window placed = settle e v c (set_url u v) (url-IsQuiet v u) placed
set-IsPlaced e v c (html h base) window placed =
    settle e v c (set_html h base v) (html-IsQuiet v h base) placed
set-IsPlaced e v c (agent a) window placed = settle e v c (set_agent a v) (agent-IsQuiet v a) placed
set-IsPlaced e v c (scale s) window placed =
    settle e v c (set_scale e s v) (set_scale-IsQuiet e v s) placed
set-IsPlaced e v c (visible b) window placed = webkit_visible-IsPlaced e v c b placed
