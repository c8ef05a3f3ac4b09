-- ===== src/Qt/View/Closing/Stepped.antt =====
-- What a view creates for its surface is destroyed or still held: each setting.
use atlantic_engine.Base.{
  ℕ, ◌≡◌, refl, Bool, true, false, Bool-cases, not, Option, none, some, List, [], ◌∷◌, ◌++◌,
  if◌then◌else◌, arith, inl, inr, map, Bytes,
}
use atlantic_engine.Qt.Subsurface.{Handle, Surface}
use atlantic_engine.Qt.Subsurface.Show.{set_geometry, set_visible}
use atlantic_engine.Qt.View.{
  Size, Setup, Request, activity, on_surface, update_window, View, has_window, backend_resize,
  backend_set_scale, maybe_create_chrome_overlay, place_surface, update_subsurface_geometry,
  show_surface, apply_visibility,
}
use atlantic_engine.Qt.View.Settings.{
  geometry_changed, set_url, set_html, set_agent, set_scale, set_webkit_visible, same,
}
use atlantic_engine.Qt.View.Buffering.{Setting, resized, url, html, agent, scale, visible, set}
use atlantic_engine.Qt.View.Closing.{calls_of}
use atlantic_engine.Qt.View.Closing.Kept.{
  Balances, append-Balances, still-Balances, surface-Balances, set_geometry-IsBalanced,
  set_visible-IsBalanced,
}

pub overlay-Balances :
    (k : Handle → ℕ) (e : Setup) (v : View)
    → let r = maybe_create_chrome_overlay e v in Balances k v.subsurface r.0.subsurface r.1
unfolding maybe_create_chrome_overlay calls_of
overlay-Balances k e v = still-Balances k v.subsurface _ _ (ground arith) (ground arith)

place_surface-Balances :
    (k : Handle → ℕ) (e : Setup) (o : Option Surface) (v : View)
    → v.subsurface ≡ o
    → let r = place_surface e o v in Balances k o r.0.subsurface r.1
unfolding place_surface calls_of
place_surface-Balances k e none v found = still-Balances k none v.subsurface [] found refl
place_surface-Balances k e (some s) v found =
    let s1 = (set_geometry (e.scene_rect v.size) s).0 in
    let calls = (set_geometry (e.scene_rect v.size) s).1 in
    let v1 = record v { subsurface = some s1 } in
    let r = maybe_create_chrome_overlay e v1 in
    append-Balances k (some s) (some s1) r.0.subsurface (map on_surface calls)
      (r.1 ++ update_window ∷ [])
      (surface-Balances k s s1 calls (set_geometry-IsBalanced k (e.scene_rect v.size) s))
      (append-Balances k (some s1) r.0.subsurface r.0.subsurface r.1 (update_window ∷ [])
        (overlay-Balances k e v1)
        (still-Balances k r.0.subsurface r.0.subsurface (update_window ∷ []) refl refl))

pub update-Balances :
    (k : Handle → ℕ) (e : Setup) (v : View)
    → let r = update_subsurface_geometry e v in Balances k v.subsurface r.0.subsurface r.1
unfolding update_subsurface_geometry calls_of
update-Balances k e v = elim (Bool-cases (not (has_window e))) [
  | inl no_window ↦ rw no_window (still-Balances k v.subsurface v.subsurface [] refl refl)
  | inr window ↦ rw window (place_surface-Balances k e v.subsurface v refl)
]

resize-Balances :
    (k : Handle → ℕ) (e : Setup) (n : Size) (v : View)
    → let r = backend_resize e n v in Balances k v.subsurface r.0.subsurface r.1
unfolding backend_resize calls_of
resize-Balances k e n v =
    still-Balances k v.subsurface (backend_resize e n v).0.subsurface (backend_resize e n v).1
      (ground arith) (ground arith)

then-Balances :
    (k : Handle → ℕ) (e : Setup) (o : Option Surface) (r : View × List Request)
    → Balances k o r.0.subsurface r.1
    → let r' = update_subsurface_geometry e r.0 in Balances k o r'.0.subsurface (r.1 ++ r'.1)
then-Balances k e o r first =
    let r' = update_subsurface_geometry e r.0 in
    append-Balances k o r.0.subsurface r'.0.subsurface r.1 r'.1 first (update-Balances k e r.0)

pub if-Balances :
    (k : Handle → ℕ) (b : Bool) (o : Option Surface) (r r' : View × List Request)
    → Balances k o r.0.subsurface r.1
    → Balances k o r'.0.subsurface r'.1
    → let q = if b then r else r' in Balances k o q.0.subsurface q.1
if-Balances k true o r r' first second = first
if-Balances k false o r r' first second = second

geometry-Balances :
    (k : Handle → ℕ) (e : Setup) (n : Size) (v : View)
    → let r = geometry_changed e n v in Balances k v.subsurface r.0.subsurface r.1
unfolding geometry_changed calls_of
geometry-Balances k e n v =
    let v1 = record v { size = n } in
    let r = backend_resize e n v1 in
    then-Balances k e v.subsurface (if v.created then r else (v1, [])) (
      if-Balances k v.created v.subsurface r (v1, []) (resize-Balances k e n v1)
        (still-Balances k v.subsurface v.subsurface [] refl refl))

show_surface-Balances :
    (k : Handle → ℕ) (e : Setup) (o : Option Surface) (v : View)
    → v.subsurface ≡ o
    → let r = show_surface e o v in Balances k o r.0.subsurface r.1
unfolding show_surface calls_of
show_surface-Balances k e none v found = still-Balances k none v.subsurface [] found refl
show_surface-Balances k e (some s) v found =
    surface-Balances k s (set_visible v.visible s).0 (set_visible v.visible s).1
      (set_visible-IsBalanced k v.visible s)

pub visibility-Balances :
    (k : Handle → ℕ) (e : Setup) (v : View)
    → let r = apply_visibility e v in Balances k v.subsurface r.0.subsurface r.1
unfolding apply_visibility calls_of
visibility-Balances k e v =
    let r = show_surface e v.subsurface v in
    if-Balances k (not v.created) v.subsurface (v, []) (r.0, activity v.visible ∷ r.1)
      (still-Balances k v.subsurface v.subsurface [] refl refl)
      (append-Balances k v.subsurface v.subsurface r.0.subsurface (activity v.visible ∷ []) r.1
        (still-Balances k v.subsurface v.subsurface (activity v.visible ∷ []) refl refl)
        (show_surface-Balances k e v.subsurface v refl))

url-Balances :
    (k : Handle → ℕ) (u : Bytes) (v : View)
    → let r = set_url u v in Balances k v.subsurface r.0.subsurface r.1
unfolding set_url calls_of
url-Balances k u v =
    still-Balances k v.subsurface (set_url u v).0.subsurface (set_url u v).1 (ground arith)
      (ground arith)

html-Balances :
    (k : Handle → ℕ) (h base : Bytes) (v : View)
    → let r = set_html h base v in Balances k v.subsurface r.0.subsurface r.1
unfolding set_html calls_of
html-Balances k h base v =
    still-Balances k v.subsurface v.subsurface (set_html h base v).1 refl (ground arith)

agent-Balances :
    (k : Handle → ℕ) (a : Bytes) (v : View)
    → let r = set_agent a v in Balances k v.subsurface r.0.subsurface r.1
unfolding set_agent calls_of
agent-Balances k a v =
    still-Balances k v.subsurface v.subsurface (set_agent a v).1 refl (ground arith)

set_scale-Balances :
    (k : Handle → ℕ) (e : Setup) (s : ℕ) (v : View)
    → let r = set_scale e s v in Balances k v.subsurface r.0.subsurface r.1
unfolding set_scale backend_set_scale calls_of
set_scale-Balances k e s v =
    still-Balances k v.subsurface (set_scale e s v).0.subsurface (set_scale e s v).1 (ground arith)
      (ground arith)

webkit_visible-Balances :
    (k : Handle → ℕ) (e : Setup) (b : Bool) (v : View)
    → let r = set_webkit_visible e b v in Balances k v.subsurface r.0.subsurface r.1
unfolding set_webkit_visible calls_of
webkit_visible-Balances k e b v = elim (Bool-cases (same v.visible b)) [
  | inl known ↦ simp known (still-Balances k v.subsurface v.subsurface [] refl refl)
  | inr changed ↦ simp changed (visibility-Balances k e (record v { visible = b }))
]

pub set-Balances :
    (k : Handle → ℕ) (e : Setup) (s : Setting) (v : View)
    → let r = set e v s in Balances k v.subsurface r.0.subsurface r.1
unfolding set
set-Balances k e (resized n) v = geometry-Balances k e n v
set-Balances k e (url u) v = url-Balances k u v
set-Balances k e (html h base) v = html-Balances k h base v
set-Balances k e (agent a) v = agent-Balances k a v
set-Balances k e (scale s) v = set_scale-Balances k e s v
set-Balances k e (visible b) v = webkit_visible-Balances k e b v
