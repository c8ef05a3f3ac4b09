-- ===== src/Qt/View/OnScreen/Told.antt =====
-- What the page is told of its visibility, and where its surface is, for any series of settings.
use atlantic_engine.Base.{
  ℕ, ◌≡◌, refl, sym, ap, ◌∙◌, Bool, true, Bool-cases, not, Option, none, some, List, [], ◌∷◌, ◌++◌,
  arith, inl, inr, map, if_false, Bytes,
}
use atlantic_engine.Qt.Subsurface.{Surface}
use atlantic_engine.Qt.Subsurface.Show.{set_geometry, set_visible}
use atlantic_engine.Qt.View.{
  Size, scale_1, Setup, Request, new_backend, new_view, view_created, activity, update_window, View,
  apply_scale, apply_agent, apply_content, enable_features, create_subsurface, create_web_view,
  on_surface, maybe_create_chrome_overlay, place_surface, update_subsurface_geometry, show_surface,
  apply_visibility, backend_resize, backend_set_scale,
}
use atlantic_engine.Qt.View.Settings.{
  geometry_changed, set_url, set_html, set_agent, set_scale, set_webkit_visible,
}
use atlantic_engine.Qt.View.Settings
use atlantic_engine.Qt.View.Buffering.{Setting, resized, url, html, agent, scale, visible, set}
use atlantic_engine.Qt.View.OnScreen.{told_visible, told_visible-append, surface-told}
use atlantic_engine.Qt.View.OnScreen.Kept.{
  apply_visible, geometry_changed_made, geometry_visible, scale-IsQuiet, apply_scale-IsQuiet,
}
use atlantic_engine.Qt.View.OnScreen.Created.{IsDirect, subsurface-IsPlaced, create_web_view_made}

-- Nothing is said of the visibility.
abbrev IsSilent : List Request → Type 0
IsSilent rs = (b : Bool) → told_visible b rs ≡ b

silent-append :
    (rs ys : List Request) (b : Bool) → IsSilent rs → told_visible b (rs ++ ys) ≡ told_visible b ys
silent-append rs ys b silent =
    told_visible-append b rs ys ∙ ap (λ b'. told_visible b' ys) (silent b)

overlay-IsSilent : (e : Setup) (v : View) → IsSilent (maybe_create_chrome_overlay e v).1
unfolding maybe_create_chrome_overlay told_visible
overlay-IsSilent e v b = ground arith

place-IsSilent : (e : Setup) (v : View) (s : Option Surface) → IsSilent (place_surface e s v).1
unfolding place_surface told_visible
place-IsSilent e v none b = refl
place-IsSilent e v (some s) b =
    let calls = (set_geometry (e.scene_rect v.size) s).1 in
    let s1 = (set_geometry (e.scene_rect v.size) s).0 in
    let v1 = record v { subsurface = some s1 } in
    let overlay = (maybe_create_chrome_overlay e v1).1 in
    silent-append (map on_surface calls) (overlay ++ update_window ∷ []) b
      (λ b. surface-told b calls)
    ∙ silent-append overlay (update_window ∷ []) b (overlay-IsSilent e v1)

update-IsSilent : (e : Setup) (v : View) → IsSilent (update_subsurface_geometry e v).1
unfolding update_subsurface_geometry told_visible
update-IsSilent e v b = ground (arith, place-IsSilent e v v.subsurface b)

resize-IsSilent : (e : Setup) (v : View) (n : Size) → IsSilent (backend_resize e n v).1
unfolding backend_resize told_visible
resize-IsSilent e v n b = ground arith

scale-IsSilent : (e : Setup) (v : View) (s : ℕ) → IsSilent (backend_set_scale e s v).1
unfolding backend_set_scale told_visible
scale-IsSilent e v s b = ground arith

activity-told :
    (b c : Bool) (rs : List Request) → told_visible b (activity c ∷ rs) ≡ told_visible c rs
unfolding told_visible
activity-told b c rs = refl

show-IsSilent : (e : Setup) (v : View) (s : Option Surface) → IsSilent (show_surface e s v).1
unfolding show_surface told_visible
show-IsSilent e v none b = refl
show-IsSilent e v (some s) b = surface-told b (set_visible v.visible s).1

visibility-told :
    (e : Setup) (v : View) (b : Bool)
    → v.created ≡ true
    → told_visible b (apply_visibility e v).1 ≡ v.visible
unfolding apply_visibility
visibility-told e v b created =
    ap (λ (r : View × List Request). told_visible b r.1)
      (if_false (not v.created) _ _ (ap not created))
    ∙ (activity-told b v.visible (show_surface e v.subsurface v).1
        ∙ show-IsSilent e v v.subsurface v.visible)

-- What comes before the last word on the visibility does not matter.
record EndsWith (w : Bool) (rs : List Request) : Type 0 where
  told : (b : Bool) → told_visible b rs ≡ w

ends-append : (w : Bool) (rs ys : List Request) → EndsWith w ys → EndsWith w (rs ++ ys)
ends-append w rs ys ends = record {
  told = λ b. told_visible-append b rs ys ∙ ends.told (told_visible b rs);
}

ends-cons : (w : Bool) (r : Request) (ys : List Request) → EndsWith w ys → EndsWith w (r ∷ ys)
ends-cons w r ys ends = ends-append w (r ∷ []) ys ends

-- A new view tells the page at last whether it is visible.
pub create-told :
    (e : Setup) (v : View) (b : Bool)
    → IsDirect e v
    → let r = create_web_view e v in told_visible b r.1 ≡ r.0.visible
unfolding told_visible
create-told e v b start =
    let v0 = record v { created = true; backend_size = v.size; device_scale = scale_1 } in
    let r1 = create_subsurface e v0 in
    let r2 = apply_scale e r1.0 in
    let r3 = apply_visibility e r2.0 in
    let w = r3.0.visible in
    let placed = subsurface-IsPlaced e v0 start.direct start.subsurface refl start.succeeds in
    let created = (apply_scale-IsQuiet e r1.0).created ∙ placed.created in
    let last : EndsWith w (r3.1 ++ view_created ∷ []) = record {
      told = λ b.
          told_visible-append b r3.1 (view_created ∷ [])
          ∙ (visibility-told e r2.0 b created ∙ sym (apply_visible e r2.0));
    } in
    let features = enable_features e.features in
    let content = apply_content v in
    let agent = apply_agent v in
    let end3 = ends-append w features _ last in
    let end2 = ends-append w agent _ (ends-append w content _ end3) in
    let end1 = ends-cons w (new_view v.private) _ (ends-append w r2.1 _ end2) in
    let end0 = ends-cons w (new_backend v.size) _ (ends-append w r1.1 _ end1) in
    rw (create_web_view_made e v start.made start.created) (end0.told b)

then-IsSilent :
    (e : Setup) (r : View × List Request)
    → IsSilent r.1
    → IsSilent (r.1 ++ (update_subsurface_geometry e r.0).1)
then-IsSilent e r silent b =
    silent-append r.1 (update_subsurface_geometry e r.0).1 b silent ∙ update-IsSilent e r.0 b

geometry-IsSilent :
    (e : Setup) (v : View) (n : Size) → v.created ≡ true → IsSilent (geometry_changed e n v).1
geometry-IsSilent e v n created b =
    let r = backend_resize e n (record v { size = n }) in
    ap (λ (r : View × List Request). told_visible b r.1) (geometry_changed_made e v n created)
    ∙ then-IsSilent e r (resize-IsSilent e (record v { size = n }) n) b

url-told : (v : View) (u : Bytes) → told_visible v.visible (set_url u v).1 ≡ (set_url u v).0.visible
unfolding set_url told_visible
url-told v u = ground arith

html-told :
    (v : View) (h base : Bytes)
    → told_visible v.visible (set_html h base v).1 ≡ (set_html h base v).0.visible
unfolding set_html told_visible
html-told v h base = ground arith

agent-told :
    (v : View) (a : Bytes) → told_visible v.visible (set_agent a v).1 ≡ (set_agent a v).0.visible
unfolding set_agent told_visible
agent-told v a = ground arith

scale-told :
    (e : Setup) (v : View) (s : ℕ)
    → told_visible v.visible (set_scale e s v).1 ≡ (set_scale e s v).0.visible
unfolding set_scale told_visible
scale-told e v s =
    let v1 = record v { pending_scale = s } in
    ground (arith, scale-IsSilent e v1 s v.visible, (scale-IsQuiet e v1 s).visible)

visible-told :
    (e : Setup) (v : View) (b : Bool)
    → v.created ≡ true
    → let r = set_webkit_visible e b v in told_visible v.visible r.1 ≡ r.0.visible
unfolding set_webkit_visible told_visible
visible-told e v b created = elim (Bool-cases (Settings.same v.visible b)) [
  | inl known ↦ simp known refl
  | inr changed ↦
      let v1 = record v { visible = b } in
      simp changed (visibility-told e v1 v.visible created ∙ sym (apply_visible e v1))
]

-- Each setting leaves the page with the visibility of the view.
pub set-told :
    (e : Setup) (v : View) (s : Setting)
    → v.created ≡ true
    → let r = set e v s in told_visible v.visible r.1 ≡ r.0.visible
unfolding set told_visible
set-told e v (resized n) created =
    geometry-IsSilent e v n created v.visible ∙ sym (geometry_visible e v n created)
set-told e v (url u) created = url-told v u
set-told e v (html h base) created = html-told v h base
set-told e v (agent a) created = agent-told v a
set-told e v (scale s) created = scale-told e v s
set-told e v (visible b) created = visible-told e v b created
