-- ===== src/Qt/View/OnScreen/Created.antt =====
-- Making a view puts its surface where the compositor should show it.
use atlantic_engine.Base.{
  ◌≡◌, refl, sym, ap, ◌∙◌, true, false, not, ◌||◌, Option, none, some, List, [], ◌∷◌, ◌++◌, arith,
  map, if_true, if_false, Bytes,
}
use atlantic_engine.Qt.Frames.{is_some}
use atlantic_engine.Qt.Subsurface
use atlantic_engine.Qt.Subsurface.{Surface, Statics, Host}
use atlantic_engine.Qt.Subsurface.Create.{ensure_created}
use atlantic_engine.Qt.Subsurface.Position.{Scene, origin, latch, IsShown}
use atlantic_engine.Qt.Subsurface.Position.Active.{ensure_created-IsShown}
use atlantic_engine.Qt.View.{
  Size, scale_1, Setup, Request, new_backend, new_view, view_created, View, has_window, apply_scale,
  apply_agent, apply_content, enable_features, create_subsurface, create_web_view, on_surface,
  maybe_create_chrome_overlay, update_subsurface_geometry, apply_visibility,
}
use atlantic_engine.Qt.View.OnScreen.{scene_after, scene_after-append, surface-scene}
use atlantic_engine.Qt.View.OnScreen.Placed.{
  IsPlaced, rehide, quiet-IsPlaced, overlay-IsQuiet, update-IsPlaced, visibility-IsPlaced,
}
use atlantic_engine.Qt.View.OnScreen.Kept.{apply_scale-IsQuiet, apply_visible}

-- The view is not made yet, frames go to a surface of their own, and setting that surface up succeeds.
pub record IsDirect (e : Setup) (v : View) : Type 0 where
  pub made : e.backend_made ≡ true
  pub direct : e.direct ≡ true
  pub created : v.created ≡ false
  pub subsurface : v.subsurface ≡ none
  pub succeeds : (ensure_created e.host v.statics e.window Subsurface.fresh).2 ≡ true

window_needed :
    (h : Host) (g : Statics) (w : Option _)
    → (ensure_created h g w Subsurface.fresh).2 ≡ true
    → is_some w ≡ true
unfolding ensure_created
window_needed h g none ok = cc (ok)
window_needed h g (some w) ok = refl

-- The calls after the surface is set up: its place, and then the overlay.
abbrev settled : Setup → View → Surface → View × List Request
settled e v s =
    let (v1, placed) = update_subsurface_geometry e (record v { subsurface = some s }) in
    let (v2, overlay) = maybe_create_chrome_overlay e v1 in (v2, placed ++ overlay)

settled-IsPlaced :
    (e : Setup) (v : View) (c : Scene) (s : Surface)
    → has_window e ≡ true
    → IsShown s c
    → v.created ≡ true
    → let r = settled e v s in IsPlaced e r.0 (scene_after c r.1) s.hidden
settled-IsPlaced e v c s window shown created =
    let v0 = record v { subsurface = some s } in
    let r = update_subsurface_geometry e v0 in
    rw (scene_after-append c r.1 (maybe_create_chrome_overlay e r.0).1) (
      quiet-IsPlaced e r.0 (maybe_create_chrome_overlay e r.0) (scene_after c r.1) s.hidden
        (overlay-IsQuiet e r.0) (update-IsPlaced e v0 c s window refl shown created))

create_subsurface_made :
    (e : Setup) (v : View)
    → e.direct ≡ true
    → v.subsurface ≡ none
    → (ensure_created e.host v.statics e.window Subsurface.fresh).2 ≡ true
    → let (s, calls, ok) = ensure_created e.host v.statics e.window Subsurface.fresh in
      create_subsurface e v ≡ ((settled e v s).0, map on_surface calls ++ (settled e v s).1)
unfolding create_subsurface
create_subsurface_made e v direct none_yet ok =
    let closed : (not e.direct || is_some v.subsurface) ≡ false = rw (direct, none_yet) refl in
    if_false (not e.direct || is_some v.subsurface) _ _ closed
    ∙ if_true (ensure_created e.host v.statics e.window Subsurface.fresh).2 _ _ ok

pub create_web_view_made :
    (e : Setup) (v : View)
    → e.backend_made ≡ true
    → v.created ≡ false
    → let (v1, surface_calls) =
        create_subsurface e
          (record v { created = true; backend_size = v.size; device_scale = scale_1 }) in
      let (v2, scale_calls) = apply_scale e v1 in
      let (v3, visibility_calls) = apply_visibility e v2 in
      create_web_view e v ≡ (
        v3,
        new_backend v.size ∷ surface_calls
            ++ (new_view v.private
                ∷ (scale_calls
                    ++ (apply_agent v
                        ++ (apply_content v
                            ++ (enable_features e.features
                                ++ (visibility_calls ++ view_created ∷ [])))))),
      )
unfolding create_web_view
create_web_view_made e v made created =
    if_false (v.created || not e.backend_made) _ _ (ground arith)

abbrev IsStill : List Request → Type 0
IsStill rs = (c : Scene) → scene_after c rs ≡ c

still-append :
    (rs ys : List Request) (c : Scene) → IsStill rs → scene_after c (rs ++ ys) ≡ scene_after c ys
still-append rs ys c still = scene_after-append c rs ys ∙ ap (λ c'. scene_after c' ys) (still c)

agent-IsStill : (v : View) → IsStill (apply_agent v)
unfolding apply_agent scene_after
agent-IsStill v c = ground arith

content-IsStill : (v : View) → IsStill (apply_content v)
unfolding apply_content scene_after
content-IsStill v c = ground arith

features-IsStill : (fs : List Bytes) → IsStill (enable_features fs)
unfolding enable_features scene_after
features-IsStill [] c = refl
features-IsStill (f ∷ fs) c = ground (arith, features-IsStill fs c)

-- Of what is asked for after the surface, only the visibility reaches it.
rest-scene :
    (e : Setup) (v : View) (c : Scene) (scale_calls visibility_calls : List Request)
    → IsStill scale_calls
    → scene_after c (
        new_view v.private
        ∷ (scale_calls
            ++ (apply_agent v
                ++ (apply_content v
                    ++ (enable_features e.features ++ (visibility_calls ++ view_created ∷ []))))))
      ≡ scene_after c visibility_calls
unfolding scene_after
rest-scene e v c scale_calls visibility_calls still =
    let end = visibility_calls ++ view_created ∷ [] in
    let features = enable_features e.features ++ end in
    let content = apply_content v ++ features in
    still-append scale_calls (apply_agent v ++ content) c still
    ∙ (still-append (apply_agent v) content c (agent-IsStill v)
        ∙ (still-append (apply_content v) features c (content-IsStill v)
            ∙ (still-append (enable_features e.features) end c (features-IsStill e.features)
                ∙ scene_after-append c visibility_calls (view_created ∷ []))))

new_backend-scene :
    (c : Scene) (n : Size) (rs : List Request)
    → scene_after c (new_backend n ∷ rs) ≡ scene_after c rs
unfolding scene_after
new_backend-scene c n rs = refl

pub subsurface-IsPlaced :
    (e : Setup) (v : View)
    → e.direct ≡ true
    → v.subsurface ≡ none
    → v.created ≡ true
    → (ensure_created e.host v.statics e.window Subsurface.fresh).2 ≡ true
    → let s = (ensure_created e.host v.statics e.window Subsurface.fresh).0 in
      let r = create_subsurface e v in IsPlaced e r.0 (scene_after origin r.1) s.hidden
subsurface-IsPlaced e v direct none_yet created ok =
    let s = (ensure_created e.host v.statics e.window Subsurface.fresh).0 in
    let calls = (ensure_created e.host v.statics e.window Subsurface.fresh).1 in
    let after = settled e v s in
    rw
      (
        create_subsurface_made e v direct none_yet ok,
        scene_after-append origin (map on_surface calls) after.1,
        surface-scene origin calls,
      )
      (settled-IsPlaced e v (latch origin calls) s (window_needed e.host v.statics e.window ok)
        (ensure_created-IsShown e.host v.statics e.window ok) created)

-- After the view is made, its surface is active and where the view is, and hidden if the view is.
pub create-IsPlaced :
    (e : Setup) (v : View)
    → IsDirect e v
    → let r = create_web_view e v in IsPlaced e r.0 (scene_after origin r.1) (not r.0.visible)
create-IsPlaced e v start =
    let v0 = record v { created = true; backend_size = v.size; device_scale = scale_1 } in
    let h0 = (ensure_created e.host v.statics e.window Subsurface.fresh).0.hidden in
    let r1 = create_subsurface e v0 in
    let r2 = apply_scale e r1.0 in
    let r3 = apply_visibility e r2.0 in
    let quiet = apply_scale-IsQuiet e r1.0 in
    let c1 = scene_after origin r1.1 in
    let c3 = scene_after c1 r3.1 in
    let placed1 = subsurface-IsPlaced e v0 start.direct start.subsurface refl start.succeeds in
    let placed2 : IsPlaced e r2.0 c1 h0 =
      rw⁻¹ (quiet.scene c1) (quiet-IsPlaced e r1.0 r2 c1 h0 quiet placed1) in
    let placed3 =
      rehide e r3.0 c3 (not r2.0.visible) (not r3.0.visible) (ap not (sym (apply_visible e r2.0)))
        (visibility-IsPlaced e r2.0 c1 h0 placed2) in
    let rest =
      new_view v.private
      ∷ (r2.1
          ++ (apply_agent v
              ++ (apply_content v
                  ++ (enable_features e.features ++ (r3.1 ++ view_created ∷ []))))) in
    let still : scene_after origin (new_backend v.size ∷ r1.1 ++ rest) ≡ c3 =
      new_backend-scene origin v.size (r1.1 ++ rest)
      ∙ (scene_after-append origin r1.1 rest ∙ rest-scene e v c1 r2.1 r3.1 quiet.scene) in
    rw (create_web_view_made e v start.made start.created, still) placed3

pub has_window_lem : (e : Setup) (v : View) → IsDirect e v → has_window e ≡ true
has_window_lem e v start = window_needed e.host v.statics e.window start.succeeds
