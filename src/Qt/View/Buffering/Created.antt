-- ===== src/Qt/View/Buffering/Created.antt =====
-- The view and the page that `createWebView` leaves, written out.
use atlantic_engine.Base.{
  if_true, if_false, ℕ, ◌≡◌, refl, ap, ◌∙◌, true, false, not, ◌||◌, none, List, [], ◌∷◌, ◌++◌,
  if◌then◌else◌, arith, Bytes, nonempty, ◌==◌,
}
use atlantic_engine.Qt.Frames.{is_some}
use atlantic_engine.Qt.View.{
  is_valid, scale_1, Setup, Request, new_backend, new_view, set_user_agent, activity, view_created,
  View, create_web_view, create_subsurface, apply_scale, apply_agent, apply_content,
  apply_visibility, show_surface, enable_features, backend_set_scale,
}
use atlantic_engine.Qt.View.Buffering.{blank, at, markup, Page, new_page, told, IsEarly}

told-features :
    (p : Page) (xs : List Bytes) (rest : List Request)
    → told p (enable_features xs ++ rest) ≡ told p rest
unfolding told enable_features
told-features p [] rest = refl
told-features p (x ∷ xs) rest = ground (arith, told-features p xs rest)

-- The scale and the page after `createWebView`, written out.
abbrev pub scale_of : Setup → View → ℕ
scale_of e v =
    if (not e.true_scale || v.pending_scale == 0) || v.pending_scale == scale_1
    then scale_1
    else v.pending_scale

abbrev pub page_of : Setup → View → Page
page_of e v = record {
  size =
      if is_valid v.size
      then record {
        width = e.logical v.size.width (scale_of e v);
        height = e.logical v.size.height (scale_of e v);
      }
      else v.size;
  zoom = if e.true_scale then scale_1 else v.pending_scale;
  scale = scale_of e v;
  agent = v.pending_agent;
  content =
      if nonempty v.url
      then at v.url
      else if nonempty v.html
      then markup v.html v.base_url
      else blank;
  visible = v.visible;
}

abbrev pub view_of : Setup → View → View
view_of e v = record v { created = true; backend_size = v.size; device_scale = scale_of e v }

create_subsurface-off : (e : Setup) (v : View) → e.direct ≡ false → create_subsurface e v ≡ (v, [])
unfolding create_subsurface
create_subsurface-off e v off = if_true (not e.direct || is_some v.subsurface) _ _ (ground arith)

-- The view in `createWebView` when the scale is applied.
abbrev base_of : View → View
base_of v = record v { created = true; backend_size = v.size; device_scale = scale_1 }

apply_scale-view_of : (e : Setup) (v : View) → (apply_scale e (base_of v)).0 ≡ view_of e v
unfolding apply_scale backend_set_scale
apply_scale-view_of e v = ground arith

apply_scale-told :
    (e : Setup) (v : View) (rest : List Request)
    → IsEarly e v
    → let q = page_of e v in
      told (new_page v.size) ((apply_scale e (base_of v)).1 ++ rest)
      ≡ told (record (new_page v.size) { size = q.size; zoom = q.zoom; scale = q.scale }) rest
unfolding apply_scale backend_set_scale told
apply_scale-told e v rest early =
    ground (arith, early.divided v.size.width, early.divided v.size.height)

pub apply_visibility-none :
    (e : Setup) (v : View)
    → v.created ≡ true
    → v.subsurface ≡ none
    → apply_visibility e v ≡ (v, activity v.visible ∷ [])
unfolding apply_visibility show_surface
apply_visibility-none e v made off =
    if_false (not v.created) _ _ (ground arith)
    ∙ ap (λ o. ((show_surface e o v).0, activity v.visible ∷ (show_surface e o v).1)) off

-- `createWebView` after the subsurface.
abbrev rest_of : Setup → View → View × List Request → View × List Request
rest_of e v r =
    let w = apply_scale e r.0 in
    let u = apply_visibility e w.0 in
    (
      u.0,
      new_backend v.size
          ∷ (r.1
              ++ (new_view v.private
                  ∷ (w.1
                      ++ (apply_agent v
                          ++ (apply_content v
                              ++ (enable_features e.features ++ (u.1 ++ view_created ∷ []))))))),
    )

create-rest_of :
    (e : Setup) (v : View) → IsEarly e v → create_web_view e v ≡ rest_of e v (base_of v, [])
unfolding create_web_view
create-rest_of e v early =
    if_false (v.created || not e.backend_made) _ _ (ground arith)
    ∙ ap (rest_of e v) (create_subsurface-off e (base_of v) early.direct)

shown_at_end :
    (e : Setup) (v : View)
    → IsEarly e v
    → apply_visibility e (apply_scale e (base_of v)).0 ≡ (view_of e v, activity v.visible ∷ [])
shown_at_end e v early =
    ap (λ w. apply_visibility e w) (apply_scale-view_of e v)
    ∙ apply_visibility-none e (view_of e v) refl early.subsurface

pub create-view_of : (e : Setup) (v : View) → IsEarly e v → (create_web_view e v).0 ≡ view_of e v
create-view_of e v early =
    ap (λ r. r.0) (create-rest_of e v early) ∙ ap (λ r. r.0) (shown_at_end e v early)

apply_agent-told :
    (p : Page) (v : View) (rest : List Request)
    → p.agent ≡ []
    → told p (apply_agent v ++ rest) ≡ told (record p { agent = v.pending_agent }) rest
unfolding apply_agent told
apply_agent-told p v rest empty = by_agent v.pending_agent
  where
    by_agent :
        (a : Bytes)
        → told p ((if nonempty a then set_user_agent a ∷ [] else []) ++ rest)
          ≡ told (record p { agent = a }) rest
    by_agent [] = ap (λ a. told (record p { agent = a }) rest) empty
    by_agent (c ∷ a) = refl

apply_content-told :
    (p : Page) (v : View) (rest : List Request)
    → p.content ≡ blank
    → told p (apply_content v ++ rest)
      ≡ told
          (record p {
            content =
                if nonempty v.url
                then at v.url
                else if nonempty v.html
                then markup v.html v.base_url
                else blank;
          })
          rest
unfolding apply_content told
apply_content-told p v rest empty = ground arith

pub create-told :
    (e : Setup) (v : View) (p : Page) → IsEarly e v → told p (create_web_view e v).1 ≡ page_of e v
unfolding told
create-told e v p early =
    ap (λ r. told p r.1) (create-rest_of e v early)
    ∙ (apply_scale-told e v _ early
        ∙ (apply_agent-told _ v _ refl
            ∙ (apply_content-told _ v _ refl
                ∙ (told-features _ e.features _
                    ∙ ap
                        (λ r.
                          told (record (page_of e v) { visible = true }) (r.1 ++ view_created ∷ []))
                        (shown_at_end e v early)))))
