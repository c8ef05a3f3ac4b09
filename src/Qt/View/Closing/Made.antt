-- ===== src/Qt/View/Closing/Made.antt =====
-- What a view creates for its surface is destroyed or still held: making the view.
use atlantic_engine.Base.{
  ℕ, ◌≡◌, refl, sym, ap, ◌∙◌, Bool, true, false, Option-cases, not, ◌||◌, Option, none, some, List,
  [], ◌∷◌, ◌++◌, arith, inl, inr, map, if_true, Bytes,
}
use mathlib.Core.Path.{subst}
use atlantic_engine.Qt.Frames.{is_some}
use atlantic_engine.Qt.Subsurface.{Handle, shader, Surface, fresh, destroy}
use atlantic_engine.Qt.Subsurface.Create.{ensure_created}
use atlantic_engine.Qt.Subsurface.Handles.{dropped, made-append, dropped-append, held}
use atlantic_engine.Qt.Subsurface.Handles.Created.{AnnouncedOnce, fresh-IsBalanced, made-destroy}
use atlantic_engine.Qt.View.{
  scale_1, Setup, Request, new_backend, new_view, view_created, on_surface, View, backend_set_scale,
  apply_scale, apply_agent, apply_content, enable_features, create_subsurface, create_web_view,
  maybe_create_chrome_overlay, update_subsurface_geometry, apply_visibility,
}
use atlantic_engine.Qt.View.Closing.{calls_of}
use atlantic_engine.Qt.View.Closing.Kept.{
  Balances, append-Balances, still-Balances, view_held, calls-surface,
}
use atlantic_engine.Qt.View.Closing.Stepped.{
  overlay-Balances, update-Balances, visibility-Balances, if-Balances,
}

fresh-held : (k : Handle → ℕ) → held k fresh ≡ 0
unfolding dropped destroy
fresh-held k = refl

ensure-Balances :
    (k : Handle → ℕ) (e : Setup) (v : View)
    → k shader ≡ 0
    → AnnouncedOnce e.host
    → let (s, calls, ok) = ensure_created e.host v.statics e.window fresh in
      Balances k none (some s) (map on_surface calls)
      × Balances k none none (map on_surface (calls ++ (destroy s).1))
unfolding view_held
ensure-Balances k e v free once =
    let r = ensure_created e.host v.statics e.window fresh in
    let sum = fresh-IsBalanced k e.host v.statics e.window free once in
    (
      record { sum = rw (calls-surface r.1) (omega (arith, sum, fresh-held k)) },
      record {
        sum = rw (calls-surface (r.1 ++ (destroy r.0).1)) (
            omega (
              arith,
              sum,
              fresh-held k,
              made-append k r.1 (destroy r.0).1,
              dropped-append k r.1 (destroy r.0).1,
              made-destroy k r.0,
            ));
      },
    )

or_true : (b : Bool) → (b || true) ≡ true
or_true true = refl
or_true false = refl

create_subsurface-Balances :
    (k : Handle → ℕ) (e : Setup) (v : View)
    → k shader ≡ 0
    → AnnouncedOnce e.host
    → let r = create_subsurface e v in Balances k v.subsurface r.0.subsurface r.1
unfolding create_subsurface calls_of
create_subsurface-Balances k e v free once = elim (Option-cases v.subsurface) [
  | inl none_yet ↦
      let r = ensure_created e.host v.statics e.window fresh in
      let (made_, failed) = ensure-Balances k e v free once in
      let v0 = record v { subsurface = some r.0 } in
      let r1 = update_subsurface_geometry e v0 in
      let r2 = maybe_create_chrome_overlay e r1.0 in
      let calls = map on_surface r.1 in
      let placed =
        append-Balances k (some r.0) r1.0.subsurface r2.0.subsurface r1.1 r2.1
          (update-Balances k e v0) (overlay-Balances k e r1.0) in
      let succeeds =
        append-Balances k none (some r.0) r2.0.subsurface calls (r1.1 ++ r2.1) made_ placed in
      let fails =
        subst (λ o. Balances k none o (map on_surface (r.1 ++ (destroy r.0).1))) (sym none_yet)
          failed in
      let skipped = still-Balances k none v.subsurface [] none_yet refl in
      let opened =
        if-Balances k r.2 none (r2.0, calls ++ (r1.1 ++ r2.1))
          (v, map on_surface (r.1 ++ (destroy r.0).1)) succeeds fails in
      subst (λ o. Balances k o (create_subsurface e v).0.subsurface (create_subsurface e v).1)
        (sym none_yet)
        (if-Balances k (not e.direct || is_some v.subsurface) none (v, []) _ skipped opened)
  | inr (s, found) ↦
      let closed : (not e.direct || is_some v.subsurface) ≡ true =
        ap (λ o. not e.direct || is_some o) found ∙ or_true (not e.direct) in
      subst (λ (r : View × List Request). Balances k v.subsurface r.0.subsurface r.1)
        (sym (if_true (not e.direct || is_some v.subsurface) _ _ closed))
        (still-Balances k v.subsurface v.subsurface [] refl refl)
]

apply_scale-Balances :
    (k : Handle → ℕ) (e : Setup) (v : View)
    → let r = apply_scale e v in Balances k v.subsurface r.0.subsurface r.1
unfolding apply_scale backend_set_scale calls_of
apply_scale-Balances k e v =
    still-Balances k v.subsurface (apply_scale e v).0.subsurface (apply_scale e v).1 (ground arith)
      (ground arith)

agent-calls : (v : View) → calls_of (apply_agent v) ≡ []
unfolding apply_agent calls_of
agent-calls v = ground arith

content-calls : (v : View) → calls_of (apply_content v) ≡ []
unfolding apply_content calls_of
content-calls v = ground arith

features-calls : (fs : List Bytes) → calls_of (enable_features fs) ≡ []
unfolding enable_features calls_of
features-calls [] = refl
features-calls (f ∷ fs) = ground (arith, features-calls fs)

quiet-Balances :
    (k : Handle → ℕ) (o o' : Option Surface) (rs ys : List Request)
    → calls_of rs ≡ []
    → Balances k o o' ys
    → Balances k o o' (rs ++ ys)
quiet-Balances k o o' rs ys quiet rest =
    append-Balances k o o o' rs ys (still-Balances k o o rs refl quiet) rest

pub create-Balances :
    (k : Handle → ℕ) (e : Setup) (v : View)
    → k shader ≡ 0
    → AnnouncedOnce e.host
    → let r = create_web_view e v in Balances k v.subsurface r.0.subsurface r.1
unfolding create_web_view calls_of
create-Balances k e v free once =
    let v0 = record v { created = true; backend_size = v.size; device_scale = scale_1 } in
    let r1 = create_subsurface e v0 in
    let r2 = apply_scale e r1.0 in
    let r3 = apply_visibility e r2.0 in
    let o = r2.0.subsurface in
    let o3 = r3.0.subsurface in
    let end = r3.1 ++ view_created ∷ [] in
    let last =
      append-Balances k o o3 o3 r3.1 (view_created ∷ []) (visibility-Balances k e r2.0)
        (still-Balances k o3 o3 (view_created ∷ []) refl refl) in
    let features = enable_features e.features ++ end in
    let content = apply_content v ++ features in
    let agent = apply_agent v ++ content in
    let quiet = quiet-Balances k o o3 (apply_agent v) content (agent-calls v) (
      quiet-Balances k o o3 (apply_content v) features (content-calls v) (
        quiet-Balances k o o3 (enable_features e.features) end (features-calls e.features) last)) in
    let scaled =
      append-Balances k r1.0.subsurface o o3 r2.1 agent (apply_scale-Balances k e r1.0) quiet in
    let viewed =
      quiet-Balances k r1.0.subsurface o3 (new_view v.private ∷ []) (r2.1 ++ agent) refl scaled in
    let surfaced =
      append-Balances k v.subsurface r1.0.subsurface o3 r1.1 (new_view v.private ∷ r2.1 ++ agent)
        (create_subsurface-Balances k e v0 free once) viewed in
    let whole =
      quiet-Balances k v.subsurface o3 (new_backend v.size ∷ [])
        (r1.1 ++ (new_view v.private ∷ r2.1 ++ agent)) refl surfaced in
    if-Balances k (v.created || not e.backend_made) v.subsurface (v, [])
      (r3.0, new_backend v.size ∷ r1.1 ++ (new_view v.private ∷ r2.1 ++ agent))
      (still-Balances k v.subsurface v.subsurface [] refl refl) whole
