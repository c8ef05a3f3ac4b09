-- ===== src/Qt/View/Closing/Released.antt =====
-- When a view is destroyed, what it created for its surface is destroyed, and no handler has it as its
-- data any more.
use atlantic_engine.Base.{
  ℕ, ◌≡◌, refl, ap, ◌∙◌, Bool, Option, none, some, List, [], ◌∷◌, ◌++◌, if◌then◌else◌, arith, map,
}
use atlantic_engine.Qt.Subsurface
use atlantic_engine.Qt.Subsurface.{Handle, shader, Surface, destroy}
use atlantic_engine.Qt.Subsurface.Show.{set_visible}
use atlantic_engine.Qt.Subsurface.Handles.{made, dropped, made-append, dropped-append}
use atlantic_engine.Qt.Subsurface.Handles.Created.{AnnouncedOnce, made-destroy}
use atlantic_engine.Qt.View.{Setup, View}
use atlantic_engine.Qt.View.Closing.{
  Farewell, delete_overlay, last_call, disconnects, handlers, handlers_after, of_view, destroy_view,
  delete_subsurface, set_web_content_surface_visible, Step, creates, sets, shows, perform,
  perform_all, calls_of, last_calls,
}
use atlantic_engine.Qt.View.Closing.Kept.{
  Balances, append-Balances, still-Balances, surface-Balances, set_visible-IsBalanced, view_held,
}
use atlantic_engine.Qt.View.Closing.Stepped.{set-Balances}
use atlantic_engine.Qt.View.Closing.Handlers.{destroy_view-handlers}
use atlantic_engine.Qt.View.Closing.Made.{create-Balances}

shows-Balances :
    (k : Handle → ℕ) (b : Bool) (o : Option Surface) (v : View)
    → v.subsurface ≡ o
    → let r = set_web_content_surface_visible b o v in Balances k o r.0.subsurface r.1
unfolding set_web_content_surface_visible calls_of
shows-Balances k b none v found = still-Balances k none v.subsurface [] found refl
shows-Balances k b (some s) v found =
    surface-Balances k s (set_visible b s).0 (set_visible b s).1 (set_visible-IsBalanced k b s)

perform-Balances :
    (k : Handle → ℕ) (e : Setup) (v : View) (s : Step)
    → k shader ≡ 0
    → AnnouncedOnce e.host
    → let r = perform e v s in Balances k v.subsurface r.0.subsurface r.1
unfolding perform
perform-Balances k e v creates free once = create-Balances k e v free once
perform-Balances k e v (sets s) free once = set-Balances k e s v
perform-Balances k e v (shows b) free once = shows-Balances k b v.subsurface v refl

perform_all-Balances :
    (k : Handle → ℕ) (e : Setup) (v : View) (ss : List Step)
    → k shader ≡ 0
    → AnnouncedOnce e.host
    → let r = perform_all e v ss in Balances k v.subsurface r.0.subsurface r.1
unfolding perform_all calls_of
perform_all-Balances k e v [] free once = still-Balances k v.subsurface v.subsurface [] refl refl
perform_all-Balances k e v (s ∷ ss) free once =
    let r = perform e v s in
    let r' = perform_all e r.0 ss in
    append-Balances k v.subsurface r.0.subsurface r'.0.subsurface r.1 r'.1
      (perform-Balances k e v s free once) (perform_all-Balances k e r.0 ss free once)

last_calls-append : (xs ys : List Farewell) → last_calls (xs ++ ys) ≡ last_calls xs ++ last_calls ys
unfolding last_calls
last_calls-append [] ys = refl
last_calls-append (last_call call ∷ xs) ys = ap (λ cs. call ∷ cs) (last_calls-append xs ys)
last_calls-append (f ∷ xs) ys = last_calls-append xs ys

last_calls-surface : (cs : List Subsurface.Call) → last_calls (map last_call cs) ≡ cs
unfolding last_calls
last_calls-surface [] = refl
last_calls-surface (c ∷ cs) = ap (λ cs. c ∷ cs) (last_calls-surface cs)

-- The destructor creates nothing, and destroys what is held.
delete_lem :
    (k : Handle → ℕ) (o : Option Surface)
    → (made k (last_calls (delete_subsurface o)) ≡ 0)
      × (dropped k (last_calls (delete_subsurface o)) ≡ view_held k o)
unfolding delete_subsurface view_held made dropped last_calls
delete_lem k none = (refl, refl)
delete_lem k (some s) = rw (last_calls-surface (destroy s).1) (made-destroy k s, refl)

overlay-last_calls : (b : Bool) → last_calls (if b then delete_overlay ∷ [] else []) ≡ []
unfolding last_calls
overlay-last_calls b = ground arith

disconnects-last_calls :
    (b has_list : Bool) → last_calls (if b then disconnects has_list else []) ≡ []
unfolding last_calls disconnects
disconnects-last_calls b has_list = ground arith

destroy_view-last_calls :
    (has_list : Bool) (v : View)
    → last_calls (destroy_view has_list v) ≡ last_calls (delete_subsurface v.subsurface) ++ []
unfolding destroy_view
destroy_view-last_calls has_list v =
    let overlay = if v.overlay then delete_overlay ∷ [] else [] in
    let rest = if v.created then disconnects has_list else [] in
    let deleted = delete_subsurface v.subsurface in
    last_calls-append overlay (deleted ++ rest)
    ∙ (ap (λ cs. cs ++ last_calls (deleted ++ rest)) (overlay-last_calls v.overlay)
        ∙ (last_calls-append deleted rest
            ∙ ap (λ cs. last_calls deleted ++ cs) (disconnects-last_calls v.created has_list)))

nothing : (k : Handle → ℕ) → (made k [] ≡ 0) × (dropped k [] ≡ 0)
unfolding made dropped
nothing k = (refl, refl)

-- Take a view without a surface, and any order of making its web view, changing its settings and
-- showing or hiding its surface. Whatever the answers of Qt, Wayland and EGL are, and whether setting
-- the surface up succeeds or fails at any step, once the view is destroyed everything that was created
-- for its surface has been destroyed, and exactly once: for every way to weigh the kinds of handles,
-- the two sums are equal. Shaders are left out, and the registry announces each of the two globals at
-- most once. No handler that has the view as its data is connected to its web view any more, with or
-- without a back-forward list and whatever the embedder has connected.
pub destroy_view-perform_all :
    (k : Handle → ℕ) (e : Setup) (v : View) (ss : List Step) (has_list : Bool) (ns : List ℕ)
    → v.subsurface ≡ none
    → k shader ≡ 0
    → AnnouncedOnce e.host
    → let (v1, asked) = perform_all e v ss in
      let end = destroy_view has_list v1 in
      let calls = calls_of asked ++ last_calls end in
      (dropped k calls ≡ made k calls)
      × (of_view (handlers_after end (handlers has_list v1 ns)) ≡ [])
unfolding view_held
destroy_view-perform_all k e v ss has_list ns bare free once =
    let r = perform_all e v ss in
    let deleted = last_calls (delete_subsurface r.0.subsurface) in
    let (none_made, all_dropped) = delete_lem k r.0.subsurface in
    let sum = (perform_all-Balances k e v ss free once).sum in
    (
      rw (destroy_view-last_calls has_list r.0) (
          omega (
            arith,
            made-append k (calls_of r.1) (deleted ++ []),
            dropped-append k (calls_of r.1) (deleted ++ []),
            made-append k deleted [],
            dropped-append k deleted [],
            nothing k,
            none_made,
            all_dropped,
            sum,
            ap (view_held k) bare,
          )),
      destroy_view-handlers has_list r.0 ns,
    )
