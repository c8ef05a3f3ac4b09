-- ===== src/Qt/View/Buffering/Commuting.antt =====
-- Making the view before a setting and after it.
use atlantic_engine.Base.{
  if_true, if_false, ℕ, ◌<◌, ◌≡◌, refl, sym, ap, ◌∙◌, Bool, true, false, not, none, List, [], ◌∷◌,
  ◌++◌, if◌then◌else◌, arith, Bytes, nonempty,
}
use atlantic_engine.Qt.Frames.{is_some}
use atlantic_engine.Qt.View.{
  Size, is_valid, Setup, Request, dispatch_size, View, apply_visibility, show_surface,
  place_surface, backend_set_scale, backend_resize, update_subsurface_geometry,
}
use atlantic_engine.Qt.View.Settings.{
  geometry_changed, set_url, set_html, set_agent, set_scale, set_webkit_visible,
}
use atlantic_engine.Qt.View.Buffering.{
  Page, told, Setting, resized, url, html, agent, scale, visible, set, after, set_all, create,
  IsProper, AllProper, IsEarly,
}
use atlantic_engine.Qt.View.Buffering.Created.{view_of, page_of, create-view_of, create-told}

if_same : {A : Type 0} (b : Bool) (x : A) → (if b then x else x) ≡ x
if_same true x = refl
if_same false x = refl

-- One setting: making the view after it comes to the same as making the view before it.
abbrev Commutes : Setup → View → Setting → Type 0
Commutes e v s =
    (view_of e (set e v s).0 ≡ (set e (view_of e v) s).0)
    × (page_of e (set e v s).0 ≡ told (page_of e v) (set e (view_of e v) s).1)

place-none : (e : Setup) (v : View) → v.subsurface ≡ none → update_subsurface_geometry e v ≡ (v, [])
unfolding update_subsurface_geometry place_surface
place-none e v off =
    ap (λ o. if not (is_some e.window) then (v, []) else place_surface e o v) off
    ∙ if_same (not (is_some e.window)) (v, [])

resize-early :
    (e : Setup) (v : View) (size : Size)
    → IsEarly e v
    → set e v (resized size) ≡ (record v { size = size }, [])
unfolding set geometry_changed
resize-early e v size early =
    ap (λ (r : View × List Request). let q = update_subsurface_geometry e r.0 in (q.0, r.1 ++ q.1))
      (if_false v.created _ _ early.created)
    ∙ place-none e (record v { size = size }) early.subsurface

resize-late :
    (e : Setup) (v : View) (size : Size)
    → v.created ≡ true
    → v.subsurface ≡ none
    → is_valid size ≡ true
    → set e v (resized size) ≡ (
      record v { size = size; backend_size = size },
      dispatch_size (record {
        width = e.logical size.width v.device_scale;
        height = e.logical size.height v.device_scale;
      })
          ∷ [],
    )
unfolding set geometry_changed backend_resize
resize-late e v size made off valid =
    ap (λ (r : View × List Request). let q = update_subsurface_geometry e r.0 in (q.0, r.1 ++ q.1))
      (if_true v.created _ _ made ∙ if_false (not (is_valid size)) _ _ (ap not valid))
    ∙ ap
        (λ (r : View × List Request). (
          r.0,
          dispatch_size (record {
            width = e.logical size.width v.device_scale;
            height = e.logical size.height v.device_scale;
          })
              ∷ r.1,
        ))
        (place-none e (record v { size = size; backend_size = size }) off)

resized-Commutes :
    (e : Setup) (v : View) (size : Size)
    → IsEarly e v
    → is_valid size ≡ true
    → Commutes e v (resized size)
unfolding told
resized-Commutes e v size early valid =
    let before = resize-early e v size early in
    let later = resize-late e (view_of e v) size refl early.subsurface valid in
    (
      ap (λ r. view_of e r.0) before ∙ sym (ap (λ r. r.0) later),
      ap (λ r. page_of e r.0) before
          ∙ (ap (λ q. record (page_of e v) { size = q }) (if_true (is_valid size) _ _ valid)
              ∙ sym (ap (λ r. told (page_of e v) r.1) later)),
    )

url-Commutes :
    (e : Setup) (v : View) (u : Bytes) → IsEarly e v → nonempty u ≡ true → Commutes e v (url u)
unfolding set set_url told
url-Commutes e v u early here = ground arith

html-Commutes :
    (e : Setup) (v : View) (h base : Bytes)
    → IsEarly e v
    → nonempty h ≡ true
    → v.url ≡ []
    → Commutes e v (html h base)
unfolding set set_html told
html-Commutes e v h base early here no_url = ground arith

agent-Commutes : (e : Setup) (v : View) (a : Bytes) → IsEarly e v → Commutes e v (agent a)
unfolding set set_agent told
agent-Commutes e v a early = ground arith

scale-Commutes : (e : Setup) (v : View) (s : ℕ) → IsEarly e v → 0 < s → Commutes e v (scale s)
unfolding set set_scale backend_set_scale told
scale-Commutes e v s early positive =
    ground (arith, early.divided v.size.width, early.divided v.size.height)

visible-Commutes : (e : Setup) (v : View) (b : Bool) → IsEarly e v → Commutes e v (visible b)
unfolding set set_webkit_visible told apply_visibility show_surface
visible-Commutes e v b early = ground arith

set-Commutes : (e : Setup) (v : View) (s : Setting) → IsEarly e v → IsProper v s → Commutes e v s
set-Commutes e v (resized size) early proper = resized-Commutes e v size early proper
set-Commutes e v (url u) early proper = url-Commutes e v u early proper
set-Commutes e v (html h base) early proper = html-Commutes e v h base early proper.0 proper.1
set-Commutes e v (agent a) early proper = agent-Commutes e v a early
set-Commutes e v (scale s) early proper = scale-Commutes e v s early proper
set-Commutes e v (visible b) early proper = visible-Commutes e v b early

resized-IsEarly :
    (e : Setup) (v : View) (size : Size) → IsEarly e v → IsEarly e (set e v (resized size)).0
resized-IsEarly e v size early =
    let eq = resize-early e v size early in
    record {
      made = early.made;
      direct = early.direct;
      created = ap (λ r. r.0.created) eq ∙ early.created;
      subsurface = ap (λ r. r.0.subsurface) eq ∙ early.subsurface;
      divided = early.divided;
    }

-- The members that say that a view is not made yet.
stays-IsEarly :
    (e : Setup) (v w : View)
    → IsEarly e v
    → w.created ≡ v.created
    → w.subsurface ≡ v.subsurface
    → IsEarly e w
stays-IsEarly e v w early c u = record {
  made = early.made;
  direct = early.direct;
  created = c ∙ early.created;
  subsurface = u ∙ early.subsurface;
  divided = early.divided;
}

set-IsEarly : (e : Setup) (v : View) (s : Setting) → IsEarly e v → IsEarly e (set e v s).0
unfolding set set_url set_html set_agent set_scale set_webkit_visible apply_visibility
set-IsEarly e v (resized size) early = resized-IsEarly e v size early
set-IsEarly e v (url u) early = stays-IsEarly e v _ early (ground arith) (ground arith)
set-IsEarly e v (html h base) early = stays-IsEarly e v _ early refl refl
set-IsEarly e v (agent a) early = stays-IsEarly e v _ early refl refl
set-IsEarly e v (scale s) early = stays-IsEarly e v _ early (ground arith) (ground arith)
set-IsEarly e v (visible b) early = stays-IsEarly e v _ early (ground arith) (ground arith)

pair_eq : {A B : Type 0} (a a' : A) (b b' : B) → a ≡ a' → b ≡ b' → ◌≡◌ {A = A × B} (a, b) (a', b')
pair_eq a a' b b' p q = ap (λ x. (x, b)) p ∙ ap (λ y. (a', y)) q

create-after :
    (e : Setup) (v : View) (p : Page) → IsEarly e v → create e (v, p) ≡ (view_of e v, page_of e v)
create-after e v p early = pair_eq _ _ _ _ (create-view_of e v early) (create-told e v p early)

-- Settings made while the view does not exist yet come to the same as the same settings made on the
-- view: the members of the view are equal, and so is all that WebKit was told last, its size, zoom,
-- scale, user agent, content and visibility. The settings have values: a size is valid, a scale is
-- not 0, and a URL, an html text or a user agent is not empty. No html is set where a URL is set
-- already. The backend can be made, and frames go through the Qt scene.
pub set_all-create :
    (e : Setup) (v : View) (p : Page) (settings : List Setting)
    → IsEarly e v
    → AllProper e v settings
    → create e (set_all e (v, p) settings) ≡ set_all e (create e (v, p)) settings
unfolding set_all
set_all-create e v p [] early proper = refl
set_all-create e v p (s ∷ ss) early proper =
    let v1 = (set e v s).0 in
    let p1 = told p (set e v s).1 in
    let early1 = set-IsEarly e v s early in
    let (same_view, same_page) = set-Commutes e v s early proper.0 in
    set_all-create e v1 p1 ss early1 proper.1
    ∙ ap (λ r. set_all e r ss)
        (create-after e v1 p1 early1
          ∙ (pair_eq _ _ _ _ same_view same_page
              ∙ sym (ap (λ r. after r.1 (set e r.0 s)) (create-after e v p early))))
