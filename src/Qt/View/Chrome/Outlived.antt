-- ===== src/Qt/View/Chrome/Outlived.antt =====
-- The surface of a chrome overlay that could not be set up, and the tabs that are made after it.
use atlantic_engine.Base.{
  ℕ, ◌+◌, ◌≡◌, refl, ap, ◌∙◌, Bool, true, false, not, ◌||◌, ◌==◌, none, some, List, [], ◌∷◌, ◌++◌,
  arith, Bool-cases, inl, inr, if_false,
}
use atlantic_engine.Qt.Frames.{is_some}
use atlantic_engine.Qt.Subsurface
use atlantic_engine.Qt.Subsurface.{Statics, place_below, surface, subsurface, fresh, make_if}
use atlantic_engine.Qt.Subsurface.Create.{
  arrange, activate, create_surface, bind_globals, attach, ensure_created,
}
use atlantic_engine.Qt.Overlay.Setup.{Part, create}
use atlantic_engine.Qt.Overlay.Setup.Balance.{made, dropped, new_parts}
use atlantic_engine.Qt.Overlay.Setup.Dangling.{IsPublished, create-dangling}
use atlantic_engine.Qt.Overlay.Setup.Lasting.{lasting}
use atlantic_engine.Qt.View.{Setup}
use atlantic_engine.Qt.View.Chrome.{
  Platform, Act, Tab, surface_valid, overlay_host, make_overlay, create_chrome_overlay_now,
  overlay_calls,
}
use atlantic_engine.Qt.View.Chrome.Balanced.{IsAnnouncedOnce, chrome_held, create_now-Balances}

-- A surface is placed below the surface `n`.
unfoldable pub placed_below : ℕ → List Subsurface.Call → Bool
placed_below n [] = false
placed_below n (place_below m ∷ cs) = m == n || placed_below n cs
placed_below n (c ∷ cs) = placed_below n cs

placed_below-append :
    (n : ℕ) (cs ds : List Subsurface.Call)
    → placed_below n (cs ++ ds) ≡ (placed_below n cs || placed_below n ds)
unfolding placed_below
placed_below-append n [] ds = refl
placed_below-append n (place_below m ∷ cs) ds = ground (arith, placed_below-append n cs ds)
placed_below-append n (c ∷ cs) ds = placed_below-append n cs ds

appended :
    (n : ℕ) (cs ds : List Subsurface.Call)
    → (placed_below n cs || placed_below n ds) ≡ true
    → placed_below n (cs ++ ds) ≡ true
appended n cs ds found = placed_below-append n cs ds ∙ found

arrange-placed :
    (h : Subsurface.Host) (n : ℕ) (s : Subsurface.Surface)
    → placed_below n (arrange h (some n) s) ≡ true
unfolding arrange placed_below
arrange-placed h n s = ground arith

create_surface-placed :
    (h : Subsurface.Host) (n : ℕ) (s : Subsurface.Surface)
    → let r = create_surface h (some n) s in r.2 ≡ true → placed_below n r.1 ≡ true
unfolding create_surface
create_surface-placed h n s =
    let s1 = record s { has_surface = h.surface_made; has_subsurface = h.subsurface_made } in
    let made = make_if h.surface_made surface ++ make_if h.subsurface_made subsurface in
    let calls = (activate h s1).1 in
    elim (Bool-cases (not h.surface_made || not h.subsurface_made)) [
      | inl failed ↦ rw failed (λ ok. ground arith)
      | inr found ↦ rw found (λ ok. appended n made (arrange h (some n) s1 ++ calls) (
          rw (appended n (arrange h (some n) s1) calls (rw (arrange-placed h n s1) refl))
            (ground arith)))
    ]

attach-placed :
    (h : Subsurface.Host) (n : ℕ) (s : Subsurface.Surface)
    → let r = attach h (some n) s in r.2 ≡ true → placed_below n r.1 ≡ true
unfolding attach
attach-placed h n s =
    let b = bind_globals h s in
    let c = create_surface h (some n) b.0 in
    elim (Bool-cases (not s.display || not (is_some s.parent))) [
      | inl closed ↦ rw closed (λ ok. ground arith)
      | inr open_ ↦ elim (Bool-cases (not b.2)) [
        | inl missing ↦ rw (open_, missing) (λ ok. ground arith)
        | inr found ↦
            rw (open_, found)
              (λ ok. appended n b.1 c.1 (rw (create_surface-placed h n b.0 ok) (ground arith)))
      ]
    ]

ensure_created-placed :
    (h : Subsurface.Host) (g : Statics) (n window : ℕ)
    → g.chrome_surface ≡ some n
    → let r = ensure_created h g (some window) fresh in r.2 ≡ true → placed_below n r.1 ≡ true
unfolding ensure_created
ensure_created-placed h g n window chrome = elim (Bool-cases (not h.native_interface)) [
  | inl without ↦ rw without (λ ok. ground arith)
  | inr native ↦ rw (native, chrome) (λ ok. attach-placed h n _ ok)
]

-- An overlay that is set up as far as its surface `n`, and fails after that.
pub record IsLateFailure (e : Setup) (p : Platform) (t : Tab) (n : ℕ) : Type 0 where
  pub bare : t.chrome ≡ none
  pub shown : surface_valid t.view.subsurface ≡ true
  pub window : is_some e.window ≡ true
  pub native : p.native_interface ≡ true
  pub at : p.host.surface_made ≡ some n
  pub published : IsPublished (overlay_host p t.view.size) new_parts
  pub failed : (create (overlay_host p t.view.size) t.view.statics new_parts).3 ≡ false

create_now-tried :
    (e : Setup) (p : Platform) (t : Tab) (n : ℕ)
    → IsLateFailure e p t n
    → create_chrome_overlay_now e p t ≡ make_overlay e (overlay_host p t.view.size) t
unfolding create_chrome_overlay_now
create_now-tried e p t n late =
    let h = overlay_host p t.view.size in
    if_false (is_some t.chrome || not (surface_valid t.view.subsurface)) _ _
      (ground (arith, ap (λ c. is_some c) late.bare, late.shown))
    ∙ (if_false (not (is_some e.window) || not p.native_interface) _ _
          (ground (arith, late.window, late.native))
        ∙ if_false ((not h.display || not h.parent) || h.size_empty) _ _
            (ground (arith, late.published.display, late.published.parent, late.published.size)))

make_overlay-chrome_surface :
    (e : Setup) (p : Platform) (t : Tab) (n : ℕ)
    → IsLateFailure e p t n
    → let r = make_overlay e (overlay_host p t.view.size) t in
      (r.0.chrome ≡ none) × (r.0.view.statics.chrome_surface ≡ some n)
unfolding make_overlay overlay_host
make_overlay-chrome_surface e p t n late =
    let h = overlay_host p t.view.size in
    let published = (create-dangling h t.view.statics new_parts late.published).0 in
    rw late.failed (late.bare, published ∙ late.at)

-- Take the overlay of a view that is set up as far as its surface `n` and fails after that. The view is
-- left without an overlay, and all that was created for it is destroyed, the surface `n` with it,
-- whatever kind of part is counted, but for shaders and programs, which stay. Each surface of a tab that is set up with
-- success after that is still placed below `n`. The view has a surface and a window, and the registry
-- announces each of the two globals at most once.
pub ensure_created-create_chrome_overlay_now :
    (k : Part → ℕ) (e : Setup) (p : Platform) (t : Tab) (n : ℕ)
    → IsLateFailure e p t n
    → IsAnnouncedOnce p.host
    → (h : Subsurface.Host) (window : ℕ)
    → (ensure_created h (create_chrome_overlay_now e p t).0.view.statics (some window) fresh).2
      ≡ true
    → let (t1, acts) = create_chrome_overlay_now e p t in
      let (s, calls, ok) = ensure_created h t1.view.statics (some window) fresh in
      (t1.chrome ≡ none)
      × (made k (overlay_calls acts)
          ≡ dropped k (overlay_calls acts) + made (lasting k) (overlay_calls acts))
      × (placed_below n calls ≡ true)
unfolding chrome_held
ensure_created-create_chrome_overlay_now k e p t n late once h window ok =
    let r = create_chrome_overlay_now e p t in
    let tried = create_now-tried e p t n late in
    let (gone, chrome) = make_overlay-chrome_surface e p t n late in
    let bare1 = ap (λ (r : Tab × List Act). r.0.chrome) tried ∙ gone in
    let all = create_now-Balances k e p t once in
    (
      bare1,
      omega (arith, all, ap (chrome_held k) late.bare, ap (chrome_held k) bare1),
      ensure_created-placed h r.0.view.statics n window
          (ap (λ (r : Tab × List Act). r.0.view.statics.chrome_surface) tried ∙ chrome) ok,
    )
