-- ===== src/Qt/Overlay/Setup/Dangling.antt =====
-- The surface that the overlay publishes, when setting it up fails later.
use atlantic_engine.Base.{
  if_false, ◌≡◌, refl, ap, ◌∙◌, Bool, true, false, not, ◌||◌, none, List, arith,
}
use atlantic_engine.Qt.Frames.{is_some}
use atlantic_engine.Qt.Subsurface.{Statics}
use atlantic_engine.Qt.Overlay.Setup.{
  Call, Host, Parts, bind_globals, set_up, or_destroy, destroy, publish, create,
}

abbrev Result : Type 0
Result = Statics × Parts × List Call × Bool

-- Setting up succeeded, or no surface is left.
abbrev IsGone : Parts × List Call × Bool → Type 0
IsGone r = (r.2 || not (is_some r.0.surface_at)) ≡ true

or_destroy-IsGone : (r : Parts × List Call × Bool) → IsGone (or_destroy r)
unfolding or_destroy destroy
or_destroy-IsGone (o, calls, true) = refl
or_destroy-IsGone (o, calls, false) = refl

-- The steps of `create` up to the two surfaces succeed.
pub record IsPublished (h : Host) (o : Parts) : Type 0 where
  pub fresh : o.valid ≡ false
  pub display : h.display ≡ true
  pub parent : h.parent ≡ true
  pub size : h.size_empty ≡ false
  pub found : (bind_globals h o).2 ≡ true
  pub surface : is_some h.surface_made ≡ true
  pub subsurface : h.subsurface_made ≡ true

publish-chrome :
    (h : Host) (g : Statics) (o : Parts)
    → is_some h.surface_made ≡ true
    → h.subsurface_made ≡ true
    → let r = publish h g o in
      (r.0.chrome_surface ≡ h.surface_made) × ((r.3 || not (is_some r.1.surface_at)) ≡ true)
unfolding publish
publish-chrome h g o made sub =
    let o1 = record o { surface_at = h.surface_made; has_subsurface = h.subsurface_made } in
    let chosen =
      if_false (not (is_some h.surface_made) || not h.subsurface_made) _ _ (ground arith) in
    (
      ap (λ (r : Result). r.0.chrome_surface) chosen,
      ap (λ (r : Result). r.3 || not (is_some r.1.surface_at)) chosen
          ∙ or_destroy-IsGone (set_up h o1),
    )

-- Once the overlay has made its surface, the pointer that it publishes to the tabs stays on that
-- surface: if a later step of setting the overlay up fails, or when it is destroyed afterwards, the
-- surface is gone and the pointer is not taken back. The steps up to the two surfaces succeed.
pub create-dangling :
    (h : Host) (g : Statics) (o : Parts)
    → IsPublished h o
    → let r = create h g o in
      (r.0.chrome_surface ≡ h.surface_made)
      × ((r.3 || not (is_some r.1.surface_at)) ≡ true)
      × ((destroy r.1).0.surface_at ≡ none)
unfolding create destroy
create-dangling h g o published =
    let o1 = (bind_globals h o).0 in
    let (chrome, gone) = publish-chrome h g o1 published.surface published.subsurface in
    let chosen =
      if_false o.valid _ _ published.fresh
      ∙ (if_false ((not h.display || not h.parent) || h.size_empty) _ _
            (ground (arith, published.display, published.parent, published.size))
          ∙ if_false (not (bind_globals h o).2) _ _ (ap not published.found)) in
    (
      ap (λ (r : Result). r.0.chrome_surface) chosen ∙ chrome,
      ap (λ (r : Result). r.3 || not (is_some r.1.surface_at)) chosen ∙ gone,
      refl,
    )
