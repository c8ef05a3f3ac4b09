-- ===== src/Qt/View/OnScreen/Followed.antt =====
-- The surface and the page follow the view: any series of settings after the view is made.
use atlantic_engine.Base.{
  ◌≡◌, ap, ◌∙◌, Bool, not, List, [], ◌∷◌, ◌++◌, if◌then◌else◌, refl, true, false,
}
use atlantic_engine.Base.Int.{pos, ◌+ℤ◌}
use atlantic_engine.Qt.Subsurface.Show.{offscreen_offset}
use atlantic_engine.Qt.Subsurface.Position.{Scene, origin}
use atlantic_engine.Qt.View.{Setup, View, has_window, create_web_view}
use atlantic_engine.Qt.View.Buffering.{Setting, set}
use atlantic_engine.Qt.View.OnScreen.{
  scene_after, told_visible, set_each, scene_after-append, told_visible-append,
}
use atlantic_engine.Qt.View.OnScreen.Placed.{IsPlaced}
use atlantic_engine.Qt.View.OnScreen.Kept.{set-IsPlaced}
use atlantic_engine.Qt.View.OnScreen.Created.{IsDirect, create-IsPlaced, has_window_lem}
use atlantic_engine.Qt.View.OnScreen.Told.{create-told, set-told}

-- The surface is where the view is, and the page knows whether it is visible.
record IsFollowed (e : Setup) (v : View) (c : Scene) (b : Bool) : Type 0 where
  placed : IsPlaced e v c (not v.visible)
  told : b ≡ v.visible

set_each-IsFollowed :
    (e : Setup) (v : View) (c : Scene) (b : Bool) (ss : List Setting)
    → has_window e ≡ true
    → IsFollowed e v c b
    → let r = set_each e v ss in IsFollowed e r.0 (scene_after c r.1) (told_visible b r.1)
unfolding set_each scene_after told_visible
set_each-IsFollowed e v c b [] window followed = followed
set_each-IsFollowed e v c b (s ∷ ss) window followed =
    let r1 = set e v s in
    let r2 = set_each e r1.0 ss in
    let told =
      ap (λ b. told_visible b r1.1) followed.told ∙ set-told e v s followed.placed.created in
    rw (scene_after-append c r1.1 r2.1, told_visible-append b r1.1 r2.1)
      (set_each-IsFollowed e r1.0 (scene_after c r1.1) (told_visible b r1.1) ss window
        (record { placed = set-IsPlaced e v c s window followed.placed; told = told }))

-- Where the compositor should show the surface of a view.
abbrev pub IsAt : Setup → View → Scene → Type 0
IsAt e v c =
    (c.x ≡ (e.scene_rect v.size).x)
    × (c.y ≡ (e.scene_rect v.size).y +ℤ (if v.visible then pos 0 else offscreen_offset))

flipped :
    (b : Bool)
    → (if not b then offscreen_offset else pos 0) ≡ (if b then pos 0 else offscreen_offset)
flipped true = refl
flipped false = refl

at_lem : (e : Setup) (v : View) (c : Scene) → IsPlaced e v c (not v.visible) → IsAt e v c
at_lem e v c placed =
    let s = placed.surface in
    let same = placed.shown.applied ∙ placed.geometry in
    (
      placed.shown.x ∙ ap (λ r. r.x) same,
      placed.shown.y
          ∙ (ap (λ r. r.y +ℤ (if s.hidden then offscreen_offset else pos 0)) same
              ∙ (ap (λ h. (e.scene_rect v.size).y +ℤ (if h then offscreen_offset else pos 0))
                    placed.hidden
                  ∙ ap (λ q. (e.scene_rect v.size).y +ℤ q) (flipped v.visible))),
    )

-- Take a view whose frames go to a surface of their own, and whose surface is set up with success when
-- the view is made. After making the view and then any series of changes of size, address, html, user
-- agent, scale and visibility, the compositor shows the surface exactly where the item is for the size
-- that was given last, or 100000 pixels below that if the view is not visible. What the page was told
-- last of its visibility is the visibility of the view.
pub set_each-create_web_view :
    (e : Setup) (v : View) (b : Bool) (ss : List Setting)
    → IsDirect e v
    → let (v1, made) = create_web_view e v in
      let (v2, asked) = set_each e v1 ss in
      IsAt e v2 (scene_after origin (made ++ asked)) × (told_visible b (made ++ asked) ≡ v2.visible)
set_each-create_web_view e v b ss start =
    let r1 = create_web_view e v in
    let r2 = set_each e r1.0 ss in
    let followed =
      set_each-IsFollowed e r1.0 (scene_after origin r1.1) (told_visible b r1.1) ss
        (has_window_lem e v start)
        (record { placed = create-IsPlaced e v start; told = create-told e v b start }) in
    rw (scene_after-append origin r1.1 r2.1, told_visible-append b r1.1 r2.1)
      (at_lem e r2.0 (scene_after (scene_after origin r1.1) r2.1) followed.placed, followed.told)
