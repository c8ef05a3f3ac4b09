-- ===== src/Qt/View/OnScreen.antt =====
-- The view, its page and the surface of its frames together: with frames on a surface of their own,
-- what the embedder sets on the view, what the page is told and what the compositor shows.
pub mod Placed
pub mod Told
pub mod Kept
pub mod Created
pub mod Followed
use atlantic_engine.Base.{◌≡◌, refl, sym, ◌∙◌, Bool, true, List, [], ◌∷◌, ◌++◌, map}
use atlantic_engine.Qt.Subsurface
use atlantic_engine.Qt.Subsurface.Position.{Scene, latch, latch-append}
use atlantic_engine.Qt.View.{
  Setup, Request, new_backend, new_view, load_uri, load_html, set_user_agent, set_zoom_level,
  dispatch_scale, dispatch_size, activity, enable_feature, on_surface, schedule_overlay,
  update_window, view_created, View,
}
use atlantic_engine.Qt.View.Buffering.{Setting, set}

-- What the compositor shows, and what the page was told last, after a series of requests.
unfoldable pub scene_after : Scene → List Request → Scene
scene_after c [] = c
scene_after c (on_surface call ∷ rest) = scene_after (latch c (call ∷ [])) rest
scene_after c (_ ∷ rest) = scene_after c rest

unfoldable pub told_visible : Bool → List Request → Bool
told_visible b [] = b
told_visible b (new_backend size ∷ rest) = told_visible true rest
told_visible b (activity seen ∷ rest) = told_visible seen rest
told_visible b (_ ∷ rest) = told_visible b rest

-- The settings in turn, and all that was asked for.
unfoldable pub set_each : Setup → View → List Setting → View × List Request
set_each e v [] = (v, [])
set_each e v (s ∷ ss) =
    let (v1, asked) = set e v s in let (v2, more) = set_each e v1 ss in (v2, asked ++ more)

pub scene_after-append :
    (c : Scene) (xs ys : List Request)
    → scene_after c (xs ++ ys) ≡ scene_after (scene_after c xs) ys
unfolding scene_after
scene_after-append c [] ys = refl
scene_after-append c (on_surface call ∷ xs) ys = scene_after-append (latch c (call ∷ [])) xs ys
scene_after-append c (r ∷ xs) ys = scene_after-append c xs ys

pub told_visible-append :
    (b : Bool) (xs ys : List Request)
    → told_visible b (xs ++ ys) ≡ told_visible (told_visible b xs) ys
unfolding told_visible
told_visible-append b [] ys = refl
told_visible-append b (new_backend s ∷ xs) ys = told_visible-append true xs ys
told_visible-append b (activity seen ∷ xs) ys = told_visible-append seen xs ys
told_visible-append b (r ∷ xs) ys = told_visible-append b xs ys

-- The calls of the surface reach the compositor, and say nothing to the page.
pub surface-scene :
    (c : Scene) (calls : List Subsurface.Call)
    → scene_after c (map on_surface calls) ≡ latch c calls
unfolding scene_after latch
surface-scene c [] = refl
surface-scene c (call ∷ calls) =
    surface-scene (latch c (call ∷ [])) calls ∙ sym (latch-append c (call ∷ []) calls)

pub surface-told :
    (b : Bool) (calls : List Subsurface.Call) → told_visible b (map on_surface calls) ≡ b
unfolding told_visible
surface-told b [] = refl
surface-told b (call ∷ calls) = surface-told b calls
