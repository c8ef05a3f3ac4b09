-- ===== src/Qt/View/Forwarding/Reported.antt =====
-- What the web process hears of the pointer is what the history of the item's events says.
use atlantic_engine.Base.{◌≡◌, refl, ap, ◌∙◌, false, none, some, List, [], ◌∷◌, ◌++◌, arith, map}
use atlantic_engine.Qt.Input.{
  left, right, hover_enter, hover_leave, hover_move, mouse_press, mouse_release,
}
use atlantic_engine.Qt.Touch.{Touch, dispatch_touch_event}
use atlantic_engine.Qt.View.Forwarding.{
  Toolkit, ItemEvent, presses, releases, enters, leaves, hovers, wheels, key_goes, touches, Inputs,
  Dispatch, force_active_focus, pointer_event, axis_event, key_event, touch_event, deliver, forward,
  modifiers,
}
use atlantic_engine.Qt.View.Forwarding.Held.{
  report, reports, focuses, is_inside, is_held, last_pressed, due, all_due, forward_all,
}

touches-reports : (sent : List Touch) → reports (map touch_event sent) ≡ []
unfolding reports
touches-reports [] = refl
touches-reports (s ∷ sent) = touches-reports sent

reports-append : (xs ys : List Dispatch) → reports (xs ++ ys) ≡ reports xs ++ reports ys
unfolding reports
reports-append [] ys = refl
reports-append (pointer_event e ∷ xs) ys = ap (λ rs. report e ∷ rs) (reports-append xs ys)
reports-append (force_active_focus ∷ xs) ys = reports-append xs ys
reports-append (axis_event e ∷ xs) ys = reports-append xs ys
reports-append (key_event e ∷ xs) ys = reports-append xs ys
reports-append (touch_event e ∷ xs) ys = reports-append xs ys

-- The members of the backend after a history.
module _ {C : Type 0} where
  record Fits (past : List (ItemEvent C)) (i : Inputs) : Type 0 where
    hovering : i.pointer.hovering ≡ is_inside past
    button1 : i.pointer.button1 ≡ is_held left past
    button2 : i.pointer.button2 ≡ is_held right past
    pressed : i.pointer.pressed_button ≡ last_pressed past

  deliver-Fits :
      (t : Toolkit C) (past : List (ItemEvent C)) (e : ItemEvent C) (i : Inputs)
      → Fits past i
      → Fits (e ∷ past) (deliver t e i).0
  unfolding deliver is_inside is_held last_pressed hover_enter hover_leave mouse_press mouse_release
  deliver-Fits t past (presses b time x y) i fits = ground arith
  deliver-Fits t past (releases b time x y) i fits = ground arith
  deliver-Fits t past enters i fits = ground arith
  deliver-Fits t past leaves i fits = ground arith
  deliver-Fits t past (hovers time x y) i fits = ground arith
  deliver-Fits t past (wheels dx dy x y) i fits = ground arith
  deliver-Fits t past (key_goes k p) i fits = ground arith
  deliver-Fits t past (touches time k ps) i fits = ground arith

  deliver-due :
      (t : Toolkit C) (past : List (ItemEvent C)) (e : ItemEvent C) (i : Inputs)
      → Fits past i
      → reports (deliver t e i).1 ≡ due past e
  unfolding deliver due is_held mouse_press mouse_release hover_move reports
  deliver-due t past (presses b time x y) i fits = rw (fits.button1, fits.button2) refl
  deliver-due t past (releases b time x y) i fits = rw (fits.button1, fits.button2) refl
  deliver-due t past enters i fits = refl
  deliver-due t past leaves i fits = refl
  deliver-due t past (hovers time x y) i fits =
      rw (fits.button1, fits.button2, fits.hovering, fits.pressed) (ground arith)
  deliver-due t past (wheels dx dy x y) i fits = refl
  deliver-due t past (key_goes k p) i fits = refl
  deliver-due t past (touches time k ps) i fits =
      touches-reports
        (dispatch_touch_event t.to_logical time (modifiers t i.pointer) k ps i.announced).1

  forward-some :
      (t : Toolkit C) (e : ItemEvent C) (i : Inputs)
      → ((forward t e (some i)).0 ≡ some (deliver t e i).0)
        × (reports (forward t e (some i)).1 ≡ reports (deliver t e i).1)
  unfolding forward reports
  forward-some t (presses b time x y) i = (refl, refl)
  forward-some t (releases b time x y) i = (refl, refl)
  forward-some t enters i = (refl, refl)
  forward-some t leaves i = (refl, refl)
  forward-some t (hovers time x y) i = (refl, refl)
  forward-some t (wheels dx dy x y) i = (refl, refl)
  forward-some t (key_goes k p) i = (refl, refl)
  forward-some t (touches time k ps) i = (refl, refl)

  forward_all-due :
      (t : Toolkit C) (past es : List (ItemEvent C)) (i : Inputs)
      → Fits past i
      → reports (forward_all t (some i) es).1 ≡ all_due past es
  unfolding forward_all all_due reports
  forward_all-due t past [] i fits = refl
  forward_all-due t past (e ∷ es) i fits =
      let (next, sent) = forward-some t e i in
      let r = forward t e (some i) in
      reports-append r.1 (forward_all t r.0 es).1
      ∙ (ap (λ rs. rs ++ reports (forward_all t r.0 es).1) (sent ∙ deliver-due t past e i fits)
          ∙ ap (λ rs. due past e ++ rs)
              (ap (λ o. reports (forward_all t o es).1) next
                ∙ forward_all-due t (e ∷ past) es (deliver t e i).0 (deliver-Fits t past e i fits)))

  forward_none : (t : Toolkit C) (es : List (ItemEvent C)) → (forward_all t none es).1 ≡ focuses es
  unfolding forward_all forward focuses
  forward_none t [] = refl
  forward_none t (presses b time x y ∷ es) =
      ap (λ sent. force_active_focus ∷ sent) (forward_none t es)
  forward_none t (releases b time x y ∷ es) = forward_none t es
  forward_none t (enters ∷ es) = forward_none t es
  forward_none t (leaves ∷ es) = forward_none t es
  forward_none t (hovers time x y ∷ es) = forward_none t es
  forward_none t (wheels dx dy x y ∷ es) = forward_none t es
  forward_none t (key_goes k p ∷ es) = forward_none t es
  forward_none t (touches time k ps ∷ es) = forward_none t es

-- The members of a backend that is new, as far as the pointer goes.
abbrev pub new_inputs : Inputs
new_inputs = record {
  pointer = record { hovering = false; button1 = false; button2 = false; pressed_button = 0 };
  announced = [];
}

-- Take the events of the item in any order, some before there is a backend and the others after one is
-- made. Of the first ones nothing reaches the web process, be it of the mouse, the wheel, a key or a
-- touch: each press takes the focus, and that is all. Of the others each press and release of the
-- mouse, and each motion while the pointer is over the item, reaches it as one pointer event, and no
-- other event does. Its mask says exactly which of the left and right buttons are held that were
-- pressed since the pointer last came over the item, and a motion names the button of the latest press
-- unless a release followed it.
pub forward_all_lem :
    {C : Type 0} (t : Toolkit C) (early es : List (ItemEvent C))
    → ((forward_all t none early).1 ≡ focuses early)
      × (reports (forward_all t (some new_inputs) es).1 ≡ all_due [] es)
unfolding is_inside is_held last_pressed
forward_all_lem t early es = (
  forward_none t early,
  forward_all-due t [] es new_inputs
      (record { hovering = refl; button1 = refl; button2 = refl; pressed = refl }),
)
