-- ===== src/Qt/View/Forwarding/Held.antt =====
-- What the web process should hear of the pointer, from the history of the item's events.
use atlantic_engine.Base.{
  ℕ, Bool, true, false, not, ◌&&◌, ◌||◌, Option, List, [], ◌∷◌, ◌++◌, if◌then◌else◌, ◌==◌,
}
use atlantic_engine.Qt.Input.{
  Button, left, right, other, number_of, is_left, is_right, PointerEvent,
}
use atlantic_engine.Qt.View.Forwarding.{
  Toolkit, ItemEvent, presses, releases, enters, leaves, hovers, Inputs, Dispatch,
  force_active_focus, pointer_event, forward,
}

-- What a pointer event says apart from its time and place: whether it is a motion, its button, whether
-- the button is down, and the two buttons of its mask.
abbrev pub Report : Type 0
Report = Bool × ℕ × ℕ × Bool × Bool

abbrev pub report : PointerEvent → Report
report e = (e.is_motion, e.button, e.state, e.modifier1, e.modifier2)

unfoldable pub reports : List Dispatch → List Report
reports [] = []
reports (pointer_event e ∷ sent) = report e ∷ reports sent
reports (_ ∷ sent) = reports sent

abbrev same : Button → Button → Bool
same left b = is_left b
same right b = is_right b
same other b = false

module _ {C : Type 0} where
  -- Whether the pointer is over the item, whether a button is held that was pressed since the pointer
  -- came, and the button of the latest press that no release followed. The latest event comes first.
  unfoldable pub is_inside : List (ItemEvent C) → Bool
  is_inside [] = false
  is_inside (enters ∷ past) = true
  is_inside (leaves ∷ past) = false
  is_inside (_ ∷ past) = is_inside past

  unfoldable pub is_held : Button → List (ItemEvent C) → Bool
  is_held b [] = false
  is_held b (enters ∷ past) = false
  is_held b (presses c time x y ∷ past) = is_held b past || same b c
  is_held b (releases c time x y ∷ past) = is_held b past && not (same b c)
  is_held b (_ ∷ past) = is_held b past

  unfoldable pub last_pressed : List (ItemEvent C) → ℕ
  last_pressed [] = 0
  last_pressed (presses c time x y ∷ past) = number_of c
  last_pressed (releases c time x y ∷ past) = 0
  last_pressed (_ ∷ past) = last_pressed past

  -- What should be reported of an event, after those before it.
  unfoldable pub due : List (ItemEvent C) → ItemEvent C → List Report
  due past (presses b time x y) =
      let now = presses b time x y ∷ past in
      (false, number_of b, 1, is_held left now, is_held right now) ∷ []
  due past (releases b time x y) =
      let now = releases b time x y ∷ past in
      (false, number_of b, 0, is_held left now, is_held right now) ∷ []
  due past (hovers time x y) =
      if is_inside past
      then (
        true,
        last_pressed past,
        if last_pressed past == 0 then 0 else 1,
        is_held left past,
        is_held right past,
      )
        ∷ []
      else []
  due past _ = []

  -- What is done of the events that come before there is a backend.
  unfoldable pub focuses : List (ItemEvent C) → List Dispatch
  focuses [] = []
  focuses (presses b time x y ∷ es) = force_active_focus ∷ focuses es
  focuses (_ ∷ es) = focuses es

  unfoldable pub all_due : List (ItemEvent C) → List (ItemEvent C) → List Report
  all_due past [] = []
  all_due past (e ∷ es) = due past e ++ all_due (e ∷ past) es

  unfoldable pub forward_all :
      Toolkit C → Option Inputs → List (ItemEvent C) → Option Inputs × List Dispatch
  forward_all t backend [] = (backend, [])
  forward_all t backend (e ∷ es) =
      let (backend1, sent) = forward t e backend in
      let (backend2, more) = forward_all t backend1 es in (backend2, sent ++ more)
