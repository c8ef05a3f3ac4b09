-- ===== src/Qt/View/Forwarding/Tests.antt =====
-- The theorem on pointer events at a drag with two buttons.
use atlantic_engine.Base.{◌≡◌, false, none, some, List, [], ◌∷◌}
use atlantic_engine.Base.Int.{ℤ, pos}
use atlantic_engine.Qt.Input.{left, right}
use atlantic_engine.Qt.View.Forwarding.{
  Toolkit, ItemEvent, presses, releases, enters, leaves, hovers, wheels,
}
use atlantic_engine.Qt.View.Forwarding.Held.{reports, focuses, all_due, forward_all}
use atlantic_engine.Qt.View.Forwarding.Reported.{new_inputs, forward_all_lem}

abbrev pixels : Toolkit ℤ
pixels = record {
  to_logical = λ x. x;
  eighth = λ n. n;
  equals = λ n x. false;
  mask = λ button1 button2. 0;
  of_application = record {
    shift = false;
    control = false;
    meta = false;
    alt = false;
    others = false;
  };
  of_libwpe = λ key pressed. 0;
}

abbrev too_early : List (ItemEvent ℤ)
too_early = enters ∷ presses left 1 (pos 5) (pos 5) ∷ []

abbrev drag : List (ItemEvent ℤ)
drag =
    enters
    ∷ presses left 10 (pos 5) (pos 5)
    ∷ presses right 20 (pos 5) (pos 5)
    ∷ releases right 30 (pos 6) (pos 5)
    ∷ hovers 40 (pos 9) (pos 5)
    ∷ wheels (pos 0) (pos 120) (pos 9) (pos 5)
    ∷ leaves
    ∷ hovers 50 (pos 20) (pos 5)
    ∷ []

forward_all_example :
    ((forward_all pixels none too_early).1 ≡ focuses too_early)
    × (reports (forward_all pixels (some new_inputs) drag).1 ≡ all_due [] drag)
forward_all_example = forward_all_lem pixels too_early drag
