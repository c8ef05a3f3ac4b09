-- ===== src/Qt/View/Scripts/Tests.antt =====
-- The theorem on scripts at a view that runs two of them before it goes away.
use atlantic_engine.Base.{ℕ, ◌+◌, ◌≤◌, ◌≡◌, true, false, none, some, List, [], ◌∷◌, codes}
use atlantic_engine.Base.Int.{pos}
use atlantic_engine.Qt.View.{View}
use atlantic_engine.Qt.View.Scripts.{Resource, callback_data, string}
use atlantic_engine.Qt.View.Scripts.Answers.{
  Event, makes, runs, destroyed, finishes, react, react_all, total, of_acquired, of_released,
  of_call, held, no_scripts,
}
use atlantic_engine.Qt.View.Scripts.Once.{react_all_once}

abbrev early_tab : View
early_tab = record {
  created = false;
  size = record { width = pos 0; height = pos 0 };
  backend_size = record { width = pos 0; height = pos 0 };
  device_scale = 1000;
  url = [];
  html = [];
  base_url = [];
  visible = true;
  private = false;
  error = false;
  pending_scale = 1000;
  pending_agent = [];
  subsurface = none;
  statics = record { shell_window = none; chrome_surface = none; web_surface = none };
  overlay = false;
  overlay_attempted = false;
}

abbrev session : List Event
session =
    runs (codes "too early")
    ∷ makes
    ∷ runs (codes "document.title")
    ∷ runs (codes "throw 1")
    ∷ finishes 1 true (some (record { text = some (codes "Title"); exception = false }))
    ∷ []

abbrev leftover : List Event
leftover =
    finishes 0 true (some (record { text = some (codes "late"); exception = true }))
    ∷ runs (codes "gone")
    ∷ []

abbrev count_kept : Resource → ℕ
count_kept callback_data = 1
count_kept string = 1
count_kept _ = 0

react_all_once_example :
    let (s, acts) = react_all (no_scripts early_tab) session in
    (total (of_call 1) acts ≤ 1)
    × (total (of_acquired count_kept) acts
        ≡ total (of_released count_kept) acts + held count_kept s.pending)
    × (total (of_call 1) (react_all (react s destroyed).0 leftover).1 ≡ 0)
react_all_once_example = react_all_once early_tab session leftover 1 count_kept
