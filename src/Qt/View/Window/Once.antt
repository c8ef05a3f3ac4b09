-- ===== src/Qt/View/Window/Once.antt =====
-- However the item moves between windows, its web view is made once at most, in the window that it is
-- in, and each frame is handled once.
use atlantic_engine.Base.{ℕ, ◌≡◌, true, ◌&&◌, none, some, [], ◌∷◌, if◌then◌else◌}
use atlantic_engine.Qt.Subsurface
use atlantic_engine.Qt.View.{Setup, View, create_web_view}
use atlantic_engine.Qt.View.Window.{
  Windows, contains, Scene, Asked, within, Outcome, not_made, crashes, made_in,
}

-- The view, and what is asked for.
unfoldable pub viewed : Asked (Windows × View) → Asked View
viewed none = none
viewed (some ((w, v), asked)) = some (v, asked)

-- The windows after the item has come to one.
abbrev come_to : ℕ → Scene → Windows → Windows
come_to win scene w = record {
  at = some win;
  frames = if scene.kept_unique && contains win w.frames then w.frames else win ∷ w.frames;
  ready = if scene.initialized then w.ready else win ∷ w.ready;
}

-- What should become of a view that is not made, and what should be asked for.
unfoldable pub expected : Setup → View → Outcome → Asked View
expected e v not_made = some (v, [])
expected e v crashes = none
expected e v (made_in win) = some (create_web_view (within e win) v)

-- What follows leaves a view that is made as it is.
abbrev KeepsMade : (View → Asked View) → Type 0
KeepsMade g = (v : View) → v.created ≡ true → g v ≡ some (v, [])

-- An item that has not come to a window.
abbrev pub no_windows : Windows
no_windows = record { at = none; frames = []; ready = [] }
