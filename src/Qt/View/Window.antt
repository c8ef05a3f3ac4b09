-- ===== src/Qt/View/Window.antt =====
-- The window of a view of qt5-plugin/WPEQtView.cpp: when the web view is made, and who hears of frames.
pub mod Handled
pub mod Once
mod Tests
use atlantic_engine.Base.{
  ℕ, zero, suc, ◌+◌, Bool, true, false, ◌&&◌, ◌||◌, Option, none, some, List, [], ◌∷◌, ◌++◌,
  if◌then◌else◌, ◌==◌,
}
use atlantic_engine.Qt.Frames
use atlantic_engine.Qt.Frames.{Modes, Backend, did_render_frame}
use atlantic_engine.Qt.View.{Setup, Request, View, create_web_view}

-- The window that the item is in, and the connections to windows, each with a place in its list: of
-- frameSwapped, and of sceneGraphInitialized. The code takes no connection back.
pub record Windows : Type 0 where
  pub at : Option ℕ
  pub frames : List ℕ
  pub ready : List ℕ

unfoldable pub count : ℕ → List ℕ → ℕ
count n [] = 0
count n (m ∷ ms) = (if n == m then 1 else 0) + count n ms

abbrev pub contains : ℕ → List ℕ → Bool
contains n [] = false
contains n (m ∷ ms) = n == m || contains n ms

-- What Qt says of a window. Qt may leave out the uniqueness that is asked of the first connection, since
-- a lambda is connected.
pub record Scene : Type 0 where
  pub kept_unique : Bool
  pub initialized : Bool  -- isSceneGraphInitialized

-- A call's result and what it asks for, or `none` if it crashes.
abbrev pub Asked : Type 0 → Type 0
Asked A = Option (A × List Request)

unfoldable pub after : {A : Type 0} → List Request → Asked A → Asked A
after asked none = none
after asked (some (a, more)) = some (a, asked ++ more)

unfoldable pub and_then : {A : Type 0} → Asked A → (A → Asked A) → Asked A
and_then none f = none
and_then (some (a, asked)) f = after asked (f a)

unfoldable pub with_windows : Windows → Asked View → Asked (Windows × View)
with_windows w none = none
with_windows w (some (v, asked)) = some ((w, v), asked)

abbrev pub within : Setup → ℕ → Setup
within e win = record e { window = some win }

-- `createWebView` in the window that the item is in. Without one it returns if there is a backend, and
-- else asks a null window for its OpenGL context.
unfoldable pub create_here : Setup → Option ℕ → View → Asked View
create_here e none v = if v.created then some (v, []) else none
create_here e (some win) v = some (create_web_view (within e win) v)

unfoldable pub create_if : Setup → Bool → ℕ → View → Asked View
create_if e b win v = if b then create_here e (some win) v else some (v, [])

-- `configureWindow`
unfoldable pub configure_window : Setup → Option ℕ → Scene → Windows → View → Asked (Windows × View)
configure_window e none scene w v = with_windows (record w { at = none }) (some (v, []))
configure_window e (some win) scene w v =
    with_windows
      (record {
        at = some win;
        frames = if scene.kept_unique && contains win w.frames then w.frames else win ∷ w.frames;
        ready = if scene.initialized then w.ready else win ∷ w.ready;
      })
      (create_if e scene.initialized win v)

-- A signal calls the slot once for each connection.
unfoldable pub create_times : Setup → Option ℕ → ℕ → View → Asked View
create_times e at zero v = some (v, [])
create_times e at (suc n) v = and_then (create_here e at v) (λ v1. create_times e at n v1)

unfoldable pub render_times : Modes → ℕ → Backend → Backend × List Frames.Call
render_times m zero b = (b, [])
render_times m (suc n) b =
    let (b1, calls) = did_render_frame m b in
    let (b2, more) = render_times m n b1 in (b2, calls ++ more)

-- frameSwapped of a window, for the backend of a view that has one.
unfoldable pub frame_swapped : Modes → ℕ → Windows → Backend → Backend × List Frames.Call
frame_swapped m win w b = render_times m (count win w.frames) b

-- The item comes to a window or leaves it, or the scene graph of a window gets ready.
pub data Event : Type 0 where
  comes : Option ℕ → Scene → Event
  gets_ready : ℕ → Event

unfoldable pub react : Setup → Windows × View → Event → Asked (Windows × View)
react e (w, v) (comes win scene) = configure_window e win scene w v
react e (w, v) (gets_ready win) = with_windows w (create_times e w.at (count win w.ready) v)

unfoldable pub react_all : Setup → Windows × View → List Event → Asked (Windows × View)
react_all e s [] = some (s, [])
react_all e s (ev ∷ evs) = and_then (react e s ev) (λ s1. react_all e s1 evs)

-- Whether the item has come to a window.
unfoldable pub came : ℕ → List Event → Bool
came win [] = false
came win (comes (some other) scene ∷ evs) = win == other || came win evs
came win (_ ∷ evs) = came win evs

-- When the web view should be made: at the first of these. The item comes to a window whose scene graph
-- is ready; or the scene graph gets ready of a window to which the item has come before that, be it in
-- that window still, in another, or in none, where the program crashes.
pub data Outcome : Type 0 where
  not_made crashes : Outcome
  made_in : ℕ → Outcome

unfoldable pub made_here : Option ℕ → Outcome
made_here none = crashes
made_here (some here) = made_in here

unfoldable pub made_at : Option ℕ → List ℕ → List Event → Outcome
made_at at waiting [] = not_made
made_at at waiting (comes none scene ∷ evs) = made_at none waiting evs
made_at at waiting (comes (some win) scene ∷ evs) =
    let rest = made_at (some win) (win ∷ waiting) evs in
    if scene.initialized then made_in win else rest
made_at at waiting (gets_ready win ∷ evs) =
    let rest = made_at at waiting evs in if contains win waiting then made_here at else rest
