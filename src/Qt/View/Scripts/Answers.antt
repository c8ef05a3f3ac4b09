-- ===== src/Qt/View/Scripts/Answers.antt =====
-- The scripts that a view of qt5-plugin/WPEQtView.cpp runs, for any order of events.
use atlantic_engine.Base.{
  ℕ, zero, suc, ◌+◌, Bool, true, false, ◌&&◌, Option, none, some, List, [], ◌∷◌, ◌++◌,
  if◌then◌else◌, ◌==◌, Bytes,
}
use atlantic_engine.Qt.View.{View}
use atlantic_engine.Qt.View.Scripts.{
  Resource, callback_data, Act, acquire, release, call, Value, run_javascript,
  js_async_ready_callback,
}

-- The scripts of a view that WebKit still runs, the next number, and whether the view is there.
pub record Scripts : Type 0 where
  pub view : View
  pub alive : Bool
  pub pending : List ℕ
  pub next : ℕ

-- The web view is made, the embedder runs a script, the view is destroyed, and WebKit finishes the script at a place of its
-- list, where there is one: with or without an engine for the view, and with a value or an error.
pub data Event : Type 0 where
  makes : Event
  runs : Bytes → Event
  destroyed : Event
  finishes : ℕ → Bool → Option Value → Event

abbrev pub nth : ℕ → List ℕ → Option ℕ
nth i [] = none
nth zero (x ∷ xs) = some x
nth (suc i) (x ∷ xs) = nth i xs

abbrev pub without : ℕ → List ℕ → List ℕ
without i [] = []
without zero (x ∷ xs) = xs
without (suc i) (x ∷ xs) = x ∷ without i xs

unfoldable pub finish : ℕ → Bool → Option Value → Option ℕ → Scripts → Scripts × List Act
finish i engine value none s = (s, [])
finish i engine value (some id) s =
    (record s { pending = without i s.pending }, js_async_ready_callback s.alive engine id value)

unfoldable pub react : Scripts → Event → Scripts × List Act
unfolding finish
react s makes = (record s { view = record (s.view) { created = true } }, [])
react s (runs script) = (
  record s {
    pending = if s.alive && s.view.created then s.next ∷ s.pending else s.pending;
    next = suc s.next;
  },
  if s.alive then run_javascript script s.next s.view else [],
)
react s destroyed = (record s { alive = false }, [])
react s (finishes i engine value) = finish i engine value (nth i s.pending) s

unfoldable pub react_all : Scripts → List Event → Scripts × List Act
react_all s [] = (s, [])
react_all s (e ∷ es) =
    let (s1, acts) = react s e in let (s2, more) = react_all s1 es in (s2, acts ++ more)

-- A sum over the acts.
unfoldable pub total : (Act → ℕ) → List Act → ℕ
total k [] = 0
total k (a ∷ acts) = k a + total k acts

abbrev pub of_acquired : (Resource → ℕ) → Act → ℕ
of_acquired w (acquire r) = w r
of_acquired w _ = 0

abbrev pub of_released : (Resource → ℕ) → Act → ℕ
of_released w (release r) = w r
of_released w _ = 0

abbrev pub of_call : ℕ → Act → ℕ
of_call id (call other arg) = if id == other then 1 else 0
of_call id _ = 0

unfoldable pub occurs : ℕ → List ℕ → ℕ
occurs id [] = 0
occurs id (x ∷ xs) = (if id == x then 1 else 0) + occurs id xs

-- What the unfinished scripts still hold.
unfoldable pub held : (Resource → ℕ) → List ℕ → ℕ
held w [] = 0
held w (x ∷ xs) = w callback_data + held w xs

-- A view that has run no script.
abbrev pub no_scripts : View → Scripts
no_scripts v = record { view = v; alive = true; pending = []; next = 0 }
