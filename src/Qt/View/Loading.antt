-- ===== src/Qt/View/Loading.antt =====
-- The load signals of qt5-plugin/WPEQtView.cpp, and what they tell the embedder.
use atlantic_engine.Base.{
  ◌≡◌, refl, Bool, true, false, not, Option, none, some, List, [], ◌∷◌, if◌then◌else◌, arith, Bytes,
}
use atlantic_engine.Qt.View.{View}
use atlantic_engine.Qt.View.Settings.{set_html}

-- WebKitLoadEvent
pub data LoadEvent : Type 0 where
  started redirected committed finished : LoadEvent

-- WPEQtView::LoadStatus
pub data Status : Type 0 where
  load_started load_stopped load_failed load_succeeded : Status

-- The Qt signals of a view.
pub data Signal : Type 0 where
  loading_changed : Status → Signal
  back_forward_changed url_changed : Signal

-- `notifyLoadChangedCallback`
unfoldable pub load_changed : LoadEvent → View → View × List Signal
load_changed started v = (v, loading_changed load_started ∷ back_forward_changed ∷ [])
load_changed finished v = (
  record v { error = false },
  if not v.error then loading_changed load_succeeded ∷ back_forward_changed ∷ [] else [],
)
load_changed _ v = (v, [])

-- `notifyLoadFailedCallback`; the flag is whether the error is a cancellation.
unfoldable pub load_fails : Bool → View → View × List Signal
load_fails cancelled v = (
  record v { error = true },
  loading_changed (if cancelled then load_stopped else load_failed) ∷ [],
)

-- `notifyUrlChangedCallback`, with the URI that WebKit reports.
unfoldable pub url_notified : Option Bytes → View → View × List Signal
url_notified none v = (v, url_changed ∷ [])
url_notified (some uri) v = (if v.created then record v { url = uri } else v, url_changed ∷ [])

-- What happens to a view while it loads.
pub data Event : Type 0 where
  loads : LoadEvent → Event
  fails : Bool → Event
  moves : Option Bytes → Event
  asks : Bytes → Bytes → Event  -- the embedder gives html to load

unfoldable pub react : View → Event → View × List Signal
react v (loads e) = load_changed e v
react v (fails cancelled) = load_fails cancelled v
react v (moves uri) = url_notified uri v
react v (asks html base) = ((set_html html base v).0, [])

unfoldable pub signals : View → List Event → List (List Signal)
signals v [] = []
signals v (e ∷ es) = (react v e).1 ∷ signals (react v e).0 es

-- From what happened, the latest first: nothing has failed since the last load ended or was asked for.
unfoldable pub is_clean : List Event → Bool
is_clean [] = true
is_clean (loads finished ∷ past) = true
is_clean (fails cancelled ∷ past) = false
is_clean (asks html base ∷ past) = true
is_clean (e ∷ past) = is_clean past

-- What the embedder should hear of an event.
unfoldable pub report : List Event → Event → List Signal
report past (loads started) = loading_changed load_started ∷ back_forward_changed ∷ []
report past (loads finished) =
    if is_clean past then loading_changed load_succeeded ∷ back_forward_changed ∷ [] else []
report past (loads e) = []
report past (fails cancelled) =
    loading_changed (if cancelled then load_stopped else load_failed) ∷ []
report past (moves uri) = url_changed ∷ []
report past (asks html base) = []

unfoldable pub reports : List Event → List Event → List (List Signal)
reports past [] = []
reports past (e ∷ es) = report past e ∷ reports (e ∷ past) es

-- The flag is that something failed since.
react-report :
    (v : View) (past : List Event) (e : Event)
    → v.error ≡ not (is_clean past)
    → ((react v e).1 ≡ report past e) × ((react v e).0.error ≡ not (is_clean (e ∷ past)))
unfolding react load_changed load_fails url_notified set_html report is_clean
react-report v past (loads started) flag = (refl, flag)
react-report v past (loads redirected) flag = (refl, flag)
react-report v past (loads committed) flag = (refl, flag)
react-report v past (loads finished) flag = ground arith
react-report v past (fails cancelled) flag = (refl, refl)
react-report v past (moves uri) flag = ground arith
react-report v past (asks html base) flag = (refl, refl)

signals-past :
    (v : View) (past es : List Event)
    → v.error ≡ not (is_clean past)
    → signals v es ≡ reports past es
unfolding signals reports
signals-past v past [] flag = refl
signals-past v past (e ∷ es) flag =
    let (same, flag') = react-report v past e flag in
    let rest = signals-past (react v e).0 (e ∷ past) es flag' in rw (same, rest) refl

-- For every order of load events, failures, address changes and requests to load html, the embedder
-- hears of each event exactly what it should: in particular a load that ends is reported as a success
-- if and only if nothing has failed since the last load ended or was asked for. At first no error is
-- noted.
pub signals-reports : (v : View) (es : List Event) → v.error ≡ false → signals v es ≡ reports [] es
unfolding is_clean
signals-reports v es flag = signals-past v [] es flag
