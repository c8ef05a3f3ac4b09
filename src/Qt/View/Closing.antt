-- ===== src/Qt/View/Closing.antt =====
-- The end of a view of qt5-plugin/WPEQtView.cpp, and the signals that it listens to until then.
pub mod Kept
pub mod Stepped
pub mod Made
pub mod Handlers
pub mod Released
use atlantic_engine.Base.{
  ℕ, Bool, true, false, Option, none, some, List, [], ◌∷◌, ◌++◌, if◌then◌else◌, map,
}
use atlantic_engine.Qt.Subsurface
use atlantic_engine.Qt.Subsurface.{Surface}
use atlantic_engine.Qt.Subsurface.Show.{set_visible}
use atlantic_engine.Qt.View.{Setup, Request, on_surface, View, create_web_view}
use atlantic_engine.Qt.View.Buffering.{Setting, set}

-- The handlers on the web view and on its back-forward list. Those of the view have it as their data;
-- the one for permissions has none.
pub data Handler : Type 0 where
  url_changed title_changed progress_changed load_changed load_failed : Handler
  back_forward_changed permission_request : Handler
  of_embedder : ℕ → Handler

-- What the destructor does, in order.
pub data Farewell : Type 0 where
  delete_overlay : Farewell
  last_call : Subsurface.Call → Farewell
  disconnect : Handler → Farewell
  unref_web_view : Farewell

-- The handlers that `createWebView` connects, with whether there is a back-forward list.
unfoldable pub connected : Bool → List Handler
connected has_list =
    url_changed
    ∷ title_changed
    ∷ progress_changed
    ∷ load_changed
    ∷ load_failed
    ∷ (if has_list then back_forward_changed ∷ permission_request ∷ [] else permission_request ∷ [])

unfoldable pub disconnects : Bool → List Farewell
disconnects has_list =
    disconnect url_changed
    ∷ disconnect title_changed
    ∷ disconnect load_changed
    ∷ disconnect load_failed
    ∷ disconnect progress_changed
    ∷ (if has_list
        then disconnect back_forward_changed ∷ unref_web_view ∷ []
        else unref_web_view ∷ [])

-- `delete m_subsurface`
unfoldable pub delete_subsurface : Option Surface → List Farewell
delete_subsurface none = []
delete_subsurface (some s) = map last_call (Subsurface.destroy s).1

-- `~WPEQtView`
unfoldable pub destroy_view : Bool → View → List Farewell
destroy_view has_list v =
    (if v.overlay then delete_overlay ∷ [] else [])
    ++ (delete_subsurface v.subsurface ++ (if v.created then disconnects has_list else []))

-- `setWebContentSurfaceVisible`
unfoldable pub set_web_content_surface_visible : Bool → Option Surface → View → View × List Request
set_web_content_surface_visible visible none v = (v, [])
set_web_content_surface_visible visible (some s) v =
    let (s1, calls) = set_visible visible s in
    (record v { subsurface = some s1 }, map on_surface calls)

-- What happens to a view until it is destroyed.
pub data Step : Type 0 where
  creates : Step
  sets : Setting → Step
  shows : Bool → Step

unfoldable pub perform : Setup → View → Step → View × List Request
perform e v creates = create_web_view e v
perform e v (sets s) = set e v s
perform e v (shows visible) = set_web_content_surface_visible visible v.subsurface v

unfoldable pub perform_all : Setup → View → List Step → View × List Request
perform_all e v [] = (v, [])
perform_all e v (s ∷ ss) =
    let (v1, asked) = perform e v s in let (v2, more) = perform_all e v1 ss in (v2, asked ++ more)

-- The calls to the surface among all that was asked for, and among the farewells.
unfoldable pub calls_of : List Request → List Subsurface.Call
calls_of [] = []
calls_of (on_surface call ∷ rest) = call ∷ calls_of rest
calls_of (_ ∷ rest) = calls_of rest

unfoldable pub last_calls : List Farewell → List Subsurface.Call
last_calls [] = []
last_calls (last_call call ∷ rest) = call ∷ last_calls rest
last_calls (_ ∷ rest) = last_calls rest

-- g_signal_handlers_disconnect_by_func: the handlers of the view with that function go.
abbrev pub is_same : Handler → Handler → Bool
is_same url_changed url_changed = true
is_same title_changed title_changed = true
is_same progress_changed progress_changed = true
is_same load_changed load_changed = true
is_same load_failed load_failed = true
is_same back_forward_changed back_forward_changed = true
is_same _ _ = false

unfoldable pub disconnect_by_func : Handler → List Handler → List Handler
disconnect_by_func h [] = []
disconnect_by_func h (g ∷ gs) =
    let rest = disconnect_by_func h gs in if is_same h g then rest else g ∷ rest

unfoldable pub handlers_after : List Farewell → List Handler → List Handler
handlers_after [] gs = gs
handlers_after (disconnect h ∷ rest) gs = handlers_after rest (disconnect_by_func h gs)
handlers_after (_ ∷ rest) gs = handlers_after rest gs

-- The handlers whose data is the view.
abbrev is_of_view : Handler → Bool
is_of_view permission_request = false
is_of_view (of_embedder n) = false
is_of_view _ = true

unfoldable pub of_view : List Handler → List Handler
of_view [] = []
of_view (g ∷ gs) = let rest = of_view gs in if is_of_view g then g ∷ rest else rest

-- The handlers on the web view of a view, with those of the embedder.
unfoldable pub handlers : Bool → View → List ℕ → List Handler
handlers has_list v ns = (if v.created then connected has_list else []) ++ map of_embedder ns
