-- ===== src/Qt/View/Tests.antt =====
-- The theorems on a view at the calls that the browser makes when it starts, and at a short life.
use atlantic_engine.Base.{
  ℕ, ◌≡◌, refl, true, false, none, some, List, [], ◌∷◌, ◌++◌, codes, streq, arith,
}
use atlantic_engine.Base.Int.{pos}
use atlantic_engine.Qt.Subsurface.{Host, Handle, surface, subsurface}
use atlantic_engine.Qt.View.{Size, Setup, View, create_web_view}
use atlantic_engine.Qt.View.Buffering.{
  Setting, resized, url, agent, scale, visible, new_page, set_all, create,
}
use atlantic_engine.Qt.View.Buffering.Commuting.{set_all-create}
use atlantic_engine.Qt.Subsurface.Create.{
  ensure_created, attach, bind_globals, announce, on_registry_global, create_surface, activate,
  setup_egl,
}
use atlantic_engine.Qt.Subsurface.Position.{origin}
use atlantic_engine.Qt.View.OnScreen.{scene_after, told_visible, set_each}
use atlantic_engine.Qt.View.OnScreen.Followed.{IsAt, set_each-create_web_view}
use atlantic_engine.Qt.Subsurface.Handles.{made, dropped, count}
use atlantic_engine.Qt.View.Closing.{
  Step, creates, sets, shows, perform_all, destroy_view, calls_of, last_calls, of_view,
  handlers_after, handlers,
}
use atlantic_engine.Qt.View.Closing.Released.{destroy_view-perform_all}
use atlantic_engine.Qt.View.Loading.{
  Event, loads, fails, started, finished, signals, reports, signals-reports,
}

abbrev no_host : Host
no_host = record {
  native_interface = false;
  display = false;
  wl_display = false;
  surface_of = λ window. none;
  queue_made = false;
  globals = [];
  surface_made = false;
  subsurface_made = false;
  region_made = false;
  egl_display_found = false;
  config_chosen = false;
  context_made = false;
  egl_window_made = false;
  egl_surface_made = false;
  made_current = false;
  image_target_found = false;
}

abbrev phone : Setup
phone = record {
  backend_made = true;
  direct = false;
  true_scale = true;
  overlay_test = false;
  host = no_host;
  window = some 1;
  scene_rect = λ size. record { x = pos 0; y = pos 0; width = size.width; height = size.height };
  content_surface = 9;
  logical = λ n scale. n;
  features = codes "MediaDevices" ∷ codes "Gamepad" ∷ [];
}

abbrev size_0 : Size
size_0 = record { width = pos 0; height = pos 0 }

abbrev pub tab : View
tab = record {
  created = false;
  size = size_0;
  backend_size = size_0;
  device_scale = 1000;
  url = [];
  html = [];
  base_url = [];
  visible = true;
  private = false;
  error = false;
  pending_scale = 1000;
  pending_agent = [];
  subsurface = none;
  statics = record { shell_window = none; chrome_surface = none; web_surface = none };
  overlay = false;
  overlay_attempted = false;
}

abbrev startup : List Setting
startup =
    agent (codes "Mobile")
    ∷ scale 3000
    ∷ resized (record { width = pos 1080; height = pos 2520 })
    ∷ visible false
    ∷ url (codes "https://example.org")
    ∷ []

set_all-create_example :
    create phone (set_all phone (tab, new_page size_0) startup)
    ≡ set_all phone (create phone (tab, new_page size_0)) startup
set_all-create_example =
    set_all-create phone tab (new_page size_0) startup
      (record {
        made = refl;
        direct = refl;
        created = refl;
        subsurface = refl;
        divided = λ n. refl;
      })
      (refl, (omega arith, (refl, (tt, (refl, tt)))))

abbrev history : List Event
history = loads started ∷ fails false ∷ loads finished ∷ loads started ∷ loads finished ∷ []

signals-reports_example : signals tab history ≡ reports [] history
signals-reports_example = signals-reports tab history refl

abbrev direct_host : Host
direct_host = record {
  native_interface = true;
  display = false;
  wl_display = true;
  surface_of = λ window. some window;
  queue_made = true;
  globals = codes "wl_compositor" ∷ codes "wl_subcompositor" ∷ [];
  surface_made = true;
  subsurface_made = true;
  region_made = true;
  egl_display_found = true;
  config_chosen = true;
  context_made = true;
  egl_window_made = true;
  egl_surface_made = true;
  made_current = true;
  image_target_found = true;
}

abbrev pub direct_phone : Setup
direct_phone = record phone { direct = true; host = direct_host }

set_each-create_web_view_example :
    let (v1, made) = create_web_view direct_phone tab in
    let (v2, asked) = set_each direct_phone v1 startup in
    IsAt direct_phone v2 (scene_after origin (made ++ asked))
    × (told_visible false (made ++ asked) ≡ v2.visible)
unfolding ensure_created attach bind_globals announce on_registry_global streq create_surface
    activate setup_egl
set_each-create_web_view_example =
    set_each-create_web_view direct_phone tab false startup
      (record { made = refl; direct = refl; created = refl; subsurface = refl; succeeds = refl })

abbrev count_surfaces : Handle → ℕ
count_surfaces surface = 1
count_surfaces subsurface = 1
count_surfaces _ = 0

abbrev lifetime : List Step
lifetime =
    sets (resized (record { width = pos 1080; height = pos 2520 }))
    ∷ creates
    ∷ sets (visible false)
    ∷ shows true
    ∷ []

destroy_view-perform_all_example :
    let (v1, asked) = perform_all direct_phone tab lifetime in
    let end = destroy_view true v1 in
    let calls = calls_of asked ++ last_calls end in
    (dropped count_surfaces calls ≡ made count_surfaces calls)
    × (of_view (handlers_after end (handlers true v1 (5 ∷ []))) ≡ [])
unfolding count streq
destroy_view-perform_all_example =
    destroy_view-perform_all count_surfaces direct_phone tab lifetime true (5 ∷ []) refl refl
      (omega arith, omega arith)
