-- ===== src/Qt/View/Chrome/Tests.antt =====
-- The theorems on a view and its chrome overlay, for one that is set up until its test scene has no root
-- item, and for one without an EGL configuration.
use atlantic_engine.Base.{
  ℕ, ◌+◌, ◌≡◌, refl, true, false, none, some, List, [], ◌∷◌, codes, arith, streq,
}
use atlantic_engine.Base.Int.{pos}
use atlantic_engine.Qt.Subsurface.{fresh}
use atlantic_engine.Qt.Subsurface.Create
use atlantic_engine.Qt.Subsurface.Create.{ensure_created, attach, create_surface, activate}
use atlantic_engine.Qt.Subsurface.Handles.{count}
use atlantic_engine.Qt.Overlay.Setup
use atlantic_engine.Qt.Overlay.Setup.{Part, surface, Host}
use atlantic_engine.Qt.Overlay.Setup.Balance.{made, dropped}
use atlantic_engine.Qt.Overlay.Setup.Lasting.{lasting}
use atlantic_engine.Qt.View.{Setup}
use atlantic_engine.Qt.View.Closing.{creates, shows}
use atlantic_engine.Qt.View.Chrome.{
  Platform, Tab, steps, delivers, draws, answers, Event, overlay_calls, create_chrome_overlay_now,
  overlay_host, make_overlay,
}
use atlantic_engine.Qt.View.Chrome.Outlived.{placed_below, ensure_created-create_chrome_overlay_now}
use atlantic_engine.Qt.View.Tests.{tab, direct_phone}

abbrev no_config : Host
no_config = record {
  display = true;
  parent = true;
  size_empty = false;
  queue_made = true;
  globals = codes "wl_compositor" ∷ codes "wl_subcompositor" ∷ [];
  surface_made = some 6;
  subsurface_made = true;
  context_created = true;
  offscreen_current = true;
  scene_current = true;
  egl_current = true;
  config_found = false;
  egl_window_made = false;
  egl_surface_made = false;
  blit_current = false;
  test = false;
  component_error = false;
  root_made = false;
}

abbrev no_root : Host
no_root = record no_config {
  config_found = true;
  egl_window_made = true;
  egl_surface_made = true;
  blit_current = true;
  test = true;
}

abbrev count_all : Part → ℕ
count_all _ = 1

abbrev count_surfaces : Part → ℕ
count_surfaces surface = 1
count_surfaces _ = 0

abbrev platform : Host → Platform
platform h = record {
  native_interface = true;
  display = false;
  wl_display = true;
  parent_surface = true;
  to_pixels = λ n. n;
  window_pixels = record { width = pos 1080; height = pos 2520 };
  host = h;
}

abbrev test_phone : Setup
test_phone = record direct_phone { overlay_test = true }

abbrev new_tab : Tab
new_tab = record { view = tab; chrome = none; queued = 0; callbacks = 0 }

abbrev session : List Event
session = steps creates ∷ delivers ∷ draws ∷ answers ∷ steps (shows false) ∷ []

abbrev shown_tab : Tab
shown_tab = record {
  view = record tab { created = true; subsurface = some (record fresh { valid = true }) };
  chrome = none;
  queued = 0;
  callbacks = 0;
}

ensure_created-create_chrome_overlay_now_example :
    let (t1, acts) = create_chrome_overlay_now test_phone (platform no_config) shown_tab in
    let (s, calls, ok) = ensure_created test_phone.host t1.view.statics (some 1) fresh in
    (t1.chrome ≡ none)
    × (made count_surfaces (overlay_calls acts)
        ≡ dropped count_surfaces (overlay_calls acts)
          + made (lasting count_surfaces) (overlay_calls acts))
    × (placed_below 6 calls ≡ true)
unfolding count streq overlay_host Setup.create Setup.publish Setup.or_destroy Setup.set_up
    Setup.setup_egl Setup.bind_globals Setup.announce Setup.on_registry_global
    create_chrome_overlay_now make_overlay ensure_created attach Create.bind_globals Create.announce
    Create.on_registry_global create_surface activate Create.setup_egl
ensure_created-create_chrome_overlay_now_example =
    ensure_created-create_chrome_overlay_now count_surfaces test_phone (platform no_config)
      shown_tab 6
      (record {
        bare = refl;
        shown = refl;
        window = refl;
        native = refl;
        at = refl;
        published = record {
          fresh = refl;
          display = refl;
          parent = refl;
          size = refl;
          found = refl;
          surface = refl;
          subsurface = refl;
        };
        failed = refl;
      })
      (record { compositor = omega arith; subcompositor = omega arith }) test_phone.host 1 refl
