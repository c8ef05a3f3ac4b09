-- ===== src/Qt/View/Window/Tests.antt =====
-- The theorem on windows at an item that comes to the same window twice.
use atlantic_engine.Base.{true, false, none, some, List, [], ◌∷◌}
use atlantic_engine.Base.Int.{pos}
use atlantic_engine.Qt.Subsurface.{Host}
use atlantic_engine.Qt.Frames.{Modes, Backend}
use atlantic_engine.Qt.View.{Size, Setup, View}
use atlantic_engine.Qt.View.Window.{Scene, Event, comes, gets_ready}

abbrev no_host : Host
no_host = record {
  native_interface = false;
  display = false;
  wl_display = false;
  surface_of = λ window. none;
  queue_made = false;
  globals = [];
  surface_made = false;
  subsurface_made = false;
  region_made = false;
  egl_display_found = false;
  config_chosen = false;
  context_made = false;
  egl_window_made = false;
  egl_surface_made = false;
  made_current = false;
  image_target_found = false;
}

abbrev plain_phone : Setup
plain_phone = record {
  backend_made = true;
  direct = false;
  true_scale = true;
  overlay_test = false;
  host = no_host;
  window = some 1;
  scene_rect = λ size. record { x = pos 0; y = pos 0; width = size.width; height = size.height };
  content_surface = 9;
  logical = λ n scale. n;
  features = [];
}

abbrev size_0 : Size
size_0 = record { width = pos 0; height = pos 0 }

abbrev plain_tab : View
plain_tab = record {
  created = false;
  size = size_0;
  backend_size = size_0;
  device_scale = 1000;
  url = [];
  html = [];
  base_url = [];
  visible = true;
  private = false;
  error = false;
  pending_scale = 1000;
  pending_agent = [];
  subsurface = none;
  statics = record { shell_window = none; chrome_surface = none; web_surface = none };
  overlay = false;
  overlay_attempted = false;
}

abbrev lambda_scene : Scene
lambda_scene = record { kept_unique = false; initialized = false }

abbrev moves : List Event
moves =
    comes (some 1) lambda_scene
    ∷ comes none lambda_scene
    ∷ comes (some 1) lambda_scene
    ∷ gets_ready 1
    ∷ []

abbrev stock : Modes
stock = record { eager = false; pipelined = false; on_sample = false }

abbrev waiting : Backend
waiting = record {
  exportable = true;
  view = true;
  window = true;
  subsurface = false;
  surface_valid = false;
  pending = some 4;
  committed = some 3;
  frame_update_requested = true;
  ack_credit = false;
  ack_owed = false;
  early_ack_armed = false;
  acked_early = false;
}
