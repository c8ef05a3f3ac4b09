-- ===== src/Qt/Overlay/Tests.antt =====
-- The theorems on the chrome at a change that comes while a frame is on its way.
use atlantic_engine.Base.{◌+◌, ◌≤◌, refl, true, false, none, some, List, [], ◌∷◌, arith}
use atlantic_engine.Qt.Overlay.{Overlay, Host, Event, changed, render, run, step}
use atlantic_engine.Qt.Overlay.Pace.{swaps, releases, swaps-run}
use atlantic_engine.Qt.Overlay.Pending.{renders, timeouts, Loop, deliver_all}
use atlantic_engine.Qt.Overlay.Pending.Live.{deliver_all-timers}

abbrev all_well : Host
all_well = record {
  scene_current = true;
  fbo_valid = true;
  surface_current = true;
  frame_made = true;
}

abbrev chrome : Overlay
chrome = record {
  valid = true;
  dirty = false;
  render_pending = false;
  throttled = false;
  has_subsurface = true;
  last_placed = none;
  size = (1080, 2520);
  fbo = none;
}

abbrev session : List Event
session = changed ∷ render all_well (some 5) ∷ changed ∷ []

swaps-run_example : swaps (run chrome session).1 ≤ releases session + 1
swaps-run_example = swaps-run chrome session (refl, tt)

abbrev idle : Loop
idle = record { overlay = chrome; renders_held = 0; timeouts_held = 0 }

deliver_all-timers_example :
    1 ≤ (deliver_all idle session).renders_held + (deliver_all idle session).timeouts_held
unfolding step renders timeouts
deliver_all-timers_example =
    deliver_all-timers idle session
      (record { valid = refl; awaited = refl; rendered = omega arith; timed = omega arith })
      (omega arith, omega arith, (omega arith, omega arith, (omega arith, omega arith, tt))) refl
