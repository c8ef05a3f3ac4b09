-- ===== src/Qt/View/Chrome/Settled.antt =====
-- The balance of a view and its chrome overlay over any events, with the callbacks of frames.
use atlantic_engine.Base.{ℕ, zero, suc, ◌+◌, ◌≡◌, List}
use atlantic_engine.Qt.Overlay.Setup.{Part, frame_callback}
use atlantic_engine.Qt.Overlay.Setup.Balance.{made, dropped}
use atlantic_engine.Qt.Overlay.Setup.Lasting.{lasting}
use atlantic_engine.Qt.View.{Setup}
use atlantic_engine.Qt.View.Chrome.{Act, Tab, overlay_calls}
use atlantic_engine.Qt.View.Chrome.Balanced.{chrome_held}

-- The weight of callbacks that are pending.
unfoldable pub pending : (Part → ℕ) → ℕ → ℕ
pending k zero = 0
pending k (suc n) = k frame_callback + pending k n

-- The balance of a tab, with the callbacks that are pending.
abbrev Settles : (Part → ℕ) → Tab → Tab → List Act → Type 0
Settles k t t' acts =
    made k (overlay_calls acts) + (chrome_held k t.chrome + pending k t.callbacks)
    ≡ dropped k (overlay_calls acts)
      + (chrome_held k t'.chrome + (pending k t'.callbacks + made (lasting k) (overlay_calls acts)))
