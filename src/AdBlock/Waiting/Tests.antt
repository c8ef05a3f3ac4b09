-- ===== src/AdBlock/Waiting/Tests.antt =====
-- The theorems on waiting at a load that settles at the time 10.
use atlantic_engine.Base.{ℕ, ◌+◌, ◌*◌, ◌≤◌, ◌≡◌, true, some, [], ◌∷◌}
use atlantic_engine.AdBlock.Waiting.{engine_wait_us, no_waits}
use atlantic_engine.AdBlock.Waiting.Bound.{time_blocked, time_blocked-le}
use atlantic_engine.Samples.{sample_world, sample_world-WorldLaws}

time_blocked-le_example :
    (total : ℕ) × (time_blocked sample_world no_waits 3 ((0, true) ∷ (4, true) ∷ []) ≡ some total)
    × (total ≤ engine_wait_us + 2 * 1)
time_blocked-le_example =
    time_blocked-le sample_world sample_world-WorldLaws no_waits 3 ((0, true) ∷ (4, true) ∷ [])
