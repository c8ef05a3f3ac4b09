-- ===== src/AdBlock/Publish/Tests.antt =====
-- The theorems on the publication at an interleaving.
use atlantic_engine.Base.{ℕ, ◌≡◌, refl, true, false, none, some}
use atlantic_engine.AdBlock.Publish.{
  Shared, free, finished, loading, sleeping, reading, got, lock, store, set_flag, broadcast, unlock,
  fast_hit, fast_miss, main_lock, sleep, Reach, here, next, notify, read_engine,
}
use atlantic_engine.AdBlock.Publish.Safety.{reading_sees_loaded}
use atlantic_engine.AdBlock.Publish.Safety.Progress.{CanReturn, sleeping-CanReturn}

-- The engine of the load is 7; the loader publishes it, and the main thread then calls.
abbrev published : Shared ℕ
published = record {
  engine = some 7;
  settled = true;
  owner = free;
  loader = finished;
  main = reading;
}

Reach-published : Reach (some 7) published
unfolding notify
Reach-published =
    next
      (next
        (next (next (next (next here (lock _ refl refl)) (store _ refl)) (set_flag _ refl))
          (broadcast _ refl))
        (unlock _ refl))
      (fast_hit _ refl refl)

reading_sees_loaded_example : published.engine ≡ some 7
reading_sees_loaded_example = reading_sees_loaded Reach-published refl

-- The main thread returns what it read.
Reach-returned : Reach (some 7) (record published { main = got (some 7) })
Reach-returned = next Reach-published (read_engine _ refl)

-- The main thread waits before the loader starts to publish.
abbrev waiting : Shared ℕ
waiting = record { engine = none; settled = false; owner = free; loader = loading; main = sleeping }

Reach-waiting : Reach (some 7) waiting
Reach-waiting =
    next (next (next here (fast_miss _ refl refl)) (main_lock _ refl refl)) (sleep _ refl refl)

sleeping-CanReturn_example : CanReturn (some 7) waiting
sleeping-CanReturn_example = sleeping-CanReturn Reach-waiting refl
