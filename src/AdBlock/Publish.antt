-- ===== src/AdBlock/Publish.antt =====
-- The publication of the engine at the end of load_engine_thread, against ready_engine on the main
-- thread: each access to shared memory is a step, and the two threads' steps interleave. GLib's
-- atomics are full barriers, so the accesses are sequentially consistent.
pub mod Safety
mod Tests
use atlantic_engine.Base.{◌≡◌, Bool, true, false, Option, none, some, if◌then◌else◌}

-- `g_engine_mutex`
pub data Owner : Type 0 where
  free by_loader by_main : Owner

-- The loader thread: before the lock, after it, after the store to `g_engine`, after the store to
-- `g_engine_settled`, after the broadcast, and after the unlock.
pub data LoaderPc : Type 0 where
  loading locked stored flagged notified finished : LoaderPc

-- The main thread: outside `ready_engine`; past the first test of the flag; at the loop's test, in
-- the wait and woken from it (by a timeout or not); past the loop; past the unlock; about to read
-- `g_engine`; returning a pointer.
pub data MainPc (E : Type 0) : Type 0 where
  idle missed testing sleeping : MainPc E
  woken : (timed_out : Bool) → MainPc E
  leaving checking reading : MainPc E
  got : Option E → MainPc E

pub record Shared (E : Type 0) : Type 0 where
  pub engine : Option E
  pub settled : Bool
  pub owner : Owner
  pub loader : LoaderPc
  pub main : MainPc E

-- The broadcast ends a wait.
pub notify : {E : Type 0} → MainPc E → MainPc E
notify sleeping = woken false
notify pc = pc

-- `loaded` is what the load ended with.
module _ {E : Type 0} (loaded : Option E) where
  pub data Step : Shared E → Shared E → Type 0 where
    lock :
        (s : Shared E)
        → s.loader ≡ loading
        → s.owner ≡ free
        → Step s (record s { loader = locked; owner = by_loader })
    store :
        (s : Shared E) → s.loader ≡ locked → Step s (record s { loader = stored; engine = loaded })
    set_flag :
        (s : Shared E) → s.loader ≡ stored → Step s (record s { loader = flagged; settled = true })
    broadcast :
        (s : Shared E)
        → s.loader ≡ flagged
        → Step s (record s { loader = notified; main = notify s.main })
    unlock :
        (s : Shared E) → s.loader ≡ notified → Step s (record s { loader = finished; owner = free })
    fast_hit :
        (s : Shared E) → s.main ≡ idle → s.settled ≡ true → Step s (record s { main = reading })
    fast_skip :
        (s : Shared E) → s.main ≡ idle → s.settled ≡ false → Step s (record s { main = got none })
    fast_miss :
        (s : Shared E) → s.main ≡ idle → s.settled ≡ false → Step s (record s { main = missed })
    main_lock :
        (s : Shared E)
        → s.main ≡ missed
        → s.owner ≡ free
        → Step s (record s { main = testing; owner = by_main })
    test_hit :
        (s : Shared E) → s.main ≡ testing → s.settled ≡ true → Step s (record s { main = leaving })
    sleep :
        (s : Shared E)
        → s.main ≡ testing
        → s.settled ≡ false
        → Step s (record s { main = sleeping; owner = free })
    wake :
        (s : Shared E) (timed_out : Bool)
        → s.main ≡ sleeping
        → Step s (record s { main = woken timed_out })
    relock :
        (s : Shared E) (timed_out : Bool)
        → s.main ≡ woken timed_out
        → s.owner ≡ free
        → Step s (record s { main = if timed_out then leaving else testing; owner = by_main })
    main_unlock :
        (s : Shared E) → s.main ≡ leaving → Step s (record s { main = checking; owner = free })
    check_hit :
        (s : Shared E) → s.main ≡ checking → s.settled ≡ true → Step s (record s { main = reading })
    check_miss :
        (s : Shared E)
        → s.main ≡ checking
        → s.settled ≡ false
        → Step s (record s { main = got none })
    read_engine : (s : Shared E) → s.main ≡ reading → Step s (record s { main = got s.engine })
    next_request :
        (s : Shared E) (o : Option E) → s.main ≡ got o → Step s (record s { main = idle })

abbrev pub start : {E : Type 0} → Shared E
start = record { engine = none; settled = false; owner = free; loader = loading; main = idle }

module _ {E : Type 0} (loaded : Option E) where
  pub data Reach : Shared E → Type 0 where
    here : Reach start
    next : {s t : Shared E} → Reach s → Step loaded s t → Reach t
