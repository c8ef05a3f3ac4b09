-- ===== src/AdBlock/Publish/Safety.antt =====
-- What holds in every state that the two threads can reach.
pub mod Progress
use atlantic_engine.Base.{◌≡◌, ◌⊎◌, refl, Bool, true, false, ◌&&◌, Option, none, arith}
use atlantic_engine.AdBlock.Publish.{
  Owner, free, by_loader, by_main, LoaderPc, loading, locked, stored, notified, finished, MainPc,
  testing, sleeping, leaving, reading, got, Shared, notify, Step, lock, store, set_flag, broadcast,
  unlock, fast_hit, fast_skip, fast_miss, main_lock, test_hit, sleep, wake, relock, main_unlock,
  check_hit, check_miss, read_engine, next_request, start, Reach, here, next,
}

-- The flag, the pointer and the lock as the loader's position determines them.
abbrev flag_of : LoaderPc → Bool
flag_of loading = false
flag_of locked = false
flag_of stored = false
flag_of _ = true

abbrev engine_of : {E : Type 0} → Option E → LoaderPc → Option E
engine_of loaded loading = none
engine_of loaded locked = none
engine_of loaded _ = loaded

abbrev pub loader_holds : LoaderPc → Bool
loader_holds loading = false
loader_holds finished = false
loader_holds _ = true

abbrev pub main_holds : {E : Type 0} → MainPc E → Bool
main_holds testing = true
main_holds leaving = true
main_holds _ = false

abbrev owner_of : Bool → Bool → Owner
owner_of true _ = by_loader
owner_of false true = by_main
owner_of false false = free

-- The loader has not made its broadcast.
abbrev pub is_before_broadcast : LoaderPc → Bool
is_before_broadcast notified = false
is_before_broadcast finished = false
is_before_broadcast _ = true

-- What the main thread's position says.
abbrev MainOk : {E : Type 0} → Option E → LoaderPc → MainPc E → Type 0
MainOk loaded pc sleeping = is_before_broadcast pc ≡ true
MainOk loaded pc reading = flag_of pc ≡ true
MainOk loaded pc (got o) = (o ≡ none) ⊎ (o ≡ loaded)
MainOk loaded pc _ = Unit

record Inv {E : Type 0} (loaded : Option E) (s : Shared E) : Type 0 where
  flag : s.settled ≡ flag_of s.loader
  pointer : s.engine ≡ engine_of loaded s.loader
  exclusive : (loader_holds s.loader && main_holds s.main) ≡ false
  owned : s.owner ≡ owner_of (loader_holds s.loader) (main_holds s.main)
  main_ok : MainOk loaded s.loader s.main

start-Inv : {E : Type 0} (loaded : Option E) → Inv loaded start
start-Inv loaded = record {
  flag = refl;
  pointer = refl;
  exclusive = refl;
  owned = refl;
  main_ok = tt;
}

Step-Inv :
    {E : Type 0} {loaded : Option E} {s t : Shared E}
    → Step loaded s t
    → Inv loaded s
    → Inv loaded t
unfolding notify
Step-Inv (lock s a b) inv = ground arith
Step-Inv (store s a) inv = ground arith
Step-Inv (set_flag s a) inv = ground arith
Step-Inv (broadcast s a) inv = ground arith
Step-Inv (unlock s a) inv = ground arith
Step-Inv (fast_hit s a b) inv = ground arith
Step-Inv (fast_skip s a b) inv = ground arith
Step-Inv (fast_miss s a b) inv = ground arith
Step-Inv (main_lock s a b) inv = ground arith
Step-Inv (test_hit s a b) inv = ground arith
Step-Inv (sleep s a b) inv = ground arith
Step-Inv (wake s x a) inv = ground arith
Step-Inv (relock s x a b) inv = ground arith
Step-Inv (main_unlock s a) inv = ground arith
Step-Inv (check_hit s a b) inv = ground arith
Step-Inv (check_miss s a b) inv = ground arith
Step-Inv (read_engine s a) inv = ground arith
Step-Inv (next_request s x a) inv = ground arith

Reach-Inv : {E : Type 0} {loaded : Option E} {s : Shared E} → Reach loaded s → Inv loaded s
Reach-Inv {loaded = loaded} here = start-Inv loaded
Reach-Inv (next r st) = Step-Inv st (Reach-Inv r)

-- When the main thread is about to read `g_engine`, the pointer is what the load ended with, in
-- every interleaving.
pub reading_sees_loaded :
    {E : Type 0} {loaded : Option E} {s : Shared E}
    → Reach loaded s
    → s.main ≡ reading
    → s.engine ≡ loaded
reading_sees_loaded r at = let inv = Reach-Inv r in ground arith

-- What the main thread returns is NULL or what the load ended with, never an earlier pointer.
pub got_null_or_loaded :
    {E : Type 0} {loaded : Option E} {s : Shared E} {o : Option E}
    → Reach loaded s
    → s.main ≡ got o
    → (o ≡ none) ⊎ (o ≡ loaded)
got_null_or_loaded r at = let inv = Reach-Inv r in ground arith

-- No wakeup is lost: while the main thread sleeps in the wait, the loader's broadcast is still to
-- come.
pub sleeping_before_broadcast :
    {E : Type 0} {loaded : Option E} {s : Shared E}
    → Reach loaded s
    → s.main ≡ sleeping
    → is_before_broadcast s.loader ≡ true
sleeping_before_broadcast r at = let inv = Reach-Inv r in ground arith

-- The two threads are never both inside the mutex.
pub mutex_exclusive :
    {E : Type 0} {loaded : Option E} {s : Shared E}
    → Reach loaded s
    → (loader_holds s.loader ≡ true) × (main_holds s.main ≡ true)
    → ⊥
mutex_exclusive r both = let inv = Reach-Inv r in ground arith
