-- ===== src/Compat/SyncSkip/Tests.antt =====
-- The theorem on sync_wait in a process that has the skip switched on.
use atlantic_engine.Base.{
  ◌+◌, ◌≤◌, ◌≡◌, ◌&&◌, Option, none, some, [], ◌∷◌, Bytes, codes, streq, if◌then◌else◌,
}
use atlantic_engine.Compat.SyncSkip.{
  World, loaded, env_flag, is_compositor, real_sync_wait, sync_wait,
}
use atlantic_engine.Compat.SyncSkip.Skips.{run, run-sync_wait}

-- The environment of the process.
skip_on : Bytes → Option Bytes
skip_on name = if streq name (codes "ATLANTIC_SKIP_SWAP_FENCE") then some (codes "1") else none

abbrev on_main : World
on_main = record {
  dlsym_next = some 5;
  dlopen = λ name. none;
  dlsym = λ handle. none;
  getenv = skip_on;
  thread_name = codes "atlantic";
  call = λ fn fd timeout. fn + fd;
}

abbrev on_compositor : World
on_compositor = record on_main { thread_name = codes "ThreadedComposi" }

run-sync_wait_example :
    let s = run ((on_main, 3, 100) ∷ (on_compositor, 4, 100) ∷ []) loaded in
    ((sync_wait on_compositor s 5 100).forwarded ≡ (
      if env_flag (skip_on (codes "ATLANTIC_SKIP_SWAP_FENCE"))
        && is_compositor (codes "ThreadedComposi")
      then none
      else real_sync_wait on_compositor s.real))
    × ((sync_wait on_compositor s 5 100).statics.logged ≤ 5)
run-sync_wait_example =
    run-sync_wait on_main 3 100 ((on_compositor, 4, 100) ∷ []) on_compositor 5 100
