-- ===== src/Compat/SyncSkip/Skips.antt =====
-- Which waits shims/compat/libsyncskip.c skips.
use atlantic_engine.Base.{
  ℕ, ◌≤◌, ◌≡◌, refl, ◌∙◌, ap, Bool, true, false, ◌&&◌, Option, none, some, List, [], ◌∷◌,
  if◌then◌else◌, codes, arith,
}
use atlantic_engine.Compat.SyncSkip.{
  World, Statics, env_flag, real_sync_wait, skip_enabled, is_compositor, skip, forward, sync_wait,
  loaded,
}

-- The calls of a process in turn, each in its world, with a descriptor and a timeout.
unfoldable pub run : List (World × ℕ × ℕ) → Statics → Statics
run [] s = s
run ((w, fd, timeout) ∷ calls) s = run calls (sync_wait w s fd timeout).statics

forward_lem :
    (w : World) (s : Statics) (fd timeout : ℕ) (real : Option ℕ)
    → ((forward w s fd timeout real).statics.enabled ≡ s.enabled)
      × ((forward w s fd timeout real).statics.logged ≡ s.logged)
      × ((forward w s fd timeout real).forwarded ≡ real)
unfolding forward
forward_lem w s fd timeout none = (refl, refl, refl)
forward_lem w s fd timeout (some fn) = (refl, refl, refl)

skip-logged : (w : World) (s : Statics) → s.logged ≤ 5 → (skip w s).statics.logged ≤ 5
unfolding skip
skip-logged w s le = ground arith

skip_lem :
    (w : World) (s : Statics)
    → ((skip w s).statics.enabled ≡ s.enabled) × ((skip w s).forwarded ≡ none)
unfolding skip
skip_lem w s = (refl, refl)

-- The two ends of a call, on the test between them.
split_lem :
    (b : Bool) (w : World) (s : Statics) (fd timeout : ℕ) (real : Option ℕ)
    → let end = if b then skip w s else forward w s fd timeout real in
      (end.statics.enabled ≡ s.enabled) × (end.forwarded ≡ (if b then none else real))
split_lem true w s fd timeout real = skip_lem w s
split_lem false w s fd timeout real =
    let (enabled, logged, forwarded) = forward_lem w s fd timeout real in (enabled, forwarded)

split-logged :
    (b : Bool) (w : World) (s : Statics) (fd timeout : ℕ) (real : Option ℕ)
    → s.logged ≤ 5
    → (if b then skip w s else forward w s fd timeout real).statics.logged ≤ 5
split-logged true w s fd timeout real le = skip-logged w s le
split-logged false w s fd timeout real le = rw ((forward_lem w s fd timeout real).1) le

-- What a call decides, from the switch as it stands after it.
sync_wait_lem :
    (w : World) (s : Statics) (fd timeout : ℕ)
    → ((sync_wait w s fd timeout).statics.enabled ≡ some (skip_enabled w s.enabled))
      × ((sync_wait w s fd timeout).forwarded ≡ (
          if skip_enabled w s.enabled && is_compositor w.thread_name
          then none
          else real_sync_wait w s.real))
unfolding sync_wait
sync_wait_lem w s fd timeout =
    let real = real_sync_wait w s.real in
    let s' : Statics = record s { real = real; enabled = some (skip_enabled w s.enabled) } in
    split_lem (skip_enabled w s.enabled && is_compositor w.thread_name) w s' fd timeout real

sync_wait-logged :
    (w : World) (s : Statics) (fd timeout : ℕ)
    → s.logged ≤ 5
    → (sync_wait w s fd timeout).statics.logged ≤ 5
unfolding sync_wait
sync_wait-logged w s fd timeout le =
    let real = real_sync_wait w s.real in
    let s' : Statics = record s { real = real; enabled = some (skip_enabled w s.enabled) } in
    split-logged (skip_enabled w s.enabled && is_compositor w.thread_name) w s' fd timeout real le

skip_enabled-some : (w : World) (e : Option Bool) (b : Bool) → e ≡ some b → skip_enabled w e ≡ b
unfolding skip_enabled
skip_enabled-some w e b h = rw h

skip_enabled-none :
    (w : World) → skip_enabled w none ≡ env_flag (w.getenv (codes "ATLANTIC_SKIP_SWAP_FENCE"))
unfolding skip_enabled
skip_enabled-none w = refl

-- The switch is read from the environment at the first call, and later calls keep it.
run_keeps_enabled :
    (calls : List (World × ℕ × ℕ)) (s : Statics) (b : Bool)
    → s.enabled ≡ some b
    → (run calls s).enabled ≡ some b
unfolding run
run_keeps_enabled [] s b h = h
run_keeps_enabled ((w, fd, timeout) ∷ calls) s b h =
    run_keeps_enabled calls (sync_wait w s fd timeout).statics b
      ((sync_wait_lem w s fd timeout).0 ∙ ap some (skip_enabled-some w s.enabled b h))

run-logged : (calls : List (World × ℕ × ℕ)) (s : Statics) → s.logged ≤ 5 → (run calls s).logged ≤ 5
unfolding run
run-logged [] s le = le
run-logged ((w, fd, timeout) ∷ calls) s le =
    run-logged calls (sync_wait w s fd timeout).statics (sync_wait-logged w s fd timeout le)

-- After a first call and any further calls, a call forwards nothing when the environment of the
-- first call switched the skip on and the calling thread is a compositor's; every other call
-- forwards to the real function when it can be found. At most five skips were logged by then.
pub run-sync_wait :
    (w0 : World) (fd0 timeout0 : ℕ) (calls : List (World × ℕ × ℕ)) (w : World) (fd timeout : ℕ)
    → let s = run ((w0, fd0, timeout0) ∷ calls) loaded in
      ((sync_wait w s fd timeout).forwarded ≡ (
        if env_flag (w0.getenv (codes "ATLANTIC_SKIP_SWAP_FENCE")) && is_compositor w.thread_name
        then none
        else real_sync_wait w s.real))
      × ((sync_wait w s fd timeout).statics.logged ≤ 5)
unfolding run
run-sync_wait w0 fd0 timeout0 calls w fd timeout =
    let first = sync_wait w0 loaded fd0 timeout0 in
    let s = run calls first.statics in
    let b = env_flag (w0.getenv (codes "ATLANTIC_SKIP_SWAP_FENCE")) in
    let kept : s.enabled ≡ some b =
      run_keeps_enabled calls first.statics b
        ((sync_wait_lem w0 loaded fd0 timeout0).0 ∙ ap some (skip_enabled-none w0)) in
    (
      rw ((sync_wait_lem w s fd timeout).1, skip_enabled-some w s.enabled b kept),
      sync_wait-logged w s fd timeout
          (run-logged calls first.statics (sync_wait-logged w0 loaded fd0 timeout0 (omega arith))),
    )
