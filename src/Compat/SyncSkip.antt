-- ===== src/Compat/SyncSkip.antt =====
-- shims/compat/libsyncskip.c: sync_wait, interposed to skip the fence wait on compositor threads.
pub mod Skips
mod Tests
use atlantic_engine.Base.{
  ℕ, ◌+◌, ◌<◌, Bool, true, false, not, ◌&&◌, ◌||◌, Option, none, some, List, [], ◌∷◌, ltb, ◌==◌,
  if◌then◌else◌, or_else, ◌>>=◌, Bytes, codes, strstr,
}

-- What a call meets: the dynamic linker, the environment, the name of the calling thread as
-- `prctl (PR_GET_NAME)` gives it, and the function at an address. Handles and addresses are numbers.
pub record World : Type 0 where
  pub dlsym_next : Option ℕ  -- dlsym (RTLD_NEXT, "sync_wait")
  pub dlopen : Bytes → Option ℕ
  pub dlsym : ℕ → Option ℕ  -- dlsym (handle, "sync_wait")
  pub getenv : Bytes → Option Bytes
  pub thread_name : Bytes
  pub call : ℕ → ℕ → ℕ → ℕ  -- real (fd, timeout)

-- The function-local statics. `enabled` is -1, here `none`, before the first call.
pub record Statics : Type 0 where
  pub real : Option ℕ
  pub enabled : Option Bool
  pub logged : ℕ
  pub warned : Bool

abbrev pub loaded : Statics
loaded = record { real = none; enabled = none; logged = 0; warned = false }

-- `v && *v && *v != '0'`
abbrev pub env_flag : Option Bytes → Bool
env_flag none = false
env_flag (some []) = false
env_flag (some (c ∷ s)) = not (c == b'0')

-- The library itself, by its soname or by its path.
load_library : World → Option ℕ
load_library w =
    or_else (w.dlopen (codes "libsync.so.2")) (w.dlopen (codes "/usr/lib64/libsync.so.2"))

-- The pointer, which a call that finds none looks up again.
pub real_sync_wait : World → Option ℕ → Option ℕ
real_sync_wait w (some fn) = some fn
real_sync_wait w none = or_else w.dlsym_next (load_library w >>= w.dlsym)

skip_enabled : World → Option Bool → Bool
skip_enabled w (some b) = b
skip_enabled w none = env_flag (w.getenv (codes "ATLANTIC_SKIP_SWAP_FENCE"))

-- The test on the thread's name.
pub is_compositor : Bytes → Bool
is_compositor name = strstr name (codes "Composi") || strstr name (codes "QSGRenderThread")

-- What a call returns, the function that it forwarded to, and the statics after it.
pub record Waited : Type 0 where
  pub result : ℕ
  pub forwarded : Option ℕ
  pub statics : Statics

-- The skip, with its log line for the first few.
skip : World → Statics → Waited
skip w s = record {
  result = 0;
  forwarded = none;
  statics = record s {
    logged =
        if env_flag (w.getenv (codes "ATLANTIC_SYNCSKIP_LOG")) && ltb s.logged 5
        then s.logged + 1
        else s.logged;
  };
}

-- The end of the call, on the real function.
forward : World → Statics → ℕ → ℕ → Option ℕ → Waited
forward w s fd timeout none = record {
  result = 0;
  forwarded = none;
  statics = record s { warned = true };
}
forward w s fd timeout (some fn) = record {
  result = w.call fn fd timeout;
  forwarded = some fn;
  statics = s;
}

pub sync_wait : World → Statics → ℕ → ℕ → Waited
sync_wait w s fd timeout =
    let real = real_sync_wait w s.real in
    let enabled = skip_enabled w s.enabled in
    let s' = record s { real = real; enabled = some enabled } in
    if enabled && is_compositor w.thread_name then skip w s' else forward w s' fd timeout real
