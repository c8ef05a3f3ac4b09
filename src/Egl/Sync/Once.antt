-- ===== src/Egl/Sync/Once.antt =====
-- The look-up of the KHR functions: at most once, kept for good, and inert where it fails.
use atlantic_engine.Base.{ℕ, ◌≡◌, Option, none, List, [], ◌∷◌, arith}
use atlantic_engine.Egl.Sync.{
  Slot, unprobed, probed, Statics, Driver, egl_true, egl_condition_satisfied, egl_false,
  get_egl_get_proc_address, call_get_proc, egl_get_proc, resolve, forward_sync, forward,
  sync_attrib, egl_create_sync, egl_destroy_sync, egl_client_wait_sync, egl_wait_sync,
  egl_get_sync_attrib, egl_create_image, egl_destroy_image,
}

-- A call of one of the seven functions.
pub data Call : Type 0 where
  create_sync : ℕ → ℕ → Option (List ℕ) → Call
  destroy_sync : ℕ → ℕ → Call
  client_wait_sync : ℕ → ℕ → ℕ → ℕ → Call
  wait_sync : ℕ → ℕ → ℕ → Call
  get_sync_attrib : ℕ → ℕ → ℕ → Option ℕ → Call
  create_image : ℕ → ℕ → ℕ → ℕ → Option (List ℕ) → Call
  destroy_image : ℕ → ℕ → Call

-- The function called: its result, and the statics after it.
unfoldable pub call : Driver → List ℕ → Statics → Call → ℕ × Statics
unfolding egl_create_sync egl_destroy_sync egl_client_wait_sync egl_wait_sync egl_get_sync_attrib
    egl_create_image egl_destroy_image
call d junk s (create_sync dpy type attribs) = egl_create_sync d junk s dpy type attribs
call d junk s (destroy_sync dpy sync) = egl_destroy_sync d s dpy sync
call d junk s (client_wait_sync dpy sync flags timeout) =
    egl_client_wait_sync d s dpy sync flags timeout
call d junk s (wait_sync dpy sync flags) = egl_wait_sync d s dpy sync flags
call d junk s (get_sync_attrib dpy sync attribute value) =
    let (r, s') = egl_get_sync_attrib d s dpy sync attribute value in (r.0, s')
call d junk s (create_image dpy ctx target buf attribs) =
    egl_create_image d junk s dpy ctx target buf attribs
call d junk s (destroy_image dpy image) = egl_destroy_image d s dpy image

-- What a call returns where its KHR function is missing.
abbrev pub fallback : Call → ℕ
fallback (create_sync _ _ _) = 0
fallback (destroy_sync _ _) = egl_true
fallback (client_wait_sync _ _ _ _) = egl_condition_satisfied
fallback (wait_sync _ _ _) = egl_true
fallback (get_sync_attrib _ _ _ _) = egl_false
fallback (create_image _ _ _ _ _) = 0
fallback (destroy_image _ _) = egl_false

-- The static pointer that a call uses.
abbrev pub slot : Call → Statics → Slot
slot (create_sync _ _ _) s = s.create_sync
slot (destroy_sync _ _) s = s.destroy_sync
slot (client_wait_sync _ _ _ _) s = s.client_wait_sync
slot (wait_sync _ _ _) s = s.wait_sync
slot (get_sync_attrib _ _ _ _) s = s.get_sync_attrib
slot (create_image _ _ _ _ _) s = s.create_image
slot (destroy_image _ _) s = s.destroy_image

-- A pointer that was looked up stays: no call, of the same function or of another, changes it,
-- whatever the dynamic linker and the driver answer by then.
pub call_keeps_probed :
    (d : Driver) (junk : List ℕ) (s : Statics) (c c' : Call) (fn : Option ℕ)
    → slot c s ≡ probed fn
    → slot c (call d junk s c').1 ≡ probed fn
unfolding call resolve
call_keeps_probed d junk s c c' fn h = ground arith

-- Calls in turn, each with the dynamic linker and the driver as they are by then.
unfoldable pub run : List ℕ → List (Driver × Call) → Statics → Statics
run junk [] s = s
run junk ((d, c) ∷ calls) s = run junk calls (call d junk s c).1

run_keeps_probed :
    (junk : List ℕ) (calls : List (Driver × Call)) (s : Statics) (c : Call) (fn : Option ℕ)
    → slot c s ≡ probed fn
    → slot c (run junk calls s) ≡ probed fn
unfolding run
run_keeps_probed junk [] s c fn h = h
run_keeps_probed junk ((d, c') ∷ calls) s c fn h =
    run_keeps_probed junk calls (call d junk s c').1 c fn (call_keeps_probed d junk s c c' fn h)

-- A first call that finds no eglGetProcAddress settles the pointer on NULL.
probed_missing :
    (d : Driver) (junk : List ℕ) (s : Statics) (c : Call)
    → slot c s ≡ unprobed
    → s.get_proc_address ≡ none
    → d.dlsym_get_proc_address ≡ none
    → slot c (call d junk s c).1 ≡ probed none
unfolding call resolve egl_get_proc get_egl_get_proc_address call_get_proc
probed_missing d junk s c h p q = ground arith

missing_inert :
    (d : Driver) (junk : List ℕ) (s : Statics) (c : Call)
    → slot c s ≡ probed none
    → (call d junk s c).0 ≡ fallback c
unfolding call resolve forward forward_sync sync_attrib
missing_inert d junk s c h = ground arith

-- If a function is first called before the real libEGL is loaded, it stays the no-op of its
-- fallback: after any further calls, and with any driver, it returns the fallback value.
pub first_call_before_driver :
    (d : Driver) (junk : List ℕ) (s : Statics) (c : Call) (calls : List (Driver × Call))
    (later : Driver)
    → slot c s ≡ unprobed
    → s.get_proc_address ≡ none
    → d.dlsym_get_proc_address ≡ none
    → (call later junk (run junk calls (call d junk s c).1) c).0 ≡ fallback c
first_call_before_driver d junk s c calls later h p q =
    missing_inert later junk (run junk calls (call d junk s c).1) c
      (run_keeps_probed junk calls (call d junk s c).1 c none (probed_missing d junk s c h p q))
