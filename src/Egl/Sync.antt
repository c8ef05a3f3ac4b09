-- ===== src/Egl/Sync.antt =====
-- The EGL 1.5 sync and image functions: each looks its KHR function up once, and forwards to it.
pub mod Once
mod Tests
use atlantic_engine.Base.{
  ℕ, ◌%◌, ◌^◌, ◌+◌, ◌-◌, Bool, true, false, not, ◌&&◌, Option, none, some, List, [], ◌∷◌, ◌++◌,
  ==_iff, ◌==◌, ltb, if◌then◌else◌, Bytes, codes,
}
use atlantic_engine.Egl.Attribs.{attrib_to_int}

-- A static function pointer: `(fn_t)-1` is `unprobed`, and a probed pointer may be NULL.
pub data Slot : Type 0 where
  unprobed : Slot
  probed : Option ℕ → Slot

-- The static pointers of the file. Addresses of driver functions are numbers.
pub record Statics : Type 0 where
  pub get_proc_address : Option ℕ  -- `fn` of get_egl_get_proc_address; `none` is NULL
  pub create_sync : Slot
  pub destroy_sync : Slot
  pub client_wait_sync : Slot
  pub wait_sync : Slot
  pub get_sync_attrib : Slot
  pub create_image : Slot
  pub destroy_image : Slot

abbrev pub unloaded : Statics
unloaded = record {
  get_proc_address = none;
  create_sync = unprobed;
  destroy_sync = unprobed;
  client_wait_sync = unprobed;
  wait_sync = unprobed;
  get_sync_attrib = unprobed;
  create_image = unprobed;
  destroy_image = unprobed;
}

-- The dynamic linker and the driver at the time of a call: `dlsym (RTLD_DEFAULT,
-- "eglGetProcAddress")`, a call of the eglGetProcAddress at an address, and the functions that it
-- hands out, by their address.
pub record Driver : Type 0 where
  pub dlsym_get_proc_address : Option ℕ
  pub get_proc : ℕ → Bytes → Option ℕ
  pub create_sync : ℕ → ℕ → ℕ → List ℕ → ℕ
  pub destroy_sync : ℕ → ℕ → ℕ → ℕ
  pub client_wait_sync : ℕ → ℕ → ℕ → ℕ → ℕ → ℕ
  pub wait_sync : ℕ → ℕ → ℕ → ℕ → ℕ
  pub get_sync_attrib : ℕ → ℕ → ℕ → ℕ → ℕ × ℕ
  pub create_image : ℕ → ℕ → ℕ → ℕ → ℕ → List ℕ → ℕ
  pub destroy_image : ℕ → ℕ → ℕ → ℕ

-- EGL_FALSE, EGL_TRUE, EGL_CONDITION_SATISFIED; the null handles EGL_NO_SYNC and EGL_NO_IMAGE are 0.
abbrev pub egl_false : ℕ
egl_false = 0

abbrev pub egl_true : ℕ
egl_true = 1

abbrev pub egl_condition_satisfied : ℕ
egl_condition_satisfied = 0x30f6

-- The cached pointer, or what dlsym gives now.
get_egl_get_proc_address : Driver → Option ℕ → Option ℕ
get_egl_get_proc_address d none = d.dlsym_get_proc_address
get_egl_get_proc_address d (some fn) = some fn

call_get_proc : Driver → Bytes → Option ℕ → Option ℕ
call_get_proc d name none = none
call_get_proc d name (some fn) = d.get_proc fn name

-- The pointer, and the static pointer to eglGetProcAddress after the call.
egl_get_proc : Driver → Statics → Bytes → Option ℕ × Option ℕ
egl_get_proc d s name =
    let fn = get_egl_get_proc_address d s.get_proc_address in (call_get_proc d name fn, fn)

-- `if (fn == (fn_t)-1) fn = egl_get_proc (name)`: the pointer, and the new static pointer to
-- eglGetProcAddress.
resolve : Driver → Statics → Slot → Bytes → Option ℕ × Option ℕ
resolve d s unprobed name = egl_get_proc d s name
resolve d s (probed fn) name = (fn, s.get_proc_address)

-- `if (fn && sync) return call (fn); return fallback`
forward_sync : Option ℕ → ℕ → (ℕ → ℕ) → ℕ → ℕ
forward_sync none sync call fallback = fallback
forward_sync (some fn) sync call fallback = if sync == 0 then fallback else call fn

-- `fn ? call (fn) : fallback`
forward : Option ℕ → (ℕ → ℕ) → ℕ → ℕ
forward none call fallback = fallback
forward (some fn) call fallback = call fn

-- `int_attrs[64]`, uninitialised; `junk` is what its cells hold.
abbrev pub attribs : Option (List ℕ) → List ℕ → List ℕ
attribs attrib_list junk = attrib_to_int attrib_list junk 64

-- Each function gives its result and the statics after it.
pub egl_create_sync : Driver → List ℕ → Statics → ℕ → ℕ → Option (List ℕ) → ℕ × Statics
egl_create_sync d junk s dpy type attrib_list =
    let (fn, gpa) = resolve d s s.create_sync (codes "eglCreateSyncKHR") in
    (
      forward fn (λ f. d.create_sync f dpy type (attribs attrib_list junk)) 0,
      record s { get_proc_address = gpa; create_sync = probed fn },
    )

pub egl_destroy_sync : Driver → Statics → ℕ → ℕ → ℕ × Statics
egl_destroy_sync d s dpy sync =
    let (fn, gpa) = resolve d s s.destroy_sync (codes "eglDestroySyncKHR") in
    (
      forward_sync fn sync (λ f. d.destroy_sync f dpy sync) egl_true,
      record s { get_proc_address = gpa; destroy_sync = probed fn },
    )

pub egl_client_wait_sync : Driver → Statics → ℕ → ℕ → ℕ → ℕ → ℕ × Statics
egl_client_wait_sync d s dpy sync flags timeout =
    let (fn, gpa) = resolve d s s.client_wait_sync (codes "eglClientWaitSyncKHR") in
    (
      forward_sync fn sync (λ f. d.client_wait_sync f dpy sync flags timeout)
          egl_condition_satisfied,
      record s { get_proc_address = gpa; client_wait_sync = probed fn },
    )

pub egl_wait_sync : Driver → Statics → ℕ → ℕ → ℕ → ℕ × Statics
egl_wait_sync d s dpy sync flags =
    let (fn, gpa) = resolve d s s.wait_sync (codes "eglWaitSyncKHR") in
    (
      forward_sync fn sync (λ f. d.wait_sync f dpy sync flags) egl_true,
      record s { get_proc_address = gpa; wait_sync = probed fn },
    )

-- `(EGLAttrib) int_val`: the 64-bit pattern of a 32-bit signed value.
abbrev pub sign_extend : ℕ → ℕ
sign_extend v = if ltb v (2 ^ 31) then v else v + 2 ^ 64 - 2 ^ 32

-- `if (result && value) *value = int_val`: `none` is a NULL pointer, and else the cell's content.
store_attrib : ℕ × ℕ → Option ℕ → Option ℕ
store_attrib (result, int_val) none = none
store_attrib (result, int_val) (some old) = some (if result == 0 then old else sign_extend int_val)

sync_attrib : Driver → Option ℕ → ℕ → ℕ → ℕ → Option ℕ → ℕ × Option ℕ
sync_attrib d none dpy sync attribute value = (egl_false, value)
sync_attrib d (some fn) dpy sync attribute value = if sync == 0 then (egl_false, value) else (
  (d.get_sync_attrib fn dpy sync (attribute % 2 ^ 32)).0,
  store_attrib (d.get_sync_attrib fn dpy sync (attribute % 2 ^ 32)) value,
)

-- The result, the cell behind `value` after it, and the statics.
pub egl_get_sync_attrib : Driver → Statics → ℕ → ℕ → ℕ → Option ℕ → (ℕ × Option ℕ) × Statics
egl_get_sync_attrib d s dpy sync attribute value =
    let (fn, gpa) = resolve d s s.get_sync_attrib (codes "eglGetSyncAttribKHR") in
    (
      sync_attrib d fn dpy sync attribute value,
      record s { get_proc_address = gpa; get_sync_attrib = probed fn },
    )

pub egl_create_image : Driver → List ℕ → Statics → ℕ → ℕ → ℕ → ℕ → Option (List ℕ) → ℕ × Statics
egl_create_image d junk s dpy ctx target buf attrib_list =
    let (fn, gpa) = resolve d s s.create_image (codes "eglCreateImageKHR") in
    (
      forward fn (λ f. d.create_image f dpy ctx target buf (attribs attrib_list junk)) 0,
      record s { get_proc_address = gpa; create_image = probed fn },
    )

pub egl_destroy_image : Driver → Statics → ℕ → ℕ → ℕ × Statics
egl_destroy_image d s dpy image =
    let (fn, gpa) = resolve d s s.destroy_image (codes "eglDestroyImageKHR") in
    (
      forward fn (λ f. d.destroy_image f dpy image) egl_false,
      record s { get_proc_address = gpa; destroy_image = probed fn },
    )

-- The platform functions: no display, and no surface.
pub egl_create_platform_display : ℕ → ℕ → Option (List ℕ) → ℕ
egl_create_platform_display platform native_display attrib_list = 0

pub egl_create_platform_window_surface : ℕ → ℕ → ℕ → Option (List ℕ) → ℕ
egl_create_platform_window_surface dpy config native_window attrib_list = 0
