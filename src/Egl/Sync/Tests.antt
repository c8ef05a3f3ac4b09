-- ===== src/Egl/Sync/Tests.antt =====
-- The theorems on the function pointers at a driver that has every function.
use atlantic_engine.Base.{◌≡◌, refl, none, some, [], ◌∷◌}
use atlantic_engine.Egl.Sync.{Driver, probed, Statics, unloaded}
use atlantic_engine.Egl.Sync.Once.{
  call, fallback, destroy_sync, create_image, run, first_call_before_driver,
}

-- eglGetProcAddress is at 5, and it hands out 6.
abbrev driver : Driver
driver = record {
  dlsym_get_proc_address = some 5;
  get_proc = λ fn name. some 6;
  create_sync = λ fn dpy type attribs. 1;
  destroy_sync = λ fn dpy sync. 1;
  client_wait_sync = λ fn dpy sync flags timeout. 1;
  wait_sync = λ fn dpy sync flags. 1;
  get_sync_attrib = λ fn dpy sync attribute. (1, 2);
  create_image = λ fn dpy ctx target buffer attribs. 1;
  destroy_image = λ fn dpy image. 1;
}

-- The process before the driver is loaded.
abbrev no_driver : Driver
no_driver = record driver { dlsym_get_proc_address = none }

abbrev known : Statics
known = record unloaded { destroy_sync = probed (some 6) }

first_call_before_driver_example :
    (call driver []
      (run []
        ((driver, create_image 1 2 3 4 none) ∷ [])
        (call no_driver [] unloaded (destroy_sync 1 2)).1)
      (destroy_sync 1 2)).0
    ≡ fallback (destroy_sync 1 2)
first_call_before_driver_example =
    first_call_before_driver no_driver [] unloaded (destroy_sync 1 2)
      ((driver, create_image 1 2 3 4 none) ∷ []) driver refl refl refl
