-- ===== src/Egl.antt =====
-- shims/compat/libegl-stubs.c: the EGL 1.5 functions over the KHR extensions of an EGL 1.4 driver.
pub mod Attribs
pub mod Sync
