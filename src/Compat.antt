-- ===== src/Compat.antt =====
-- shims/compat: the C shims for the gaps of Sailfish OS other than EGL.
pub mod Forward
pub mod Strings
pub mod Random
pub mod SyncSkip
pub mod Sigill
pub mod Gss
