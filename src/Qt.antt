-- ===== src/Qt.antt =====
-- The Qt plugin, qt5-plugin.
pub mod Env
pub mod Frames
pub mod Touch
pub mod Subsurface
pub mod View
pub mod Orientation
pub mod Overlay
pub mod Input
pub mod Geolocation
pub mod Clipboard
