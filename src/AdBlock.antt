-- ===== src/AdBlock.antt =====
-- web-extension/atlantic-adblock-extension.c: the WebProcess extension that routes every request
-- through the ad-block engine.
pub mod Glib
pub mod ResourceType
pub mod Hosts
pub mod Engine
pub mod Waiting
pub mod Requests
pub mod Loader
pub mod Publish
