-- ===== src/Lib.antt =====
-- atlantic-engine is a build of WPE WebKit for Sailfish OS with the code that it needs around it: an
-- ad-block extension of the web process, libraries that are preloaded or linked in place of
-- functions which the system's older libraries lack, and a Qt plugin that shows the pages. This
-- development models that code.
--
-- web-extension/atlantic-adblock-extension.c, in AdBlock. WebKit calls `on_send_request` for each
-- request of a page. The handler gives up early while blocking is off, for addresses that are not http
-- and on allowlisted pages; else it asks the engine, which a loader thread may still be making ready,
-- and stops the load on a match, or redirects it. Messages from the UI process switch blocking and set
-- the allowlist.
--   AdBlock/Glib: the functions of GLib on texts, as a parameter with their documented behaviour
--   AdBlock/Engine: the C interface of the ad-block engine, as a parameter
--   AdBlock/ResourceType: resource_type_for
--   AdBlock/Hosts: hosts_related, page_allowlisted, is_third_party, and the splitting of set_allowlist
--   AdBlock/Waiting: ready_engine, with its two static flags, against the time and the loader's progress
--   AdBlock/Requests: on_send_request and on_user_message, with the globals that they share
--   AdBlock/Loader: load_engine_thread up to the publication, and the start of the load in
--     webkit_web_process_extension_initialize_with_user_data
--   AdBlock/Publish: the end of load_engine_thread against ready_engine, one shared access at a time
--
-- shims/compat/libegl-stubs.c, in Egl: Egl/Attribs is attrib_to_int, and Egl/Sync the exported functions
-- over the pointers that they look up once.
--
-- shims/compat, in Compat: Compat/Strings (strlcpy, strlcat) and Compat/Random (arc4random,
-- arc4random_buf) are of libglibc-compat.c, Compat/Forward holds its forwarders and those of
-- libglib_compat.c and libharfbuzz_icu_stub.c, Compat/SyncSkip is libsyncskip.c, Compat/Sigill is
-- libsigill_skip.c and Compat/Gss is libgssapi_krb5_stub.c.
--
-- shims/droidcam/gstdroidcamdeviceprovider.c, in Droidcam: the choice of the cameras and their devices
-- in Droidcam, and the bin that captures from one in Droidcam/Bin.
--
-- qt5-plugin, in Qt. WPEQtView is an item of a Qt scene. It makes a WPEQtViewBackend, which takes the
-- images that the web process exports, shows them in the scene or on a WPEWaylandSubsurface, and
-- acknowledges each so that the web process sends the next; the other way it passes on input. The
-- browser's own chrome is drawn by WPEChromeOverlay above the surface of the visible tab, and
-- WPEDeviceOrientationBridge reads the sensors for a page.
--   Qt/Env: the environment variables that the plugin reads
--   Qt/Frames: displayImage, texture, dispatchEarlyAck, didRenderFrame and the destructor of
--     WPEQtViewBackend. An event is the arrival of an image, a sampling by the render thread, or the
--     delivery of a queued call; they come in any order
--   Qt/Touch: dispatchTouchEvent of WPEQtViewBackend
--   Qt/Input: the handlers of hover, mouse and wheel; Qt/Input/Keys those of keys, with keysymForQtKey
--   Qt/Subsurface: WPEWaylandSubsurface, set up in Qt/Subsurface/Create and moved, hidden and drawn in
--     Qt/Subsurface/Show
--   Qt/View: createWebView of WPEQtView; Qt/View/Settings the settings; Qt/View/Loading the callbacks of
--     WebKit's load signals; Qt/View/Painting updatePaintNode, goBack and goForward; Qt/View/Scripts
--     runJavaScript and its callback; Qt/View/Forwarding the event handlers of the item, over Qt/Input and
--     Qt/Touch; Qt/View/Sessions privateSession and clearPrivateBrowsingData; Qt/View/Closing the
--     destructor, with the signals that it disconnects; Qt/View/Window configureWindow; Qt/View/Chrome
--     createChromeOverlayNow, over Qt/Overlay/Setup. Qt/View/OnScreen puts the view together with its
--     surface in Qt/Subsurface and what the page is told
--   Qt/Orientation: WPEDeviceOrientationBridge
--   Qt/Geolocation: WPEGeolocationBridge; Qt/Clipboard: WPEClipboardBridge
--   Qt/Overlay: the scheduling and the drawing of frames in WPEChromeOverlay; Qt/Overlay/Setup how it is
--     set up and destroyed
--
-- Base holds what the parts share: texts as lists of their bytes, lists indexed by native numbers, signed
-- integers. Samples holds values at which the modules called Tests apply the theorems.
--
-- Conventions. A C string is the list of its bytes before the terminator, and NULL is `none`. Buffers
-- are lists of cells with their uninitialised content given. State that a function changes is a record
-- that it takes and gives back. Code of other projects (GLib, the engine, the EGL driver, the dynamic
-- linker, getrandom, Qt, Wayland, WebKit) is a parameter: for the Qt plugin, a record of the answers
-- that the calls get, and the list of the calls that are made. The loop of ready_engine runs on
-- fuel, one round for each microsecond of the wait and two more, which is enough since each wait
-- takes time; the loop of arc4random_buf runs on fuel, one round for each byte and one more, which
-- is enough since each round but the last fills a byte. Other loops are structural. A double is a
-- whole number of small units: in Qt/Orientation of the least unit of doubles, with sums rounded by a
-- parameter; of a metre or a degree in Qt/Geolocation, of a pixel or of a scale in Qt/View.
--
-- Not modelled: log lines and the freeing of memory; the registration of GObject types, signals
-- and plugins; the versions of symbols; WPEQtViewLoadRequest, which holds three constants; the
-- Wayland headers, which are a copy of another project's; the engine in Rust, the patches, and the
-- scripts of the build.
pub mod AdBlock
pub mod Base
pub mod Compat
pub mod Droidcam
pub mod Egl
pub mod Qt
pub mod Samples
