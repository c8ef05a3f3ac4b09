-- ===== src/Qt/Frames.antt =====
-- The frames of qt5-plugin/WPEQtViewBackend.cpp: the images that the web process exports, the Qt scene
-- that samples them, and the acknowledgement that lets the web process start the next one.
pub mod Again
pub mod Counting
pub mod Images
pub mod Stock
pub mod Pipelined
pub mod EarlyAck
mod Tests
use atlantic_engine.Base.{
  ℕ, ◌+◌, Bool, true, false, not, ◌&&◌, ◌||◌, Option, none, some, List, [], ◌∷◌, ◌++◌,
  if◌then◌else◌, Bytes, codes,
}
use atlantic_engine.Qt.Env.{env_on}

-- The three switches, each read from the environment once.
pub record Modes : Type 0 where
  pub eager : Bool
  pub pipelined : Bool
  pub on_sample : Bool

pub modes_from : (Bytes → Option Bytes) → Modes
modes_from getenv = record {
  eager = env_on (getenv (codes "ATLANTIC_EAGER_FRAME_COMPLETE"));
  pipelined = env_on (getenv (codes "ATLANTIC_PIPELINED_FRAME_ACK"));
  on_sample = env_on (getenv (codes "ATLANTIC_ACK_ON_SAMPLE"));
}

-- `ackOnSample`: the other two modes exclude it.
abbrev pub ack_on_sample : Modes → Bool
ack_on_sample m = m.on_sample && (not m.eager && not m.pipelined)

-- The members that the frames use. An exported image is a number, and `none` is a null pointer.
pub record Backend : Type 0 where
  pub exportable : Bool
  pub view : Bool
  pub window : Bool  -- the view is in a window
  pub subsurface : Bool
  pub surface_valid : Bool
  pub pending : Option ℕ
  pub committed : Option ℕ
  pub frame_update_requested : Bool
  pub ack_credit : Bool
  pub ack_owed : Bool
  pub early_ack_armed : Bool
  pub acked_early : Bool

-- The calls that the backend makes, in order.
pub data Call : Type 0 where
  frame_complete : Call  -- wpe_view_backend_exportable_fdo_dispatch_frame_complete
  release : ℕ → Call  -- ..._fdo_egl_dispatch_release_exported_image
  present : ℕ → Call  -- WPEWaylandSubsurface::present
  bind : ℕ → Call  -- glEGLImageTargetTexture2DOES
  note_frame_arrived trigger_update post_window_update post_early_ack : Call

-- `if (m_exportable && image) dispatch_release_exported_image (m_exportable, image)`
abbrev pub release_if : Bool → Option ℕ → List Call
release_if exportable none = []
release_if exportable (some image) = if exportable then release image ∷ [] else []

abbrev pub is_some {ℓ} : {A : Type ℓ} → Option A → Bool
is_some none = false
is_some (some x) = true

abbrev pub call_if : Bool → Call → List Call
call_if b c = if b then c ∷ [] else []

-- `m_pendingImage ? m_pendingImage : m_committedImage`
unfoldable pub current_image : Backend → Option ℕ
current_image b = if is_some b.pending then b.pending else b.committed

bind_image : Option ℕ → List Call
bind_image none = []
bind_image (some image) = bind image ∷ []

-- `texture`, on the render thread; it returns 0 where the first test holds.
unfoldable pub texture : Modes → Backend → Backend × List Call
unfolding bind_image
texture m b =
    if not (is_some (current_image b)) || not b.surface_valid
    then (b, [])
    else let arms = is_some b.pending && (ack_on_sample m && b.view) in
      (
        record b {
          early_ack_armed = arms || b.early_ack_armed;
          frame_update_requested = is_some b.pending;
        },
        bind_image (current_image b) ++ call_if arms post_early_ack,
      )

-- `dispatchEarlyAck`
unfoldable pub dispatch_early_ack : Backend → Backend × List Call
dispatch_early_ack b =
    if not b.early_ack_armed
    then (b, [])
    else if not b.exportable || b.acked_early
    then (record b { early_ack_armed = false }, [])
    else (record b { early_ack_armed = false; acked_early = true }, frame_complete ∷ [])

-- The acknowledgement in `didRenderFrame`.
ack_rendered : Modes → Backend → Backend × List Call
ack_rendered m b =
    if m.eager
    then (b, [])
    else if m.pipelined
    then (record b { ack_owed = false; ack_credit = true }, call_if b.ack_owed frame_complete)
    else if b.acked_early
    then (record b { acked_early = false }, [])
    else (record b { early_ack_armed = false }, frame_complete ∷ [])

-- `didRenderFrame`
unfoldable pub did_render_frame : Modes → Backend → Backend × List Call
unfolding ack_rendered
did_render_frame m b =
    if not b.frame_update_requested || not b.exportable
    then (b, [])
    else let (b', acks) = ack_rendered m (record b { frame_update_requested = false }) in
      (
        record b' { committed = b'.pending; pending = none },
        acks ++ release_if b'.exportable b'.committed,
      )

-- The acknowledgement in `displayImage`.
ack_arrived : Modes → Backend → Backend × List Call
ack_arrived m b =
    if m.eager && b.exportable
    then (b, frame_complete ∷ [])
    else if m.pipelined && b.exportable
    then if b.ack_credit
      then (record b { ack_credit = false }, frame_complete ∷ [])
      else (record b { ack_owed = true }, [])
    else (b, [])

-- The part of `displayImage` for a view that has a subsurface.
display_on_subsurface : Backend → ℕ → Backend × List Call
display_on_subsurface b image = (
  record b { committed = some image },
  call_if b.view note_frame_arrived
      ++ present image
        ∷ (call_if b.exportable frame_complete ++ release_if b.exportable b.committed),
)

-- The end of `displayImage`: the view paints the image, or without a view it is given back.
show_pending : Backend → ℕ → Backend × List Call
show_pending b image =
    if b.view
    then (b, trigger_update ∷ call_if b.window post_window_update)
    else (record b { pending = none }, release_if b.exportable (some image))

-- The rest of `displayImage`.
display_in_scene : Modes → Backend → ℕ → Backend × List Call
display_in_scene m b image =
    let (b', acks) = ack_arrived m (record b { pending = some image }) in
    let (b'', shown) = show_pending b' image in
    (
      b'',
      call_if b.view note_frame_arrived ++ (release_if b.exportable b.pending ++ (acks ++ shown)),
    )

-- `displayImage`
unfoldable pub display_image : Modes → Backend → ℕ → Backend × List Call
unfolding display_on_subsurface display_in_scene ack_arrived show_pending
display_image m b image =
    if b.subsurface then display_on_subsurface b image else display_in_scene m b image

-- The calls of the destructor that concern the images.
unfoldable pub destroy : Backend → Backend × List Call
destroy b = (
  record b { pending = none; committed = none },
  release_if b.exportable b.pending ++ release_if b.exportable b.committed,
)

-- What happens to a backend: an image arrives, the scene samples it, the queued early
-- acknowledgement is delivered, and the queued `frameSwapped` is.
pub data Event : Type 0 where
  arrives : ℕ → Event
  samples early_ack rendered : Event

unfoldable pub step : Modes → Backend → Event → Backend × List Call
unfolding display_image texture dispatch_early_ack did_render_frame
step m b (arrives image) = display_image m b image
step m b samples = texture m b
step m b early_ack = dispatch_early_ack b
step m b rendered = did_render_frame m b

-- The events in turn: the backend after them, and all the calls that they made.
unfoldable pub run : Modes → Backend → List Event → Backend × List Call
unfolding step
run m b [] = (b, [])
run m b (e ∷ es) =
    let (b', calls) = step m b e in let (b'', rest) = run m b' es in (b'', calls ++ rest)

-- How many frames the calls acknowledge.
unfoldable pub acks : List Call → ℕ
acks [] = 0
acks (frame_complete ∷ calls) = 1 + acks calls
acks (c ∷ calls) = acks calls

-- A backend after its constructor, with a view in a window.
abbrev pub fresh : Backend
fresh = record {
  exportable = true;
  view = true;
  window = true;
  subsurface = false;
  surface_valid = true;
  pending = none;
  committed = none;
  frame_update_requested = false;
  ack_credit = true;
  ack_owed = false;
  early_ack_armed = false;
  acked_early = false;
}
