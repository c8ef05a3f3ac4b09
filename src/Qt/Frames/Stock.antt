-- ===== src/Qt/Frames/Stock.antt =====
-- The handshake with no mode switched on, against its abstract form.
use atlantic_engine.Base.{ℕ, ◌≡◌, refl, Bool, true, false, Option, none, List, [], ◌∷◌, arith}
use atlantic_engine.Qt.Frames.{
  Modes, Backend, Event, arrives, samples, early_ack, rendered, step, acks, fresh, is_some,
  current_image,
}

-- Where the handshake stands: no frame is shown, a frame waits for the scene, or the scene has
-- sampled it.
pub data Phase : Type 0 where
  idle waiting sampled : Phase

-- A frame is acknowledged when the scene that sampled it has been rendered.
unfoldable pub spec_step : Phase → Event → Phase × ℕ
spec_step idle (arrives image) = (waiting, 0)
spec_step waiting samples = (sampled, 0)
spec_step sampled rendered = (idle, 1)
spec_step p e = (p, 0)

-- The numbers of acknowledgements, event by event.
unfoldable pub spec_acks : Phase → List Event → List ℕ
spec_acks p [] = []
spec_acks p (e ∷ es) = (spec_step p e).1 ∷ spec_acks (spec_step p e).0 es

unfoldable pub step_acks : Modes → Backend → List Event → List ℕ
step_acks m b [] = []
step_acks m b (e ∷ es) = acks (step m b e).1 ∷ step_acks m (step m b e).0 es

abbrev pub stock : Modes
stock = record { eager = false; pipelined = false; on_sample = false }

-- What a phase is, on the members of the backend.
abbrev PendingIs : Phase → Option ℕ → Bool → Type 0
PendingIs idle pending requested = (pending ≡ none) × (requested ≡ false)
PendingIs waiting pending requested = (is_some pending ≡ true) × (requested ≡ false)
PendingIs sampled pending requested = (is_some pending ≡ true) × (requested ≡ true)

record Sim (b : Backend) (p : Phase) : Type 0 where
  exportable : b.exportable ≡ true
  view : b.view ≡ true
  subsurface : b.subsurface ≡ false
  surface_valid : b.surface_valid ≡ true
  armed : b.early_ack_armed ≡ false
  acked : b.acked_early ≡ false
  phase : PendingIs p b.pending b.frame_update_requested

step-Sim :
    (b : Backend) (p : Phase) (e : Event)
    → Sim b p
    → (acks (step stock b e).1 ≡ (spec_step p e).1) × Sim (step stock b e).0 (spec_step p e).0
unfolding step spec_step acks current_image
step-Sim b idle (arrives image) s = ground arith
step-Sim b idle samples s = ground arith
step-Sim b idle early_ack s = ground arith
step-Sim b idle rendered s = ground arith
step-Sim b waiting (arrives image) s = ground arith
step-Sim b waiting samples s = ground arith
step-Sim b waiting early_ack s = ground arith
step-Sim b waiting rendered s = ground arith
step-Sim b sampled (arrives image) s = ground arith
step-Sim b sampled samples s = ground arith
step-Sim b sampled early_ack s = ground arith
step-Sim b sampled rendered s = ground arith

step_acks-Sim :
    (b : Backend) (p : Phase) (es : List Event) → Sim b p → step_acks stock b es ≡ spec_acks p es
unfolding step_acks spec_acks
step_acks-Sim b p [] s = refl
step_acks-Sim b p (e ∷ es) s =
    let (same, next) = step-Sim b p e s in
    let rest = step_acks-Sim (step stock b e).0 (spec_step p e).0 es next in rw (same, rest) refl

-- With no mode switched on, a fresh backend implements the handshake: event by event, it acknowledges
-- exactly the frames that the handshake acknowledges, each when the scene that sampled it has been
-- rendered, for every order in which images arrive and the scene samples and renders.
pub step_acks-fresh : (es : List Event) → step_acks stock fresh es ≡ spec_acks idle es
step_acks-fresh es = step_acks-Sim fresh idle es (record {
  exportable = refl;
  view = refl;
  subsurface = refl;
  surface_valid = refl;
  armed = refl;
  acked = refl;
  phase = (refl, refl);
})
