-- ===== src/Qt/Frames/EarlyAck.antt =====
-- The mode that acknowledges a frame when the scene samples it.
use atlantic_engine.Base.{ℕ, ◌≡◌, refl, true, false, none, List, [], ◌∷◌, ◌++◌, arith}
use atlantic_engine.Qt.Frames.{
  Modes, Backend, Call, Event, arrives, samples, early_ack, rendered, step, run, acks, fresh,
  current_image,
}
use atlantic_engine.Qt.Frames.Counting.{acks-run-cons, acks-run-append}

abbrev pub on_sample : Modes
on_sample = record { eager = false; pipelined = false; on_sample = true }

-- Events of the Qt side only: no further frame arrives.
abbrev pub NoArrival : List Event → Type 0
NoArrival [] = Unit
NoArrival (arrives image ∷ es) = ⊥
NoArrival (e ∷ es) = NoArrival es

-- Nothing is left that would acknowledge a frame.
record Stalled (b : Backend) : Type 0 where
  pending : b.pending ≡ none
  requested : b.frame_update_requested ≡ false
  armed : b.early_ack_armed ≡ false

abbrev IsQuiet : Backend × List Call → Type 0
IsQuiet r = Stalled r.0 × (acks r.1 ≡ 0)

samples-IsQuiet : (b : Backend) → Stalled b → IsQuiet (step on_sample b samples)
unfolding step acks
samples-IsQuiet b s = ground arith

early_ack-IsQuiet : (b : Backend) → Stalled b → IsQuiet (step on_sample b early_ack)
unfolding step acks
early_ack-IsQuiet b s = ground arith

rendered-IsQuiet : (b : Backend) → Stalled b → IsQuiet (step on_sample b rendered)
unfolding step acks
rendered-IsQuiet b s = ground arith

run-Stalled :
    (b : Backend) (es : List Event) → Stalled b → NoArrival es → acks (run on_sample b es).1 ≡ 0
unfolding run acks
run-Stalled b [] s left = refl
run-Stalled b (arrives image ∷ es) s left = absurd left
run-Stalled b (samples ∷ es) s left =
    let (s', quiet) = samples-IsQuiet b s in
    omega (
      arith,
      acks-run-cons on_sample b samples es,
      run-Stalled (step on_sample b samples).0 es s' left,
    )
run-Stalled b (early_ack ∷ es) s left =
    let (s', quiet) = early_ack-IsQuiet b s in
    omega (
      arith,
      acks-run-cons on_sample b early_ack es,
      run-Stalled (step on_sample b early_ack).0 es s' left,
    )
run-Stalled b (rendered ∷ es) s left =
    let (s', quiet) = rendered-IsQuiet b s in
    omega (
      arith,
      acks-run-cons on_sample b rendered es,
      run-Stalled (step on_sample b rendered).0 es s' left,
    )

-- The order of events that loses an acknowledgement: the scene samples a frame, the early
-- acknowledgement of it goes out, the next frame arrives, and only then is Qt's frame reported.
abbrev pub overtaken : ℕ → ℕ → List Event
overtaken first second = arrives first ∷ samples ∷ early_ack ∷ arrives second ∷ rendered ∷ []

-- In the mode on_sample, let a new backend get a frame, which the scene samples; the early
-- acknowledgement of it goes out, the next frame arrives, and only then Qt reports the first as
-- rendered. The second frame is not acknowledged, whatever Qt samples and renders from then on while
-- no further frame arrives: two frames arrived, and there is one acknowledgement.
pub acks-overtaken :
    (first second : ℕ) (es : List Event)
    → NoArrival es
    → acks (run on_sample fresh (overtaken first second ++ es)).1 ≡ 1
unfolding run acks step current_image
acks-overtaken first second es left =
    let stalled : Stalled (run on_sample fresh (overtaken first second)).0 = record {
      pending = refl;
      requested = refl;
      armed = refl;
    } in
    let one : acks (run on_sample fresh (overtaken first second)).1 ≡ 1 = refl in
    omega (
      arith,
      acks-run-append on_sample fresh (overtaken first second) es,
      run-Stalled (run on_sample fresh (overtaken first second)).0 es stalled left,
    )
