-- ===== src/Qt/Frames/Counting.antt =====
-- Acknowledgements over sequences of calls and of events.
use atlantic_engine.Base.{◌+◌, ◌≡◌, List, [], ◌∷◌, ◌++◌, arith}
use atlantic_engine.Qt.Frames.{Modes, Backend, Call, frame_complete, Event, step, run, acks}

pub acks-append : (cs ds : List Call) → acks (cs ++ ds) ≡ acks cs + acks ds
unfolding acks
acks-append [] ds = omega arith
acks-append (frame_complete ∷ cs) ds = omega (arith, acks-append cs ds)
acks-append (c ∷ cs) ds = acks-append cs ds

pub acks-run-cons :
    (m : Modes) (b : Backend) (e : Event) (es : List Event)
    → acks (run m b (e ∷ es)).1 ≡ acks (step m b e).1 + acks (run m (step m b e).0 es).1
unfolding run
acks-run-cons m b e es = acks-append (step m b e).1 (run m (step m b e).0 es).1

pub acks-run-append :
    (m : Modes) (b : Backend) (es fs : List Event)
    → acks (run m b (es ++ fs)).1 ≡ acks (run m b es).1 + acks (run m (run m b es).0 fs).1
unfolding run acks
acks-run-append m b [] fs = omega arith
acks-run-append m b (e ∷ es) fs = omega (
  arith,
  acks-append (step m b e).1 (run m (step m b e).0 (es ++ fs)).1,
  acks-append (step m b e).1 (run m (step m b e).0 es).1,
  acks-run-append m (step m b e).0 es fs,
)
