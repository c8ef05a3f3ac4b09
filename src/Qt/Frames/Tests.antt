-- ===== src/Qt/Frames/Tests.antt =====
-- The theorems on frames at a short session.
use atlantic_engine.Base.{◌+◌, ◌*◌, ◌≤◌, ◌≡◌, refl, List, [], ◌∷◌, ◌++◌}
use atlantic_engine.Qt.Frames.{
  Event, arrives, samples, early_ack, rendered, destroy, run, acks, fresh,
}
use atlantic_engine.Qt.Frames.Images.{released, arrived, released-destroy}
use atlantic_engine.Qt.Frames.Stock.{idle, spec_acks, step_acks, stock, step_acks-fresh}
use atlantic_engine.Qt.Frames.Pipelined.{pipelined, renders, doubled, acks-pipelined}
use atlantic_engine.Qt.Frames.EarlyAck.{on_sample, overtaken, acks-overtaken}

abbrev session : List Event
session = arrives 7 ∷ samples ∷ rendered ∷ arrives 8 ∷ arrives 9 ∷ samples ∷ early_ack ∷ []

released-destroy_example :
    released 8 ((run pipelined fresh session).1 ++ (destroy (run pipelined fresh session).0).1)
    ≡ arrived 8 session
released-destroy_example = released-destroy pipelined fresh session 8 refl refl refl

step_acks-fresh_example : step_acks stock fresh session ≡ spec_acks idle session
step_acks-fresh_example = step_acks-fresh session

acks-pipelined_example :
    (acks (run pipelined fresh session).1 ≤ 2 * renders session + 1)
    × (acks (run pipelined fresh (doubled 3)).1 ≡ 2 * 3)
    × (renders (doubled 3) ≡ 3)
acks-pipelined_example = acks-pipelined session 3

acks-overtaken_example :
    acks (run on_sample fresh (overtaken 7 8 ++ (samples ∷ rendered ∷ []))).1 ≡ 1
acks-overtaken_example = acks-overtaken 7 8 (samples ∷ rendered ∷ []) tt
