-- ===== src/Qt/Frames/Pipelined.antt =====
-- The mode with one credit.
use atlantic_engine.Base.{
  ℕ, zero, suc, ◌+◌, ◌*◌, ◌≤◌, ◌≡◌, refl, true, false, List, [], ◌∷◌, ◌++◌, if◌then◌else◌, arith,
}
use atlantic_engine.Qt.Frames.{
  Modes, Backend, Event, arrives, samples, early_ack, rendered, step, run, acks, fresh,
  current_image,
}
use atlantic_engine.Qt.Frames.Counting.{acks-run-cons, acks-run-append}

abbrev pub pipelined : Modes
pipelined = record { eager = false; pipelined = true; on_sample = false }

-- How many Qt frames were rendered.
unfoldable pub renders : List Event → ℕ
renders [] = 0
renders (rendered ∷ es) = 1 + renders es
renders (e ∷ es) = renders es

abbrev credit : Backend → ℕ
credit b = if b.ack_credit then 1 else 0

-- No early acknowledgement and no subsurface is in use.
abbrev IsPlain : Backend → Type 0
IsPlain b = (b.subsurface ≡ false) × (b.early_ack_armed ≡ false)

-- A step, with the credit counted.
step-acks :
    (b : Backend) (e : Event)
    → IsPlain b
    → IsPlain (step pipelined b e).0
      × (acks (step pipelined b e).1 + credit (step pipelined b e).0
          ≤ credit b + 2 * renders (e ∷ []))
unfolding step acks renders
step-acks b (arrives image) plain = ground arith
step-acks b samples plain = ground arith
step-acks b early_ack plain = ground arith
step-acks b rendered plain = ground arith

renders-cons : (e : Event) (es : List Event) → renders (e ∷ es) ≡ renders (e ∷ []) + renders es
unfolding renders
renders-cons (arrives image) es = omega arith
renders-cons samples es = omega arith
renders-cons early_ack es = omega arith
renders-cons rendered es = omega arith

run-acks :
    (b : Backend) (es : List Event)
    → IsPlain b
    → acks (run pipelined b es).1 + credit (run pipelined b es).0 ≤ credit b + 2 * renders es
unfolding run acks renders
run-acks b [] plain = omega arith
run-acks b (e ∷ es) plain =
    let (plain', first) = step-acks b e plain in
    let rest = run-acks (step pipelined b e).0 es plain' in
    omega (arith, renders-cons e es, acks-run-cons pipelined b e es)

-- A session in which two frames arrive for each one that Qt renders, `n` times over. A web process
-- that waits for each acknowledgement can send them: the first of the two is acknowledged at once,
-- and the second when Qt has rendered.
abbrev round : List Event
round = arrives 1 ∷ arrives 2 ∷ samples ∷ rendered ∷ []

unfoldable pub doubled : ℕ → List Event
doubled zero = []
doubled (suc n) = round ++ doubled n

-- Before each round the credit is there.
record Ready (b : Backend) : Type 0 where
  exportable : b.exportable ≡ true
  view : b.view ≡ true
  subsurface : b.subsurface ≡ false
  surface_valid : b.surface_valid ≡ true
  ack_credit : b.ack_credit ≡ true
  ack_owed : b.ack_owed ≡ false

round-Ready :
    (b : Backend) → Ready b → Ready (run pipelined b round).0 × (acks (run pipelined b round).1 ≡ 2)
unfolding run acks step current_image
round-Ready b r = ground arith

doubled-acks :
    (n : ℕ) (b : Backend)
    → Ready b
    → (acks (run pipelined b (doubled n)).1 ≡ 2 * n) × (renders (doubled n) ≡ n)
unfolding acks renders doubled run
doubled-acks zero b r = (omega arith, omega arith)
doubled-acks (suc n) b r =
    let (ready, two) = round-Ready b r in
    let (rest, count) = doubled-acks n (run pipelined b round).0 ready in
    (omega (arith, acks-run-append pipelined b round (doubled n)), omega arith)

-- The credit lets at most two frames be acknowledged for each one that Qt renders, and one more. In a
-- session of `n` rounds in which two frames arrive before Qt renders, two are acknowledged for each
-- of the `n` that Qt renders.
pub acks-pipelined :
    (es : List Event) (n : ℕ)
    → (acks (run pipelined fresh es).1 ≤ 2 * renders es + 1)
      × (acks (run pipelined fresh (doubled n)).1 ≡ 2 * n)
      × (renders (doubled n) ≡ n)
acks-pipelined es n =
    let bound = run-acks fresh es (refl, refl) in
    let (twice, count) = doubled-acks n fresh (record {
      exportable = refl;
      view = refl;
      subsurface = refl;
      surface_valid = refl;
      ack_credit = refl;
      ack_owed = refl;
    }) in
    (omega arith, twice, count)
