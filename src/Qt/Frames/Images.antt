-- ===== src/Qt/Frames/Images.antt =====
-- Every exported image is given back.
use atlantic_engine.Base.{
  ℕ, ◌+◌, ◌≡◌, Bool, true, Option, none, some, List, [], ◌∷◌, ◌++◌, ◌==◌, if◌then◌else◌, arith,
}
use atlantic_engine.Qt.Frames.{
  Modes, Backend, Call, release, Event, arrives, samples, early_ack, rendered, display_image,
  texture, dispatch_early_ack, did_render_frame, destroy, step, run,
}

abbrev one_if : Bool → ℕ
one_if b = if b then 1 else 0

-- How often an image is among the calls' releases, among the arrivals, and in a pointer.
unfoldable pub released : ℕ → List Call → ℕ
released i [] = 0
released i (release j ∷ calls) = one_if (i == j) + released i calls
released i (c ∷ calls) = released i calls

unfoldable pub arrived : ℕ → List Event → ℕ
arrived i [] = 0
arrived i (arrives j ∷ es) = one_if (i == j) + arrived i es
arrived i (e ∷ es) = arrived i es

abbrev is_at : ℕ → Option ℕ → ℕ
is_at i none = 0
is_at i (some j) = one_if (i == j)

abbrev held : ℕ → Backend → ℕ
held i b = is_at i b.pending + is_at i b.committed

released-append :
    (i : ℕ) (cs ds : List Call) → released i (cs ++ ds) ≡ released i cs + released i ds
unfolding released
released-append i [] ds = omega arith
released-append i (release j ∷ cs) ds = omega (arith, released-append i cs ds)
released-append i (c ∷ cs) ds = released-append i cs ds

abbrev IsKept : ℕ → Backend → ℕ → Backend × List Call → Type 0
IsKept i b new r = (r.0.exportable ≡ true) × (held i b + new ≡ released i r.1 + held i r.0)

texture-IsKept :
    (m : Modes) (b : Backend) (i : ℕ) → b.exportable ≡ true → IsKept i b 0 (texture m b)
unfolding texture released
texture-IsKept m b i ex = ground arith

dispatch_early_ack-IsKept :
    (b : Backend) (i : ℕ) → b.exportable ≡ true → IsKept i b 0 (dispatch_early_ack b)
unfolding dispatch_early_ack released
dispatch_early_ack-IsKept b i ex = ground arith

did_render_frame-IsKept :
    (m : Modes) (b : Backend) (i : ℕ) → b.exportable ≡ true → IsKept i b 0 (did_render_frame m b)
unfolding did_render_frame released
did_render_frame-IsKept m b i ex = ground arith

display_image-IsKept :
    (m : Modes) (b : Backend) (i image : ℕ)
    → b.exportable ≡ true
    → IsKept i b (one_if (i == image)) (display_image m b image)
unfolding display_image released
display_image-IsKept m b i image ex = ground arith

step-IsKept :
    (m : Modes) (b : Backend) (e : Event) (i : ℕ)
    → b.exportable ≡ true
    → IsKept i b (arrived i (e ∷ [])) (step m b e)
unfolding step arrived
step-IsKept m b (arrives image) i ex =
    let (kept, eq) = display_image-IsKept m b i image ex in (kept, omega arith)
step-IsKept m b samples i ex = texture-IsKept m b i ex
step-IsKept m b early_ack i ex = dispatch_early_ack-IsKept b i ex
step-IsKept m b rendered i ex = did_render_frame-IsKept m b i ex

arrived-cons :
    (i : ℕ) (e : Event) (es : List Event) → arrived i (e ∷ es) ≡ arrived i (e ∷ []) + arrived i es
unfolding arrived
arrived-cons i (arrives j) es = omega arith
arrived-cons i samples es = omega arith
arrived-cons i early_ack es = omega arith
arrived-cons i rendered es = omega arith

run-IsKept :
    (m : Modes) (b : Backend) (es : List Event) (i : ℕ)
    → b.exportable ≡ true
    → IsKept i b (arrived i es) (run m b es)
unfolding run arrived released
run-IsKept m b [] i ex = (ex, omega arith)
run-IsKept m b (e ∷ es) i ex =
    let (ex', first) = step-IsKept m b e i ex in
    let (ex'', rest) = run-IsKept m (step m b e).0 es i ex' in
    (
      ex'',
      omega (
        arith,
        arrived-cons i e es,
        released-append i (step m b e).1 (run m (step m b e).0 es).1,
      ),
    )

-- In every mode and for every order of events, once the backend is destroyed each image was given
-- back to the web process exactly as often as it had arrived: none is kept, and none is released
-- twice. The backend is one that holds no image at first and has its exportable.
pub released-destroy :
    (m : Modes) (b : Backend) (es : List Event) (i : ℕ)
    → b.exportable ≡ true
    → b.pending ≡ none
    → b.committed ≡ none
    → released i ((run m b es).1 ++ (destroy (run m b es).0).1) ≡ arrived i es
unfolding destroy released
released-destroy m b es i ex p c =
    let (kept, eq) = run-IsKept m b es i ex in
    let end = (run m b es).0 in
    let gone : released i (destroy end).1 ≡ held i end = ground arith in
    let start : held i b ≡ 0 = ground arith in
    omega (arith, released-append i (run m b es).1 (destroy end).1)
