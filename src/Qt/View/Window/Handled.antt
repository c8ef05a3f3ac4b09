-- ===== src/Qt/View/Window/Handled.antt =====
-- Each frame of a window is handled once, however often the item came to it.
use atlantic_engine.Base.{
  ℕ, zero, suc, ◌≡◌, refl, sym, ap, ◌∙◌, Bool, ◌&&◌, ◌||◌, none, some, List, [], ◌∷◌, ◌++◌,
  if◌then◌else◌, ◌==◌, ltb, arith, if_true, append-nil,
}
use atlantic_engine.Qt.Frames
use atlantic_engine.Qt.Frames.Again.{render_again}
use atlantic_engine.Qt.Frames.{is_some, Modes, Backend, did_render_frame}
use atlantic_engine.Qt.View.{Setup, Request, View}
use atlantic_engine.Qt.View.Window.{
  Windows, count, contains, Asked, after, and_then, with_windows, create_if, configure_window,
  create_times, render_times, Event, comes, gets_ready, react, react_all, came,
}

-- A handler that has nothing to do can be called any number of times.
idle_times :
    (m : Modes) (n : ℕ) (b : Backend)
    → did_render_frame m b ≡ (b, [])
    → render_times m n b ≡ (b, [])
unfolding render_times
idle_times m zero b idle = refl
idle_times m (suc n) b idle =
    ap
      (λ (r : Backend × List Frames.Call).
        ((render_times m n r.0).0, r.1 ++ (render_times m n r.0).1))
      idle
    ∙ idle_times m n b idle

pub render_times_lem :
    (m : Modes) (n : ℕ) (b : Backend)
    → render_times m n b ≡ (if ltb 0 n then did_render_frame m b else (b, []))
unfolding render_times
render_times_lem m zero b = refl
render_times_lem m (suc n) b =
    let r = did_render_frame m b in
    let after : Backend × List Frames.Call → Backend × List Frames.Call = λ q. (q.0, r.1 ++ q.1) in
    ap after (idle_times m n r.0 (render_again m b))
    ∙ (ap (λ calls. (r.0, calls)) (append-nil r.1)
        ∙ sym (if_true (ltb 0 (suc n)) r (b, []) (ground arith)))

pub contains-count : (n : ℕ) (ms : List ℕ) → contains n ms ≡ ltb 0 (count n ms)
unfolding count
contains-count n [] = refl
contains-count n (m ∷ ms) = ground (arith, contains-count n ms)

-- Adding a window to the list.
add_count :
    (unique : Bool) (n win : ℕ) (ms : List ℕ)
    → ltb 0 (count n (if unique && contains win ms then ms else win ∷ ms))
      ≡ ((n == win) || ltb 0 (count n ms))
unfolding count
add_count unique n win ms = ground (arith, contains-count n ms, contains-count win ms)

swap_or : (a b c : Bool) → ((a || b) || c) ≡ (b || (a || c))
swap_or a b c = ground arith

-- Where the program does not crash, the state has the property.
unfoldable pub Holds : {A : Type 0} → (A → Type 0) → Asked A → Type 0
Holds P none = Unit
Holds P (some (a, asked)) = P a

after-Holds :
    {A : Type 0} (P : A → Type 0) (asked : List Request) (x : Asked A)
    → Holds P x
    → Holds P (after asked x)
unfolding after Holds
after-Holds P asked none holds = tt
after-Holds P asked (some (a, more)) holds = holds

pub map-Holds :
    {A : Type 0} (P Q : A → Type 0) (x : Asked A) → ((a : A) → P a → Q a) → Holds P x → Holds Q x
unfolding Holds
map-Holds P Q none implies holds = tt
map-Holds P Q (some (a, asked)) implies holds = implies a holds

-- Frames of the window `n` are heard of, or not.
abbrev Heard : ℕ → Bool → Windows × View → Type 0
Heard n b s = ltb 0 (count n s.0.frames) ≡ b

step-Holds :
    (e : Setup) (w1 : Windows) (q : Asked View) (evs : List Event) (n : ℕ) (b b' : Bool)
    → b ≡ b'
    → ((v : View) → Holds (Heard n b) (react_all e (w1, v) evs))
    → Holds (Heard n b') (and_then (with_windows w1 q) (λ s. react_all e s evs))
unfolding and_then with_windows Holds
step-Holds e w1 none evs n b b' same holds = tt
step-Holds e w1 (some (v, asked)) evs n b b' same holds =
    after-Holds (Heard n b') asked (react_all e (w1, v) evs) (
      map-Holds (Heard n b) (Heard n b') (react_all e (w1, v) evs) (λ s heard. heard ∙ same)
        (holds v))

-- The frames of a window are heard of exactly if the item has come to it.
pub frames_came :
    (e : Setup) (w : Windows) (v : View) (evs : List Event) (n : ℕ)
    → Holds (Heard n (ltb 0 (count n w.frames) || came n evs)) (react_all e (w, v) evs)
unfolding react_all react configure_window came Holds
frames_came e w v [] n = ground arith
frames_came e w v (comes none scene ∷ evs) n =
    let b = ltb 0 (count n w.frames) || came n evs in
    step-Holds e (record w { at = none }) (some (v, [])) evs n b b refl
      (λ v1. frames_came e (record w { at = none }) v1 evs n)
frames_came e w v (comes (some win) scene ∷ evs) n =
    let seen = ltb 0 (count n w.frames) in
    let w1 : Windows = record {
      at = some win;
      frames = if scene.kept_unique && contains win w.frames then w.frames else win ∷ w.frames;
      ready = if scene.initialized then w.ready else win ∷ w.ready;
    } in
    step-Holds e w1 (create_if e scene.initialized win v) evs n
      (ltb 0 (count n w1.frames) || came n evs) (seen || (n == win || came n evs))
      (ap (λ b. b || came n evs) (add_count scene.kept_unique n win w.frames)
        ∙ swap_or (n == win) seen (came n evs))
      (λ v1. frames_came e w1 v1 evs n)
frames_came e w v (gets_ready win ∷ evs) n =
    let b = ltb 0 (count n w.frames) || came n evs in
    step-Holds e w (create_times e w.at (count win w.ready) v) evs n b b refl
      (λ v1. frames_came e w v1 evs n)
