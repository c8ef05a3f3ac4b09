-- ===== src/Qt/Overlay/Pace.antt =====
-- How often the chrome is swapped.
use atlantic_engine.Base.{
  ℕ, ◌+◌, ◌≤◌, ◌≡◌, refl, ap, ◌∙◌, Bool, true, false, not, ◌||◌, Option, List, [], ◌∷◌, ◌++◌,
  if◌then◌else◌, arith, Bool-cases, inl, inr,
}
use atlantic_engine.Qt.Overlay.{
  Overlay, Call, swap_buffers, draw_scene, Host, Event, changed, render, frame_done, timeout, step,
  run, schedule_render, on_frame_done, on_timeout, on_render, render_frame, place, draw, ensure_fbo,
  blit, same_size,
}

unfoldable pub swaps : List Call → ℕ
swaps [] = 0
swaps (swap_buffers ∷ calls) = 1 + swaps calls
swaps (c ∷ calls) = swaps calls

-- How often the compositor or the timeout lets the next frame through.
unfoldable pub releases : List Event → ℕ
releases [] = 0
releases (frame_done ∷ es) = 1 + releases es
releases (timeout ∷ es) = 1 + releases es
releases (e ∷ es) = releases es

-- The compositor makes a frame callback whenever it is asked for one.
abbrev pub FramesMade : List Event → Type 0
FramesMade [] = Unit
FramesMade (render h web ∷ es) = (h.frame_made ≡ true) × FramesMade es
FramesMade (e ∷ es) = FramesMade es

abbrev room : Overlay → ℕ
room o = if o.throttled then 0 else 1

swaps-append : (cs ds : List Call) → swaps (cs ++ ds) ≡ swaps cs + swaps ds
unfolding swaps
swaps-append [] ds = omega arith
swaps-append (swap_buffers ∷ cs) ds = omega (arith, swaps-append cs ds)
swaps-append (c ∷ cs) ds = swaps-append cs ds

place-quiet :
    (web : Option ℕ) (o : Overlay)
    → ((place web o).0.throttled ≡ o.throttled) × (swaps (place web o).1 ≡ 0)
unfolding place swaps
place-quiet web o = ground arith

ensure_fbo-quiet :
    (fbo_valid : Bool) (o : Overlay)
    → ((ensure_fbo fbo_valid o).0.throttled ≡ o.throttled) × (swaps (ensure_fbo fbo_valid o).1 ≡ 0)
unfolding ensure_fbo swaps
ensure_fbo-quiet fbo_valid o = elim (Bool-cases (same_size o.size o.fbo)) [
  | inl same ↦ rw same (refl, refl)
  | inr other ↦ rw other (refl, refl)
]

blit-swaps :
    (h : Host) (o : Overlay)
    → h.frame_made ≡ true
    → o.throttled ≡ false
    → swaps (blit h o).1 + room (blit h o).0 ≤ 1
unfolding blit swaps
blit-swaps h o made free = ground arith

schedule_render-quiet :
    (o : Overlay)
    → ((schedule_render o).0.throttled ≡ o.throttled) × (swaps (schedule_render o).1 ≡ 0)
unfolding schedule_render swaps
schedule_render-quiet o = ground arith

-- At most `n` swaps, the one that may still come counted.
abbrev UpTo : ℕ → Overlay × List Call → Type 0
UpTo n r = swaps r.1 + room r.0 ≤ n

pick :
    (n : ℕ) (b : Bool) (x y : Overlay × List Call)
    → (b ≡ true → UpTo n x)
    → (b ≡ false → UpTo n y)
    → UpTo n (if b then x else y)
pick n true x y f g = f refl
pick n false x y f g = g refl

draw-swaps :
    (h : Host) (o : Overlay) → h.frame_made ≡ true → o.throttled ≡ false → UpTo 1 (draw h o)
unfolding draw swaps
draw-swaps h o made free =
    let fbo = ensure_fbo h.fbo_valid o in
    let o1 = fbo.0 in
    let (kept, quiet) = ensure_fbo-quiet h.fbo_valid o in
    let last = blit-swaps h o1 made (kept ∙ free) in
    pick 1 (not h.scene_current) (o, []) _ (λ failed. ground arith)
      (λ current.
        pick 1 (not fbo.2) (o1, fbo.1) ((blit h o1).0, fbo.1 ++ draw_scene ∷ (blit h o1).1)
          (λ failed. ground arith)
          (λ ok. omega (arith, swaps-append fbo.1 (draw_scene ∷ (blit h o1).1))))

render-swaps :
    (h : Host) (web : Option ℕ) (o : Overlay)
    → h.frame_made ≡ true
    → UpTo (room o) (on_render h web o)
unfolding on_render render_frame swaps
render-swaps h web o made =
    let o1 = record o { render_pending = false } in
    let o2 = (place web (record o1 { dirty = false })).0 in
    let calls = (place web (record o1 { dirty = false })).1 in
    let (kept, quiet) = place-quiet web (record o1 { dirty = false }) in
    pick (room o) (not o.valid || o.throttled) (o1, []) _ (λ held. omega arith)
      (λ goes.
        let free : o.throttled ≡ false = ground arith in
        let one : room o ≡ 1 = ap (λ t. if t then 0 else 1) free in
        omega (arith, swaps-append calls (draw h o2).1, draw-swaps h o2 made (kept ∙ free)))

frame_done-swaps : (o : Overlay) → UpTo (room o + 1) (on_frame_done o)
unfolding on_frame_done schedule_render swaps
frame_done-swaps o = ground arith

timeout-swaps : (o : Overlay) → UpTo (room o + 1) (on_timeout o)
unfolding on_timeout schedule_render swaps
timeout-swaps o = ground arith

step-swaps :
    (o : Overlay) (e : Event) → FramesMade (e ∷ []) → UpTo (room o + releases (e ∷ [])) (step o e)
unfolding step releases
step-swaps o changed made =
    let (kept, quiet) = schedule_render-quiet o in rw (kept, quiet) (omega arith)
step-swaps o (render h web) made = let r = render-swaps h web o made.0 in omega arith
step-swaps o frame_done made = frame_done-swaps o
step-swaps o timeout made = timeout-swaps o

releases-cons : (e : Event) (es : List Event) → releases (e ∷ es) ≡ releases (e ∷ []) + releases es
unfolding releases
releases-cons changed es = omega arith
releases-cons (render h web) es = omega arith
releases-cons frame_done es = omega arith
releases-cons timeout es = omega arith

FramesMade-cons :
    (e : Event) (es : List Event) → FramesMade (e ∷ es) → FramesMade (e ∷ []) × FramesMade es
FramesMade-cons changed es made = (tt, made)
FramesMade-cons (render h web) es made = ((made.0, tt), made.1)
FramesMade-cons frame_done es made = (tt, made)
FramesMade-cons timeout es made = (tt, made)

run-swaps : (o : Overlay) (es : List Event) → FramesMade es → UpTo (room o + releases es) (run o es)
unfolding run releases swaps
run-swaps o [] made = omega arith
run-swaps o (e ∷ es) made =
    let (now, later) = FramesMade-cons e es made in
    let first = step-swaps o e now in
    let rest = run-swaps (step o e).0 es later in
    omega (arith, releases-cons e es, swaps-append (step o e).1 (run (step o e).0 es).1)

-- However often the scene changes, the chrome is swapped at most once more than the compositor's
-- frame callbacks and the timeouts let a frame through. The compositor makes a frame callback whenever it is asked for one.
pub swaps-run :
    (o : Overlay) (es : List Event) → FramesMade es → swaps (run o es).1 ≤ releases es + 1
swaps-run o es made =
    let bound = run-swaps o es made in let most : room o ≤ 1 = ground arith in omega arith
