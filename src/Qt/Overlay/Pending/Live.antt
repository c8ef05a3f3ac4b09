-- ===== src/Qt/Overlay/Pending/Live.antt =====
-- A change of the chrome is not lost.
use atlantic_engine.Base.{
  ℕ, ◌+◌, ◌-◌, ◌≤◌, ◌≡◌, refl, ap, ◌∙◌, Bool, true, false, not, ◌||◌, Option, List, [], ◌∷◌, ◌++◌,
  if◌then◌else◌, arith,
}
use atlantic_engine.Qt.Overlay.{
  Overlay, Call, Host, Event, changed, render, frame_done, timeout, step, schedule_render,
  on_frame_done, on_timeout, on_render, render_frame, place, draw,
}
use atlantic_engine.Qt.Overlay.Pending.{
  renders, timeouts, Loop, takes_render, takes_timeout, queue_calls, deliver, deliver_all, AreHeld,
  one_if, IsLive, Keeps, schedule_render-Keeps, frame_done-Keeps, IsDrawn, then-IsDrawn,
  place-IsDrawn, draw-IsDrawn,
}

-- The handler's overlay, before the event, with what the event takes away.
keep-IsLive :
    (l : Loop) (e : Event) (o : Overlay) (r : Overlay × List Call)
    → o.valid ≡ true
    → one_if o.render_pending ≤ l.renders_held - takes_render e
    → one_if o.throttled ≤ l.timeouts_held - takes_timeout e
    → Keeps o r
    → IsLive (queue_calls l e r)
keep-IsLive l e o r valid rendered timed keeps = record {
  valid = keeps.valid ∙ valid;
  awaited = keeps.awaited;
  rendered = omega (arith, keeps.rendered);
  timed = omega (arith, keeps.timed);
}

drawn-Keeps :
    (o : Overlay) (r : Overlay × List Call)
    → o.dirty ≡ false
    → o.render_pending ≡ false
    → IsDrawn o r
    → Keeps o r
drawn-Keeps o r clean idle drawn =
    let clean' : r.0.dirty ≡ false = drawn.dirty ∙ clean in
    let idle' : r.0.render_pending ≡ false = drawn.render_pending ∙ idle in
    record {
      valid = drawn.valid;
      awaited = ap (λ b. not b || (r.0.render_pending || r.0.throttled)) clean';
      rendered = none_pending r.0.render_pending idle';
      timed = drawn.timed;
    }
  where
    none_pending : (b : Bool) {n : ℕ} → b ≡ false → one_if b ≤ n
    none_pending b off = ground arith

pick-Keeps :
    (o : Overlay) (b : Bool) (x y : Overlay × List Call)
    → (b ≡ true → Keeps o x)
    → (b ≡ false → Keeps o y)
    → Keeps o (if b then x else y)
pick-Keeps o true x y f g = f refl
pick-Keeps o false x y f g = g refl

render-Keeps :
    (h : Host) (web : Option ℕ) (o : Overlay)
    → o.valid ≡ true
    → Keeps (record o { render_pending = false }) (on_render h web o)
unfolding on_render render_frame renders timeouts
render-Keeps h web o valid =
    let o1 = record o { render_pending = false } in
    let clean = record o1 { dirty = false } in
    let p = place web clean in
    let keeps =
      drawn-Keeps clean ((draw h p.0).0, p.1 ++ (draw h p.0).1) refl refl
        (then-IsDrawn clean p.0 (draw h p.0).0 p.1 (draw h p.0).1 (place-IsDrawn web clean)
          (draw-IsDrawn h p.0)) in
    pick-Keeps o1 (not o.valid || o.throttled) (o1, []) _
      (λ held. record {
        valid = refl;
        awaited = ground arith;
        rendered = omega arith;
        timed = omega arith;
      })
      (λ goes. record {
        valid = keeps.valid;
        awaited = keeps.awaited;
        rendered = keeps.rendered;
        timed = keeps.timed;
      })

timeout-Keeps :
    (o : Overlay)
    → (not o.dirty || (o.render_pending || o.throttled)) ≡ true
    → Keeps (record o { throttled = false }) (on_timeout o)
unfolding on_timeout schedule_render renders timeouts
timeout-Keeps o awaited = ground arith

deliver-IsLive :
    (l : Loop) (e : Event)
    → takes_render e ≤ l.renders_held
    → takes_timeout e ≤ l.timeouts_held
    → IsLive l
    → IsLive (deliver l e)
unfolding step
deliver-IsLive l changed r_held t_held live =
    keep-IsLive l changed l.overlay (schedule_render l.overlay) live.valid
      (omega (arith, live.rendered)) (omega (arith, live.timed)) (schedule_render-Keeps l.overlay)
deliver-IsLive l (render h web) r_held t_held live =
    keep-IsLive l (render h web) (record l.overlay { render_pending = false })
      (on_render h web l.overlay) live.valid (omega arith) (omega (arith, live.timed))
      (render-Keeps h web l.overlay live.valid)
deliver-IsLive l frame_done r_held t_held live =
    keep-IsLive l frame_done (record l.overlay { throttled = false }) (on_frame_done l.overlay)
      live.valid (omega (arith, live.rendered)) (omega arith) (frame_done-Keeps l.overlay)
deliver-IsLive l timeout r_held t_held live =
    keep-IsLive l timeout (record l.overlay { throttled = false }) (on_timeout l.overlay) live.valid
      (omega (arith, live.rendered)) (omega arith) (timeout-Keeps l.overlay live.awaited)

deliver_all-IsLive :
    (l : Loop) (es : List Event) → IsLive l → AreHeld l es → IsLive (deliver_all l es)
deliver_all-IsLive l [] live held = live
deliver_all-IsLive l (e ∷ es) live held =
    deliver_all-IsLive (deliver l e) es (deliver-IsLive l e held.0 held.1 live) held.2

-- Whatever the event loop delivers, while a change of the chrome is noted as not drawn the loop still
-- holds a timer for a render or the timer of 100 ms. It delivers a timer only if it holds one, and at
-- first the overlay is valid and its change and its flags have their timers.
pub deliver_all-timers :
    (l : Loop) (es : List Event)
    → IsLive l
    → AreHeld l es
    → (deliver_all l es).overlay.dirty ≡ true
    → 1 ≤ (deliver_all l es).renders_held + (deliver_all l es).timeouts_held
deliver_all-timers l es live held dirty =
    some_timer (deliver_all l es) (deliver_all-IsLive l es live held) dirty
  where
    some_timer :
        (l : Loop) → IsLive l → l.overlay.dirty ≡ true → 1 ≤ l.renders_held + l.timeouts_held
    some_timer l live dirty = ground arith
