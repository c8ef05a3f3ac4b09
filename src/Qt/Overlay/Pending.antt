-- ===== src/Qt/Overlay/Pending.antt =====
-- A change of the chrome and the timers that the event loop holds for it: what each handler does.
pub mod Live
use atlantic_engine.Base.{
  ℕ, ◌+◌, ◌-◌, ◌≤◌, ◌≡◌, refl, ◌∙◌, Bool, true, false, Bool-cases, not, ◌||◌, Option, List, [], ◌∷◌,
  ◌++◌, if◌then◌else◌, arith, inl, inr,
}
use atlantic_engine.Qt.Overlay.{
  Overlay, Call, queue_render, queue_timeout, draw_scene, Host, Event, render, frame_done, timeout,
  step, schedule_render, on_frame_done, place, draw, ensure_fbo, same_size, blit,
}

-- How many timers of each kind the calls queue.
unfoldable pub renders : List Call → ℕ
renders [] = 0
renders (queue_render ∷ calls) = 1 + renders calls
renders (c ∷ calls) = renders calls

unfoldable pub timeouts : List Call → ℕ
timeouts [] = 0
timeouts (queue_timeout ∷ calls) = 1 + timeouts calls
timeouts (c ∷ calls) = timeouts calls

-- The overlay, and the timers that the event loop still holds.
pub record Loop : Type 0 where
  pub overlay : Overlay
  pub renders_held : ℕ
  pub timeouts_held : ℕ

abbrev takes_render : Event → ℕ
takes_render (render h web) = 1
takes_render e = 0

abbrev takes_timeout : Event → ℕ
takes_timeout timeout = 1
takes_timeout e = 0

abbrev queue_calls : Loop → Event → Overlay × List Call → Loop
queue_calls l e r = record {
  overlay = r.0;
  renders_held = (l.renders_held - takes_render e) + renders r.1;
  timeouts_held = (l.timeouts_held - takes_timeout e) + timeouts r.1;
}

abbrev pub deliver : Loop → Event → Loop
deliver l e = queue_calls l e (step l.overlay e)

abbrev pub deliver_all : Loop → List Event → Loop
deliver_all l [] = l
deliver_all l (e ∷ es) = deliver_all (deliver l e) es

-- The event loop delivers a timer only if it holds one.
abbrev pub AreHeld : Loop → List Event → Type 0
AreHeld l [] = Unit
AreHeld l (e ∷ es) =
    (takes_render e ≤ l.renders_held)
    × (takes_timeout e ≤ l.timeouts_held)
    × AreHeld (deliver l e) es

abbrev one_if : Bool → ℕ
one_if b = if b then 1 else 0

-- A change that is not drawn waits for a render or for the compositor, and both have a timer.
pub record IsLive (l : Loop) : Type 0 where
  pub valid : l.overlay.valid ≡ true
  pub awaited : (not l.overlay.dirty || (l.overlay.render_pending || l.overlay.throttled)) ≡ true
  pub rendered : one_if l.overlay.render_pending ≤ l.renders_held
  pub timed : one_if l.overlay.throttled ≤ l.timeouts_held

-- What a call of a handler does to the members and the timers.
record Keeps (o : Overlay) (r : Overlay × List Call) : Type 0 where
  valid : r.0.valid ≡ o.valid
  awaited : (not r.0.dirty || (r.0.render_pending || r.0.throttled)) ≡ true
  rendered : one_if r.0.render_pending ≤ one_if o.render_pending + renders r.1
  timed : one_if r.0.throttled ≤ one_if o.throttled + timeouts r.1

schedule_render-Keeps : (o : Overlay) → Keeps o (schedule_render o)
unfolding schedule_render renders timeouts
schedule_render-Keeps o = ground arith

frame_done-Keeps : (o : Overlay) → Keeps (record o { throttled = false }) (on_frame_done o)
unfolding on_frame_done schedule_render renders timeouts
frame_done-Keeps o = ground arith

renders-append : (cs ds : List Call) → renders (cs ++ ds) ≡ renders cs + renders ds
unfolding renders
renders-append [] ds = omega arith
renders-append (queue_render ∷ cs) ds = omega (arith, renders-append cs ds)
renders-append (c ∷ cs) ds = renders-append cs ds

timeouts-append : (cs ds : List Call) → timeouts (cs ++ ds) ≡ timeouts cs + timeouts ds
unfolding timeouts
timeouts-append [] ds = omega arith
timeouts-append (queue_timeout ∷ cs) ds = omega (arith, timeouts-append cs ds)
timeouts-append (c ∷ cs) ds = timeouts-append cs ds

-- A frame leaves no change undrawn and queues no render; if it holds the next one back, there is a
-- timeout for it.
record IsDrawn (o : Overlay) (r : Overlay × List Call) : Type 0 where
  valid : r.0.valid ≡ o.valid
  dirty : r.0.dirty ≡ o.dirty
  render_pending : r.0.render_pending ≡ o.render_pending
  timed : one_if r.0.throttled ≤ one_if o.throttled + timeouts r.1

pick-IsDrawn :
    (o : Overlay) (b : Bool) (x y : Overlay × List Call)
    → IsDrawn o x
    → IsDrawn o y
    → IsDrawn o (if b then x else y)
pick-IsDrawn o true x y p q = p
pick-IsDrawn o false x y p q = q

blit-IsDrawn : (h : Host) (o : Overlay) → IsDrawn o (blit h o)
unfolding blit timeouts
blit-IsDrawn h o = ground arith

then-IsDrawn :
    (o o1 o2 : Overlay) (cs ds : List Call)
    → IsDrawn o (o1, cs)
    → IsDrawn o1 (o2, ds)
    → IsDrawn o (o2, cs ++ ds)
then-IsDrawn o o1 o2 cs ds first second = record {
  valid = second.valid ∙ first.valid;
  dirty = second.dirty ∙ first.dirty;
  render_pending = second.render_pending ∙ first.render_pending;
  timed = omega (arith, first.timed, second.timed, timeouts-append cs ds);
}

ensure_fbo-IsDrawn :
    (ok : Bool) (o : Overlay) → IsDrawn o ((ensure_fbo ok o).0, (ensure_fbo ok o).1)
unfolding ensure_fbo timeouts
ensure_fbo-IsDrawn ok o = elim (Bool-cases (same_size o.size o.fbo)) [
  | inl known ↦
      rw known (record { valid = refl; dirty = refl; render_pending = refl; timed = omega arith })
  | inr other ↦
      rw other (record { valid = refl; dirty = refl; render_pending = refl; timed = omega arith })
]

place-IsDrawn : (web : Option ℕ) (o : Overlay) → IsDrawn o (place web o)
unfolding place timeouts
place-IsDrawn web o = ground arith

draw-IsDrawn : (h : Host) (o : Overlay) → IsDrawn o (draw h o)
unfolding draw timeouts
draw-IsDrawn h o =
    let fbo = ensure_fbo h.fbo_valid o in
    let made = ensure_fbo-IsDrawn h.fbo_valid o in
    let last = blit-IsDrawn h fbo.0 in
    pick-IsDrawn o (not h.scene_current) (o, []) _
      (record { valid = refl; dirty = refl; render_pending = refl; timed = omega arith })
      (pick-IsDrawn o (not fbo.2) (fbo.0, fbo.1) _ made
        (then-IsDrawn o fbo.0 (blit h fbo.0).0 fbo.1 (draw_scene ∷ (blit h fbo.0).1) made (record {
          valid = last.valid;
          dirty = last.dirty;
          render_pending = last.render_pending;
          timed = last.timed;
        })))
