-- ===== src/Qt/Frames/Again.antt =====
-- didRenderFrame of qt5-plugin/WPEQtViewBackend.cpp, called again for the same frame.
use atlantic_engine.Base.{
  ◌≡◌, refl, Bool, true, false, Bool-cases, not, ◌||◌, [], arith, if_true, inl, inr,
}
use atlantic_engine.Qt.Frames.{Modes, Backend, ack_rendered, did_render_frame}

ack_requested :
    (m : Modes) (b : Backend)
    → (ack_rendered m b).0.frame_update_requested ≡ b.frame_update_requested
unfolding ack_rendered
ack_requested m b = ground arith

abbrev is_closed : Backend → Bool
is_closed b = not b.frame_update_requested || not b.exportable

closed_of : (x y : Bool) → x ≡ false → (not x || y) ≡ true
closed_of x y e = ground arith

render_closed : (m : Modes) (b : Backend) → is_closed (did_render_frame m b).0 ≡ true
unfolding did_render_frame
render_closed m b = elim (Bool-cases (is_closed b)) [
  | inl closed ↦ simp closed refl
  | inr open_ ↦
      let b1 = record b { frame_update_requested = false } in
      let r = (ack_rendered m b1).0 in
      simp open_ (closed_of r.frame_update_requested (not r.exportable) (ack_requested m b1))
]

-- A second call for the same frame changes nothing and calls nothing.
pub render_again :
    (m : Modes) (b : Backend)
    → did_render_frame m (did_render_frame m b).0 ≡ ((did_render_frame m b).0, [])
unfolding did_render_frame
render_again m b = if_true (is_closed (did_render_frame m b).0) _ _ (render_closed m b)
