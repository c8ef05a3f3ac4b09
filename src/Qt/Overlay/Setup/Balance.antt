-- ===== src/Qt/Overlay/Setup/Balance.antt =====
-- What the chrome overlay creates is destroyed: the balance of each step that sets it up.
use atlantic_engine.Base.{
  ℕ, ◌+◌, ◌≡◌, refl, Bool, true, false, none, List, [], ◌∷◌, ◌++◌, if◌then◌else◌, arith,
}
use atlantic_engine.Qt.Frames.{is_some}
use atlantic_engine.Qt.Overlay.Setup.{
  Part, compositor, subcompositor, surface, subsurface, context, offscreen, egl_window, egl_surface,
  render_control, quick_window, engine, component, root, fbo, shader, program, Call, make, drop,
  Host, Parts, drop_if, setup_egl, setup_scene, destroy,
}

-- The weight of what the calls create, and of what they destroy. A weight of 1 for one kind of part
-- and of 0 for the others counts that kind.
unfoldable pub made : (Part → ℕ) → List Call → ℕ
made k [] = 0
made k (make p ∷ cs) = k p + made k cs
made k (c ∷ cs) = made k cs

unfoldable pub dropped : (Part → ℕ) → List Call → ℕ
dropped k [] = 0
dropped k (drop p ∷ cs) = k p + dropped k cs
dropped k (c ∷ cs) = dropped k cs

pub made-append : (k : Part → ℕ) (cs ds : List Call) → made k (cs ++ ds) ≡ made k cs + made k ds
unfolding made
made-append k [] ds = omega arith
made-append k (make p ∷ cs) ds = omega (arith, made-append k cs ds)
made-append k (c ∷ cs) ds = made-append k cs ds

pub dropped-append :
    (k : Part → ℕ) (cs ds : List Call) → dropped k (cs ++ ds) ≡ dropped k cs + dropped k ds
unfolding dropped
dropped-append k [] ds = omega arith
dropped-append k (drop p ∷ cs) ds = omega (arith, dropped-append k cs ds)
dropped-append k (c ∷ cs) ds = dropped-append k cs ds

-- What the blit program is made of.
abbrev pub blit : (Part → ℕ) → Bool → ℕ
blit k has_program = if has_program then k shader + (k shader + k program) else 0

-- What is there of an overlay: what it still has to destroy, and its blit program.
abbrev pub held : (Part → ℕ) → Parts → ℕ
held k o = dropped k (destroy o).1 + blit k o.has_program

abbrev pub IsBalanced : (Part → ℕ) → Parts → Parts → List Call → Type 0
IsBalanced k o o' calls = made k calls + held k o ≡ dropped k calls + held k o'

pub append-IsBalanced :
    (k : Part → ℕ) (o o1 o2 : Parts) (cs ds : List Call)
    → IsBalanced k o o1 cs
    → IsBalanced k o1 o2 ds
    → IsBalanced k o o2 (cs ++ ds)
append-IsBalanced k o o1 o2 cs ds first second =
    omega (arith, made-append k cs ds, dropped-append k cs ds)

abbrev pub weight_if : (Part → ℕ) → Bool → Part → ℕ
weight_if k b p = if b then k p else 0

pub dropped-drop_if :
    (k : Part → ℕ) (b : Bool) (p : Part) → dropped k (drop_if b p) ≡ weight_if k b p
unfolding dropped
dropped-drop_if k true p = omega arith
dropped-drop_if k false p = refl

made-drop_if : (k : Part → ℕ) (b : Bool) (p : Part) → made k (drop_if b p) ≡ 0
unfolding made
made-drop_if k true p = refl
made-drop_if k false p = refl

pub held_sum :
    (k : Part → ℕ) (o : Parts)
    → dropped k (destroy o).1
      ≡ weight_if k o.has_component component
        + (weight_if k o.has_root root
            + (weight_if k o.has_scene render_control
                + (weight_if k o.has_scene quick_window
                    + (weight_if k o.has_scene engine
                        + (weight_if k o.has_fbo fbo
                            + (weight_if k o.has_egl_surface egl_surface
                                + (weight_if k o.has_egl_window egl_window
                                    + (weight_if k o.has_offscreen offscreen
                                        + (weight_if k o.has_context context
                                            + (weight_if k o.has_subsurface subsurface
                                                + (weight_if k (is_some o.surface_at) surface
                                                    + (weight_if k o.has_subcompositor subcompositor
                                                        + weight_if k o.has_compositor
                                                            compositor))))))))))))
unfolding destroy
held_sum k o = simp (dropped-append, dropped-drop_if)

pub made-destroy : (k : Part → ℕ) (o : Parts) → made k (destroy o).1 ≡ 0
unfolding destroy
made-destroy k o = simp (made-append, made-drop_if)

-- No part of EGL is set up, and no part of the scene.
record IsBare (o : Parts) : Type 0 where
  egl_window : o.has_egl_window ≡ false
  egl_surface : o.has_egl_surface ≡ false
  scene : o.has_scene ≡ false
  component : o.has_component ≡ false
  root : o.has_root ≡ false

pub setup_egl-IsBalanced :
    (k : Part → ℕ) (h : Host) (o : Parts)
    → o.has_egl_window ≡ false
    → o.has_egl_surface ≡ false
    → IsBalanced k o (setup_egl h o).0 (setup_egl h o).1
unfolding setup_egl made dropped
setup_egl-IsBalanced k h o no_window no_surface =
    ground (arith, held_sum k o, held_sum k (setup_egl h o).0)

pub setup_scene-IsBalanced :
    (k : Part → ℕ) (h : Host) (o : Parts)
    → o.has_scene ≡ false
    → o.has_component ≡ false
    → o.has_root ≡ false
    → IsBalanced k o (setup_scene h o).0 (setup_scene h o).1
unfolding setup_scene made dropped
setup_scene-IsBalanced k h o no_scene no_component no_root =
    ground (arith, held_sum k o, held_sum k (setup_scene h o).0)

-- An overlay whose globals are bound or not, and that has nothing else.
abbrev pub bound : Bool → Bool → Parts
bound c d = record {
  valid = false;
  has_compositor = c;
  has_subcompositor = d;
  surface_at = none;
  has_subsurface = false;
  has_context = false;
  has_offscreen = false;
  has_egl_window = false;
  has_egl_surface = false;
  has_scene = false;
  has_component = false;
  has_root = false;
  has_fbo = false;
  has_program = false;
}

abbrev pub new_parts : Parts
new_parts = bound false false
