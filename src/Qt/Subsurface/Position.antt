-- ===== src/Qt/Subsurface/Position.antt =====
-- Where the compositor shows the surface: each step on an active surface.
pub mod Active
use atlantic_engine.Base.{
  ℕ, ◌≡◌, refl, sym, Bool, true, false, Bool-cases, not, ◌&&◌, ◌||◌, Option, List, [], ◌∷◌, ◌++◌,
  if◌then◌else◌, arith, inl, inr,
}
use atlantic_engine.Base.Int.{ℤ, pos, ◌==ℤ◌, ==ℤ→≡}
use atlantic_engine.Qt.Frames.{is_some}
use atlantic_engine.Qt.Subsurface.{
  Rect, is_positive, same_rect, Call, make, drop, set_position, place_below, set_desync,
  commit_parent, flush, swap_buffers, resize, viewport, bind, draw, Surface, commit,
}
use atlantic_engine.Qt.Subsurface.Show.{shown_y, apply_position, set_geometry, set_visible, present}

-- What the protocol says of a position: it is pending until the parent surface is committed.
pub record Scene : Type 0 where
  pub pending_x : ℤ
  pub pending_y : ℤ
  pub x : ℤ
  pub y : ℤ

abbrev pub origin : Scene
origin = record { pending_x = pos 0; pending_y = pos 0; x = pos 0; y = pos 0 }

unfoldable pub latch : Scene → List Call → Scene
latch c [] = c
latch c (set_position x y ∷ calls) = latch (record c { pending_x = x; pending_y = y }) calls
latch c (commit_parent ∷ calls) = latch (record c { x = c.pending_x; y = c.pending_y }) calls
latch c (_ ∷ calls) = latch c calls

-- What the view asks of an active surface.
pub data Op : Type 0 where
  geometry : Rect → Op
  visible : Bool → Op
  shows : Bool → Option ℕ → Bool → Op

unfoldable pub operate : Surface → Op → Surface × List Call
operate s (geometry r) = set_geometry r s
operate s (visible b) = set_visible b s
operate s (shows made_current image flip_y) = (s, present made_current image flip_y s)

unfoldable pub operate_all : Surface → List Op → Surface × List Call
operate_all s [] = (s, [])
operate_all s (op ∷ ops) =
    let (s1, calls) = operate s op in let (s2, rest) = operate_all s1 ops in (s2, calls ++ rest)

pub latch-append : (c : Scene) (cs ds : List Call) → latch c (cs ++ ds) ≡ latch (latch c cs) ds
unfolding latch
latch-append c [] ds = refl
latch-append c (set_position x y ∷ cs) ds = latch-append _ cs ds
latch-append c (commit_parent ∷ cs) ds = latch-append _ cs ds
latch-append c (make h ∷ cs) ds = latch-append c cs ds
latch-append c (drop h ∷ cs) ds = latch-append c cs ds
latch-append c (place_below n ∷ cs) ds = latch-append c cs ds
latch-append c (set_desync ∷ cs) ds = latch-append c cs ds
latch-append c (flush ∷ cs) ds = latch-append c cs ds
latch-append c (swap_buffers ∷ cs) ds = latch-append c cs ds
latch-append c (resize x y ∷ cs) ds = latch-append c cs ds
latch-append c (viewport x y ∷ cs) ds = latch-append c cs ds
latch-append c (bind n ∷ cs) ds = latch-append c cs ds
latch-append c (draw b ∷ cs) ds = latch-append c cs ds

-- The surface is active, and the compositor shows it where it should be.
pub record IsShown (s : Surface) (c : Scene) : Type 0 where
  pub valid : s.valid ≡ true
  pub has_subsurface : s.has_subsurface ≡ true
  pub parent : is_some s.parent ≡ true
  pub applied : s.applied ≡ s.geometry
  pub x : c.x ≡ s.applied.x
  pub y : c.y ≡ shown_y s

same_rect→≡ : (a b : Rect) → same_rect a b ≡ true → a ≡ b
same_rect→≡ a b h =
    let ex = ==ℤ→≡ a.x b.x (ground arith) in
    let ey = ==ℤ→≡ a.y b.y (ground arith) in
    let ew = ==ℤ→≡ a.width b.width (ground arith) in
    let eh = ==ℤ→≡ a.height b.height (ground arith) in rw (ex, ey, ew, eh) refl

-- A new position is latched at once.
commit-latch :
    (s : Surface) (c : Scene) (w h : ℤ) (resized : Bool)
    → s.has_subsurface ≡ true
    → is_some s.parent ≡ true
    → let c' =
        latch c ((if resized then resize w h ∷ [] else []) ++ (apply_position s ++ commit s)) in
      (c'.x ≡ s.applied.x) × (c'.y ≡ shown_y s)
unfolding latch apply_position commit
commit-latch s c w h resized sub parent = ground arith

pub geometry-IsShown :
    (s : Surface) (c : Scene) (r : Rect)
    → IsShown s c
    → IsShown (set_geometry r s).0 (latch c (set_geometry r s).1)
unfolding set_geometry latch
geometry-IsShown s c r shown = elim (Bool-cases (same_rect r s.applied)) [
  | inl known ↦
      let e = same_rect→≡ r s.applied known in
      let kept : (not s.valid || same_rect r s.applied) ≡ true = ground arith in
      rw kept (record {
        valid = shown.valid;
        has_subsurface = shown.has_subsurface;
        parent = shown.parent;
        applied = sym e;
        x = shown.x;
        y = shown.y;
      })
  | inr moved ↦
      let kept : (not s.valid || same_rect r s.applied) ≡ false = ground arith in
      let (x, y) =
        commit-latch (record s { geometry = r; applied = r }) c r.width r.height
          (s.has_egl_window && (is_positive r.width && is_positive r.height)) shown.has_subsurface
          shown.parent in
      rw kept (record {
        valid = shown.valid;
        has_subsurface = shown.has_subsurface;
        parent = shown.parent;
        applied = refl;
        x = x;
        y = y;
      })
]

pub visible-IsShown :
    (s : Surface) (c : Scene) (b : Bool)
    → IsShown s c
    → IsShown (set_visible b s).0 (latch c (set_visible b s).1)
unfolding set_visible latch apply_position commit
visible-IsShown s c b shown = ground arith

present-latch :
    (s : Surface) (c : Scene) (made_current flip_y : Bool) (image : Option ℕ)
    → latch c (present made_current image flip_y s) ≡ c
unfolding present latch
present-latch s c made_current flip_y image = ground arith

operate-IsShown :
    (s : Surface) (c : Scene) (op : Op)
    → IsShown s c
    → IsShown (operate s op).0 (latch c (operate s op).1)
unfolding operate
operate-IsShown s c (geometry r) shown = geometry-IsShown s c r shown
operate-IsShown s c (visible b) shown = visible-IsShown s c b shown
operate-IsShown s c (shows made_current image flip_y) shown =
    rw (present-latch s c made_current flip_y image) shown

operate_all-IsShown :
    (s : Surface) (c : Scene) (ops : List Op)
    → IsShown s c
    → IsShown (operate_all s ops).0 (latch c (operate_all s ops).1)
unfolding operate_all latch
operate_all-IsShown s c [] shown = shown
operate_all-IsShown s c (op ∷ ops) shown =
    let s1 = (operate s op).0 in
    let c1 = latch c (operate s op).1 in
    rw (latch-append c (operate s op).1 (operate_all s1 ops).1)
      (operate_all-IsShown s1 c1 ops (operate-IsShown s c op shown))
