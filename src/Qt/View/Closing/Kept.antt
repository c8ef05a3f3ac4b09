-- ===== src/Qt/View/Closing/Kept.antt =====
-- What a view creates for its surface is destroyed or still held: the balance of each step.
use atlantic_engine.Base.{
  ℕ, ◌+◌, ◌≡◌, refl, ap, Bool, Bool-cases, not, ◌&&◌, ◌||◌, Option, none, some, List, [], ◌∷◌, ◌++◌,
  if◌then◌else◌, arith, inl, inr, map,
}
use atlantic_engine.Base.Int.{ℤ}
use atlantic_engine.Qt.Subsurface
use atlantic_engine.Qt.Subsurface.{
  Rect, same_rect, is_positive, resize, Handle, shader, Surface, fresh, destroy, commit,
}
use atlantic_engine.Qt.Subsurface.Show.{set_geometry, set_visible, apply_position, same}
use atlantic_engine.Qt.Subsurface.Handles.{
  made, dropped, made-append, dropped-append, held, IsBalanced,
}
use atlantic_engine.Qt.View.{Request, on_surface}
use atlantic_engine.Qt.View.Closing.{calls_of}

pub calls-append : (xs ys : List Request) → calls_of (xs ++ ys) ≡ calls_of xs ++ calls_of ys
unfolding calls_of
calls-append [] ys = refl
calls-append (on_surface call ∷ xs) ys = ap (λ cs. call ∷ cs) (calls-append xs ys)
calls-append (r ∷ xs) ys = calls-append xs ys

pub calls-surface : (cs : List Subsurface.Call) → calls_of (map on_surface cs) ≡ cs
unfolding calls_of
calls-surface [] = refl
calls-surface (c ∷ cs) = ap (λ cs. c ∷ cs) (calls-surface cs)

-- What the surface of a view still has to destroy.
unfoldable pub view_held : (Handle → ℕ) → Option Surface → ℕ
view_held k none = 0
view_held k (some s) = held k s

abbrev pub made_by : (Handle → ℕ) → List Request → ℕ
made_by k rs = made k (calls_of rs)

abbrev pub dropped_by : (Handle → ℕ) → List Request → ℕ
dropped_by k rs = dropped k (calls_of rs)

-- The balance of a step, from one surface to the other.
pub record Balances (k : Handle → ℕ) (o o' : Option Surface) (rs : List Request) : Type 0 where
  pub sum : made_by k rs + view_held k o ≡ dropped_by k rs + view_held k o'

pub append-Balances :
    (k : Handle → ℕ) (o o1 o2 : Option Surface) (xs ys : List Request)
    → Balances k o o1 xs
    → Balances k o1 o2 ys
    → Balances k o o2 (xs ++ ys)
append-Balances k o o1 o2 xs ys first second = record {
  sum = rw (calls-append xs ys) (
      omega (
        arith,
        made-append k (calls_of xs) (calls_of ys),
        dropped-append k (calls_of xs) (calls_of ys),
        first.sum,
        second.sum,
      ));
}

-- Steps without a call to the surface.
pub still-Balances :
    (k : Handle → ℕ) (o o' : Option Surface) (rs : List Request)
    → o' ≡ o
    → calls_of rs ≡ []
    → Balances k o o' rs
unfolding made dropped
still-Balances k o o' rs kept quiet = record { sum = rw (kept, quiet) refl }

-- Calls that neither create nor destroy.
abbrev IsNeutral : (Handle → ℕ) → List Subsurface.Call → Type 0
IsNeutral k cs = (made k cs ≡ 0) × (dropped k cs ≡ 0)

place_again-IsNeutral : (k : Handle → ℕ) (s : Surface) → IsNeutral k (apply_position s ++ commit s)
unfolding apply_position commit made dropped
place_again-IsNeutral k s = ground arith

resize_if-IsNeutral :
    (k : Handle → ℕ) (b : Bool) (w h : ℤ) (cs : List Subsurface.Call)
    → IsNeutral k cs
    → IsNeutral k ((if b then resize w h ∷ [] else []) ++ cs)
unfolding made dropped
resize_if-IsNeutral k b w h cs neutral = ground arith

pub set_geometry-IsBalanced :
    (k : Handle → ℕ) (r : Rect) (s : Surface)
    → IsBalanced k s (set_geometry r s).0 (set_geometry r s).1
unfolding set_geometry made dropped destroy
set_geometry-IsBalanced k r s = elim (Bool-cases (not s.valid || same_rect r s.applied)) [
  | inl known ↦ simp known refl
  | inr moved ↦
      let s1 = record s { geometry = r; applied = r } in
      let again =
        resize_if-IsNeutral k (s.has_egl_window && (is_positive r.width && is_positive r.height))
          r.width r.height (apply_position s1 ++ commit s1) (place_again-IsNeutral k s1) in
      simp moved (omega (arith, again.0, again.1))
]

pub set_visible-IsBalanced :
    (k : Handle → ℕ) (b : Bool) (s : Surface)
    → IsBalanced k s (set_visible b s).0 (set_visible b s).1
unfolding set_visible made dropped destroy
set_visible-IsBalanced k b s = elim (Bool-cases (not s.valid || same s.hidden (not b))) [
  | inl known ↦ simp known refl
  | inr changed ↦
      let again = place_again-IsNeutral k (record s { hidden = not b }) in
      simp changed (omega (arith, again.0, again.1))
]

pub surface-Balances :
    (k : Handle → ℕ) (s s1 : Surface) (calls : List Subsurface.Call)
    → IsBalanced k s s1 calls
    → Balances k (some s) (some s1) (map on_surface calls)
unfolding view_held
surface-Balances k s s1 calls balanced = record { sum = rw (calls-surface calls) balanced }
