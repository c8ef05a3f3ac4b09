-- ===== src/Qt/Subsurface/Handles.antt =====
-- What is created is destroyed: the balance of each step that sets the surface up.
pub mod Created
use atlantic_engine.Base.{
  ℕ, ◌+◌, ◌≤◌, ◌≡◌, refl, Bool, true, false, ◌&&◌, List, [], ◌∷◌, ◌++◌, if◌then◌else◌, arith, Bytes,
  ◌∙◌, codes, streq, Bool-cases, inl, inr,
}
use atlantic_engine.Qt.Subsurface.{
  Handle, compositor, subcompositor, surface, subsurface, context, egl_window, egl_surface, shader,
  program, texture, Call, make, drop, Host, Surface, drop_if, destroy,
}
use atlantic_engine.Qt.Subsurface.Create.{on_registry_global, announce, setup_egl}

-- The weight of what the calls create, and of what they destroy. A weight of 1 for one kind of handle
-- and of 0 for the others counts that kind.
unfoldable pub made : (Handle → ℕ) → List Call → ℕ
made k [] = 0
made k (make h ∷ cs) = k h + made k cs
made k (c ∷ cs) = made k cs

unfoldable pub dropped : (Handle → ℕ) → List Call → ℕ
dropped k [] = 0
dropped k (drop h ∷ cs) = k h + dropped k cs
dropped k (c ∷ cs) = dropped k cs

pub made-append : (k : Handle → ℕ) (cs ds : List Call) → made k (cs ++ ds) ≡ made k cs + made k ds
unfolding made
made-append k [] ds = omega arith
made-append k (make h ∷ cs) ds = omega (arith, made-append k cs ds)
made-append k (c ∷ cs) ds = made-append k cs ds

pub dropped-append :
    (k : Handle → ℕ) (cs ds : List Call) → dropped k (cs ++ ds) ≡ dropped k cs + dropped k ds
unfolding dropped
dropped-append k [] ds = omega arith
dropped-append k (drop h ∷ cs) ds = omega (arith, dropped-append k cs ds)
dropped-append k (c ∷ cs) ds = dropped-append k cs ds

-- What the surface still has to destroy.
abbrev pub held : (Handle → ℕ) → Surface → ℕ
held k s = dropped k (destroy s).1

abbrev pub IsBalanced : (Handle → ℕ) → Surface → Surface → List Call → Type 0
IsBalanced k s s' calls = made k calls + held k s ≡ dropped k calls + held k s'

-- How often the registry announces an interface.
unfoldable pub count : Bytes → List Bytes → ℕ
count x [] = 0
count x (y ∷ ys) = (if streq y x then 1 else 0) + count x ys

abbrev one_if : Bool → ℕ
one_if b = if b then 1 else 0

abbrev weight_if : (Handle → ℕ) → Bool → Handle → ℕ
weight_if k b h = if b then k h else 0

dropped-drop_if :
    (k : Handle → ℕ) (b : Bool) (h : Handle) → dropped k (drop_if b h) ≡ weight_if k b h
unfolding dropped
dropped-drop_if k true h = omega arith
dropped-drop_if k false h = refl

held_sum :
    (k : Handle → ℕ) (s : Surface)
    → held k s
      ≡ weight_if k (s.egl_display && s.has_texture) texture
        + (weight_if k (s.egl_display && s.has_program) program
            + (weight_if k (s.egl_display && s.has_egl_surface) egl_surface
                + (weight_if k (s.egl_display && s.has_context) context
                    + (weight_if k s.has_egl_window egl_window
                        + (weight_if k s.has_subsurface subsurface
                            + (weight_if k s.has_surface surface
                                + (weight_if k s.has_subcompositor subcompositor
                                    + weight_if k s.has_compositor compositor)))))))
unfolding destroy
held_sum k s = simp (dropped-append, dropped-drop_if)

-- No part of EGL is set up.
record IsBare (s : Surface) : Type 0 where
  context : s.has_context ≡ false
  egl_window : s.has_egl_window ≡ false
  egl_surface : s.has_egl_surface ≡ false
  program : s.has_program ≡ false
  texture : s.has_texture ≡ false

setup_egl-IsBalanced :
    (k : Handle → ℕ) (h : Host) (s : Surface)
    → k shader ≡ 0
    → IsBare s
    → IsBalanced k s (setup_egl h s).0 (setup_egl h s).1
unfolding setup_egl made dropped
setup_egl-IsBalanced k h s free bare = ground (arith, held_sum k s, held_sum k (setup_egl h s).0)

unset_if : (b : Bool) → one_if b + 1 ≤ 1 → b ≡ false
unset_if b h = ground arith

compositor-held :
    (k : Handle → ℕ) (s : Surface)
    → s.has_compositor ≡ false
    → held k (record s { has_compositor = true }) ≡ held k s + k compositor
compositor-held k s none_yet =
    rw (held_sum k s, held_sum k (record s { has_compositor = true }), none_yet) (omega arith)

subcompositor-held :
    (k : Handle → ℕ) (s : Surface)
    → s.has_subcompositor ≡ false
    → held k (record s { has_subcompositor = true }) ≡ held k s + k subcompositor
subcompositor-held k s none_yet =
    rw (held_sum k s, held_sum k (record s { has_subcompositor = true }), none_yet) (omega arith)

on_registry_global-IsBalanced :
    (k : Handle → ℕ) (s : Surface) (g : Bytes)
    → one_if s.has_compositor + count (codes "wl_compositor") (g ∷ []) ≤ 1
    → one_if s.has_subcompositor + count (codes "wl_subcompositor") (g ∷ []) ≤ 1
    → let r = on_registry_global s g in
      IsBalanced k s r.0 r.1
      × (one_if r.0.has_compositor
          ≤ one_if s.has_compositor + count (codes "wl_compositor") (g ∷ []))
      × (one_if r.0.has_subcompositor
          ≤ one_if s.has_subcompositor + count (codes "wl_subcompositor") (g ∷ []))
unfolding on_registry_global made dropped count
on_registry_global-IsBalanced k s g c1 c2 = elim (Bool-cases (streq g (codes "wl_compositor"))) [
  | inl is_first ↦
      let unset : s.has_compositor ≡ false = unset_if s.has_compositor (rw is_first at c1) in
      rw is_first (omega (arith, compositor-held k s unset), omega arith, omega arith)
  | inr not_first ↦ elim (Bool-cases (streq g (codes "wl_subcompositor"))) [
    | inl is_second ↦
        let unset : s.has_subcompositor ≡ false =
          unset_if s.has_subcompositor (rw is_second at c2) in
        rw (not_first, is_second)
          (omega (arith, subcompositor-held k s unset), omega arith, omega arith)
    | inr not_second ↦ rw (not_first, not_second) (refl, omega arith, omega arith)
  ]
]

append-IsBalanced :
    (k : Handle → ℕ) (s s1 s2 : Surface) (cs ds : List Call)
    → IsBalanced k s s1 cs
    → IsBalanced k s1 s2 ds
    → IsBalanced k s s2 (cs ++ ds)
append-IsBalanced k s s1 s2 cs ds first second =
    omega (arith, made-append k cs ds, dropped-append k cs ds)

announce-IsBalanced :
    (k : Handle → ℕ) (s : Surface) (gs : List Bytes)
    → one_if s.has_compositor + count (codes "wl_compositor") gs ≤ 1
    → one_if s.has_subcompositor + count (codes "wl_subcompositor") gs ≤ 1
    → IsBalanced k s (announce s gs).0 (announce s gs).1
unfolding announce made dropped count
announce-IsBalanced k s [] c1 c2 = refl
announce-IsBalanced k s (g ∷ gs) c1 c2 =
    let (first, d1, d2) = on_registry_global-IsBalanced k s g (omega arith) (omega arith) in
    let s1 = (on_registry_global s g).0 in
    append-IsBalanced k s s1 (announce s1 gs).0 (on_registry_global s g).1 (announce s1 gs).1 first
      (announce-IsBalanced k s1 gs (omega arith) (omega arith))

-- The globals set two members; a function of the others keeps its value.
pub announce_keeps :
    {A : Type 0} (f : Surface → A)
    → ((s : Surface) (c d : Bool)
        → f (record s { has_compositor = c; has_subcompositor = d }) ≡ f s)
    → (s : Surface) (gs : List Bytes) → f (announce s gs).0 ≡ f s
unfolding announce on_registry_global
announce_keeps f other s [] = refl
announce_keeps f other s (g ∷ gs) =
    announce_keeps f other (on_registry_global s g).0 gs
    ∙ elim (Bool-cases (streq g (codes "wl_compositor"))) [
      | inl is_first ↦ rw is_first (other s true s.has_subcompositor)
      | inr not_first ↦ elim (Bool-cases (streq g (codes "wl_subcompositor"))) [
        | inl is_second ↦ rw (not_first, is_second) (other s s.has_compositor true)
        | inr not_second ↦ rw (not_first, not_second) refl
      ]
    ]
