-- ===== src/Qt/Overlay/Setup/Surfaced.antt =====
-- What the chrome overlay creates is destroyed, from its surfaces on.
use atlantic_engine.Base.{
  ℕ, ◌≡◌, refl, Bool, true, false, not, ◌||◌, Option, none, some, List, [], ◌∷◌, arith, Bool-cases,
  inl, inr,
}
use atlantic_engine.Qt.Frames.{is_some}
use atlantic_engine.Qt.Subsurface.{Statics}
use atlantic_engine.Qt.Overlay.Setup.{
  Part, context, offscreen, shader, program, Call, make, commit_parent, Host, Parts, setup_egl,
  setup_scene, destroy, or_destroy, finish, set_up, make_surfaces, publish,
}
use atlantic_engine.Qt.Overlay.Setup.Balance.{
  made, dropped, blit, held, made-destroy, IsBalanced, append-IsBalanced, bound,
  setup_egl-IsBalanced, setup_scene-IsBalanced,
}

destroy-held : (k : Part → ℕ) (o : Parts) → held k (destroy o).0 ≡ blit k o.has_program
unfolding destroy dropped
destroy-held k o = omega arith

or_destroy-IsBalanced :
    (k : Part → ℕ) (o : Parts) (r : Parts × List Call × Bool)
    → IsBalanced k o r.0 r.1
    → IsBalanced k o (or_destroy r).0 (or_destroy r).1
unfolding or_destroy
or_destroy-IsBalanced k o r balanced = elim (Bool-cases r.2) [
  | inl done ↦ rw done balanced
  | inr failed ↦ rw failed (
      append-IsBalanced k o r.0 (destroy r.0).0 r.1 (destroy r.0).1 balanced
        (omega (arith, made-destroy k r.0, destroy-held k r.0)))
]

valid-held : (k : Part → ℕ) (o : Parts) → held k (record o { valid = true }) ≡ held k o
unfolding destroy
valid-held k o = refl

program-IsBalanced :
    (k : Part → ℕ) (o : Parts)
    → o.has_program ≡ false
    → IsBalanced k o
        (record o { has_program = true })
        (make shader ∷ make shader ∷ make program ∷ [])
unfolding made dropped destroy
program-IsBalanced k o bare = rw bare (omega arith)

finish-IsBalanced :
    (k : Part → ℕ) (h : Host) (o : Parts)
    → o.has_program ≡ false
    → o.has_scene ≡ false
    → o.has_component ≡ false
    → o.has_root ≡ false
    → IsBalanced k o (finish h o).0 (finish h o).1
unfolding finish made dropped
finish-IsBalanced k h o no_program no_scene no_component no_root =
    let o0 = record o { has_program = true } in
    let r = setup_scene h o0 in
    let scene =
      append-IsBalanced k o o0 r.0 (make shader ∷ make shader ∷ make program ∷ []) r.1
        (program-IsBalanced k o no_program)
        (setup_scene-IsBalanced k h o0 no_scene no_component no_root) in
    elim (Bool-cases (not h.blit_current)) [
      | inl no_blit ↦ rw no_blit refl
      | inr blit ↦ elim (Bool-cases (not r.2)) [
        | inl failed ↦ rw (blit, failed) scene
        | inr done ↦ rw (blit, done) (omega (arith, scene, valid-held k r.0))
      ]
    ]

setup_egl_keeps :
    (h : Host) (o : Parts)
    → let o1 = (setup_egl h o).0 in
      (o1.has_program ≡ o.has_program)
      × (o1.has_scene ≡ o.has_scene)
      × (o1.has_component ≡ o.has_component)
      × (o1.has_root ≡ o.has_root)
unfolding setup_egl
setup_egl_keeps h o = ground arith

-- The surfaces of an overlay whose globals are bound.
abbrev surfaced : Bool → Bool → Option ℕ → Bool → Parts
surfaced c d at sub = record (bound c d) { surface_at = at; has_subsurface = sub }

context-IsBalanced :
    (k : Part → ℕ) (c d : Bool) (at : Option ℕ) (sub : Bool)
    → let o = surfaced c d at sub in
      IsBalanced k o (record o { has_context = true }) (make context ∷ [])
      × IsBalanced k o
          (record o { has_context = true; has_offscreen = true })
          (make context ∷ make offscreen ∷ [])
unfolding made dropped destroy
context-IsBalanced k c d at sub = ground arith

set_up-IsBalanced :
    (k : Part → ℕ) (h : Host) (c d : Bool) (at : Option ℕ) (sub : Bool)
    → let o = surfaced c d at sub in IsBalanced k o (set_up h o).0 (set_up h o).1
unfolding set_up
set_up-IsBalanced k h c d at sub =
    let o = surfaced c d at sub in
    let o1 = record o { has_context = true } in
    let o2 = record o1 { has_offscreen = true } in
    let o3 = (setup_egl h o2).0 in
    let made3 = (setup_egl h o2).1 in
    let (one, two) = context-IsBalanced k c d at sub in
    let three =
      append-IsBalanced k o o2 o3 (make context ∷ make offscreen ∷ []) made3 two
        (setup_egl-IsBalanced k h o2 refl refl) in
    let (unbuilt, scene, component, root) = setup_egl_keeps h o2 in
    let four =
      append-IsBalanced k o o3 (finish h o3).0 (make context ∷ make offscreen ∷ made3)
        (finish h o3).1 three (finish-IsBalanced k h o3 unbuilt scene component root) in
    elim (Bool-cases (not h.context_created)) [
      | inl no_context ↦ rw no_context one
      | inr has_context ↦ elim (Bool-cases (not (setup_egl h o2).2)) [
        | inl no_egl ↦ rw (has_context, no_egl) three
        | inr has_egl ↦ rw (has_context, has_egl) four
      ]
    ]

surfaces-IsBalanced :
    (k : Part → ℕ) (c d : Bool) (at : Option ℕ) (sub : Bool)
    → IsBalanced k (bound c d) (surfaced c d at sub) (make_surfaces at sub)
unfolding make_surfaces made dropped destroy
surfaces-IsBalanced k c d none sub = ground arith
surfaces-IsBalanced k c d (some n) sub = ground arith

pub publish-IsBalanced :
    (k : Part → ℕ) (h : Host) (g : Statics) (c d : Bool)
    → let r = publish h g (bound c d) in IsBalanced k (bound c d) r.1 r.2
unfolding publish made dropped
publish-IsBalanced k h g c d =
    let o1 = surfaced c d h.surface_made h.subsurface_made in
    let r = or_destroy (set_up h o1) in
    let first = surfaces-IsBalanced k c d h.surface_made h.subsurface_made in
    let rest =
      or_destroy-IsBalanced k o1 (set_up h o1)
        (set_up-IsBalanced k h c d h.surface_made h.subsurface_made) in
    let both =
      append-IsBalanced k (bound c d) o1 r.0 (make_surfaces h.surface_made h.subsurface_made)
        (commit_parent ∷ r.1) first rest in
    elim (Bool-cases (not (is_some h.surface_made) || not h.subsurface_made)) [
      | inl failed ↦ rw failed first
      | inr placed ↦ rw placed both
    ]
