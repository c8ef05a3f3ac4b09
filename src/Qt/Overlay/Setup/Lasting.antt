-- ===== src/Qt/Overlay/Setup/Lasting.antt =====
-- The blit program of the chrome overlay and its shaders: what creates them, and that nothing destroys
-- them.
use atlantic_engine.Base.{
  ℕ, ◌≤◌, ◌≡◌, refl, Bool, true, false, not, ◌||◌, Option, none, some, List, [], ◌∷◌, ◌++◌,
  if◌then◌else◌, arith, Bytes, codes, Bool-cases, inl, inr,
}
use atlantic_engine.Qt.Frames.{is_some}
use atlantic_engine.Qt.Subsurface.{Statics}
use atlantic_engine.Qt.Subsurface.Handles.{count}
use atlantic_engine.Qt.Overlay.Setup.{
  Part, shader, program, Call, commit_parent, Host, Parts, on_registry_global, announce,
  bind_globals, setup_egl, setup_scene, finish, set_up, or_destroy, destroy, make_surfaces, publish,
  create,
}
use atlantic_engine.Qt.Overlay.Setup.Balance.{
  made, dropped, dropped-append, dropped-drop_if, blit, new_parts,
}
use atlantic_engine.Qt.Overlay.Setup.Bound.{create-IsBalanced, new-held}

-- The weight of shaders and programs.
abbrev pub lasting : (Part → ℕ) → Part → ℕ
lasting k shader = k shader
lasting k program = k program
lasting k _ = 0

-- No shader and no program is destroyed.
abbrev Spares : (Part → ℕ) → List Call → Type 0
Spares k calls = dropped (lasting k) calls ≡ 0

append-Spares : (k : Part → ℕ) (cs ds : List Call) → Spares k cs → Spares k ds → Spares k (cs ++ ds)
append-Spares k cs ds first second = omega (arith, dropped-append (lasting k) cs ds)

nothing_if : (b : Bool) → ◌≡◌ {A = ℕ} (if b then 0 else 0) 0
nothing_if true = refl
nothing_if false = refl

pub destroy-Spares : (k : Part → ℕ) (o : Parts) → Spares k (destroy o).1
unfolding destroy
destroy-Spares k o = simp (dropped-append, dropped-drop_if, nothing_if)

announce-Spares : (k : Part → ℕ) (o : Parts) (gs : List Bytes) → Spares k (announce o gs).1
unfolding announce on_registry_global dropped
announce-Spares k o [] = refl
announce-Spares k o (g ∷ gs) =
    append-Spares k (on_registry_global o g).1 (announce (on_registry_global o g).0 gs).1
      (ground arith) (announce-Spares k (on_registry_global o g).0 gs)

bind-Spares : (k : Part → ℕ) (h : Host) (o : Parts) → Spares k (bind_globals h o).1
unfolding bind_globals dropped
bind-Spares k h o = elim (Bool-cases (not h.queue_made)) [
  | inl without ↦ rw without refl
  | inr queue ↦ rw queue (announce-Spares k o h.globals)
]

setup_egl-Spares : (k : Part → ℕ) (h : Host) (o : Parts) → Spares k (setup_egl h o).1
unfolding setup_egl dropped
setup_egl-Spares k h o = ground arith

setup_scene-Spares : (k : Part → ℕ) (h : Host) (o : Parts) → Spares k (setup_scene h o).1
unfolding setup_scene dropped
setup_scene-Spares k h o = ground arith

finish-Spares : (k : Part → ℕ) (h : Host) (o : Parts) → Spares k (finish h o).1
unfolding finish dropped
finish-Spares k h o =
    let scene = setup_scene-Spares k h (record o { has_program = true }) in ground arith

set_up-Spares : (k : Part → ℕ) (h : Host) (o : Parts) → Spares k (set_up h o).1
unfolding set_up dropped
set_up-Spares k h o =
    let o2 = record o { has_context = true; has_offscreen = true } in
    let egl = setup_egl-Spares k h o2 in
    let both =
      append-Spares k (setup_egl h o2).1 (finish h (setup_egl h o2).0).1 egl
        (finish-Spares k h (setup_egl h o2).0) in
    elim (Bool-cases (not h.context_created)) [
      | inl without ↦ rw without refl
      | inr with_context ↦ elim (Bool-cases (not (setup_egl h o2).2)) [
        | inl no_egl ↦ rw (with_context, no_egl) egl
        | inr has_egl ↦ rw (with_context, has_egl) both
      ]
    ]

or_destroy-Spares :
    (k : Part → ℕ) (r : Parts × List Call × Bool) → Spares k r.1 → Spares k (or_destroy r).1
unfolding or_destroy
or_destroy-Spares k (o, calls, true) spares = spares
or_destroy-Spares k (o, calls, false) spares =
    append-Spares k calls (destroy o).1 spares (destroy-Spares k o)

surfaces-Spares : (k : Part → ℕ) (at : Option ℕ) (sub : Bool) → Spares k (make_surfaces at sub)
unfolding make_surfaces dropped
surfaces-Spares k none sub = ground arith
surfaces-Spares k (some n) sub = ground arith

publish-Spares : (k : Part → ℕ) (h : Host) (g : Statics) (o : Parts) → Spares k (publish h g o).2
unfolding publish dropped
publish-Spares k h g o =
    let o1 = record o { surface_at = h.surface_made; has_subsurface = h.subsurface_made } in
    let first = surfaces-Spares k h.surface_made h.subsurface_made in
    let calls = (or_destroy (set_up h o1)).1 in
    let rest = or_destroy-Spares k (set_up h o1) (set_up-Spares k h o1) in
    elim (Bool-cases (not (is_some h.surface_made) || not h.subsurface_made)) [
      | inl failed ↦ rw failed first
      | inr placed ↦ rw placed (
          append-Spares k (make_surfaces h.surface_made h.subsurface_made) (commit_parent ∷ calls)
            first rest)
    ]

pub create-Spares : (k : Part → ℕ) (h : Host) (g : Statics) → Spares k (create h g new_parts).2
unfolding create dropped
create-Spares k h g =
    let first = bind-Spares k h new_parts in
    let o1 = (bind_globals h new_parts).0 in
    let both =
      append-Spares k (bind_globals h new_parts).1 (publish h g o1).2 first
        (publish-Spares k h g o1) in
    elim (Bool-cases ((not h.display || not h.parent) || h.size_empty)) [
      | inl closed ↦ rw closed refl
      | inr open_ ↦ elim (Bool-cases (not (bind_globals h new_parts).2)) [
        | inl missing ↦ rw (open_, missing) first
        | inr found ↦ rw (open_, found) both
      ]
    ]

-- The blit program and its shaders are all that is made of their kinds.
pub made-create :
    (k : Part → ℕ) (h : Host) (g : Statics)
    → count (codes "wl_compositor") h.globals ≤ 1
    → count (codes "wl_subcompositor") h.globals ≤ 1
    → let r = create h g new_parts in made (lasting k) r.2 ≡ blit k r.1.has_program
made-create k h g once1 once2 =
    let r = create h g new_parts in
    omega (
      arith,
      create-IsBalanced (lasting k) h g once1 once2,
      new-held (lasting k),
      create-Spares k h g,
      destroy-Spares k r.1,
    )
