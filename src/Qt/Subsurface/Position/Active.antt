-- ===== src/Qt/Subsurface/Position/Active.antt =====
-- Where the compositor shows the surface, from setting it up on.
use atlantic_engine.Base.{
  ℕ, ◌≡◌, refl, sym, ap, ◌∙◌, Bool, true, false, Bool-cases, not, ◌||◌, Option, none, some, List,
  [], ◌∷◌, ◌++◌, if◌then◌else◌, arith, inl, inr, Bytes,
}
use atlantic_engine.Base.Int.{pos, ◌+ℤ◌}
use atlantic_engine.Qt.Frames.{is_some}
use atlantic_engine.Qt.Subsurface.{
  Statics, registry, queue, surface, subsurface, make_if, drop, Host, Surface, commit, fresh,
}
use atlantic_engine.Qt.Subsurface.Create.{
  on_registry_global, announce, bind_globals, setup_egl, arrange, activate, create_surface, attach,
  ensure_created, shell_or,
}
use atlantic_engine.Qt.Subsurface.Show.{offscreen_offset}
use atlantic_engine.Qt.Subsurface.Position.{
  Scene, origin, latch, Op, operate_all, latch-append, IsShown, operate_all-IsShown,
}
use atlantic_engine.Qt.Subsurface.Handles.Created.{bind_globals_keeps}

-- The registry announces its globals without a word on positions.
global-latch : (s : Surface) (c : Scene) (g : Bytes) → latch c (on_registry_global s g).1 ≡ c
unfolding on_registry_global latch
global-latch s c g = ground arith

announce-latch : (s : Surface) (c : Scene) (gs : List Bytes) → latch c (announce s gs).1 ≡ c
unfolding announce on_registry_global latch
announce-latch s c [] = refl
announce-latch s c (g ∷ gs) =
    latch-append c (on_registry_global s g).1 (announce (on_registry_global s g).0 gs).1
    ∙ (ap (λ c'. latch c' (announce (on_registry_global s g).0 gs).1) (global-latch s c g)
        ∙ announce-latch (on_registry_global s g).0 c gs)

bind_globals-latch : (h : Host) (s : Surface) (c : Scene) → latch c (bind_globals h s).1 ≡ c
unfolding bind_globals latch
bind_globals-latch h s c = elim (Bool-cases h.queue_made) [
  | inr no_queue ↦ rw no_queue refl
  | inl has_queue ↦
      rw (has_queue, latch-append c (announce s h.globals).1 (drop registry ∷ drop queue ∷ []))
        (announce-latch s c h.globals)
]

-- An active surface after `setupEgl` succeeds, from one with the geometry of the constructor.
record IsStart (s : Surface) : Type 0 where
  hidden : s.hidden ≡ false
  geometry : s.geometry ≡ fresh.geometry
  parent : is_some s.parent ≡ true

setup_egl_keeps :
    (h : Host) (s : Surface) (c : Scene)
    → let s1 = (setup_egl h s).0 in
      (s1.hidden ≡ s.hidden)
      × (s1.geometry ≡ s.geometry)
      × (s1.parent ≡ s.parent)
      × (s1.has_subsurface ≡ s.has_subsurface)
      × (latch c (setup_egl h s).1 ≡ c)
unfolding setup_egl latch
setup_egl_keeps h s c = ground arith

commit-origin : (s : Surface) → latch origin (commit s) ≡ origin
unfolding commit latch
commit-origin s = ground arith

false≢true : {A : Type 0} → false ≡ true → A
false≢true e = cc (e)

activate-IsShown :
    (h : Host) (s : Surface)
    → IsStart s
    → s.has_subsurface ≡ true
    → (activate h s).2 ≡ true
    → IsShown (activate h s).0 (latch origin (activate h s).1)
unfolding activate
activate-IsShown h s start sub ok = elim (Bool-cases (setup_egl h s).2) [
  | inr failed ↦ false≢true (rw failed at ok)
  | inl done ↦
      let s1 = (setup_egl h s).0 in
      let (hidden, geometry, parent, kept, quiet) = setup_egl_keeps h s origin in
      let still : latch origin ((setup_egl h s).1 ++ commit s1) ≡ origin =
        latch-append origin (setup_egl h s).1 (commit s1)
        ∙ (ap (λ c. latch c (commit s1)) quiet ∙ commit-origin s1) in
      rw (done, still)
        (record {
          valid = refl;
          has_subsurface = kept ∙ sub;
          parent = ap is_some parent ∙ start.parent;
          applied = refl;
          x = sym (ap (λ r. r.x) (geometry ∙ start.geometry));
          y = sym (
              ap (λ r. r.y +ℤ (if s1.hidden then offscreen_offset else pos 0))
                (geometry ∙ start.geometry)
              ∙ ap (λ b. pos 0 +ℤ (if b then offscreen_offset else pos 0)) (hidden ∙ start.hidden));
        })
]

arrange-latch :
    (h : Host) (chrome : Option ℕ) (s : Surface)
    → IsStart s
    → latch origin (arrange h chrome s) ≡ origin
unfolding arrange latch
arrange-latch h chrome s start = rw start.geometry (ground arith)

make_if-latch : (b d : Bool) → latch origin (make_if b surface ++ make_if d subsurface) ≡ origin
unfolding latch
make_if-latch b d = ground arith

create_surface-IsShown :
    (h : Host) (chrome : Option ℕ) (s : Surface)
    → IsStart s
    → (create_surface h chrome s).2 ≡ true
    → IsShown (create_surface h chrome s).0 (latch origin (create_surface h chrome s).1)
unfolding create_surface
create_surface-IsShown h chrome s start ok =
    elim (Bool-cases (not h.surface_made || not h.subsurface_made)) [
      | inl failed ↦ false≢true (rw failed at ok)
      | inr done ↦
          let s1 = record s { has_surface = h.surface_made; has_subsurface = h.subsurface_made } in
          let cs = make_if h.surface_made surface ++ make_if h.subsurface_made subsurface in
          let ds = arrange h chrome s1 in
          let es = (activate h s1).1 in
          let start1 : IsStart s1 = record {
            hidden = start.hidden;
            geometry = start.geometry;
            parent = start.parent;
          } in
          let still : latch origin (cs ++ (ds ++ es)) ≡ latch origin es =
            latch-append origin cs (ds ++ es)
            ∙ (ap (λ c. latch c (ds ++ es)) (make_if-latch h.surface_made h.subsurface_made)
                ∙ (latch-append origin ds es
                    ∙ ap (λ c. latch c es) (arrange-latch h chrome s1 start1))) in
          let sub : h.subsurface_made ≡ true = ground arith in
          rw (done, still) (activate-IsShown h s1 start1 sub (rw done at ok))
    ]

attach-IsShown :
    (h : Host) (chrome : Option ℕ) (s : Surface)
    → s.hidden ≡ false
    → s.geometry ≡ fresh.geometry
    → (attach h chrome s).2 ≡ true
    → IsShown (attach h chrome s).0 (latch origin (attach h chrome s).1)
unfolding attach
attach-IsShown h chrome s hidden geometry ok =
    elim (Bool-cases (not s.display || not (is_some s.parent))) [
      | inl no_parent ↦ false≢true (rw no_parent at ok)
      | inr placed ↦ elim (Bool-cases (bind_globals h s).2) [
        | inr unbound ↦ false≢true (rw (placed, unbound) at ok)
        | inl bound ↦
            let s1 = (bind_globals h s).0 in
            let calls = (create_surface h chrome s1).1 in
            let parent : is_some s.parent ≡ true = ground arith in
            let start : IsStart s1 = record {
              hidden = bind_globals_keeps (λ s. s.hidden) (λ s c d. refl) h s ∙ hidden;
              geometry = bind_globals_keeps (λ s. s.geometry) (λ s c d. refl) h s ∙ geometry;
              parent = bind_globals_keeps (λ s. is_some s.parent) (λ s c d. refl) h s ∙ parent;
            } in
            let still : latch origin ((bind_globals h s).1 ++ calls) ≡ latch origin calls =
              latch-append origin (bind_globals h s).1 calls
              ∙ ap (λ c. latch c calls) (bind_globals-latch h s origin) in
            rw (placed, bound, still)
              (create_surface-IsShown h chrome s1 start (rw (placed, bound) at ok))
      ]
    ]

pub ensure_created-IsShown :
    (h : Host) (g : Statics) (window : Option ℕ)
    → (ensure_created h g window fresh).2 ≡ true
    → IsShown (ensure_created h g window fresh).0 (latch origin (ensure_created h g window fresh).1)
unfolding ensure_created
ensure_created-IsShown h g none ok = false≢true ok
ensure_created-IsShown h g (some window) ok = elim (Bool-cases h.native_interface) [
  | inr missing ↦ false≢true (simp missing at ok)
  | inl found ↦
      let s = record fresh {
        attempted = true;
        display = h.display || h.wl_display;
        parent = h.surface_of (shell_or g.shell_window window);
      } in
      simp found (attach-IsShown h g.chrome_surface s refl refl (simp found at ok))
]

-- Where the compositor should show a surface: at its geometry, and far below it when it is hidden.
abbrev pub ShownAt : Surface → Scene → Type 0
ShownAt s c =
    (c.x ≡ s.geometry.x) × (c.y ≡ s.geometry.y +ℤ (if s.hidden then offscreen_offset else pos 0))

-- If setting a surface up succeeds, then after any moves, changes of visibility and frames the
-- compositor shows it at the geometry that it was given last, or 100000 pixels below that if it was
-- hidden last. That position is in effect: it does not wait for a later commit of the parent surface.
pub operate_all-ensure_created :
    (h : Host) (g : Statics) (window : Option ℕ) (ops : List Op)
    → (ensure_created h g window fresh).2 ≡ true
    → let r = ensure_created h g window fresh in
      let r' = operate_all r.0 ops in ShownAt r'.0 (latch origin (r.1 ++ r'.1))
operate_all-ensure_created h g window ops ok =
    let r = ensure_created h g window fresh in
    let r' = operate_all r.0 ops in
    let shown =
      operate_all-IsShown r.0 (latch origin r.1) ops (ensure_created-IsShown h g window ok) in
    rw (latch-append origin r.1 r'.1) (
      shown.x ∙ ap (λ q. q.x) shown.applied,
      shown.y ∙ ap (λ q. q.y +ℤ (if r'.0.hidden then offscreen_offset else pos 0)) shown.applied,
    )
