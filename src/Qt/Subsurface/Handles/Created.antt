-- ===== src/Qt/Subsurface/Handles/Created.antt =====
-- What is created is destroyed, over the whole of setting a surface up.
use atlantic_engine.Base.{
  ℕ, ◌+◌, ◌≤◌, ◌≡◌, refl, Bool, true, false, not, ◌||◌, Option, none, some, [], ◌∷◌, ◌++◌, arith,
  ◌∙◌, codes, Bool-cases, inl, inr,
}
use atlantic_engine.Qt.Frames.{is_some}
use atlantic_engine.Qt.Subsurface.{
  Statics, Handle, queue, registry, surface, subsurface, shader, drop, Host, Surface, fresh,
  make_if, drop_if, destroy, commit,
}
use atlantic_engine.Qt.Subsurface.Create.{
  announce, bind_globals, setup_egl, arrange, activate, create_surface, attach, ensure_created,
  shell_or,
}
use atlantic_engine.Qt.Subsurface.Handles.{
  made, dropped, held, held_sum, made-append, dropped-append, IsBalanced, append-IsBalanced, IsBare,
  setup_egl-IsBalanced, announce-IsBalanced, announce_keeps, count, weight_if,
}

abbrev pub AnnouncedOnce : Host → Type 0
AnnouncedOnce h =
    (count (codes "wl_compositor") h.globals ≤ 1) × (count (codes "wl_subcompositor") h.globals ≤ 1)

-- The globals are not bound yet.
abbrev IsUnbound : Surface → Type 0
IsUnbound s = (s.has_compositor ≡ false) × (s.has_subcompositor ≡ false)

pub bind_globals_keeps :
    {A : Type 0} (f : Surface → A)
    → ((s : Surface) (c d : Bool)
        → f (record s { has_compositor = c; has_subcompositor = d }) ≡ f s)
    → (h : Host) (s : Surface) → f (bind_globals h s).0 ≡ f s
unfolding bind_globals
bind_globals_keeps f other h s = elim (Bool-cases h.queue_made) [
  | inr no_queue ↦ rw no_queue refl
  | inl has_queue ↦ rw has_queue (announce_keeps f other s h.globals)
]

bind_globals-IsBalanced :
    (k : Handle → ℕ) (h : Host) (s : Surface)
    → AnnouncedOnce h
    → IsUnbound s
    → IsBalanced k s (bind_globals h s).0 (bind_globals h s).1
unfolding bind_globals made dropped
bind_globals-IsBalanced k h s once unbound = elim (Bool-cases h.queue_made) [
  | inr no_queue ↦ rw no_queue refl
  | inl has_queue ↦
      let calls = (announce s h.globals).1 in
      let inner =
        announce-IsBalanced k s h.globals (rw unbound.0 (omega (arith, once.0)))
          (rw unbound.1 (omega (arith, once.1))) in
      rw has_queue (
        omega (
          arith,
          made-append k calls (drop registry ∷ drop queue ∷ []),
          dropped-append k calls (drop registry ∷ drop queue ∷ []),
        ))
]

pub destroy-held : (k : Handle → ℕ) (s : Surface) → held k (destroy s).0 ≡ 0
unfolding destroy dropped
destroy-held k s = ground arith

commit-IsBalanced :
    (k : Handle → ℕ) (s s' : Surface) → held k s ≡ held k s' → IsBalanced k s s' (commit s)
unfolding commit made dropped
commit-IsBalanced k s s' same = ground arith

made-drop_if : (k : Handle → ℕ) (b : Bool) (h : Handle) → made k (drop_if b h) ≡ 0
unfolding made
made-drop_if k true h = refl
made-drop_if k false h = refl

pub made-destroy : (k : Handle → ℕ) (s : Surface) → made k (destroy s).1 ≡ 0
unfolding destroy
made-destroy k s = simp (made-append, made-drop_if)

activate-IsBalanced :
    (k : Handle → ℕ) (h : Host) (s : Surface)
    → k shader ≡ 0
    → IsBare s
    → IsBalanced k s (activate h s).0 (activate h s).1
unfolding activate destroy
activate-IsBalanced k h s free bare =
    let s1 = (setup_egl h s).0 in
    let cs = (setup_egl h s).1 in
    let set = setup_egl-IsBalanced k h s free bare in
    elim (Bool-cases (setup_egl h s).2) [
      | inr failed ↦ rw failed (
          append-IsBalanced k s s1 (destroy s1).0 cs (destroy s1).1 set
            (omega (arith, made-destroy k s1, destroy-held k s1)))
      | inl done ↦ rw done (
          append-IsBalanced k s s1 (record s1 { applied = s1.geometry; valid = true }) cs
            (commit s1) set
            (commit-IsBalanced k s1 (record s1 { applied = s1.geometry; valid = true }) refl))
    ]

-- No surface is made yet.
abbrev IsUnmade : Surface → Type 0
IsUnmade s = (s.has_surface ≡ false) × (s.has_subsurface ≡ false)

make_if-weight :
    (k : Handle → ℕ) (b : Bool) (h : Handle)
    → (made k (make_if b h) ≡ weight_if k b h) × (dropped k (make_if b h) ≡ 0)
unfolding made dropped
make_if-weight k b h = ground arith

make_if-IsBalanced :
    (k : Handle → ℕ) (s : Surface) (b c : Bool)
    → IsUnmade s
    → IsBalanced k s
        (record s { has_surface = b; has_subsurface = c })
        (make_if b surface ++ make_if c subsurface)
unfolding made dropped
make_if-IsBalanced k s b c unmade =
    let s1 = record s { has_surface = b; has_subsurface = c } in
    let before = held_sum k s in
    let empty : held k s + (weight_if k b surface + weight_if k c subsurface) ≡ held k s1 =
      rw (before, held_sum k s1, unmade.0, unmade.1) (omega arith) in
    omega (
      arith,
      made-append k (make_if b surface) (make_if c subsurface),
      dropped-append k (make_if b surface) (make_if c subsurface),
      make_if-weight k b surface,
      make_if-weight k c subsurface,
    )

arrange-IsBalanced :
    (k : Handle → ℕ) (h : Host) (chrome : Option ℕ) (s : Surface)
    → IsBalanced k s s (arrange h chrome s)
unfolding arrange made dropped
arrange-IsBalanced k h chrome s = ground arith

create_surface-IsBalanced :
    (k : Handle → ℕ) (h : Host) (chrome : Option ℕ) (s : Surface)
    → k shader ≡ 0
    → IsBare s
    → IsUnmade s
    → IsBalanced k s (create_surface h chrome s).0 (create_surface h chrome s).1
unfolding create_surface
create_surface-IsBalanced k h chrome s free bare unmade =
    let s1 = record s { has_surface = h.surface_made; has_subsurface = h.subsurface_made } in
    let cs = make_if h.surface_made surface ++ make_if h.subsurface_made subsurface in
    let first = make_if-IsBalanced k s h.surface_made h.subsurface_made unmade in
    elim (Bool-cases (not h.surface_made || not h.subsurface_made)) [
      | inl failed ↦ rw failed first
      | inr done ↦ rw done (
          append-IsBalanced k s s1 (activate h s1).0 cs (arrange h chrome s1 ++ (activate h s1).1)
            first
            (append-IsBalanced k s1 s1 (activate h s1).0 (arrange h chrome s1) (activate h s1).1
              (arrange-IsBalanced k h chrome s1)
              (activate-IsBalanced k h s1 free (record {
                context = bare.context;
                egl_window = bare.egl_window;
                egl_surface = bare.egl_surface;
                program = bare.program;
                texture = bare.texture;
              }))))
    ]

attach-IsBalanced :
    (k : Handle → ℕ) (h : Host) (chrome : Option ℕ) (s : Surface)
    → k shader ≡ 0
    → AnnouncedOnce h
    → IsUnbound s
    → IsBare s
    → IsUnmade s
    → IsBalanced k s (attach h chrome s).0 (attach h chrome s).1
unfolding attach made dropped
attach-IsBalanced k h chrome s free once unbound bare unmade =
    let s1 = (bind_globals h s).0 in
    let first = bind_globals-IsBalanced k h s once unbound in
    let rest = create_surface h chrome s1 in
    elim (Bool-cases (not s.display || not (is_some s.parent))) [
      | inl no_parent ↦ rw no_parent refl
      | inr placed ↦ elim (Bool-cases (bind_globals h s).2) [
        | inr failed ↦ rw (placed, failed) first
        | inl all_bound ↦
            rw (placed, all_bound)
              (append-IsBalanced k s s1 rest.0 (bind_globals h s).1 rest.1 first (
                create_surface-IsBalanced k h chrome s1 free
                  (record {
                    context =
                        bind_globals_keeps (λ s. s.has_context) (λ s c d. refl) h s ∙ bare.context;
                    egl_window =
                        bind_globals_keeps (λ s. s.has_egl_window) (λ s c d. refl) h s
                        ∙ bare.egl_window;
                    egl_surface =
                        bind_globals_keeps (λ s. s.has_egl_surface) (λ s c d. refl) h s
                        ∙ bare.egl_surface;
                    program =
                        bind_globals_keeps (λ s. s.has_program) (λ s c d. refl) h s ∙ bare.program;
                    texture =
                        bind_globals_keeps (λ s. s.has_texture) (λ s c d. refl) h s ∙ bare.texture;
                  })
                  (
                    bind_globals_keeps (λ s. s.has_surface) (λ s c d. refl) h s ∙ unmade.0,
                    bind_globals_keeps (λ s. s.has_subsurface) (λ s c d. refl) h s ∙ unmade.1,
                  )))
      ]
    ]

pub fresh-IsBalanced :
    (k : Handle → ℕ) (h : Host) (g : Statics) (window : Option ℕ)
    → k shader ≡ 0
    → AnnouncedOnce h
    → IsBalanced k fresh (ensure_created h g window fresh).0 (ensure_created h g window fresh).1
unfolding ensure_created destroy made dropped
fresh-IsBalanced k h g none free once = refl
fresh-IsBalanced k h g (some window) free once = elim (Bool-cases h.native_interface) [
  | inr missing ↦ rw missing refl
  | inl found ↦ simp found (
      attach-IsBalanced k h g.chrome_surface
        (record fresh {
          attempted = true;
          display = h.display || h.wl_display;
          parent = h.surface_of (shell_or g.shell_window window);
        })
        free once (refl, refl)
        (record {
          context = refl;
          egl_window = refl;
          egl_surface = refl;
          program = refl;
          texture = refl;
        })
        (refl, refl))
]

-- Whatever the answers of Qt, Wayland and EGL are, and at whatever step setting the surface up fails,
-- once the surface is destroyed everything that was created has been destroyed, and exactly once: for
-- every way to weigh the kinds of handles, the two sums are equal. Shaders are left out, and the
-- registry announces each of the two globals at most once.
pub dropped-ensure_created :
    (k : Handle → ℕ) (h : Host) (g : Statics) (window : Option ℕ)
    → k shader ≡ 0
    → AnnouncedOnce h
    → let r = ensure_created h g window fresh in
      dropped k (r.1 ++ (destroy r.0).1) ≡ made k (r.1 ++ (destroy r.0).1)
dropped-ensure_created k h g window free once =
    let r = ensure_created h g window fresh in
    omega (
      arith,
      fresh-IsBalanced k h g window free once,
      dropped-append k r.1 (destroy r.0).1,
      made-append k r.1 (destroy r.0).1,
      made-destroy k r.0,
      held_sum k fresh,
    )
