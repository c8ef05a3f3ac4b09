-- ===== src/Qt/View/Chrome/Balanced.antt =====
-- What a view makes for its chrome overlay is destroyed with the view.
use atlantic_engine.Base.{
  ℕ, ◌+◌, Bool, false, ◌≤◌, ◌≡◌, refl, ap, not, ◌||◌, Option, none, some, List, [], ◌∷◌, ◌++◌,
  arith, map, codes, Bool-cases, inl, inr,
}
use atlantic_engine.Qt.Frames.{is_some}
use atlantic_engine.Qt.Subsurface.Handles.{count}
use atlantic_engine.Qt.Overlay.Setup.{Part, Call, Host, Parts, create, destroy}
use atlantic_engine.Qt.Overlay.Setup.Balance.{
  made, dropped, made-append, dropped-append, made-destroy, new_parts,
}
use atlantic_engine.Qt.Overlay.Setup.Bound.{create-IsBalanced, new-held}
use atlantic_engine.Qt.Overlay.Setup.Lasting.{lasting, made-create}
use atlantic_engine.Qt.View.{Setup, Request}
use atlantic_engine.Qt.View.Closing.{Farewell, destroy_view}
use atlantic_engine.Qt.View.Chrome.{
  Platform, Act, asked, on_overlay, leave, Tab, web_content_surface, set_web_surface, overlay_host,
  surface_valid, make_overlay, create_chrome_overlay_now, delete_overlay, destroy_tab,
  overlay_calls,
}

-- What the overlay of a view still has to destroy.
unfoldable pub chrome_held : (Part → ℕ) → Option Parts → ℕ
chrome_held k none = 0
chrome_held k (some o) = dropped k (destroy o).1

pub overlay_calls-append :
    (xs ys : List Act) → overlay_calls (xs ++ ys) ≡ overlay_calls xs ++ overlay_calls ys
unfolding overlay_calls
overlay_calls-append [] ys = refl
overlay_calls-append (on_overlay call ∷ xs) ys = ap (λ cs. call ∷ cs) (overlay_calls-append xs ys)
overlay_calls-append (act ∷ xs) ys = overlay_calls-append xs ys

overlay_calls-on_overlay : (cs : List Call) → overlay_calls (map on_overlay cs) ≡ cs
unfolding overlay_calls
overlay_calls-on_overlay [] = refl
overlay_calls-on_overlay (c ∷ cs) = ap (λ cs. c ∷ cs) (overlay_calls-on_overlay cs)

pub overlay_calls-asked : (rs : List Request) → overlay_calls (map asked rs) ≡ []
unfolding overlay_calls
overlay_calls-asked [] = refl
overlay_calls-asked (r ∷ rs) = overlay_calls-asked rs

overlay_calls-leave : (fs : List Farewell) → overlay_calls (map leave fs) ≡ []
unfolding overlay_calls
overlay_calls-leave [] = refl
overlay_calls-leave (f ∷ fs) = overlay_calls-leave fs

overlay_calls-set_web_surface :
    (o : Parts) (web : Option ℕ) → overlay_calls (set_web_surface o web) ≡ []
unfolding overlay_calls set_web_surface
overlay_calls-set_web_surface o none = refl
overlay_calls-set_web_surface o (some web) = ground arith

-- What the actions create and what was held are what they destroy, what is held afterwards, and the
-- shaders and programs that they create.
abbrev Balances : (Part → ℕ) → Option Parts → Option Parts → List Act → Type 0
Balances k c c' acts =
    made k (overlay_calls acts) + chrome_held k c
    ≡ dropped k (overlay_calls acts) + (chrome_held k c' + made (lasting k) (overlay_calls acts))

append-Balances :
    (k : Part → ℕ) (c c1 c2 : Option Parts) (xs ys : List Act)
    → Balances k c c1 xs
    → Balances k c1 c2 ys
    → Balances k c c2 (xs ++ ys)
append-Balances k c c1 c2 xs ys first second = rw (overlay_calls-append xs ys) (
    omega (
      arith,
      made-append k (overlay_calls xs) (overlay_calls ys),
      made-append (lasting k) (overlay_calls xs) (overlay_calls ys),
      dropped-append k (overlay_calls xs) (overlay_calls ys),
    ))

still-Balances : (k : Part → ℕ) (c : Option Parts) → Balances k c c []
unfolding overlay_calls made dropped
still-Balances k c = omega arith

-- Each of the two globals of Wayland is announced at most once.
pub record IsAnnouncedOnce (h : Host) : Type 0 where
  pub compositor : count (codes "wl_compositor") h.globals ≤ 1
  pub subcompositor : count (codes "wl_subcompositor") h.globals ≤ 1

nothing : (k : Part → ℕ) → (made k [] ≡ 0) × (dropped k [] ≡ 0)
unfolding made dropped
nothing k = (refl, refl)

make_overlay-Balances :
    (k : Part → ℕ) (e : Setup) (h : Host) (t : Tab)
    → t.chrome ≡ none
    → IsAnnouncedOnce h
    → let r = make_overlay e h t in Balances k t.chrome r.0.chrome r.1
unfolding make_overlay chrome_held
make_overlay-Balances k e h t bare once =
    let r = create h t.view.statics new_parts in
    let created = create-IsBalanced k h t.view.statics once.compositor once.subcompositor in
    let empty = new-held k in
    let blitted = made-create k h t.view.statics once.compositor once.subcompositor in
    elim (Bool-cases (not r.3)) [
      | inl failed ↦
          rw (failed, bare, overlay_calls-on_overlay (r.2 ++ (destroy r.1).1))
            (omega (
              arith,
              made-append k r.2 (destroy r.1).1,
              dropped-append k r.2 (destroy r.1).1,
              made-destroy k r.1,
              made-append (lasting k) r.2 (destroy r.1).1,
              made-destroy (lasting k) r.1,
              blitted,
            ))
      | inr done ↦
          let web = web_content_surface e t.view in
          rw
            (
              done,
              bare,
              overlay_calls-append (map on_overlay r.2) (set_web_surface r.1 web),
              overlay_calls-on_overlay r.2,
              overlay_calls-set_web_surface r.1 web,
            )
            (omega (
              arith,
              made-append k r.2 [],
              made-append (lasting k) r.2 [],
              dropped-append k r.2 [],
              nothing k,
              nothing (lasting k),
              blitted,
            ))
    ]

is_none : (c : Option Parts) → is_some c ≡ false → c ≡ none
is_none none unset = refl
is_none (some o) unset = ground arith

pub create_now-Balances :
    (k : Part → ℕ) (e : Setup) (p : Platform) (t : Tab)
    → IsAnnouncedOnce p.host
    → let r = create_chrome_overlay_now e p t in Balances k t.chrome r.0.chrome r.1
unfolding create_chrome_overlay_now overlay_host
create_now-Balances k e p t once =
    let h = overlay_host p t.view.size in
    let still = still-Balances k t.chrome in
    elim (Bool-cases (is_some t.chrome || not (surface_valid t.view.subsurface))) [
      | inl kept ↦ rw kept still
      | inr open_ ↦ elim (Bool-cases (not (is_some e.window) || not p.native_interface)) [
        | inl outside ↦ rw (open_, outside) still
        | inr inside ↦ elim (Bool-cases ((not h.display || not h.parent) || h.size_empty)) [
          | inl closed ↦ rw (open_, inside, closed) still
          | inr found ↦
              rw (open_, inside, found)
                (make_overlay-Balances k e h t (is_none t.chrome (ground arith))
                  (record { compositor = once.compositor; subcompositor = once.subcompositor }))
        ]
      ]
    ]

delete-Balances : (k : Part → ℕ) (c : Option Parts) → Balances k c none (delete_overlay c)
unfolding delete_overlay chrome_held overlay_calls made dropped
delete-Balances k none = refl
delete-Balances k (some o) =
    rw (overlay_calls-on_overlay (destroy o).1)
      (omega (arith, made-destroy k o, made-destroy (lasting k) o))

pub destroy_tab-Balances :
    (k : Part → ℕ) (has_list : Bool) (t : Tab) → Balances k t.chrome none (destroy_tab has_list t)
unfolding destroy_tab made dropped
destroy_tab-Balances k has_list t =
    let rest = destroy_view has_list (record t.view { overlay = false }) in
    append-Balances k t.chrome none none (delete_overlay t.chrome) (map leave rest)
      (delete-Balances k t.chrome) (rw (overlay_calls-leave rest) (omega arith))
