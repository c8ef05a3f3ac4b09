-- ===== src/Qt/Overlay/Setup/Bound.antt =====
-- What the chrome overlay creates is destroyed, over the whole of creating it.
use atlantic_engine.Base.{
  ℕ, ◌+◌, ◌≤◌, ◌≡◌, refl, sym, Bool, true, false, not, ◌||◌, List, [], ◌∷◌, ◌++◌, if◌then◌else◌,
  arith, Bytes, codes, streq, Bool-cases, inl, inr,
}
use mathlib.Core.Path.{subst}
use atlantic_engine.Qt.Subsurface.{Statics}
use atlantic_engine.Qt.Subsurface.Handles.{count}
use atlantic_engine.Qt.Overlay.Setup.{
  Part, compositor, subcompositor, Call, make, Host, Parts, on_registry_global, announce,
  bind_globals, destroy, publish, create,
}
use atlantic_engine.Qt.Overlay.Setup.Balance.{
  made, dropped, blit, made-append, dropped-append, held, made-destroy, IsBalanced,
  append-IsBalanced, bound, new_parts,
}
use atlantic_engine.Qt.Overlay.Setup.Surfaced.{publish-IsBalanced}

abbrev one_if : Bool → ℕ
one_if b = if b then 1 else 0

-- The registry announces what it has, and nothing but the two globals changes.
record Announced (k : Part → ℕ) (o o' : Parts) (calls : List Call) : Type 0 where
  c' : Bool
  d' : Bool
  same : o' ≡ bound c' d'
  balanced : IsBalanced k o o' calls

prepend-Announced :
    (k : Part → ℕ) (o o1 o' : Parts) (cs calls : List Call)
    → IsBalanced k o o1 cs
    → Announced k o1 o' calls
    → Announced k o o' (cs ++ calls)
prepend-Announced k o o1 o' cs calls first rest = record {
  c' = rest.c';
  d' = rest.d';
  same = rest.same;
  balanced = append-IsBalanced k o o1 o' cs calls first rest.balanced;
}

unset_if : (b : Bool) (n : ℕ) → one_if b + (1 + n) ≤ 1 → (b ≡ false) × (1 + n ≤ 1)
unset_if b n h = ground arith

bind-IsBalanced :
    (k : Part → ℕ) (c d : Bool)
    → IsBalanced k (bound false d) (bound true d) (make compositor ∷ [])
      × IsBalanced k (bound c false) (bound c true) (make subcompositor ∷ [])
unfolding made dropped destroy
bind-IsBalanced k c d = ground arith

announce-Announced :
    (k : Part → ℕ) (c d : Bool) (gs : List Bytes)
    → one_if c + count (codes "wl_compositor") gs ≤ 1
    → one_if d + count (codes "wl_subcompositor") gs ≤ 1
    → Announced k (bound c d) (announce (bound c d) gs).0 (announce (bound c d) gs).1
unfolding announce count on_registry_global made dropped
announce-Announced k c d [] once1 once2 = record { c' = c; d' = d; same = refl; balanced = refl }
announce-Announced k c d (g ∷ gs) once1 once2 =
    elim (Bool-cases (streq g (codes "wl_compositor"))) [
      | inl is_first ↦
          let (unset, rest1) =
            unset_if c (count (codes "wl_compositor") gs) (rw is_first at once1) in
          let rest2 : one_if d + count (codes "wl_subcompositor") gs ≤ 1 = omega arith in
          rw (is_first, unset)
            (prepend-Announced k (bound false d) (bound true d) (announce (bound true d) gs).0
              (make compositor ∷ []) (announce (bound true d) gs).1 (bind-IsBalanced k c d).0
              (announce-Announced k true d gs rest1 rest2))
      | inr not_first ↦ elim (Bool-cases (streq g (codes "wl_subcompositor"))) [
        | inl is_second ↦
            let (unset, rest2) =
              unset_if d (count (codes "wl_subcompositor") gs) (rw is_second at once2) in
            rw (not_first, is_second, unset)
              (prepend-Announced k (bound c false) (bound c true) (announce (bound c true) gs).0
                (make subcompositor ∷ []) (announce (bound c true) gs).1 (bind-IsBalanced k c d).1
                (announce-Announced k c true gs (omega arith) rest2))
        | inr not_second ↦
            rw (not_first, not_second) (announce-Announced k c d gs (omega arith) (omega arith))
      ]
    ]

bind_globals-Announced :
    (k : Part → ℕ) (h : Host)
    → count (codes "wl_compositor") h.globals ≤ 1
    → count (codes "wl_subcompositor") h.globals ≤ 1
    → Announced k new_parts (bind_globals h new_parts).0 (bind_globals h new_parts).1
unfolding bind_globals made dropped
bind_globals-Announced k h once1 once2 = elim (Bool-cases (not h.queue_made)) [
  | inl no_queue ↦ rw no_queue (record { c' = false; d' = false; same = refl; balanced = refl })
  | inr queue ↦ rw queue (announce-Announced k false false h.globals (omega arith) (omega arith))
]

pub new-held : (k : Part → ℕ) → held k new_parts ≡ 0
unfolding dropped destroy
new-held k = refl

pub create-IsBalanced :
    (k : Part → ℕ) (h : Host) (g : Statics)
    → count (codes "wl_compositor") h.globals ≤ 1
    → count (codes "wl_subcompositor") h.globals ≤ 1
    → let r = create h g new_parts in IsBalanced k new_parts r.1 r.2
unfolding create made dropped
create-IsBalanced k h g once1 once2 =
    let first = bind_globals-Announced k h once1 once2 in
    let o1 = (bind_globals h new_parts).0 in
    let second : IsBalanced k o1 (publish h g o1).1 (publish h g o1).2 =
      subst (λ o. IsBalanced k o (publish h g o).1 (publish h g o).2) (sym first.same)
        (publish-IsBalanced k h g first.c' first.d') in
    let both =
      append-IsBalanced k new_parts o1 (publish h g o1).1 (bind_globals h new_parts).1
        (publish h g o1).2 first.balanced second in
    elim (Bool-cases ((not h.display || not h.parent) || h.size_empty)) [
      | inl closed ↦ rw closed refl
      | inr open_ ↦ elim (Bool-cases (not (bind_globals h new_parts).2)) [
        | inl missing ↦ rw (open_, missing) first.balanced
        | inr found ↦ rw (open_, found) both
      ]
    ]

-- Whatever step of creating the chrome overlay fails, and if none does, all that was created by the
-- time that the overlay is destroyed has been destroyed exactly once, but for the blit program and its
-- two shaders, which stay once they are made. The registry announces each of the two globals at most
-- once.
dropped-create :
    (k : Part → ℕ) (h : Host) (g : Statics)
    → count (codes "wl_compositor") h.globals ≤ 1
    → count (codes "wl_subcompositor") h.globals ≤ 1
    → let r = create h g new_parts in
      let calls = r.2 ++ (destroy r.1).1 in dropped k calls + blit k r.1.has_program ≡ made k calls
dropped-create k h g once1 once2 =
    let r = create h g new_parts in
    omega (
      arith,
      made-append k r.2 (destroy r.1).1,
      dropped-append k r.2 (destroy r.1).1,
      made-destroy k r.1,
      create-IsBalanced k h g once1 once2,
      new-held k,
    )
