-- ===== src/Droidcam/Facing.antt =====
-- Which cameras droidcam_make_devices offers.
use atlantic_engine.Base.{
  ℕ, zero, suc, ◌+◌, ◌<◌, ◌≡◌, ◌≢◌, ◌⊎◌, inl, inr, refl, sym, ap, ◌∙◌, Bool, true, false,
  Bool-cases, not, Option, none, some, List, [], ◌∷◌, ◌++◌, if◌then◌else◌, ltb, arith,
}
use mathlib.Core.Path.{subst}
use mathlib.Core.Option.{some-injective}
use atlantic_engine.Base.Int.{ℤ, rem}
use atlantic_engine.Droidcam.{
  CameraInfo, is_raw_front, Droidmedia, Glue, Linker, glue_init, both, Device, device_new, Chosen,
  nothing_chosen, choose, choose_from, rounds, chosen, device_of, list_devices, make_devices,
}

facing_matches : (front raw : Bool) → (if front then raw else not raw) ≡ true → raw ≡ front
facing_matches true raw h = h
facing_matches false true h = cc
facing_matches false false h = refl

facing_differs : (front raw : Bool) → (if front then raw else not raw) ≡ false → raw ≢ front
facing_differs true raw h e = cc (h, e)
facing_differs false true h e = cc
facing_differs false false h e = cc

module _ (get_info : ℕ → Option CameraInfo) (front : Bool) where
  -- No camera before `n` has the facing.
  abbrev pub NoneBefore : ℕ → Type 0
  NoneBefore n =
      (j : ℕ) (info : CameraInfo)
      → (j < n)
      → get_info j ≡ some info
      → (is_raw_front info.facing ≢ front)

  -- Camera `i` is the first with the facing.
  abbrev pub IsFirst : ℕ → CameraInfo → Type 0
  IsFirst i info = (get_info i ≡ some info) × (is_raw_front info.facing ≡ front) × NoneBefore i

  -- What one facing's variables hold after the cameras before `n`.
  abbrev Held : ℕ → Option ℕ → ℤ → Type 0
  Held n id rot =
      ((id ≡ none) × NoneBefore n)
      ⊎ ((i : ℕ) × (info : CameraInfo) × (i < n)
          × (id ≡ some i)
          × (rot ≡ rem info.orientation 360)
          × IsFirst i info)

  -- The round for one facing.
  pick : ℕ → Option ℕ → ℤ → Option CameraInfo → Option ℕ × ℤ
  pick i id rot none = (id, rot)
  pick i (some k) rot (some info) = (some k, rot)
  pick i none rot (some info) =
      if (if front then is_raw_front info.facing else not (is_raw_front info.facing))
      then (some i, rem info.orientation 360)
      else (none, rot)

  NoneBefore-suc :
      (n : ℕ)
      → NoneBefore n
      → ((info : CameraInfo) → get_info n ≡ some info → is_raw_front info.facing ≢ front)
      → NoneBefore (n + 1)
  NoneBefore-suc n before here j info lt e = elim (Bool-cases (ltb j n)) [
    | inl earlier ↦ before j info (ground arith) e
    | inr last ↦ let same : j ≡ n = ground arith in here info (ap get_info (sym same) ∙ e)
  ]

  pick-Held :
      (n : ℕ) (id : Option ℕ) (rot : ℤ) (o : Option CameraInfo)
      → get_info n ≡ o
      → Held n id rot
      → Held (n + 1) (pick n id rot o).0 (pick n id rot o).1
  unfolding pick
  pick-Held n id rot none e (inl (empty, before)) =
      inl (empty, NoneBefore-suc n before (λ info f. cc (e, f)))
  pick-Held n id rot none e (inr (i, first, lt, id_at, rot_at, at)) =
      inr (i, first, omega arith, id_at, rot_at, at)
  pick-Held n (some k) rot (some info) e (inl (empty, before)) = cc (empty)
  pick-Held n (some k) rot (some info) e (inr (i, first, lt, id_at, rot_at, at)) =
      inr (i, first, omega arith, id_at, rot_at, at)
  pick-Held n none rot (some info) e (inr (i, first, lt, id_at, rot_at, at)) = cc (id_at)
  pick-Held n none rot (some info) e (inl (empty, before)) =
      elim (Bool-cases
        (if front then is_raw_front info.facing else not (is_raw_front info.facing))) [
          | inl on ↦ rw on (
              inr (
                n,
                info,
                omega arith,
                refl,
                refl,
                (e, facing_matches front (is_raw_front info.facing) on, before),
              ))
          | inr off ↦ rw off (
              inl (
                refl,
                NoneBefore-suc n before (λ other f.
                    rw (some-injective _ _ (sym f ∙ e))
                      (facing_differs front (is_raw_front info.facing) off)),
              ))
        ]

-- A round of the loop is one for each facing.
choose-pick :
    (get_info : ℕ → Option CameraInfo) (c : Chosen) (i : ℕ) (o : Option CameraInfo)
    → (((choose c i o).back_id, (choose c i o).back_rot)
        ≡ pick get_info false i c.back_id c.back_rot o)
      × (((choose c i o).front_id, (choose c i o).front_rot)
          ≡ pick get_info true i c.front_id c.front_rot o)
unfolding choose pick
choose-pick get_info c i none = (refl, refl)
choose-pick get_info c i (some info) = ground arith

module _ (get_info : ℕ → Option CameraInfo) where
  abbrev BothHeld : ℕ → Chosen → Type 0
  BothHeld n c =
      Held get_info false n c.back_id c.back_rot × Held get_info true n c.front_id c.front_rot

  choose-BothHeld : (n : ℕ) (c : Chosen) → BothHeld n c → BothHeld (n + 1) (choose c n (get_info n))
  choose-BothHeld n c (back, front) =
      let rounds = choose-pick get_info c n (get_info n) in
      (
        subst (λ (p : Option ℕ × ℤ). Held get_info false (n + 1) p.0 p.1) (sym rounds.0)
            (pick-Held get_info false n c.back_id c.back_rot (get_info n) refl back),
        subst (λ (p : Option ℕ × ℤ). Held get_info true (n + 1) p.0 p.1) (sym rounds.1)
            (pick-Held get_info true n c.front_id c.front_rot (get_info n) refl front),
      )

  choose_from-BothHeld :
      (n i m : ℕ) (c : Chosen) → i + n ≡ m → BothHeld i c → BothHeld m (choose_from get_info n i c)
  unfolding choose_from
  choose_from-BothHeld zero i m c e held =
      let same : i ≡ m = omega arith in subst (λ k. BothHeld k c) same held
  choose_from-BothHeld (suc n) i m c e held =
      choose_from-BothHeld n (i + 1) m (choose c i (get_info i)) (omega arith)
        (choose-BothHeld i c held)

  nothing-BothHeld : BothHeld 0 nothing_chosen
  nothing-BothHeld =
      (inl (refl, λ j info lt e f. omega arith), inl (refl, λ j info lt e f. omega arith))

-- The devices offered for a facing: none if no camera has it, and else one for the first that has
-- it, turned by its mount angle.
abbrev pub Offered : Droidmedia → Bool → List Device → Type 0
Offered media front devices =
    ((devices ≡ []) × NoneBefore media.get_info front (rounds media.get_num))
    ⊎ ((i : ℕ) × (info : CameraInfo) × (i < rounds media.get_num)
        × (devices ≡ device_new i front (rem info.orientation 360) ∷ [])
        × IsFirst media.get_info front i info)

device_of-Offered :
    (media : Droidmedia) (front : Bool) (id : Option ℕ) (rot : ℤ)
    → Held media.get_info front (rounds media.get_num) id rot
    → Offered media front (device_of id front rot)
unfolding device_of
device_of-Offered media front none rot (inl (e, before)) = inl (refl, before)
device_of-Offered media front none rot (inr (i, info, lt, at, turn, first)) = cc (at)
device_of-Offered media front (some k) rot (inl (e, before)) = cc (e)
device_of-Offered media front (some k) rot (inr (i, info, lt, at, turn, first)) =
    inr (i, info, lt, rw (some-injective _ _ at, turn), first)

-- When droidcamsrc is there and droidmedia can be reached, the devices are those offered for the
-- back, and then those offered for the front. For each facing that is none if no camera has it, and
-- else one, for the first camera that has it, turned by its mount angle.
pub make_devices_first :
    (l : Linker) (s : Option Glue) (media : Droidmedia)
    → both (glue_init l s) ≡ some media
    → (back front : List Device) × ((make_devices true l s).0 ≡ back ++ front)
      × Offered media false back
      × Offered media true front
unfolding make_devices list_devices chosen
make_devices_first l s media eq =
    let n = rounds media.get_num in
    let c = choose_from media.get_info n 0 nothing_chosen in
    let (back, front) =
      choose_from-BothHeld media.get_info n 0 n nothing_chosen (omega arith)
        (nothing-BothHeld media.get_info) in
    (
      device_of c.back_id false c.back_rot,
      device_of c.front_id true c.front_rot,
      ap (λ m. list_devices (chosen m)) eq,
      device_of-Offered media false c.back_id c.back_rot back,
      device_of-Offered media true c.front_id c.front_rot front,
    )
