-- ===== src/Qt/Touch/Replay/Release.antt =====
-- How a touch sequence ends.
use atlantic_engine.Base.{
  ℕ, ◌≡◌, refl, ap, ◌∙◌, true, false, Bool-cases, not, ◌&&◌, ◌||◌, some, List, [], ◌∷◌, ◌==◌, All,
  arith, inl, inr,
}
use atlantic_engine.Base.Int.{ℤ}
use atlantic_engine.Qt.Touch.{
  Point, Kind, begin, update, end, cancel, contains, remove, is_released, is_pressed, press, lift,
  change, dispatch_touch_event,
}
use atlantic_engine.Qt.Touch.Replay.{replay, has_id, lift-replay, change-replay, points-AllIn}

-- Every announced point is on the event.
abbrev pub Covers : {C : Type 0} → List (Point C) → List ℕ → Type 0
Covers points announced = All (λ id. has_id id points ≡ true) announced

Covers-nil : (C : Type 0) (ids : List ℕ) → Covers {C = C} [] ids → ids ≡ []
Covers-nil C [] cover = refl
Covers-nil C (j ∷ ids) cover = cc (cover.0)

remove-Covers :
    {C : Type 0} (p : Point C) (rest : List (Point C)) (ids : List ℕ)
    → Covers (p ∷ rest) ids
    → Covers rest (remove p.id ids)
remove-Covers p rest [] cover = tt
remove-Covers p rest (j ∷ ids) cover = elim (Bool-cases (p.id == j)) [
  | inl same ↦ rw same (remove-Covers p rest ids cover.1)
  | inr other ↦
      let apart : (j == p.id) ≡ false = ground arith in
      rw other (rw apart at cover.0, remove-Covers p rest ids cover.1)
]

absent-Covers :
    {C : Type 0} (p : Point C) (rest : List (Point C)) (ids : List ℕ)
    → contains p.id ids ≡ false
    → Covers (p ∷ rest) ids
    → Covers rest ids
absent-Covers p rest [] off cover = tt
absent-Covers p rest (j ∷ ids) off cover =
    let apart : (j == p.id) ≡ false = ground arith in
    (rw apart at cover.0, absent-Covers p rest ids (ground arith) cover.1)

module _ {C : Type 0} (to_logical : C → ℤ) (time modifiers : ℕ) where
  lift_all :
      (points rest : List (Point C)) (announced : List ℕ)
      → Covers rest announced
      → (lift to_logical time modifiers true points rest announced).0 ≡ []
  unfolding lift
  lift_all points [] announced cover = Covers-nil C announced cover
  lift_all points (p ∷ rest) announced cover =
      elim (Bool-cases ((is_released p.state || true) && contains p.id announced)) [
        | inl on ↦
            rw on
              (lift_all points rest (remove p.id announced) (remove-Covers p rest announced cover))
        | inr off ↦
            let missing : contains p.id announced ≡ false = ground arith in
            rw off (lift_all points rest announced (absent-Covers p rest announced missing cover))
      ]

  press-Covers :
      (points rest : List (Point C)) (announced : List ℕ)
      → All (λ p. has_id p.id points ≡ true) rest
      → Covers points announced
      → Covers points (press to_logical time modifiers points rest announced).0
  unfolding press
  press-Covers points [] announced all_in cover = cover
  press-Covers points (p ∷ rest) announced all_in cover =
      elim (Bool-cases (is_pressed p.state && not (contains p.id announced))) [
        | inl on ↦ rw on (press-Covers points rest (p.id ∷ announced) all_in.1 (all_in.0, cover))
        | inr off ↦ rw off (press-Covers points rest announced all_in.1 cover)
      ]

  abbrev pub IsLast : Kind → Type 0
  IsLast begin = ⊥
  IsLast update = ⊥
  IsLast end = Unit
  IsLast cancel = Unit

  -- An event that ends or cancels the sequence, and that carries every announced point, lifts every
  -- finger: WebKit can follow its events to the state in which no finger is down, whatever the states
  -- of its points, and no point stays announced.
  pub dispatch_touch_event_last :
      (kind : Kind) (points : List (Point C)) (announced : List ℕ)
      → IsLast kind
      → Covers points announced
      → let r = dispatch_touch_event to_logical time modifiers kind points announced in
        (r.0 ≡ []) × (replay announced r.1 ≡ some [])
  unfolding dispatch_touch_event change replay
  dispatch_touch_event_last begin points announced last cover = absurd last
  dispatch_touch_event_last update points announced last cover = absurd last
  dispatch_touch_event_last end [] announced last cover =
      let gone = Covers-nil C announced cover in (gone, ap some gone)
  dispatch_touch_event_last cancel [] announced last cover =
      let gone = Covers-nil C announced cover in (gone, ap some gone)
  dispatch_touch_event_last end (p ∷ ps) announced last cover =
      let all = p ∷ ps in
      let s1 = (press to_logical time modifiers all all announced).0 in
      let gone : (lift to_logical time modifiers true all all s1).0 ≡ [] =
        lift_all all all s1
          (press-Covers all all announced (points-AllIn to_logical time modifiers all) cover) in
      (gone, change-replay to_logical time modifiers true all announced ∙ ap some gone)
  dispatch_touch_event_last cancel (p ∷ ps) announced last cover =
      let gone = lift_all (p ∷ ps) (p ∷ ps) announced cover in
      (
        refl,
        lift-replay to_logical time modifiers true (p ∷ ps) (p ∷ ps) announced
              (points-AllIn to_logical time modifiers (p ∷ ps))
            ∙ ap some gone,
      )
