-- ===== src/Qt/Touch/Replay.antt =====
-- What the series of events tells WebKit, against the set of announced points.
pub mod Release
use atlantic_engine.Base.{
  ℕ, ◌≡◌, refl, sym, ap, ◌∙◌, Bool, true, false, Bool-cases, not, ◌&&◌, ◌||◌, Option, none, some,
  List, [], ◌∷◌, ◌++◌, ◌==◌, if◌then◌else◌, All, arith, Option-cases, inl, inr, ◌>>=◌, append_assoc,
}
use mathlib.Core.Path.{subst}
use mathlib.Core.Option.{some-injective}
use atlantic_engine.Base.Int.{ℤ}
use atlantic_engine.Qt.Touch.{
  Point, Kind, begin, update, end, cancel, Change, down, up, motion, Raw, Touch, contains, remove,
  is_pressed, is_moved, is_released, raw_points, emit, dispatch_one, press, find_moved, move, lift,
  change, dispatch_touch_event,
}

-- The fingers that are down after an event, from those before it. The event makes no sense if a
-- finger goes down that is down, or if one that is not down moves or goes up.
abbrev pub follow : Change → ℕ → List ℕ → Option (List ℕ)
follow down id fingers = if contains id fingers then none else some (id ∷ fingers)
follow motion id fingers = if contains id fingers then some fingers else none
follow up id fingers = if contains id fingers then some (remove id fingers) else none

unfoldable pub replay : List ℕ → List Touch → Option (List ℕ)
replay fingers [] = some fingers
replay fingers (e ∷ es) = follow e.type e.id fingers >>= λ fingers'. replay fingers' es

replay-append :
    (s s' : List ℕ) (xs ys : List Touch)
    → replay s xs ≡ some s'
    → replay s (xs ++ ys) ≡ replay s' ys
unfolding replay
replay-append s s' [] ys h = ground arith
replay-append s s' (e ∷ es) ys h = elim (Option-cases (follow e.type e.id s)) [
  | inl stuck ↦ cc (h, stuck)
  | inr (t, eq) ↦ rw eq (replay-append t s' es ys (rw eq at h))
]

abbrev pub has_id : {C : Type 0} → ℕ → List (Point C) → Bool
has_id id [] = false
has_id id (p ∷ ps) = id == p.id || has_id id ps

module _ {C : Type 0} (to_logical : C → ℤ) (time modifiers : ℕ) where
  raw_points_some :
      (points : List (Point C)) (announced : List ℕ) (type : Change) (id : ℕ)
      → has_id id points ≡ true
      → contains id announced ≡ true
      → (r : Raw) × (rs : List Raw) × (raw_points to_logical time modifiers points announced type id
          ≡ r ∷ rs)
  unfolding raw_points
  raw_points_some [] announced type id here known = cc
  raw_points_some (p ∷ ps) announced type id here known =
      elim (Bool-cases (contains p.id announced)) [
        | inl on ↦ (
          record {
            type = if p.id == id then type else motion;
            time = time;
            id = p.id;
            x = to_logical p.x;
            y = to_logical p.y;
          },
          raw_points to_logical time modifiers ps announced type id,
          rw on refl,
        )
        | inr off ↦
            let other : (id == p.id) ≡ false = distinct id p.id announced known off in
            let (r, rs, eq) = raw_points_some ps announced type id (ground arith) known in
            (r, rs, rw off eq)
      ]
    where
      distinct :
          (i j : ℕ) (ids : List ℕ)
          → contains i ids ≡ true
          → contains j ids ≡ false
          → (i == j) ≡ false
      distinct i j ids yes_i no_j = elim (Bool-cases (i == j)) [
        | inl same ↦ let e : i ≡ j = ground arith in cc (ap (λ k. contains k ids) e, yes_i, no_j)
        | inr other ↦ other
      ]

  emit-replay :
      (fingers : List ℕ) (r : Raw) (rs : List Raw) (type : Change) (id : ℕ)
      → replay fingers (emit to_logical time modifiers (r ∷ rs) type id) ≡ follow type id fingers
  unfolding replay emit
  emit-replay fingers r rs type id = bind_some (follow type id fingers)
    where
      bind_some : (o : Option (List ℕ)) → (o >>= λ s. some s) ≡ o
      bind_some none = refl
      bind_some (some s) = refl

  -- An announced point is on its event, so the event goes out.
  dispatch_one-replay :
      (points : List (Point C)) (announced fingers : List ℕ) (type : Change) (id : ℕ)
      → has_id id points ≡ true
      → contains id announced ≡ true
      → replay fingers (dispatch_one to_logical time modifiers points announced type id)
        ≡ follow type id fingers
  unfolding dispatch_one
  dispatch_one-replay points announced fingers type id here known =
      let (r, rs, eq) = raw_points_some points announced type id here known in
      rw eq (emit-replay fingers r rs type id)

  abbrev AllIn : List (Point C) → List (Point C) → Type 0
  AllIn points rest = All (λ p. has_id p.id points ≡ true) rest

  press-replay :
      (points rest : List (Point C)) (announced : List ℕ)
      → AllIn points rest
      → replay announced (press to_logical time modifiers points rest announced).1
        ≡ some (press to_logical time modifiers points rest announced).0
  unfolding press replay
  press-replay points [] announced all_in = refl
  press-replay points (p ∷ rest) announced all_in =
      elim (Bool-cases (is_pressed p.state && not (contains p.id announced))) [
        | inr off ↦ rw off (press-replay points rest announced all_in.1)
        | inl on ↦
            let fresh : contains p.id announced ≡ false = ground arith in
            let known : contains p.id (p.id ∷ announced) ≡ true = ground arith in
            let goes : replay announced
                  (dispatch_one to_logical time modifiers points (p.id ∷ announced) down p.id)
                ≡ some (p.id ∷ announced) =
              dispatch_one-replay points (p.id ∷ announced) announced down p.id all_in.0 known
              ∙ rw fresh refl in
            rw on (
              replay-append announced (p.id ∷ announced) _ _ goes
              ∙ press-replay points rest (p.id ∷ announced) all_in.1)
      ]

  lift-replay :
      (all : Bool) (points rest : List (Point C)) (announced : List ℕ)
      → AllIn points rest
      → replay announced (lift to_logical time modifiers all points rest announced).1
        ≡ some (lift to_logical time modifiers all points rest announced).0
  unfolding lift replay
  lift-replay all points [] announced all_in = refl
  lift-replay all points (p ∷ rest) announced all_in =
      elim (Bool-cases ((is_released p.state || all) && contains p.id announced)) [
        | inr off ↦ rw off (lift-replay all points rest announced all_in.1)
        | inl on ↦
            let known : contains p.id announced ≡ true = ground arith in
            let goes : replay announced
                  (dispatch_one to_logical time modifiers points announced up p.id)
                ≡ some (remove p.id announced) =
              dispatch_one-replay points announced announced up p.id all_in.0 known
              ∙ rw known refl in
            rw on (
              replay-append announced (remove p.id announced) _ _ goes
              ∙ lift-replay all points rest (remove p.id announced) all_in.1)
      ]

  find_moved-some :
      (points rest : List (Point C)) (announced : List ℕ) (id : ℕ)
      → AllIn points rest
      → find_moved to_logical time modifiers rest announced ≡ some id
      → (has_id id points ≡ true) × (contains id announced ≡ true)
  unfolding find_moved
  find_moved-some points [] announced id all_in e = cc (e)
  find_moved-some points (p ∷ rest) announced id all_in e =
      elim (Bool-cases (is_moved p.state && contains p.id announced)) [
        | inr off ↦ find_moved-some points rest announced id all_in.1 (rw off at e)
        | inl on ↦
            let same : p.id ≡ id = some-injective _ _ (rw on at e) in
            let known : contains p.id announced ≡ true = ground arith in
            (
              sym (ap (λ i. has_id i points) same) ∙ all_in.0,
              sym (ap (λ i. contains i announced) same) ∙ known,
            )
      ]

  points-AllIn : (points : List (Point C)) → AllIn points points
  points-AllIn points = suffix [] points
    where
      within : (front rest : List (Point C)) (p : Point C) → has_id p.id (front ++ p ∷ rest) ≡ true
      within [] rest p = ground arith
      within (q ∷ front) rest p = ground (arith, within front rest p)

      suffix : (front rest : List (Point C)) → AllIn (front ++ rest) rest
      suffix front [] = tt
      suffix front (p ∷ rest) = (
        within front rest p,
        subst (λ ps. All (λ q. has_id q.id ps ≡ true) rest) (append_assoc front (p ∷ []) rest)
            (suffix (front ++ p ∷ []) rest),
      )

  move-replay :
      (points : List (Point C)) (announced : List ℕ) (found : Option ℕ)
      → find_moved to_logical time modifiers points announced ≡ found
      → replay announced (move to_logical time modifiers points announced found) ≡ some announced
  unfolding move replay
  move-replay points announced none e = refl
  move-replay points announced (some id) e =
      let (here, known) = find_moved-some points points announced id (points-AllIn points) e in
      dispatch_one-replay points announced announced motion id here known ∙ rw known refl

  change-replay :
      (all : Bool) (points : List (Point C)) (announced : List ℕ)
      → replay announced (change to_logical time modifiers all points announced).1
        ≡ some (change to_logical time modifiers all points announced).0
  unfolding change
  change-replay all points announced =
      let all_in = points-AllIn points in
      let s1 = (press to_logical time modifiers points points announced).0 in
      replay-append announced s1 _ _ (press-replay points points announced all_in)
      ∙ (replay-append s1 s1 _ _
            (move-replay points s1 (find_moved to_logical time modifiers points s1) refl)
          ∙ lift-replay all points points s1 all_in)

  -- The event is no start of a sequence that begins with announced points still there, and no
  -- cancellation.
  abbrev pub IsRegular : Kind → List ℕ → Type 0
  IsRegular begin announced = announced ≡ []
  IsRegular update announced = Unit
  IsRegular end announced = Unit
  IsRegular cancel announced = ⊥

  -- WebKit can follow the dispatched events one by one: no finger goes down twice, and none moves or
  -- goes up that is not down. The fingers that are down afterwards are the set of announced points.
  -- That is for every event but a cancellation, and a start only if no point is still announced.
  pub dispatch_touch_event-replay :
      (kind : Kind) (points : List (Point C)) (announced : List ℕ)
      → IsRegular kind announced
      → let r = dispatch_touch_event to_logical time modifiers kind points announced in
        replay announced r.1 ≡ some r.0
  unfolding dispatch_touch_event replay
  dispatch_touch_event-replay begin [] announced regular = refl
  dispatch_touch_event-replay update [] announced regular = refl
  dispatch_touch_event-replay end [] announced regular = refl
  dispatch_touch_event-replay cancel [] announced regular = refl
  dispatch_touch_event-replay begin (p ∷ ps) announced regular =
      rw regular (change-replay false (p ∷ ps) [])
  dispatch_touch_event-replay update (p ∷ ps) announced regular =
      change-replay false (p ∷ ps) announced
  dispatch_touch_event-replay end (p ∷ ps) announced regular = change-replay true (p ∷ ps) announced
  dispatch_touch_event-replay cancel (p ∷ ps) announced regular = absurd regular
