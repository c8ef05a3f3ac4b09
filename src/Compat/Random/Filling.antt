-- ===== src/Compat/Random/Filling.antt =====
-- How much of the buffer arc4random_buf fills.
use atlantic_engine.Base.{
  ℕ, zero, suc, ◌+◌, ◌-◌, ◌<◌, ◌≤◌, ◌≡◌, ◌⊎◌, inl, inr, refl, sym, ap, ◌∙◌, true, Bool-cases,
  Option, none, some, List, [], ◌∷◌, ◌++◌, append_assoc, ltb, length, length-append, drop,
  drop-drop, length-drop, take_all, Bytes, arith,
}
use mathlib.Core.Path.{ap₂}
use atlantic_engine.Compat.Strings.Laws.{memcpy_lem}
use atlantic_engine.Compat.Random.{GetRandom, store, round, fill_from, arc4random_buf}

-- getrandom stores no more than it is asked for.
abbrev pub Fits : GetRandom → Type 0
Fits getrandom = (calls n : ℕ) (bytes : Bytes) → getrandom calls n ≡ some bytes → length bytes ≤ n

abbrev pub join : List Bytes → Bytes
join [] = []
join (c ∷ chunks) = c ++ join chunks

module _ (getrandom : GetRandom) (nbytes : ℕ) where
  -- The chunks are what the calls from number `calls` on stored, each asked for the bytes that
  -- were left, and the last call failed, stored nothing or left nothing to ask for.
  abbrev pub Given : ℕ → ℕ → List Bytes → Type 0
  Given done calls [] =
      (nbytes ≤ done)
      ⊎ ((getrandom calls (nbytes - done) ≡ none) ⊎ (getrandom calls (nbytes - done) ≡ some []))
  Given done calls (c ∷ chunks) =
      (getrandom calls (nbytes - done) ≡ some c) × Given (done + length c) (calls + 1) chunks

  store_lem :
      (pre post bytes : Bytes)
      → length bytes ≤ length post
      → store (pre ++ post) (length pre) bytes ≡ (pre ++ bytes) ++ drop (length bytes) post
  unfolding store
  store_lem pre post bytes h =
      memcpy_lem pre post bytes (length pre) (length bytes) refl (omega arith) h
      ∙ ap (λ t. pre ++ (t ++ drop (length bytes) post))
          (take_all bytes (length bytes) (omega arith))
      ∙ sym (append_assoc pre bytes (drop (length bytes) post))

  -- The loop's result on a buffer whose first part is filled.
  abbrev Filled : Bytes → Bytes → ℕ → ℕ → Type 0
  Filled pre post fuel calls =
      (chunks : List Bytes) × (fill_from getrandom fuel (pre ++ post) nbytes (length pre) calls
        ≡ some (
          pre ++ (join chunks ++ drop (length (join chunks)) post),
          length pre + length (join chunks),
        ))
      × (length pre + length (join chunks) ≤ nbytes)
      × Given (length pre) calls chunks

  stop_eq :
      (fuel : ℕ) (buf : Bytes) (done calls : ℕ)
      → Given done calls []
      → fill_from getrandom (suc fuel) buf nbytes done calls ≡ some (buf, done)
  unfolding fill_from round
  stop_eq fuel buf done calls why = elim (Bool-cases (ltb done nbytes)) [
    | inr off ↦ rw off
    | inl on ↦ elim why [
      | inl full ↦ absurd (ground arith)
      | inr (inl failed) ↦ rw (on, failed)
      | inr (inr empty) ↦ rw (on, empty)
    ]
  ]

  step_eq :
      (fuel : ℕ) (buf : Bytes) (done calls b : ℕ) (bytes : Bytes)
      → ltb done nbytes ≡ true
      → getrandom calls (nbytes - done) ≡ some (b ∷ bytes)
      → fill_from getrandom (suc fuel) buf nbytes done calls
        ≡ fill_from getrandom fuel
            (store buf done (b ∷ bytes))
            nbytes
            (done + length (b ∷ bytes))
            (calls + 1)
  unfolding fill_from round
  step_eq fuel buf done calls b bytes on e = rw (on, e)

  stops :
      (pre post : Bytes) (fuel calls : ℕ)
      → length pre ≤ nbytes
      → Given (length pre) calls []
      → Filled pre post (suc fuel) calls
  stops pre post fuel calls le why = (
    [],
    stop_eq fuel (pre ++ post) (length pre) calls why
        ∙ ap (λ n. some (pre ++ post, n)) (omega arith),
    omega arith,
    why,
  )

  -- The rest of the loop after a round, from the facts about the longer first part.
  continues :
      (pre post : Bytes) (fuel calls b : ℕ) (bytes : Bytes)
      → ltb (length pre) nbytes ≡ true
      → length (b ∷ bytes) ≤ length post
      → getrandom calls (nbytes - length pre) ≡ some (b ∷ bytes)
      → Filled (pre ++ b ∷ bytes) (drop (length (b ∷ bytes)) post) fuel (calls + 1)
      → Filled pre post (suc fuel) calls
  continues pre post fuel calls b bytes on fit e (chunks, eq, le, given) =
      let c : Bytes = b ∷ bytes in
      let len : length (pre ++ c) ≡ length pre + length c = length-append pre c in
      let all : length (c ++ join chunks) ≡ length c + length (join chunks) =
        length-append c (join chunks) in
      (
        c ∷ chunks,
        step_eq fuel (pre ++ post) (length pre) calls b bytes on e
            ∙ ap₂ (λ buf n. fill_from getrandom fuel buf nbytes n (calls + 1))
                (store_lem pre post c fit) (sym len)
            ∙ eq
            ∙ ap some (
                ap₂ (λ t n. (t, n))
                  (append_assoc pre c
                      (join chunks ++ drop (length (join chunks)) (drop (length c) post))
                    ∙ ap (λ t. pre ++ t)
                        (sym (append_assoc c (join chunks) _)
                          ∙ ap (λ t. (c ++ join chunks) ++ t)
                              (drop-drop (length c) (length (join chunks)) post
                                ∙ ap (λ n. drop n post) (sym all))))
                  (omega arith)),
        omega arith,
        (e, rw (← len) given),
      )

  module _ (fits : Fits getrandom) where
    fill_round :
        (pre post : Bytes) (fuel calls : ℕ)
        → length pre ≤ nbytes
        → nbytes ≤ length pre + length post
        → ltb (length pre) nbytes ≡ true
        → ((b : ℕ) (bytes : Bytes)
            → length (b ∷ bytes) ≤ nbytes - length pre
            → Filled (pre ++ b ∷ bytes) (drop (length (b ∷ bytes)) post) fuel (calls + 1))
        → (result : Option Bytes) → getrandom calls (nbytes - length pre) ≡ result
        → Filled pre post (suc fuel) calls
    fill_round pre post fuel calls le room on rest none e =
        stops pre post fuel calls le (inr (inl e))
    fill_round pre post fuel calls le room on rest (some []) e =
        stops pre post fuel calls le (inr (inr e))
    fill_round pre post fuel calls le room on rest (some (b ∷ bytes)) e =
        let fit = fits calls (nbytes - length pre) (b ∷ bytes) e in
        continues pre post fuel calls b bytes on (omega arith) e (rest b bytes fit)

    fill_from_lem :
        (fuel : ℕ) (pre post : Bytes) (calls : ℕ)
        → length pre ≤ nbytes
        → nbytes ≤ length pre + length post
        → nbytes < length pre + fuel
        → Filled pre post fuel calls
    fill_from_lem zero pre post calls le room left = absurd (omega arith)
    fill_from_lem (suc fuel) pre post calls le room left =
        elim (Bool-cases (ltb (length pre) nbytes)) [
          | inr off ↦ stops pre post fuel calls le (inl (ground arith))
          | inl on ↦
              fill_round pre post fuel calls le room on
                (λ b bytes fit.
                  fill_from_lem fuel (pre ++ b ∷ bytes) (drop (length (b ∷ bytes)) post) (calls + 1)
                    (omega (arith, length-append pre (b ∷ bytes)))
                    (omega
                      (arith, length-append pre (b ∷ bytes), length-drop (length (b ∷ bytes)) post))
                    (omega (arith, length-append pre (b ∷ bytes))))
                (getrandom calls (nbytes - length pre)) refl
        ]

    -- The loop ends. The buffer then begins with the bytes that the calls gave, in order, and keeps
    -- its old content from there on; it is filled unless a call failed or gave nothing.
    pub arc4random_buf_lem :
        (buf : Bytes)
        → nbytes ≤ length buf
        → (chunks : List Bytes) × (arc4random_buf getrandom buf nbytes
            ≡ some (join chunks ++ drop (length (join chunks)) buf, length (join chunks)))
          × (length (join chunks) ≤ nbytes)
          × Given 0 0 chunks
    unfolding arc4random_buf
    arc4random_buf_lem buf room =
        let (chunks, eq, le, given) =
          fill_from_lem (suc nbytes) [] buf 0 (omega arith) (omega arith) (omega arith) in
        (
          chunks,
          eq ∙ ap (λ n. some (join chunks ++ drop (length (join chunks)) buf, n)) (omega arith),
          omega arith,
          given,
        )
