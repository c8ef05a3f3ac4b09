-- ===== src/Egl/Attribs/Pairs.antt =====
-- What the driver reads back from a converted attribute list.
use atlantic_engine.Base.{
  ℕ, zero, suc, ◌+◌, ◌-◌, ◌*◌, ◌^◌, ◌<◌, ◌≤◌, ◌≡◌, ◌≢◌, ◌⊎◌, inl, inr, refl, sym, ap, ◌∙◌, true,
  false, not, ◌&&◌, Option, none, some, List, [], ◌∷◌, ◌++◌, append_assoc, map, ltb, ◌==◌,
  if◌then◌else◌, length, get_or, set, set-append, drop-cons, drop, All, arith, length-append,
  length-map, get_or-append_right,
}
use mathlib.Core.Path.{ap₂}
use mathlib.Core.Option
use atlantic_engine.Egl.Attribs.{egl_none, to_eglint, convert_from, terminate, attrib_to_int}

-- The keys and values of an attribute list as a driver reads them: pairs up to the key `EGL_NONE`.
-- `none` means that the reader runs past the end of the buffer.
unfoldable pub read_pairs : List ℕ → Option (List (ℕ × ℕ))
read_pairs [] = none
read_pairs (k ∷ []) = if k == egl_none then some [] else none
read_pairs (k ∷ v ∷ rest) =
    if k == egl_none then some [] else Option.map (λ ps. (k, v) ∷ ps) (read_pairs rest)

-- The list that a caller writes for these pairs, without its terminator.
abbrev pub flat : List (ℕ × ℕ) → List ℕ
flat [] = []
flat ((k, v) ∷ ps) = k ∷ v ∷ flat ps

-- The value at the loop's position.
at_position :
    (pre rest : List ℕ) (i : ℕ) → i ≡ length pre → get_or (pre ++ rest) i 0 ≡ get_or rest 0 0
at_position pre rest i e = get_or-append_right pre rest i 0 0 (omega arith)

-- Why the loop stops before `rest`: the buffer is used up to its last cell, or the list ends.
abbrev Stops : ℕ → List ℕ → ℕ → Type 0
Stops n rest max = (n ≡ max - 1) ⊎ (get_or rest 0 0 ≡ egl_none)

convert_stop :
    (fuel : ℕ) (src dst : List ℕ) (i max : ℕ) (rest : List ℕ)
    → get_or src i 0 ≡ get_or rest 0 0
    → Stops i rest max
    → convert_from (suc fuel) src dst i max ≡ (i, dst)
unfolding convert_from
convert_stop fuel src dst i max rest at (inl full) =
    let spent : ltb i (max - 1) ≡ false = ground arith in rw spent
convert_stop fuel src dst i max rest at (inr end) =
    let off : ltb i (max - 1) && not (get_or src i 0 == egl_none) ≡ false = ground arith in rw off

convert_step :
    (fuel : ℕ) (src dst : List ℕ) (i max x : ℕ)
    → get_or src i 0 ≡ x
    → x ≢ egl_none
    → suc i < max
    → convert_from (suc fuel) src dst i max
      ≡ convert_from fuel src (set dst i (to_eglint x)) (i + 1) max
unfolding convert_from
convert_step fuel src dst i max x at plain room =
    let on : ltb i (max - 1) && not (x == egl_none) ≡ true = ground arith in rw (at, on)

-- The loop copies the values before its stop, and leaves the rest of the buffer.
convert_run :
    (fuel : ℕ) (pre xs rest ys junk : List ℕ) (i max : ℕ)
    → All (λ x. x ≢ egl_none) xs
    → i ≡ length pre
    → i ≡ length ys
    → i + length xs < max
    → length xs < fuel
    → length xs ≤ length junk
    → Stops (i + length xs) rest max
    → convert_from fuel (pre ++ (xs ++ rest)) (ys ++ junk) i max
      ≡ (i + length xs, ys ++ (map to_eglint xs ++ drop (length xs) junk))
convert_run zero pre xs rest ys junk i max plain ip iy room left fits stop = absurd (omega arith)
convert_run (suc fuel) pre [] rest ys junk i max plain ip iy room left fits stop =
    let here : i + 0 ≡ i = omega arith in
    convert_stop fuel (pre ++ rest) (ys ++ junk) i max rest (at_position pre rest i ip)
      (rw here at stop)
    ∙ ap (λ n. (n, ys ++ junk)) (sym here)
convert_run (suc fuel) pre (x ∷ xs) rest ys [] i max plain ip iy room left fits stop =
    absurd (omega arith)
convert_run (suc fuel) pre (x ∷ xs) rest ys (j ∷ junk) i max plain ip iy room left fits stop =
    let shift : i + suc (length xs) ≡ i + 1 + length xs = omega arith in
    convert_step fuel (pre ++ x ∷ (xs ++ rest)) (ys ++ j ∷ junk) i max x
      (at_position pre (x ∷ (xs ++ rest)) i ip) plain.0 (omega arith)
    ∙ ap (λ dst. convert_from fuel (pre ++ x ∷ (xs ++ rest)) dst (i + 1) max)
        (set-append ys j (to_eglint x) junk i iy ∙ sym (append_assoc ys (to_eglint x ∷ []) junk))
    ∙ ap (λ src. convert_from fuel src ((ys ++ to_eglint x ∷ []) ++ junk) (i + 1) max)
        (sym (append_assoc pre (x ∷ []) (xs ++ rest)))
    ∙ convert_run fuel (pre ++ x ∷ []) xs rest (ys ++ to_eglint x ∷ []) junk (i + 1) max plain.1
        (omega (arith, length-append pre (x ∷ [])))
        (omega (arith, length-append ys (to_eglint x ∷ []))) (omega arith) (omega arith)
        (omega arith) (rw shift at stop)
    ∙ ap₂ (λ n t. (n, t)) (sym shift)
        (append_assoc ys (to_eglint x ∷ []) (map to_eglint xs ++ drop (length xs) junk))

-- The whole conversion of the values before a stop: they are copied, and `EGL_NONE` follows them.
-- No cell past that is written.
pub attrib_to_int_lem :
    (xs rest junk : List ℕ) (max : ℕ)
    → All (λ x. x ≢ egl_none) xs
    → length xs < max
    → length junk ≡ max
    → Stops (length xs) rest max
    → attrib_to_int (some (xs ++ rest)) junk max
      ≡ map to_eglint xs ++ egl_none ∷ drop (suc (length xs)) junk
unfolding attrib_to_int terminate
attrib_to_int_lem xs rest junk max plain room whole stop =
    let here : 0 + length xs ≡ length xs = omega arith in
    let (j, cell) = drop-cons (length xs) junk (omega arith) in
    ap terminate (
      convert_run max [] xs rest [] junk 0 max plain refl refl (omega arith) (omega arith)
        (omega arith) (rw (← here) at stop))
    ∙ ap₂ (λ n t. set (map to_eglint xs ++ t) n egl_none) here cell
    ∙ set-append (map to_eglint xs) j egl_none (drop (suc (length xs)) junk) (length xs)
        (sym (length-map xs to_eglint))

-- A pair that survives the conversion: neither half is `EGL_NONE`, and both fit an EGLint.
abbrev pub IsPlain : ℕ × ℕ → Type 0
IsPlain p = (p.0 ≢ egl_none) × (p.0 < 2 ^ 32) × (p.1 ≢ egl_none) × (p.1 < 2 ^ 32)

pub flat-All : (ps : List (ℕ × ℕ)) → All IsPlain ps → All (λ x. x ≢ egl_none) (flat ps)
flat-All [] h = tt
flat-All ((k, v) ∷ ps) h = (h.0.0, (h.0.2, flat-All ps h.1))

pub length-flat : (ps : List (ℕ × ℕ)) → length (flat ps) ≡ 2 * length ps
length-flat [] = refl
length-flat ((k, v) ∷ ps) = omega (arith, length-flat ps)
