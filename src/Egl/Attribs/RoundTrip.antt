-- ===== src/Egl/Attribs/RoundTrip.antt =====
-- The size of the attribute lists that the conversion carries over whole.
use atlantic_engine.Base.{
  ℕ, zero, suc, ◌*◌, ◌^◌, ◌<◌, ◌≤◌, ◌≡◌, ◌≢◌, inl, inr, refl, sym, ap, ◌∙◌, Option, none, some,
  List, [], ◌∷◌, ◌++◌, append_assoc, append-nil, map, map-append, length, length-append, drop, All,
  All-append, arith, ◌==◌, false,
}
use mathlib.Core.Option
use atlantic_engine.Egl.Attribs.{egl_none, to_eglint, attrib_to_int}
use atlantic_engine.Egl.Attribs.Pairs.{
  read_pairs, flat, IsPlain, flat-All, length-flat, attrib_to_int_lem,
}

to_eglint_small : (v : ℕ) → v < 2 ^ 32 → to_eglint v ≡ v
to_eglint_small v h = omega arith

map-nil_append : (o : Option (List (ℕ × ℕ))) → Option.map (λ qs. qs) o ≡ o
map-nil_append none = refl
map-nil_append (some qs) = refl

map-cons_append :
    (p : ℕ × ℕ) (ps : List (ℕ × ℕ)) (o : Option (List (ℕ × ℕ)))
    → Option.map (λ qs. p ∷ qs) (Option.map (λ qs. ps ++ qs) o)
      ≡ Option.map (λ qs. p ∷ (ps ++ qs)) o
map-cons_append p ps none = refl
map-cons_append p ps (some qs) = refl

read_pairs-cons :
    (k v : ℕ) (rest : List ℕ)
    → k ≢ egl_none
    → read_pairs (k ∷ v ∷ rest) ≡ Option.map (λ qs. (k, v) ∷ qs) (read_pairs rest)
unfolding read_pairs
read_pairs-cons k v rest h = let off : k == egl_none ≡ false = ground arith in rw off

-- A terminator ends the list, whatever lies behind it.
read_pairs-none : (rest : List ℕ) → read_pairs (egl_none ∷ rest) ≡ some []
unfolding read_pairs
read_pairs-none [] = refl
read_pairs-none (v ∷ rest) = refl

-- Neither the value nor the narrowed name is `EGL_NONE`.
abbrev pub IsReadable : ℕ × ℕ → Type 0
IsReadable (k, v) = (to_eglint k ≢ egl_none) × (v ≢ egl_none)

-- A pair as the driver's type holds it: the low 32 bits of its name and of its value.
abbrev pub narrow : ℕ × ℕ → ℕ × ℕ
narrow (k, v) = (to_eglint k, to_eglint v)

name-IsReadable : (k : ℕ) → to_eglint k ≢ egl_none → k ≢ egl_none
name-IsReadable k readable same = readable (omega arith)

readable-All : (ps : List (ℕ × ℕ)) → All IsReadable ps → All (λ x. x ≢ egl_none) (flat ps)
readable-All [] h = tt
readable-All ((k, v) ∷ ps) h = (name-IsReadable k h.0.0, (h.0.1, readable-All ps h.1))

-- Converted pairs are read back before what follows them.
read_pairs-flat :
    (ps : List (ℕ × ℕ)) (rest : List ℕ)
    → All IsReadable ps
    → read_pairs (map to_eglint (flat ps) ++ rest)
      ≡ Option.map (λ qs. map narrow ps ++ qs) (read_pairs rest)
read_pairs-flat [] rest h = sym (map-nil_append (read_pairs rest))
read_pairs-flat ((k, v) ∷ ps) rest h =
    read_pairs-cons (to_eglint k) (to_eglint v) (map to_eglint (flat ps) ++ rest) h.0.0
    ∙ ap (Option.map (λ qs. narrow (k, v) ∷ qs)) (read_pairs-flat ps rest h.1)
    ∙ map-cons_append (narrow (k, v)) (map narrow ps) (read_pairs rest)

plain-All : (ps : List (ℕ × ℕ)) → All IsPlain ps → All IsReadable ps
plain-All [] h = tt
plain-All ((k, v) ∷ ps) h = ((λ same. h.0.0 (omega arith), h.0.2), plain-All ps h.1)

-- The caller's list is some pairs, then `EGL_NONE`, and whatever lies behind it. If the pairs with their
-- terminator fit the buffer, the driver reads back the same pairs, of each name and value the low 32
-- bits. That is for pairs of which no value is `EGL_NONE` and no name has the low 32 bits of `EGL_NONE`.
pub attrib_to_int_roundtrip :
    (ps : List (ℕ × ℕ)) (behind junk : List ℕ) (max : ℕ)
    → All IsReadable ps
    → 2 * length ps < max
    → length junk ≡ max
    → read_pairs (attrib_to_int (some (flat ps ++ egl_none ∷ behind)) junk max)
      ≡ some (map narrow ps)
attrib_to_int_roundtrip ps behind junk max readable fits whole =
    ap read_pairs (
      attrib_to_int_lem (flat ps) (egl_none ∷ behind) junk max (readable-All ps readable)
        (omega (arith, length-flat ps)) whole (inr refl))
    ∙ read_pairs-flat ps (egl_none ∷ drop (suc (length (flat ps))) junk) readable
    ∙ ap (Option.map (λ qs. map narrow ps ++ qs))
        (read_pairs-none (drop (suc (length (flat ps))) junk))
    ∙ ap some (append-nil (map narrow ps))

drop_all : (n : ℕ) (xs : List ℕ) → length xs ≤ n → drop n xs ≡ []
drop_all zero [] h = refl
drop_all (suc n) [] h = refl
drop_all zero (x ∷ xs) h = absurd (omega arith)
drop_all (suc n) (x ∷ xs) h = drop_all n xs (omega arith)

-- A key and its terminator as value, at the end of the buffer.
read_pairs_cut : (k : ℕ) → k ≢ egl_none → read_pairs (k ∷ egl_none ∷ []) ≡ none
unfolding read_pairs
read_pairs_cut k h = let off : k == egl_none ≡ false = ground arith in rw off

-- With the 64 cells that the callers give, a list that begins with 32 pairs of 32-bit numbers other
-- than `EGL_NONE` is cut inside a pair: reading it in pairs finds no terminator in the buffer.
pub attrib_to_int_overrun :
    (ps : List (ℕ × ℕ)) (k v : ℕ) (rest junk : List ℕ)
    → length ps ≡ 31
    → All IsPlain ((k, v) ∷ ps)
    → length junk ≡ 64
    → read_pairs (attrib_to_int (some (flat ps ++ k ∷ v ∷ rest)) junk 64) ≡ none
attrib_to_int_overrun ps k v rest junk many plain whole =
    ap (λ xs. read_pairs (attrib_to_int (some xs) junk 64))
      (sym (append_assoc (flat ps) (k ∷ []) (v ∷ rest)))
    ∙ ap read_pairs (
        attrib_to_int_lem xs (v ∷ rest) junk 64
          (All-append (λ x. x ≢ egl_none) (flat ps) (k ∷ []) (flat-All ps plain.1) (plain.0.0, tt))
          (omega (arith, len)) whole (inl (omega (arith, len))))
    ∙ ap (λ end. read_pairs (map to_eglint xs ++ egl_none ∷ end))
        (drop_all (suc (length xs)) junk (omega (arith, len)))
    ∙ ap (λ ys. read_pairs (ys ++ egl_none ∷ [])) (map-append to_eglint (flat ps) (k ∷ []))
    ∙ ap read_pairs (append_assoc (map to_eglint (flat ps)) (to_eglint k ∷ []) (egl_none ∷ []))
    ∙ read_pairs-flat ps (to_eglint k ∷ egl_none ∷ []) (plain-All ps plain.1)
    ∙ ap (Option.map (λ qs. map narrow ps ++ qs)) cut
  where
    xs : List ℕ
    xs = flat ps ++ k ∷ []

    len : length xs ≡ 63
    len = omega (arith, length-append (flat ps) (k ∷ []), length-flat ps)

    cut : read_pairs (to_eglint k ∷ egl_none ∷ []) ≡ none
    cut = rw (to_eglint_small k plain.0.1) (read_pairs_cut k plain.0.0)
