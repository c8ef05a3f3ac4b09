-- ===== src/AdBlock/Hosts/Related.antt =====
-- What hosts_related decides.
use atlantic_engine.Base.{
  ℕ, zero, suc, ◌+◌, ◌-◌, ◌<◌, ◌≡◌, ◌↔◌, ◌⊎◌, inl, inr, refl, sym, ap, ◌∙◌, true, Bool-cases, some,
  [], ◌∷◌, ◌++◌, length, length-append, length-map, get_or, get_or-append_right, take, drop,
  take-append-drop, Bytes, arith,
}
use atlantic_engine.AdBlock.Glib.{Glib, GlibLaws, fold_case, ascii_lower}
use atlantic_engine.AdBlock.Hosts.{dotted_suffix, hosts_related}

-- `a` is a proper subdomain of `b`: it ends, up to case, in a dot and `b`.
abbrev pub IsSubdomain : Bytes → Bytes → Type 0
IsSubdomain a b = (p s : Bytes) × (a ≡ p ++ b'.' ∷ s) × (fold_case s ≡ fold_case b)

-- The two hosts are the same, up to case, or one is a subdomain of the other.
abbrev pub Related : Bytes → Bytes → Type 0
Related a b = (fold_case a ≡ fold_case b) ⊎ IsSubdomain a b ⊎ IsSubdomain b a

fold_case-length : (s t : Bytes) → fold_case s ≡ fold_case t → length s ≡ length t
fold_case-length s t h =
    omega (arith, length-map s ascii_lower, length-map t ascii_lower, ap length h)

drop_past : (p : Bytes) (c : ℕ) (s : Bytes) → drop (suc (length p)) (p ++ c ∷ s) ≡ s
drop_past [] c s = refl
drop_past (d ∷ p) c s = drop_past p c s

-- A list from the byte at an index on.
drop-get_or : (a : Bytes) (i : ℕ) → i < length a → drop i a ≡ get_or a i 0 ∷ drop (suc i) a
drop-get_or [] i h = absurd (omega arith)
drop-get_or (c ∷ a) zero h = refl
drop-get_or (c ∷ a) (suc i) h = drop-get_or a i (omega arith)

-- The three tests of the suffix comparison, taken apart.
dotted_suffix_tests :
    (g : Glib) (a b : Bytes)
    → dotted_suffix g a b ≡ true
    → (length b < length a)
      × (get_or a (length a - length b - 1) 0 ≡ b'.')
      × (g.ascii_strcasecmp (drop (length a - length b) a) b ≡ true)
unfolding dotted_suffix
dotted_suffix_tests g a b h = ground arith

split_at_dot :
    (a : Bytes) (n m : ℕ)
    → n < length a
    → m ≡ suc n
    → get_or a n 0 ≡ b'.'
    → a ≡ take n a ++ b'.' ∷ drop m a
split_at_dot a n m lt e dot =
    sym (take-append-drop n a)
    ∙ ap (λ t. take n a ++ t) (drop-get_or a n lt)
    ∙ ap (λ c. take n a ++ c ∷ drop (suc n) a) dot
    ∙ ap (λ k. take n a ++ b'.' ∷ drop k a) (sym e)

module _ {g : Glib} (laws : GlibLaws g) where
  dotted_suffix_sound : (a b : Bytes) → dotted_suffix g a b ≡ true → IsSubdomain a b
  dotted_suffix_sound a b h =
      let (lt, dot, same) = dotted_suffix_tests g a b h in
      (
        take (length a - length b - 1) a,
        drop (length a - length b) a,
        split_at_dot a (length a - length b - 1) (length a - length b) (omega arith) (omega arith)
            dot,
        (laws.ascii_strcasecmp_iff (drop (length a - length b) a) b).0 same,
      )

  -- At the lengths that the code computes.
  suffix_at :
      (a b p s : Bytes)
      → a ≡ p ++ b'.' ∷ s
      → fold_case s ≡ fold_case b
      → (length a ≡ suc (length p) + length b)
        × (get_or a (length p) 0 ≡ b'.')
        × (drop (suc (length p)) a ≡ s)
  suffix_at a b p s e f = (
    omega (arith, ap length e, length-append p (b'.' ∷ s), fold_case-length s b f),
    rw e (get_or-append_right p (b'.' ∷ s) (length p) 0 0 (omega arith)),
    rw e (drop_past p b'.' s),
  )

  dotted_suffix_complete : (a b : Bytes) → IsSubdomain a b → dotted_suffix g a b ≡ true
  unfolding dotted_suffix
  dotted_suffix_complete a b (p, s, e, f) =
      let (len, dot, rest) = suffix_at a b p s e f in
      let before : length a - length b - 1 ≡ length p = omega arith in
      let after : length a - length b ≡ suc (length p) = omega arith in
      ground (
        arith,
        ap (λ i. get_or a i 0) before,
        ap (λ i. drop i a) after,
        (laws.ascii_strcasecmp_iff s b).1 f,
      )

  -- Two hosts are related exactly when they are equal up to case or one is a dotted suffix of the
  -- other.
  pub hosts_related_iff : (a b : Bytes) → (hosts_related g (some a) (some b) ≡ true) ↔ Related a b
  unfolding hosts_related
  hosts_related_iff a b = (sound, complete)
    where
      sound : hosts_related g (some a) (some b) ≡ true → Related a b
      sound h = elim (Bool-cases (g.ascii_strcasecmp a b)) [
        | inl same ↦ inl ((laws.ascii_strcasecmp_iff a b).0 same)
        | inr differ ↦ elim (Bool-cases (dotted_suffix g a b)) [
          | inl sub ↦ inr (inl (dotted_suffix_sound a b sub))
          | inr e ↦ inr (inr (dotted_suffix_sound b a (ground arith)))
        ]
      ]

      complete : Related a b → hosts_related g (some a) (some b) ≡ true
      complete (inl e) = rw ((laws.ascii_strcasecmp_iff a b).1 e)
      complete (inr (inl s)) = ground (arith, dotted_suffix_complete a b s)
      complete (inr (inr s)) = ground (arith, dotted_suffix_complete b a s)
