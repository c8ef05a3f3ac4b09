-- ===== src/Compat/Strings/Laws.antt =====
-- What strlcpy and strlcat leave in the buffer, and what they return.
use atlantic_engine.Base.{
  ℕ, zero, suc, ◌+◌, ◌-◌, ◌<◌, ◌≤◌, ◌≡◌, ◌≢◌, refl, sym, ap, ◌∙◌, true, false, [], ◌∷◌, ◌++◌,
  append_assoc, ltb, ◌==◌, length, set, set-append, drop-cons, take, drop, min, All, Bytes, arith,
  length-take, length-append,
}
use atlantic_engine.Compat.Strings.{
  memcpy, strnlen, copylen, copy_and_end, strlcpy_at, strlcpy, strlcat, add_result,
}

-- The copy lands behind the first part of the buffer, and the cells behind it stay.
pub memcpy_lem :
    (pre post src : Bytes) (at n : ℕ)
    → at ≡ length pre
    → n ≤ length src
    → n ≤ length post
    → memcpy (pre ++ post) at src n ≡ pre ++ (take n src ++ drop n post)
unfolding memcpy
memcpy_lem pre post src at zero e h k = refl
memcpy_lem pre post [] at (suc n) e h k = absurd (omega arith)
memcpy_lem pre [] (c ∷ src) at (suc n) e h k = absurd (omega arith)
memcpy_lem pre (d ∷ post) (c ∷ src) at (suc n) e h k =
    ap (λ dst. memcpy dst (at + 1) src n)
      (set-append pre d c post at e ∙ sym (append_assoc pre (c ∷ []) post))
    ∙ memcpy_lem (pre ++ c ∷ []) post src (at + 1) n (omega (arith, length-append pre (c ∷ [])))
        (omega arith) (omega arith)
    ∙ append_assoc pre (c ∷ []) (take n src ++ drop n post)

-- The number of bytes copied.
abbrev pub copied : Bytes → ℕ → ℕ
copied src size = min (length src) (size - 1)

copylen-eq : (src : Bytes) (size : ℕ) → copylen src size ≡ copied src size
unfolding copylen
copylen-eq src size = ground arith

copy_and_end_lem :
    (pre post src : Bytes) (n : ℕ)
    → n ≤ length src
    → n < length post
    → copy_and_end (pre ++ post) (length pre) src n ≡ pre ++ (take n src ++ 0 ∷ drop (suc n) post)
unfolding copy_and_end
copy_and_end_lem pre post src n h k =
    let (x, cell) = drop-cons n post k in
    let behind : length pre + n ≡ length (pre ++ take n src) =
      omega (arith, length-append pre (take n src), length-take n src) in
    ap (λ dst. set dst (length pre + n) 0)
      (memcpy_lem pre post src (length pre) n refl h (omega arith)
        ∙ ap (λ t. pre ++ (take n src ++ t)) cell
        ∙ sym (append_assoc pre (take n src) (x ∷ drop (suc n) post)))
    ∙ set-append (pre ++ take n src) x 0 (drop (suc n) post) (length pre + n) behind
    ∙ append_assoc pre (take n src) (0 ∷ drop (suc n) post)

-- strlcpy into the part of the buffer behind `pre`.
strlcpy_at_lem :
    (pre post src : Bytes) (size : ℕ)
    → 0 < size
    → size ≤ length post
    → strlcpy_at (pre ++ post) (length pre) src size
      ≡ (pre ++ (take (copied src size) src ++ 0 ∷ drop (suc (copied src size)) post), length src)
unfolding strlcpy_at
strlcpy_at_lem pre post src size pos fits =
    let on : ltb 0 size ≡ true = ground arith in
    rw on (
      ap (λ n. (copy_and_end (pre ++ post) (length pre) src n, length src)) (copylen-eq src size)
      ∙ ap (λ dst. (dst, length src))
          (copy_and_end_lem pre post src (copied src size) (omega arith) (omega arith)))

-- strlcpy with a size that the buffer has: it copies as much of the string as leaves room for the
-- NUL behind it, writes nothing past that NUL, and returns the length of the whole string.
pub strlcpy_lem :
    (dst src : Bytes) (size : ℕ)
    → 0 < size
    → size ≤ length dst
    → strlcpy dst src size
      ≡ (take (copied src size) src ++ 0 ∷ drop (suc (copied src size)) dst, length src)
unfolding strlcpy
strlcpy_lem dst src size pos fits = strlcpy_at_lem [] dst src size pos fits

-- A string's bytes are not NUL.
abbrev pub IsString : Bytes → Type 0
IsString s = All (λ c. c ≢ 0) s

strnlen_string :
    (s rest : Bytes) (size : ℕ)
    → IsString s
    → length s < size
    → strnlen (s ++ 0 ∷ rest) size ≡ length s
unfolding strnlen
strnlen_string s rest zero h lt = absurd (omega arith)
strnlen_string [] rest (suc size) h lt = refl
strnlen_string (c ∷ s) rest (suc size) h lt = ground (arith, strnlen_string s rest size h.1)

strnlen_full :
    (dst : Bytes) (size : ℕ)
    → IsString (take size dst)
    → size ≤ length dst
    → strnlen dst size ≡ size
unfolding strnlen
strnlen_full dst zero h fits = refl
strnlen_full [] (suc size) h fits = absurd (omega arith)
strnlen_full (c ∷ dst) (suc size) h fits = ground (arith, strnlen_full dst size h.1)

-- strlcat to a string that ends inside the size: what fits of the source is put behind it, with a
-- NUL, nothing past that is written, and the result is the length that the whole would have.
pub strlcat_lem :
    (s rest src : Bytes) (size : ℕ)
    → IsString s
    → length s < size
    → size ≤ length (s ++ 0 ∷ rest)
    → let n = copied src (size - length s) in
      strlcat (s ++ 0 ∷ rest) src size
      ≡ (s ++ (take n src ++ 0 ∷ drop n rest), length s + length src)
unfolding strlcat add_result
strlcat_lem s rest src size h lt fits =
    let off : length s == size ≡ false = ground arith in
    rw (strnlen_string s rest size h lt, off)
      (ap (add_result (length s)) (
        strlcpy_at_lem s (0 ∷ rest) src (size - length s) (omega arith)
          (omega (arith, length-append s (0 ∷ rest)))))

-- With no NUL in the first `size` bytes nothing is written, and the result is at least the size.
pub strlcat_unterminated :
    (dst src : Bytes) (size : ℕ)
    → IsString (take size dst)
    → size ≤ length dst
    → strlcat dst src size ≡ (dst, size + length src)
unfolding strlcat
strlcat_unterminated dst src size h fits =
    let on : size == size ≡ true = ground arith in rw (strnlen_full dst size h fits, on)
