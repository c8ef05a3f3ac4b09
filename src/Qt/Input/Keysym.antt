-- ===== src/Qt/Input/Keysym.antt =====
-- The keysym of a text, and the text of a keysym.
use atlantic_engine.Base.{
  ℕ, ◌+◌, ◌-◌, ◌/◌, ◌%◌, ◌≤◌, ◌<◌, ◌≡◌, refl, ap, ◌∙◌, Bool-cases, inl, inr, true, ◌&&◌, Option,
  none, some, List, [], ◌∷◌, if◌then◌else◌, arith, ltb, leb, ◌==◌,
}
use atlantic_engine.Qt.Input.Keys.{
  first_code_point, is_high, surrogate_to_ucs4, keysym_of_text, keysym_for_qt_key, keysym, unnamed,
}

-- The UTF-16 units of a code point.
abbrev pub utf16 : ℕ → List ℕ
utf16 cp =
    if ltb cp 0x10000
    then cp ∷ []
    else (0xd800 + (cp - 0x10000) / 0x400) ∷ (0xdc00 + (cp - 0x10000) % 0x400) ∷ []

-- The code point that a keysym stands for, by the rule of XKB: Latin-1 stands for itself, and the
-- others have 0x01000000 added.
abbrev pub code_point : ℕ → Option ℕ
code_point sym =
    if leb 0x1000100 sym
    then some (sym - 0x1000000)
    else if leb 0x20 sym && ltb sym 0x100
    then some sym
    else none

high_in : (q : ℕ) → q < 0x400 → is_high (0xd800 + q) ≡ true
high_in q small = ground arith

first_code_point-utf16 : (cp : ℕ) → cp < 0x110000 → first_code_point (utf16 cp) ≡ some cp
first_code_point-utf16 cp unicode = elim (Bool-cases (ltb cp 0x10000)) [
  | inl small ↦ rw small refl
  | inr large ↦
      let over : 0x10000 ≤ cp = ground arith in
      let high : is_high (0xd800 + (cp - 0x10000) / 0x400) ≡ true =
        high_in ((cp - 0x10000) / 0x400) (omega arith) in
      let back : surrogate_to_ucs4 (0xd800 + (cp - 0x10000) / 0x400)
            (0xdc00 + (cp - 0x10000) % 0x400)
          ≡ cp =
        omega arith in
      rw large (rw high (ap some back))
]

keysym_of_text-code_point :
    (cp : ℕ)
    → 0x20 ≤ cp
    → (0 < keysym_of_text (some cp)) × (code_point (keysym_of_text (some cp)) ≡ some cp)
unfolding keysym_of_text
keysym_of_text-code_point cp printable = ground arith

-- A key that the code does not name, whose event has no keysym of its own and types a code point that
-- is not a control character, gives the keysym that stands for that code point, inside the basic
-- plane and outside it.
pub code_point-keysym :
    (cp of_libwpe k : ℕ)
    → 0x20 ≤ cp
    → cp < 0x110000
    → code_point (keysym 0 (unnamed k) (utf16 cp) of_libwpe) ≡ some cp
unfolding keysym keysym_for_qt_key
code_point-keysym cp of_libwpe k printable unicode =
    let (some_sym, back) = keysym_of_text-code_point cp printable in
    rw (first_code_point-utf16 cp unicode) (chosen (keysym_of_text (some cp)) some_sym ∙ back)
  where
    chosen : (n : ℕ) → 0 < n → code_point (if n == 0 then of_libwpe else n) ≡ code_point n
    chosen n positive = ground arith
