-- ===== src/Egl/Attribs.antt =====
-- attrib_to_int: an attribute list of EGLAttrib, copied to a buffer of EGLint. Values are bit
-- patterns: an EGLAttrib is below 2 ^ 64 and an EGLint below 2 ^ 32.
pub mod Pairs
pub mod RoundTrip
mod Tests
use atlantic_engine.Base.{
  ℕ, zero, suc, ◌+◌, ◌-◌, ◌%◌, ◌^◌, ◌<◌, Bool, true, false, not, ◌&&◌, Option, none, some, List, [],
  ◌∷◌, ltb, ◌==◌, if◌then◌else◌, get_or, set,
}

-- `EGL_NONE`
abbrev pub egl_none : ℕ
egl_none = 0x3038

-- `(EGLint) src[i]`: the low 32 bits.
abbrev pub to_eglint : ℕ → ℕ
to_eglint v = v % 2 ^ 32

-- The loop at `i`, with the buffer so far: the end of it and the buffer. The fuel is the number of
-- rounds that `i < max - 1` leaves. A read past the end of the caller's list is outside the model:
-- the list holds `EGL_NONE`, or `max - 1` values.
convert_from : ℕ → List ℕ → List ℕ → ℕ → ℕ → ℕ × List ℕ
convert_from zero src dst i max = (i, dst)
convert_from (suc fuel) src dst i max =
    let again = convert_from fuel src (set dst i (to_eglint (get_or src i 0))) (i + 1) max in
    if ltb i (max - 1) && not (get_or src i 0 == egl_none) then again else (i, dst)

-- `dst[i] = EGL_NONE`
terminate : ℕ × List ℕ → List ℕ
terminate (i, dst) = set dst i egl_none

-- `none` is a NULL list.
pub attrib_to_int : Option (List ℕ) → List ℕ → ℕ → List ℕ
attrib_to_int none dst max = terminate (0, dst)
attrib_to_int (some src) dst max = terminate (convert_from max src dst 0 max)
