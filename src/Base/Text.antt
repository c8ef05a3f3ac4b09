-- ===== src/Base/Text.antt =====
-- C strings as the list of their bytes before the terminating NUL, and what the code uses of
-- <string.h>: strlen is `length`, strcmp against a literal is `streq`, and strchr, strstr, strncmp.
use Prim.Native.Nat.{ℕ, suc}
use Prim.Native.Char.{code}
use Prim.Native.String.{String}
use mathlib.Core.Path.{◌≡◌, refl}
use mathlib.Core.Logic.{◌≢◌}
use mathlib.Core.Bool.{Bool, true, false, ◌&&◌, ◌||◌}
use mathlib.Core.Option.{Option, none, some}
use mathlib.Core.List.{List, [], ◌∷◌}
use native.Mathlib.Omega.{arith}
use atlantic_engine.Base.Tests.{◌==◌, if◌then◌else◌}

abbrev pub Bytes : Type 0
Bytes = List ℕ

-- The bytes of an ASCII literal.
abbrev pub codes : String → Bytes
codes String.[] = []
codes (String.◌∷◌ c s) = code c ∷ codes s

-- `strcmp (s, t) == 0`
unfoldable pub streq : Bytes → Bytes → Bool
streq [] [] = true
streq [] (d ∷ t) = false
streq (c ∷ s) [] = false
streq (c ∷ s) (d ∷ t) = c == d && streq s t

-- `*s` on a C string: it is not empty.
abbrev pub nonempty : Bytes → Bool
nonempty [] = false
nonempty (c ∷ s) = true

-- `strncmp (s, p, strlen (p)) == 0`
unfoldable pub has_prefix : Bytes → Bytes → Bool
has_prefix s [] = true
has_prefix [] (d ∷ p) = false
has_prefix (c ∷ s) (d ∷ p) = c == d && has_prefix s p

-- `strstr (s, p) != NULL`
unfoldable pub strstr : Bytes → Bytes → Bool
unfolding has_prefix
strstr [] p = has_prefix [] p
strstr (c ∷ s) p = has_prefix (c ∷ s) p || strstr s p

-- `strchr (s, c) - s`, or NULL.
unfoldable pub strchr : Bytes → ℕ → Option ℕ
strchr [] c = none
strchr (d ∷ s) c =
    if d == c then some 0 else elim (strchr s c) [ none ↦ none | some i ↦ some (suc i) ]

pub streq→eq : (s t : Bytes) → streq s t ≡ true → s ≡ t
unfolding streq
streq→eq [] [] h = refl
streq→eq [] (d ∷ t) h = cc
streq→eq (c ∷ s) [] h = cc
streq→eq (c ∷ s) (d ∷ t) h = ground (arith, streq→eq s t)

pub streq_refl : (s : Bytes) → streq s s ≡ true
unfolding streq
streq_refl [] = refl
streq_refl (c ∷ s) = ground (arith, streq_refl s)

pub nonempty_of_ne : (s : Bytes) → s ≢ [] → nonempty s ≡ true
nonempty_of_ne [] h = absurd (h refl)
nonempty_of_ne (c ∷ s) h = refl
