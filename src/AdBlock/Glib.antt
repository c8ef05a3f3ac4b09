-- ===== src/AdBlock/Glib.antt =====
-- What web-extension/atlantic-adblock-extension.c uses of GLib on texts. GLib is not part of the
-- repository: its functions are a parameter, and `GlibLaws` is the documented behaviour relied on.
use atlantic_engine.Base.{
  ℕ, ◌+◌, ◌≡◌, ◌≢◌, ◌↔◌, Bool, true, ◌&&◌, List, [], ◌∷◌, ◌++◌, map, Option, leb, if◌then◌else◌,
  Bytes, All, get_or,
}
use atlantic_engine.Base.Int.{ℤ}

pub record Glib : Type 0 where
  pub ascii_tolower : ℕ → ℕ  -- g_ascii_tolower
  pub ascii_strcasecmp : Bytes → Bytes → Bool  -- g_ascii_strcasecmp (a, b) == 0
  pub strsplit : Bytes → Bytes → List Bytes  -- g_strsplit (string, delimiter, -1)
  pub uri_host : Bytes → Option (Option Bytes)  -- g_uri_parse, then g_uri_get_host
  pub ascii_strtoll : Bytes → ℤ  -- g_ascii_strtoll (s, NULL, 10)
  pub build_filename : Bytes → Bytes → Bytes  -- g_build_filename (a, b, NULL)

-- `A` to `Z` go to `a` to `z`, and every other byte stays.
abbrev pub ascii_lower : ℕ → ℕ
ascii_lower c = if leb b'A' c && leb c b'Z' then c + 32 else c

abbrev pub fold_case : Bytes → Bytes
fold_case s = map ascii_lower s

abbrev pub newline : ℕ
newline = 10

-- Texts with a newline between each two.
unfoldable pub join_lines : Bytes → List Bytes → Bytes
join_lines s [] = s
join_lines s (t ∷ ts) = s ++ newline ∷ join_lines t ts

pub record GlibLaws (g : Glib) : Type 0 where
  pub ascii_tolower_lem : (c : ℕ) → g.ascii_tolower c ≡ ascii_lower c
  pub ascii_strcasecmp_iff :
      (a b : Bytes) → (g.ascii_strcasecmp a b ≡ true) ↔ (fold_case a ≡ fold_case b)
  pub strsplit-join_lines :
      (s : Bytes) (ts : List Bytes)
      → All (λ t. All (λ c. c ≢ newline) t) (s ∷ ts)
      → join_lines s ts ≢ []
      → g.strsplit (join_lines s ts) (newline ∷ []) ≡ s ∷ ts
  pub build_filename_lem :
      (a b : Bytes) (c : ℕ)
      → c ≢ b'/'
      → get_or b 0 b'/' ≢ b'/'
      → g.build_filename (a ++ c ∷ []) b ≡ (a ++ c ∷ []) ++ b'/' ∷ b
