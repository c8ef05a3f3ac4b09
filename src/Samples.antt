-- ===== src/Samples.antt =====
-- Concrete values at which the tests apply the theorems: texts, and implementations of the
-- parameters that meet their hypotheses.
use atlantic_engine.Base.{
  ℕ, ◌+◌, ◌*◌, ◌-◌, ◌≡◌, ◌≢◌, refl, Bool, true, false, not, ◌&&◌, Option, none, some, List, [], ◌∷◌,
  ◌++◌, ltb, leb, ◌==◌, if◌then◌else◌, All, Bytes, codes, streq, streq→eq, streq_refl, has_prefix,
  drop, length, arith,
}
use atlantic_engine.Base.Int.{pos}
use atlantic_engine.AdBlock.Glib.{Glib, GlibLaws, ascii_lower, fold_case, newline, join_lines}
use atlantic_engine.AdBlock.Engine.{Engine}
use atlantic_engine.AdBlock.Waiting.{World, WorldLaws}

-- No byte of the text is `n`.
abbrev pub absent : ℕ → Bytes → Bool
absent n [] = true
absent n (c ∷ s) = not (c == n) && absent n s

pub absent-All : (n : ℕ) (s : Bytes) → absent n s ≡ true → All (λ c. c ≢ n) s
absent-All n [] h = tt
absent-All n (c ∷ s) h = (ground arith, absent-All n s (ground arith))

-- A splitter at newlines.
extend : ℕ → List Bytes → List Bytes
extend c [] = (c ∷ []) ∷ []
extend c (l ∷ ls) = (c ∷ l) ∷ ls

lines : Bytes → List Bytes
lines [] = [] ∷ []
lines (c ∷ s) = let rest = lines s in if c == newline then [] ∷ rest else extend c rest

lines-line : (s : Bytes) → All (λ c. c ≢ newline) s → lines s ≡ s ∷ []
unfolding lines extend
lines-line [] h = refl
lines-line (c ∷ s) h = ground (arith, lines-line s h.1)

lines-append : (s t : Bytes) → All (λ c. c ≢ newline) s → lines (s ++ newline ∷ t) ≡ s ∷ lines t
unfolding lines extend
lines-append [] t h = refl
lines-append (c ∷ s) t h = ground (arith, lines-append s t h.1)

lines-join_lines :
    (s : Bytes) (ts : List Bytes)
    → All (λ t. All (λ c. c ≢ newline) t) (s ∷ ts)
    → lines (join_lines s ts) ≡ s ∷ ts
unfolding join_lines
lines-join_lines s [] h = lines-line s h.0
lines-join_lines s (t ∷ ts) h =
    rw (lines-append s (join_lines t ts) h.0, lines-join_lines t ts h.1) refl

same_folded : Bytes → Bytes → Bool
same_folded a b = streq (fold_case a) (fold_case b)

-- The host of an address that begins with "http://": up to a slash.
before_slash : Bytes → Bytes
before_slash [] = []
before_slash (c ∷ s) = let rest = before_slash s in if c == b'/' then [] else c ∷ rest

http_host : Bytes → Option (Option Bytes)
http_host s = if has_prefix s (codes "http://") then some (some (before_slash (drop 7 s))) else none

number : ℕ → Bytes → ℕ
number n [] = n
number n (c ∷ s) = if leb b'0' c && leb c b'9' then number (n * 10 + (c - b'0')) s else n

unfoldable pub sample_glib : Glib
unfolding lines extend same_folded before_slash http_host number
sample_glib = record {
  ascii_tolower = ascii_lower;
  ascii_strcasecmp = same_folded;
  strsplit = λ s delimiter. lines s;
  uri_host = http_host;
  ascii_strtoll = λ s. pos (number 0 s);
  build_filename = λ a b. a ++ b'/' ∷ b;
}

pub sample_glib-GlibLaws : GlibLaws sample_glib
unfolding sample_glib same_folded
sample_glib-GlibLaws = record {
  ascii_tolower_lem = λ c. refl;
  ascii_strcasecmp_iff =
      λ a b. (λ h. streq→eq (fold_case a) (fold_case b) h, λ e. rw e (streq_refl (fold_case b)));
  strsplit-join_lines = λ s ts clean filled. lines-join_lines s ts clean;
  build_filename_lem = λ a b c tail head. refl;
}

-- An engine that knows one list: a handle is a number.
unfoldable pub sample_engine : Engine ℕ
sample_engine = record {
  create_from_cache = λ dat. some (length dat);
  use_resources_json = λ engine resources. (true, engine + length resources);
  match_network = λ engine page uri type third_party method. record {
    matched = third_party == 1;
    important = false;
    redirect = none;
    exception = none;
  };
}

-- A load that settles at the time 10, and a clock whose waits take one tick.
unfoldable pub sample_world : World ℕ
sample_world = record {
  settled_at = λ t. leb 10 t;
  engine_at = λ t. if leb 10 t then some 7 else none;
  cond_wait = λ t d. (t + 1, ltb (t + 1) d);
}

pub sample_world-WorldLaws : WorldLaws sample_world 1
unfolding sample_world
sample_world-WorldLaws = record {
  settled_stays = λ s t le h. ground arith;
  wait_advances = λ t d. omega arith;
  wait_expires = λ t d le. ground arith;
  wait_prompt = λ t d. ground arith;
}
