-- ===== src/Qt/Env.antt =====
-- The environment variables that qt5-plugin reads once, in the two forms that it tests them in.
use atlantic_engine.Base.{
  Bool, false, not, ◌&&◌, Option, none, some, [], ◌∷◌, Bytes, codes, nonempty, streq, ◌==◌,
}

-- `env && env[0] && strcmp (env, "0")`
abbrev pub env_on : Option Bytes → Bool
env_on none = false
env_on (some v) = nonempty v && not (streq v (codes "0"))

-- `env && *env && *env != '0'`
abbrev pub env_not_zero : Option Bytes → Bool
env_not_zero none = false
env_not_zero (some []) = false
env_not_zero (some (c ∷ v)) = not (c == b'0')
