-- ===== src/AdBlock/Engine.antt =====
-- The C interface of the ad-block engine as web-extension/atlantic-adblock-extension.c declares it.
-- The engine itself is another library, so its functions are a parameter.
use atlantic_engine.Base.{ℕ, Bool, Option, Bytes}

-- The strings that point to heap memory are NULL or a text.
pub record MatchResult : Type 0 where
  pub matched : Bool
  pub important : Bool
  pub redirect : Option Bytes
  pub exception : Option Bytes

-- Over the handles `E` of engines; an update of the engine returns the new one.
pub record Engine (E : Type 0) : Type 0 where
  pub create_from_cache : Bytes → Option E
  pub use_resources_json : E → Bytes → Bool × E
  pub match_network : E → Bytes → Bytes → Bytes → ℕ → Bytes → MatchResult
