-- ===== src/AdBlock/Requests.antt =====
-- on_send_request and on_user_message: the two signal handlers of a page, with the global flags
-- that they share.
pub mod Blocking
pub mod Messages
mod Tests
use atlantic_engine.Base.{
  ℕ, ◌≡◌, Bool, true, false, not, Option, none, some, List, [], ◌∷◌, ◌>>=◌, if◌then◌else◌, Bytes,
  codes, streq, has_prefix, foldl,
}
use atlantic_engine.AdBlock.Glib.{Glib}
use atlantic_engine.AdBlock.ResourceType.{Request, ResourceType, name, resource_type_for}
use atlantic_engine.AdBlock.Hosts.{page_allowlisted, is_third_party, split_allowlist}
use atlantic_engine.AdBlock.Engine.{Engine, MatchResult}
use atlantic_engine.AdBlock.Waiting.{World, Statics, Ready, ready_engine}

-- The static variables of the file that the handlers read or write on the main thread.
pub record Globals : Type 0 where
  pub enabled : Bool
  pub allowlist : Option (List Bytes)
  pub statics : Statics

-- What a call of the handler does: the value that it returns, which stops the load if TRUE, the new
-- address that it gives to the request, the query that it makes to the engine, the globals after
-- it, and the time at which it returns.
pub record Sent : Type 0 where
  pub block : Bool
  pub redirected : Option Bytes
  pub queried : Option MatchResult
  pub globals : Globals
  pub now : ℕ

-- The early `return FALSE`s.
abbrev pub pass : Globals → ℕ → Sent
pass s t = record { block = false; redirected = none; queried = none; globals = s; now = t }

-- `if (!p) p = d`, for a text that may be NULL.
abbrev pub text_or : Option Bytes → Bytes → Bytes
text_or none d = d
text_or (some s) d = s

-- The end of the handler, on the engine's answer.
answer : Globals → ℕ → MatchResult → Option Bytes → Sent
answer s t r none = record {
  block = r.matched;
  redirected = none;
  queried = some r;
  globals = s;
  now = t;
}
answer s t r (some uri) = record {
  block = false;
  redirected = some uri;
  queried = some r;
  globals = s;
  now = t;
}

module _ {E : Type 0} (g : Glib) (lib : Engine E) (w : World E) where
  -- What the engine is asked about a request of a page.
  pub query : E → Option Bytes → Bytes → Request → MatchResult
  query engine page_uri req_uri request =
      lib.match_network engine (text_or page_uri []) req_uri (name (resource_type_for g request))
        (is_third_party g page_uri req_uri) (text_or request.http_method (codes "GET"))

  -- The rest of the handler, once `ready_engine` has returned.
  with_engine : Globals → Option Bytes → Bytes → Request → Ready E → Option E → Sent
  with_engine s page_uri req_uri request ready none =
      pass (record s { statics = ready.statics }) ready.now
  with_engine s page_uri req_uri request ready (some engine) =
      answer (record s { statics = ready.statics }) ready.now
        (query engine page_uri req_uri request) (query engine page_uri req_uri request).redirect

  -- The part of the handler after the check of the request's address.
  send_http : Globals → Option Bytes → Bytes → Request → ℕ → Option Sent
  send_http s page_uri req_uri request t =
      if page_allowlisted g s.allowlist page_uri then some (pass s t) else do
        ready ←
            ready_engine w s.statics
              (not (streq (name (resource_type_for g request)) (codes "document"))) t
        some (with_engine s page_uri req_uri request ready ready.engine)

  send_to : Globals → Option Bytes → Option Bytes → Request → ℕ → Option Sent
  send_to s page_uri none request t = some (pass s t)
  send_to s page_uri (some req_uri) request t =
      if has_prefix req_uri (codes "http")
      then send_http s page_uri req_uri request t
      else some (pass s t)

  -- Called at the time `t` with the address of the page. `none` only if the wait's fuel ran out.
  pub on_send_request : Globals → Option Bytes → Request → ℕ → Option Sent
  on_send_request s page_uri request t =
      if s.enabled then send_to s page_uri request.uri request t else some (pass s t)

-- A parameter of a message, by its GVariant type.
pub data Variant : Type 0 where
  boolean : Bool → Variant
  string : Bytes → Variant
  boolean_string : Bool → Bytes → Variant
  other : Variant

pub toggle_message : Bytes
toggle_message = codes "atlantic-adblock-set-enabled"

pub allowlist_message : Bytes
allowlist_message = codes "atlantic-adblock-set-allowlist"

-- `g_enabled`, if the parameters are there and of type boolean.
set_enabled : Option Variant → Globals → Globals
set_enabled (some (boolean b)) s = record s { enabled = b }
set_enabled _ s = s

-- `set_allowlist`, if the parameters are there and of type string.
set_allowlist : Glib → Option Variant → Globals → Globals
set_allowlist g (some (string joined)) s = record s { allowlist = split_allowlist g (some joined) }
set_allowlist g _ s = s

-- The new globals, and whether the message was one of the two.
named_message : Glib → Globals → Bytes → Option Variant → Globals × Bool
named_message g s name params =
    if streq name toggle_message
    then (set_enabled params s, true)
    else if streq name allowlist_message
    then (set_allowlist g params s, true)
    else (s, false)

-- A message whose name is NULL is none of them.
pub on_user_message : Glib → Globals → Option Bytes → Option Variant → Globals × Bool
on_user_message g s none params = (s, false)
on_user_message g s (some name) params = named_message g s name params
