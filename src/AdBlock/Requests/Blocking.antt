-- ===== src/AdBlock/Requests/Blocking.antt =====
-- When on_send_request stops a load, and when it waits.
pub mod Outcome
use atlantic_engine.Base.{
  ℕ, ◌+◌, ◌*◌, ◌≤◌, ◌≡◌, ◌↔◌, ◌⊎◌, inl, inr, refl, sym, ap, ◌∙◌, Bool, true, false, not, ◌&&◌,
  Bool-cases, Option, none, some, Option-cases, List, [], ◌>>=◌, if◌then◌else◌, Bytes, codes, streq,
  has_prefix, arith,
}
use mathlib.Core.Option.{some-injective}
use atlantic_engine.AdBlock.Glib.{Glib}
use atlantic_engine.AdBlock.ResourceType.{
  Request, ResourceType, document, script, name, resource_type_for,
}
use atlantic_engine.AdBlock.ResourceType.Priority.{resource_type-document_iff, streq-name-document}
use atlantic_engine.AdBlock.Hosts.{page_allowlisted}
use atlantic_engine.AdBlock.Engine.{Engine, MatchResult}
use atlantic_engine.AdBlock.Waiting.{World, WorldLaws, Statics, Ready, engine_wait_us, ready_engine}
use atlantic_engine.AdBlock.Waiting.Bound.{ready_engine_returns}
use atlantic_engine.AdBlock.Requests.{
  Globals, Sent, pass, answer, query, with_engine, send_http, send_to, on_send_request,
}

-- The request is for an http or https address, as far as the code looks.
abbrev pub IsHttp : Request → Bytes → Type 0
IsHttp request req_uri = (request.uri ≡ some req_uri) × (has_prefix req_uri (codes "http") ≡ true)

-- The handler lets the request go without a look at it.
abbrev pub IsExempt : Glib → Globals → Option Bytes → Request → Type 0
IsExempt g s page_uri request =
    (s.enabled ≡ false)
    ⊎ ((page_allowlisted g s.allowlist page_uri ≡ true)
        ⊎ ((request.uri ≡ none)
            ⊎ ((u : Bytes) × (request.uri ≡ some u) × (has_prefix u (codes "http") ≡ false))))

module _ {E : Type 0} (g : Glib) (lib : Engine E) (w : World E) where
  -- While blocking is off, for an allowlisted page and for an address that is not http, the load
  -- goes on at once, with no query, no new address and no change of state.
  pub exempt_passes :
      (s : Globals) (page_uri : Option Bytes) (request : Request) (t : ℕ)
      → IsExempt g s page_uri request
      → on_send_request g lib w s page_uri request t ≡ some (pass s t)
  unfolding on_send_request send_to send_http
  exempt_passes s page_uri request t x = ground arith

  -- The three checks passed, the handler asks `ready_engine`.
  send_checked :
      (s : Globals) (page_uri : Option Bytes) (request : Request) (t : ℕ) (req_uri : Bytes)
      → s.enabled ≡ true
      → IsHttp request req_uri
      → page_allowlisted g s.allowlist page_uri ≡ false
      → on_send_request g lib w s page_uri request t ≡ (
          ready_engine w s.statics
            (not (streq (name (resource_type_for g request)) (codes "document")))
            t
          >>= λ ready. some (with_engine g lib w s page_uri req_uri request ready ready.engine))
  unfolding on_send_request send_to send_http
  send_checked s page_uri request t req_uri on (e, http) free = simp (on, e, http, free)

-- The test that decides whether a request may wait.
abbrev pub may_wait : Glib → Request → Bool
may_wait g request = not (streq (name (resource_type_for g request)) (codes "document"))

module _ {E : Type 0} (g : Glib) (lib : Engine E) (w : World E) where
  -- What must hold for the load to be stopped by the time that the handler returns.
  pub record Blocks (s : Globals) (page_uri : Option Bytes) (request : Request) (now : ℕ)
      : Type 0 where
    pub req_uri : Bytes
    pub engine : E
    pub on : s.enabled ≡ true
    pub http : IsHttp request req_uri
    pub free : page_allowlisted g s.allowlist page_uri ≡ false
    pub settled : w.settled_at now ≡ true
    pub published : w.engine_at now ≡ some engine
    pub matched : (query g lib w engine page_uri req_uri request).matched ≡ true
    pub not_redirected : (query g lib w engine page_uri req_uri request).redirect ≡ none

  -- The value that the handler returns on the engine's answer.
  block-answer :
      (s : Globals) (t : ℕ) (r : MatchResult) (uri : Option Bytes)
      → ((answer s t r uri).block ≡ true) ↔ ((r.matched ≡ true) × (uri ≡ none))
  unfolding answer
  block-answer s t r none = (λ h. (h, refl), λ h. h.0)
  block-answer s t r (some uri) = (λ h. cc, λ h. cc (h.1))

  exempt_not_blocked :
      (s : Globals) (page_uri : Option Bytes) (request : Request) (now : ℕ)
      → IsExempt g s page_uri request
      → ¬ Blocks s page_uri request now
  exempt_not_blocked s page_uri request now (inl off) b = cc (off, b.on)
  exempt_not_blocked s page_uri request now (inr (inl listed)) b = cc (listed, b.free)
  exempt_not_blocked s page_uri request now (inr (inr (inl missing))) b = cc (missing, b.http.0)
  exempt_not_blocked s page_uri request now (inr (inr (inr (u, e, no_http)))) b =
      ground (arith, b.http)

  block-with_engine :
      (s : Globals) (page_uri : Option Bytes) (req_uri : Bytes) (request : Request)
      (ready : Ready E) (found : Option E)
      → ((with_engine g lib w s page_uri req_uri request ready found).block ≡ true) ↔ (
          (engine : E) × (found ≡ some engine)
          × ((query g lib w engine page_uri req_uri request).matched ≡ true)
          × ((query g lib w engine page_uri req_uri request).redirect ≡ none))
  unfolding with_engine
  block-with_engine s page_uri req_uri request ready none = (λ h. cc, λ (engine, e, m, n). cc)
  block-with_engine s page_uri req_uri request ready (some found) =
      let r = query g lib w found page_uri req_uri request in
      let exact = block-answer (record s { statics = ready.statics }) ready.now r r.redirect in
      (
        λ h. (found, refl, (exact.0 h).0, (exact.0 h).1),
        λ (engine, e, m, n). exact.1 (ground arith, ground arith),
      )
