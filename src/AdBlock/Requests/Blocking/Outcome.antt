-- ===== src/AdBlock/Requests/Blocking/Outcome.antt =====
-- on_send_request on every branch: it returns in time, and when it stops a load.
use atlantic_engine.Base.{
  ℕ, ◌+◌, ◌*◌, ◌≤◌, ◌≡◌, ◌↔◌, ◌⊎◌, inl, inr, refl, sym, ap, ◌∙◌, Bool, true, false, Bool-cases,
  Option, none, some, Option-cases, if◌then◌else◌, Bytes, codes, streq, has_prefix, arith,
}
use mathlib.Core.Option.{some-injective}
use atlantic_engine.AdBlock.Glib.{Glib}
use atlantic_engine.AdBlock.ResourceType.{Request, document, name, resource_type_for}
use atlantic_engine.AdBlock.ResourceType.Priority.{resource_type-document_iff, streq-name-document}
use atlantic_engine.AdBlock.Hosts.{page_allowlisted}
use atlantic_engine.AdBlock.Engine.{Engine}
use atlantic_engine.AdBlock.Waiting.{World, WorldLaws, Ready, engine_wait_us}
use atlantic_engine.AdBlock.Waiting.Bound.{ready_engine_returns}
use atlantic_engine.AdBlock.Requests.{
  Globals, Sent, pass, answer, query, with_engine, on_send_request,
}
use atlantic_engine.AdBlock.Requests.Blocking.{
  IsHttp, IsExempt, exempt_passes, send_checked, may_wait, Blocks, exempt_not_blocked,
  block-with_engine,
}

-- Reading the pointer behind a flag that is set.
published_engine {ℓ} :
    {E : Type ℓ} (flag : Bool) (x o : Option E) (engine : E)
    → o ≡ (if flag then x else none)
    → o ≡ some engine
    → (flag ≡ true) × (x ≡ some engine)
published_engine true x o engine e f = (refl, sym e ∙ f)
published_engine false x o engine e f = cc (e, f)

module _ {E : Type 0} (g : Glib) (lib : Engine E) (w : World E) (slack : ℕ) where
  -- The handler got as far as asking for the engine, and `sent` is what it made of the answer.
  record Looked (s : Globals) (page_uri : Option Bytes) (request : Request) (t : ℕ) (sent : Sent)
      : Type 0 where
    req_uri : Bytes
    ready : Ready E
    on : s.enabled ≡ true
    http : IsHttp request req_uri
    free : page_allowlisted g s.allowlist page_uri ≡ false
    published : ready.engine ≡ (if w.settled_at ready.now then w.engine_at ready.now else none)
    after : t ≤ ready.now
    before : ready.now ≤ t + (if may_wait g request then engine_wait_us + 2 * slack else 0)
    result : sent ≡ with_engine g lib w s page_uri req_uri request ready ready.engine

  abbrev Outcome : Globals → Option Bytes → Request → ℕ → Sent → Type 0
  Outcome s page_uri request t sent =
      (IsExempt g s page_uri request × (sent ≡ pass s t)) ⊎ Looked s page_uri request t sent

  module _ (laws : WorldLaws w slack) where
    looked :
        (s : Globals) (page_uri : Option Bytes) (request : Request) (t : ℕ) (req_uri : Bytes)
        → s.enabled ≡ true
        → IsHttp request req_uri
        → page_allowlisted g s.allowlist page_uri ≡ false
        → (sent : Sent) × (on_send_request g lib w s page_uri request t ≡ some sent)
          × Outcome s page_uri request t sent
    looked s page_uri request t req_uri on http free =
        let (ready, eq, published, lo, hi) =
          ready_engine_returns w laws s.statics (may_wait g request) t in
        (
          with_engine g lib w s page_uri req_uri request ready ready.engine,
          send_checked g lib w s page_uri request t req_uri on http free ∙ rw eq,
          inr (record {
            req_uri = req_uri;
            ready = ready;
            on = on;
            http = http;
            free = free;
            published = published;
            after = lo;
            before = hi;
            result = refl;
          }),
        )

    exempt :
        (s : Globals) (page_uri : Option Bytes) (request : Request) (t : ℕ)
        → IsExempt g s page_uri request
        → (sent : Sent) × (on_send_request g lib w s page_uri request t ≡ some sent)
          × Outcome s page_uri request t sent
    exempt s page_uri request t x =
        (pass s t, exempt_passes g lib w s page_uri request t x, inl (x, refl))

    outcome :
        (s : Globals) (page_uri : Option Bytes) (request : Request) (t : ℕ)
        → (sent : Sent) × (on_send_request g lib w s page_uri request t ≡ some sent)
          × Outcome s page_uri request t sent
    outcome s page_uri request t = elim (Bool-cases s.enabled) [
      | inr off ↦ exempt s page_uri request t (inl off)
      | inl on ↦ elim (Bool-cases (page_allowlisted g s.allowlist page_uri)) [
        | inl listed ↦ exempt s page_uri request t (inr (inl listed))
        | inr free ↦ elim (Option-cases request.uri) [
          | inl missing ↦ exempt s page_uri request t (inr (inr (inl missing)))
          | inr (u, e) ↦ elim (Bool-cases (has_prefix u (codes "http"))) [
            | inr no_http ↦ exempt s page_uri request t (inr (inr (inr (u, e, no_http))))
            | inl http ↦ looked s page_uri request t u on (e, http) free
          ]
        ]
      ]
    ]

    now-with_engine :
        (s : Globals) (page_uri : Option Bytes) (req_uri : Bytes) (request : Request)
        (ready : Ready E) (engine : Option E)
        → (with_engine g lib w s page_uri req_uri request ready engine).now ≡ ready.now
    unfolding with_engine answer
    now-with_engine s page_uri req_uri request ready engine = ground arith

    now-Looked :
        (s : Globals) (page_uri : Option Bytes) (request : Request) (t : ℕ) (sent : Sent)
        (l : Looked s page_uri request t sent)
        → sent.now ≡ l.ready.now
    now-Looked s page_uri request t sent l =
        ap (λ (x : Sent). x.now) l.result
        ∙ now-with_engine s page_uri l.req_uri request l.ready l.ready.engine

    now-Outcome :
        (s : Globals) (page_uri : Option Bytes) (request : Request) (t : ℕ) (sent : Sent)
        → Outcome s page_uri request t sent
        → (t ≤ sent.now)
          × (sent.now ≤ t + (if may_wait g request then engine_wait_us + 2 * slack else 0))
    now-Outcome s page_uri request t sent (inl (x, e)) = omega (arith, ap (λ (x : Sent). x.now) e)
    now-Outcome s page_uri request t sent (inr l) =
        omega (arith, now-Looked s page_uri request t sent l, l.after, l.before)

    -- The handler always returns, and it holds the main thread no longer than the five seconds of one
    -- wait and twice the slack of the scheduler.
    pub on_send_request_returns :
        (s : Globals) (page_uri : Option Bytes) (request : Request) (t : ℕ)
        → (sent : Sent) × (on_send_request g lib w s page_uri request t ≡ some sent)
          × (t ≤ sent.now)
          × (sent.now ≤ t + engine_wait_us + 2 * slack)
    on_send_request_returns s page_uri request t =
        let (sent, eq, o) = outcome s page_uri request t in
        let (lo, hi) = now-Outcome s page_uri request t sent o in (sent, eq, lo, ground arith)

    -- A request whose Sec-Fetch-Dest is "document" is answered at once, whether or not the engine
    -- is ready.
    pub document_never_waits :
        (s : Globals) (page_uri : Option Bytes) (request : Request) (t : ℕ)
        (get_one : Bytes → Option Bytes)
        → request.headers ≡ some get_one
        → get_one (codes "Sec-Fetch-Dest") ≡ some (codes "document")
        → (sent : Sent) × (on_send_request g lib w s page_uri request t ≡ some sent)
          × (sent.now ≡ t)
    document_never_waits s page_uri request t get_one e dest =
        let (sent, eq, o) = outcome s page_uri request t in
        let (lo, hi) = now-Outcome s page_uri request t sent o in
        let typed : resource_type_for g request ≡ document =
          (resource_type-document_iff g request).1 (get_one, e, dest) in
        let flag : streq (name (resource_type_for g request)) (codes "document") ≡ true =
          (streq-name-document (resource_type_for g request)).1 typed in
        (sent, eq, ground arith)

    block-Looked :
        (s : Globals) (page_uri : Option Bytes) (request : Request) (t : ℕ) (sent : Sent)
        → Looked s page_uri request t sent
        → (sent.block ≡ true) ↔ Blocks g lib w s page_uri request sent.now
    block-Looked s page_uri request t sent l = (sound, complete)
      where
        now : sent.now ≡ l.ready.now
        now = now-Looked s page_uri request t sent l

        exact : (sent.block ≡ true) ↔ (
            (engine : E) × (l.ready.engine ≡ some engine)
            × ((query g lib w engine page_uri l.req_uri request).matched ≡ true)
            × ((query g lib w engine page_uri l.req_uri request).redirect ≡ none))
        exact =
            rw l.result
              (block-with_engine g lib w s page_uri l.req_uri request l.ready l.ready.engine)

        sound : sent.block ≡ true → Blocks g lib w s page_uri request sent.now
        sound h =
            let (engine, e, m, n) = exact.0 h in
            let (set, at) =
              published_engine (w.settled_at l.ready.now) (w.engine_at l.ready.now) l.ready.engine
                engine l.published e in
            record {
              req_uri = l.req_uri;
              engine = engine;
              on = l.on;
              http = l.http;
              free = l.free;
              settled = ap w.settled_at now ∙ set;
              published = ap w.engine_at now ∙ at;
              matched = m;
              not_redirected = n;
            }

        complete : Blocks g lib w s page_uri request sent.now → sent.block ≡ true
        complete b =
            let same : b.req_uri ≡ l.req_uri = some-injective _ _ (sym b.http.0 ∙ l.http.0) in
            let set : w.settled_at l.ready.now ≡ true = sym (ap w.settled_at now) ∙ b.settled in
            let here : l.ready.engine ≡ some b.engine =
              l.published ∙ rw set (sym (ap w.engine_at now) ∙ b.published) in
            exact.1 (b.engine, here, rw (← same) b.matched, rw (← same) b.not_redirected)

    block-Outcome :
        (s : Globals) (page_uri : Option Bytes) (request : Request) (t : ℕ) (sent : Sent)
        → Outcome s page_uri request t sent
        → (sent.block ≡ true) ↔ Blocks g lib w s page_uri request sent.now
    block-Outcome s page_uri request t sent (inr l) = block-Looked s page_uri request t sent l
    block-Outcome s page_uri request t sent (inl (x, e)) =
        rw e (λ h. cc, λ b. absurd (exempt_not_blocked g lib w s page_uri request t x b))

    -- The load is stopped exactly when blocking is on, the address is http, the page is not
    -- allowlisted, the engine is published by then, and its answer is a match with no redirect.
    pub on_send_request-block_iff :
        (s : Globals) (page_uri : Option Bytes) (request : Request) (t : ℕ) (sent : Sent)
        → on_send_request g lib w s page_uri request t ≡ some sent
        → (sent.block ≡ true) ↔ Blocks g lib w s page_uri request sent.now
    on_send_request-block_iff s page_uri request t sent eq =
        let (sent', eq', o) = outcome s page_uri request t in
        let same : sent' ≡ sent = some-injective _ _ (sym eq' ∙ eq) in
        rw (← same) (block-Outcome s page_uri request t sent' o)
