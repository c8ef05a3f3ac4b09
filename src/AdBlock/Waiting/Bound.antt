-- ===== src/AdBlock/Waiting/Bound.antt =====
-- How long ready_engine waits, alone and over a sequence of requests.
use atlantic_engine.Base.{
  ℕ, zero, suc, ◌+◌, ◌-◌, ◌*◌, ◌≤◌, ◌<◌, ◌≡◌, ◌⊎◌, inl, inr, refl, ap, ◌∙◌, Bool, true, false,
  Bool-cases, Option, none, some, List, [], ◌∷◌, ◌>>=◌, if◌then◌else◌, arith,
}
use atlantic_engine.AdBlock.Waiting.{
  World, WorldLaws, engine_wait_us, Statics, Ready, wait_loop, after_wait, ready_engine,
}

module _ {E : Type 0} (w : World E) {slack : ℕ} (laws : WorldLaws w slack) where
  -- With a round of fuel for each microsecond left, the loop ends in time.
  wait_loop_ends :
      (fuel deadline t : ℕ)
      → deadline + 1 < t + fuel
      → 0 < fuel
      → t ≤ deadline + slack
      → (t' : ℕ) × (wait_loop w fuel deadline t ≡ some t') × (t ≤ t') × (t' ≤ deadline + 2 * slack)
  unfolding wait_loop
  wait_loop_ends zero deadline t h pos late = absurd (omega arith)
  wait_loop_ends (suc fuel) deadline t h pos late = elim (Bool-cases (w.settled_at t)) [
    | inl e ↦ (t, rw e, omega arith, omega arith)
    | inr e ↦ elim (Bool-cases (w.cond_wait t deadline).1) [
      | inl woken ↦
          let early : t < deadline = ground (arith, laws.wait_expires t deadline) in
          rw (e, woken)
            (ground (
              arith,
              laws.wait_advances t deadline,
              laws.wait_prompt t deadline,
              wait_loop_ends fuel deadline (w.cond_wait t deadline).0,
            ))
      | inr timeout ↦ (
        (w.cond_wait t deadline).0,
        rw (e, timeout),
        omega (arith, laws.wait_advances t deadline),
        omega (arith, laws.wait_prompt t deadline),
      )
    ]
  ]

  -- A later call of `ready_engine` will not wait: the flag is set, or a wait has timed out.
  abbrev IsQuiet : Statics → ℕ → Type 0
  IsQuiet s t = (w.settled_at t ≡ true) ⊎ (s.wait_expired ≡ true)

  -- The engine is the published one if the flag is set when the call returns, and else NULL.
  abbrev IsPublished : Ready E → Type 0
  IsPublished r = r.engine ≡ (if w.settled_at r.now then w.engine_at r.now else none)

  -- Every call returns: at once and with no change of what makes it wait, or in a quiet state after
  -- a wait that is bounded.
  abbrev Outcome : Statics → Bool → ℕ → Type 0
  Outcome s may_wait start =
      (r : Ready E) × IsPublished r
      × (((r.now ≡ start) × (r.statics.wait_expired ≡ s.wait_expired))
          ⊎ ((may_wait ≡ true)
              × IsQuiet r.statics r.now
              × (start ≤ r.now)
              × (r.now ≤ start + engine_wait_us + 2 * slack)))

  after_wait-Outcome :
      (s : Statics) (start t : ℕ)
      → start ≤ t
      → t ≤ start + engine_wait_us + 2 * slack
      → (o : Outcome s true start) × (after_wait w s (some t) ≡ some o.0)
  unfolding after_wait
  after_wait-Outcome s start t lo hi = elim (Bool-cases (w.settled_at t)) [
    | inl e ↦ (
      (record { engine = w.engine_at t; statics = s; now = t }, rw e, inr (refl, inl e, lo, hi)),
      rw e,
    )
    | inr e ↦ (
      (
        record { engine = none; statics = record s { wait_expired = true }; now = t },
        rw e,
        inr (refl, inr refl, lo, hi),
      ),
      rw e,
    )
  ]

  waits :
      (s : Statics) (start : ℕ)
      → w.settled_at start ≡ false
      → s.wait_expired ≡ false
      → ready_engine w s true start
        ≡ after_wait w s (wait_loop w (engine_wait_us + 2) (start + engine_wait_us) start)
  unfolding ready_engine
  waits s start e fresh = simp (e, fresh)

  waits-Outcome :
      (s : Statics) (start : ℕ)
      → w.settled_at start ≡ false
      → s.wait_expired ≡ false
      → (o : Outcome s true start) × (ready_engine w s true start ≡ some o.0)
  waits-Outcome s start e fresh =
      let (t, ended, lo, hi) =
        wait_loop_ends (engine_wait_us + 2) (start + engine_wait_us) start (omega arith)
          (omega arith) (omega arith) in
      let (o, eq) = after_wait-Outcome s start t lo hi in
      (o, waits s start e fresh ∙ ap (after_wait w s) ended ∙ eq)

  ready_engine-Outcome :
      (s : Statics) (may_wait : Bool) (start : ℕ)
      → (o : Outcome s may_wait start) × (ready_engine w s may_wait start ≡ some o.0)
  unfolding ready_engine
  ready_engine-Outcome s true start = elim (Bool-cases (w.settled_at start)) [
    | inl e ↦ (
      (record { engine = w.engine_at start; statics = s; now = start }, rw e, inl (refl, refl)),
      rw e,
    )
    | inr e ↦ elim (Bool-cases s.wait_expired) [
      | inl expired ↦ (
        (record { engine = none; statics = s; now = start }, rw e, inl (refl, refl)),
        simp (e, expired),
      )
      | inr fresh ↦ waits-Outcome s start e fresh
    ]
  ]
  ready_engine-Outcome s false start = elim (Bool-cases (w.settled_at start)) [
    | inl e ↦ (
      (record { engine = w.engine_at start; statics = s; now = start }, rw e, inl (refl, refl)),
      rw e,
    )
    | inr e ↦ (
      (
        record { engine = none; statics = record s { logged_skip = true }; now = start },
        rw e,
        inl (refl, refl),
      ),
      rw e,
    )
  ]

  -- A call that may not wait returns at once, with the engine only if the flag is already set.
  -- A call that may wait returns within the wait and twice the slack of the scheduler. Either way
  -- it returns the published engine if the flag is set at that time, and NULL otherwise.
  pub ready_engine_returns :
      (s : Statics) (may_wait : Bool) (start : ℕ)
      → (r : Ready E) × (ready_engine w s may_wait start ≡ some r)
        × (r.engine ≡ (if w.settled_at r.now then w.engine_at r.now else none))
        × (start ≤ r.now)
        × (r.now ≤ start + (if may_wait then engine_wait_us + 2 * slack else 0))
  ready_engine_returns s may_wait start =
      let ((r, published, how), eq) = ready_engine-Outcome s may_wait start in
      (r, eq, published, ground arith, ground arith)

  ready_engine-IsQuiet :
      (s : Statics) (may_wait : Bool) (start : ℕ)
      → IsQuiet s start
      → (r : Ready E) × (ready_engine w s may_wait start ≡ some r)
        × (r.now ≡ start)
        × IsQuiet r.statics r.now
  unfolding ready_engine
  ready_engine-IsQuiet s may_wait start q = elim (Bool-cases (w.settled_at start)) [
    | inl e ↦ (record { engine = w.engine_at start; statics = s; now = start }, rw e, refl, inl e)
    | inr e ↦
        let expired : s.wait_expired ≡ true = ground arith in
        elim (Bool-cases may_wait) [
          | inl may ↦ (
            record { engine = none; statics = s; now = start },
            rw (e, may, expired),
            refl,
            inr expired,
          )
          | inr skip ↦ (
            record { engine = none; statics = record s { logged_skip = true }; now = start },
            rw (e, skip),
            refl,
            inr expired,
          )
        ]
  ]

  IsQuiet-later : (s : Statics) (t u : ℕ) → t ≤ u → IsQuiet s t → IsQuiet s u
  IsQuiet-later s t u h (inl e) = inl (laws.settled_stays t u h e)
  IsQuiet-later s t u h (inr e) = inr e

-- The time that a sequence of requests spends in `ready_engine`: each comes some time after the
-- return of the one before.
unfoldable pub time_blocked : {E : Type 0} → World E → Statics → ℕ → List (ℕ × Bool) → Option ℕ
time_blocked w s t [] = some 0
time_blocked w s t ((gap, may_wait) ∷ requests) = do
  r ← ready_engine w s may_wait (t + gap)
  rest ← time_blocked w r.statics r.now requests
  some (r.now - (t + gap) + rest)

module _ {E : Type 0} (w : World E) {slack : ℕ} (laws : WorldLaws w slack) where
  time_blocked_quiet :
      (s : Statics) (t : ℕ) (requests : List (ℕ × Bool))
      → IsQuiet w laws s t
      → time_blocked w s t requests ≡ some 0
  unfolding time_blocked
  time_blocked_quiet s t [] q = refl
  time_blocked_quiet s t ((gap, may_wait) ∷ requests) q =
      let (r, eq, now, quiet) =
        ready_engine-IsQuiet w laws s may_wait (t + gap)
          (IsQuiet-later w laws s t (t + gap) (omega arith) q) in
      rw (eq, time_blocked_quiet r.statics r.now requests quiet) (ap some (omega arith))

  -- However many requests come and whenever, all of them together wait for the engine at most the
  -- five seconds of one wait and twice the slack of the scheduler, whether or not the load settles.
  pub time_blocked-le :
      (s : Statics) (t : ℕ) (requests : List (ℕ × Bool))
      → (total : ℕ) × (time_blocked w s t requests ≡ some total)
        × (total ≤ engine_wait_us + 2 * slack)
  unfolding time_blocked
  time_blocked-le s t [] = (0, refl, omega arith)
  time_blocked-le s t ((gap, may_wait) ∷ requests) =
      let ((r, published, how), eq) = ready_engine-Outcome w laws s may_wait (t + gap) in
      let (rest, later, bound) = time_blocked-le r.statics r.now requests in
      elim how [
        | inl (at_once, same) ↦ (r.now - (t + gap) + rest, rw (eq, later), omega arith)
        | inr (may, quiet, lo, hi) ↦ (
          r.now - (t + gap) + 0,
          rw (eq, time_blocked_quiet r.statics r.now requests quiet),
          omega arith,
        )
      ]
