-- ===== src/AdBlock/Waiting.antt =====
-- ready_engine: the engine, once its load has settled, and the bounded wait for that.
pub mod Bound
mod Tests
use atlantic_engine.Base.{
  ℕ, zero, suc, ◌+◌, ◌*◌, ◌≤◌, ◌<◌, ◌≡◌, Bool, true, false, Option, none, some, if◌then◌else◌, min,
}
use Prim.Native.Nat.{max}

-- What the main thread sees of the loader thread and of time, in microseconds: the flag
-- `g_engine_settled` and the pointer `g_engine` at each time, and `g_cond_wait_until`, entered at a
-- time with a deadline: when it returns, and what.
pub record World (E : Type 0) : Type 0 where
  pub settled_at : ℕ → Bool
  pub engine_at : ℕ → Option E
  pub cond_wait : ℕ → ℕ → ℕ × Bool

-- What the code relies on: a set flag stays set, a wait takes time, it returns FALSE if the
-- deadline has passed, and it returns at most `slack` after its deadline.
pub record WorldLaws {E : Type 0} (w : World E) (slack : ℕ) : Type 0 where
  pub settled_stays : (s t : ℕ) → s ≤ t → w.settled_at s ≡ true → w.settled_at t ≡ true
  pub wait_advances : (t d : ℕ) → t < (w.cond_wait t d).0
  pub wait_expires : (t d : ℕ) → d ≤ t → (w.cond_wait t d).1 ≡ false
  pub wait_prompt : (t d : ℕ) → (w.cond_wait t d).0 ≤ max t d + slack

-- `ATL_ENGINE_WAIT_US`
abbrev pub engine_wait_us : ℕ
engine_wait_us = 5 * 1000000

-- The two function-local static flags.
pub record Statics : Type 0 where
  pub wait_expired : Bool
  pub logged_skip : Bool

abbrev pub no_waits : Statics
no_waits = record { wait_expired = false; logged_skip = false }

-- What the call returns, the statics after it, and the time at which it returns.
pub record Ready (E : Type 0) : Type 0 where
  pub engine : Option E
  pub statics : Statics
  pub now : ℕ

module _ {E : Type 0} (w : World E) where
  -- The loop under the mutex: the time at which it ends. It ends at a test that sees the flag, or
  -- after a wait that timed out; `none` means that the fuel ran out.
  pub wait_loop : ℕ → ℕ → ℕ → Option ℕ
  wait_loop zero deadline t = none
  wait_loop (suc fuel) deadline t =
      let again = wait_loop fuel deadline (w.cond_wait t deadline).0 in
      if w.settled_at t
      then some t
      else if (w.cond_wait t deadline).1
      then again
      else some (w.cond_wait t deadline).0

  -- After the loop, at its end `t`: the flag is read again.
  after_wait : Statics → Option ℕ → Option (Ready E)
  after_wait s none = none
  after_wait s (some t) = some (
      if w.settled_at t
      then record { engine = w.engine_at t; statics = s; now = t }
      else record { engine = none; statics = record s { wait_expired = true }; now = t })

  -- Called at the time `start`. The fuel is one round for each microsecond of the wait.
  pub ready_engine : Statics → Bool → ℕ → Option (Ready E)
  ready_engine s may_wait start =
      if w.settled_at start
      then some (record { engine = w.engine_at start; statics = s; now = start })
      else if may_wait
      then if s.wait_expired
        then some (record { engine = none; statics = s; now = start })
        else after_wait s (wait_loop (engine_wait_us + 2) (start + engine_wait_us) start)
      else some (record { engine = none; statics = record s { logged_skip = true }; now = start })
