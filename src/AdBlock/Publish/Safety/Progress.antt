-- ===== src/AdBlock/Publish/Safety/Progress.antt =====
-- A waiting main thread can always get the engine of the load.
use atlantic_engine.Base.{◌≡◌, refl, ap, Bool, true, false, Option, arith}
use atlantic_engine.AdBlock.Publish.{
  free, by_main, LoaderPc, loading, locked, stored, flagged, notified, finished, testing, sleeping,
  woken, leaving, checking, reading, got, Shared, notify, Step, lock, store, set_flag, broadcast,
  wake, unlock, test_hit, relock, main_unlock, check_hit, read_engine, Reach,
}
use atlantic_engine.AdBlock.Publish.Safety.{
  Inv, Reach-Inv, is_before_broadcast, sleeping_before_broadcast,
}

-- The wait ends without a broadcast: by a timeout, or spuriously.
abbrev pub is_wake : {E : Type 0} {loaded : Option E} {s t : Shared E} → Step loaded s t → Bool
is_wake (wake s timed_out at) = true
is_wake _ = false

-- Any number of steps, and no wait ends without a broadcast.
pub data Steps {E : Type 0} (loaded : Option E) : Shared E → Shared E → Type 0 where
  done : {s : Shared E} → Steps loaded s s
  then_ :
      {s t u : Shared E} (st : Step loaded s t)
      → is_wake st ≡ false
      → Steps loaded t u
      → Steps loaded s u

-- From the state, the main thread can come to return what the load ended with.
abbrev pub CanReturn : {E : Type 0} → Option E → Shared E → Type 0
CanReturn {E} loaded s = (t : Shared E) × Steps loaded s t × (t.main ≡ got loaded)

module _ {E : Type 0} {loaded : Option E} where
  one :
      {s t : Shared E} (st : Step loaded s t)
      → is_wake st ≡ false
      → CanReturn loaded t
      → CanReturn loaded s
  one st quiet (u, steps, e) = (u, then_ st quiet steps, e)

  from_notified :
      (s : Shared E)
      → s.loader ≡ notified
      → s.main ≡ woken false
      → s.settled ≡ true
      → s.engine ≡ loaded
      → CanReturn loaded s
  from_notified s l m f e =
      let s1 : Shared E = record s { loader = finished; owner = free } in
      let s2 : Shared E = record s1 { main = testing; owner = by_main } in
      let s3 : Shared E = record s2 { main = leaving } in
      let s4 : Shared E = record s3 { main = checking; owner = free } in
      let s5 : Shared E = record s4 { main = reading } in
      let s6 : Shared E = record s5 { main = got s.engine } in
      one (unlock s l) refl (
        one (relock s1 false m refl) refl (
          one (test_hit s2 refl f) refl (
            one (main_unlock s3 refl) refl (
              one (check_hit s4 refl f) refl
                (one (read_engine s5 refl) refl (s6, done, ap got e))))))

  from_flagged :
      (s : Shared E)
      → s.loader ≡ flagged
      → s.main ≡ sleeping
      → s.settled ≡ true
      → s.engine ≡ loaded
      → CanReturn loaded s
  unfolding notify
  from_flagged s l m f e = one (broadcast s l) refl (from_notified _ refl (ap notify m) f e)

  from_stored :
      (s : Shared E)
      → s.loader ≡ stored
      → s.main ≡ sleeping
      → s.engine ≡ loaded
      → CanReturn loaded s
  from_stored s l m e = one (set_flag s l) refl (from_flagged _ refl m refl e)

  from_locked : (s : Shared E) → s.loader ≡ locked → s.main ≡ sleeping → CanReturn loaded s
  from_locked s l m = one (store s l) refl (from_stored _ refl m refl)

  from_loading :
      (s : Shared E) → s.loader ≡ loading → s.owner ≡ free → s.main ≡ sleeping → CanReturn loaded s
  from_loading s l o m = one (lock s l o) refl (from_locked _ refl m)

  from_Inv :
      (s : Shared E) (pc : LoaderPc)
      → s.loader ≡ pc
      → is_before_broadcast pc ≡ true
      → s.main ≡ sleeping
      → Inv loaded s
      → CanReturn loaded s
  from_Inv s loading l b m inv = from_loading s l (ground arith) m
  from_Inv s locked l b m inv = from_locked s l m
  from_Inv s stored l b m inv = from_stored s l m (ground arith)
  from_Inv s flagged l b m inv = from_flagged s l m (ground arith) (ground arith)
  from_Inv s notified l b m inv = cc
  from_Inv s finished l b m inv = cc

-- From every state that can be reached in which the main thread sleeps, some further steps of the two
-- threads lead it to return what the load ended with, and none of them is a timeout or a spurious end
-- of the wait: the broadcast is still to come, and it is enough.
pub sleeping-CanReturn :
    {E : Type 0} {loaded : Option E} {s : Shared E}
    → Reach loaded s
    → s.main ≡ sleeping
    → CanReturn loaded s
sleeping-CanReturn {s = s} r at =
    let inv = Reach-Inv r in from_Inv s s.loader refl (sleeping_before_broadcast r at) at inv
