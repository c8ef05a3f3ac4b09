-- ===== src/Qt/Geolocation/Updates/Served.antt =====
-- Updates run while a page wants them, from one source, and WebKit is told of each position.
use atlantic_engine.Base.{
  ℕ, ◌+◌, ◌≡◌, refl, sym, ap, ◌∙◌, Bool, true, false, ◌&&◌, ◌||◌, ◌*◌, Option, none, some, or_else,
  if◌then◌else◌, Bool-cases, inl, inr, List, [], ◌∷◌, ◌++◌, arith,
}
use atlantic_engine.Base.Int.{ℤ, pos}
use atlantic_engine.Qt.Geolocation.{
  Info, Position, or_value, Call, create_source, connect_signals, start_updates, stop_updates,
  set_method, failed, update_position, handle_position_updated, start, stop,
}
use atlantic_engine.Qt.Geolocation.Updates.{
  Event, starts, stops, updated, errs, react, react_all, running, total, of_source, fixes, told,
  AreOf, of_failure, has_source_after, wanted, one_if, troubles,
}

running-append :
    (on : Bool) (cs ds : List Call) → running on (cs ++ ds) ≡ running (running on cs) ds
unfolding running
running-append on [] ds = refl
running-append on (start_updates ∷ cs) ds = running-append true cs ds
running-append on (stop_updates ∷ cs) ds = running-append false cs ds
running-append on (create_source ∷ cs) ds = running-append on cs ds
running-append on (connect_signals ∷ cs) ds = running-append on cs ds
running-append on (set_method b ∷ cs) ds = running-append on cs ds
running-append on (failed ∷ cs) ds = running-append on cs ds
running-append on (update_position p ∷ cs) ds = running-append on cs ds

total-append : (k : Call → ℕ) (cs ds : List Call) → total k (cs ++ ds) ≡ total k cs + total k ds
unfolding total
total-append k [] ds = omega arith
total-append k (c ∷ cs) ds = omega (arith, total-append k cs ds)

-- One event.
react_source :
    (unit : ℕ) (had : Bool) (e : Event) → (react unit had e).0 ≡ has_source_after had (e ∷ [])
unfolding react has_source_after start
react_source unit had (starts a h i) = ground arith
react_source unit had stops = refl
react_source unit had (updated i) = refl
react_source unit had errs = refl

running-react :
    (unit : ℕ) (had on : Bool) (e : Event)
    → running (on && had) (react unit had e).1
      ≡ (wanted on (e ∷ []) && has_source_after had (e ∷ []))
unfolding react has_source_after wanted running start stop handle_position_updated
running-react unit had on (starts a h i) = ground arith
running-react unit had on stops = ground arith
running-react unit had on (updated i) = ground arith
running-react unit had on errs = ground arith

react_made :
    (unit : ℕ) (had : Bool) (e : Event)
    → total of_source (react unit had e).1 + one_if had ≡ one_if (has_source_after had (e ∷ []))
unfolding react has_source_after total start stop handle_position_updated
react_made unit had (starts a h i) = ground arith
react_made unit had stops = ground arith
react_made unit had (updated i) = ground arith
react_made unit had errs = ground arith

told-append : (cs ds : List Call) → told (cs ++ ds) ≡ told cs ++ told ds
unfolding told
told-append [] ds = refl
told-append (update_position p ∷ cs) ds = ap (λ ps. p ∷ ps) (told-append cs ds)
told-append (create_source ∷ cs) ds = told-append cs ds
told-append (connect_signals ∷ cs) ds = told-append cs ds
told-append (start_updates ∷ cs) ds = told-append cs ds
told-append (stop_updates ∷ cs) ds = told-append cs ds
told-append (set_method b ∷ cs) ds = told-append cs ds
told-append (failed ∷ cs) ds = told-append cs ds

append-AreOf :
    (unit : ℕ) (is js : List Info) (ps qs : List Position)
    → AreOf unit is ps
    → AreOf unit js qs
    → AreOf unit (is ++ js) (ps ++ qs)
unfolding AreOf
append-AreOf unit [] js [] qs first second = second
append-AreOf unit [] js (p ∷ ps) qs first second = absurd first
append-AreOf unit (i ∷ is) js [] qs first second = absurd first
append-AreOf unit (i ∷ is) js (p ∷ ps) qs first second =
    (first.0, append-AreOf unit is js ps qs first.1 second)

or_value_lem : (o : Option ℤ) (d : ℤ) → some (or_value o d) ≡ or_else o (some d)
or_value_lem none d = refl
or_value_lem (some v) d = refl

-- A fix with a coordinate is told of as it is.
handle-AreOf :
    (unit : ℕ) (info : Info) (b : Bool)
    → AreOf unit
        (if b && info.coordinate_valid then info ∷ [] else [])
        (told (if b then handle_position_updated unit info else []))
unfolding AreOf told handle_position_updated
handle-AreOf unit info false = tt
handle-AreOf unit info true = elim (Bool-cases info.coordinate_valid) [
  | inl valid ↦ rw valid (
    record {
      place = (refl, refl);
      time = refl;
      accuracy = or_value_lem info.horizontal_accuracy (pos (1000 * unit));
      height = refl;
      height_accuracy = refl;
      motion = (refl, refl);
    },
    tt,
  )
  | inr invalid ↦ rw invalid tt
]

start-told :
    (unit : ℕ) (a h had : Bool) (info : Info)
    → told (start unit a h info had).1
      ≡ told (if (had || a) && info.valid then handle_position_updated unit info else [])
unfolding start told handle_position_updated
start-told unit a h had info = ground arith

start_fixes :
    (a h had : Bool) (info : Info)
    → fixes had (starts a h info ∷ [])
      ≡ (if ((had || a) && info.valid) && info.coordinate_valid then info ∷ [] else [])
unfolding fixes
start_fixes a h had info = ground arith

fixes-react :
    (unit : ℕ) (had : Bool) (e : Event)
    → AreOf unit (fixes had (e ∷ [])) (told (react unit had e).1)
unfolding react fixes told stop AreOf
fixes-react unit had (starts a h i) =
    rw (start_fixes a h had i, start-told unit a h had i)
      (handle-AreOf unit i ((had || a) && i.valid))
fixes-react unit true stops = tt
fixes-react unit false stops = tt
fixes-react unit had (updated i) = handle-AreOf unit i had
fixes-react unit true errs = tt
fixes-react unit false errs = tt

troubles-react :
    (unit : ℕ) (had : Bool) (e : Event)
    → total of_failure (react unit had e).1 ≡ troubles had (e ∷ [])
unfolding react troubles total start stop handle_position_updated
troubles-react unit had (starts a h i) = ground arith
troubles-react unit had stops = ground arith
troubles-react unit had (updated i) = ground arith
troubles-react unit had errs = ground arith

-- What is expected, event by event.
after_step :
    (had : Bool) (e : Event) (es : List Event)
    → has_source_after had (e ∷ es) ≡ has_source_after (has_source_after had (e ∷ [])) es
unfolding has_source_after
after_step had (starts a h i) es = refl
after_step had stops es = refl
after_step had (updated i) es = refl
after_step had errs es = refl

wanted_step :
    (on : Bool) (e : Event) (es : List Event) → wanted on (e ∷ es) ≡ wanted (wanted on (e ∷ [])) es
unfolding wanted
wanted_step on (starts a h i) es = refl
wanted_step on stops es = refl
wanted_step on (updated i) es = refl
wanted_step on errs es = refl

fixes_step :
    (had : Bool) (e : Event) (es : List Event)
    → fixes had (e ∷ es) ≡ fixes had (e ∷ []) ++ fixes (has_source_after had (e ∷ [])) es
unfolding has_source_after fixes
fixes_step had (starts a h i) es = ground arith
fixes_step had stops es = refl
fixes_step had (updated i) es = ground arith
fixes_step had errs es = refl

troubles_step :
    (had : Bool) (e : Event) (es : List Event)
    → troubles had (e ∷ es) ≡ troubles had (e ∷ []) + troubles (has_source_after had (e ∷ [])) es
unfolding has_source_after troubles
troubles_step had (starts a h i) es = omega arith
troubles_step had stops es = omega arith
troubles_step had (updated i) es = omega arith
troubles_step had errs es = omega arith

-- What comes of a series of events, from a bridge with a source or without.
record Serves (unit : ℕ) (had on : Bool) (es : List Event) : Type 0 where
  source : (react_all unit had es).0 ≡ has_source_after had es
  updates :
      running (on && had) (react_all unit had es).1 ≡ (wanted on es && has_source_after had es)
  made : total of_source (react_all unit had es).1 + one_if had ≡ one_if (has_source_after had es)
  positions : AreOf unit (fixes had es) (told (react_all unit had es).1)
  failures : total of_failure (react_all unit had es).1 ≡ troubles had es

react_all-Serves : (unit : ℕ) (had on : Bool) (es : List Event) → Serves unit had on es
unfolding react_all has_source_after wanted running total fixes told AreOf troubles
react_all-Serves unit had on [] = record {
  source = refl;
  updates = refl;
  made = omega arith;
  positions = tt;
  failures = refl;
}
react_all-Serves unit had on (e ∷ es) =
    let r = react unit had e in
    let more = (react_all unit r.0 es).1 in
    let on1 = wanted on (e ∷ []) in
    let rest = react_all-Serves unit r.0 on1 es in
    let after =
      ap (λ b. has_source_after b es) (react_source unit had e) ∙ sym (after_step had e es) in
    record {
      source = rest.source ∙ after;
      updates =
          running-append (on && had) r.1 more
          ∙ (ap (λ b. running b more)
                (running-react unit had on e ∙ ap (λ b. on1 && b) (sym (react_source unit had e)))
              ∙ (rest.updates
                  ∙ (ap (λ b. b && has_source_after r.0 es) (sym (wanted_step on e es))
                      ∙ ap (λ b. wanted on (e ∷ es) && b) after)));
      made = omega (
        arith,
        total-append of_source r.1 more,
        react_made unit had e,
        rest.made,
        ap one_if (react_source unit had e),
        ap one_if after,
      );
      positions =
          rw (fixes_step had e es, told-append r.1 more, sym (react_source unit had e))
            (append-AreOf unit (fixes had (e ∷ [])) (fixes r.0 es) (told r.1) (told more)
              (fixes-react unit had e) rest.positions);
      failures = omega (
        arith,
        total-append of_failure r.1 more,
        troubles-react unit had e,
        rest.failures,
        troubles_step had e es,
        ap (λ b. troubles b es) (react_source unit had e),
      );
    }

-- Take any order of starts, stops, position updates and errors on a new bridge. A position source is
-- made at most once, at the first start at which Qt has one. Its updates run if and only if there is a
-- source and the last signal of the manager was a start. WebKit is told, in order, the
-- position of each update of the source with a valid coordinate, and of each start with a source whose
-- last known position and its coordinate are valid: the latitude, the longitude, the time, the
-- accuracy or 1000 m where there is none, the altitude and its accuracy if the coordinate has three
-- dimensions, the speed and the heading. It is told of one failure for each start without a source and
-- each error of the source.
pub react_all_lem :
    (unit : ℕ) (es : List Event)
    → let calls = (react_all unit false es).1 in
      (total of_source calls ≡ one_if (has_source_after false es))
      × (running false calls ≡ (wanted false es && has_source_after false es))
      × AreOf unit (fixes false es) (told calls)
      × (total of_failure calls ≡ troubles false es)
react_all_lem unit es =
    let serves = react_all-Serves unit false false es in
    (omega (arith, serves.made), serves.updates, serves.positions, serves.failures)
