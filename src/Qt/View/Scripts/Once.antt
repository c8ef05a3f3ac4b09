-- ===== src/Qt/View/Scripts/Once.antt =====
-- Each script is answered at most once, none after the view is gone, and nothing is kept.
use atlantic_engine.Base.{
  ℕ, zero, suc, ◌+◌, ◌≤◌, ◌≡◌, refl, Bool, false, Option, none, some, List, [], ◌∷◌, ◌++◌,
  if◌then◌else◌, ◌==◌, ltb, arith,
}
use atlantic_engine.Qt.View.{View}
use atlantic_engine.Qt.View.Scripts.{
  Resource, callback_data, Act, Value, run_javascript, argument, js_async_ready_callback,
}
use atlantic_engine.Qt.View.Scripts.Answers.{
  Scripts, Event, makes, runs, destroyed, finishes, nth, without, finish, react, react_all, total,
  of_acquired, of_released, of_call, occurs, held, no_scripts,
}

total-append : (k : Act → ℕ) (xs ys : List Act) → total k (xs ++ ys) ≡ total k xs + total k ys
unfolding total
total-append k [] ys = omega arith
total-append k (x ∷ xs) ys = omega (arith, total-append k xs ys)

-- What one answer does.
answer_balance :
    (w : Resource → ℕ) (alive engine : Bool) (id : ℕ) (value : Option Value)
    → let acts = js_async_ready_callback alive engine id value in
      total (of_acquired w) acts + w callback_data ≡ total (of_released w) acts
unfolding js_async_ready_callback argument total
answer_balance w alive engine id none = ground arith
answer_balance w alive engine id (some value) = ground arith

answer_calls :
    (alive engine : Bool) (id n : ℕ) (value : Option Value)
    → total (of_call n) (js_async_ready_callback alive engine id value)
      ≤ (if alive then (if n == id then 1 else 0) else 0)
unfolding js_async_ready_callback argument total
answer_calls alive engine id n none = ground arith
answer_calls alive engine id n (some value) = ground arith

without-held :
    (w : Resource → ℕ) (i id : ℕ) (xs : List ℕ)
    → nth i xs ≡ some id
    → held w xs ≡ w callback_data + held w (without i xs)
unfolding held
without-held w i id [] found = cc (found)
without-held w zero id (x ∷ xs) found = refl
without-held w (suc i) id (x ∷ xs) found = omega (arith, without-held w i id xs found)

without-occurs :
    (n i id : ℕ) (xs : List ℕ)
    → nth i xs ≡ some id
    → occurs n xs ≡ (if n == id then 1 else 0) + occurs n (without i xs)
unfolding occurs
without-occurs n i id [] found = cc (found)
without-occurs n zero id (x ∷ xs) found = ground (arith, found)
without-occurs n (suc i) id (x ∷ xs) found = omega (arith, without-occurs n i id xs found)

finish_balance :
    (w : Resource → ℕ) (s : Scripts) (i : ℕ) (engine : Bool) (value : Option Value) (o : Option ℕ)
    → nth i s.pending ≡ o
    → let r = finish i engine value o s in
      total (of_acquired w) r.1 + held w s.pending ≡ total (of_released w) r.1 + held w r.0.pending
unfolding finish total
finish_balance w s i engine value none found = omega arith
finish_balance w s i engine value (some id) found =
    omega (arith, answer_balance w s.alive engine id value, without-held w i id s.pending found)

react_balance :
    (w : Resource → ℕ) (s : Scripts) (e : Event)
    → total (of_acquired w) (react s e).1 + held w s.pending
      ≡ total (of_released w) (react s e).1 + held w (react s e).0.pending
unfolding react run_javascript total held
react_balance w s makes = refl
react_balance w s (runs script) = ground arith
react_balance w s destroyed = refl
react_balance w s (finishes i engine value) =
    finish_balance w s i engine value (nth i s.pending) refl

react_all_balance :
    (w : Resource → ℕ) (s : Scripts) (es : List Event)
    → total (of_acquired w) (react_all s es).1 + held w s.pending
      ≡ total (of_released w) (react_all s es).1 + held w (react_all s es).0.pending
unfolding react_all total
react_all_balance w s [] = refl
react_all_balance w s (e ∷ es) =
    let more = (react_all (react s e).0 es).1 in
    omega (
      arith,
      total-append (of_acquired w) (react s e).1 more,
      total-append (of_released w) (react s e).1 more,
      react_balance w s e,
      react_all_balance w (react s e).0 es,
    )

-- How often a script can still be answered.
abbrev chances : ℕ → Scripts → ℕ
chances n s = occurs n s.pending + (if ltb n s.next then 0 else 1)

chances-finish :
    (n : ℕ) (s : Scripts) (i : ℕ) (engine : Bool) (value : Option Value) (o : Option ℕ)
    → nth i s.pending ≡ o
    → let r = finish i engine value o s in total (of_call n) r.1 + chances n r.0 ≤ chances n s
unfolding finish total
chances-finish n s i engine value none found = omega arith
chances-finish n s i engine value (some id) found =
    ground (arith, answer_calls s.alive engine id n value, without-occurs n i id s.pending found)

chances-react :
    (n : ℕ) (s : Scripts) (e : Event)
    → total (of_call n) (react s e).1 + chances n (react s e).0 ≤ chances n s
unfolding react run_javascript total occurs
chances-react n s makes = omega arith
chances-react n s (runs script) = ground arith
chances-react n s destroyed = omega arith
chances-react n s (finishes i engine value) =
    chances-finish n s i engine value (nth i s.pending) refl

chances-react_all :
    (n : ℕ) (s : Scripts) (es : List Event)
    → total (of_call n) (react_all s es).1 + chances n (react_all s es).0 ≤ chances n s
unfolding react_all total
chances-react_all n s [] = omega arith
chances-react_all n s (e ∷ es) =
    let more = (react_all (react s e).0 es).1 in
    omega (
      arith,
      total-append (of_call n) (react s e).1 more,
      chances-react n s e,
      chances-react_all n (react s e).0 es,
    )

finish_dead :
    (n : ℕ) (s : Scripts) (engine : Bool) (i : ℕ) (value : Option Value) (o : Option ℕ)
    → s.alive ≡ false
    → let r = finish i engine value o s in (total (of_call n) r.1 ≡ 0) × (r.0.alive ≡ false)
unfolding finish total
finish_dead n s engine i value none dead = (refl, dead)
finish_dead n s engine i value (some id) dead =
    ground (arith, answer_calls s.alive engine id n value)

react_dead :
    (n : ℕ) (s : Scripts) (e : Event)
    → s.alive ≡ false
    → (total (of_call n) (react s e).1 ≡ 0) × ((react s e).0.alive ≡ false)
unfolding react total
react_dead n s makes dead = (refl, dead)
react_dead n s (runs script) dead = ground arith
react_dead n s destroyed dead = (refl, refl)
react_dead n s (finishes i engine value) dead =
    finish_dead n s engine i value (nth i s.pending) dead

react_all_dead :
    (n : ℕ) (s : Scripts) (es : List Event)
    → s.alive ≡ false
    → total (of_call n) (react_all s es).1 ≡ 0
unfolding react_all total
react_all_dead n s [] dead = refl
react_all_dead n s (e ∷ es) dead =
    let (quiet, still) = react_dead n s e dead in
    omega (
      arith,
      total-append (of_call n) (react s e).1 (react_all (react s e).0 es).1,
      quiet,
      react_all_dead n (react s e).0 es still,
    )

-- From a view that has run no script, take any order of making the web view, running scripts,
-- finishing them with a value or an error, and destroying the view. The callback of each script is
-- called at most once. Of each kind of thing that the code acquires (the data of a callback, an error,
-- a value, a string) all is released, except for the callback data of the scripts that WebKit still
-- runs. After the view is destroyed no callback is called.
pub react_all_once :
    (v : View) (es later : List Event) (n : ℕ) (w : Resource → ℕ)
    → let (s, acts) = react_all (no_scripts v) es in
      (total (of_call n) acts ≤ 1)
      × (total (of_acquired w) acts ≡ total (of_released w) acts + held w s.pending)
      × (total (of_call n) (react_all (react s destroyed).0 later).1 ≡ 0)
unfolding held occurs react
react_all_once v es later n w =
    let s = (react_all (no_scripts v) es).0 in
    (
      ground (arith, chances-react_all n (no_scripts v) es),
      omega (arith, react_all_balance w (no_scripts v) es),
      react_all_dead n (record s { alive = false }) later refl,
    )
