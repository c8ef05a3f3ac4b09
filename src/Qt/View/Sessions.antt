-- ===== src/Qt/View/Sessions.antt =====
-- The network sessions of the views of qt5-plugin/WPEQtView.cpp.
use atlantic_engine.Base.{
  ℕ, suc, ◌≡◌, refl, Bool, Option, none, some, List, [], ◌∷◌, ◌++◌, if◌then◌else◌, arith,
}

-- The static pointer of `privateSession`, and the next session that WebKit makes. A session is a number.
pub record Sessions : Type 0 where
  pub s_session : Option ℕ
  pub next : ℕ

pub data Call : Type 0 where
  new_ephemeral : ℕ → Call
  new_view : Option ℕ → Call  -- with a session, or with the default one
  clear_data : ℕ → Call

-- `privateSession`
unfoldable pub private_session : Sessions → Sessions × ℕ × List Call
private_session s = from s.s_session
  where
    from : Option ℕ → Sessions × ℕ × List Call
    from none =
        (record { s_session = some (s.next); next = suc s.next }, s.next, new_ephemeral s.next ∷ [])
    from (some session) = (s, session, [])

-- The two constructions of `createWebView`.
unfoldable pub make_view : Bool → Sessions → Sessions × List Call
make_view private s =
    let (s1, session, calls) = private_session s in
    if private then (s1, calls ++ new_view (some session) ∷ []) else (s, new_view none ∷ [])

-- `clearPrivateBrowsingData`, with whether the session has a data manager.
unfoldable pub clear_private_browsing_data : Bool → Sessions → Sessions × List Call
clear_private_browsing_data has_manager s =
    let (s1, session, calls) = private_session s in
    (s1, if has_manager then calls ++ clear_data session ∷ [] else calls)

pub data Event : Type 0 where
  makes : Bool → Event
  clears : Bool → Event

unfoldable pub react : Sessions → Event → Sessions × List Call
react s (makes private) = make_view private s
react s (clears has_manager) = clear_private_browsing_data has_manager s

unfoldable pub react_all : Sessions → List Event → Sessions × List Call
react_all s [] = (s, [])
react_all s (e ∷ es) =
    let (s1, calls) = react s e in let (s2, more) = react_all s1 es in (s2, calls ++ more)

-- What is asked of WebKit once there is the session `n`.
unfoldable pub due : ℕ → List Event → List Call
due n [] = []
due n (makes private ∷ es) = new_view (if private then some n else none) ∷ due n es
due n (clears has_manager ∷ es) =
    let rest = due n es in if has_manager then clear_data n ∷ rest else rest

-- The same from the start: the session comes right before its first use.
unfoldable pub due_first : ℕ → List Event → List Call
due_first n [] = []
due_first n (makes private ∷ es) =
    let rest = due_first n es in
    if private then new_ephemeral n ∷ new_view (some n) ∷ due n es else new_view none ∷ rest
due_first n (clears has_manager ∷ es) = new_ephemeral n ∷ due n (clears has_manager ∷ es)

react_all-due :
    (n m : ℕ) (es : List Event)
    → (react_all (record { s_session = some n; next = m }) es).1 ≡ due n es
unfolding react_all react make_view clear_private_browsing_data private_session due
react_all-due n m [] = refl
react_all-due n m (makes private ∷ es) = ground (arith, react_all-due n m es)
react_all-due n m (clears has_manager ∷ es) = ground (arith, react_all-due n m es)

-- All private views, and all requests to clear private data, use one ephemeral session that is made
-- right before the first of them; the other views use the default session.
pub react_all-due_first :
    (n : ℕ) (es : List Event)
    → (react_all (record { s_session = none; next = n }) es).1 ≡ due_first n es
unfolding react_all react make_view clear_private_browsing_data private_session due_first due
react_all-due_first n [] = refl
react_all-due_first n (makes private ∷ es) =
    ground (arith, react_all-due_first n es, react_all-due n (suc n) es)
react_all-due_first n (clears has_manager ∷ es) = ground (arith, react_all-due n (suc n) es)
