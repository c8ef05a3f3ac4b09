-- ===== src/Qt/View/Closing/Handlers.antt =====
-- When a view is destroyed, no handler has it as its data any more.
use atlantic_engine.Base.{
  ℕ, ◌≡◌, refl, ap, ◌∙◌, Bool, true, false, Option, none, some, List, [], ◌∷◌, ◌++◌, if◌then◌else◌,
  arith, map,
}
use atlantic_engine.Qt.Subsurface
use atlantic_engine.Qt.Subsurface.{Handle, shader, Surface, destroy}
use atlantic_engine.Qt.View.{View}
use atlantic_engine.Qt.View.Closing.{
  Handler, is_same, permission_request, of_embedder, connected, Farewell, delete_overlay, last_call,
  disconnect, disconnects, handlers, handlers_after, disconnect_by_func, of_view, destroy_view,
  delete_subsurface,
}

is_same_embedder : (h : Handler) (n : ℕ) → is_same h (of_embedder n) ≡ false
is_same_embedder h n = ground arith

embedder-disconnect :
    (h : Handler) (ns : List ℕ) → disconnect_by_func h (map of_embedder ns) ≡ map of_embedder ns
unfolding disconnect_by_func
embedder-disconnect h [] = refl
embedder-disconnect h (n ∷ ns) =
    rw (is_same_embedder h n) (ap (λ gs. of_embedder n ∷ gs) (embedder-disconnect h ns))

embedder-of_view : (ns : List ℕ) → of_view (map of_embedder ns) ≡ []
unfolding of_view
embedder-of_view [] = refl
embedder-of_view (n ∷ ns) = embedder-of_view ns

handlers_after-append :
    (xs ys : List Farewell) (gs : List Handler)
    → handlers_after (xs ++ ys) gs ≡ handlers_after ys (handlers_after xs gs)
unfolding handlers_after
handlers_after-append [] ys gs = refl
handlers_after-append (disconnect h ∷ xs) ys gs =
    handlers_after-append xs ys (disconnect_by_func h gs)
handlers_after-append (f ∷ xs) ys gs = handlers_after-append xs ys gs

-- All the handlers that a view connects are disconnected again.
connected-disconnects :
    (has_list : Bool) (ns : List ℕ)
    → handlers_after (disconnects has_list) (connected has_list ++ map of_embedder ns)
      ≡ permission_request ∷ map of_embedder ns
unfolding handlers_after disconnects connected disconnect_by_func
connected-disconnects true ns = simp embedder-disconnect
connected-disconnects false ns = simp embedder-disconnect

surface-handlers :
    (cs : List Subsurface.Call) (gs : List Handler) → handlers_after (map last_call cs) gs ≡ gs
unfolding handlers_after
surface-handlers [] gs = refl
surface-handlers (c ∷ cs) gs = surface-handlers cs gs

overlay-handlers :
    (b : Bool) (gs : List Handler) → handlers_after (if b then delete_overlay ∷ [] else []) gs ≡ gs
unfolding handlers_after
overlay-handlers b gs = ground arith

delete-handlers :
    (o : Option Surface) (gs : List Handler) → handlers_after (delete_subsurface o) gs ≡ gs
unfolding delete_subsurface handlers_after
delete-handlers none gs = refl
delete-handlers (some s) gs = surface-handlers (destroy s).1 gs

connected-handlers :
    (has_list b : Bool) (ns : List ℕ)
    → of_view (
        handlers_after
          (if b then disconnects has_list else [])
          ((if b then connected has_list else []) ++ map of_embedder ns))
      ≡ []
unfolding of_view handlers_after
connected-handlers has_list true ns =
    ap of_view (connected-disconnects has_list ns) ∙ embedder-of_view ns
connected-handlers has_list false ns = embedder-of_view ns

pub destroy_view-handlers :
    (has_list : Bool) (v : View) (ns : List ℕ)
    → of_view (handlers_after (destroy_view has_list v) (handlers has_list v ns)) ≡ []
unfolding destroy_view handlers
destroy_view-handlers has_list v ns =
    let gs = (if v.created then connected has_list else []) ++ map of_embedder ns in
    let overlay = if v.overlay then delete_overlay ∷ [] else [] in
    let rest = if v.created then disconnects has_list else [] in
    let deleted = delete_subsurface v.subsurface in
    ap of_view (
      handlers_after-append overlay (deleted ++ rest) gs
      ∙ (ap (handlers_after (deleted ++ rest)) (overlay-handlers v.overlay gs)
          ∙ (handlers_after-append deleted rest gs
              ∙ ap (handlers_after rest) (delete-handlers v.subsurface gs))))
    ∙ connected-handlers has_list v.created ns
