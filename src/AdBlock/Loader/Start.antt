-- ===== src/AdBlock/Loader/Start.antt =====
-- How the extension starts.
use atlantic_engine.Base.{
  ◌≡◌, ◌≢◌, ◌↔◌, ◌⊎◌, inl, inr, refl, sym, ◌∙◌, Bool, true, false, Bool-cases, not, Option, none,
  some, List, [], ◌∷◌, if◌then◌else◌, Bytes, codes, streq, streq→eq, streq_refl, All, arith,
}
use mathlib.Core.Option.{some-injective}
use atlantic_engine.AdBlock.Glib.{Glib}
use atlantic_engine.AdBlock.Hosts.{split_allowlist}
use atlantic_engine.AdBlock.Requests.{boolean_string}
use atlantic_engine.AdBlock.Requests.Messages.{Message, receive, receive_untoggled, IsToggle}
use atlantic_engine.AdBlock.Loader.{in_line, threaded, initial_globals, is_sync_load, start_load}

-- The environment asks for a load on the calling thread.
abbrev pub AsksInLine : Option Bytes → Type 0
AsksInLine sync_load = (v : Bytes) × (sync_load ≡ some v) × (v ≢ []) × (v ≢ codes "0")

not_both : (b : Bool) → b ≡ true → not b ≢ true
not_both true e h = cc (h)
not_both false e h = cc (e)

not-streq_iff : (s t : Bytes) → (not (streq s t) ≡ true) ↔ (s ≢ t)
not-streq_iff s t = (λ h e. not_both (streq s t) (rw e (streq_refl t)) h, differs)
  where
    differs : s ≢ t → not (streq s t) ≡ true
    differs h = elim (Bool-cases (streq s t)) [
      | inl same ↦ absurd (h (streq→eq s t same))
      | inr other ↦ rw other
    ]

is_sync_load_iff :
    (sync_load : Option Bytes) → (is_sync_load sync_load ≡ true) ↔ AsksInLine sync_load
unfolding is_sync_load
is_sync_load_iff none = (λ h. cc, λ (v, e, ne, zero). cc (e))
is_sync_load_iff (some []) = (λ h. cc, λ (v, e, ne, zero). absurd (ne (sym (some-injective _ _ e))))
is_sync_load_iff (some (c ∷ s)) = (
  λ h. (c ∷ s, refl, λ e. cc, (not-streq_iff (c ∷ s) (codes "0")).0 h),
  λ (v, e, ne, zero).
      (not-streq_iff (c ∷ s) (codes "0")).1 (λ f. zero (sym (some-injective _ _ e) ∙ f)),
)

start_iff :
    (asks created : Bool)
    → ((if asks then in_line else if created then threaded else in_line) ≡ in_line)
      ↔ ((asks ≡ true) ⊎ (created ≡ false))
start_iff true created = (λ h. inl refl, λ h. refl)
start_iff false true = (λ h. cc, λ h. ground arith)
start_iff false false = (λ h. inr refl, λ h. refl)

-- The engine is loaded on the calling thread exactly when the environment variable is set to
-- something else than the empty text and "0", or when no thread could be created.
pub start_load-in_line_iff :
    (sync_load : Option Bytes) (thread_created : Bool)
    → (start_load sync_load thread_created ≡ in_line)
      ↔ (AsksInLine sync_load ⊎ (thread_created ≡ false))
unfolding start_load
start_load-in_line_iff sync_load thread_created =
    let (asks, stands) = is_sync_load_iff sync_load in
    let (sound, complete) = start_iff (is_sync_load sync_load) thread_created in
    (
      λ h. elim (sound h) [ inl a ↦ inl (asks a) | inr n ↦ inr n ],
      λ h. complete (elim h [ inl a ↦ inl (stands a) | inr n ↦ inr n ]),
    )

-- Until a toggle message comes, blocking is as the UI process set it with the extension, whatever
-- else is received; the allowlist starts as the entries that it passed.
pub receive-initial_globals :
    (g : Glib) (b : Bool) (joined : Bytes) (messages : List Message)
    → All (λ m. ¬ IsToggle m) messages
    → ((receive g messages (initial_globals g (some (boolean_string b joined)))).enabled ≡ b)
      × ((initial_globals g (some (boolean_string b joined))).allowlist
          ≡ split_allowlist g (some joined))
unfolding initial_globals
receive-initial_globals g b joined messages h =
    (receive_untoggled g messages (initial_globals g (some (boolean_string b joined))) h, refl)
