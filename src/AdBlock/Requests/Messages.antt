-- ===== src/AdBlock/Requests/Messages.antt =====
-- What the messages of the UI process do to the flags, and to the requests after them.
use atlantic_engine.Base.{
  ◌≡◌, ◌↔◌, ◌⊎◌, inl, inr, refl, ap, ◌∙◌, Bool, true, false, Bool-cases, Option, none, some, List,
  [], ◌∷◌, ◌++◌, Bytes, streq, streq→eq, streq_refl, All,
}
use mathlib.Core.Option.{some-injective}
use atlantic_engine.AdBlock.Glib.{Glib}
use atlantic_engine.AdBlock.Hosts.{split_allowlist}
use atlantic_engine.AdBlock.Requests.{
  Globals, Variant, boolean, string, toggle_message, allowlist_message, set_enabled, set_allowlist,
  named_message, on_user_message,
}

-- A message: its name and its parameters, either of which may be NULL.
abbrev pub Message : Type 0
Message = Option Bytes × Option Variant

-- The handler over a sequence of messages.
unfoldable pub receive : Glib → List Message → Globals → Globals
receive g [] s = s
receive g ((name, params) ∷ messages) s = receive g messages (on_user_message g s name params).0

-- The two names differ, so a message is a toggle or an allowlist, and never both.
names_differ : streq allowlist_message toggle_message ≡ false
unfolding allowlist_message toggle_message streq
names_differ = refl

set_enabled_effect :
    (s : Globals) (params : Option Variant)
    → let s' = set_enabled params s in
      ((s'.enabled ≡ s.enabled) ⊎ (params ≡ some (boolean s'.enabled)))
      × (s'.allowlist ≡ s.allowlist)
      × (s'.statics ≡ s.statics)
unfolding set_enabled
set_enabled_effect s (some (boolean b)) = (inr refl, refl, refl)
set_enabled_effect s _ = (inl refl, refl, refl)

set_allowlist_effect :
    (g : Glib) (s : Globals) (params : Option Variant)
    → let s' = set_allowlist g params s in
      (s'.enabled ≡ s.enabled)
      × ((s'.allowlist ≡ s.allowlist)
          ⊎ ((joined : Bytes) × (params ≡ some (string joined))
              × (s'.allowlist ≡ split_allowlist g (some joined))))
      × (s'.statics ≡ s.statics)
unfolding set_allowlist
set_allowlist_effect g s (some (string joined)) = (refl, inr (joined, refl, refl), refl)
set_allowlist_effect g s _ = (refl, inl refl, refl)

-- What a message may do to the flags: it sets `enabled` only if it is a well-formed toggle and the
-- allowlist only if it is a well-formed allowlist, and it leaves the rest.
pub record Effect (g : Glib) (s : Globals) (name : Option Bytes) (params : Option Variant)
    (s' : Globals) : Type 0 where
  pub enabled_by :
      (s'.enabled ≡ s.enabled)
      ⊎ ((name ≡ some toggle_message) × (params ≡ some (boolean s'.enabled)))
  pub allowlist_by :
      (s'.allowlist ≡ s.allowlist)
      ⊎ ((joined : Bytes) × (name ≡ some allowlist_message)
          × (params ≡ some (string joined))
          × (s'.allowlist ≡ split_allowlist g (some joined)))
  pub statics_kept : s'.statics ≡ s.statics

enabled_Effect :
    (g : Glib) (s : Globals) (name : Option Bytes) (params : Option Variant)
    → name ≡ some toggle_message
    → Effect g s name params (set_enabled params s)
enabled_Effect g s name params named =
    let (on, list, waits) = set_enabled_effect s params in
    record {
      enabled_by = elim on [ inl kept ↦ inl kept | inr p ↦ inr (named, p) ];
      allowlist_by = inl list;
      statics_kept = waits;
    }

allowlist_Effect :
    (g : Glib) (s : Globals) (name : Option Bytes) (params : Option Variant)
    → name ≡ some allowlist_message
    → Effect g s name params (set_allowlist g params s)
allowlist_Effect g s name params named =
    let (on, list, waits) = set_allowlist_effect g s params in
    record {
      enabled_by = inl on;
      allowlist_by = elim list [
        | inl kept ↦ inl kept
        | inr (joined, p, q) ↦ inr (joined, named, p, q)
      ];
      statics_kept = waits;
    }

-- A message without one of the two names is not handled.
no_name :
    (◌≡◌ {A = Option Bytes} none (some toggle_message))
      ⊎ (◌≡◌ {A = Option Bytes} none (some allowlist_message))
    → false ≡ true
no_name (inl h) = cc
no_name (inr h) = cc

other_name :
    (name : Bytes)
    → streq name toggle_message ≡ false
    → streq name allowlist_message ≡ false
    → (some name ≡ some toggle_message) ⊎ (some name ≡ some allowlist_message)
    → false ≡ true
other_name name e f (inl h) = cc (e, streq_refl toggle_message, some-injective _ _ h)
other_name name e f (inr h) = cc (f, streq_refl allowlist_message, some-injective _ _ h)

-- A message changes the switch only as a toggle message with a Boolean, to that Boolean, and the
-- allowlist only as an allowlist message with a text, to the entries of that text; it changes nothing
-- else, and it is reported as handled exactly if its name is one of the two.
pub on_user_message-Effect :
    (g : Glib) (s : Globals) (name : Option Bytes) (params : Option Variant)
    → Effect g s name params (on_user_message g s name params).0
      × (((on_user_message g s name params).1 ≡ true)
          ↔ ((name ≡ some toggle_message) ⊎ (name ≡ some allowlist_message)))
unfolding on_user_message named_message
on_user_message-Effect g s none params = (
  record { enabled_by = inl refl; allowlist_by = inl refl; statics_kept = refl },
  (λ h. cc, no_name),
)
on_user_message-Effect g s (some name) params = elim (Bool-cases (streq name toggle_message)) [
  | inl e ↦
      let named = ap some (streq→eq name toggle_message e) in
      rw e (enabled_Effect g s (some name) params named, (λ h. inl named, λ h. refl))
  | inr e ↦ elim (Bool-cases (streq name allowlist_message)) [
    | inl f ↦
        let named = ap some (streq→eq name allowlist_message f) in
        rw (e, f) (allowlist_Effect g s (some name) params named, (λ h. inr named, λ h. refl))
    | inr f ↦
        rw (e, f)
          (
            record { enabled_by = inl refl; allowlist_by = inl refl; statics_kept = refl },
            (λ h. cc, other_name name e f),
          )
  ]
]

-- A well-formed toggle sets the flag, and a well-formed allowlist sets the list.
pub on_user_message_sets :
    (g : Glib) (s : Globals) (b : Bool) (joined : Bytes)
    → (on_user_message g s (some toggle_message) (some (boolean b))
        ≡ (record s { enabled = b }, true))
      × (on_user_message g s (some allowlist_message) (some (string joined))
          ≡ (record s { allowlist = split_allowlist g (some joined) }, true))
unfolding on_user_message named_message set_enabled set_allowlist
on_user_message_sets g s b joined =
    (rw (streq_refl toggle_message), rw (names_differ, streq_refl allowlist_message))

-- A message that is a well-formed toggle.
abbrev pub IsToggle : Message → Type 0
IsToggle m = (m.0 ≡ some toggle_message) × (b : Bool) × (m.1 ≡ some (boolean b))

pub receive_untoggled :
    (g : Glib) (messages : List Message) (s : Globals)
    → All (λ m. ¬ IsToggle m) messages
    → (receive g messages s).enabled ≡ s.enabled
unfolding receive
receive_untoggled g [] s h = refl
receive_untoggled g ((name, params) ∷ messages) s h =
    let s' = (on_user_message g s name params).0 in
    receive_untoggled g messages s' h.1
    ∙ elim (on_user_message-Effect g s name params).0.enabled_by [
      | inl kept ↦ kept
      | inr (named, p) ↦ absurd (h.0 (named, s'.enabled, p))
    ]

receive-append :
    (g : Glib) (before after : List Message) (s : Globals)
    → receive g (before ++ after) s ≡ receive g after (receive g before s)
unfolding receive
receive-append g [] after s = refl
receive-append g ((name, params) ∷ before) after s =
    receive-append g before after (on_user_message g s name params).0

-- After a sequence of messages the flag is what the last well-formed toggle says, whatever came
-- before it and whatever other messages, malformed toggles included, came after it.
pub receive_last_toggle :
    (g : Glib) (before after : List Message) (b : Bool) (s : Globals)
    → All (λ m. ¬ IsToggle m) after
    → (receive g (before ++ (some toggle_message, some (boolean b)) ∷ after) s).enabled ≡ b
unfolding receive
receive_last_toggle g before after b s h =
    let s' = receive g before s in
    ap (λ (x : Globals). x.enabled) (receive-append g before _ s)
    ∙ receive_untoggled g after (on_user_message g s' (some toggle_message) (some (boolean b))).0 h
    ∙ ap (λ (r : Globals × Bool). r.0.enabled) (on_user_message_sets g s' b []).0
