-- ===== src/AdBlock/Hosts/Sites.antt =====
-- The allowlist and the third-party flag, from the relation of hosts.
use atlantic_engine.Base.{
  ◌≡◌, ◌≢◌, ◌↔◌, ◌⊎◌, inl, inr, refl, true, false, Bool-cases, Option, none, some, List, [], ◌∷◌,
  Bytes, arith, nonempty_of_ne, List-cases, All,
}
use mathlib.Core.Path.{subst₂}
use mathlib.Core.Option.{some-injective}
use atlantic_engine.AdBlock.Glib.{Glib, GlibLaws, newline, join_lines}
use atlantic_engine.AdBlock.Hosts.{
  hosts_related, allowlist_loop, parsed_allowlisted, page_allowlisted, third_party_hosts,
  is_third_party, split_allowlist,
}
use atlantic_engine.AdBlock.Hosts.Related.{Related, hosts_related_iff}

-- Some entry of the list is not empty and is related to the host.
abbrev pub Allows : Bytes → List Bytes → Type 0
Allows host [] = ⊥
Allows host (h ∷ hs) = ((h ≢ []) × Related host h) ⊎ Allows host hs

loop_allowed :
    (g : Glib) (host : Bytes) (hs : List Bytes) → allowlist_loop g (some host) hs true ≡ true
unfolding allowlist_loop
loop_allowed g host [] = refl
loop_allowed g host (h ∷ hs) = refl

join_lines_empty : (s : Bytes) (ts : List Bytes) → join_lines s ts ≡ [] → (s ≡ []) × (ts ≡ [])
unfolding join_lines
join_lines_empty s [] h = (h, refl)
join_lines_empty [] (t ∷ ts) h = cc
join_lines_empty (c ∷ s) (t ∷ ts) h = cc

-- An empty entry allows nothing.
skip_empty : (host : Bytes) (hs : List Bytes) → Allows host ([] ∷ hs) → Allows host hs
skip_empty host hs (inl (ne, r)) = absurd (ne refl)
skip_empty host hs (inr a) = a

Allows-nil : (host : Bytes) → ¬ Allows host ([] ∷ [])
Allows-nil host a = skip_empty host [] a

-- The two hosts are there, and they are related.
abbrev pub SameSite : Option Bytes → Option Bytes → Type 0
SameSite none r = ⊥
SameSite (some p) none = ⊥
SameSite (some p) (some r) = Related p r

module _ {g : Glib} (laws : GlibLaws g) where
  loop_iff :
      (host : Bytes) (hs : List Bytes)
      → (allowlist_loop g (some host) hs false ≡ true) ↔ Allows host hs
  unfolding allowlist_loop
  loop_iff host [] = (λ h. cc, λ h. absurd h)
  loop_iff host ([] ∷ hs) =
      (λ h. inr ((loop_iff host hs).0 h), λ a. (loop_iff host hs).1 (skip_empty host hs a))
  loop_iff host ((c ∷ t) ∷ hs) = elim (Bool-cases (hosts_related g (some host) (some (c ∷ t)))) [
    | inl e ↦ (
      λ h. inl (λ k. cc, (hosts_related_iff laws host (c ∷ t)).0 e),
      λ a. rw e (loop_allowed g host hs),
    )
    | inr e ↦ (
      λ h. inr ((loop_iff host hs).0 (rw e at h)),
      λ a. rw e (grind (arith, (hosts_related_iff laws host (c ∷ t)).1, (loop_iff host hs).1)),
    )
  ]

  hosts_related-SameSite : (p r : Option Bytes) → (hosts_related g p r ≡ true) ↔ SameSite p r
  unfolding hosts_related
  hosts_related-SameSite none r = (λ h. cc, λ h. absurd h)
  hosts_related-SameSite (some p) none = (λ h. cc, λ h. absurd h)
  hosts_related-SameSite (some p) (some r) = hosts_related_iff laws p r

  third_party_hosts_iff :
      (pu ru : Option (Option Bytes))
      → (third_party_hosts g pu ru ≡ 1)
        ↔ ((p r : Option Bytes) × (pu ≡ some p) × (ru ≡ some r) × ¬ SameSite p r)
  unfolding third_party_hosts
  third_party_hosts_iff none ru = (λ h. absurd (omega arith), λ (p, r, e, f, n). cc)
  third_party_hosts_iff (some p) none = (λ h. absurd (omega arith), λ (q, r, e, f, n). cc)
  third_party_hosts_iff (some p) (some r) = (
    λ h. (p, r, refl, refl, λ same. ground (arith, (hosts_related-SameSite p r).1 same)),
    λ (q, t, e, f, n). elim (Bool-cases (hosts_related g p r)) [
      | inl same ↦ absurd (
          n (
            subst₂ SameSite (some-injective _ _ e) (some-injective _ _ f)
              ((hosts_related-SameSite p r).0 same)))
      | inr differ ↦ rw differ
    ],
  )

  -- After an allowlist of hosts is set as one text, a host to a line, a page with a host is
  -- allowlisted exactly when its host is, up to case, a listed one, a subdomain of a listed one or
  -- a parent domain of a listed one; empty lines match nothing.
  pub page_allowlisted_iff :
      (s : Bytes) (ts : List Bytes) (page_uri host : Bytes)
      → All (λ t. All (λ c. c ≢ newline) t) (s ∷ ts)
      → page_uri ≢ []
      → g.uri_host page_uri ≡ some (some host)
      → (page_allowlisted g (split_allowlist g (some (join_lines s ts))) (some page_uri) ≡ true)
        ↔ Allows host (s ∷ ts)
  unfolding page_allowlisted split_allowlist parsed_allowlisted
  page_allowlisted_iff s ts page_uri host lines ne parsed = elim (List-cases (join_lines s ts)) [
    | inl e ↦ rw e (
      λ h. cc,
      λ a. absurd (
          let (es, et) = join_lines_empty s ts e in
          Allows-nil host (subst₂ (λ x xs. Allows host (x ∷ xs)) es et a)),
    )
    | inr full ↦
        rw
          (
            nonempty_of_ne (join_lines s ts) full,
            laws.strsplit-join_lines s ts lines full,
            nonempty_of_ne page_uri ne,
            parsed,
          )
          (loop_iff host (s ∷ ts))
  ]

  -- A request is third-party exactly when the addresses of the page and of the request parse and
  -- do not both have hosts that are related.
  pub is_third_party_iff :
      (page_uri req_uri : Bytes)
      → page_uri ≢ []
      → (is_third_party g (some page_uri) req_uri ≡ 1) ↔ (
          (p r : Option Bytes) × (g.uri_host page_uri ≡ some p)
          × (g.uri_host req_uri ≡ some r)
          × ¬ SameSite p r)
  unfolding is_third_party
  is_third_party_iff page_uri req_uri ne =
      rw (nonempty_of_ne page_uri ne)
        (third_party_hosts_iff (g.uri_host page_uri) (g.uri_host req_uri))
