-- ===== src/AdBlock/Hosts/Tests.antt =====
-- The theorems on hosts at concrete addresses.
use atlantic_engine.Base.{
  ◌≡◌, ◌↔◌, inl, inr, refl, true, Option, some, [], ◌∷◌, Bytes, codes, has_prefix,
}
use atlantic_engine.AdBlock.Glib.{newline, join_lines}
use atlantic_engine.AdBlock.Hosts.{hosts_related, page_allowlisted, is_third_party, split_allowlist}
use atlantic_engine.AdBlock.Hosts.Related.{hosts_related_iff}
use atlantic_engine.AdBlock.Hosts.Sites.{page_allowlisted_iff, is_third_party_iff, SameSite}
use atlantic_engine.Samples.{sample_glib, sample_glib-GlibLaws, absent-All}

hosts_related_example :
    hosts_related sample_glib (some (codes "ads.example.org")) (some (codes "Example.ORG")) ≡ true
hosts_related_example =
    (hosts_related_iff sample_glib-GlibLaws (codes "ads.example.org") (codes "Example.ORG")).1
      (inr (inl (codes "ads", codes "example.org", refl, refl)))

page_allowlisted_example :
    page_allowlisted sample_glib
      (split_allowlist sample_glib (some (join_lines (codes "e.org") (codes "f.org" ∷ []))))
      (some (codes "http://m.f.org/"))
    ≡ true
unfolding sample_glib has_prefix
page_allowlisted_example =
    (page_allowlisted_iff sample_glib-GlibLaws (codes "e.org") (codes "f.org" ∷ [])
        (codes "http://m.f.org/") (codes "m.f.org")
        (absent-All newline (codes "e.org") refl, (absent-All newline (codes "f.org") refl, tt))
        (λ e. cc) refl).1
      (inr (inl (λ e. cc, inr (inl (codes "m", codes "f.org", refl, refl)))))

is_third_party_example :
    (is_third_party sample_glib (some (codes "http://e.org/")) (codes "http://f.org/a.js") ≡ 1) ↔ (
      (p r : Option Bytes) × (sample_glib.uri_host (codes "http://e.org/") ≡ some p)
      × (sample_glib.uri_host (codes "http://f.org/a.js") ≡ some r)
      × ¬ SameSite p r)
is_third_party_example =
    is_third_party_iff sample_glib-GlibLaws (codes "http://e.org/") (codes "http://f.org/a.js")
      (λ e. cc)
