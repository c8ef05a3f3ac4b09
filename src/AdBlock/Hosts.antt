-- ===== src/AdBlock/Hosts.antt =====
-- hosts_related, page_allowlisted and is_third_party: the comparisons of host names.
pub mod Related
pub mod Sites
mod Tests
use atlantic_engine.Base.{
  ℕ, ◌-◌, Bool, true, false, ◌&&◌, Option, none, some, List, [], ◌∷◌, ltb, ◌==◌, if◌then◌else◌,
  length, get_or, drop, Bytes, nonempty,
}
use atlantic_engine.AdBlock.Glib.{Glib, newline}

-- `la > lb && a[la - lb - 1] == '.' && !g_ascii_strcasecmp (a + la - lb, b)`. The index is read
-- only where `la > lb`, so the subtraction does not wrap.
dotted_suffix : Glib → Bytes → Bytes → Bool
dotted_suffix g a b =
    ltb (length b) (length a)
    && (get_or a (length a - length b - 1) 0 == b'.'
        && g.ascii_strcasecmp (drop (length a - length b) a) b)

-- `none` is NULL.
pub hosts_related : Glib → Option Bytes → Option Bytes → Bool
hosts_related g none b = false
hosts_related g (some a) none = false
hosts_related g (some a) (some b) =
    if g.ascii_strcasecmp a b
    then true
    else if dotted_suffix g a b
    then true
    else if dotted_suffix g b a
    then true
    else false

-- The loop over `g_allowlist`: it stops at the first entry that allows the host, or at once if the
-- address has no host.
allowlist_loop : Glib → Option Bytes → List Bytes → Bool → Bool
allowlist_loop g none entries allowed = allowed
allowlist_loop g (some host) [] allowed = allowed
allowlist_loop g (some host) (h ∷ hs) allowed =
    if allowed
    then allowed
    else allowlist_loop g (some host) hs
        (if nonempty h then hosts_related g (some host) (some h) else allowed)

-- The body after `g_uri_parse (page_uri)`; `none` is a parse error.
parsed_allowlisted : Glib → List Bytes → Option (Option Bytes) → Bool
parsed_allowlisted g entries none = false
parsed_allowlisted g entries (some host) = allowlist_loop g host entries false

-- `none` is NULL, for the list `g_allowlist` and for the address of the page.
pub page_allowlisted : Glib → Option (List Bytes) → Option Bytes → Bool
page_allowlisted g none page_uri = false
page_allowlisted g (some entries) none = false
page_allowlisted g (some entries) (some page_uri) =
    if nonempty page_uri then parsed_allowlisted g entries (g.uri_host page_uri) else false

-- `tp`, from the two parsed addresses.
third_party_hosts : Glib → Option (Option Bytes) → Option (Option Bytes) → ℕ
third_party_hosts g none ru = 0
third_party_hosts g (some page_host) none = 0
third_party_hosts g (some page_host) (some req_host) =
    if hosts_related g page_host req_host then 0 else 1

pub is_third_party : Glib → Option Bytes → Bytes → ℕ
is_third_party g none req_uri = 0
is_third_party g (some page_uri) req_uri =
    if nonempty page_uri then third_party_hosts g (g.uri_host page_uri) (g.uri_host req_uri) else 0

-- `set_allowlist (joined)`: the new value of `g_allowlist`. `none` is NULL.
unfoldable pub split_allowlist : Glib → Option Bytes → Option (List Bytes)
split_allowlist g none = none
split_allowlist g (some joined) =
    if nonempty joined then some (g.strsplit joined (newline ∷ [])) else none
