-- ===== src/AdBlock/ResourceType/Priority.antt =====
-- Which signal decides the result of resource_type_for.
use atlantic_engine.Base.{
  ◌≡◌, refl, ◌↔◌, ◌≢◌, inl, inr, Option, none, some, Option-cases, true, Bytes, codes, streq,
  streq→eq, map, arith,
}
use atlantic_engine.AdBlock.Glib.{Glib}
use atlantic_engine.AdBlock.ResourceType.{
  ResourceType, document, name, Request, dest_type, accept_type, header_type, headers_type,
  ext_type, extension, short_ext_type, extension_type, type_or_other, uri_type, resource_type_for,
}

document_dest : (d : Bytes) → dest_type d ≡ some document → d ≡ codes "document"
unfolding dest_type
document_dest d h = ground (arith, streq→eq d (codes "document"))

dest_document : dest_type (codes "document") ≡ some document
unfolding dest_type streq
dest_document = refl

accept_not_document : (a : Bytes) → accept_type a ≢ some document
unfolding accept_type
accept_not_document a h = ground arith

ext_not_document : (e : Bytes) → ext_type e ≢ some document
unfolding ext_type
ext_not_document e h = ground arith

uri_not_document : (g : Glib) (u : Option Bytes) → uri_type g u ≢ some document
unfolding uri_type extension_type short_ext_type
uri_not_document g none h = cc
uri_not_document g (some u) h = elim (Option-cases (extension u)) [
  | inl e ↦ ground arith
  | inr (x, e) ↦ ground (arith, ext_not_document (map g.ascii_tolower x))
]

headers_document :
    (get_one : Bytes → Option Bytes)
    → headers_type (some get_one) ≡ some document
    → get_one (codes "Sec-Fetch-Dest") ≡ some (codes "document")
unfolding headers_type header_type
headers_document get_one h = elim (Option-cases (get_one (codes "Sec-Fetch-Dest"))) [
  | inl e ↦ elim (Option-cases (get_one (codes "Accept"))) [
    | inl f ↦ ground arith
    | inr (a, f) ↦ ground (arith, accept_not_document a)
  ]
  | inr (d, e) ↦ elim (Option-cases (get_one (codes "Accept"))) [
    | inl f ↦ ground (arith, document_dest d)
    | inr (a, f) ↦ ground (arith, document_dest d, accept_not_document a)
  ]
]

headers_of_document :
    (get_one : Bytes → Option Bytes)
    → get_one (codes "Sec-Fetch-Dest") ≡ some (codes "document")
    → headers_type (some get_one) ≡ some document
unfolding headers_type header_type
headers_of_document get_one e = rw (e, dest_document)

headers_type-none : headers_type none ≡ none
unfolding headers_type
headers_type-none = refl

-- A request is typed `document` exactly when it has headers whose Sec-Fetch-Dest is "document":
-- neither Accept nor the address can make it one.
pub resource_type-document_iff :
    (g : Glib) (request : Request)
    → (resource_type_for g request ≡ document) ↔ (
        (get_one : Bytes → Option Bytes) × (request.headers ≡ some get_one)
        × (get_one (codes "Sec-Fetch-Dest") ≡ some (codes "document")))
unfolding resource_type_for type_or_other
resource_type-document_iff g request = elim (Option-cases request.headers) [
  | inl e ↦
      (λ h. absurd (ground (arith, uri_not_document g request.uri, headers_type-none)), λ p. cc)
  | inr (get_one, e) ↦ (
    λ h. (get_one, e, headers_document get_one (ground (arith, uri_not_document g request.uri))),
    λ (f, eq, doc). ground (arith, headers_of_document f doc),
  )
]

-- The code compares the type's name to decide whether a request may wait.
pub streq-name-document :
    (t : ResourceType) → (streq (name t) (codes "document") ≡ true) ↔ (t ≡ document)
unfolding name streq
streq-name-document document = (λ h. refl, λ h. refl)
streq-name-document _ = (λ h. cc, λ h. cc)
