-- ===== src/AdBlock/ResourceType/Extension.antt =====
-- The extension that resource_type_for reads off an address.
use atlantic_engine.Base.{
  ℕ, zero, suc, ◌+◌, ◌-◌, ◌≤◌, ◌≡◌, ◌≢◌, refl, sym, ap, ◌∙◌, Option, none, some, [], ◌∷◌, ◌++◌,
  append_assoc, append-nil, length, length-append, get_or-append_right, get_or-append_left, take,
  drop, take-append, take_all, All, All-append, All-get_or, Bytes, strchr, arith,
}
use atlantic_engine.AdBlock.Glib.{Glib}
use atlantic_engine.AdBlock.ResourceType.{
  Request, path_length, scan_dot, bytes_from, extension, uri_type, resource_type_for,
}

-- What may follow the path of an address: nothing, or a query.
abbrev pub IsQuery : Bytes → Type 0
IsQuery [] = Unit
IsQuery (c ∷ s) = c ≡ b'?'

strchr-append : (c : ℕ) (s t : Bytes) → All (λ d. d ≢ c) s → strchr (s ++ c ∷ t) c ≡ some (length s)
unfolding strchr
strchr-append c [] t h = ground arith
strchr-append c (d ∷ s) t h = ground (arith, strchr-append c s t h.1)

strchr_absent : (c : ℕ) (s : Bytes) → All (λ d. d ≢ c) s → strchr s c ≡ none
unfolding strchr
strchr_absent c [] h = refl
strchr_absent c (d ∷ s) h = ground (arith, strchr_absent c s h.1)

path_length-append :
    (path q : Bytes) → All (λ c. c ≢ b'?') path → IsQuery q → path_length (path ++ q) ≡ length path
unfolding path_length
path_length-append path [] h k = rw append-nil (rw (strchr_absent b'?' path h, path_length))
path_length-append path (c ∷ q) h k = rw k (rw (strchr-append b'?' path q h, path_length))

path_length-All : (path : Bytes) → All (λ c. c ≢ b'?') path → path_length path ≡ length path
unfolding path_length
path_length-All path h = rw (strchr_absent b'?' path h, path_length)

-- Bytes that the loop passes over.
abbrev pub IsInner : ℕ → Type 0
IsInner c = (c ≢ b'.') × (c ≢ b'/')

-- From a position inside `e` the loop comes down to the dot before it.
scan_dot_inside :
    (p e q : Bytes) (k : ℕ)
    → All IsInner e
    → k ≤ length e
    → (i : ℕ) → i ≡ suc (length p) + k
    → scan_dot (p ++ b'.' ∷ (e ++ q)) i ≡ some (suc (length p))
unfolding scan_dot
scan_dot_inside p e q zero h le zero eq = absurd (omega arith)
scan_dot_inside p e q zero h le (suc i) eq =
    ground (arith, get_or-append_right p (b'.' ∷ (e ++ q)) i 0 0 (omega arith))
scan_dot_inside p e q (suc k) h le zero eq = absurd (omega arith)
scan_dot_inside p e q (suc k) h le (suc i) eq = ground (
  arith,
  get_or-append_right p (b'.' ∷ (e ++ q)) i (suc k) 0 (omega arith),
  get_or-append_left e q k 0 (omega arith),
  All-get_or IsInner e k 0 h (omega arith),
  scan_dot_inside p e q k h (omega arith) i (omega arith),
)

-- The loop finds no dot in the last segment of a path.
scan_dot_segment :
    (p e q : Bytes) (k : ℕ)
    → All IsInner e
    → k ≤ length e
    → (i : ℕ) → i ≡ suc (length p) + k
    → scan_dot (p ++ b'/' ∷ (e ++ q)) i ≡ none
unfolding scan_dot
scan_dot_segment p e q zero h le zero eq = absurd (omega arith)
scan_dot_segment p e q zero h le (suc i) eq =
    ground (arith, get_or-append_right p (b'/' ∷ (e ++ q)) i 0 0 (omega arith))
scan_dot_segment p e q (suc k) h le zero eq = absurd (omega arith)
scan_dot_segment p e q (suc k) h le (suc i) eq = ground (
  arith,
  get_or-append_right p (b'/' ∷ (e ++ q)) i (suc k) 0 (omega arith),
  get_or-append_left e q k 0 (omega arith),
  All-get_or IsInner e k 0 h (omega arith),
  scan_dot_segment p e q k h (omega arith) i (omega arith),
)

-- The bytes of a path and of its last extension have no query mark.
abbrev pub NoMark : ℕ → Type 0
NoMark c = c ≢ b'?'

drop_past : (p : Bytes) (c : ℕ) (r : Bytes) → drop (suc (length p)) (p ++ c ∷ r) ≡ r
drop_past [] c r = refl
drop_past (d ∷ p) c r = drop_past p c r

-- An address that ends in `.ext`, before any query, with no dot or slash in `ext`, has that
-- extension; one whose last segment has no dot has none.
pub extension_exact :
    (p e q : Bytes)
    → All NoMark p
    → All NoMark e
    → All IsInner e
    → IsQuery q
    → (extension (p ++ b'.' ∷ (e ++ q)) ≡ some e) × (extension (p ++ b'/' ∷ (e ++ q)) ≡ none)
unfolding extension bytes_from
extension_exact p e q hp he inner hq = (
  rw (at b'.' (omega arith), scan_dot_inside p e q (length e) inner (omega arith) _ refl)
      (ap some (rw (drop_past p b'.' (e ++ q)) (take-append e q _ (omega arith)))),
  rw (at b'/' (omega arith), scan_dot_segment p e q (length e) inner (omega arith) _ refl),
)
  where
    at : (c : ℕ) → NoMark c → path_length (p ++ c ∷ (e ++ q)) ≡ suc (length p) + length e
    at c hc =
        ap path_length (sym (append_assoc p (c ∷ e) q))
        ∙ path_length-append (p ++ c ∷ e) q (All-append NoMark p (c ∷ e) hp (hc, he)) hq
        ∙ omega (arith, length-append p (c ∷ e))

scan_dot-append :
    (path q : Bytes) (i : ℕ) → i ≤ length path → scan_dot (path ++ q) i ≡ scan_dot path i
unfolding scan_dot
scan_dot-append path q zero h = refl
scan_dot-append path q (suc i) h =
    rw (get_or-append_left path q i 0 h, scan_dot-append path q i (omega arith))

-- The position that the loop finds is not past its start.
pub scan_dot-le : (uri : Bytes) (i : ℕ) {d : ℕ} → scan_dot uri i ≡ some d → d ≤ i
unfolding scan_dot
scan_dot-le uri zero h = cc
scan_dot-le uri (suc i) {d = d} h =
    ground (arith, λ (k : scan_dot uri i ≡ some d). scan_dot-le uri i k)

rest_of_path :
    (path q : Bytes) (d : ℕ)
    → d ≤ length path
    → take (length path - d) (drop d (path ++ q)) ≡ take (length path - d) (drop d path)
rest_of_path path q zero h =
    take-append path q _ (omega arith) ∙ sym (take_all path _ (omega arith))
rest_of_path [] q (suc d) h = absurd (omega arith)
rest_of_path (c ∷ path) q (suc d) h =
    ap (λ n. take n (drop d (path ++ q))) (omega arith)
    ∙ rest_of_path path q d (omega arith)
    ∙ ap (λ n. take n (drop d path)) (omega arith)

bytes_from-append :
    (path q : Bytes) (dot : Option ℕ)
    → ((d : ℕ) → dot ≡ some d → d ≤ length path)
    → bytes_from (path ++ q) (length path) dot ≡ bytes_from path (length path) dot
unfolding bytes_from
bytes_from-append path q none h = refl
bytes_from-append path q (some d) h = ap some (rest_of_path path q d (h d refl))

extension-append :
    (path q : Bytes) → All NoMark path → IsQuery q → extension (path ++ q) ≡ extension path
unfolding extension
extension-append path q h k =
    rw (path_length-append path q h k, path_length-All path h)
      (rw (scan_dot-append path q (length path) (omega arith))
        (bytes_from-append path q _ (λ d. scan_dot-le path (length path))))

-- The query of an address does not change the resource type.
pub resource_type-query :
    (g : Glib) (request : Request) (path q : Bytes)
    → All NoMark path
    → IsQuery q
    → resource_type_for g (record request { uri = some (path ++ q) })
      ≡ resource_type_for g (record request { uri = some path })
unfolding resource_type_for uri_type
resource_type-query g request path q h k = rw (extension-append path q h k)
