-- ===== src/AdBlock/ResourceType/Tests.antt =====
-- The theorems on resource types at concrete requests.
use atlantic_engine.Base.{
  ◌≡◌, refl, Option, none, some, ◌∷◌, ◌++◌, if◌then◌else◌, Bytes, codes, streq,
}
use atlantic_engine.AdBlock.ResourceType.{Request, extension}
use atlantic_engine.AdBlock.ResourceType.Extension.{extension_exact}
use atlantic_engine.Samples.{absent-All}

-- The headers of a navigation.
navigation : Bytes → Option Bytes
navigation name = if streq name (codes "Sec-Fetch-Dest") then some (codes "document") else none

abbrev page : Request
page = record {
  headers = some navigation;
  uri = some (codes "http://e.org/a.js");
  http_method = none;
}

abbrev inner : Bytes
inner = codes "js"

extension_example :
    (extension (codes "http://e.org/a" ++ b'.' ∷ (inner ++ codes "?v=1.2")) ≡ some inner)
    × (extension (codes "http://e.org/a" ++ b'/' ∷ (inner ++ codes "?v=1.2")) ≡ none)
extension_example =
    extension_exact (codes "http://e.org/a") inner (codes "?v=1.2")
      (absent-All b'?' (codes "http://e.org/a") refl) (absent-All b'?' inner refl)
      ((cc, cc), ((cc, cc), tt)) refl
