-- ===== src/AdBlock/ResourceType.antt =====
-- resource_type_for: the resource type of a request, from its headers and its address.
pub mod Extension
pub mod Priority
mod Tests
use atlantic_engine.Base.{
  ℕ, zero, suc, ◌-◌, Bool, true, false, ◌&&◌, ◌||◌, Option, none, some, List, [], map, ltb, ◌==◌,
  if◌then◌else◌, or_else, length, get_or, take, drop, Bytes, codes, streq, strstr, strchr, nonempty,
}
use atlantic_engine.AdBlock.Glib.{Glib}

pub data ResourceType : Type 0 where
  script stylesheet image font document sub_frame xmlhttprequest media object other : ResourceType

-- The string that the function returns.
pub name : ResourceType → Bytes
name script = codes "script"
name stylesheet = codes "stylesheet"
name image = codes "image"
name font = codes "font"
name document = codes "document"
name sub_frame = codes "sub_frame"
name xmlhttprequest = codes "xmlhttprequest"
name media = codes "media"
name object = codes "object"
name other = codes "other"

-- A request as WebKit hands it over: `soup_message_headers_get_one` on its headers, if it has any,
-- `webkit_uri_request_get_uri` and `webkit_uri_request_get_http_method`.
pub record Request : Type 0 where
  pub headers : Option (Bytes → Option Bytes)
  pub uri : Option Bytes
  pub http_method : Option Bytes

-- The tests on Sec-Fetch-Dest; `none` goes on to Accept.
dest_type : Bytes → Option ResourceType
dest_type dest =
    if streq dest (codes "script")
    then some script
    else if streq dest (codes "style")
    then some stylesheet
    else if streq dest (codes "image")
    then some image
    else if streq dest (codes "font")
    then some font
    else if streq dest (codes "document")
    then some document
    else if streq dest (codes "iframe") || streq dest (codes "frame")
    then some sub_frame
    else if streq dest (codes "empty")
    then some xmlhttprequest
    else if streq dest (codes "audio") || (streq dest (codes "video") || streq dest (codes "track"))
    then some media
    else if streq dest (codes "object") || streq dest (codes "embed")
    then some object
    else none

-- The tests on Accept; `none` goes on to the address.
accept_type : Bytes → Option ResourceType
accept_type accept =
    if strstr accept (codes "text/css")
    then some stylesheet
    else if strstr accept (codes "image/")
    then some image
    else if strstr accept (codes "text/html") || strstr accept (codes "application/xhtml")
    then some sub_frame
    else if strstr accept (codes "font") || strstr accept (codes "application/font")
    then some font
    else none

-- A header's tests, made only if the header is there and not empty.
header_type : (Bytes → Option ResourceType) → Option Bytes → Option ResourceType
header_type tests none = none
header_type tests (some value) = if nonempty value then tests value else none

headers_type : Option (Bytes → Option Bytes) → Option ResourceType
headers_type none = none
headers_type (some get_one) =
    or_else (header_type dest_type (get_one (codes "Sec-Fetch-Dest")))
      (header_type accept_type (get_one (codes "Accept")))

-- The length of the address before its query.
path_length : Bytes → ℕ
path_length uri = elim (strchr uri b'?') [ some q ↦ q | none ↦ length uri ]

-- The loop down from `i`: the position after the nearest dot, unless a slash comes first.
pub scan_dot : Bytes → ℕ → Option ℕ
scan_dot uri zero = none
scan_dot uri (suc i) =
    let rest = scan_dot uri i in
    if get_or uri i 0 == b'.' then some (suc i) else if get_or uri i 0 == b'/' then none else rest

-- `char ext[12]`
abbrev ext_size : ℕ
ext_size = 12

-- The `elen` bytes from `dot` up to the end `len` of the path.
bytes_from : Bytes → ℕ → Option ℕ → Option Bytes
bytes_from uri len none = none
bytes_from uri len (some dot) = some (take (len - dot) (drop dot uri))

pub extension : Bytes → Option Bytes
extension uri = bytes_from uri (path_length uri) (scan_dot uri (path_length uri))

ext_type : Bytes → Option ResourceType
ext_type ext =
    if streq ext (codes "js") || streq ext (codes "mjs")
    then some script
    else if streq ext (codes "css")
    then some stylesheet
    else if streq ext (codes "png")
        || (streq ext (codes "jpg")
            || (streq ext (codes "jpeg")
                || (streq ext (codes "gif")
                    || (streq ext (codes "webp")
                        || (streq ext (codes "svg")
                            || (streq ext (codes "ico") || streq ext (codes "bmp")))))))
    then some image
    else if streq ext (codes "woff")
        || (streq ext (codes "woff2")
            || (streq ext (codes "ttf") || (streq ext (codes "otf") || streq ext (codes "eot"))))
    then some font
    else if streq ext (codes "mp4")
        || (streq ext (codes "webm")
            || (streq ext (codes "m3u8") || (streq ext (codes "mp3") || streq ext (codes "ogg"))))
    then some media
    else none

-- The tests on an extension that fits `ext`, in lower case.
short_ext_type : Glib → Bytes → Option ResourceType
short_ext_type g ext =
    if ltb 0 (length ext) && ltb (length ext) ext_size
    then ext_type (map g.ascii_tolower ext)
    else none

extension_type : Glib → Option Bytes → Option ResourceType
extension_type g none = none
extension_type g (some ext) = short_ext_type g ext

uri_type : Glib → Option Bytes → Option ResourceType
uri_type g none = none
uri_type g (some uri) = extension_type g (extension uri)

-- The last line of the function.
type_or_other : Option ResourceType → ResourceType
type_or_other none = other
type_or_other (some t) = t

pub resource_type_for : Glib → Request → ResourceType
resource_type_for g request =
    type_or_other (or_else (headers_type request.headers) (uri_type g request.uri))
