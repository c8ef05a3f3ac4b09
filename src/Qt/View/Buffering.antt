-- ===== src/Qt/View/Buffering.antt =====
-- Settings made before the view exists, and the same settings made on the view: what is compared.
pub mod Created
pub mod Commuting
use atlantic_engine.Base.{ℕ, ◌<◌, ◌≡◌, Bool, true, false, none, List, [], ◌∷◌, Bytes, nonempty}
use atlantic_engine.Base.Int.{ℤ}
use atlantic_engine.Qt.View.{
  Size, is_valid, scale_1, Setup, Request, new_backend, load_uri, load_html, set_user_agent,
  set_zoom_level, dispatch_scale, dispatch_size, activity, View, create_web_view,
}
use atlantic_engine.Qt.View.Settings.{
  geometry_changed, set_url, set_html, set_agent, set_scale, set_webkit_visible,
}

pub data Content : Type 0 where
  blank : Content
  at : Bytes → Content
  markup : Bytes → Bytes → Content

-- What WebKit was told last.
pub record Page : Type 0 where
  pub size : Size
  pub zoom : ℕ
  pub scale : ℕ
  pub agent : Bytes
  pub content : Content
  pub visible : Bool

abbrev pub new_page : Size → Page
new_page size = record {
  size = size;
  zoom = scale_1;
  scale = scale_1;
  agent = [];
  content = blank;
  visible = true;
}

unfoldable pub told : Page → List Request → Page
told p [] = p
told p (new_backend size ∷ rest) = told (new_page size) rest
told p (load_uri url ∷ rest) = told (record p { content = at url }) rest
told p (load_html html base ∷ rest) = told (record p { content = markup html base }) rest
told p (set_user_agent agent ∷ rest) = told (record p { agent = agent }) rest
told p (set_zoom_level zoom ∷ rest) = told (record p { zoom = zoom }) rest
told p (dispatch_scale scale ∷ rest) = told (record p { scale = scale }) rest
told p (dispatch_size size ∷ rest) = told (record p { size = size }) rest
told p (activity visible ∷ rest) = told (record p { visible = visible }) rest
told p (_ ∷ rest) = told p rest

pub data Setting : Type 0 where
  resized : Size → Setting
  url : Bytes → Setting
  html : Bytes → Bytes → Setting
  agent : Bytes → Setting
  scale : ℕ → Setting
  visible : Bool → Setting

unfoldable pub set : Setup → View → Setting → View × List Request
set e v (resized size) = geometry_changed e size v
set e v (url u) = set_url u v
set e v (html h base) = set_html h base v
set e v (agent a) = set_agent a v
set e v (scale s) = set_scale e s v
set e v (visible b) = set_webkit_visible e b v

-- A view together with the page that it talks to.
abbrev after : Page → View × List Request → View × Page
after p r = (r.0, told p r.1)

unfoldable pub set_all : Setup → View × Page → List Setting → View × Page
set_all e (v, p) [] = (v, p)
set_all e (v, p) (s ∷ ss) = set_all e (after p (set e v s)) ss

-- `createWebView` on a view without a page.
abbrev pub create : Setup → View × Page → View × Page
create e (v, p) = after p (create_web_view e v)

-- A setting has a value, and html is not set where there is a URL.
abbrev IsProper : View → Setting → Type 0
IsProper v (resized size) = is_valid size ≡ true
IsProper v (url u) = nonempty u ≡ true
IsProper v (html h base) = (nonempty h ≡ true) × (v.url ≡ [])
IsProper v (agent a) = nonempty a ≡ true
IsProper v (scale s) = 0 < s
IsProper v (visible b) = Unit

abbrev pub AllProper : Setup → View → List Setting → Type 0
AllProper e v [] = Unit
AllProper e v (s ∷ ss) = IsProper v s × AllProper e (set e v s).0 ss

-- The view is not made yet, and frames go through the Qt scene. Dividing by a scale of one changes
-- nothing.
pub record IsEarly (e : Setup) (v : View) : Type 0 where
  pub made : e.backend_made ≡ true
  pub direct : e.direct ≡ false
  pub created : v.created ≡ false
  pub subsurface : v.subsurface ≡ none
  pub divided : (n : ℤ) → e.logical n scale_1 ≡ n
