-- ===== src/Qt/View/Settings.antt =====
-- What the embedder sets on a view of qt5-plugin/WPEQtView.cpp, before it is made or after.
use atlantic_engine.Base.{ℕ, Bool, false, not, List, [], ◌∷◌, ◌++◌, if◌then◌else◌, Bytes, streq}
use atlantic_engine.Qt.View.{
  Size, Setup, Request, load_uri, load_html, set_user_agent, set_zoom_level, View, backend_resize,
  backend_set_scale, update_subsurface_geometry, apply_visibility,
}

-- `geometryChanged`
unfoldable pub geometry_changed : Setup → Size → View → View × List Request
geometry_changed e size v =
    let (v1, resized) =
      if v.created
      then backend_resize e size (record v { size = size })
      else (record v { size = size }, []) in
    let (v2, placed) = update_subsurface_geometry e v1 in (v2, resized ++ placed)

-- `setUrl`
unfoldable pub set_url : Bytes → View → View × List Request
set_url url v =
    if streq url v.url
    then (v, [])
    else (record v { error = false; url = url }, if v.created then load_uri url ∷ [] else [])

-- `loadHtml`
unfoldable pub set_html : Bytes → Bytes → View → View × List Request
set_html html base v = (
  record v { html = html; base_url = base; error = false },
  if v.created then load_html html base ∷ [] else [],
)

-- `setUserAgent`
unfoldable pub set_agent : Bytes → View → View × List Request
set_agent agent v =
    (record v { pending_agent = agent }, if v.created then set_user_agent agent ∷ [] else [])

-- `setDeviceScaleFactor`
unfoldable pub set_scale : Setup → ℕ → View → View × List Request
set_scale e scale v =
    let v1 = record v { pending_scale = scale } in
    if e.true_scale
    then if v.created then backend_set_scale e scale v1 else (v1, [])
    else (v1, if v.created then set_zoom_level scale ∷ [] else [])

abbrev pub same : Bool → Bool → Bool
same a b = if a then b else not b

-- `setWebKitVisible`
unfoldable pub set_webkit_visible : Setup → Bool → View → View × List Request
set_webkit_visible e visible v =
    if same v.visible visible then (v, []) else apply_visibility e (record v { visible = visible })

-- `setPrivateBrowsing`
unfoldable pub set_private : Bool → View → View × List Request
set_private private v = (record v { private = private }, [])
