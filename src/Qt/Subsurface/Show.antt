-- ===== src/Qt/Subsurface/Show.antt =====
-- Moving, hiding and drawing the surface of a tab, in qt5-plugin/WPEWaylandSubsurface.cpp.
use atlantic_engine.Base.{
  ℕ, Bool, not, ◌&&◌, ◌||◌, Option, none, some, List, [], ◌∷◌, ◌++◌, if◌then◌else◌,
}
use atlantic_engine.Base.Int.{ℤ, pos, ◌+ℤ◌}
use atlantic_engine.Qt.Subsurface.{
  Rect, is_positive, same_rect, Call, set_position, swap_buffers, resize, viewport, bind, draw,
  Surface, commit,
}

-- `applyPosition`, with `kOffscreenOffset`.
abbrev pub offscreen_offset : ℤ
offscreen_offset = pos 100000

abbrev pub shown_y : Surface → ℤ
shown_y s = s.applied.y +ℤ (if s.hidden then offscreen_offset else pos 0)

unfoldable pub apply_position : Surface → List Call
apply_position s = if not s.has_subsurface then [] else set_position s.applied.x (shown_y s) ∷ []

-- `setGeometry`
unfoldable pub set_geometry : Rect → Surface → Surface × List Call
set_geometry r s =
    if not s.valid || same_rect r s.applied
    then (record s { geometry = r }, [])
    else let s1 = record s { geometry = r; applied = r } in
      (
        s1,
        (if s.has_egl_window && (is_positive r.width && is_positive r.height)
              then resize r.width r.height ∷ []
              else [])
            ++ (apply_position s1 ++ commit s1),
      )

abbrev pub same : Bool → Bool → Bool
same a b = if a then b else not b

-- `setVisible`
unfoldable pub set_visible : Bool → Surface → Surface × List Call
set_visible visible s =
    if not s.valid || same s.hidden (not visible)
    then (s, [])
    else let s1 = record s { hidden = not visible } in (s1, apply_position s1 ++ commit s1)

abbrev pub at_least_1 : ℤ → ℤ
at_least_1 n = if is_positive n then n else pos 1

-- `present`; `made_current` is the answer of eglMakeCurrent.
unfoldable pub present : Bool → Option ℕ → Bool → Surface → List Call
present made_current none flip_y s = []
present made_current (some image) flip_y s =
    if (not s.valid || s.hidden) || not made_current
    then []
    else viewport (at_least_1 s.applied.width) (at_least_1 s.applied.height)
      ∷ bind image
      ∷ draw flip_y
      ∷ swap_buffers
      ∷ []
