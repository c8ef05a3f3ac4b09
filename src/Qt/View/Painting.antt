-- ===== src/Qt/View/Painting.antt =====
-- How qt5-plugin/WPEQtView.cpp paints a frame into the Qt scene, and how it moves in the history.
pub mod Laws
use atlantic_engine.Base.{
  ℕ, ◌*◌, Bool, false, not, ◌&&◌, ◌||◌, Option, none, some, List, [], ◌∷◌, ◌++◌, if◌then◌else◌,
  ◌==◌,
}
use atlantic_engine.Qt.Frames.{is_some}
use atlantic_engine.Qt.View.{View, scene_graph_composited}

-- QSize of an image or of an item, in whole pixels; a size without an extent is empty.
pub record Extent : Type 0 where
  pub width : ℕ
  pub height : ℕ

abbrev pub is_empty : Extent → Bool
is_empty s = s.width == 0 || s.height == 0

-- A QSGSimpleTextureNode: the size of its texture, and its rectangle from the top left. The height of
-- the rectangle is a fraction.
pub record Node : Type 0 where
  pub texture : Option Extent
  pub rect_width : ℕ
  pub rect_height : ℕ × ℕ

pub data Act : Type 0 where
  new_node delete_node : Act
  new_texture : Extent → Act

-- What one paint finds: whether a texture is bound, the size of the image, and the item.
pub record Paint : Type 0 where
  pub texture_bound : Bool
  pub anchored : Bool  -- WEBKIT_ANCHOR_STALE_FRAME
  pub image : Extent  -- currentImageSize
  pub view_size : Extent  -- m_size.toSize ()
  pub item : Extent  -- boundingRect ()

abbrev same_extent : Extent → Option Extent → Bool
same_extent s none = false
same_extent s (some t) = s.width == t.width && s.height == t.height

abbrev frame_size : Paint → Extent
frame_size p = if p.anchored then p.image else record { width = 0; height = 0 }

abbrev texture_size : Paint → Extent
texture_size p = if is_empty (frame_size p) then p.view_size else frame_size p

-- The texture and the rectangle of a node.
unfoldable pub paint_frame : Paint → Node → Node × List Act
paint_frame p n = (
  if is_empty (frame_size p) || p.item.width == 0
      then record {
        texture = some (texture_size p);
        rect_width = p.item.width;
        rect_height = (p.item.height, 1);
      }
      else record {
        texture = some (texture_size p);
        rect_width = p.item.width;
        rect_height = ((frame_size p).height * p.item.width, (frame_size p).width);
      },
  if same_extent (texture_size p) n.texture then [] else new_texture (texture_size p) ∷ [],
)

abbrev blank_node : Node
blank_node = record { texture = none; rect_width = 0; rect_height = (0, 1) }

abbrev node_or : Option Node → Node
node_or none = blank_node
node_or (some n) = n

-- `updatePaintNode`: the node that it returns. Where no texture is bound, it returns the node that it
-- was given.
unfoldable pub update_paint_node : Paint → View → Option Node → Option Node × List Act
update_paint_node p v node =
    let made = if is_some node then [] else new_node ∷ [] in
    let (n, acts) = paint_frame p (node_or node) in
    if not v.created
    then (node, [])
    else if not (scene_graph_composited v)
    then (none, if is_some node then delete_node ∷ [] else [])
    else if not p.texture_bound
    then (node, made)
    else (some n, made ++ acts)

-- A step in the history: to an item of the list, or WebKit's own.
pub data Move : Type 0 where
  to_item : ℕ → Move
  back forward : Move

abbrev step_to : Option ℕ → Move → Move
step_to none other = other
step_to (some item) other = to_item item

-- `goBack` and `goForward`, with `strictHistoryNavigationEnabled` and the adjacent item of the list.
unfoldable pub go_back : Bool → Option ℕ → View → List Move
go_back strict item v =
    if not v.created then [] else (if strict then step_to item back else back) ∷ []

unfoldable pub go_forward : Bool → Option ℕ → View → List Move
go_forward strict item v =
    if not v.created then [] else (if strict then step_to item forward else forward) ∷ []
