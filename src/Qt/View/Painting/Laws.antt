-- ===== src/Qt/View/Painting/Laws.antt =====
-- A painted frame is not stretched.
use atlantic_engine.Base.{◌*◌, ◌<◌, ◌≡◌, true, arith}
use atlantic_engine.Qt.View.Painting.{Node, Paint, paint_frame}

-- The sides of the rectangle are to each other as those of the image.
paint_frame-aspect :
    (p : Paint) (n : Node)
    → p.anchored ≡ true
    → 0 < p.image.width
    → 0 < p.image.height
    → 0 < p.item.width
    → let q = (paint_frame p n).0 in
      q.rect_height.0 * p.image.width ≡ (p.image.height * q.rect_width) * q.rect_height.1
unfolding paint_frame
paint_frame-aspect p n on w h some_item = ground arith
