-- ===== src/Droidcam/Bin.antt =====
-- gst_droidcam_device_create_element: the bin that captures from a device.
pub mod Caps
mod Tests
use atlantic_engine.Base.{ℕ, Bool, true, false, not, ◌&&◌, ◌||◌, Option, none, some, if◌then◌else◌}
use atlantic_engine.Base.Int.{ℤ}
use atlantic_engine.Droidcam.{Device, Method, videoflip_method_for_rotation, vf_width, vf_height}

-- What GStreamer answers: the elements that can be made, and the links that succeed (with the pads
-- that they need).
pub record Gst : Type 0 where
  pub has_src : Bool
  pub has_flip : Bool
  pub has_pads : Bool  -- the pads "vfsrc" of the source and "sink" of the filter
  pub links_filter : Bool
  pub links_flip : Bool

-- The last element, whose source pad is the bin's.
pub data Tail : Type 0 where
  filter : Tail
  flip : Method → Tail

-- The properties of droidcamsrc, the size in the caps of the filter, and the tail.
pub record Bin : Type 0 where
  pub camera_device : ℕ
  pub mode : ℕ
  pub filter_width : ℕ
  pub filter_height : ℕ
  pub tail : Tail

make_tail : Gst → ℤ → Tail
make_tail gst rotation =
    if gst.has_flip then flip (videoflip_method_for_rotation rotation) else filter

-- `linked`
linked : Gst → Bool
linked gst = (gst.has_pads && gst.links_filter) && (not gst.has_flip || gst.links_flip)

-- `none` is NULL.
pub create_element : Gst → Device → Option Bin
create_element gst device =
    if gst.has_src
    then if linked gst
      then some (record {
        camera_device = device.camera_device;
        mode = 2;
        filter_width = vf_width;
        filter_height = vf_height;
        tail = make_tail gst device.rotation;
      })
      else none
    else none

-- The events that go upstream through the bin's pad.
pub data Event : Type 0 where
  reconfigure : Event
  other : ℕ → Event

pub data ProbeReturn : Type 0 where
  drop ok : ProbeReturn

pub drop_reconfigure_probe : Event → ProbeReturn
drop_reconfigure_probe reconfigure = drop
drop_reconfigure_probe (other e) = ok
