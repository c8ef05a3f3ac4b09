-- ===== src/Droidcam/Bin/Tests.antt =====
-- The theorems on the bins of a back camera, with a videoflip element and without.
use atlantic_engine.Base.{◌≡◌, ◌≢◌, ◌↔◌, ◌⊎◌, refl, true, false, Option, none, some}
use atlantic_engine.Base.Int.{pos}
use atlantic_engine.Droidcam.{device_new, vf_width, vf_height}
use atlantic_engine.Droidcam.Bin.{Gst, Bin, create_element, filter, linked, make_tail}
use atlantic_engine.Droidcam.Bin.Caps.{delivered, delivered-advertised, delivered_unflipped}

abbrev gst : Gst
gst = record {
  has_src = true;
  has_flip = true;
  has_pads = true;
  links_filter = true;
  links_flip = true;
}

made : Option Bin → Bin
made none = record {
  camera_device = 9;
  mode = 0;
  filter_width = 0;
  filter_height = 0;
  tail = filter;
}
made (some bin) = bin

abbrev flipped_bin : Bin
flipped_bin = made (create_element gst (device_new 0 false (pos 90)))

delivered_example :
    (flipped_bin.camera_device ≡ 0)
    × (delivered flipped_bin
        ≡ ((device_new 0 false (pos 90)).width, (device_new 0 false (pos 90)).height))
unfolding create_element linked make_tail made
delivered_example = delivered-advertised gst 0 false (pos 90) flipped_bin refl refl

abbrev no_flip_gst : Gst
no_flip_gst = record gst { has_flip = false }

abbrev plain_bin : Bin
plain_bin = made (create_element no_flip_gst (device_new 0 false (pos 90)))

delivered_unflipped_example :
    (delivered plain_bin ≡ (vf_width, vf_height))
    × ((delivered plain_bin
          ≢ ((device_new 0 false (pos 90)).width, (device_new 0 false (pos 90)).height))
        ↔ ((pos 90 ≡ pos 90) ⊎ (pos 90 ≡ pos 270)))
unfolding create_element linked make_tail made
delivered_unflipped_example = delivered_unflipped no_flip_gst 0 false (pos 90) plain_bin refl refl
