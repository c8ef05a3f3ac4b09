-- ===== src/Droidcam/Tests.antt =====
-- The theorems on cameras at a phone with two back cameras and one at the front.
use atlantic_engine.Base.{ℕ, zero, suc, ◌≡◌, refl, true, false, Option, none, some, List, ◌++◌}
use atlantic_engine.Base.Int.{pos}
use atlantic_engine.Droidcam.{
  CameraInfo, Droidmedia, Glue, Linker, glue_init, both, Device, make_devices, load_glue,
  found_glue,
}
use atlantic_engine.Droidcam.Facing.{Offered, make_devices_first}

cameras : ℕ → Option CameraInfo
cameras zero = some (record { facing = pos 1; orientation = pos 90 })
cameras (suc zero) = some (record { facing = pos 1; orientation = pos 90 })
cameras (suc (suc i)) = some (record { facing = pos 0; orientation = pos 270 })

abbrev glue : Glue
glue = record { get_num = some (pos 3); get_info = some cameras }

abbrev linker : Linker
linker = record {
  hybris = true;
  android_dlopen = true;
  android_dlsym = true;
  droidmedia = some glue;
}

abbrev media : Droidmedia
media = record { get_num = pos 3; get_info = cameras }

make_devices_first_example :
    (back front : List Device) × ((make_devices true linker none).0 ≡ back ++ front)
    × Offered media false back
    × Offered media true front
unfolding glue_init both load_glue found_glue
make_devices_first_example = make_devices_first linker none media refl
