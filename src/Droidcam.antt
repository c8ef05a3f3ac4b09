-- ===== src/Droidcam.antt =====
-- shims/droidcam/gstdroidcamdeviceprovider.c: the camera devices that are offered to WebKit.
pub mod Bin
pub mod Facing
mod Tests
use atlantic_engine.Base.{
  ℕ, zero, suc, ◌+◌, Bool, true, false, not, ◌&&◌, ◌||◌, Option, none, some, List, [], ◌∷◌, ◌++◌,
  ◌==◌, if◌then◌else◌, ◌>>=◌, Bytes, codes,
}
use atlantic_engine.Base.Int.{ℤ, pos, negsuc, rem}

-- DROIDCAM_VF_WIDTH and DROIDCAM_VF_HEIGHT; the frame rate and the format are constants as well.
abbrev pub vf_width : ℕ
vf_width = 1280

abbrev pub vf_height : ℕ
vf_height = 720

-- DroidMediaCameraInfo
pub record CameraInfo : Type 0 where
  pub facing : ℤ
  pub orientation : ℤ

-- `info.facing == DROIDCAM_RAW_FACING_FRONT`
abbrev pub is_raw_front : ℤ → Bool
is_raw_front (pos n) = n == 0
is_raw_front (negsuc n) = false

-- `droid_get_num` and `droid_get_info`, as functions: `none` is a FALSE return.
pub record Droidmedia : Type 0 where
  pub get_num : ℤ
  pub get_info : ℕ → Option CameraInfo

-- The two static pointers, with the functions behind them.
pub record Glue : Type 0 where
  pub get_num : Option ℤ
  pub get_info : Option (ℕ → Option CameraInfo)

-- The dynamic linker: `dlopen` of libhybris, its two functions (NULL without the library), and what
-- they find in libdroidmedia (`none` is a failed `android_dlopen`).
pub record Linker : Type 0 where
  pub hybris : Bool
  pub android_dlopen : Bool
  pub android_dlsym : Bool
  pub droidmedia : Option Glue

abbrev pub no_glue : Glue
no_glue = record { get_num = none; get_info = none }

found_glue : Option Glue → Glue
found_glue none = no_glue
found_glue (some glue) = glue

-- The body under `g_once_init_enter`.
load_glue : Linker → Glue
load_glue l =
    if (l.hybris && l.android_dlopen) && (l.hybris && l.android_dlsym)
    then found_glue l.droidmedia
    else no_glue

-- `droidmedia_glue_init`: the pointers after it, and the result, which is the pair of functions if
-- both are there. The state is `none` before the first call.
pub glue_init : Linker → Option Glue → Glue
glue_init l none = load_glue l
glue_init l (some glue) = glue

pub both : Glue → Option Droidmedia
both glue = do
  num ← glue.get_num
  info ← glue.get_info
  some (record { get_num = num; get_info = info })

-- `videoflip_method_for_rotation`
pub data Method : Type 0 where
  no_flip clockwise rotate_180 counterclockwise : Method

unfoldable pub videoflip_method_for_rotation : ℤ → Method
videoflip_method_for_rotation (negsuc n) = no_flip
videoflip_method_for_rotation (pos n) =
    if n == 90
    then clockwise
    else if n == 180
    then rotate_180
    else if n == 270
    then counterclockwise
    else no_flip

-- A device: the fields of GstDroidCamDevice, the size in its caps, and "is-default" and the display
-- name's first word.
pub record Device : Type 0 where
  pub camera_device : ℕ
  pub is_front : Bool
  pub rotation : ℤ
  pub width : ℕ
  pub height : ℕ
  pub is_default : Bool
  pub display_name : Bytes

-- `rotation == 90 || rotation == 270`
abbrev pub swaps : ℤ → Bool
swaps (pos n) = n == 90 || n == 270
swaps (negsuc n) = false

unfoldable pub device_new : ℕ → Bool → ℤ → Device
device_new camera_device is_front rotation = record {
  camera_device = camera_device;
  is_front = is_front;
  rotation = rotation;
  width = if swaps rotation then vf_height else vf_width;
  height = if swaps rotation then vf_width else vf_height;
  is_default = not is_front;
  display_name = if is_front then codes "Front camera" else codes "Back camera";
}

-- The four variables of the loop over the cameras: an id is `none` while it is negative.
pub record Chosen : Type 0 where
  pub back_id : Option ℕ
  pub front_id : Option ℕ
  pub back_rot : ℤ
  pub front_rot : ℤ

abbrev pub nothing_chosen : Chosen
nothing_chosen = record { back_id = none; front_id = none; back_rot = pos 90; front_rot = pos 270 }

abbrev pub is_none {ℓ} : {A : Type ℓ} → Option A → Bool
is_none none = true
is_none (some x) = false

-- The body of the loop, at camera `i`.
choose : Chosen → ℕ → Option CameraInfo → Chosen
choose c i none = c
choose c i (some info) =
    if is_raw_front info.facing && is_none c.front_id
    then record c { front_id = some i; front_rot = rem info.orientation 360 }
    else if not (is_raw_front info.facing) && is_none c.back_id
    then record c { back_id = some i; back_rot = rem info.orientation 360 }
    else c

-- The loop, with `n` cameras left from `i` on.
choose_from : (ℕ → Option CameraInfo) → ℕ → ℕ → Chosen → Chosen
choose_from get_info zero i c = c
choose_from get_info (suc n) i c = choose_from get_info n (i + 1) (choose c i (get_info i))

-- The loop runs no round for a count that is not positive.
abbrev pub rounds : ℤ → ℕ
rounds (pos n) = n
rounds (negsuc n) = 0

chosen : Option Droidmedia → Chosen
chosen none = record nothing_chosen { back_id = some 0; front_id = some 1 }
chosen (some media) = choose_from media.get_info (rounds media.get_num) 0 nothing_chosen

-- The device of an id that is not negative.
device_of : Option ℕ → Bool → ℤ → List Device
device_of none is_front rotation = []
device_of (some id) is_front rotation = device_new id is_front rotation ∷ []

list_devices : Chosen → List Device
list_devices c = device_of c.back_id false c.back_rot ++ device_of c.front_id true c.front_rot

-- `droidcam_make_devices`, which is `probe`, with the static pointers after it. `available` is
-- whether the element factory droidcamsrc is there.
pub make_devices : Bool → Linker → Option Glue → List Device × Option Glue
make_devices available l s =
    if available
    then (list_devices (chosen (both (glue_init l s))), some (glue_init l s))
    else ([], s)

-- `start`: the devices are added to the provider's, in order.
pub start : Bool → Linker → Option Glue → List Device → List Device × Option Glue
start available l s devices =
    (devices ++ (make_devices available l s).0, (make_devices available l s).1)
