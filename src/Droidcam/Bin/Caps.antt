-- ===== src/Droidcam/Bin/Caps.antt =====
-- The size that a device advertises, against the size that its bin delivers.
use atlantic_engine.Base.{
  ℕ, ◌≡◌, ◌≢◌, ◌↔◌, ◌⊎◌, ◌∙◌, ap, inl, inr, refl, Bool, true, false, some, if◌then◌else◌, arith,
}
use atlantic_engine.Base.Int.{ℤ, pos, negsuc}
use atlantic_engine.Droidcam.{
  Device, Method, no_flip, clockwise, rotate_180, counterclockwise, videoflip_method_for_rotation,
  vf_width, vf_height, swaps, device_new,
}
use atlantic_engine.Droidcam.Bin.{Gst, Tail, filter, flip, Bin, make_tail, create_element}

-- What GStreamer's videoflip does to a size: a quarter turn exchanges width and height.
abbrev pub turned : Method → ℕ × ℕ → ℕ × ℕ
turned no_flip size = size
turned clockwise (w, h) = (h, w)
turned rotate_180 size = size
turned counterclockwise (w, h) = (h, w)

abbrev pub through : Tail → ℕ × ℕ → ℕ × ℕ
through filter size = size
through (flip method) size = turned method size

-- The size of the frames that leave the bin.
abbrev pub delivered : Bin → ℕ × ℕ
delivered bin = through bin.tail (bin.filter_width, bin.filter_height)

turned-method :
    (rotation : ℤ)
    → turned (videoflip_method_for_rotation rotation) (vf_width, vf_height) ≡ (
      if swaps rotation then vf_height else vf_width,
      if swaps rotation then vf_width else vf_height,
    )
unfolding videoflip_method_for_rotation
turned-method (negsuc n) = refl
turned-method (pos n) = ground arith

-- What a bin that was made is made of.
create_element-some :
    (gst : Gst) (device : Device) (bin : Bin)
    → create_element gst device ≡ some bin
    → (bin.camera_device ≡ device.camera_device)
      × (delivered bin ≡ through (make_tail gst device.rotation) (vf_width, vf_height))
unfolding create_element
create_element-some gst device bin eq = ground arith

flipped :
    (gst : Gst) (rotation : ℤ)
    → gst.has_flip ≡ true
    → make_tail gst rotation ≡ flip (videoflip_method_for_rotation rotation)
unfolding make_tail
flipped gst rotation has = rw has

unflipped : (gst : Gst) (rotation : ℤ) → gst.has_flip ≡ false → make_tail gst rotation ≡ filter
unfolding make_tail
unflipped gst rotation has = rw has

abbrev sensor_size : ℕ × ℕ
sensor_size = (vf_width, vf_height)

abbrev advertised : Bool → ℕ × ℕ
advertised quarter =
    (if quarter then vf_height else vf_width, if quarter then vf_width else vf_height)

advertised_same : (quarter : Bool) → sensor_size ≢ advertised quarter → quarter ≡ true
advertised_same true h = refl
advertised_same false h = absurd (h refl)

advertised_other : sensor_size ≢ advertised true
advertised_other e = omega (arith, ap (λ (size : ℕ × ℕ). size.0) e)

swaps_iff : (rotation : ℤ) → (swaps rotation ≡ true) ↔ ((rotation ≡ pos 90) ⊎ (rotation ≡ pos 270))
swaps_iff rotation = (sound rotation, complete rotation)
  where
    pos_of : (n : ℕ) → (n ≡ 90) ⊎ (n ≡ 270) → (pos n ≡ pos 90) ⊎ (pos n ≡ pos 270)
    pos_of n (inl e) = inl (ap pos e)
    pos_of n (inr e) = inr (ap pos e)

    sound : (r : ℤ) → swaps r ≡ true → (r ≡ pos 90) ⊎ (r ≡ pos 270)
    sound (negsuc n) h = cc
    sound (pos n) h = pos_of n (ground arith)

    complete : (r : ℤ) → (r ≡ pos 90) ⊎ (r ≡ pos 270) → swaps r ≡ true
    complete r (inl e) = rw e
    complete r (inr e) = rw e

-- A quarter turn is what makes the advertised size another one.
advertised_differs :
    (rotation : ℤ)
    → (sensor_size ≢ advertised (swaps rotation)) ↔ ((rotation ≡ pos 90) ⊎ (rotation ≡ pos 270))
advertised_differs rotation = (
  λ h. (swaps_iff rotation).0 (advertised_same (swaps rotation) h),
  λ h. rw ((swaps_iff rotation).1 h) advertised_other,
)

-- The bin of a device captures from the camera of the device, and with a videoflip element its frames have the size
-- that the device advertises, for every rotation.
pub delivered-advertised :
    (gst : Gst) (id : ℕ) (is_front : Bool) (rotation : ℤ) (bin : Bin)
    → gst.has_flip ≡ true
    → create_element gst (device_new id is_front rotation) ≡ some bin
    → (bin.camera_device ≡ id)
      × (delivered bin
          ≡ ((device_new id is_front rotation).width, (device_new id is_front rotation).height))
unfolding device_new
delivered-advertised gst id is_front rotation bin has eq =
    let (camera, size) = create_element-some gst (device_new id is_front rotation) bin eq in
    (
      camera,
      size
          ∙ ap (λ t. through t (vf_width, vf_height)) (flipped gst rotation has)
          ∙ turned-method rotation,
    )

-- Without a videoflip element the frames keep the size of the sensor, and the device advertises
-- another size exactly when its rotation is a quarter turn.
pub delivered_unflipped :
    (gst : Gst) (id : ℕ) (is_front : Bool) (rotation : ℤ) (bin : Bin)
    → gst.has_flip ≡ false
    → create_element gst (device_new id is_front rotation) ≡ some bin
    → (delivered bin ≡ (vf_width, vf_height))
      × ((delivered bin
            ≢ ((device_new id is_front rotation).width, (device_new id is_front rotation).height))
          ↔ ((rotation ≡ pos 90) ⊎ (rotation ≡ pos 270)))
unfolding device_new
delivered_unflipped gst id is_front rotation bin has eq =
    let (camera, size) = create_element-some gst (device_new id is_front rotation) bin eq in
    let same : delivered bin ≡ (vf_width, vf_height) =
      size ∙ ap (λ t. through t (vf_width, vf_height)) (unflipped gst rotation has) in
    (same, rw same (advertised_differs rotation))
