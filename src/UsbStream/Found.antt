-- ===== src/UsbStream/Found.antt =====
-- The devices that `UsbContext::findDevices` finds and `UsbStream` opens
-- (src/liblgx/liblgx-usb/src/usb/UsbStream.cpp).
use lgx2userspace.Prelude.{
  ℕ, ◌≡◌, refl, Bool, true, false, inl, inr, Option, none, some, List, [], ◌∷◌, arith,
  if◌then◌else◌, Bool-cases, Option-cases,
}
use lgx2userspace.Usb.{DeviceType, lgx, lgx2}
use lgx2userspace.UsbContext.{Descriptor, usable, find_devices, is_watched}
use lgx2userspace.UsbStream.{same_type, device_available, target_device}

abbrev pub has_type : Option DeviceType → DeviceType → Bool
has_type none type = false
has_type (some t) type = same_type t type

-- The first device of a list that a test accepts.
unfoldable pub first_of : (ℕ → Bool) → List ℕ → Option ℕ
first_of test [] = none
first_of test (d ∷ l) = let later = first_of test l in if test d then some d else later

abbrev pub is_there : Option ℕ → Bool
is_there none = false
is_there (some d) = true

module _ (gc550 : Bool) (describe : ℕ → Descriptor) (type : DeviceType) where
  abbrev pub is_card : ℕ → Bool
  is_card d = has_type (usable gc550 (describe d)) type

  -- For every list of devices that libusb gives, the device that `streamSetupCommands` opens is the
  -- first of them that is usable as the type asked for, and `deviceAvailable` says that there is one
  -- exactly if it finds one.
  pub target_device-find_devices :
      (list : List ℕ)
      → (target_device (find_devices gc550 describe list) type ≡ first_of is_card list)
        × (device_available (find_devices gc550 describe list) type
            ≡ is_there (target_device (find_devices gc550 describe list) type))
  unfolding find_devices target_device device_available first_of
  target_device-find_devices [] = (refl, refl)
  target_device-find_devices (d ∷ list) =
      let (first, there) = target_device-find_devices list in
      elim (Option-cases (usable gc550 (describe d))) [
        | inl e ↦ simp e (first, there)
        | inr (t, e) ↦ elim (Bool-cases (same_type t type)) [
          | inl same ↦ simp (e, same) (refl, refl)
          | inr other ↦ simp (e, other) (first, there)
        ]
      ]

  -- Each device that is usable as a type passes the filter that `watchDevices` registers for it, so
  -- that the daemon is told of every card that it could open.
  pub usable_watched :
      (desc : Descriptor) → usable gc550 desc ≡ some type → is_watched type desc ≡ true
  unfolding usable is_watched
  usable_watched desc h = by_type type h
    where
      by_type : (t : DeviceType) → usable gc550 desc ≡ some t → is_watched t desc ≡ true
      by_type lgx k = ground arith
      by_type lgx2 k = ground arith
