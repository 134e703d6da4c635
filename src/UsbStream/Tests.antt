-- ===== src/UsbStream/Tests.antt =====
-- Runs of src/liblgx/liblgx-usb/src/usb/UsbStream.cpp on lists of devices.
use lgx2userspace.Prelude.{ℕ, ◌≡◌, refl, true, some, [], ◌∷◌, ◌==◌, if◌then◌else◌}
use lgx2userspace.Usb.{lgx2}
use lgx2userspace.UsbContext.{Descriptor, usable, find_devices, is_watched}
use lgx2userspace.UsbStream.{device_available, target_device}
use lgx2userspace.UsbStream.Found.{
  first_of, is_card, is_there, target_device-find_devices, usable_watched,
}

abbrev card : Descriptor
card = record { id_vendor = 0x07CA; id_product = 0x0551; bcd_usb = 0x310 }

-- A keyboard, a card on a USB2 port and a card.
abbrev describe : ℕ → Descriptor
describe d =
    if d == 0
    then record card { id_vendor = 0x046D }
    else if d == 1
    then record card { bcd_usb = 0x210 }
    else card

target_device-find_devices_example :
    (target_device (find_devices true describe (0 ∷ 1 ∷ 2 ∷ [])) lgx2
      ≡ first_of (is_card true describe lgx2) (0 ∷ 1 ∷ 2 ∷ []))
    × (device_available (find_devices true describe (0 ∷ 1 ∷ 2 ∷ [])) lgx2
        ≡ is_there (target_device (find_devices true describe (0 ∷ 1 ∷ 2 ∷ [])) lgx2))
target_device-find_devices_example = target_device-find_devices true describe lgx2 (0 ∷ 1 ∷ 2 ∷ [])

finds_third : target_device (find_devices true describe (0 ∷ 1 ∷ 2 ∷ [])) lgx2 ≡ some 2
unfolding target_device find_devices usable
finds_third = refl

usable_watched_example : is_watched lgx2 card ≡ true
unfolding usable
usable_watched_example = usable_watched true describe lgx2 card refl
