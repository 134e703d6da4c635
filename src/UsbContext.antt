-- ===== src/UsbContext.antt =====
-- src/liblgx/liblgx-usb/src/usb/UsbContext.h and UsbContext.cpp: which of libusb's devices are cards, and
-- the references to those that were found. A device is a number; what libusb says of it is an argument.
-- The event thread and the registration with libusb are libusb's.
use lgx2userspace.Prelude.{
  ℕ, ◌+◌, ◌-◌, Bool, not, ◌&&◌, Option, none, some, List, [], ◌∷◌, leb, ◌==◌, if◌then◌else◌,
}
use lgx2userspace.Usb.{DeviceType, lgx, lgx2}

-- The fields of `libusb_device_descriptor` that are read.
pub record Descriptor : Type 0 where
  pub id_vendor : ℕ
  pub id_product : ℕ
  pub bcd_usb : ℕ

-- `usable`, and the `type` it sets; `gc550` is whether GC550_SUPPORT is defined.
unfoldable pub usable : Bool → Descriptor → Option DeviceType
usable gc550 desc =
    if not (desc.id_vendor == 0x07CA)
    then none
    else if desc.id_product == 0x0551
    then (if leb 0x300 desc.bcd_usb then some lgx2 else none)
    else if gc550 && desc.id_product == 0x4710
    then (if leb 0x300 desc.bcd_usb then some lgx else none)
    else none

-- The count of the references that are held to each device.
abbrev pub References : Type 0
References = ℕ → ℕ

-- `libusb_ref_device` and `libusb_unref_device`
abbrev pub ref_device : ℕ → References → References
ref_device device refs d = if d == device then refs d + 1 else refs d

abbrev pub unref_device : ℕ → References → References
unref_device device refs d = if d == device then refs d - 1 else refs d

-- `FoundDevice`: it holds a reference while it exists.
pub record FoundDevice : Type 0 where
  pub device : ℕ
  pub type : DeviceType

-- A round of the loop of `findDevices`.
abbrev pub find_device : Option DeviceType → ℕ → List FoundDevice → List FoundDevice
find_device none device found = found
find_device (some type) device found = record { device = device; type = type } ∷ found

-- `findDevices` over libusb's list.
unfoldable pub find_devices : Bool → (ℕ → Descriptor) → List ℕ → List FoundDevice
find_devices gc550 describe [] = []
find_devices gc550 describe (device ∷ list) =
    find_device (usable gc550 (describe device)) device (find_devices gc550 describe list)

-- The filter that `watchDevices` registers for hotplug events.
unfoldable pub is_watched : DeviceType → Descriptor → Bool
is_watched lgx2 desc = desc.id_vendor == 0x07CA && desc.id_product == 0x0551
is_watched lgx desc = desc.id_vendor == 0x07CA && desc.id_product == 0x4710
