-- ===== src/Usb.antt =====
-- libusb as src/liblgx/liblgx-usb/src/usb/ uses it: a parameter with the calls, over a device whose
-- state is a type of the caller's. `Board` says what the card answers on the command endpoints
-- (PROTOCOL.md, "Bootstrap command stream").
pub mod Toy
use lgx2userspace.Prelude.{
  ℕ, zero, suc, ◌+◌, ◌≤◌, ◌≡◌, refl, ap, Bool, true, false, ◌&&◌, ◌||◌, leb, List, [], ◌∷◌, ◌++◌,
  ◌==◌, if◌then◌else◌, Bytes, length, All,
}

-- LIBUSB_SUCCESS and the error codes that the code tells apart.
pub data UsbResult : Type 0 where
  success error_timeout error_no_device error_pipe error_other : UsbResult

abbrev pub is_success : UsbResult → Bool
is_success success = true
is_success error_timeout = false
is_success error_no_device = false
is_success error_pipe = false
is_success error_other = false

-- `DeviceType` of src/liblgx/src/lgxinterfaces.h; LGX is there if GC550_SUPPORT is defined.
pub data DeviceType : Type 0 where
  lgx lgx2 : DeviceType

abbrev pub is_lgx2 : DeviceType → Bool
is_lgx2 lgx = false
is_lgx2 lgx2 = true

-- What `libusb_bulk_transfer` returns for a write: `*transferred` is `actual`.
pub record Sent (D : Type 0) : Type 0 where
  pub result : UsbResult
  pub actual : ℕ
  pub device : D

-- What it returns for a read: the bytes that came are as many as `*transferred` says.
pub record Received (D : Type 0) : Type 0 where
  pub result : UsbResult
  pub bytes : Bytes
  pub device : D

-- `bulk_out endpoint bytes timeout` and `bulk_in endpoint size timeout`.
pub record Usb (D : Type 0) : Type 0 where
  pub bulk_out : ℕ → Bytes → ℕ → D → Sent D
  pub bulk_in : ℕ → ℕ → ℕ → D → Received D
  pub clear_halt : ℕ → D → D

-- `count` registers from `reg` on.
abbrev pub block : (ℕ → ℕ) → ℕ → ℕ → Bytes
block register reg zero = []
block register reg (suc count) = register reg ∷ block register (reg + 1) count

pub length-block : (f : ℕ → ℕ) (reg count : ℕ) → length (block f reg count) ≡ count
length-block f reg zero = refl
length-block f reg (suc count) = ap suc (length-block f (reg + 1) count)

-- The registers with one of them set.
abbrev pub with_register : (ℕ → ℕ → ℕ) → ℕ → ℕ → ℕ → ℕ → ℕ → ℕ
with_register register address reg value a r =
    if (a == address) && (r == reg) then value else register a r

-- The registers that the bootstrap itself sets: those of the ADV7604 for the colour space (IO map, 0x02)
-- and for the picture (CP map, 0x3A to 0x3D). They keep what is written. Other registers of the board
-- act on a write: some reset a chip, some are flags that the write clears.
abbrev pub is_setting : ℕ → ℕ → Bool
is_setting address reg =
    (address == 0x20 && reg == 0x02) || (address == 0x22 && (leb 0x3A reg && leb reg 0x3D))

-- The board behind the command endpoints: registers by the address of their chip, and the replies that
-- wait in IN 0x81, none longer than a packet. A read request queues a reply, a write request sets a register that is a setting, and a read of the
-- endpoint takes the oldest reply or times out. The video endpoint has nothing to do with them.
pub record Board {D : Type 0} (usb : Usb D) : Type 0 where
  pub register : D → ℕ → ℕ → ℕ
  pub replies : D → List Bytes
  pub replies_fit : (d : D) → All (λ q. length q ≤ 1024) (replies d)
  pub read_request :
      (d : D) (address reg count timeout : ℕ)
      → count ≤ 1024
      → ((usb.bulk_out 0x01 (0x02 ∷ address ∷ 0x01 ∷ count ∷ reg ∷ []) timeout d).result ≡ success)
        × ((usb.bulk_out 0x01 (0x02 ∷ address ∷ 0x01 ∷ count ∷ reg ∷ []) timeout d).actual ≡ 5)
        × (replies (usb.bulk_out 0x01 (0x02 ∷ address ∷ 0x01 ∷ count ∷ reg ∷ []) timeout d).device
            ≡ replies d ++ (block (register d address) reg count ∷ []))
        × (register (usb.bulk_out 0x01 (0x02 ∷ address ∷ 0x01 ∷ count ∷ reg ∷ []) timeout d).device
            ≡ register d)
  pub write_request :
      (d : D) (address reg value timeout : ℕ)
      → is_setting address reg ≡ true
      → ((usb.bulk_out 0x01 (0x01 ∷ address ∷ 0x01 ∷ reg ∷ value ∷ []) timeout d).result ≡ success)
        × ((usb.bulk_out 0x01 (0x01 ∷ address ∷ 0x01 ∷ reg ∷ value ∷ []) timeout d).actual ≡ 5)
        × (replies (usb.bulk_out 0x01 (0x01 ∷ address ∷ 0x01 ∷ reg ∷ value ∷ []) timeout d).device
            ≡ replies d)
        × (register (usb.bulk_out 0x01 (0x01 ∷ address ∷ 0x01 ∷ reg ∷ value ∷ []) timeout d).device
            ≡ with_register (register d) address reg value)
  pub reply :
      (d : D) (q : Bytes) (qs : List Bytes) (size timeout : ℕ)
      → replies d ≡ q ∷ qs
      → length q ≤ size
      → ((usb.bulk_in 0x01 size timeout d).result ≡ success)
        × ((usb.bulk_in 0x01 size timeout d).bytes ≡ q)
        × (replies (usb.bulk_in 0x01 size timeout d).device ≡ qs)
        × (register (usb.bulk_in 0x01 size timeout d).device ≡ register d)
  pub no_reply :
      (d : D) (size timeout : ℕ)
      → replies d ≡ []
      → ((usb.bulk_in 0x01 size timeout d).result ≡ error_timeout)
        × (replies (usb.bulk_in 0x01 size timeout d).device ≡ [])
        × (register (usb.bulk_in 0x01 size timeout d).device ≡ register d)
  pub video :
      (d : D) (size timeout : ℕ)
      → (replies (usb.bulk_in 0x03 size timeout d).device ≡ replies d)
        × (register (usb.bulk_in 0x03 size timeout d).device ≡ register d)
