-- ===== src/CommandBridge.antt =====
-- src/liblgx/liblgx-usb/src/usb/CommandBridge.h and CommandBridge.cpp: the card's USB-to-I2C bridge. A
-- command takes the mutex, so it is one step. A call returns its libusb error as `err`.
pub mod Answers
pub mod Replay
mod Tests
use lgx2userspace.Prelude.{
  ℕ, zero, suc, Bool, true, false, List, [], ◌∷◌, ◌==◌, if◌then◌else◌, Bytes, length,
}
use lgx2userspace.Usb.{
  UsbResult, success, error_timeout, error_no_device, error_pipe, error_other, is_success, Sent,
  Received, Usb,
}

-- What `_lastFailure` can say.
pub data Failure : Type 0 where
  no_failure on_request on_reply on_reply_length on_command on_read_request : Failure

-- `CommandBridge`, with the device that `_dev` stands for.
pub record Bridge (D : Type 0) : Type 0 where
  pub device : D
  pub last_failure : Failure

pub data Reply (A : Type 0) : Type 0 where
  ok : A → Reply A
  err : UsbResult → Reply A

-- A method of the bridge, and methods in a row: the first error is returned.
abbrev pub Command : Type 0 → Type 0 → Type 0
Command D A = Bridge D → Reply A × Bridge D

abbrev pub and_then : {D A B : Type 0} → Reply A → Bridge D → (A → Command D B) → Reply B × Bridge D
and_then (ok a) b f = f a b
and_then (err e) b f = (err e, b)

infixl 5 ◌>>=◌ ◌>>◌
abbrev pub ◌>>=◌ : {D A B : Type 0} → Command D A → (A → Command D B) → Command D B
◌>>=◌ m f b = let (answer, b') = m b in and_then answer b' f

abbrev pub ◌>>◌ : {D B : Type 0} → Command D (Unit {0}) → Command D B → Command D B
m >> k = m >>= λ _. k

-- COMMAND_TIMEOUT_MS and COMMAND_MAX_PACKET
abbrev pub command_timeout_ms : ℕ
command_timeout_ms = 5000

abbrev pub command_max_packet : ℕ
command_max_packet = 1024

abbrev is_pipe : UsbResult → Bool
is_pipe success = false
is_pipe error_timeout = false
is_pipe error_no_device = false
is_pipe error_pipe = true
is_pipe error_other = false

-- What a write says of itself, by the code and the length it reached.
abbrev written : {D : Type 0} → ℕ → Sent D → Reply (Unit {0})
written wanted s =
    if is_success s.result
    then (if s.actual == wanted then ok tt else err error_other)
    else err s.result

-- The bridge behind a read that said `r`, with its code and length tested.
abbrev answered : {D : Type 0} → ℕ → Received D → Failure → Reply Bytes × Bridge D
answered count r failure =
    if is_success r.result
    then (if length r.bytes == count
        then (ok r.bytes, record { device = r.device; last_failure = failure })
        else (err error_other, record { device = r.device; last_failure = on_reply_length }))
    else (err r.result, record { device = r.device; last_failure = failure })

module _ {D : Type 0} (usb : Usb D) where
  -- `libusb_bulk_transfer` of a request on OUT 0x01, whose failure would be `failure`.
  unfoldable pub send : Failure → Bytes → Command D (Unit {0})
  send failure bytes b =
      let sent = usb.bulk_out 0x01 bytes command_timeout_ms b.device in
      (written (length bytes) sent, record { device = sent.device; last_failure = failure })

  abbrev clear_stall : Received D → Received D
  clear_stall r = if is_pipe r.result then record r { device = usb.clear_halt 0x01 r.device } else r

  -- The reply of `count` bytes on IN 0x81, received into a buffer of a whole packet.
  unfoldable pub receive : ℕ → Command D Bytes
  receive count b =
      let received = usb.bulk_in 0x01 command_max_packet command_timeout_ms b.device in
      answered count (clear_stall received) on_reply

  -- `i2cRead`
  unfoldable pub i2c_read : ℕ → ℕ → ℕ → Command D Bytes
  i2c_read address reg count = do
    send on_request (0x02 ∷ address ∷ 0x01 ∷ count ∷ reg ∷ [])
    receive count

  -- `i2cWrite`
  unfoldable pub i2c_write : ℕ → ℕ → ℕ → Command D (Unit {0})
  i2c_write address reg value = send on_request (0x01 ∷ address ∷ 0x01 ∷ reg ∷ value ∷ [])

  -- `cryptoReadConfig`
  unfoldable pub crypto_read_config : ℕ → ℕ → Command D Bytes
  crypto_read_config address count = do
    send on_command (0x05 ∷ 0xB6 ∷ 0x00 ∷ address ∷ count ∷ [])
    send on_read_request (0x06 ∷ count ∷ [])
    receive count

  -- The loop of `drainResponsesLocked`, on fuel.
  unfoldable pub drain_responses_locked : ℕ → D → D
  drain_responses_locked zero d = d
  drain_responses_locked (suc fuel) d =
      let discarded = usb.bulk_in 0x01 command_max_packet 10 d in
      let rest = drain_responses_locked fuel discarded.device in
      if is_success discarded.result then rest else discarded.device

  -- `drainResponses`
  unfoldable pub drain_responses : ℕ → Bridge D → Bridge D
  drain_responses fuel b = record b { device = drain_responses_locked fuel b.device }
