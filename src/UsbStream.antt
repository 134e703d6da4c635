-- ===== src/UsbStream.antt =====
-- src/liblgx/liblgx-usb/src/usb/UsbStream.h and UsbStream.cpp: the stream of the viewer, on a session of
-- one of the devices that were found when it was made.
pub mod Found
mod Tests
use lgx2userspace.Prelude.{
  ℕ, Bool, true, false, not, ◌&&◌, Option, none, some, List, [], ◌∷◌, if◌then◌else◌,
}
use mathlib.Core.Option
use lgx2userspace.Usb.{Usb, DeviceType, lgx, lgx2}
use lgx2userspace.UsbContext.{FoundDevice}
use lgx2userspace.CaptureStream.{Chunk}
use lgx2userspace.CapturePipeline.{InputState, signal}
use lgx2userspace.DeviceSession
use lgx2userspace.DeviceSession.{
  Session, Opening, Opened, session, refused, Streaming, Call, EndReason, open_session, ended,
  end_reason, input_state,
}

abbrev pub same_type : DeviceType → DeviceType → Bool
same_type lgx lgx = true
same_type lgx lgx2 = false
same_type lgx2 lgx = false
same_type lgx2 lgx2 = true

-- `deviceAvailable`
unfoldable pub device_available : List FoundDevice → DeviceType → Bool
device_available [] type = false
device_available (found ∷ rest) type =
    let later = device_available rest type in if same_type found.type type then true else later

-- The loop of `streamSetupCommands`: the first device of the type.
unfoldable pub target_device : List FoundDevice → DeviceType → Option ℕ
target_device [] type = none
target_device (found ∷ rest) type =
    let later = target_device rest type in
    if same_type found.type type then some found.device else later

-- `UsbStream`
pub record UsbStream (D : Type 0) : Type 0 where
  pub devices : List FoundDevice
  pub current : Option (Session D)

-- How `streamSetupCommands` ends: it returns, or throws because GC550 support is not compiled, no
-- device was found, it could not be opened, or the bootstrap threw.
pub data Setup : Type 0 where
  set_up not_compiled not_found not_opened not_bootstrapped : Setup

-- `update`: the chunks for the callback, or the reason it throws with; without a session it would use
-- a null pointer.
pub data Update : Type 0 where
  delivered : List Chunk → Update
  stopped : EndReason → Update
  no_session : Update

module _ {D : Type 0} (usb : Usb D) (fuel : ℕ) (commands : DeviceType → List ℕ) where
  abbrev pub setup_session : UsbStream D → Opened D → Setup × UsbStream D
  setup_session u (refused calls) = (not_opened, u)
  setup_session u (session s) =
      let (works, s') = DeviceSession.bootstrap usb fuel commands s in
      (if works then set_up else not_bootstrapped, record u { current = some s' })

  abbrev pub setup_target :
      Option ℕ → (ℕ → Opening D) → DeviceType → Bool → Bool → UsbStream D → Setup × UsbStream D
  setup_target none answers type status_poll debug u = (not_found, u)
  setup_target (some device) answers type status_poll debug u =
      setup_session u (open_session (answers device) type status_poll debug)

  -- `streamSetupCommands`; `status_poll` is whether LGX2_NO_STATUS_POLL is unset.
  unfoldable pub stream_setup_commands :
      Bool → (ℕ → Opening D) → DeviceType → Bool → Bool → UsbStream D → Setup × UsbStream D
  stream_setup_commands gc550 answers type status_poll debug u =
      if not gc550 && same_type type lgx
      then (not_compiled, u)
      else setup_target (target_device u.devices type) answers type status_poll debug u

module _ {D : Type 0} where
  abbrev start_session : Streaming → Option (Session D) → Option (Session D)
  start_session w none = none
  start_session w (some s) = some (DeviceSession.start w s)

  -- `queueFrameRead`
  unfoldable pub queue_frame_read : Streaming → UsbStream D → UsbStream D
  queue_frame_read w u = record u { current = start_session w u.current }

  abbrev update_session : Option (Session D) → UsbStream D → Update × UsbStream D
  update_session none u = (no_session, u)
  update_session (some s) u =
      let (chunks, s') = DeviceSession.deliver s in
      if ended s
      then (stopped (end_reason s), u)
      else (delivered chunks, record u { current = some s' })

  -- `update`
  unfoldable pub update : UsbStream D → Update × UsbStream D
  update u = update_session u.current u

  -- `shutdownStream`, with the session as `stop` leaves it, which is then destroyed.
  unfoldable pub shutdown_stream : UsbStream D → Option (Session D) × UsbStream D
  shutdown_stream u = (Option.map DeviceSession.stop u.current, record u { current = none })

  abbrev session_state : Option (Session D) → InputState
  session_state none = signal
  session_state (some s) = DeviceSession.input_state s

  -- `inputState`
  abbrev pub stream_input_state : UsbStream D → InputState
  stream_input_state u = session_state u.current
