-- ===== src/DeviceSession.antt =====
-- src/liblgx/liblgx-usb/src/usb/DeviceSession.h and DeviceSession.cpp: one opened card. What libusb
-- answers to the calls that open it is an argument; `calls` is what was done with the handle, in order.
-- `_bridge` and `_statusMonitor` are made and destroyed together.
pub mod Usage
pub mod Used
pub mod Lifetime
mod Tests
use lgx2userspace.Prelude.{
  ℕ, ◌+◌, Bool, true, false, not, ◌&&◌, ◌||◌, Option, none, some, List, [], ◌∷◌, ◌++◌,
  if◌then◌else◌,
}
use lgx2userspace.Usb.{UsbResult, is_success, Usb, DeviceType}
use lgx2userspace.CommandBridge.{Bridge, no_failure}
use lgx2userspace.Bootstrapper
use lgx2userspace.Bootstrapper.{Booted, booted, already_bootstrapped, replay_failed}
use lgx2userspace.StatusMonitor
use lgx2userspace.StatusMonitor.{StatusMonitor, new_monitor, probe_once}
use lgx2userspace.CapturePipeline.{InputState, signal}
use lgx2userspace.CaptureStream
use lgx2userspace.CaptureStream.{CaptureStream, Chunk, Failure}
use lgx2userspace.CaptureStream.Transfers
use lgx2userspace.CaptureStream.Transfers.{Submit}

-- What is done with the handle: libusb's calls, the commands of the bootstrap and the probe, and the
-- start and the end of the poll thread and of the stream. `null_dereference` is the use of a part that
-- is not there.
pub data Call : Type 0 where
  opened configured claimed commanded capture_started poll_started poll_stopped : Call
  capture_stopped released reset closed null_dereference : Call

-- `_bridge` and `_statusMonitor`
pub record Parts (D : Type 0) : Type 0 where
  pub bridge : Bridge D
  pub monitor : StatusMonitor

-- `DeviceSession`: `has_dev` is whether `_dev` is not null.
pub record Session (D : Type 0) : Type 0 where
  pub has_dev : Bool
  pub device_type : DeviceType
  pub status_poll : Bool
  pub reused : Bool
  pub parts : Option (Parts D)
  pub capture : Option CaptureStream
  pub calls : List Call

-- The answers of `libusb_open`, `libusb_set_configuration` and `libusb_claim_interface`, and the
-- device behind them.
pub record Opening (D : Type 0) : Type 0 where
  pub open_result : UsbResult
  pub configuration_result : UsbResult
  pub claim_result : UsbResult
  pub device : D

-- A new session, or what was done before the constructor threw.
pub data Opened (D : Type 0) : Type 0 where
  session : Session D → Opened D
  refused : List Call → Opened D

-- What the start of the stream needs of libusb: `_capture` as it is made, the probe transfer and the
-- transfers of the pool, with the answers to their submission.
pub record Streaming : Type 0 where
  pub fresh_capture : CaptureStream
  pub probe : ℕ × Submit
  pub alloc : ℕ → ℕ × Submit

-- The constructor; `debug` is whether LGX2_FRONTEND_DEBUG is set.
unfoldable pub open_session : {D : Type 0} → Opening D → DeviceType → Bool → Bool → Opened D
open_session o type status_poll debug =
    if not (is_success o.open_result)
    then refused []
    else if not (is_success o.configuration_result)
    then refused (opened ∷ closed ∷ [])
    else if not (is_success o.claim_result)
    then refused (opened ∷ configured ∷ closed ∷ [])
    else session (record {
      has_dev = true;
      device_type = type;
      status_poll = status_poll;
      reused = false;
      parts = some (record {
        bridge = record { device = o.device; last_failure = no_failure };
        monitor = new_monitor type debug;
      });
      capture = none;
      calls = opened ∷ configured ∷ claimed ∷ [];
    })

abbrev pub note : {D : Type 0} → List Call → Session D → Session D
note calls s = record s { calls = s.calls ++ calls }

abbrev pub is_booted : Booted → Bool
is_booted (booted already) = true
is_booted already_bootstrapped = false
is_booted (replay_failed ending) = false

abbrev reuses : Booted → Bool
reuses (booted already) = already
reuses already_bootstrapped = false
reuses (replay_failed ending) = false

module _ {D : Type 0} (usb : Usb D) (fuel : ℕ) (commands : DeviceType → List ℕ) where
  abbrev pub bootstrap_parts : Option (Parts D) → Session D → Bool × Session D
  bootstrap_parts none s = (false, note (null_dereference ∷ []) s)
  bootstrap_parts (some p) s =
      let (result, b) = Bootstrapper.bootstrap usb fuel commands s.device_type p.bridge in
      let (m, b') = probe_once usb fuel p.monitor b in
      if not (is_booted result)
      then (false, record (note (commanded ∷ []) s) { parts = some (record p { bridge = b }) })
      else if s.status_poll
      then (
        true,
        record (note (commanded ∷ []) s) {
          reused = reuses result;
          parts = some (record { bridge = b'; monitor = m });
        },
      )
      else (
        true,
        record (note (commanded ∷ []) s) {
          reused = reuses result;
          parts = some (record p { bridge = b });
        },
      )

  -- `bootstrap`: whether it returns, or throws.
  unfoldable pub bootstrap : Session D → Bool × Session D
  bootstrap s = bootstrap_parts s.parts s

-- What `stop`, `ended`, `endReason` and the counters ask `_capture`.
abbrev pub stop_capture : Option CaptureStream → List Call
stop_capture none = []
stop_capture (some c) = capture_stopped ∷ []

abbrev pub capture_failure : Option CaptureStream → Option Failure
capture_failure none = none
capture_failure (some c) = c.error

abbrev pub is_some : {A : Type 0} → Option A → Bool
is_some none = false
is_some (some a) = true

abbrev capture_drops : Option CaptureStream → ℕ
capture_drops none = 0
capture_drops (some c) = c.dropped_chunks

abbrev capture_errors : Option CaptureStream → ℕ
capture_errors none = 0
capture_errors (some c) = c.transfer_errors

-- What `endReason` says: the failure of the stream, "Session stopped" or nothing.
pub data EndReason : Type 0 where
  stream_failed : Failure → EndReason
  session_stopped still_running : EndReason

abbrev reason_of : Bool → Option Failure → EndReason
reason_of there (some f) = stream_failed f
reason_of true none = still_running
reason_of false none = session_stopped

module _ {D : Type 0} where
  abbrev pub start_poll : Option (Parts D) → Session D → Session D
  start_poll none s = note (null_dereference ∷ []) s
  start_poll (some p) s = record (note (poll_started ∷ []) s) {
    parts = some (record p { monitor = StatusMonitor.start p.monitor });
  }

  -- `start`
  unfoldable pub start : Streaming → Session D → Session D
  start w s =
      let streaming = record (note (capture_started ∷ []) s) {
        capture = some (Transfers.start (not s.reused) w.probe w.alloc w.fresh_capture);
      } in
      if s.status_poll then start_poll s.parts streaming else streaming

  abbrev deliver_capture : Option CaptureStream → Session D → List Chunk × Session D
  deliver_capture none s = ([], s)
  deliver_capture (some c) s =
      let (chunks, c') = CaptureStream.deliver c in (chunks, record s { capture = some c' })

  -- `deliver`: the chunks that the callback gets.
  unfoldable pub deliver : Session D → List Chunk × Session D
  deliver s = deliver_capture s.capture s

  abbrev discard_capture : Option CaptureStream → Session D → Session D
  discard_capture none s = s
  discard_capture (some c) s = record s { capture = some (CaptureStream.discard c) }

  -- `discard`
  unfoldable pub discard : Session D → Session D
  discard s = discard_capture s.capture s

  abbrev pub stop_parts : Option (Parts D) → List Call
  stop_parts none = []
  stop_parts (some p) = poll_stopped ∷ []

  -- `stop`. What the poll thread and the stream are left with goes with them.
  unfoldable pub stop : Session D → Session D
  stop s = if not s.has_dev then s else record s {
    has_dev = false;
    parts = none;
    capture = none;
    calls =
        s.calls
        ++ (stop_parts s.parts ++ (stop_capture s.capture ++ (released ∷ reset ∷ closed ∷ [])));
  }

  -- `ended`
  unfoldable pub ended : Session D → Bool
  ended s = not s.has_dev || is_some (capture_failure s.capture)

  -- `endReason`
  unfoldable pub end_reason : Session D → EndReason
  end_reason s = reason_of s.has_dev (capture_failure s.capture)

  abbrev parts_state : Option (Parts D) → InputState
  parts_state none = signal
  parts_state (some p) = p.monitor.input_state

  -- `inputState`
  unfoldable pub input_state : Session D → InputState
  input_state s = parts_state s.parts

  -- `droppedChunks`
  abbrev pub dropped_chunks : Session D → ℕ
  dropped_chunks s = capture_drops s.capture

  -- `transferErrors`
  abbrev pub transfer_errors : Session D → ℕ
  transfer_errors s = capture_errors s.capture
