-- ===== src/StatusMonitor.antt =====
-- src/liblgx/liblgx-usb/src/usb/StatusMonitor.h and StatusMonitor.cpp: the reads of the HDMI receiver's
-- registers over the command bridge, the probe before streaming and the thread. The rounds of the
-- poll itself are in SignalStatus/Poll. `fuel` bounds the drain of late replies. A line of
-- `reportFrontEnd` is the list of the values in it, since the rest of its text is fixed.
pub mod Read
mod Tests
use lgx2userspace.Prelude.{
  ℕ, ◌+◌, Bool, true, false, not, ◌&&◌, ◌||◌, Option, none, some, List, [], ◌∷◌, ◌++◌, ◌==◌,
  if◌then◌else◌, Bytes, get_or,
}
use lgx2userspace.Usb.{
  UsbResult, success, error_timeout, error_no_device, error_pipe, error_other, Usb, DeviceType, lgx,
  lgx2, is_lgx2,
}
use lgx2userspace.CommandBridge.{Bridge, Reply, ok, err, Command, ◌>>=◌, i2c_read, drain_responses}
use lgx2userspace.CapturePipeline.{InputState, signal}
use lgx2userspace.SignalStatus.{AdvStatusRegisters, SignalStatus, decode, input_state_of}
use lgx2userspace.SignalStatus.Poll.{ReadResult, no_device, failed, read, Monitor, poll}

-- The fields of `StatusMonitor` besides the poll's: the two flags of the thread, `_reportedHdcpLock`,
-- `_lastFrontEnd`, and how often the notice of the lock and the lines of the front-end were printed.
pub record StatusMonitor : Type 0 where
  pub device_type : DeviceType
  pub front_end_debug : Bool
  pub input_state : InputState
  pub joinable : Bool
  pub stopping : Bool
  pub reported_hdcp_lock : Bool
  pub lock_notices : ℕ
  pub last_front_end : List ℕ
  pub front_end_lines : List (List ℕ)

-- The constructor; `debug` is whether LGX2_FRONTEND_DEBUG is set.
abbrev pub new_monitor : DeviceType → Bool → StatusMonitor
new_monitor type debug = record {
  device_type = type;
  front_end_debug = is_lgx2 type && debug;
  input_state = signal;
  joinable = false;
  stopping = false;
  reported_hdcp_lock = false;
  lock_notices = 0;
  last_front_end = [];
  front_end_lines = [];
}

-- `_infoFrameAddress`
abbrev pub info_frame_address : DeviceType → ℕ
info_frame_address lgx2 = 0x3E
info_frame_address lgx = 0x46

-- `start`
unfoldable pub start : StatusMonitor → StatusMonitor
start m = if m.joinable then m else record m { stopping = false; joinable = true }

-- `stop`: it returns when the thread has ended.
unfoldable pub stop : StatusMonitor → StatusMonitor
stop m = record m { stopping = true; joinable = false }

-- `reportHdcpLock`
unfoldable pub report_hdcp_lock : SignalStatus → AdvStatusRegisters → StatusMonitor → StatusMonitor
report_hdcp_lock status regs m =
    if m.reported_hdcp_lock || (not regs.have_front_end || not status.hdcp_encrypted)
    then m
    else record m { reported_hdcp_lock = true; lock_notices = m.lock_notices + 1 }

abbrev pub same_line : List ℕ → List ℕ → Bool
same_line [] [] = true
same_line [] (y ∷ ys) = false
same_line (x ∷ xs) [] = false
same_line (x ∷ xs) (y ∷ ys) = x == y && same_line xs ys

-- BLOCKS: the address and the register of each entry of the line.
abbrev pub front_end_blocks : List (ℕ × ℕ)
front_end_blocks =
    (0x2C, 0x05)
    ∷ (0x2C, 0x0A)
    ∷ (0x58, 0x0F)
    ∷ (0x58, 0x09)
    ∷ (0x58, 0x10)
    ∷ (0x58, 0x12)
    ∷ (0x58, 0x13)
    ∷ (0x58, 0x14)
    ∷ (0x58, 0x15)
    ∷ (0x58, 0x19)
    ∷ (0x58, 0x1A)
    ∷ (0x58, 0x1B)
    ∷ (0x58, 0x1D)
    ∷ (0x58, 0x23)
    ∷ (0x58, 0x48)
    ∷ (0x58, 0x99)
    ∷ (0x58, 0x9A)
    ∷ (0x58, 0xCF)
    ∷ (0x44, 0x03)
    ∷ (0x44, 0x07)
    ∷ (0x44, 0x28)
    ∷ (0x44, 0x41)
    ∷ (0x45, 0x03)
    ∷ (0x45, 0x07)
    ∷ (0x45, 0x28)
    ∷ (0x45, 0x41)
    ∷ (0x46, 0x03)
    ∷ (0x46, 0x07)
    ∷ (0x46, 0x28)
    ∷ (0x46, 0x41)
    ∷ (0x47, 0x03)
    ∷ (0x47, 0x07)
    ∷ (0x47, 0x28)
    ∷ (0x47, 0x41)
    ∷ []

module _ {D : Type 0} (usb : Usb D) (fuel : ℕ) where
  abbrev pub return : {A : Type 0} → A → Command D A
  return a b = (ok a, b)

  -- A read of one register.
  unfoldable pub read_one : ℕ → ℕ → Command D ℕ
  read_one address reg = do value ← i2c_read usb address reg 1; return (get_or value 0 0)

  -- `readAdvStatus`
  unfoldable pub read_adv_status : DeviceType → Command D AdvStatusRegisters
  read_adv_status type = do
    io0c ← read_one 0x20 0x0C
    io12 ← read_one 0x20 0x12
    io6a ← read_one 0x20 0x6A
    io6f ← read_one 0x20 0x6F
    cp_b1 ← read_one 0x22 0xB1
    io02 ← read_one 0x20 0x02
    io60 ← read_one 0x20 0x60
    avi01 ← read_one (info_frame_address type) 0x01
    hdmi05 ← i2c_read usb 0x34 0x05 8
    hdmi20 ← i2c_read usb 0x34 0x20 6
    hdmi2a ← i2c_read usb 0x34 0x2A 12
    hdmi3b ← read_one 0x34 0x3B
    front ← if is_lgx2 type then read_one 0x58 0xCF else return 0
    return (record {
      io0c = io0c;
      io12 = io12;
      io6a = io6a;
      io6f = io6f;
      cp_b1 = cp_b1;
      io02 = io02;
      io60 = io60;
      avi01 = avi01;
      hdmi05to0c = hdmi05;
      hdmi20to25 = hdmi20;
      hdmi2ato35 = hdmi2a;
      hdmi3b = hdmi3b;
      have_front_end = is_lgx2 type;
      front_end_rx_cf = front;
    })

  -- The loops of `reportFrontEnd`: the values, if all could be read.
  unfoldable pub read_front_end : List (ℕ × ℕ) → List ℕ → Bridge D → Option (List ℕ) × Bridge D
  read_front_end [] line b = (some line, b)
  read_front_end ((address, reg) ∷ rest) line b =
      let (answer, b') = read_one address reg b in
      elim answer [
        | ok value ↦ read_front_end rest (line ++ (value ∷ [])) b'
        | err e ↦ (none, drain_responses usb fuel b')
      ]

  abbrev pub print_front_end : Option (List ℕ) → StatusMonitor → StatusMonitor
  print_front_end none m = m
  print_front_end (some line) m =
      if same_line line m.last_front_end
      then m
      else record m { last_front_end = line; front_end_lines = m.front_end_lines ++ (line ∷ []) }

  -- `reportFrontEnd`
  unfoldable pub report_front_end : StatusMonitor → Bridge D → StatusMonitor × Bridge D
  report_front_end m b =
      let (line, b') = read_front_end front_end_blocks [] b in
      if m.front_end_debug then (print_front_end line m, b') else (m, b)

  abbrev pub probed : Reply AdvStatusRegisters → StatusMonitor → Bridge D → StatusMonitor × Bridge D
  probed (err e) m b = (m, drain_responses usb fuel b)
  probed (ok regs) m b =
      report_front_end
        (report_hdcp_lock (decode regs) regs
          (record m { input_state = input_state_of (decode regs) }))
        b

  -- `probeOnce`
  unfoldable pub probe_once : StatusMonitor → Bridge D → StatusMonitor × Bridge D
  probe_once m b = let (answer, b') = read_adv_status m.device_type b in probed answer m b'

  -- What a round of `pollLoop` sees of the read.
  abbrev pub result_of : Reply AdvStatusRegisters → ReadResult
  result_of (ok regs) = read regs
  result_of (err error_no_device) = no_device
  result_of (err success) = failed
  result_of (err error_timeout) = failed
  result_of (err error_pipe) = failed
  result_of (err error_other) = failed

  -- The drain of a round that failed.
  abbrev pub drain_failed : ReadResult → Bridge D → Bridge D
  drain_failed failed b = drain_responses usb fuel b
  drain_failed no_device b = b
  drain_failed (read regs) b = b

  -- A round of `pollLoop` with its read, while `_stopping` is not set; `reportHdcpLock` and
  -- `reportFrontEnd` are not in it.
  unfoldable pub poll_bridge : DeviceType → Monitor → Bridge D → Monitor × Bridge D
  poll_bridge type m b =
      let (answer, b') = read_adv_status type b in
      (poll (result_of answer) m, drain_failed (result_of answer) b')
