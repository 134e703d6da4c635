-- ===== src/SignalStatus/Tests.antt =====
-- Runs of src/liblgx/src/SignalStatus.cpp and of the poll in
-- src/liblgx/liblgx-usb/src/usb/StatusMonitor.cpp.
use lgx2userspace.Prelude.{◌≡◌, refl, true, false, none, [], ◌∷◌, ◌++◌, arith}
use lgx2userspace.CapturePipeline.{signal, no_cable}
use lgx2userspace.SignalStatus.{
  AdvStatusRegisters, SignalStatus, decode, clock_of, signal_present, same_status, input_state_of,
}
use lgx2userspace.SignalStatus.Same.{same_status-input_state}
use lgx2userspace.SignalStatus.Poll.{
  no_device, failed, read, Monitor, poll_loop, failures, failures_give_up, IsReporting,
  poll_loop-IsReporting,
}

-- The registers of a 1920x1080p HDMI signal at 148.5 MHz.
abbrev registers : AdvStatusRegisters
registers = record {
  io0c = 0;
  io12 = 0;
  io6a = 0xF0;
  io6f = 0x10;
  cp_b1 = 0x80;
  io02 = 0xF0;
  io60 = 0;
  avi01 = 0;
  hdmi05to0c = 0x80 ∷ 148 ∷ 0x07 ∷ 0x80 ∷ 0x04 ∷ 0x38 ∷ 0 ∷ 0 ∷ [];
  hdmi20to25 = 0 ∷ 88 ∷ 0 ∷ 44 ∷ 0 ∷ 148 ∷ [];
  hdmi2ato35 = 0 ∷ 8 ∷ 0 ∷ 0 ∷ 0 ∷ 10 ∷ 0 ∷ 0 ∷ 0 ∷ 72 ∷ 0 ∷ 0 ∷ [];
  hdmi3b = 0x20;
  have_front_end = false;
  front_end_rx_cf = 0;
}

decodes :
    ((decode registers).total_width ≡ 2200)
    × ((decode registers).total_height ≡ 1125)
    × ((decode registers).pixel_clock_hz ≡ 148_500_000)
unfolding decode clock_of
decodes = (refl, refl, refl)

-- The same signal with a little noise on the clock.
abbrev noisy : SignalStatus
noisy = record (decode registers) { pixel_clock_hz = 148_500_100 }

noise-same_status : same_status (decode registers) noisy ≡ true
unfolding decode clock_of same_status signal_present
noise-same_status = refl

same_status-input_state_example : input_state_of (decode registers) ≡ input_state_of noisy
same_status-input_state_example = same_status-input_state (decode registers) noisy noise-same_status

abbrev monitor : Monitor
monitor = record {
  running = true;
  input_state = no_cable;
  last_status = none;
  consecutive_failures = 3;
  reports = [];
}

failures_give_up_example :
    poll_loop (failures 7 ++ (read registers ∷ [])) monitor
    ≡ record monitor { consecutive_failures = 10; input_state = signal; running = false }
failures_give_up_example = failures_give_up 7 (read registers ∷ []) monitor refl (omega arith) refl

poll_loop-IsReporting_example :
    IsReporting (poll_loop (read registers ∷ failed ∷ read registers ∷ no_device ∷ []) monitor)
poll_loop-IsReporting_example =
    poll_loop-IsReporting (read registers ∷ failed ∷ read registers ∷ no_device ∷ []) monitor
      (tt, refl)
