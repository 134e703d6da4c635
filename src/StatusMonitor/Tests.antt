-- ===== src/StatusMonitor/Tests.antt =====
-- Runs of src/liblgx/liblgx-usb/src/usb/StatusMonitor.cpp on a small board.
use lgx2userspace.Prelude.{ℕ, ◌<◌, ◌≡◌, refl, true, none, [], ◌∷◌, arith, length}
use lgx2userspace.Usb.{lgx2}
use lgx2userspace.Usb.Toy.{ToyDevice, toy_usb, toy_board}
use lgx2userspace.CommandBridge.{Bridge, no_failure, i2c_read, send, receive}
use lgx2userspace.CommandBridge.Answers.{Holds}
use lgx2userspace.CapturePipeline.{signal}
use lgx2userspace.SignalStatus.Poll.{failed, read, Monitor, poll}
use lgx2userspace.StatusMonitor.{read_one, read_adv_status, result_of, poll_bridge}
use lgx2userspace.StatusMonitor.Read.{snapshot, poll_bridge_reads, poll_bridge_recovers}

abbrev registers : ℕ → ℕ → ℕ
registers a r = 0x12

abbrev bridge : Bridge ToyDevice
bridge = record {
  device = record { registers = registers; waiting = [] };
  last_failure = no_failure;
}

-- A late reply of two bytes waits.
abbrev late : Bridge ToyDevice
late = record {
  device = record { registers = registers; waiting = (1 ∷ 2 ∷ []) ∷ [] };
  last_failure = no_failure;
}

abbrev monitor : Monitor
monitor = record {
  running = true;
  input_state = signal;
  last_status = none;
  consecutive_failures = 0;
  reports = [];
}

poll_bridge_reads_example :
    ((poll_bridge toy_usb 4 lgx2 monitor bridge).0 ≡ poll (read (snapshot lgx2 registers)) monitor)
    × Holds toy_usb toy_board registers [] (poll_bridge toy_usb 4 lgx2 monitor bridge).1
unfolding toy_board
poll_bridge_reads_example = poll_bridge_reads toy_usb toy_board 4 lgx2 monitor bridge refl

late_fails :
    (result_of toy_usb 4 (read_adv_status toy_usb 4 lgx2 late).0 ≡ failed)
    × (length (toy_board.replies (read_adv_status toy_usb 4 lgx2 late).1.device) < 4)
unfolding toy_board read_adv_status read_one i2c_read send receive
late_fails = (refl, omega arith)

-- The registers behind the read that failed.
abbrev left_registers : ℕ → ℕ → ℕ
left_registers = toy_board.register (read_adv_status toy_usb 4 lgx2 late).1.device

poll_bridge_recovers_example :
    (poll_bridge toy_usb 4 lgx2
      (poll_bridge toy_usb 4 lgx2 monitor late).0
      (poll_bridge toy_usb 4 lgx2 monitor late).1).0
    ≡ poll (read (snapshot lgx2 left_registers)) (poll failed monitor)
poll_bridge_recovers_example =
    poll_bridge_recovers toy_usb toy_board 4 lgx2 monitor late late_fails.0 late_fails.1
