-- ===== src/Bootstrapper/Tests.antt =====
-- Runs of src/liblgx/liblgx-usb/src/usb/Bootstrapper.cpp on a small board.
use lgx2userspace.Prelude.{
  ℕ, ◌<◌, ◌≡◌, ◌≢◌, length, refl, true, false, [], ◌∷◌, ◌&&◌, arith, List, ◌==◌, if◌then◌else◌,
}
use lgx2userspace.Usb.{DeviceType, lgx2, Usb, Board, success}
use lgx2userspace.Usb.Toy.{ToyDevice, toy_usb, toy_board, toy_reply}
use lgx2userspace.CommandBridge.{
  Bridge, no_failure, i2c_read, send, receive, drain_responses, drain_responses_locked,
}
use lgx2userspace.CommandBridge.Answers.{Holds}
use lgx2userspace.CommandBridge.Replay.{
  Ending, done, replay, tokens_from, parse_command, replay_tokens, hex_bytes, stoi, digits_from,
  digit_value, step,
}
use lgx2userspace.Bootstrapper.{
  booted, board_state_of, detect_board_state, read_board_state, bootstrap, already_bootstrapped,
  video_already_flowing,
}
use lgx2userspace.Bootstrapper.Settle.{settled_registers}
use lgx2userspace.Bootstrapper.Boot.{bootstrap_reuses, bootstrap_replays, bootstrap_refuses}

-- The registers of a board that is configured.
abbrev configured_registers : ℕ → ℕ → ℕ
configured_registers a r =
    if (a == 0x20) && (r == 0xFA) then 0x6C else if (a == 0x74) && (r == 0x07) then 0x09 else 0

-- A late reply waits.
abbrev on : (ℕ → ℕ → ℕ) → Bridge ToyDevice
on regs = record {
  device = record { registers = regs; waiting = (1 ∷ []) ∷ [] };
  last_failure = no_failure;
}

-- A stream of one write.
abbrev commands : DeviceType → List ℕ
commands type = b'>' ∷ b'0' ∷ b'1' ∷ b'2' ∷ b'0' ∷ b'0' ∷ b'1' ∷ b'0' ∷ b'2' ∷ b'f' ∷ b'4' ∷ []

bootstrap_reuses_example :
    ((bootstrap toy_usb 4 commands lgx2 (on configured_registers)).0 ≡ booted true)
    × Holds toy_usb toy_board
        (settled_registers configured_registers)
        []
        (bootstrap toy_usb 4 commands lgx2 (on configured_registers)).1
unfolding toy_board
bootstrap_reuses_example =
    bootstrap_reuses toy_usb toy_board 4 commands (on configured_registers) (omega arith) refl refl
      refl

abbrev reset_board : Bridge ToyDevice
reset_board = on (λ a r. 0)

-- The board behind the replay.
abbrev replayed : Ending × ToyDevice
replayed = replay toy_usb (commands lgx2) (detect_board_state toy_usb 4 reset_board).1.device

replay_ends : (replayed.0 ≡ done) × (length (toy_board.replies replayed.1) < 4)
unfolding toy_board replay tokens_from replay_tokens parse_command hex_bytes stoi digits_from
    digit_value step detect_board_state read_board_state board_state_of i2c_read send receive
    drain_responses drain_responses_locked
replay_ends = (refl, omega arith)

few : length (toy_board.replies reset_board.device) < 4
unfolding toy_board
few = omega arith

other : toy_board.register reset_board.device 0x20 0xFA ≢ 0x6C
unfolding toy_board
other e = omega (arith, e)

bootstrap_replays_example :
    ((bootstrap toy_usb 4 commands lgx2 reset_board).0 ≡ booted false)
    × Holds toy_usb toy_board
        (settled_registers (toy_board.register replayed.1))
        []
        (bootstrap toy_usb 4 commands lgx2 reset_board).1
bootstrap_replays_example =
    bootstrap_replays toy_usb toy_board 4 commands reset_board few other replay_ends.0 replay_ends.1

-- A board whose expander was set up by its own firmware.
abbrev half_registers : ℕ → ℕ → ℕ
half_registers a r = if (a == 0x20) && (r == 0xFA) then 0x6C else 0x89

-- The board, with video that flows.
abbrev flowing_usb : Usb ToyDevice
flowing_usb = record toy_usb {
  bulk_in = λ endpoint size timeout d.
      if endpoint == 0x01
      then toy_reply d.waiting size d
      else record { result = success; bytes = []; device = d };
}

-- It keeps the same laws.
unfoldable flowing_board : Board flowing_usb
unfolding toy_board
flowing_board = record {
  register = toy_board.register;
  replies = toy_board.replies;
  replies_fit = toy_board.replies_fit;
  read_request = toy_board.read_request;
  write_request = toy_board.write_request;
  reply = toy_board.reply;
  no_reply = toy_board.no_reply;
  video = λ d size timeout. (refl, refl);
}

bootstrap_refuses_example :
    ((bootstrap flowing_usb 4 commands lgx2 (on half_registers)).0 ≡ already_bootstrapped)
    × Holds flowing_usb flowing_board half_registers []
        (bootstrap flowing_usb 4 commands lgx2 (on half_registers)).1
unfolding toy_board flowing_board board_state_of video_already_flowing
bootstrap_refuses_example =
    bootstrap_refuses flowing_usb flowing_board 4 commands (on half_registers) (omega arith) refl
      refl
