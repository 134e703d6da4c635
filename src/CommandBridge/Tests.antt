-- ===== src/CommandBridge/Tests.antt =====
-- Runs of src/liblgx/liblgx-usb/src/usb/CommandBridge.cpp on a small board.
use lgx2userspace.Prelude.{◌+◌, ◌≡◌, refl, [], ◌∷◌, arith, List}
use lgx2userspace.Usb.Toy.{ToyDevice, toy_usb}
use lgx2userspace.CommandBridge.{Bridge, no_failure, ok, i2c_read, send, receive}
use lgx2userspace.CommandBridge.Replay.{
  write, read_reply, Step, replay, run_steps, tokens_from, parse_command, replay_tokens, hex_bytes,
  stoi, digits_from, digit_value, step, done,
}
use lgx2userspace.CommandBridge.Replay.Text.{render_all, replay-render_all}

abbrev toy : ToyDevice
toy = record { registers = λ a r. a + r; waiting = [] }

abbrev bridge : Bridge ToyDevice
bridge = record { device = toy; last_failure = no_failure }

-- Two late replies wait.
abbrev late : Bridge ToyDevice
late = record {
  device = record toy { waiting = (1 ∷ 2 ∷ []) ∷ (7 ∷ []) ∷ [] };
  last_failure = no_failure;
}

two_registers : (i2c_read toy_usb 0x20 0x02 2 bridge).0 ≡ ok (0x22 ∷ 0x23 ∷ [])
unfolding i2c_read send receive
two_registers = refl

-- A write of a register, and its reading.
abbrev steps : List Step
steps =
    write (0x01 ∷ 0x20 ∷ 0x01 ∷ 0x02 ∷ 0xF4 ∷ [])
    ∷ write (0x02 ∷ 0x20 ∷ 0x01 ∷ 0x01 ∷ 0x02 ∷ [])
    ∷ read_reply 1
    ∷ []

replay-render_all_example : replay toy_usb (render_all steps) toy ≡ run_steps toy_usb steps toy
replay-render_all_example = replay-render_all toy_usb steps toy (
  (omega arith, (omega arith, (omega arith, (omega arith, (omega arith, tt))))),
  (
    (omega arith, (omega arith, (omega arith, (omega arith, (omega arith, tt))))),
    (omega arith, tt),
  ),
)

-- The same stream, as a recording writes it.
replays :
    (replay toy_usb
      (b'>' ∷ b'0' ∷ b'1' ∷ b'2' ∷ b'0' ∷ b'0' ∷ b'1' ∷ b'0' ∷ b'2' ∷ b'f' ∷ b'4' ∷ b' ' ∷ [])
      toy).0
    ≡ done
unfolding replay tokens_from replay_tokens parse_command hex_bytes stoi digits_from digit_value step
replays = refl
