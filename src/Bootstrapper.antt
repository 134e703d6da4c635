-- ===== src/Bootstrapper.antt =====
-- src/liblgx/liblgx-usb/src/usb/Bootstrapper.h and Bootstrapper.cpp: from an opened card to one that is
-- ready to stream. The recorded command streams and libusb are parameters; `fuel` bounds the drains.
-- What is printed is left out, but for the counters that `reportCryptoAttemptCounters` prints.
pub mod Settle
pub mod Boot
mod Tests
use lgx2userspace.Prelude.{
  ℕ, zero, suc, ◌+◌, ◌%◌, ◌^◌, Bool, true, false, not, ◌&&◌, Option, none, some, List, [], ◌∷◌,
  ◌++◌, ◌==◌, if◌then◌else◌, Bytes, get_or,
}
use lgx2userspace.Usb.{
  UsbResult, success, error_timeout, error_no_device, error_pipe, error_other, Usb, DeviceType, lgx,
  lgx2,
}
use lgx2userspace.CaptureStream.{chunk_bytes}
use lgx2userspace.CommandBridge.{
  Bridge, Reply, ok, err, Command, ◌>>=◌, i2c_read, i2c_write, crypto_read_config, drain_responses,
}
use lgx2userspace.CommandBridge.Replay.{Ending, is_done, replay}

pub data BoardState : Type 0 where
  fresh configured unknown : BoardState

-- What `bootstrap` returns, or the exception it throws.
pub data Booted : Type 0 where
  booted : Bool → Booted
  already_bootstrapped : Booted
  replay_failed : Ending → Booted

abbrev pub adv_io : ℕ
adv_io = 0x20

abbrev pub adv_cp : ℕ
adv_cp = 0x22

abbrev pub pca9539a : ℕ
pca9539a = 0x74

-- The state that the registers tell of, once they were read.
unfoldable pub board_state_of : ℕ → Bytes → BoardState
board_state_of edid_map_address pca_config =
    if not (edid_map_address == 0x6C)
    then fresh
    else if get_or pca_config 0 0 == 0x00 && get_or pca_config 1 0 == 0x09
    then configured
    else unknown

-- `(io02 & 0x0F) | 0xF0`
abbrev pub automatic_of : ℕ → ℕ
automatic_of io02 = io02 % 2 ^ 4 + 0xF0

-- ADJUSTMENTS: the register and its neutral value.
abbrev pub adjustments : List (ℕ × ℕ)
adjustments = (0x3A, 0x80) ∷ (0x3B, 0x80) ∷ (0x3C, 0x00) ∷ (0x3D, 0x00) ∷ []

-- COUNTERS: the addresses.
abbrev pub counters : List ℕ
counters = 0x50 ∷ 0x60 ∷ 0x70 ∷ 0xB0 ∷ 0xB8 ∷ 0xC0 ∷ 0xD0 ∷ []

abbrev is_timeout : UsbResult → Bool
is_timeout success = false
is_timeout error_timeout = true
is_timeout error_no_device = false
is_timeout error_pipe = false
is_timeout error_other = false

module _ {D : Type 0} (usb : Usb D) (fuel : ℕ) where
  -- `videoAlreadyFlowing`
  unfoldable pub video_already_flowing : Bridge D → Bool × Bridge D
  video_already_flowing b =
      let received = usb.bulk_in 0x03 chunk_bytes 100 b.device in
      (not (is_timeout received.result), record b { device = received.device })

  -- The two reads of `detectBoardState`, and the state they tell of.
  unfoldable pub read_board_state : Command D BoardState
  read_board_state = do
    edid ← i2c_read usb adv_io 0xFA 1
    pca ← i2c_read usb pca9539a 0x06 2
    λ b. (ok (board_state_of (get_or edid 0 0) pca), b)

  abbrev pub detected : Reply BoardState → Bridge D → BoardState × Bridge D
  detected (ok state) b = (state, b)
  detected (err e) b = (unknown, drain_responses usb fuel b)

  -- `detectBoardState`
  unfoldable pub detect_board_state : Bridge D → BoardState × Bridge D
  detect_board_state b =
      let (answer, b') = read_board_state (drain_responses usb fuel b) in detected answer b'

  -- The loop of `reportCryptoAttemptCounters`: the counters, if all could be read.
  unfoldable pub report_counters : List ℕ → List ℕ → Bridge D → Option (List ℕ) × Bridge D
  report_counters [] line b = (some line, b)
  report_counters (address ∷ addresses) line b =
      let (answer, b') = crypto_read_config usb address 1 b in
      elim answer [
        | ok value ↦ report_counters addresses (line ++ (get_or value 0 0 ∷ [])) b'
        | err e ↦ (none, drain_responses usb fuel b')
      ]

  -- `reportCryptoAttemptCounters`
  unfoldable pub report_crypto_attempt_counters : Bridge D → Option (List ℕ) × Bridge D
  report_crypto_attempt_counters b = report_counters counters [] (drain_responses usb fuel b)

  abbrev pub set_automatic : Reply Bytes → Bridge D → Bridge D
  set_automatic (err e) b = drain_responses usb fuel b
  set_automatic (ok io02) b =
      if automatic_of (get_or io02 0 0) == get_or io02 0 0
      then b
      else (i2c_write usb adv_io 0x02 (automatic_of (get_or io02 0 0)) b).1

  -- `setAutoInputColourSpace`
  unfoldable pub set_auto_input_colour_space : Bridge D → Bridge D
  set_auto_input_colour_space b =
      let (answer, b') = i2c_read usb adv_io 0x02 1 b in set_automatic answer b'

  abbrev pub set_neutral : ℕ → ℕ → Reply Bytes → Bridge D → Bridge D
  set_neutral reg neutral (err e) b = drain_responses usb fuel b
  set_neutral reg neutral (ok value) b =
      if get_or value 0 0 == neutral then b else (i2c_write usb adv_cp reg neutral b).1

  -- A round of the loop of `resetPictureAdjustment`.
  unfoldable pub reset_adjustment : ℕ → ℕ → Bridge D → Bridge D
  reset_adjustment reg neutral b =
      let (answer, b') = i2c_read usb adv_cp reg 1 b in set_neutral reg neutral answer b'

  unfoldable pub reset_adjustments : List (ℕ × ℕ) → Bridge D → Bridge D
  reset_adjustments [] b = b
  reset_adjustments ((reg, neutral) ∷ rest) b =
      reset_adjustments rest (reset_adjustment reg neutral b)

  -- `resetPictureAdjustment`
  abbrev pub reset_picture_adjustment : Bridge D → Bridge D
  reset_picture_adjustment b = reset_adjustments adjustments b

  -- The end of `bootstrap`, on either way.
  unfoldable pub finish : Bool → Bridge D → Booted × Bridge D
  finish already b = (booted already, reset_picture_adjustment (set_auto_input_colour_space b))

  module _ (commands : DeviceType → List ℕ) where
    -- The replay, whose exception `bootstrap` passes on.
    unfoldable pub replay_commands : DeviceType → Bridge D → Booted × Bridge D
    replay_commands type b =
        let (ending, d) = replay usb (commands type) b.device in
        if is_done ending
        then finish false (drain_responses usb fuel (record b { device = d }))
        else (replay_failed ending, record b { device = d })

    -- `bootstrap` from the state of the board on.
    abbrev pub bootstrap_from : DeviceType → BoardState → Bridge D → Booted × Bridge D
    bootstrap_from type configured b = finish true b
    bootstrap_from type fresh b = replay_commands type b
    bootstrap_from type unknown b =
        let (flowing, b') = video_already_flowing b in
        if flowing then (already_bootstrapped, b') else replay_commands type b'

    -- `bootstrap`
    unfoldable pub bootstrap : DeviceType → Bridge D → Booted × Bridge D
    bootstrap lgx2 b = let (state, b') = detect_board_state b in bootstrap_from lgx2 state b'
    bootstrap lgx b =
        let (state, b') = detect_board_state (report_crypto_attempt_counters b).1 in
        bootstrap_from lgx state b'
