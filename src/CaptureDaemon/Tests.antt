-- ===== src/CaptureDaemon/Tests.antt =====
-- Runs of src/lgx2d/CaptureDaemon.cpp on a small board.
use lgx2userspace.Prelude.{
  ℕ, ◌≡◌, refl, true, false, none, List, [], ◌∷◌, replicate, arith, All, Bytes, ◌==◌, if◌then◌else◌,
}
use lgx2userspace.Usb.{success, error_other, lgx2, DeviceType}
use lgx2userspace.Usb.Toy.{ToyDevice, toy_usb}
use lgx2userspace.UsbContext.{References}
use lgx2userspace.CaptureStream.{CaptureStream, empty_slot}
use lgx2userspace.CaptureStream.Transfers
use lgx2userspace.AudioGate
use lgx2userspace.BufferReorderer
use lgx2userspace.FrameBuilder.{fresh}
use lgx2userspace.CapturePipeline.{Setup, Pipeline, start}
use lgx2userspace.CaptureDaemon.{World, Options, Action, queueing, handling, serving, run, destroy}
use lgx2userspace.CaptureDaemon.Balance.{
  IsBalanced, GivenBack, run-IsBalanced, daemon_start, destroy-run,
}

abbrev setup : Setup
setup = record {
  has_video = true;
  has_audio = true;
  keep_alive_frames = true;
  keep_alive_interval = 33_000_000;
  sizes = record { frame = 4; tolerance = 1; audio_max = 8; capacity = 4 };
  dma = 4;
}

abbrev blank : Bytes
blank = 0 ∷ 0 ∷ 0 ∷ 0 ∷ []

abbrev pipeline : Pipeline
pipeline = start BufferReorderer.initial (fresh blank blank (replicate 16 0)) AudioGate.initial

abbrev options : Options
options = record { gc550 = false; status_poll = true; device_type = lgx2; setup = setup }

abbrev commands : DeviceType → List ℕ
commands type = []

abbrev capture : CaptureStream
capture = record {
  ring = replicate 8 empty_slot;
  ring_write = 0;
  ring_count = 0;
  gap_pending = false;
  shutting_down = false;
  error = none;
  dropped_chunks = 0;
  transfer_errors = 0;
  dump = none;
  dump_count = 0;
  transfers = [];
  probe_attempts = 0;
}

-- The first attempt at opening a card fails, as it is not ready.
abbrev world : World ToyDevice
world = record {
  describe = λ d. record { id_vendor = 0x07CA; id_product = 0x0551; bcd_usb = 0x310 };
  answers = λ attempt. record {
    open_result = if attempt == 1 then error_other else success;
    configuration_result = success;
    claim_result = success;
    device = record { registers = λ a r. 0; waiting = [] };
  };
  streaming = record {
    fresh_capture = capture;
    probe = (0, Transfers.success);
    alloc = λ i. (i, Transfers.success);
  };
  debug = false;
}

-- A card arrives, another one arrives, and the first one leaves while the daemon serves it.
abbrev actions : List (Action toy_usb 4 commands options)
actions =
    queueing 7 true
    ∷ handling world
    ∷ queueing 8 true
    ∷ serving 1000
    ∷ handling world
    ∷ queueing 7 false
    ∷ serving 2000
    ∷ handling world
    ∷ serving 3000
    ∷ []

abbrev base : References
base x = 1

run-IsBalanced_example :
    IsBalanced base (
      run toy_usb 4 commands options actions
        (daemon_start toy_usb 4 commands options pipeline base))
run-IsBalanced_example =
    run-IsBalanced toy_usb 4 commands options base actions
      (daemon_start toy_usb 4 commands options pipeline base)
      (record { counts = λ x. omega arith; paired = refl; owned = tt; all_ended = tt })

destroy-run_example :
    ((x : ℕ)
      → (destroy (
            run toy_usb 4 commands options actions
              (daemon_start toy_usb 4 commands options pipeline base))).references
          x
        ≡ base x)
    × ((destroy (
          run toy_usb 4 commands options actions
            (daemon_start toy_usb 4 commands options pipeline base))).current
        ≡ none)
    × All GivenBack
        (destroy (
          run toy_usb 4 commands options actions
            (daemon_start toy_usb 4 commands options pipeline base))).history
destroy-run_example = destroy-run toy_usb 4 commands options base pipeline actions
