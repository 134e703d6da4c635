-- ===== src/DeviceSession/Tests.antt =====
-- Runs of src/liblgx/liblgx-usb/src/usb/DeviceSession.cpp on a small board.
use lgx2userspace.Prelude.{ℕ, ◌≡◌, true, false, none, some, List, [], ◌∷◌, replicate}
use lgx2userspace.Usb.{success, lgx2, DeviceType}
use lgx2userspace.Usb.Toy.{ToyDevice, toy_usb}
use lgx2userspace.CaptureStream.{CaptureStream, empty_slot}
use lgx2userspace.CaptureStream.Transfers
use lgx2userspace.DeviceSession.{Opening, Streaming, open_session}
use lgx2userspace.DeviceSession.Usage.{follow, idle}
use lgx2userspace.DeviceSession.Used.{Method, delivering, discarding, stopping}
use lgx2userspace.DeviceSession.Lifetime.{life, life-follow}

abbrev opening : Opening ToyDevice
opening = record {
  open_result = success;
  configuration_result = success;
  claim_result = success;
  device = record { registers = λ a r. 0; waiting = [] };
}

abbrev capture : CaptureStream
capture = record {
  ring = replicate 8 empty_slot;
  ring_write = 0;
  ring_count = 0;
  gap_pending = false;
  shutting_down = false;
  error = none;
  dropped_chunks = 0;
  transfer_errors = 0;
  dump = none;
  dump_count = 0;
  transfers = [];
  probe_attempts = 0;
}

abbrev streaming : Streaming
streaming = record {
  fresh_capture = capture;
  probe = (0, Transfers.success);
  alloc = λ i. (i, Transfers.success);
}

abbrev commands : DeviceType → List ℕ
commands type = []

-- It is stopped by its owner, and again by its destructor.
abbrev methods : List Method
methods = delivering ∷ discarding ∷ stopping ∷ delivering ∷ []

life-follow_example :
    follow (life toy_usb 4 commands streaming methods (open_session opening lgx2 true false)) idle
    ≡ some idle
life-follow_example = life-follow toy_usb 4 commands opening lgx2 true false streaming methods
