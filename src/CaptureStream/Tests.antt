-- ===== src/CaptureStream/Tests.antt =====
-- Runs of the queue and the pool of src/liblgx/liblgx-usb/src/usb/CaptureStream.cpp.
use lgx2userspace.Prelude.{
  ℕ, ◌+◌, ◌≡◌, refl, true, false, none, some, List, [], ◌∷◌, ◌++◌, inl, arith, length,
}
use lgx2userspace.CaptureStream.{RingSlot, no_frame_start, CaptureStream, clamp_chunk}
use lgx2userspace.CaptureStream.Window.{contents}
use lgx2userspace.CaptureStream.Spec.{
  Op, enqueue, deliver_round, drain, skip, queue_of, tail, calls, specs,
}
use lgx2userspace.CaptureStream.Refine.{IsLive, calls_refine}
use lgx2userspace.CaptureStream.Gaps.{overflow_flags, stores, flagged, stores_lossless}
use lgx2userspace.CaptureStream.Transfers.{
  Status, completed, cancelled, failed, Submit, success, Completion, usb_transfer_complete,
  probe_transfer_complete, starts_frame, usb_complete, submit_transfer, erase,
}
use lgx2userspace.CaptureStream.Pool.{Drains, settled, read, stop-Drains}
use lgx2userspace.CaptureStream.Probe.{probes, probes_give_up}

abbrev slot : ℕ → RingSlot
slot n = record { buffer = n ∷ []; size = 1; gapped = false }

-- A stream with `count` chunks in its ring, and two transfers in flight.
abbrev stream : ℕ → CaptureStream
stream count = record {
  ring = slot 0 ∷ slot 1 ∷ slot 2 ∷ slot 3 ∷ slot 4 ∷ slot 5 ∷ slot 6 ∷ slot 7 ∷ [];
  ring_write = 2;
  ring_count = count;
  gap_pending = false;
  shutting_down = false;
  error = none;
  dropped_chunks = 0;
  transfer_errors = 0;
  dump = none;
  dump_count = 0;
  transfers = 100 ∷ 101 ∷ [];
  probe_attempts = 0;
}

full-IsLive : IsLive (stream 8)
full-IsLive = record {
  valid = record { slots = refl; write_in = omega arith; count_in = omega arith };
  up = refl;
}

some-IsLive : IsLive (stream 3)
some-IsLive = record {
  valid = record { slots = refl; write_in = omega arith; count_in = omega arith };
  up = refl;
}

-- A delivery, between whose rounds chunks arrive; the ring overflows meanwhile.
abbrev interleaved : List Op
interleaved =
    deliver_round
    ∷ enqueue (9 ∷ []) false
    ∷ enqueue (8 ∷ []) false
    ∷ deliver_round
    ∷ skip
    ∷ enqueue (7 ∷ []) false
    ∷ drain
    ∷ []

calls_refine_example : calls interleaved (stream 8) ≡ specs interleaved (queue_of (stream 8))
calls_refine_example = calls_refine interleaved (stream 8) full-IsLive

overflow_flags_example :
    calls (enqueue (9 ∷ []) false ∷ drain ∷ []) (stream 8)
    ≡ tail (contents (stream 8)) ++ ((clamp_chunk (9 ∷ []), true) ∷ [])
overflow_flags_example = overflow_flags (9 ∷ []) false (stream 8) full-IsLive refl refl

stores_lossless_example :
    calls (stores ((9 ∷ [], false) ∷ (8 ∷ [], true) ∷ []) (drain ∷ [])) (stream 3)
    ≡ contents (stream 3) ++ flagged false ((9 ∷ [], false) ∷ (8 ∷ [], true) ∷ [])
stores_lossless_example =
    stores_lossless ((9 ∷ [], false) ∷ (8 ∷ [], true) ∷ []) (stream 3) some-IsLive (omega arith)
      (refl, (refl, tt))

-- A completion of a transfer in flight.
abbrev completion : Status → ℕ → Completion
completion st t = record { transfer = t; status = st; buffer = 1 ∷ 2 ∷ []; resubmit = success }

-- The reads that libusb gives out.
abbrev reads : ℕ → ℕ × Submit
reads i = (200 + i, success)

-- Both transfers complete behind `stop`.
abbrev stopping : CaptureStream
stopping = record (stream 3) { shutting_down = true }

abbrev one_left : CaptureStream
one_left = usb_transfer_complete (completion cancelled 100) stopping

abbrev none_left : CaptureStream
none_left = usb_transfer_complete (completion completed 101) one_left

drained : Drains stopping 2 none_left
unfolding usb_complete submit_transfer erase
drained =
    read (completion cancelled 100) (inl refl)
      (read (completion completed 101) (inl refl) (settled none_left))

stop-Drains_example :
    (length none_left.transfers + 2 ≡ 2) × (contents none_left ≡ contents stopping)
stop-Drains_example = stop-Drains refl drained

-- The last of the misses that are let pass.
abbrev misses : List Completion
misses = completion failed 100 ∷ completion completed 100 ∷ []

abbrev probing : CaptureStream
probing = record (stream 3) { probe_attempts = 6 }

probes_give_up_example :
    (probes reads misses probing ≡ record probing { probe_attempts = 8 })
    × ((probe_transfer_complete reads (completion failed 100) (probes reads misses probing)).error
        ≡ some no_frame_start)
    × ((probe_transfer_complete reads
          (completion failed 100)
          (probes reads misses probing)).transfers
        ≡ erase 100 (100 ∷ 101 ∷ []))
unfolding starts_frame
probes_give_up_example =
    probes_give_up reads misses (completion failed 100) probing refl refl
      ((tt, refl), ((refl, refl), tt)) tt refl
