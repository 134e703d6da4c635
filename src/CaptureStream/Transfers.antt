-- ===== src/CaptureStream/Transfers.antt =====
-- The transfer pool of src/liblgx/liblgx-usb/src/usb/CaptureStream.cpp: submission, completion
-- callbacks, start and stop. What libusb answers comes in as arguments.
use lgx2userspace.Prelude.{
  ℕ, ◌+◌, ◌%◌, ◌^◌, Bool, true, false, not, ◌&&◌, none, some, List, [], ◌∷◌, ◌++◌, ltb, leb, ◌==◌,
  if◌then◌else◌, Bytes, length,
}
use lgx2userspace.CaptureStream.{
  Failure, disconnected, no_frame_start, CaptureStream, chunk_bytes, max_probe_attempts,
  enqueue_chunk, mark_gap,
}

-- `transfer->status`
pub data Status : Type 0 where
  completed cancelled no_device failed : Status

-- The result of `libusb_submit_transfer`: LIBUSB_ERROR_NO_DEVICE is told from other errors.
pub data Submit : Type 0 where
  success device_gone error : Submit

-- A completed transfer: its address, its status, `actual_length` bytes of its buffer, and what
-- libusb answers if the callback resubmits it.
pub record Completion : Type 0 where
  pub transfer : ℕ
  pub status : Status
  pub buffer : Bytes
  pub resubmit : Submit

-- `signalError`: only the first failure is kept.
unfoldable pub signal_error : Failure → CaptureStream → CaptureStream
signal_error f s = elim s.error [ none ↦ record s { error = some f } | some _ ↦ s ]

-- `_transfers.erase(std::find(…))`: the first occurrence.
unfoldable pub erase : ℕ → List ℕ → List ℕ
erase t [] = []
erase t (u ∷ us) = if u == t then us else u ∷ erase t us

-- `removeTransferLocked`
abbrev pub remove_transfer : ℕ → CaptureStream → CaptureStream
remove_transfer t s = record s { transfers = erase t s.transfers }

-- `addTransferLocked`
unfoldable pub add_transfer : ℕ → Submit → CaptureStream → CaptureStream
unfolding signal_error
add_transfer t success s = record s { transfers = s.transfers ++ (t ∷ []) }
add_transfer t device_gone s = signal_error disconnected s
add_transfer t error s = s

-- What `submitTransfer` does while the stream is in use.
unfoldable pub resubmit_transfer : ℕ → Submit → CaptureStream → CaptureStream
unfolding signal_error
resubmit_transfer t success s = s
resubmit_transfer t device_gone s = remove_transfer t (signal_error disconnected s)
resubmit_transfer t error s = remove_transfer t s

-- `submitTransfer`
unfoldable pub submit_transfer : ℕ → Submit → CaptureStream → CaptureStream
unfolding resubmit_transfer
submit_transfer t res s =
    if not s.shutting_down then resubmit_transfer t res s else remove_transfer t s

-- `discardTransfer`
abbrev pub discard_transfer : ℕ → CaptureStream → CaptureStream
discard_transfer = remove_transfer

-- The `switch` of `usbTransferComplete`.
unfoldable pub usb_complete : Status → Completion → CaptureStream → CaptureStream
unfolding signal_error submit_transfer
usb_complete completed c s =
    submit_transfer c.transfer c.resubmit
      (enqueue_chunk c.buffer (ltb (length c.buffer) chunk_bytes) s)
usb_complete cancelled c s = submit_transfer c.transfer c.resubmit s
usb_complete no_device c s = discard_transfer c.transfer (signal_error disconnected s)
usb_complete failed c s =
    let marked = mark_gap s in
    submit_transfer c.transfer c.resubmit
      (record marked { transfer_errors = (marked.transfer_errors + 1) % 2 ^ 64 })

-- `usbTransferComplete`
abbrev pub usb_transfer_complete : Completion → CaptureStream → CaptureStream
usb_transfer_complete c s = usb_complete c.status c s

-- The body of the loop of `queueAllFrameReads`.
abbrev pub add_read : (ℕ → ℕ × Submit) → ℕ → CaptureStream → CaptureStream
add_read alloc i s = add_transfer (alloc i).0 (alloc i).1 s

-- `queueAllFrameReads`: the loop adds TRANSFER_POOL_SIZE = 4 transfers; `alloc i` is the `i`-th
-- transfer that libusb allocates, and the result of its submission.
unfoldable pub queue_all_frame_reads : (ℕ → ℕ × Submit) → CaptureStream → CaptureStream
unfolding add_transfer
queue_all_frame_reads alloc s =
    if s.shutting_down
    then s
    else add_read alloc 3 (add_read alloc 2 (add_read alloc 1 (add_read alloc 0 s)))

-- `memcmp(transfer->buffer, frameStart, 4) == 0`, and at least four bytes.
unfoldable pub starts_frame : Bytes → Bool
starts_frame (a ∷ b ∷ c ∷ d ∷ rest) = a == 0x00 && b == 0xFF && c == 0xFF && d == 0xC0
starts_frame _ = false

-- What `probeTransferComplete` does with a transfer that shows no frame start: `recordProbeAttempt`
-- counts it, and gives up after MAX_PROBE_ATTEMPTS.
unfoldable pub retry_probe : Completion → CaptureStream → CaptureStream
unfolding signal_error submit_transfer
retry_probe c s =
    let counted = record s { probe_attempts = s.probe_attempts + 1 } in
    if not (leb counted.probe_attempts max_probe_attempts)
    then discard_transfer c.transfer (signal_error no_frame_start counted)
    else submit_transfer c.transfer c.resubmit counted

unfoldable pub probe_complete :
    Status → (ℕ → ℕ × Submit) → Completion → CaptureStream → CaptureStream
unfolding signal_error submit_transfer retry_probe queue_all_frame_reads starts_frame
probe_complete cancelled alloc c s = submit_transfer c.transfer c.resubmit s
probe_complete no_device alloc c s = discard_transfer c.transfer (signal_error disconnected s)
probe_complete completed alloc c s =
    if starts_frame c.buffer
    then queue_all_frame_reads alloc (discard_transfer c.transfer (enqueue_chunk c.buffer false s))
    else retry_probe c s
probe_complete failed alloc c s = retry_probe c s

-- `probeTransferComplete`
abbrev pub probe_transfer_complete : (ℕ → ℕ × Submit) → Completion → CaptureStream → CaptureStream
probe_transfer_complete alloc c s = probe_complete c.status alloc c s

-- `start`, with the probe transfer's address and the result of its submission.
unfoldable pub start : Bool → ℕ × Submit → (ℕ → ℕ × Submit) → CaptureStream → CaptureStream
unfolding add_transfer queue_all_frame_reads
start align_to_frame_start probe alloc s =
    if align_to_frame_start
    then add_transfer probe.0 probe.1 s
    else queue_all_frame_reads alloc (mark_gap s)

-- `stop` up to its wait, under the mutex, and what it does behind the wait. The cancellations
-- themselves are libusb's: each comes back as a completion.
unfoldable pub stop_begin : CaptureStream → CaptureStream
stop_begin s = record s { shutting_down = true }

unfoldable pub stop_end : CaptureStream → CaptureStream
stop_end s = record s { dump = none }
