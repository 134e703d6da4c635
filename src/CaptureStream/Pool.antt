-- ===== src/CaptureStream/Pool.antt =====
-- The transfer pool of src/liblgx/liblgx-usb/src/usb/CaptureStream.cpp: it stays full while the device
-- answers, keeps the first failure, and drains after `stop`.
use lgx2userspace.Prelude.{
  ℕ, suc, ◌+◌, ◌%◌, ◌^◌, ◌≡◌, ◌≢◌, refl, ap, ◌∙◌, Bool, true, false, ◌⊎◌, inl, inr, ltb, some, List,
  [], ◌∷◌, arith, Bytes, length, Bool-cases,
}
use lgx2userspace.CaptureStream.{
  Failure, disconnected, CaptureStream, enqueue_chunk, mark_gap, chunk_bytes,
}
use lgx2userspace.CaptureStream.Window.{contents}
use lgx2userspace.CaptureStream.Transfers.{
  Status, completed, cancelled, no_device, failed, Submit, success, device_gone, error, Completion,
  signal_error, erase, remove_transfer, submit_transfer, usb_complete, usb_transfer_complete,
  add_transfer, add_read, queue_all_frame_reads, probe_complete, probe_transfer_complete,
  retry_probe, starts_frame,
}

-- What the callbacks leave alone when they store a chunk.
enqueue_frame :
    (bytes : Bytes) (gapped : Bool) (s : CaptureStream)
    → ((enqueue_chunk bytes gapped s).transfers ≡ s.transfers)
      × ((enqueue_chunk bytes gapped s).error ≡ s.error)
      × ((enqueue_chunk bytes gapped s).shutting_down ≡ s.shutting_down)
      × ((enqueue_chunk bytes gapped s).transfer_errors ≡ s.transfer_errors)
unfolding enqueue_chunk
enqueue_frame bytes gapped s = ground arith

enqueue_stopped :
    (bytes : Bytes) (gapped : Bool) (s : CaptureStream)
    → s.shutting_down ≡ true
    → enqueue_chunk bytes gapped s ≡ s
unfolding enqueue_chunk
enqueue_stopped bytes gapped s e = rw e

-- The transfer is in flight.
abbrev pub InFlight : ℕ → List ℕ → Type 0
InFlight t [] = ⊥
InFlight t (u ∷ us) = (u ≡ t) ⊎ InFlight t us

length-erase : (t : ℕ) (us : List ℕ) → InFlight t us → suc (length (erase t us)) ≡ length us
unfolding erase
length-erase t [] h = elim h [ ]
length-erase t (u ∷ us) h = ground (arith, length-erase t us)

usb_complete_keeps :
    (st : Status) (c : Completion) (s : CaptureStream)
    → s.shutting_down ≡ false
    → st ≢ no_device
    → c.resubmit ≡ success
    → ((usb_complete st c s).transfers ≡ s.transfers)
      × ((usb_complete st c s).error ≡ s.error)
      × ((usb_complete st c s).shutting_down ≡ false)
      × (st ≡ failed
          → ((usb_complete st c s).gap_pending ≡ true)
            × ((usb_complete st c s).transfer_errors ≡ (s.transfer_errors + 1) % 2 ^ 64))
unfolding usb_complete mark_gap
usb_complete_keeps completed c s up present ok =
    ground (arith, enqueue_frame c.buffer (ltb (length c.buffer) chunk_bytes) s)
usb_complete_keeps cancelled c s up present ok = ground arith
usb_complete_keeps no_device c s up present ok = absurd (present refl)
usb_complete_keeps failed c s up present ok = ground arith

-- While the stream runs, a completion that is no disconnect and is resubmitted keeps its transfer
-- in flight and reports no failure.
pub completion_keeps_pool :
    (c : Completion) (s : CaptureStream)
    → s.shutting_down ≡ false
    → c.status ≢ no_device
    → c.resubmit ≡ success
    → ((usb_transfer_complete c s).transfers ≡ s.transfers)
      × ((usb_transfer_complete c s).error ≡ s.error)
      × ((usb_transfer_complete c s).shutting_down ≡ false)
completion_keeps_pool c s up present ok =
    let (transfers, failure, running, _) = usb_complete_keeps c.status c s up present ok in
    (transfers, failure, running)

-- Each part of a callback keeps a failure that is there.
signal_error_sticks :
    (f g : Failure) (s : CaptureStream) → s.error ≡ some f → (signal_error g s).error ≡ some f
unfolding signal_error
signal_error_sticks f g s e = ground arith

submit_sticks :
    (f : Failure) (t : ℕ) (res : Submit) (s : CaptureStream)
    → s.error ≡ some f
    → (submit_transfer t res s).error ≡ some f
unfolding submit_transfer
submit_sticks f t res s e = ground arith

add_sticks :
    (f : Failure) (t : ℕ) (res : Submit) (s : CaptureStream)
    → s.error ≡ some f
    → (add_transfer t res s).error ≡ some f
unfolding add_transfer
add_sticks f t success s e = e
add_sticks f t device_gone s e = ground arith
add_sticks f t error s e = e

enqueue_sticks :
    (f : Failure) (bytes : Bytes) (gapped : Bool) (s : CaptureStream)
    → s.error ≡ some f
    → (enqueue_chunk bytes gapped s).error ≡ some f
enqueue_sticks f bytes gapped s e = (enqueue_frame bytes gapped s).1 ∙ e

read_sticks :
    (f : Failure) (alloc : ℕ → ℕ × Submit) (i : ℕ) (s : CaptureStream)
    → s.error ≡ some f
    → (add_read alloc i s).error ≡ some f
read_sticks f alloc i s = add_sticks f (alloc i).0 (alloc i).1 s

four_stick :
    (f : Failure) (alloc : ℕ → ℕ × Submit) (s : CaptureStream)
    → s.error ≡ some f
    → (add_read alloc 3 (add_read alloc 2 (add_read alloc 1 (add_read alloc 0 s)))).error ≡ some f
four_stick f alloc s e =
    let s0 : CaptureStream = add_read alloc 0 s in
    let s1 : CaptureStream = add_read alloc 1 s0 in
    let s2 : CaptureStream = add_read alloc 2 s1 in
    read_sticks f alloc 3 s2
      (read_sticks f alloc 2 s1 (read_sticks f alloc 1 s0 (read_sticks f alloc 0 s e)))

reads_stick :
    (f : Failure) (alloc : ℕ → ℕ × Submit) (s : CaptureStream)
    → s.error ≡ some f
    → (queue_all_frame_reads alloc s).error ≡ some f
unfolding queue_all_frame_reads
reads_stick f alloc s e = elim (Bool-cases s.shutting_down) [
  | inl down ↦ simp down e
  | inr up ↦ simp up (four_stick f alloc s e)
]

usb_sticks :
    (st : Status) (f : Failure) (c : Completion) (s : CaptureStream)
    → s.error ≡ some f
    → (usb_complete st c s).error ≡ some f
unfolding usb_complete mark_gap
usb_sticks completed f c s e =
    submit_sticks f c.transfer c.resubmit
      (enqueue_chunk c.buffer (ltb (length c.buffer) chunk_bytes) s)
      (enqueue_sticks f c.buffer (ltb (length c.buffer) chunk_bytes) s e)
usb_sticks cancelled f c s e = submit_sticks f c.transfer c.resubmit s e
usb_sticks no_device f c s e = signal_error_sticks f disconnected s e
usb_sticks failed f c s e =
    submit_sticks f c.transfer c.resubmit
      (record s { gap_pending = true; transfer_errors = (s.transfer_errors + 1) % 2 ^ 64 }) e

retry_sticks :
    (f : Failure) (c : Completion) (s : CaptureStream)
    → s.error ≡ some f
    → (retry_probe c s).error ≡ some f
unfolding retry_probe
retry_sticks f c s e = ground arith

probe_sticks :
    (st : Status) (f : Failure) (alloc : ℕ → ℕ × Submit) (c : Completion) (s : CaptureStream)
    → s.error ≡ some f
    → (probe_complete st alloc c s).error ≡ some f
unfolding probe_complete
probe_sticks completed f alloc c s e = elim (Bool-cases (starts_frame c.buffer)) [
  | inl start ↦ rw start (
      reads_stick f alloc (remove_transfer c.transfer (enqueue_chunk c.buffer false s))
        (enqueue_sticks f c.buffer false s e))
  | inr other ↦ rw other (retry_sticks f c s e)
]
probe_sticks cancelled f alloc c s e = submit_sticks f c.transfer c.resubmit s e
probe_sticks no_device f alloc c s e = signal_error_sticks f disconnected s e
probe_sticks failed f alloc c s e = retry_sticks f c s e

-- A failure, once reported, stays the one that is reported, whatever completes after it.
pub failure_sticks :
    (f : Failure) (alloc : ℕ → ℕ × Submit) (c : Completion) (s : CaptureStream)
    → s.error ≡ some f
    → ((usb_transfer_complete c s).error ≡ some f)
      × ((probe_transfer_complete alloc c s).error ≡ some f)
failure_sticks f alloc c s e = (usb_sticks c.status f c s e, probe_sticks c.status f alloc c s e)

-- After `stop` has begun, a completion removes its transfer, whatever its status and whatever
-- libusb would answer, and the queue stays as it is.
usb_stopped :
    (st : Status) (c : Completion) (s : CaptureStream)
    → s.shutting_down ≡ true
    → ((usb_complete st c s).transfers ≡ erase c.transfer s.transfers)
      × ((usb_complete st c s).shutting_down ≡ true)
      × (contents (usb_complete st c s) ≡ contents s)
unfolding usb_complete mark_gap
usb_stopped completed c s e =
    rw (enqueue_stopped c.buffer (ltb (length c.buffer) chunk_bytes) s e) (ground arith)
usb_stopped cancelled c s e = ground arith
usb_stopped no_device c s e = ground arith
usb_stopped failed c s e = ground arith

probe_stopped :
    (st : Status) (alloc : ℕ → ℕ × Submit) (c : Completion) (s : CaptureStream)
    → s.shutting_down ≡ true
    → ((probe_complete st alloc c s).transfers ≡ erase c.transfer s.transfers)
      × ((probe_complete st alloc c s).shutting_down ≡ true)
      × (contents (probe_complete st alloc c s) ≡ contents s)
unfolding probe_complete
probe_stopped completed alloc c s e = rw (enqueue_stopped c.buffer false s e) (ground arith)
probe_stopped cancelled alloc c s e = ground arith
probe_stopped no_device alloc c s e = ground arith
probe_stopped failed alloc c s e = ground arith

-- Completions on the event thread, each of a transfer in flight, which is how libusb makes them:
-- the reads', or the probe's.
pub data Drains : CaptureStream → ℕ → CaptureStream → Type 0 where
  settled : (s : CaptureStream) → Drains s 0 s
  read :
      {s u : CaptureStream} {n : ℕ} (c : Completion)
      → InFlight c.transfer s.transfers
      → Drains (usb_transfer_complete c s) n u
      → Drains s (suc n) u
  probe :
      {s u : CaptureStream} {n : ℕ} (alloc : ℕ → ℕ × Submit) (c : Completion)
      → InFlight c.transfer s.transfers
      → Drains (probe_transfer_complete alloc c s) n u
      → Drains s (suc n) u

-- After `stop` has begun nothing is submitted again: each completion takes one transfer out of the
-- pool, so as many completions as there are transfers in flight empty it, and the chunks in the
-- queue stay as they are.
pub stop-Drains :
    {s u : CaptureStream} {n : ℕ}
    → s.shutting_down ≡ true
    → Drains s n u
    → (length u.transfers + n ≡ length s.transfers) × (contents u ≡ contents s)
stop-Drains e (settled s) = (omega arith, refl)
stop-Drains e (read {s} c flying rest) =
    let (removed, still, kept) = usb_stopped c.status c s e in
    let (count, held) = stop-Drains still rest in
    (
      omega (arith, ap length removed, length-erase c.transfer s.transfers flying, count),
      held ∙ kept,
    )
stop-Drains e (probe {s} alloc c flying rest) =
    let (removed, still, kept) = probe_stopped c.status alloc c s e in
    let (count, held) = stop-Drains still rest in
    (
      omega (arith, ap length removed, length-erase c.transfer s.transfers flying, count),
      held ∙ kept,
    )
