-- ===== src/CaptureStream.antt =====
-- src/liblgx/liblgx-usb/src/usb/CaptureStream.h and CaptureStream.cpp: the bounded queue between the
-- USB event thread and the consumer, and the pool of transfers that fills it.
-- What happens under a mutex is one step here; `deliver` takes its mutex for each chunk, so that each
-- of its rounds is a step. libusb is not modelled: its answers to
-- `libusb_submit_transfer`, the transfers that `libusb_alloc_transfer` gives out and the contents of
-- completed transfers are arguments.
pub mod Window
pub mod Spec
mod Push
pub mod Refine
pub mod Gaps
pub mod Transfers
pub mod Pool
pub mod Probe
mod Tests
use lgx2userspace.Prelude.{
  ℕ, zero, suc, ◌+◌, ◌-◌, ◌%◌, Bool, true, false, not, ◌&&◌, ◌||◌, Option, none, some, List, [],
  ◌∷◌, ◌++◌, ◌^◌, ltb, leb, ◌==◌, if◌then◌else◌, Bytes, length, get_or, set, take, drop,
}

abbrev pub chunk_bytes : ℕ
chunk_bytes = 0x1FC000

abbrev pub ring_slots : ℕ
ring_slots = 8

abbrev pub max_probe_attempts : ℕ
max_probe_attempts = 8

abbrev pub dump_max_chunks : ℕ
dump_max_chunks = 128

-- `struct RingSlot`: `buffer` is the slot's region of the frame buffer.
pub record RingSlot : Type 0 where
  pub buffer : Bytes
  pub size : ℕ
  pub gapped : Bool

-- A chunk as the callback gets it: the bytes and the gap flag.
abbrev pub Chunk : Type 0
Chunk = Bytes × Bool

-- The messages of `signalError`.
pub data Failure : Type 0 where
  disconnected no_frame_start : Failure

-- `_transfers` holds the transfers in flight by their addresses. `dump` is the open dump file's
-- contents, one entry for each chunk, and `none` when there is no file.
pub record CaptureStream : Type 0 where
  pub ring : List RingSlot
  pub ring_write : ℕ
  pub ring_count : ℕ
  pub gap_pending : Bool
  pub shutting_down : Bool
  pub error : Option Failure
  pub dropped_chunks : ℕ
  pub transfer_errors : ℕ
  pub dump : Option (List Chunk)
  pub dump_count : ℕ
  pub transfers : List ℕ
  pub probe_attempts : ℕ

-- `dumpChunk`
unfoldable pub dump_chunk : Bytes → Bool → CaptureStream → CaptureStream
dump_chunk bytes gapped s = elim s.dump [
  | none ↦ s
  | some file ↦
      if leb dump_max_chunks s.dump_count
      then s
      else record s { dump = some (file ++ ((bytes, gapped) ∷ [])); dump_count = s.dump_count + 1 }
]

-- The bytes that are stored: `if (length > CHUNK_BYTES) length = CHUNK_BYTES`.
unfoldable pub clamp_chunk : Bytes → Bytes
clamp_chunk bytes = if ltb chunk_bytes (length bytes) then take chunk_bytes bytes else bytes

-- `memcpy` into the slot, and its two fields.
unfoldable pub fill_slot : RingSlot → Bytes → Bool → RingSlot
fill_slot slot bytes gapped = record {
  buffer = bytes ++ drop (length bytes) slot.buffer;
  size = length bytes;
  gapped = gapped;
}

abbrev pub empty_slot : RingSlot
empty_slot = record { buffer = []; size = 0; gapped = false }

-- The part of `enqueueChunk` under the queue mutex.
unfoldable pub push_chunk : Bytes → Bool → CaptureStream → CaptureStream
push_chunk bytes gapped s =
    let full = s.ring_count == ring_slots in
    let pending = if full then true else s.gap_pending in
    let slot = get_or s.ring s.ring_write empty_slot in
    record s {
      ring = set s.ring s.ring_write (fill_slot slot (clamp_chunk bytes) (pending || gapped));
      ring_write = (s.ring_write + 1) % ring_slots;
      ring_count = if ltb s.ring_count ring_slots then s.ring_count + 1 else s.ring_count;
      gap_pending = false;
      dropped_chunks = if full then (s.dropped_chunks + 1) % 2 ^ 64 else s.dropped_chunks;
    }

-- `enqueueChunk`
unfoldable pub enqueue_chunk : Bytes → Bool → CaptureStream → CaptureStream
unfolding dump_chunk push_chunk
enqueue_chunk bytes gapped s =
    if s.shutting_down || length bytes == 0
    then s
    else push_chunk bytes gapped (dump_chunk bytes gapped s)

-- `markGap`
unfoldable pub mark_gap : CaptureStream → CaptureStream
mark_gap s = record s { gap_pending = true }

-- `readIndex` of `deliver`
abbrev pub read_index : CaptureStream → ℕ
read_index s = (s.ring_write + ring_slots - s.ring_count) % ring_slots

abbrev pub chunk_of : RingSlot → Chunk
chunk_of slot = (take slot.size slot.buffer, slot.gapped)

-- One round of the loop of `deliver`: the chunk that goes to the callback, or `none` when it is done.
unfoldable pub deliver_one : CaptureStream → Option Chunk × CaptureStream
deliver_one s = if s.ring_count == 0 then (none, s) else (
  some (chunk_of (get_or s.ring (read_index s) empty_slot)),
  record s { ring_count = s.ring_count - 1 },
)

-- `deliver` with no chunk arriving meanwhile: rounds until the queue is empty.
unfoldable pub deliver_rounds : ℕ → CaptureStream → List Chunk × CaptureStream
unfolding deliver_one
deliver_rounds zero s = ([], s)
deliver_rounds (suc fuel) s =
    let (chunk, s') = deliver_one s in
    elim chunk [
      | none ↦ ([], s')
      | some c ↦ let (cs, s'') = deliver_rounds fuel s' in (c ∷ cs, s'')
    ]

-- The loop ends after `ring_count` chunks and the round that finds none.
unfoldable pub deliver : CaptureStream → List Chunk × CaptureStream
unfolding deliver_rounds
deliver s = deliver_rounds (s.ring_count + 1) s

-- `discard`
unfoldable pub discard : CaptureStream → CaptureStream
discard s = if s.ring_count == 0 then s else record s { ring_count = 0; gap_pending = true }
