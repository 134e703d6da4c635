-- ===== src/BufferReorderer.antt =====
-- src/liblgx/src/BufferReorderer.h and BufferReorderer.cpp: what puts the device's DMA buffers back in
-- order before the stream is parsed.
-- DMA_BUFFER_BYTES is a parameter, so that tests can run on small buffers; 0x4000 is the value of the
-- header file. The sink is set, as `CapturePipeline` sets it; `sent` are its calls.
pub mod Scan
pub mod Emit
pub mod Sound
mod Tests
use lgx2userspace.Prelude.{
  ℕ, ◌+◌, ◌-◌, ◌*◌, ◌%◌, ◌^◌, Bool, true, false, not, ◌&&◌, ◌||◌, List, [], ◌∷◌, ◌++◌, ltb, leb,
  ◌==◌, if◌then◌else◌, Bytes, length, get_or, slice,
}

pub data Order : Type 0 where
  unknown normal swapped : Order

abbrev pub same_order : Order → Order → Bool
same_order unknown unknown = true
same_order normal normal = true
same_order swapped swapped = true
same_order _ _ = false

pub record Observation : Type 0 where
  pub sav_offset : ℕ
  pub order : Order

-- A call of the sink.
pub record Sent : Type 0 where
  pub bytes : Bytes
  pub gapped : Bool

-- The class `BufferReorderer`.
pub record BufferReorderer : Type 0 where
  pub pipe : Bytes
  pub pipe_start : ℕ
  pub out_offset : ℕ
  pub in_offset : ℕ
  pub scan_offset : ℕ
  pub pending_sav : Bool
  pub pending_sav_offset : ℕ
  pub pending_sav_b0 : ℕ
  pub observations : List Observation
  pub order : Order
  pub pair_origin : ℕ
  pub candidate_order : Order
  pub candidate_origin : ℕ
  pub candidate_count : ℕ
  pub order_changes : ℕ
  pub gap_pending : Bool
  pub out : Bytes
  pub sent : List Sent

abbrev pub initial : BufferReorderer
initial = record {
  pipe = [];
  pipe_start = 0;
  out_offset = 0;
  in_offset = 0;
  scan_offset = 0;
  pending_sav = false;
  pending_sav_offset = 0;
  pending_sav_b0 = 0;
  observations = [];
  order = unknown;
  pair_origin = 0;
  candidate_order = unknown;
  candidate_origin = 0;
  candidate_count = 0;
  order_changes = 0;
  gap_pending = true;
  out = [];
  sent = [];
}

-- DMA_BUFFER_BYTES
abbrev pub dma_buffer_bytes : ℕ
dma_buffer_bytes = 0x4000

-- PAIR_BYTES and SWAP_WINDOW, for buffers of `dma` bytes.
abbrev pub pair_bytes : ℕ → ℕ
pair_bytes dma = 2 * dma

abbrev pub swap_window : ℕ → ℕ
swap_window dma = pair_bytes dma

-- MARKER_SPAN
abbrev pub marker_span : ℕ
marker_span = 9

-- `reset`
unfoldable pub reset : BufferReorderer → BufferReorderer
reset b = record b {
  pipe = [];
  pipe_start = b.in_offset;
  out_offset = b.in_offset;
  scan_offset = b.in_offset;
  pending_sav = false;
  observations = [];
  order = unknown;
  candidate_count = 0;
  gap_pending = true;
}

-- `observe`
abbrev pub observe : ℕ → Order → BufferReorderer → BufferReorderer
observe offset order b = record b {
  observations = b.observations ++ (record { sav_offset = offset; order = order } ∷ []);
}

-- `flushOut`
unfoldable pub flush_out : BufferReorderer → BufferReorderer
flush_out b = if length b.out == 0 then b else record b {
  gap_pending = false;
  sent = b.sent ++ (record { bytes = b.out; gapped = b.gap_pending } ∷ []);
  out = [];
}

-- The difference of two offsets, in 64 bits.
unfoldable pub distance : ℕ → ℕ → ℕ
distance sav origin = (sav + 2 ^ 64 - origin) % 2 ^ 64

-- `agrees`
abbrev pub agrees : ℕ → Observation → Order → ℕ → Bool
agrees dma observation order pair_origin =
    same_order observation.order order
    && (not (same_order order swapped)
        || distance observation.sav_offset pair_origin % pair_bytes dma == 0)

-- The part of `applyObservation` that takes an order over.
abbrev pub change_order : Observation → BufferReorderer → BufferReorderer
change_order observation b =
    let flushed = flush_out b in
    record flushed {
      order = observation.order;
      pair_origin = observation.sav_offset;
      gap_pending = true;
      order_changes = (flushed.order_changes + 1) % 2 ^ 32;
    }

-- The candidate after an observation that disagrees with the order.
abbrev pub count_candidate : ℕ → Observation → BufferReorderer → BufferReorderer
count_candidate dma observation b =
    if ltb 0 b.candidate_count && agrees dma observation b.candidate_order b.candidate_origin
    then record b { candidate_count = b.candidate_count + 1 }
    else record b {
      candidate_order = observation.order;
      candidate_origin = observation.sav_offset;
      candidate_count = 1;
    }

-- `applyObservation`
unfoldable pub apply_observation : ℕ → Observation → BufferReorderer → BufferReorderer
apply_observation dma observation b =
    if same_order b.order unknown
    then change_order observation b
    else if agrees dma observation b.order b.pair_origin
    then record b { candidate_count = 0 }
    else (let counted = count_candidate dma observation b in
        if ltb counted.candidate_count 2
        then counted
        else change_order observation (record counted { candidate_count = 0 }))
