-- ===== src/BufferReorderer/Emit.antt =====
-- `BufferReorderer::emit` and `feed` of src/liblgx/src/BufferReorderer.cpp.
-- A round of the loop takes an observation or moves `out_offset` on: their number and the bytes in
-- front of the limit are enough fuel, which `BufferReorderer.Emit.Ends` shows.
pub mod Ends
pub mod Exchanged
pub mod Arranged
use lgx2userspace.Prelude.{
  ℕ, zero, suc, ◌+◌, ◌-◌, ◌*◌, ◌%◌, ◌^◌, Bool, true, false, not, ◌&&◌, Option, none, some, List, [],
  ◌∷◌, ◌++◌, ltb, leb, ◌==◌, if◌then◌else◌, Bytes, length, drop, slice,
}
use lgx2userspace.BufferReorderer.{
  Order, unknown, normal, swapped, Observation, BufferReorderer, reset, flush_out,
  apply_observation, pair_bytes, swap_window, marker_span,
}
use lgx2userspace.BufferReorderer.Scan.{at, scan}

-- `nextSav`: UINT64_MAX when nothing is observed.
abbrev pub next_sav : List Observation → ℕ
next_sav [] = 2 ^ 64 - 1
next_sav (o ∷ os) = o.sav_offset

-- `_observations.pop_front()`, applied.
abbrev pub take_observation : ℕ → List Observation → BufferReorderer → BufferReorderer
take_observation dma [] b = b
take_observation dma (o ∷ os) b = apply_observation dma o (record b { observations = os })

-- The bytes from `out_offset` to `end` go out as they are.
abbrev pub copy_to : ℕ → BufferReorderer → BufferReorderer
copy_to end b = record b {
  out = b.out ++ slice b.pipe (at b.out_offset b) (at end b);
  out_offset = end;
}

-- The pair at `out_offset` goes out with its buffers exchanged.
abbrev pub copy_pair : ℕ → BufferReorderer → BufferReorderer
copy_pair dma b =
    let i = at b.out_offset b in
    record b {
      out = b.out ++ (slice b.pipe (i + dma) (i + pair_bytes dma) ++ slice b.pipe i (i + dma));
      out_offset = b.out_offset + pair_bytes dma;
    }

-- A SAV inside a pair: it is dropped, or the order changes and the output is anchored at it.
abbrev pub inside_pair : ℕ → List Observation → BufferReorderer → BufferReorderer
inside_pair dma [] b = b
inside_pair dma (o ∷ os) b =
    let b' = apply_observation dma o (record b { observations = os }) in
    if b'.order_changes == b.order_changes then b' else record b' { out_offset = o.sav_offset }

-- The `switch` on the order; `none` for the `return` of a pair that is not there yet.
abbrev pub emit_in : Order → ℕ → ℕ → BufferReorderer → Option BufferReorderer
emit_in unknown dma limit b =
    let next = next_sav b.observations in
    some (record b { out_offset = if ltb next limit then next else limit })
emit_in normal dma limit b =
    let next = next_sav b.observations in some (copy_to (if ltb next limit then next else limit) b)
emit_in swapped dma limit b =
    if ltb limit (b.out_offset + pair_bytes dma)
    then none
    else if ltb (next_sav b.observations) (b.out_offset + pair_bytes dma)
    then some (inside_pair dma b.observations b)
    else some (copy_pair dma b)

-- One round.
unfoldable pub emit_round : ℕ → ℕ → BufferReorderer → Option BufferReorderer
emit_round dma limit b =
    if next_sav b.observations == b.out_offset
    then some (take_observation dma b.observations b)
    else emit_in b.order dma limit b

unfoldable pub emit_loop : ℕ → ℕ → ℕ → BufferReorderer → BufferReorderer
emit_loop zero dma limit b = b
emit_loop (suc fuel) dma limit b = elim (ltb b.out_offset limit) [
  | true ↦ elim (emit_round dma limit b) [ none ↦ b | some b' ↦ emit_loop fuel dma limit b' ]
  | false ↦ b
]

-- `emit`
unfoldable pub emit : ℕ → ℕ → BufferReorderer → BufferReorderer
emit dma limit b = emit_loop (length b.observations + (limit - b.out_offset)) dma limit b

-- `holdBack`
abbrev pub hold_back : ℕ → ℕ
hold_back dma = swap_window dma + marker_span

-- The bytes that are out leave the pipe.
abbrev pub drop_sent : BufferReorderer → BufferReorderer
drop_sent b = record b {
  pipe = drop (b.out_offset - b.pipe_start) b.pipe;
  pipe_start = b.out_offset;
}

-- The last part of `feed`: what is far enough from the end goes out.
abbrev pub settle : ℕ → BufferReorderer → BufferReorderer
settle dma b =
    if ltb (hold_back dma) b.in_offset
    then drop_sent (emit dma (b.in_offset - hold_back dma) b)
    else b

-- `feed` behind its early returns.
unfoldable pub feed_chunk : ℕ → Bytes → BufferReorderer → BufferReorderer
feed_chunk dma chunk b =
    let arrived = record b {
      pipe = b.pipe ++ chunk;
      in_offset = (b.in_offset + length chunk) % 2 ^ 64;
    } in
    flush_out (settle dma (record (scan dma arrived) { out = [] }))

-- `feed`
unfoldable pub feed : ℕ → Bytes → Bool → BufferReorderer → BufferReorderer
feed dma chunk gapped b =
    let b' = if gapped then reset b else b in
    if length chunk == 0 then b' else feed_chunk dma chunk b'
