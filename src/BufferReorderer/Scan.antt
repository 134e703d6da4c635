-- ===== src/BufferReorderer/Scan.antt =====
-- `BufferReorderer::scan` of src/liblgx/src/BufferReorderer.cpp: the loop over the bytes that have come
-- in. Each round moves `scan_offset` on, so `limit - scan_offset` rounds are enough fuel, which
-- `BufferReorderer.Scan.Ends` shows.
pub mod Ends
pub mod Kept
pub mod Marks
pub mod Found
use lgx2userspace.Prelude.{
  ℕ, zero, suc, ◌+◌, ◌-◌, Bool, true, false, not, ◌&&◌, Option, none, some, ltb, leb, ◌==◌,
  if◌then◌else◌, Bytes, get_or,
}
use lgx2userspace.FrameBuilder.{sav_header_valid, eav_header_valid}
use lgx2userspace.BufferReorderer.{
  Order, normal, swapped, BufferReorderer, observe, swap_window, marker_span,
}

-- `at(offset)[0]`, and where `at(offset)` points in the pipe.
abbrev pub at : ℕ → BufferReorderer → ℕ
at offset b = offset - b.pipe_start

abbrev pub pipe_at : ℕ → BufferReorderer → ℕ
pipe_at offset b = get_or b.pipe (at offset b) 0

-- The pending SAV's window has passed.
abbrev pub expired : ℕ → BufferReorderer → Bool
expired dma b = b.pending_sav && leb (b.pending_sav_offset + swap_window dma) b.scan_offset

-- A SAV with no late EAV inside the window is in normal order.
unfoldable pub expire : ℕ → BufferReorderer → BufferReorderer
expire dma b =
    if expired dma b
    then record (observe b.pending_sav_offset normal b) { pending_sav = false }
    else b

-- `stop`
abbrev pub stop_at : ℕ → ℕ → BufferReorderer → ℕ
stop_at dma limit b =
    if b.pending_sav && ltb (b.pending_sav_offset + swap_window dma) limit
    then b.pending_sav_offset + swap_window dma
    else limit

-- `memchr`: the offset of the first zero byte among `count` from `offset` on.
unfoldable pub find_zero : Bytes → ℕ → ℕ → Option ℕ
find_zero bytes i zero = none
find_zero bytes i (suc count) = elim (get_or bytes i 0 == 0) [
  | true ↦ some i
  | false ↦ find_zero bytes (suc i) count
]

abbrev pub moved_to : ℕ → BufferReorderer → BufferReorderer
moved_to p b = record b { scan_offset = p + 1 }

-- A valid SAV at `p`: it is pending now, and one that was pending is in normal order.
abbrev pub take_sav : ℕ → BufferReorderer → BufferReorderer
take_sav p b =
    let observed =
      if b.pending_sav then observe b.pending_sav_offset normal (moved_to p b) else moved_to p b in
    record observed {
      pending_sav = true;
      pending_sav_offset = p;
      pending_sav_b0 = pipe_at (p + 4) b;
    }

-- A valid EAV at `p`: it decides the pending SAV.
abbrev pub take_eav : ℕ → BufferReorderer → BufferReorderer
take_eav p b =
    let verdict = if pipe_at (p + 4) b == b.pending_sav_b0 then normal else swapped in
    record (observe b.pending_sav_offset verdict (moved_to p b)) { pending_sav = false }

-- What the loop does at a zero byte at `p`.
unfoldable pub inspect : ℕ → BufferReorderer → BufferReorderer
inspect p b =
    if not (pipe_at (p + 1) b == 0xFF && pipe_at (p + 2) b == 0xFF)
    then moved_to p b
    else if pipe_at (p + 3) b == 0xC0 && sav_header_valid b.pipe (at (p + 4) b)
    then take_sav p b
    else if pipe_at (p + 3) b == 0xC1 && (eav_header_valid b.pipe (at (p + 4) b) && b.pending_sav)
    then take_eav p b
    else moved_to p b

-- One round behind the deadline check, with what `memchr` found.
abbrev pub advance : ℕ → Option ℕ → BufferReorderer → BufferReorderer
advance stop none b = record b { scan_offset = stop }
advance stop (some i) b = inspect (b.pipe_start + i) b

-- One round.
unfoldable pub scan_round : ℕ → ℕ → BufferReorderer → BufferReorderer
scan_round dma limit b =
    let b' = expire dma b in
    let stop = stop_at dma limit b' in
    advance stop (find_zero b'.pipe (at b'.scan_offset b') (stop - b'.scan_offset)) b'

-- The loop.
unfoldable pub scan_loop : ℕ → ℕ → ℕ → BufferReorderer → BufferReorderer
scan_loop zero dma limit b = b
scan_loop (suc fuel) dma limit b = elim (ltb b.scan_offset limit) [
  | true ↦ scan_loop fuel dma limit (scan_round dma limit b)
  | false ↦ b
]

-- `scan`
unfoldable pub scan : ℕ → BufferReorderer → BufferReorderer
scan dma b =
    if ltb b.in_offset marker_span
    then b
    else (let limit = b.in_offset - marker_span + 1 in
        expire dma (scan_loop (limit - b.scan_offset) dma limit b))
