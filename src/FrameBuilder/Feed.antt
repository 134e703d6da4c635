-- ===== src/FrameBuilder/Feed.antt =====
-- The scan loop and `FrameBuilder::feed` of src/liblgx/src/FrameBuilder.cpp.
-- Each round of the loop moves `pos` on, and it ends at `n`: `n + 1` rounds are enough fuel, which
-- `FrameBuilder.Feed.Ends.scan_ends` shows.
pub mod Ends
pub mod Carry
pub mod Tail
use lgx2userspace.Prelude.{
  ℕ, zero, suc, ◌+◌, ◌-◌, Bool, true, false, not, ◌&&◌, Option, none, some, ◌++◌, ltb, leb, ◌==◌,
  if◌then◌else◌, Bytes, length, take, slice,
}
use lgx2userspace.FrameBuilder.{
  Sizes, FrameBuilder, byte_at, write_at, max_carry, reset_for_gap, flush_video, is_audio, is_video,
  consume_audio,
}
use lgx2userspace.FrameBuilder.Marker.{Outcome, process_marker}

-- The loop's variables: the parser, `pos`, and `markerPos` when `headerPending` is set.
pub record Scan : Type 0 where
  pub builder : FrameBuilder
  pub pos : ℕ
  pub pending : Option ℕ

-- `00 FF FF` at `pos`.
abbrev pub marker_at : Bytes → ℕ → Bool
marker_at buf pos =
    byte_at buf pos == 0x00 && byte_at buf (pos + 1) == 0xFF && byte_at buf (pos + 2) == 0xFF

-- The condition of the `while`.
abbrev pub scanning : ℕ → Scan → Bool
scanning n z = not (is_audio z.builder.state) && leb (z.pos + 4) n

-- What the loop does with the outcome of `processMarker` at `pos`.
abbrev pub resume : Bytes → ℕ → ℕ → Outcome → Scan
resume buf n pos (none, s) = record { builder = s; pos = pos; pending = some pos }
resume buf n pos (some next, s) =
    let (pos', s') = consume_audio buf n next s in
    record { builder = s'; pos = pos'; pending = none }

-- One round of the loop.
unfoldable pub scan_step : Sizes → Bytes → ℕ → Scan → Scan
scan_step k buf n z =
    if not (marker_at buf z.pos)
    then record z { pos = z.pos + 1 }
    else resume buf n z.pos (process_marker k buf n z.pos z.builder)

abbrev pub is_some : Option ℕ → Bool
is_some none = false
is_some (some _) = true

-- The loop: it stops when its condition fails, or at the `break` on a pending header.
unfoldable pub scan : ℕ → Sizes → Bytes → ℕ → Scan → Scan
scan zero k buf n z = z
scan (suc fuel) k buf n z = elim (scanning n z && not (is_some z.pending)) [
  | true ↦ scan fuel k buf n (scan_step k buf n z)
  | false ↦ z
]

-- How many bytes at the end of the buffer could begin a marker.
unfoldable pub tail_carry : Bytes → ℕ → ℕ
tail_carry buf n =
    if leb 1 n && byte_at buf (n - 1) == 0x00
    then 1
    else if leb 2 n && (byte_at buf (n - 2) == 0x00 && byte_at buf (n - 1) == 0xFF)
    then 2
    else if leb 3 n
        && (byte_at buf (n - 3) == 0x00
            && byte_at buf (n - 2) == 0xFF
            && byte_at buf (n - 1) == 0xFF)
    then 3
    else 0

abbrev pub flush_if_video : Sizes → Bytes → ℕ → FrameBuilder → FrameBuilder
flush_if_video k buf end s =
    if is_video s.state then flush_video k buf s.video_pending_start end s else s

-- How much of a pending header is kept.
abbrev pub kept_len : ℕ → ℕ → ℕ
kept_len n marker_pos = if ltb max_carry (n - marker_pos) then max_carry else n - marker_pos

-- Behind the loop, at a pending header: the video before it is flushed, and the marker with the
-- part of its header goes into `_carry`.
unfoldable pub end_pending : Sizes → Bytes → ℕ → ℕ → FrameBuilder → FrameBuilder
end_pending k buf n marker_pos s =
    let flushed = flush_if_video k buf marker_pos s in
    record flushed {
      carry = write_at 0 (slice buf marker_pos (marker_pos + kept_len n marker_pos)) flushed.carry;
      carry_len = kept_len n marker_pos;
    }

-- Otherwise, of a tail that could begin a marker only the length is noted: nothing is copied into
-- `_carry`.
unfoldable pub end_scanned : Sizes → Bytes → ℕ → FrameBuilder → FrameBuilder
end_scanned k buf n s =
    if not (is_audio s.state)
    then flush_if_video k buf (n - tail_carry buf n) (record s { carry_len = tail_carry buf n })
    else s

-- The part of `feed` behind the loop.
unfoldable pub end_feed : Sizes → Bytes → ℕ → Option ℕ → FrameBuilder → FrameBuilder
end_feed k buf n (some marker_pos) s = end_pending k buf n marker_pos (record s { carry_len = 0 })
end_feed k buf n none s = end_scanned k buf n (record s { carry_len = 0 })

-- The effective buffer: the carried bytes, then the chunk. (The lengths fit `uint32_t`.)
abbrev pub work_buffer : FrameBuilder → Bytes → Bytes
work_buffer s chunk = take s.carry_len s.carry ++ chunk

-- `feed` from the assembled buffer on.
abbrev pub begin_video : FrameBuilder → FrameBuilder
begin_video s = if is_video s.state then record s { video_pending_start = 0 } else s

abbrev pub start_scan : ℕ × FrameBuilder → Scan
start_scan (pos, s) = record { builder = s; pos = pos; pending = none }

unfoldable pub parse : Sizes → Bytes → ℕ → FrameBuilder → FrameBuilder
parse k buf n s =
    let z = scan (n + 1) k buf n (start_scan (consume_audio buf n 0 (begin_video s))) in
    end_feed k buf n z.pending z.builder

unfoldable pub feed : Sizes → Bytes → Bool → FrameBuilder → FrameBuilder
feed k chunk gapped s =
    let s' = if gapped then reset_for_gap s else s in
    if length chunk == 0
    then s'
    else parse k (work_buffer s' chunk) (length (work_buffer s' chunk)) s'
