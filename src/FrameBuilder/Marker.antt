-- ===== src/FrameBuilder/Marker.antt =====
-- `FrameBuilder::processMarker` of src/liblgx/src/FrameBuilder.cpp, a function for each marker type.
use lgx2userspace.Prelude.{
  ℕ, ◌+◌, ◌-◌, ◌*◌, true, not, Option, none, some, ltb, ◌==◌, if◌then◌else◌, Bytes,
}
use lgx2userspace.FrameBuilder.{
  Sizes, idle, video_data, audio_data, FrameBuilder, byte_at, sav_header_valid, eav_header_valid,
  inc32, flush_video, is_video, check_frame_completion,
}

-- The position to resume from, or `none` for -1: the header runs past the end.
abbrev pub Outcome : Type 0
Outcome = Option ℕ × FrameBuilder

-- `case 0xC0`
unfoldable pub process_sav : Bytes → ℕ → ℕ → FrameBuilder → Outcome
process_sav buf n pos s =
    if ltb (n - pos) 8
    then (none, s)
    else if not (sav_header_valid buf (pos + 4))
    then (some (pos + 1), s)
    else (
      some (pos + 8),
      record s {
        sav_b0 = byte_at buf (pos + 4);
        state = video_data;
        video_pending_start = pos + 8;
        video_offset = 0;
      },
    )

-- `case 0xC1` from the check of its header on, after the flush.
unfoldable pub close_frame : Sizes → Bytes → ℕ → FrameBuilder → FrameBuilder
close_frame k buf pos s =
    if not (eav_header_valid buf (pos + 4))
    then record s { desync_count = inc32 s.desync_count; state = idle }
    else (let armed = record s { armed = true } in
        let paired =
          if not (byte_at buf (pos + 4) == s.sav_b0)
          then record armed { desync_count = inc32 s.desync_count }
          else armed in
        record (check_frame_completion k paired) { state = idle })

-- `case 0xC1`
unfoldable pub process_eav : Sizes → Bytes → ℕ → ℕ → FrameBuilder → Outcome
process_eav k buf n pos s =
    if not (is_video s.state)
    then (some (pos + 1), s)
    else if ltb (n - pos) 9
    then (none, s)
    else (some (pos + 9), close_frame k buf pos (flush_video k buf s.video_pending_start pos s))

-- The big-endian length behind an audio marker.
abbrev pub payload_length : Bytes → ℕ → ℕ
payload_length buf i =
    byte_at buf i * 0x1000000
    + byte_at buf (i + 1) * 0x10000
    + byte_at buf (i + 2) * 0x100
    + byte_at buf (i + 3)

-- `case 0x58`
unfoldable pub process_audio : Sizes → Bytes → ℕ → ℕ → FrameBuilder → Outcome
process_audio k buf n pos s =
    if ltb (n - pos) 8
    then (none, s)
    else if ltb k.audio_max (payload_length buf (pos + 4))
    then (some (pos + 1), s)
    else (let flushed =
          if is_video s.state then flush_video k buf s.video_pending_start pos s else s in
        (
          some (pos + 8),
          record flushed {
            audio_remaining = payload_length buf (pos + 4);
            audio_offset = 0;
            state = audio_data;
          },
        ))

-- `processMarker`
unfoldable pub process_marker : Sizes → Bytes → ℕ → ℕ → FrameBuilder → Outcome
process_marker k buf n pos s =
    let type = byte_at buf (pos + 3) in
    if type == 0xC0
    then process_sav buf n pos s
    else if type == 0xC1
    then process_eav k buf n pos s
    else if type == 0x58
    then process_audio k buf n pos s
    else (some (pos + 1), s)
