-- ===== src/FrameBuilder.antt =====
-- src/liblgx/src/FrameBuilder.h and FrameBuilder.cpp: the state of the byte-level stream parser, its
-- header checks, and the functions below `processMarker`.
-- The sizes that the class fixes are a record here, so that every theorem holds for all of them and
-- tests can run on small frames; `hd` holds the values of the header file.
-- A buffer is the list of its bytes, `get_or buf i 0` reads it, and both callbacks are set.
pub mod Marker
pub mod Feed
pub mod Safe
pub mod Stale
pub mod Frames
mod Tests
use lgx2userspace.Prelude.{
  ℕ, ◌+◌, ◌-◌, ◌*◌, ◌%◌, ◌^◌, Bool, true, false, not, ◌||◌, List, [], ◌∷◌, ◌++◌, ltb, leb, ◌==◌,
  if◌then◌else◌, Bytes, length, get_or, set, take, drop, slice,
}

-- VIDEO_FRAME_BYTES, FRAME_SIZE_TOLERANCE, AUDIO_MAX_PACKET_BYTES and VIDEO_BUFFER_CAPACITY.
pub record Sizes : Type 0 where
  pub frame : ℕ
  pub tolerance : ℕ
  pub audio_max : ℕ
  pub capacity : ℕ

abbrev pub hd : Sizes
hd = record {
  frame = 1920 * 1080 * 2;
  tolerance = 0x4000;
  audio_max = 256 * 1024;
  capacity = 1920 * 1080 * 2 + 0x80000;
}

-- MAX_CARRY
abbrev pub max_carry : ℕ
max_carry = 16

pub data State : Type 0 where
  idle video_data audio_data : State

-- A call of the video or of the audio callback, with the bytes that it may read.
pub data Event : Type 0 where
  video : Bytes → Event
  audio : Bytes → Event

-- The class `FrameBuilder`. `work` is the buffer that `feed` assembles (what is behind its first `n`
-- bytes is stale and is not kept here: `FrameBuilder.Stale` shows that nothing reads it).
-- `carry` is all of `_carry`, of which `carry_len` bytes count. `events` are the callbacks made.
pub record FrameBuilder : Type 0 where
  pub state : State
  pub armed : Bool
  pub video_buffers : List Bytes
  pub video_buffer_index : ℕ
  pub video_offset : ℕ
  pub video_pending_start : ℕ
  pub audio_frame : Bytes
  pub audio_remaining : ℕ
  pub audio_offset : ℕ
  pub sav_b0 : ℕ
  pub carry : Bytes
  pub carry_len : ℕ
  pub desync_count : ℕ
  pub video_frames_emitted : ℕ
  pub audio_frames_emitted : ℕ
  pub events : List Event

-- The constructor. The two video buffers and `_carry` are not initialised: their contents are
-- whatever memory held.
abbrev pub fresh : Bytes → Bytes → Bytes → FrameBuilder
fresh buffer0 buffer1 memory = record {
  state = idle;
  armed = false;
  video_buffers = buffer0 ∷ buffer1 ∷ [];
  video_buffer_index = 0;
  video_offset = 0;
  video_pending_start = 0;
  audio_frame = [];
  audio_remaining = 0;
  audio_offset = 0;
  sav_b0 = 0;
  carry = memory;
  carry_len = 0;
  desync_count = 0;
  video_frames_emitted = 0;
  audio_frames_emitted = 0;
  events = [];
}

abbrev pub byte_at : Bytes → ℕ → ℕ
byte_at buf i = get_or buf i 0

-- `b[3] == (uint8_t)(b[0] + b[1] + b[2] - 0x40)`, for `b = buf + i`.
unfoldable pub sav_header_valid : Bytes → ℕ → Bool
sav_header_valid buf i =
    byte_at buf (i + 3)
    == (byte_at buf i + byte_at buf (i + 1) + byte_at buf (i + 2) + 256 - 0x40) % 256

-- `c[4] == (uint8_t)(c[0] + c[1] + c[2] + c[3] - 0x3F)`, for `c = buf + i`.
unfoldable pub eav_header_valid : Bytes → ℕ → Bool
eav_header_valid buf i =
    byte_at buf (i + 4)
    == (byte_at buf i
        + byte_at buf (i + 1)
        + byte_at buf (i + 2)
        + byte_at buf (i + 3)
        + 256
        - 0x3F)
      % 256

-- `memcpy(buf + offset, bytes, …)`, the buffer growing if it has to (`_audioFrame.resize`).
abbrev pub write_at : ℕ → Bytes → Bytes → Bytes
write_at offset bytes buf = take offset buf ++ (bytes ++ drop (offset + length bytes) buf)

-- `uint32_t` and `uint64_t` counters.
abbrev pub inc32 : ℕ → ℕ
inc32 n = (n + 1) % 2 ^ 32

abbrev pub inc64 : ℕ → ℕ
inc64 n = (n + 1) % 2 ^ 64

abbrev pub current_buffer : FrameBuilder → Bytes
current_buffer s = get_or s.video_buffers s.video_buffer_index []

-- `resetForGap`
unfoldable pub reset_for_gap : FrameBuilder → FrameBuilder
reset_for_gap s = record s {
  state = idle;
  armed = false;
  video_offset = 0;
  video_pending_start = 0;
  audio_remaining = 0;
  audio_offset = 0;
  carry_len = 0;
}

abbrev pub store_video : Bytes → FrameBuilder → FrameBuilder
store_video bytes s = record s {
  video_buffers =
      set s.video_buffers s.video_buffer_index (write_at s.video_offset bytes (current_buffer s));
  video_offset = s.video_offset + length bytes;
}

-- `flushVideo`: the bytes of the work buffer from `start` up to `end` go behind those of the frame.
unfoldable pub flush_video : Sizes → Bytes → ℕ → ℕ → FrameBuilder → FrameBuilder
flush_video k buf start end s =
    if leb end start
    then s
    else (let room = k.capacity - s.video_offset in
        if ltb room (end - start)
        then store_video (slice buf start (start + room))
            (record s { desync_count = inc32 s.desync_count })
        else store_video (slice buf start end) s)

abbrev pub is_audio : State → Bool
is_audio audio_data = true
is_audio _ = false

abbrev pub is_video : State → Bool
is_video video_data = true
is_video _ = false

-- The part of `consumeAudio` that copies `count` bytes of the payload.
abbrev pub take_audio : Bytes → ℕ → ℕ → FrameBuilder → FrameBuilder
take_audio buf pos count s =
    if ltb 0 count
    then record s {
      audio_frame = write_at s.audio_offset (slice buf pos (pos + count)) s.audio_frame;
      audio_offset = s.audio_offset + count;
      audio_remaining = s.audio_remaining - count;
    }
    else s

-- The part that ends a packet.
abbrev pub finish_audio : FrameBuilder → FrameBuilder
finish_audio s =
    if s.audio_remaining == 0
    then record s {
      state = idle;
      audio_frames_emitted = inc64 s.audio_frames_emitted;
      events = s.events ++ (audio (take s.audio_offset s.audio_frame) ∷ []);
    }
    else s

-- How many bytes `consumeAudio` takes.
abbrev pub audio_count : ℕ → ℕ → FrameBuilder → ℕ
audio_count n pos s = if ltb (n - pos) s.audio_remaining then n - pos else s.audio_remaining

-- `consumeAudio`: the position after it, and the parser.
unfoldable pub consume_audio : Bytes → ℕ → ℕ → FrameBuilder → ℕ × FrameBuilder
consume_audio buf n pos s =
    if not (is_audio s.state)
    then (pos, s)
    else (pos + audio_count n pos s, finish_audio (take_audio buf pos (audio_count n pos s) s))

-- `checkFrameCompletion`: the callback may read VIDEO_FRAME_BYTES of the buffer.
unfoldable pub check_frame_completion : Sizes → FrameBuilder → FrameBuilder
check_frame_completion k s =
    if not s.armed
    then s
    else if ltb s.video_offset (k.frame - k.tolerance) || ltb (k.frame + k.tolerance) s.video_offset
    then s
    else record s {
      video_frames_emitted = inc64 s.video_frames_emitted;
      events = s.events ++ (video (take k.frame (current_buffer s)) ∷ []);
      video_offset = 0;
      video_buffer_index = if s.video_buffer_index == 0 then 1 else 0;
    }
