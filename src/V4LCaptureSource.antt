-- ===== src/V4LCaptureSource.antt =====
-- src/liblgx/liblgx-linux/src/v4l/V4LCaptureSource.h and V4LCaptureSource.cpp: the reader of a V4L2 device.
-- The answers of the system calls are arguments, and `calls` is what was done with the file, the
-- mappings and the stream, in order. The search for a device by its name is not modelled.
pub mod Held
pub mod Release
mod Tests
use lgx2userspace.Prelude.{
  ℕ, zero, suc, ◌+◌, ◌-◌, ◌≤◌, min, Bool, true, false, not, ◌&&◌, ◌||◌, Option, none, some, List,
  [], ◌∷◌, ◌++◌, ltb, leb, ◌==◌, if◌then◌else◌, length, set, take, Bytes,
}

-- BUFFER_COUNT and FRAME_BYTES
abbrev pub buffer_count : ℕ
buffer_count = 4

abbrev pub frame_bytes : ℕ
frame_bytes = 4_147_200

pub data Call : Type 0 where
  file_opened buffer_mapped stream_started stream_stopped buffer_unmapped file_closed : Call

-- `V4LCaptureSource`: `has_fd` is whether `_fd` is not -1, and `mapped` which of `_buffers` have a start.
pub record V4LCaptureSource : Type 0 where
  pub has_fd : Bool
  pub mapped : List Bool
  pub count : ℕ
  pub streaming : Bool
  pub calls : List Call

-- The answers for a buffer: VIDIOC_QUERYBUF, `mmap` and VIDIOC_QBUF.
pub record BufferAnswer : Type 0 where
  pub queried : Bool
  pub maps : Bool
  pub queued : Bool

-- The answers of the system: `open`, VIDIOC_G_FMT, whether the format is the one that is wanted,
-- VIDIOC_REQBUFS with the number of buffers it gives, those for each buffer, and VIDIOC_STREAMON.
pub record System : Type 0 where
  pub opens : Bool
  pub format_read : Bool
  pub format_fits : Bool
  pub requested : Bool
  pub given : ℕ
  pub buffers : ℕ → BufferAnswer
  pub starts : Bool

abbrev pub note : Call → V4LCaptureSource → V4LCaptureSource
note call s = record s { calls = s.calls ++ (call ∷ []) }

abbrev pub map_buffer : ℕ → V4LCaptureSource → V4LCaptureSource
map_buffer i s = record (note buffer_mapped s) { mapped = set s.mapped i true }

-- The loop of `startStreaming` with `left` buffers left, and what follows it: whether it returns, or
-- throws.
unfoldable pub start_buffers : ℕ → ℕ → System → V4LCaptureSource → Bool × V4LCaptureSource
start_buffers zero i sys s =
    if sys.starts then (true, record (note stream_started s) { streaming = true }) else (false, s)
start_buffers (suc left) i sys s =
    let rest = start_buffers left (i + 1) sys (map_buffer i s) in
    if not (sys.buffers i).queried || not (sys.buffers i).maps
    then (false, s)
    else if not (sys.buffers i).queued
    then (false, map_buffer i s)
    else rest

-- `startStreaming`
unfoldable pub start_streaming : System → V4LCaptureSource → Bool × V4LCaptureSource
start_streaming sys s =
    let count = min sys.given buffer_count in
    if not sys.requested || sys.given == 0
    then (false, s)
    else start_buffers count 0 sys (record s { count = count })

-- The loop of `release`: the buffers that are unmapped.
unfoldable pub unmap_calls : ℕ → List Bool → List Call
unmap_calls zero mapped = []
unmap_calls (suc n) [] = []
unmap_calls (suc n) (true ∷ mapped) = buffer_unmapped ∷ unmap_calls n mapped
unmap_calls (suc n) (false ∷ mapped) = unmap_calls n mapped

abbrev pub no_buffers : List Bool
no_buffers = false ∷ false ∷ false ∷ false ∷ []

-- `release`
unfoldable pub release : V4LCaptureSource → V4LCaptureSource
release s = if not s.has_fd then s else record {
  has_fd = false;
  mapped = no_buffers;
  count = 0;
  streaming = false;
  calls =
      s.calls
      ++ ((if s.streaming then stream_stopped ∷ [] else [])
          ++ (unmap_calls s.count s.mapped ++ (file_closed ∷ [])));
}

-- A source whose file was opened.
abbrev pub opened : V4LCaptureSource
opened = record {
  has_fd = true;
  mapped = no_buffers;
  count = 0;
  streaming = false;
  calls = file_opened ∷ [];
}

abbrev pub keep_or_release : Bool × V4LCaptureSource → Bool × V4LCaptureSource
keep_or_release (works, s) = if works then (true, s) else (false, release s)

-- The constructor: whether it returns, or throws, and the object or what was left of it.
unfoldable pub open_source : System → Bool × V4LCaptureSource
open_source sys =
    if not sys.opens
    then (false, record opened { has_fd = false; calls = [] })
    else if not sys.format_read || not sys.format_fits
    then (false, release opened)
    else keep_or_release (start_streaming sys opened)

-- What `poll` and VIDIOC_DQBUF answer: no frame in time, an error, or a buffer by its index with the
-- bytes in it.
pub data Dequeued : Type 0 where
  nothing_yet dequeue_failed : Dequeued
  dequeued : ℕ → ℕ → Dequeued

-- `readFrame`: the index of the buffer that the frame is copied from.
unfoldable pub read_frame : Dequeued → V4LCaptureSource → Option ℕ
read_frame nothing_yet s = none
read_frame dequeue_failed s = none
read_frame (dequeued index bytes_used) s =
    if ltb index s.count && leb frame_bytes bytes_used then some index else none
