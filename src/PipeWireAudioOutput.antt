-- ===== src/PipeWireAudioOutput.antt =====
-- src/liblgx/liblgx-pipewire/src/pw/PipeWireAudioOutput.h and PipeWireAudioOutput.cpp: the audio between
-- the capture thread, which writes packets, and PipeWire's real-time thread, which plays them. The
-- ring of spa_ringbuffer is a parameter; `RingLaws` says what it holds. Setting the stream up and down
-- is PipeWire's.
pub mod Plays
mod Tests
use lgx2userspace.Prelude.{
  ℕ, zero, suc, ◌+◌, ◌-◌, ◌*◌, ◌/◌, ◌%◌, ◌^◌, ◌≤◌, ◌≡◌, min, Bool, true, false, not, ◌&&◌, ◌||◌,
  Option, none, some, List, [], ◌∷◌, ◌++◌, ltb, leb, ◌==◌, if◌then◌else◌, Bytes, length, take, drop,
  replicate,
}
use lgx2userspace.Prelude.Int.{ℤ, pos, negsuc}

-- RATE * STRIDE * … / 1000, STRIDE and RING_BYTES
abbrev pub stride : ℕ
stride = 4

abbrev pub ring_bytes : ℕ
ring_bytes = 65_536

abbrev pub target_bytes : ℕ
target_bytes = 7_680

abbrev pub max_bytes : ℕ
max_bytes = 23_040

-- `spa_ringbuffer` and its storage: `filled` is what `spa_ringbuffer_get_write_index` and
-- `spa_ringbuffer_get_read_index` return, `write` is `spa_ringbuffer_write_data` with the update of the
-- index, `peek` is `spa_ringbuffer_read_data` and `advance` is `spa_ringbuffer_read_update`.
pub record Ring (R : Type 0) : Type 0 where
  pub filled : R → ℤ
  pub write : Bytes → R → R
  pub peek : ℕ → R → Bytes
  pub advance : ℕ → R → R

-- A ring holds bytes first in, first out, as long as it is not overfilled.
pub record RingLaws {R : Type 0} (ring : Ring R) : Type 0 where
  pub contents : R → Bytes
  pub filled_is : (r : R) → ring.filled r ≡ pos (length (contents r))
  pub write_adds :
      (xs : Bytes) (r : R)
      → length (contents r) + length xs ≤ ring_bytes
      → contents (ring.write xs r) ≡ contents r ++ xs
  pub peek_reads : (n : ℕ) (r : R) → n ≤ length (contents r) → ring.peek n r ≡ take n (contents r)
  pub advance_drops :
      (n : ℕ) (r : R) → n ≤ length (contents r) → contents (ring.advance n r) ≡ drop n (contents r)

-- `PipeWireAudioOutput`
pub record AudioOutput (R : Type 0) : Type 0 where
  pub queue : R
  pub prebuffering : Bool
  pub underruns : ℕ
  pub trims : ℕ
  pub dropped_packets : ℕ

abbrev inc64 : ℕ → ℕ
inc64 n = (n + 1) % 2 ^ 64

-- `filled < 0 || filled + byteLength > RING_BYTES`
abbrev pub is_full : ℤ → ℕ → Bool
is_full (negsuc n) bytes = true
is_full (pos n) bytes = ltb ring_bytes (n + bytes)

-- `if (filled < 0) filled = 0`
abbrev pub at_least_zero : ℤ → ℕ
at_least_zero (negsuc n) = 0
at_least_zero (pos n) = n

-- The buffer that PipeWire asks to be filled: `data.maxsize`, `requested`, and whether it is mapped.
pub record Buffer : Type 0 where
  pub maxsize : ℕ
  pub requested : ℕ
  pub mapped : Bool

-- How many bytes are wanted; `requested` is a number of frames.
unfoldable pub wanted_of : Buffer → ℕ
wanted_of b =
    let whole = b.maxsize / stride * stride in
    if ltb 0 b.requested then min (b.requested * stride) whole else whole

-- How many bytes of a backlog that is too long are skipped.
unfoldable pub skip_of : ℕ → ℕ
skip_of filled = if ltb max_bytes filled then (filled - target_bytes) / stride * stride else 0

module _ {R : Type 0} (ring : Ring R) where
  -- `audioFrameAvailable`
  unfoldable pub audio_frame_available : Bytes → AudioOutput R → AudioOutput R
  audio_frame_available audio s =
      if is_full (ring.filled s.queue) (length audio)
      then record s { dropped_packets = inc64 s.dropped_packets }
      else record s { queue = ring.write audio s.queue }

  -- The skip of `onProcess`.
  unfoldable pub trim : ℕ → AudioOutput R → AudioOutput R
  trim filled s =
      if ltb max_bytes filled
      then record s { queue = ring.advance (skip_of filled) s.queue; trims = inc64 s.trims }
      else s

  -- How `onProcess` fills the buffer, with `filled` bytes left behind the skip.
  unfoldable pub fill : ℕ → ℕ → AudioOutput R → Bytes × AudioOutput R
  fill wanted filled s =
      let copied = min filled wanted / stride * stride in
      let played = record s { prebuffering = false; queue = ring.advance copied s.queue } in
      if not s.prebuffering || leb target_bytes filled
      then (
        ring.peek copied s.queue ++ replicate (wanted - copied) 0,
        if ltb copied wanted
            then record played { prebuffering = true; underruns = inc64 s.underruns }
            else played,
      )
      else (replicate wanted 0, s)

  -- `onProcess` with a buffer that is mapped: the bytes that are queued in it.
  unfoldable pub play : Buffer → AudioOutput R → Bytes × AudioOutput R
  play b s =
      let filled = at_least_zero (ring.filled s.queue) in
      fill (wanted_of b) (filled - skip_of filled) (trim filled s)

  -- `onProcess`: `none` where nothing is put into a buffer.
  unfoldable pub on_process : Option Buffer → AudioOutput R → Option Bytes × AudioOutput R
  on_process none s = (none, s)
  on_process (some b) s =
      let (bytes, s') = play b s in if b.mapped then (some bytes, s') else (none, s)
