-- ===== src/FrameBuilder/Safe.antt =====
-- Memory safety of the parser of src/liblgx/src/FrameBuilder.cpp: no `memcpy` leaves its buffer, and
-- every callback gets as many bytes as it may read.
pub mod Whole
use lgx2userspace.Prelude.{
  ℕ, zero, suc, ◌+◌, ◌-◌, ◌*◌, ◌≤◌, ◌<◌, min, ◌≡◌, refl, ap, ◌∙◌, Bool, true, false, not, ◌&&◌,
  ◌||◌, inl, inr, Option, none, some, List, [], ◌∷◌, ◌++◌, arith, ltb, leb, ◌==◌, if◌then◌else◌,
  Bytes, Bool-cases, All, length, get_or, set, take, drop, slice, length-append, length-take,
  length-drop, length-set, length-slice, All-append, All-set, All-get_or,
}
use lgx2userspace.FrameBuilder.{
  Sizes, State, idle, video_data, audio_data, Event, video, audio, FrameBuilder, write_at,
  current_buffer, store_video, flush_video, is_audio, is_video, take_audio, finish_audio,
  audio_count, consume_audio, check_frame_completion, reset_for_gap, max_carry, inc32, byte_at,
  eav_header_valid,
}
use lgx2userspace.FrameBuilder.Marker.{
  Outcome, process_sav, close_frame, process_eav, process_audio, process_marker, payload_length,
}
use lgx2userspace.FrameBuilder.Feed.{
  Scan, scan_step, marker_at, resume, scan, scanning, is_some, flush_if_video, kept_len,
  end_pending, end_scanned, end_feed, tail_carry, begin_video, start_scan, parse, feed, work_buffer,
}

module _ (k : Sizes) where
  abbrev pub GoodEvent : Event → Type 0
  GoodEvent (video bytes) = length bytes ≡ k.frame
  GoodEvent (audio bytes) = length bytes ≤ k.audio_max

  abbrev pub FullBuffer : Bytes → Type 0
  FullBuffer b = length b ≡ k.capacity

  pub record VideoSafe (buffers : List Bytes) (index offset : ℕ) : Type 0 where
    pub two : length buffers ≡ 2
    pub full : All FullBuffer buffers
    pub index_in : index < 2
    pub offset_in : offset ≤ k.capacity

  pub record AudioSafe (frame : Bytes) (offset remaining : ℕ) : Type 0 where
    pub stored : offset ≤ length frame
    pub fits : offset + remaining ≤ k.audio_max

  pub record CarrySafe (carry : Bytes) (len : ℕ) : Type 0 where
    pub carry_full : length carry ≡ max_carry
    pub carry_in : len ≤ max_carry

  -- Each part speaks of the fields it needs, so an update of others keeps it as it is.
  abbrev pub IsSafe : FrameBuilder → Type 0
  IsSafe s =
      VideoSafe s.video_buffers s.video_buffer_index s.video_offset
      × AudioSafe s.audio_frame s.audio_offset s.audio_remaining
      × CarrySafe s.carry s.carry_len
      × All GoodEvent s.events

-- A write inside a buffer keeps its length; one that begins inside it reaches at least its own end.
length-write_at :
    (offset : ℕ) (bytes buf : Bytes)
    → offset + length bytes ≤ length buf
    → length (write_at offset bytes buf) ≡ length buf
length-write_at offset bytes buf h = omega (
  arith,
  length-append (take offset buf) (bytes ++ drop (offset + length bytes) buf),
  length-append bytes (drop (offset + length bytes) buf),
  length-take offset buf,
  length-drop (offset + length bytes) buf,
)

le-length-write_at :
    (offset : ℕ) (bytes buf : Bytes)
    → offset ≤ length buf
    → offset + length bytes ≤ length (write_at offset bytes buf)
le-length-write_at offset bytes buf h = omega (
  arith,
  length-append (take offset buf) (bytes ++ drop (offset + length bytes) buf),
  length-append bytes (drop (offset + length bytes) buf),
  length-take offset buf,
)

slice-le : (buf : Bytes) (a b : ℕ) → length (slice buf a b) ≤ b - a
slice-le buf a b = omega (arith, length-take (b - a) (drop a buf))

module _ (k : Sizes) where
  full_current : (s : FrameBuilder) → IsSafe k s → length (current_buffer s) ≡ k.capacity
  full_current s v =
      All-get_or (FullBuffer k) s.video_buffers s.video_buffer_index [] v.0.full
        (omega (arith, v.0.two, v.0.index_in))

  store-IsSafe :
      (bytes : Bytes) (s : FrameBuilder)
      → IsSafe k s
      → s.video_offset + length bytes ≤ k.capacity
      → IsSafe k (store_video bytes s)
  store-IsSafe bytes s v fits = (
    record {
      two = length-set s.video_buffers s.video_buffer_index _ ∙ v.0.two;
      full = All-set (FullBuffer k) s.video_buffers s.video_buffer_index _ v.0.full (
          length-write_at s.video_offset bytes (current_buffer s) (omega (arith, full_current s v))
          ∙ full_current s v);
      index_in = v.0.index_in;
      offset_in = fits;
    },
    v.1,
    v.2,
    v.3,
  )

  -- The clamp of `flushVideo` keeps the copy inside the frame buffer.
  flush-IsSafe :
      (buf : Bytes) (start end : ℕ) (s : FrameBuilder)
      → IsSafe k s
      → IsSafe k (flush_video k buf start end s)
  unfolding flush_video
  flush-IsSafe buf start end s v = elim (Bool-cases (leb end start)) [
    | inl empty ↦ simp empty v
    | inr bytes ↦ simp bytes (elim (Bool-cases (ltb (k.capacity - s.video_offset) (end - start))) [
      | inl over ↦ simp over (
          store-IsSafe (slice buf start (start + (k.capacity - s.video_offset)))
            (record s { desync_count = inc32 s.desync_count }) v
            (omega
              (arith, v.0.offset_in, slice-le buf start (start + (k.capacity - s.video_offset)))))
      | inr fits ↦ simp fits (
          store-IsSafe (slice buf start end) s v
            (ground (arith, v.0.offset_in, slice-le buf start end)))
    ])
  ]

  flush_if-IsSafe :
      (buf : Bytes) (end : ℕ) (s : FrameBuilder)
      → IsSafe k s
      → IsSafe k (flush_if_video k buf end s)
  flush_if-IsSafe buf end s v = elim (Bool-cases (is_video s.state)) [
    | inl in_video ↦ simp in_video (flush-IsSafe buf s.video_pending_start end s v)
    | inr other ↦ simp other v
  ]

  -- The copy of `count` bytes of an audio payload.
  take-IsSafe :
      (buf : Bytes) (pos count : ℕ) (s : FrameBuilder)
      → IsSafe k s
      → count ≤ s.audio_remaining
      → pos + count ≤ length buf
      → IsSafe k (take_audio buf pos count s)
  take-IsSafe buf pos count s v few inside = elim (Bool-cases (ltb 0 count)) [
    | inr none_left ↦ simp none_left v
    | inl some_left ↦ simp some_left (
      v.0,
      record {
        stored = omega (
          arith,
          le-length-write_at s.audio_offset (slice buf pos (pos + count)) s.audio_frame v.1.stored,
          length-slice buf pos (pos + count) inside,
        );
        fits = omega (arith, v.1.fits);
      },
      v.2,
      v.3,
    )
  ]

  audio_count_fits :
      (n pos : ℕ) (s : FrameBuilder)
      → pos ≤ n
      → (audio_count n pos s ≤ s.audio_remaining) × (pos + audio_count n pos s ≤ n)
  audio_count_fits n pos s h = ground arith

  finish_audio-IsSafe : (s : FrameBuilder) → IsSafe k s → IsSafe k (finish_audio s)
  finish_audio-IsSafe s v = elim (Bool-cases (s.audio_remaining == 0)) [
    | inl done ↦ simp done (
      v.0,
      v.1,
      v.2,
      All-append (GoodEvent k) s.events (audio (take s.audio_offset s.audio_frame) ∷ []) v.3
          (omega (arith, v.1.fits, length-take s.audio_offset s.audio_frame), tt),
    )
    | inr more ↦ simp more v
  ]

  consume-IsSafe :
      (buf : Bytes) (n pos : ℕ) (s : FrameBuilder)
      → IsSafe k s
      → pos ≤ n
      → n ≤ length buf
      → IsSafe k (consume_audio buf n pos s).1
  unfolding consume_audio
  consume-IsSafe buf n pos s v hp hn = elim (Bool-cases (is_audio s.state)) [
    | inr other ↦ simp other v
    | inl in_audio ↦ simp in_audio (
        let (few, inside) = audio_count_fits n pos s hp in
        finish_audio-IsSafe (take_audio buf pos (audio_count n pos s) s)
          (take-IsSafe buf pos (audio_count n pos s) s v few (omega arith)))
  ]

  -- A frame that is passed on: the callback reads inside the frame buffer.
  check-IsSafe :
      (s : FrameBuilder) → k.frame ≤ k.capacity → IsSafe k s → IsSafe k (check_frame_completion k s)
  unfolding check_frame_completion
  check-IsSafe s fits v = elim (Bool-cases s.armed) [
    | inr waiting ↦ simp waiting v
    | inl armed ↦
        simp armed
          (elim (Bool-cases (
            ltb s.video_offset (k.frame - k.tolerance)
            || ltb (k.frame + k.tolerance) s.video_offset)) [
              | inl wrong ↦ simp wrong v
              | inr right ↦ simp right (
                record {
                  two = v.0.two;
                  full = v.0.full;
                  index_in = ground arith;
                  offset_in = omega arith;
                },
                v.1,
                v.2,
                All-append (GoodEvent k) s.events (video (take k.frame (current_buffer s)) ∷ []) v.3
                    (omega (arith, full_current s v, length-take k.frame (current_buffer s)), tt),
              )
            ])
  ]

  close-IsSafe :
      (buf : Bytes) (pos : ℕ) (s : FrameBuilder)
      → k.frame ≤ k.capacity
      → IsSafe k s
      → IsSafe k (close_frame k buf pos s)
  unfolding close_frame
  close-IsSafe buf pos s fits v = elim (Bool-cases (eav_header_valid buf (pos + 4))) [
    | inr bad ↦ simp bad v
    | inl good ↦ simp good (elim (Bool-cases (byte_at buf (pos + 4) == s.sav_b0)) [
      | inl same ↦ simp same (check-IsSafe (record s { armed = true }) fits v)
      | inr other ↦
          simp other
            (check-IsSafe (record s { armed = true; desync_count = inc32 s.desync_count }) fits v)
    ])
  ]
