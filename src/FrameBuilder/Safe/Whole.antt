-- ===== src/FrameBuilder/Safe/Whole.antt =====
-- Memory safety of `processMarker`, the scan loop and `feed` (src/liblgx/src/FrameBuilder.cpp).
use lgx2userspace.Prelude.{
  ℕ, zero, suc, ◌+◌, ◌-◌, ◌≤◌, ◌∙◌, Bool, inl, inr, Option, none, some, arith, ltb, ◌==◌,
  if◌then◌else◌, Bytes, Bool-cases, length, slice,
}
use lgx2userspace.FrameBuilder.{
  Sizes, FrameBuilder, flush_video, is_audio, is_video, consume_audio, reset_for_gap, max_carry,
  byte_at, sav_header_valid,
}
use lgx2userspace.FrameBuilder.Marker.{
  Outcome, process_sav, process_eav, process_audio, process_marker, payload_length,
}
use lgx2userspace.FrameBuilder.Feed.{
  Scan, scan_step, marker_at, resume, scan, flush_if_video, kept_len, end_pending, end_scanned,
  end_feed, tail_carry, begin_video, start_scan, parse, feed, work_buffer,
}
use lgx2userspace.FrameBuilder.Feed.Ends.{
  Advances, process_marker-Advances, running, running_room, scan_more, scan_stop,
}
use lgx2userspace.FrameBuilder.Safe.{
  IsSafe, length-write_at, slice-le, flush-IsSafe, flush_if-IsSafe, consume-IsSafe, close-IsSafe,
}

tail_small : (b : Bytes) (m : ℕ) → tail_carry b m ≤ max_carry
unfolding tail_carry
tail_small b m = ground arith

module _ (k : Sizes) (fits : k.frame ≤ k.capacity) where
  sav-IsSafe :
      (buf : Bytes) (n pos : ℕ) (s : FrameBuilder)
      → IsSafe k s
      → IsSafe k (process_sav buf n pos s).1
  unfolding process_sav
  sav-IsSafe buf n pos s v = elim (Bool-cases (ltb (n - pos) 8)) [
    | inl short ↦ simp short v
    | inr whole ↦ simp whole (elim (Bool-cases (sav_header_valid buf (pos + 4))) [
      | inr bad ↦ simp bad v
      | inl good ↦ simp good (
        record { two = v.0.two; full = v.0.full; index_in = v.0.index_in; offset_in = omega arith },
        v.1,
        v.2,
        v.3,
      )
    ])
  ]

  eav-IsSafe :
      (buf : Bytes) (n pos : ℕ) (s : FrameBuilder)
      → IsSafe k s
      → IsSafe k (process_eav k buf n pos s).1
  unfolding process_eav
  eav-IsSafe buf n pos s v = elim (Bool-cases (is_video s.state)) [
    | inr stray ↦ simp stray v
    | inl in_video ↦ simp in_video (elim (Bool-cases (ltb (n - pos) 9)) [
      | inl short ↦ simp short v
      | inr whole ↦ simp whole (
          close-IsSafe k buf pos (flush_video k buf s.video_pending_start pos s) fits
            (flush-IsSafe k buf s.video_pending_start pos s v))
    ])
  ]

  audio-IsSafe :
      (buf : Bytes) (n pos : ℕ) (s : FrameBuilder)
      → IsSafe k s
      → IsSafe k (process_audio k buf n pos s).1
  unfolding process_audio
  audio-IsSafe buf n pos s v = elim (Bool-cases (ltb (n - pos) 8)) [
    | inl short ↦ simp short v
    | inr whole ↦ simp whole (elim (Bool-cases (ltb k.audio_max (payload_length buf (pos + 4)))) [
      | inl implausible ↦ simp implausible v
      | inr plausible ↦ simp plausible (
          let v' = flush_if-IsSafe k buf pos s v in
          (v'.0, record { stored = omega arith; fits = ground arith }, v'.2, v'.3))
    ])
  ]

  marker-IsSafe :
      (buf : Bytes) (n pos : ℕ) (s : FrameBuilder)
      → IsSafe k s
      → IsSafe k (process_marker k buf n pos s).1
  unfolding process_marker
  marker-IsSafe buf n pos s v = elim (Bool-cases (byte_at buf (pos + 3) == 0xC0)) [
    | inl sav ↦ simp sav (sav-IsSafe buf n pos s v)
    | inr not_sav ↦ simp not_sav (elim (Bool-cases (byte_at buf (pos + 3) == 0xC1)) [
      | inl eav ↦ simp eav (eav-IsSafe buf n pos s v)
      | inr not_eav ↦ simp not_eav (elim (Bool-cases (byte_at buf (pos + 3) == 0x58)) [
        | inl packet ↦ simp packet (audio-IsSafe buf n pos s v)
        | inr other ↦ simp other v
      ])
    ])
  ]

  resume-IsSafe :
      (buf : Bytes) (n pos : ℕ) (o : Outcome)
      → n ≤ length buf
      → Advances n pos o
      → IsSafe k o.1
      → IsSafe k (resume buf n pos o).builder
  resume-IsSafe buf n pos (none, s) hn a v = v
  resume-IsSafe buf n pos (some next, s) hn a v = consume-IsSafe k buf n next s v a.1 hn

  step-IsSafe :
      (buf : Bytes) (n : ℕ) (z : Scan)
      → n ≤ length buf
      → z.pos + 4 ≤ n
      → IsSafe k z.builder
      → IsSafe k (scan_step k buf n z).builder
  unfolding scan_step
  step-IsSafe buf n z hn room v = elim (Bool-cases (marker_at buf z.pos)) [
    | inl marker ↦ simp marker (
        resume-IsSafe buf n z.pos (process_marker k buf n z.pos z.builder) hn
          (process_marker-Advances k buf n z.pos z.builder room)
          (marker-IsSafe buf n z.pos z.builder v))
    | inr other ↦ simp other v
  ]

  scan-IsSafe :
      (fuel : ℕ) (buf : Bytes) (n : ℕ) (z : Scan)
      → n ≤ length buf
      → IsSafe k z.builder
      → IsSafe k (scan fuel k buf n z).builder
  scan-IsSafe zero buf n z hn v = unfold scan in v
  scan-IsSafe (suc fuel) buf n z hn v = elim (Bool-cases (running n z)) [
    | inl more ↦ rw (scan_more fuel k buf n z more) (
        scan-IsSafe fuel buf n (scan_step k buf n z) hn
          (step-IsSafe buf n z hn (running_room n z more) v))
    | inr stop ↦ rw (scan_stop fuel k buf n z stop) v
  ]

  pending-IsSafe :
      (buf : Bytes) (n marker_pos : ℕ) (s : FrameBuilder)
      → IsSafe k s
      → IsSafe k (end_pending k buf n marker_pos s)
  unfolding end_pending
  pending-IsSafe buf n marker_pos s v =
      let v' = flush_if-IsSafe k buf marker_pos s v in
      (
        v'.0,
        v'.1,
        record {
          carry_full =
              length-write_at 0 (slice buf marker_pos (marker_pos + kept_len n marker_pos))
                (flush_if_video k buf marker_pos s).carry
                (ground (
                  arith,
                  v'.2.carry_full,
                  slice-le buf marker_pos (marker_pos + kept_len n marker_pos),
                ))
              ∙ v'.2.carry_full;
          carry_in = ground arith;
        },
        v'.3,
      )

  scanned-IsSafe :
      (buf : Bytes) (n : ℕ) (s : FrameBuilder) → IsSafe k s → IsSafe k (end_scanned k buf n s)
  unfolding end_scanned
  scanned-IsSafe buf n s v = elim (Bool-cases (is_audio s.state)) [
    | inl in_audio ↦ simp in_audio v
    | inr other ↦ simp other (
        flush_if-IsSafe k buf (n - tail_carry buf n) (record s { carry_len = tail_carry buf n })
          (v.0, v.1, record { carry_full = v.2.carry_full; carry_in = tail_small buf n }, v.3))
  ]

  end-IsSafe :
      (buf : Bytes) (n : ℕ) (pending : Option ℕ) (s : FrameBuilder)
      → IsSafe k s
      → IsSafe k (end_feed k buf n pending s)
  unfolding end_feed
  end-IsSafe buf n none s v =
      scanned-IsSafe buf n (record s { carry_len = 0 })
        (v.0, v.1, record { carry_full = v.2.carry_full; carry_in = omega arith }, v.3)
  end-IsSafe buf n (some pos) s v =
      pending-IsSafe buf n pos (record s { carry_len = 0 })
        (v.0, v.1, record { carry_full = v.2.carry_full; carry_in = omega arith }, v.3)

  begin-IsSafe : (s : FrameBuilder) → IsSafe k s → IsSafe k (begin_video s)
  begin-IsSafe s v = elim (Bool-cases (is_video s.state)) [
    | inl in_video ↦ simp in_video v
    | inr other ↦ simp other v
  ]

  parse-IsSafe :
      (buf : Bytes) (s : FrameBuilder) → IsSafe k s → IsSafe k (parse k buf (length buf) s)
  unfolding parse
  parse-IsSafe buf s v =
      let n : ℕ = length buf in
      let z : Scan = start_scan (consume_audio buf n 0 (begin_video s)) in
      end-IsSafe buf n (scan (n + 1) k buf n z).pending (scan (n + 1) k buf n z).builder (
        scan-IsSafe (n + 1) buf n z (omega arith)
          (consume-IsSafe k buf n 0 (begin_video s) (begin-IsSafe s v) (omega arith) (omega arith)))

  reset-IsSafe : (s : FrameBuilder) → IsSafe k s → IsSafe k (reset_for_gap s)
  unfolding reset_for_gap
  reset-IsSafe s v = (
    record { two = v.0.two; full = v.0.full; index_in = v.0.index_in; offset_in = omega arith },
    record { stored = omega arith; fits = omega arith },
    record { carry_full = v.2.carry_full; carry_in = omega arith },
    v.3,
  )

  -- `feed` keeps the parser safe, for any chunk, gapped or not: the two frame buffers keep their size
  -- and the write position lies in the current one, the audio payload being assembled stays within
  -- its buffer and AUDIO_MAX_PACKET_BYTES, `_carry` keeps its 16 bytes, and every callback got
  -- exactly VIDEO_FRAME_BYTES bytes of a frame buffer, or at most AUDIO_MAX_PACKET_BYTES of audio.
  pub feed-IsSafe :
      (chunk : Bytes) (gapped : Bool) (s : FrameBuilder)
      → IsSafe k s
      → IsSafe k (feed k chunk gapped s)
  unfolding feed
  feed-IsSafe chunk gapped s v = elim (Bool-cases gapped) [
    | inl gap ↦ simp gap (fed chunk (reset_for_gap s) (reset-IsSafe s v))
    | inr none_lost ↦ simp none_lost (fed chunk s v)
  ]
    where
      fed :
          (c : Bytes) (t : FrameBuilder)
          → IsSafe k t
          → IsSafe k
              (if length c == 0 then t else parse k (work_buffer t c) (length (work_buffer t c)) t)
      fed c t w = elim (Bool-cases (length c == 0)) [
        | inl empty ↦ simp empty w
        | inr some_bytes ↦ simp some_bytes (parse-IsSafe (work_buffer t c) t w)
      ]
