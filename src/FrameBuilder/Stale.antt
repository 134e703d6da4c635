-- ===== src/FrameBuilder/Stale.antt =====
-- The work buffer of src/liblgx/src/FrameBuilder.cpp is larger than what `feed` puts into it: nothing
-- behind the first `n` bytes is read.
use lgx2userspace.Prelude.{
  ℕ, zero, suc, ◌+◌, ◌-◌, ◌≤◌, ◌<◌, ◌≡◌, refl, sym, ap, ◌∙◌, true, inl, inr, Option, none, some,
  ◌++◌, arith, ltb, leb, Bytes, Bool-cases, length, slice, dec_lt, get_or-append_left,
  slice-append_left,
}
use lgx2userspace.FrameBuilder.{
  Sizes, FrameBuilder, flush_video, is_video, audio_count, consume_audio, byte_at, sav_header_valid,
  eav_header_valid, store_video, inc32,
}
use lgx2userspace.FrameBuilder.Marker.{
  Outcome, process_sav, close_frame, process_eav, process_audio, process_marker, payload_length,
}
use lgx2userspace.FrameBuilder.Feed.{
  Scan, scan_step, marker_at, resume, scan, flush_if_video, kept_len, end_pending, end_scanned,
  end_feed, tail_carry, begin_video, start_scan, parse,
}
use lgx2userspace.FrameBuilder.Feed.Ends.{
  Advances, process_marker-Advances, running, running_room, scan_more, scan_stop,
}

module _ (k : Sizes) (buf stale : Bytes) where
  byte : (i : ℕ) → i < length buf → byte_at (buf ++ stale) i ≡ byte_at buf i
  byte i h = get_or-append_left buf stale i 0 h

  cut : (a b : ℕ) → b ≤ length buf → slice (buf ++ stale) a b ≡ slice buf a b
  cut a b h = slice-append_left buf stale a b h

  flush :
      (start end : ℕ) (s : FrameBuilder)
      → end ≤ length buf
      → flush_video k (buf ++ stale) start end s ≡ flush_video k buf start end s
  unfolding flush_video
  flush start end s h = elim (Bool-cases (leb end start)) [
    | inl empty ↦ simp empty
    | inr bytes ↦ simp bytes (elim (Bool-cases (ltb (k.capacity - s.video_offset) (end - start))) [
      | inl over ↦ simp over (
          ap (λ b. store_video b (record s { desync_count = inc32 s.desync_count }))
            (cut start (start + (k.capacity - s.video_offset)) (ground arith)))
      | inr fits ↦ simp fits (ap (λ b. store_video b s) (cut start end h))
    ])
  ]

  consume :
      (pos : ℕ) (s : FrameBuilder)
      → pos ≤ length buf
      → consume_audio (buf ++ stale) (length buf) pos s ≡ consume_audio buf (length buf) pos s
  unfolding consume_audio
  consume pos s h = simp (cut pos (pos + audio_count (length buf) pos s) (ground arith))

  sav_valid :
      (i : ℕ) → i + 3 < length buf → sav_header_valid (buf ++ stale) i ≡ sav_header_valid buf i
  unfolding sav_header_valid
  sav_valid i h =
      simp (
        byte i (omega arith),
        byte (i + 1) (omega arith),
        byte (i + 2) (omega arith),
        byte (i + 3) h,
      )

  eav_valid :
      (i : ℕ) → i + 4 < length buf → eav_header_valid (buf ++ stale) i ≡ eav_header_valid buf i
  unfolding eav_header_valid
  eav_valid i h = simp (
    byte i (omega arith),
    byte (i + 1) (omega arith),
    byte (i + 2) (omega arith),
    byte (i + 3) (omega arith),
    byte (i + 4) h,
  )

  sav :
      (pos : ℕ) (s : FrameBuilder)
      → process_sav (buf ++ stale) (length buf) pos s ≡ process_sav buf (length buf) pos s
  unfolding process_sav
  sav pos s = elim (Bool-cases (ltb (length buf - pos) 8)) [
    | inl short ↦ simp short
    | inr whole ↦ simp (whole, sav_valid (pos + 4) (ground arith), byte (pos + 4) (ground arith))
  ]

  close :
      (pos : ℕ) (s : FrameBuilder)
      → pos + 8 < length buf
      → close_frame k (buf ++ stale) pos s ≡ close_frame k buf pos s
  unfolding close_frame
  close pos s h = simp (eav_valid (pos + 4) (omega arith), byte (pos + 4) (omega arith))

  eav :
      (pos : ℕ) (s : FrameBuilder)
      → process_eav k (buf ++ stale) (length buf) pos s ≡ process_eav k buf (length buf) pos s
  unfolding process_eav
  eav pos s = elim (Bool-cases (is_video s.state)) [
    | inr stray ↦ simp stray
    | inl in_video ↦ simp in_video (elim (Bool-cases (ltb (length buf - pos) 9)) [
      | inl short ↦ simp short
      | inr whole ↦ simp whole (
          ap (λ t. (some (pos + 9), t))
            (close pos (flush_video k (buf ++ stale) s.video_pending_start pos s) (ground arith)
              ∙ ap (close_frame k buf pos) (flush s.video_pending_start pos s (ground arith))))
    ])
  ]

  length_bytes :
      (i : ℕ) → i + 3 < length buf → payload_length (buf ++ stale) i ≡ payload_length buf i
  length_bytes i h =
      simp (
        byte i (omega arith),
        byte (i + 1) (omega arith),
        byte (i + 2) (omega arith),
        byte (i + 3) h,
      )

  audio_marker :
      (pos : ℕ) (s : FrameBuilder)
      → process_audio k (buf ++ stale) (length buf) pos s ≡ process_audio k buf (length buf) pos s
  unfolding process_audio
  audio_marker pos s = elim (Bool-cases (ltb (length buf - pos) 8)) [
    | inl short ↦ simp short
    | inr whole ↦ simp (
      whole,
      length_bytes (pos + 4) (ground arith),
      flush s.video_pending_start pos s (ground arith),
    )
  ]

  marker :
      (pos : ℕ) (s : FrameBuilder)
      → pos + 4 ≤ length buf
      → process_marker k (buf ++ stale) (length buf) pos s ≡ process_marker k buf (length buf) pos s
  unfolding process_marker
  marker pos s h = simp (byte (pos + 3) (omega arith), sav pos s, eav pos s, audio_marker pos s)

  marker_seen : (pos : ℕ) → pos + 4 ≤ length buf → marker_at (buf ++ stale) pos ≡ marker_at buf pos
  marker_seen pos h =
      simp (byte pos (omega arith), byte (pos + 1) (omega arith), byte (pos + 2) (omega arith))

  resumed :
      (pos : ℕ) (o : Outcome)
      → Advances (length buf) pos o
      → resume (buf ++ stale) (length buf) pos o ≡ resume buf (length buf) pos o
  resumed pos (none, s) a = refl
  resumed pos (some next, s) a = simp (consume next s a.1)

  step :
      (z : Scan)
      → z.pos + 4 ≤ length buf
      → scan_step k (buf ++ stale) (length buf) z ≡ scan_step k buf (length buf) z
  unfolding scan_step
  step z h =
      simp (marker_seen z.pos h, marker z.pos z.builder h)
        (elim (Bool-cases (marker_at buf z.pos)) [
          | inr other ↦ simp other
          | inl seen ↦ simp seen (
              resumed z.pos (process_marker k buf (length buf) z.pos z.builder)
                (process_marker-Advances k buf (length buf) z.pos z.builder h))
        ])

  scanned :
      (fuel : ℕ) (z : Scan)
      → scan fuel k (buf ++ stale) (length buf) z ≡ scan fuel k buf (length buf) z
  scanned zero z = unfold scan in refl
  scanned (suc fuel) z = elim (Bool-cases (running (length buf) z)) [
    | inl more ↦
        scan_more fuel k (buf ++ stale) (length buf) z more
        ∙ ap (scan fuel k (buf ++ stale) (length buf)) (step z (running_room (length buf) z more))
        ∙ scanned fuel (scan_step k buf (length buf) z)
        ∙ sym (scan_more fuel k buf (length buf) z more)
    | inr stop ↦
        scan_stop fuel k (buf ++ stale) (length buf) z stop
        ∙ sym (scan_stop fuel k buf (length buf) z stop)
  ]

  tail : tail_carry (buf ++ stale) (length buf) ≡ tail_carry buf (length buf)
  unfolding tail_carry
  tail = elim (dec_lt 0 (length buf)) [
    | yes h ↦ simp (
      byte (length buf - 1) (omega arith),
      byte (length buf - 2) (omega arith),
      byte (length buf - 3) (omega arith),
    )
    | no h ↦ ground arith
  ]

  flush_if :
      (end : ℕ) (s : FrameBuilder)
      → end ≤ length buf
      → flush_if_video k (buf ++ stale) end s ≡ flush_if_video k buf end s
  flush_if end s h = simp (flush s.video_pending_start end s h)

-- A pending header lies in the buffer.
abbrev PendingIn : ℕ → Option ℕ → Type 0
PendingIn n none = Unit
PendingIn n (some p) = p ≤ n

resume-PendingIn :
    (buf : Bytes) (n pos : ℕ) (o : Outcome) → pos ≤ n → PendingIn n (resume buf n pos o).pending
resume-PendingIn buf n pos (none, s) h = h
resume-PendingIn buf n pos (some next, s) h = tt

scan-PendingIn :
    (fuel : ℕ) (k : Sizes) (buf : Bytes) (n : ℕ) (z : Scan)
    → PendingIn n z.pending
    → PendingIn n (scan fuel k buf n z).pending
scan-PendingIn zero k buf n z h = unfold scan in h
scan-PendingIn (suc fuel) k buf n z h = elim (Bool-cases (running n z)) [
  | inr stop ↦ rw (scan_stop fuel k buf n z stop) h
  | inl more ↦
      rw (scan_more fuel k buf n z more)
        (scan-PendingIn fuel k buf n (scan_step k buf n z) (stepped more))
]
  where
    stepped : running n z ≡ true → PendingIn n (scan_step k buf n z).pending
    stepped more =
        unfold scan_step in
        elim (Bool-cases (marker_at buf z.pos)) [
          | inr other ↦ simp other h
          | inl seen ↦ simp seen (
              resume-PendingIn buf n z.pos (process_marker k buf n z.pos z.builder)
                (omega (arith, running_room n z more)))
        ]

end_feed-stale :
    (k : Sizes) (buf stale : Bytes) (pending : Option ℕ) (s : FrameBuilder)
    → PendingIn (length buf) pending
    → end_feed k (buf ++ stale) (length buf) pending s ≡ end_feed k buf (length buf) pending s
unfolding end_feed end_pending end_scanned
end_feed-stale k buf stale none s h = simp (
  tail k buf stale,
  flush_if k buf stale (length buf - tail_carry buf (length buf))
      (record s { carry_len = tail_carry buf (length buf) }) (omega arith),
)
end_feed-stale k buf stale (some p) s h = simp (
  flush_if k buf stale p (record s { carry_len = 0 }) h,
  cut k buf stale p (p + kept_len (length buf) p) (ground arith),
)

-- What lies in the work buffer behind the `n` bytes that `feed` put there never matters: with any
-- bytes there, the parser ends in the same state and has made the same callbacks.
pub parse-stale :
    (k : Sizes) (buf stale : Bytes) (s : FrameBuilder)
    → parse k (buf ++ stale) (length buf) s ≡ parse k buf (length buf) s
unfolding parse
parse-stale k buf stale s =
    let n : ℕ = length buf in
    let z : Scan = start_scan (consume_audio buf n 0 (begin_video s)) in
    simp (consume k buf stale 0 (begin_video s) (omega arith), scanned k buf stale (n + 1) z)
      (end_feed-stale k buf stale (scan (n + 1) k buf n z).pending (scan (n + 1) k buf n z).builder
        (scan-PendingIn (n + 1) k buf n z tt))
