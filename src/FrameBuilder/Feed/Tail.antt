-- ===== src/FrameBuilder/Feed/Tail.antt =====
-- `_carry` of src/liblgx/src/FrameBuilder.cpp over a whole call of `feed`.
use lgx2userspace.Prelude.{
  ℕ, zero, suc, ◌+◌, ◌-◌, ◌≤◌, ◌<◌, ◌≡◌, refl, sym, ap, ap₂, ◌∙◌, true, inl, inr, Option, none,
  some, [], ◌∷◌, arith, Bytes, Bool-cases, length, take, drop, slice, slice-nil, take-take,
  length-slice, take-append_left, take-length,
}
use lgx2userspace.FrameBuilder.{
  Sizes, FrameBuilder, flush_video, is_audio, byte_at, write_at, consume_audio,
  check_frame_completion,
}
use lgx2userspace.FrameBuilder.Marker.{
  Outcome, process_sav, close_frame, process_eav, process_audio, process_marker,
}
use lgx2userspace.FrameBuilder.Feed.{
  Scan, marker_at, resume, scan_step, scan, flush_if_video, kept_len, end_pending, end_scanned,
  end_feed, tail_carry, begin_video, start_scan, parse,
}
use lgx2userspace.FrameBuilder.Feed.Ends.{running, running_room, scan_more, scan_stop}
use lgx2userspace.FrameBuilder.Feed.Carry.{HoldsMarker, flush_if-carry, tail_is_prefix, cons_slice}

flush-carry :
    (k : Sizes) (buf : Bytes) (start end : ℕ) (s : FrameBuilder)
    → (flush_video k buf start end s).carry ≡ s.carry
unfolding flush_video
flush-carry k buf start end s = ground arith

close-carry :
    (k : Sizes) (buf : Bytes) (pos : ℕ) (s : FrameBuilder)
    → (close_frame k buf pos s).carry ≡ s.carry
unfolding close_frame check_frame_completion
close-carry k buf pos s = ground arith

-- A header that runs past the end is less than nine bytes away from it.
abbrev Short : ℕ → ℕ → Option ℕ → Type 0
Short n pos none = n < pos + 9
Short n pos (some next) = Unit

marker-carry :
    (k : Sizes) (buf : Bytes) (n pos : ℕ) (s : FrameBuilder)
    → ((process_marker k buf n pos s).1.carry ≡ s.carry)
      × Short n pos (process_marker k buf n pos s).0
unfolding process_marker process_sav process_eav process_audio
marker-carry k buf n pos s = ground (
  arith,
  flush-carry k buf s.video_pending_start pos s,
  close-carry k buf pos (flush_video k buf s.video_pending_start pos s),
)

consume-carry :
    (buf : Bytes) (n pos : ℕ) (s : FrameBuilder) → (consume_audio buf n pos s).1.carry ≡ s.carry
unfolding consume_audio
consume-carry buf n pos s = ground arith

-- What is known of a pending header: a marker with less than its header in the buffer.
abbrev PendingHeader : Bytes → ℕ → Option ℕ → Type 0
PendingHeader buf n none = Unit
PendingHeader buf n (some p) = (marker_at buf p ≡ true) × (p + 4 ≤ n) × (n < p + 9)

resume-carry :
    (buf : Bytes) (n pos : ℕ) (o : Outcome)
    → marker_at buf pos ≡ true
    → pos + 4 ≤ n
    → Short n pos o.0
    → ((resume buf n pos o).builder.carry ≡ o.1.carry)
      × PendingHeader buf n (resume buf n pos o).pending
resume-carry buf n pos (none, s) seen room short = (refl, (seen, room, short))
resume-carry buf n pos (some next, s) seen room short = (consume-carry buf n next s, tt)

step-carry :
    (k : Sizes) (buf : Bytes) (n : ℕ) (z : Scan)
    → z.pos + 4 ≤ n
    → PendingHeader buf n z.pending
    → ((scan_step k buf n z).builder.carry ≡ z.builder.carry)
      × PendingHeader buf n (scan_step k buf n z).pending
unfolding scan_step
step-carry k buf n z room h = elim (Bool-cases (marker_at buf z.pos)) [
  | inr other ↦ simp other (refl, h)
  | inl seen ↦ simp seen (
      let (kept, short) = marker-carry k buf n z.pos z.builder in
      let (same, pending) =
        resume-carry buf n z.pos (process_marker k buf n z.pos z.builder) seen room short in
      (same ∙ kept, pending))
]

scan-carry :
    (fuel : ℕ) (k : Sizes) (buf : Bytes) (n : ℕ) (z : Scan)
    → PendingHeader buf n z.pending
    → ((scan fuel k buf n z).builder.carry ≡ z.builder.carry)
      × PendingHeader buf n (scan fuel k buf n z).pending
scan-carry zero k buf n z h = unfold scan in (refl, h)
scan-carry (suc fuel) k buf n z h = elim (Bool-cases (running n z)) [
  | inr stop ↦ rw (scan_stop fuel k buf n z stop) (refl, h)
  | inl more ↦ rw (scan_more fuel k buf n z more) (
      let (same, pending) = step-carry k buf n z (running_room n z more) h in
      let (later, pending') = scan-carry fuel k buf n (scan_step k buf n z) pending in
      (later ∙ same, pending'))
]

-- The carried bytes are the end of the buffer.
abbrev pub CarriesTail : Bytes → FrameBuilder → Type 0
CarriesTail buf s = take s.carry_len s.carry ≡ slice buf (length buf - s.carry_len) (length buf)

pending_prefix :
    (buf : Bytes) (p : ℕ)
    → marker_at buf p ≡ true
    → p + 4 ≤ length buf
    → take 3 (slice buf p (length buf)) ≡ 0x00 ∷ 0xFF ∷ 0xFF ∷ []
pending_prefix buf p seen room =
    let first : byte_at buf p ≡ 0x00 = ground arith in
    let second : byte_at buf (p + 1) ≡ 0xFF = ground arith in
    let third : byte_at buf (p + 2) ≡ 0xFF = ground arith in
    ap (take 3) (cons_slice buf p 0x00 (omega arith) first)
    ∙ ap (λ l. 0x00 ∷ take 2 l)
        (cons_slice buf (suc p) 0xFF (omega arith)
          (ap (byte_at buf) {y = p + 1} (omega arith) ∙ second))
    ∙ ap (λ l. 0x00 ∷ 0xFF ∷ take 1 l)
        (cons_slice buf (suc (suc p)) 0xFF (omega arith)
          (ap (byte_at buf) {y = p + 2} (omega arith) ∙ third))

-- `_carry` behind a copy of the last `c` bytes of the buffer.
kept_tail :
    (buf carry : Bytes) (p c : ℕ)
    → p + c ≡ length buf
    → take c (write_at 0 (slice buf p (p + c)) carry) ≡ slice buf (length buf - c) (length buf)
kept_tail buf carry p c e =
    let tail : Bytes = slice buf p (p + c) in
    let size : length tail ≡ c = omega (arith, length-slice buf p (p + c) (omega arith)) in
    take-append_left c tail (drop (0 + length tail) carry) (omega arith)
    ∙ ap (λ m. take m tail) (sym size)
    ∙ take-length tail
    ∙ ap₂ (slice buf) (omega arith) e

kept_prefix :
    (buf carry : Bytes) (p c : ℕ)
    → p + c ≡ length buf
    → 4 ≤ c
    → marker_at buf p ≡ true
    → take 3 (write_at 0 (slice buf p (p + c)) carry) ≡ 0x00 ∷ 0xFF ∷ 0xFF ∷ []
kept_prefix buf carry p c e four seen =
    let tail : Bytes = slice buf p (p + c) in
    take-append_left 3 tail (drop (0 + length tail) carry)
      (omega (arith, length-slice buf p (p + c) (omega arith)))
    ∙ ap (λ m. take 3 (slice buf p m)) e
    ∙ pending_prefix buf p seen (omega arith)

pending-tail :
    (k : Sizes) (buf : Bytes) (p : ℕ) (s : FrameBuilder)
    → PendingHeader buf (length buf) (some p)
    → CarriesTail buf (end_pending k buf (length buf) p s)
      × HoldsMarker (end_pending k buf (length buf) p s).carry
unfolding end_pending
pending-tail k buf p s h =
    let c : ℕ = kept_len (length buf) p in
    let whole : p + c ≡ length buf = ground arith in
    let four : 4 ≤ c = ground arith in
    (
      kept_tail buf (flush_if_video k buf p s).carry p c whole,
      kept_prefix buf (flush_if_video k buf p s).carry p c whole four h.0,
    )

tail-le : (buf : Bytes) (n : ℕ) → tail_carry buf n ≤ 3
unfolding tail_carry
tail-le buf n = ground arith

scanned-tail :
    (k : Sizes) (buf : Bytes) (s : FrameBuilder)
    → HoldsMarker s.carry
    → s.carry_len ≡ 0
    → CarriesTail buf (end_scanned k buf (length buf) s)
      × HoldsMarker (end_scanned k buf (length buf) s).carry
unfolding end_scanned
scanned-tail k buf s h e = elim (Bool-cases (is_audio s.state)) [
  | inl in_audio ↦ simp in_audio (
    ap (λ c. take c s.carry) e
        ∙ sym (slice-nil buf (length buf - s.carry_len) (length buf) (omega arith)),
    h,
  )
  | inr free ↦ simp free (
      let t : ℕ = tail_carry buf (length buf) in
      let s' : FrameBuilder = record s { carry_len = t } in
      let (bytes, len, _) = flush_if-carry k buf (length buf - t) s' in
      (
        ap₂ take len bytes
            ∙ sym (take-take t 3 s.carry (tail-le buf (length buf)))
            ∙ ap (take t) h
            ∙ sym (tail_is_prefix buf)
            ∙ ap (λ c. slice buf (length buf - c) (length buf)) (sym len),
        ap (take 3) bytes ∙ h,
      ))
]

end_feed-tail :
    (k : Sizes) (buf : Bytes) (pending : Option ℕ) (s : FrameBuilder)
    → PendingHeader buf (length buf) pending
    → HoldsMarker s.carry
    → CarriesTail buf (end_feed k buf (length buf) pending s)
      × HoldsMarker (end_feed k buf (length buf) pending s).carry
unfolding end_feed
end_feed-tail k buf none s p h = scanned-tail k buf (record s { carry_len = 0 }) h refl
end_feed-tail k buf (some q) s p h = pending-tail k buf q (record s { carry_len = 0 }) p

begin-carry : (s : FrameBuilder) → (begin_video s).carry ≡ s.carry
begin-carry s = ground arith

-- Once `_carry` begins with `00 FF FF`, a chunk leaves it so, and leaves exactly the last bytes of
-- the assembled buffer to be put in front of the next chunk.
pub parse-CarriesTail :
    (k : Sizes) (buf : Bytes) (s : FrameBuilder)
    → HoldsMarker s.carry
    → CarriesTail buf (parse k buf (length buf) s) × HoldsMarker (parse k buf (length buf) s).carry
unfolding parse
parse-CarriesTail k buf s h =
    let n : ℕ = length buf in
    let z : Scan = start_scan (consume_audio buf n 0 (begin_video s)) in
    let (same, pending) = scan-carry (n + 1) k buf n z tt in
    end_feed-tail k buf (scan (n + 1) k buf n z).pending (scan (n + 1) k buf n z).builder pending
      (ap (take 3) (same ∙ consume-carry buf n 0 (begin_video s) ∙ begin-carry s) ∙ h)

-- When the scan of a chunk stops at a header that runs past its end, the parser carries exactly
-- the last bytes of the assembled buffer, and `_carry` begins with `00 FF FF` then, whatever it
-- held before.
pub pending-HoldsMarker :
    (k : Sizes) (buf : Bytes) (s : FrameBuilder) (p : ℕ)
    → (scan
        (length buf + 1)
        k
        buf
        (length buf)
        (start_scan (consume_audio buf (length buf) 0 (begin_video s)))).pending
      ≡ some p
    → CarriesTail buf (parse k buf (length buf) s) × HoldsMarker (parse k buf (length buf) s).carry
unfolding parse
pending-HoldsMarker k buf s p e =
    let n : ℕ = length buf in
    let z : Scan = start_scan (consume_audio buf n 0 (begin_video s)) in
    let (same, pending) = scan-carry (n + 1) k buf n z tt in
    rw e (
      unfold end_feed in
      pending-tail k buf p (record ((scan (n + 1) k buf n z).builder) { carry_len = 0 })
        (rw e at pending))
