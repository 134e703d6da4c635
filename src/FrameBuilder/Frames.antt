-- ===== src/FrameBuilder/Frames.antt =====
-- The parser of src/liblgx/src/FrameBuilder.cpp on a well-formed stream: each SAV, video and EAV is
-- passed on as one frame.
pub mod Stream
pub mod Chunk
use lgx2userspace.Prelude.{
  ℕ, zero, suc, ◌+◌, ◌-◌, ◌*◌, ◌%◌, ◌≤◌, ◌<◌, ◌≡◌, ◌≢◌, refl, sym, ap, ap₂, ◌∙◌, Bool, true, false,
  not, ◌&&◌, ◌||◌, inl, inr, Option, none, some, List, [], ◌∷◌, ◌++◌, arith, ltb, leb, ◌==◌,
  if◌then◌else◌, Bytes, Bool-cases, length, get_or, set, take, drop, slice, drop-drop, get_or-drop,
  take-append_exact, get_or-append_left, drop-append_exact, length-append, length-drop,
  append_assoc,
}
use lgx2userspace.FrameBuilder.{
  Sizes, State, idle, video_data, audio_data, Event, video, FrameBuilder, byte_at, sav_header_valid,
  eav_header_valid, flush_video, is_audio, is_video, consume_audio, check_frame_completion,
  write_at, current_buffer, inc64, inc32, store_video,
}
use lgx2userspace.FrameBuilder.Marker.{process_sav, close_frame, process_eav, process_marker}
use lgx2userspace.FrameBuilder.Feed.{Scan, marker_at, resume, scan_step, scan}
use lgx2userspace.FrameBuilder.Feed.Ends.{running, scan_more}

-- `l` is what stands in the buffer from `pos` on.
abbrev pub At : Bytes → ℕ → Bytes → Type 0
At buf pos l = drop pos buf ≡ l

byte-At : (buf : Bytes) (pos i : ℕ) {l : Bytes} → At buf pos l → byte_at buf (pos + i) ≡ byte_at l i
byte-At buf pos i h = get_or-drop pos i buf 0 ∙ ap (λ l. byte_at l i) h

shift-At :
    (buf : Bytes) (pos i : ℕ) {l m : Bytes} → At buf pos l → drop i l ≡ m → At buf (pos + i) m
shift-At buf pos i h e = drop-drop pos i buf ∙ ap (drop i) h ∙ e

room-At :
    (buf : Bytes) (pos : ℕ) {l : Bytes} → At buf pos l → 0 < length l → pos + length l ≡ length buf
room-At buf pos h some_bytes = omega (arith, length-drop pos buf, ap length h)

-- No `00 FF FF` begins in `data`, with `rest` behind it.
abbrev pub Clean : Bytes → Bytes → Type 0
Clean [] rest = Unit
Clean (x ∷ xs) rest = (marker_at (x ∷ (xs ++ rest)) 0 ≡ false) × Clean xs rest

marker-At : (buf : Bytes) (pos : ℕ) {l : Bytes} → At buf pos l → marker_at buf pos ≡ marker_at l 0
marker-At buf pos {l} h =
    let first : byte_at buf pos ≡ byte_at l 0 =
      ap (byte_at buf) (omega arith) ∙ byte-At buf pos 0 h in
    simp (first, byte-At buf pos 1 h, byte-At buf pos 2 h)

step_skip :
    (k : Sizes) (buf : Bytes) (n : ℕ) (z : Scan)
    → marker_at buf z.pos ≡ false
    → scan_step k buf n z ≡ record z { pos = z.pos + 1 }
unfolding scan_step
step_skip k buf n z h = simp h

step_marker :
    (k : Sizes) (buf : Bytes) (n : ℕ) (z : Scan)
    → marker_at buf z.pos ≡ true
    → scan_step k buf n z ≡ resume buf n z.pos (process_marker k buf n z.pos z.builder)
unfolding scan_step
step_marker k buf n z h = simp h

module _ (k : Sizes) (buf : Bytes) where
  -- A position in the loop, with no pending header.
  abbrev pub here : ℕ → FrameBuilder → Scan
  here pos s = record { builder = s; pos = pos; pending = none }

  is_running :
      (pos : ℕ) (s : FrameBuilder)
      → is_audio s.state ≡ false
      → pos + 4 ≤ length buf
      → running (length buf) (here pos s) ≡ true
  is_running pos s free room = ground arith

  -- The loop passes over bytes in which no marker begins.
  scan_skip :
      (payload : Bytes) (rest : Bytes) (fuel pos : ℕ) (s : FrameBuilder)
      → At buf pos (payload ++ rest)
      → Clean payload rest
      → 4 ≤ length rest
      → is_audio s.state ≡ false
      → scan (length payload + fuel) k buf (length buf) (here pos s)
        ≡ scan fuel k buf (length buf) (here (pos + length payload) s)
  scan_skip [] rest fuel pos s at c four free =
      ap₂ (λ f p. scan f k buf (length buf) (here p s)) (omega arith) (omega arith)
  scan_skip (x ∷ xs) rest fuel pos s at c four free =
      let all : pos + length (x ∷ (xs ++ rest)) ≡ length buf = room-At buf pos at (omega arith) in
      ap (λ f. scan f k buf (length buf) (here pos s)) {y = suc (length xs + fuel)} (omega arith)
      ∙ scan_more (length xs + fuel) k buf (length buf) (here pos s)
          (is_running pos s free (omega (arith, all, length-append xs rest)))
      ∙ ap (scan (length xs + fuel) k buf (length buf))
          (step_skip k buf (length buf) (here pos s) (marker-At buf pos at ∙ c.0))
      ∙ scan_skip xs rest fuel (pos + 1) s (shift-At buf pos 1 at refl) c.1 four free
      ∙ ap (λ p. scan fuel k buf (length buf) (here p s)) (omega arith)

-- A frame on the wire: the header bytes behind the SAV and the EAV marker, and the video.
pub record Frame : Type 0 where
  pub sav : Bytes
  pub payload : Bytes
  pub eav : Bytes

abbrev pub sav_bytes : Frame → Bytes
sav_bytes f = 0x00 ∷ 0xFF ∷ 0xFF ∷ 0xC0 ∷ f.sav

abbrev pub eav_bytes : Frame → Bytes
eav_bytes f = 0x00 ∷ 0xFF ∷ 0xFF ∷ 0xC1 ∷ f.eav

abbrev pub wire : Frame → Bytes
wire f = sav_bytes f ++ (f.payload ++ eav_bytes f)

-- Both headers are checksum-valid and carry the same counter, the video is one frame, and no marker
-- begins in it.
pub record IsFrame (k : Sizes) (f : Frame) : Type 0 where
  pub sav_size : length f.sav ≡ 4
  pub eav_size : length f.eav ≡ 5
  pub sav_valid : sav_header_valid f.sav 0 ≡ true
  pub eav_valid : eav_header_valid f.eav 0 ≡ true
  pub paired : byte_at f.eav 0 ≡ byte_at f.sav 0
  pub frame_size : length f.payload ≡ k.frame
  pub clean : Clean f.payload (eav_bytes f)

-- The bytes of a header that stands in the buffer.
field-At :
    (buf : Bytes) (p i : ℕ) (h rest : Bytes)
    → At buf p (h ++ rest)
    → i < length h
    → byte_at buf (p + i) ≡ byte_at h i
field-At buf p i h rest at inside = byte-At buf p i at ∙ get_or-append_left h rest i 0 inside

first-At :
    (buf : Bytes) (p : ℕ) (h rest : Bytes)
    → At buf p (h ++ rest)
    → 0 < length h
    → byte_at buf p ≡ byte_at h 0
first-At buf p h rest at inside =
    ap (byte_at buf) {y = p + 0} (omega arith) ∙ field-At buf p 0 h rest at inside

sav_valid-At :
    (buf : Bytes) (p : ℕ) (h rest : Bytes)
    → At buf p (h ++ rest)
    → length h ≡ 4
    → sav_header_valid buf p ≡ sav_header_valid h 0
unfolding sav_header_valid
sav_valid-At buf p h rest at size = simp (
  first-At buf p h rest at (omega arith),
  field-At buf p 1 h rest at (omega arith),
  field-At buf p 2 h rest at (omega arith),
  field-At buf p 3 h rest at (omega arith),
)

eav_valid-At :
    (buf : Bytes) (p : ℕ) (h rest : Bytes)
    → At buf p (h ++ rest)
    → length h ≡ 5
    → eav_header_valid buf p ≡ eav_header_valid h 0
unfolding eav_header_valid
eav_valid-At buf p h rest at size = simp (
  first-At buf p h rest at (omega arith),
  field-At buf p 1 h rest at (omega arith),
  field-At buf p 2 h rest at (omega arith),
  field-At buf p 3 h rest at (omega arith),
  field-At buf p 4 h rest at (omega arith),
)

-- The parser behind a valid SAV, and behind the EAV of a frame that is passed on.
abbrev opened : ℕ → ℕ → FrameBuilder → FrameBuilder
opened p b0 s = record s {
  sav_b0 = b0;
  state = video_data;
  video_pending_start = p + 8;
  video_offset = 0;
}

module _ (k : Sizes) (buf : Bytes) (f : Frame) (ok : IsFrame k f) where
  sav_step :
      (p : ℕ) (s : FrameBuilder) (rest : Bytes)
      → At buf p (sav_bytes f ++ rest)
      → process_marker k buf (length buf) p s ≡ (some (p + 8), opened p (byte_at f.sav 0) s)
  unfolding process_marker process_sav
  sav_step p s rest at =
      let type : byte_at buf (p + 3) ≡ 0xC0 = byte-At buf p 3 at in
      let header : At buf (p + 4) (f.sav ++ rest) = shift-At buf p 4 at refl in
      let room : p + length (sav_bytes f ++ rest) ≡ length buf = room-At buf p at (omega arith) in
      let fits : ltb (length buf - p) 8 ≡ false =
        ground (arith, room, ok.sav_size, length-append f.sav rest) in
      simp (
        type,
        fits,
        sav_valid-At buf (p + 4) f.sav rest header ok.sav_size,
        ok.sav_valid,
        first-At buf (p + 4) f.sav rest header (omega (arith, ok.sav_size)),
      )

  eav_step :
      (q : ℕ) (s : FrameBuilder) (rest : Bytes)
      → At buf q (eav_bytes f ++ rest)
      → is_video s.state ≡ true
      → process_marker k buf (length buf) q s
        ≡ (some (q + 9), close_frame k buf q (flush_video k buf s.video_pending_start q s))
  unfolding process_marker process_eav
  eav_step q s rest at in_video =
      let type : byte_at buf (q + 3) ≡ 0xC1 = byte-At buf q 3 at in
      let room : q + length (eav_bytes f ++ rest) ≡ length buf = room-At buf q at (omega arith) in
      let fits : ltb (length buf - q) 9 ≡ false =
        ground (arith, room, ok.eav_size, length-append f.eav rest) in
      simp (type, in_video, fits)

  -- What closing the frame does, once its video is stored.
  close_step :
      (q : ℕ) (s : FrameBuilder) (rest : Bytes)
      → At buf q (eav_bytes f ++ rest)
      → s.sav_b0 ≡ byte_at f.sav 0
      → s.video_offset ≡ k.frame
      → close_frame k buf q s ≡ record s {
        armed = true;
        state = idle;
        video_frames_emitted = inc64 s.video_frames_emitted;
        events = s.events ++ (video (take k.frame (current_buffer s)) ∷ []);
        video_offset = 0;
        video_buffer_index = if s.video_buffer_index == 0 then 1 else 0;
      }
  unfolding close_frame check_frame_completion
  close_step q s rest at same size =
      let header : At buf (q + 4) (f.eav ++ rest) = shift-At buf q 4 at refl in
      let pair : (byte_at buf (q + 4) == s.sav_b0) ≡ true =
        ground
          (arith, first-At buf (q + 4) f.eav rest header (omega (arith, ok.eav_size)), ok.paired) in
      let whole : (ltb s.video_offset (k.frame - k.tolerance)
            || ltb (k.frame + k.tolerance) s.video_offset)
          ≡ false =
        ground arith in
      simp (eav_valid-At buf (q + 4) f.eav rest header ok.eav_size, ok.eav_valid, pair, whole)
