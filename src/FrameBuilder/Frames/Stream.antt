-- ===== src/FrameBuilder/Frames/Stream.antt =====
-- Whole frames, one behind the other, through the scan loop and `feed` of
-- src/liblgx/src/FrameBuilder.cpp.
use lgx2userspace.Prelude.{
  ℕ, suc, ◌+◌, ◌-◌, ◌≤◌, ◌<◌, ◌≡◌, refl, sym, ap, ◌∙◌, true, false, some, [], ◌∷◌, ◌++◌, arith, ltb,
  leb, ◌==◌, if◌then◌else◌, Bytes, length, set, take, drop, slice, take-append_exact,
  drop-append_exact, length-append, length-set, get_or-set_self, append_assoc,
}
use lgx2userspace.FrameBuilder.{
  Sizes, idle, video, FrameBuilder, byte_at, flush_video, is_audio, consume_audio, write_at,
  current_buffer, inc64, store_video,
}
use lgx2userspace.FrameBuilder.Marker.{close_frame}
use lgx2userspace.FrameBuilder.Feed.{marker_at, resume, scan_step, scan}
use lgx2userspace.FrameBuilder.Feed.Ends.{scan_more}
use lgx2userspace.FrameBuilder.Frames.{
  At, shift-At, room-At, marker-At, Clean, step_marker, here, is_running, scan_skip, Frame,
  sav_bytes, eav_bytes, IsFrame, opened, sav_step, eav_step, close_step,
}

-- The parser is between packets, and its buffers are there.
pub record IsReady (s : FrameBuilder) : Type 0 where
  pub free : is_audio s.state ≡ false
  pub two : length s.video_buffers ≡ 2
  pub index_in : s.video_buffer_index < 2

-- The parser behind a frame that begins at `p`.
abbrev pub framed : Frame → ℕ → FrameBuilder → FrameBuilder
framed f p s = record s {
  sav_b0 = byte_at f.sav 0;
  state = idle;
  armed = true;
  video_pending_start = p + 8;
  video_offset = 0;
  video_buffers =
      set s.video_buffers s.video_buffer_index (write_at 0 f.payload (current_buffer s));
  video_buffer_index = if s.video_buffer_index == 0 then 1 else 0;
  video_frames_emitted = inc64 s.video_frames_emitted;
  events = s.events ++ (video f.payload ∷ []);
}

pub framed-IsReady : (f : Frame) (p : ℕ) (s : FrameBuilder) → IsReady s → IsReady (framed f p s)
framed-IsReady f p s r = record {
  free = refl;
  two = length-set s.video_buffers s.video_buffer_index _ ∙ r.two;
  index_in = ground arith;
}

marker-append :
    (x : ℕ) (l rest : Bytes) → 2 ≤ length l → marker_at (x ∷ (l ++ rest)) 0 ≡ marker_at (x ∷ l) 0
marker-append x (y ∷ z ∷ l) rest h = refl
marker-append x (y ∷ []) rest h = absurd (omega arith)
marker-append x [] rest h = absurd (omega arith)

module _ (k : Sizes) (buf : Bytes) (some_video : 0 < k.frame) (fits : k.frame ≤ k.capacity)
    (f : Frame) (ok : IsFrame k f) where
  -- The flush of a frame that lies whole in the buffer stores its video.
  flush_step :
      (p q : ℕ) (s : FrameBuilder) (rest : Bytes)
      → At buf p (f.payload ++ rest)
      → q ≡ p + length f.payload
      → s.video_offset ≡ 0
      → flush_video k buf p q s ≡ store_video f.payload s
  unfolding flush_video
  flush_step p q s rest at e none_yet =
      let some_bytes : leb q p ≡ false = ground (arith, ok.frame_size) in
      let room : ltb (k.capacity - s.video_offset) (q - p) ≡ false =
        ground (arith, ok.frame_size) in
      let bytes : slice buf p q ≡ f.payload =
        ap (λ n. take n (drop p buf)) {y = length f.payload} (omega arith)
        ∙ ap (take (length f.payload)) at
        ∙ take-append_exact f.payload rest in
      simp (some_bytes, room, bytes)

  stored :
      (s : FrameBuilder)
      → IsReady s
      → take k.frame (current_buffer (store_video f.payload (record s { video_offset = 0 })))
        ≡ f.payload
  stored s r =
      ap (take k.frame) (
        get_or-set_self s.video_buffers s.video_buffer_index _ []
          (omega (arith, r.two, r.index_in)))
      ∙ ap (λ n. take n (f.payload ++ drop (0 + length f.payload) (current_buffer s)))
          (sym ok.frame_size)
      ∙ take-append_exact f.payload (drop (0 + length f.payload) (current_buffer s))

  Clean-append :
      (payload rest : Bytes) → Clean payload (eav_bytes f) → Clean payload (eav_bytes f ++ rest)
  Clean-append [] rest c = tt
  Clean-append (x ∷ xs) rest c = (
    ap (λ l. marker_at (x ∷ l) 0) (sym (append_assoc xs (eav_bytes f) rest))
        ∙ marker-append x (xs ++ eav_bytes f) rest (omega (arith, length-append xs (eav_bytes f)))
        ∙ c.0,
    Clean-append xs rest c.1,
  )

  -- The first round takes the header of the SAV.
  sav_round :
      (p : ℕ) (s : FrameBuilder) (rest : Bytes)
      → At buf p (sav_bytes f ++ rest)
      → scan_step k buf (length buf) (here k buf p s)
        ≡ here k buf (p + 8) (opened p (byte_at f.sav 0) s)
  unfolding consume_audio
  sav_round p s rest at =
      step_marker k buf (length buf) (here k buf p s) (marker-At buf p at)
      ∙ ap (resume buf (length buf) p) (sav_step k buf f ok p s rest at)

  -- The last takes that of the EAV, and passes the frame on.
  eav_round :
      (p : ℕ) (s : FrameBuilder) (rest : Bytes)
      → At buf (p + 8) (f.payload ++ (eav_bytes f ++ rest))
      → IsReady s
      → scan_step k buf
          (length buf)
          (here k buf (p + 8 + length f.payload) (opened p (byte_at f.sav 0) s))
        ≡ here k buf (p + 8 + length f.payload + 9) (framed f p s)
  unfolding consume_audio
  eav_round p s rest at r =
      let q : ℕ = p + 8 + length f.payload in
      let o : FrameBuilder = opened p (byte_at f.sav 0) s in
      let there : At buf q (eav_bytes f ++ rest) =
        shift-At buf (p + 8) (length f.payload) at
          (drop-append_exact f.payload (eav_bytes f ++ rest)) in
      step_marker k buf (length buf) (here k buf q o) (marker-At buf q there)
      ∙ ap (resume buf (length buf) q) (
          eav_step k buf f ok q o rest there refl
          ∙ ap (λ b. (some (q + 9), close_frame k buf q b))
              (flush_step (p + 8) q o (eav_bytes f ++ rest) at refl refl)
          ∙ ap (λ b. (some (q + 9), b))
              (close_step k buf f ok q (store_video f.payload o) rest there refl
                (omega (arith, ok.frame_size))))
      ∙ ap (λ v. here k buf (q + 9) (record (framed f p s) { events = s.events ++ (video v ∷ []) }))
          (stored s r)

  -- The loop passes over a frame in as many rounds as it has video bytes, and one for each marker.
  pub frame_step :
      (fuel p : ℕ) (s : FrameBuilder) (rest : Bytes)
      → At buf p (sav_bytes f ++ (f.payload ++ (eav_bytes f ++ rest)))
      → IsReady s
      → scan (suc (length f.payload + suc fuel)) k buf (length buf) (here k buf p s)
        ≡ scan fuel k buf (length buf) (here k buf (p + 8 + length f.payload + 9) (framed f p s))
  frame_step fuel p s rest at r =
      let n : ℕ = length buf in
      let q : ℕ = p + 8 + length f.payload in
      let o : FrameBuilder = opened p (byte_at f.sav 0) s in
      let video_at : At buf (p + 8) (f.payload ++ (eav_bytes f ++ rest)) = shift-At buf p 8 at (
        ap (λ i. drop i (f.sav ++ (f.payload ++ (eav_bytes f ++ rest)))) (sym ok.sav_size)
        ∙ drop-append_exact f.sav (f.payload ++ (eav_bytes f ++ rest))) in
      let eav_at : At buf q (eav_bytes f ++ rest) =
        shift-At buf (p + 8) (length f.payload) video_at
          (drop-append_exact f.payload (eav_bytes f ++ rest)) in
      scan_more (length f.payload + suc fuel) k buf n (here k buf p s)
        (is_running k buf p s r.free (omega (arith, room-At buf p at (omega arith))))
      ∙ ap (scan (length f.payload + suc fuel) k buf n)
          (sav_round p s (f.payload ++ (eav_bytes f ++ rest)) at)
      ∙ scan_skip k buf f.payload (eav_bytes f ++ rest) (suc fuel) (p + 8) o video_at
          (Clean-append f.payload rest ok.clean) (omega arith) refl
      ∙ scan_more fuel k buf n (here k buf q o)
          (is_running k buf q o refl (omega (arith, room-At buf q eav_at (omega arith))))
      ∙ ap (scan fuel k buf n) (eav_round p s rest video_at r)
