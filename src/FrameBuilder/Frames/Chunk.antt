-- ===== src/FrameBuilder/Frames/Chunk.antt =====
-- A chunk of whole frames through `feed` of src/liblgx/src/FrameBuilder.cpp.
use lgx2userspace.Prelude.{
  ℕ, suc, ◌+◌, ◌-◌, ◌≤◌, ◌<◌, ◌≡◌, refl, sym, ap, ◌∙◌, true, false, none, List, [], ◌∷◌, ◌++◌,
  arith, ◌==◌, Bytes, length, take, drop, drop-append_exact, length-append, append_assoc,
  append-nil,
}
use lgx2userspace.FrameBuilder.{
  Sizes, idle, Event, video, FrameBuilder, is_audio, consume_audio, reset_for_gap,
}
use lgx2userspace.FrameBuilder.Feed.{
  begin_video, start_scan, parse, feed, work_buffer, end_feed, end_scanned, tail_carry, scan,
}
use lgx2userspace.FrameBuilder.Feed.Ends.{scan_stop}
use lgx2userspace.FrameBuilder.Frames.{At, shift-At, here, Frame, sav_bytes, eav_bytes, IsFrame}
use lgx2userspace.FrameBuilder.Frames.Stream.{IsReady, framed, framed-IsReady, frame_step}

-- The bytes of frames that follow each other.
abbrev pub wires : List Frame → Bytes
wires [] = []
wires (f ∷ fs) = sav_bytes f ++ (f.payload ++ (eav_bytes f ++ wires fs))

-- One call of the video callback for each frame, in order.
abbrev pub frame_events : List Frame → List Event
frame_events [] = []
frame_events (f ∷ fs) = video f.payload ∷ frame_events fs

abbrev pub AreFrames : Sizes → List Frame → Type 0
AreFrames k [] = Unit
AreFrames k (f ∷ fs) = IsFrame k f × AreFrames k fs

-- The parser behind frames that begin at `p`.
abbrev framed_all : List Frame → ℕ → FrameBuilder → FrameBuilder
framed_all [] p s = s
framed_all (f ∷ fs) p s = framed_all fs (p + 8 + length f.payload + 9) (framed f p s)

abbrev rounds : List Frame → ℕ
rounds [] = 0
rounds (f ∷ fs) = suc (length f.payload + suc (rounds fs))

-- What the frames leave in the parser.
pub record Passed (fs : List Frame) (s t : FrameBuilder) : Type 0 where
  pub emitted : t.events ≡ s.events ++ frame_events fs
  pub in_sync : t.desync_count ≡ s.desync_count
  pub ready : IsReady t
  pub between : t.state ≡ idle

-- The frames behind one that has passed.
cons-Passed :
    (f : Frame) (fs : List Frame) (p : ℕ) (s t : FrameBuilder)
    → Passed fs (framed f p s) t
    → Passed (f ∷ fs) s t
cons-Passed f fs p s t h = record {
  emitted = h.emitted ∙ append_assoc s.events (video f.payload ∷ []) (frame_events fs);
  in_sync = h.in_sync;
  ready = h.ready;
  between = h.between;
}

framed_all-Passed :
    (f : Frame) (fs : List Frame) (p : ℕ) (s : FrameBuilder)
    → IsReady s
    → Passed (f ∷ fs) s (framed_all (f ∷ fs) p s)
framed_all-Passed f [] p s r = cons-Passed f [] p s (framed f p s) (record {
  emitted = sym (append-nil (framed f p s).events);
  in_sync = refl;
  ready = framed-IsReady f p s r;
  between = refl;
})
framed_all-Passed f (g ∷ gs) p s r =
    cons-Passed f (g ∷ gs) p s (framed_all (f ∷ g ∷ gs) p s) (
      framed_all-Passed g gs (p + 8 + length f.payload + 9) (framed f p s) (framed-IsReady f p s r))

frame_size :
    (k : Sizes) (f : Frame)
    → IsFrame k f
    → (rest : Bytes)
    → length (sav_bytes f ++ (f.payload ++ (eav_bytes f ++ rest)))
      ≡ 8 + length f.payload + 9 + length rest
frame_size k f ok rest = omega (
  arith,
  ok.sav_size,
  ok.eav_size,
  length-append f.sav (f.payload ++ (eav_bytes f ++ rest)),
  length-append f.payload (eav_bytes f ++ rest),
  length-append f.eav rest,
)

behind_frame :
    (k : Sizes) (buf : Bytes) (f : Frame)
    → IsFrame k f
    → (p : ℕ) (rest : Bytes) → At buf p (sav_bytes f ++ (f.payload ++ (eav_bytes f ++ rest)))
    → At buf (p + 8 + length f.payload + 9) rest
behind_frame k buf f ok p rest at =
    shift-At buf (p + 8 + length f.payload) 9
      (shift-At buf (p + 8) (length f.payload)
        (shift-At buf p 8 at (behind f.sav 4 (f.payload ++ (eav_bytes f ++ rest)) ok.sav_size))
        (drop-append_exact f.payload (eav_bytes f ++ rest)))
      (behind f.eav 5 rest ok.eav_size)
  where
    behind : (l : Bytes) (n : ℕ) (m : Bytes) → length l ≡ n → drop n (l ++ m) ≡ m
    behind l n m e = ap (λ i. drop i (l ++ m)) (sym e) ∙ drop-append_exact l m

rounds-le : (k : Sizes) (fs : List Frame) → AreFrames k fs → rounds fs ≤ length (wires fs)
rounds-le k [] oks = omega arith
rounds-le k (f ∷ fs) oks = omega (
  arith,
  rounds-le k fs oks.1,
  length-append f.sav (f.payload ++ (eav_bytes f ++ wires fs)),
  length-append f.payload (eav_bytes f ++ wires fs),
  length-append f.eav (wires fs),
)

not_audio :
    (buf : Bytes) (n : ℕ) (s : FrameBuilder)
    → is_audio s.state ≡ false
    → consume_audio buf n 0 s ≡ (0, s)
unfolding consume_audio
not_audio buf n s free = simp free

-- `begin_video` touches only where the video in the buffer starts.
begin-state : (s : FrameBuilder) → (begin_video s).state ≡ s.state
begin-state s = ground arith

begin-IsReady : (s : FrameBuilder) → IsReady s → IsReady (begin_video s)
begin-IsReady s r = record {
  free = ap is_audio (begin-state s) ∙ r.free;
  two = ground (arith, r.two);
  index_in = ground (arith, r.index_in);
}

begin-same :
    (s : FrameBuilder)
    → ((begin_video s).events ≡ s.events) × ((begin_video s).desync_count ≡ s.desync_count)
begin-same s = ground arith

-- The part of `feed` behind the loop notes a tail, and nothing else.
end-idle :
    (k : Sizes) (buf : Bytes) (n : ℕ) (t : FrameBuilder)
    → t.state ≡ idle
    → end_feed k buf n none t ≡ record t { carry_len = tail_carry buf n }
unfolding end_feed end_scanned
end-idle k buf n t e = simp e

feed_whole :
    (k : Sizes) (chunk : Bytes) (s : FrameBuilder)
    → 0 < length chunk
    → s.carry_len ≡ 0
    → feed k chunk false s ≡ parse k chunk (length chunk) s
unfolding feed
feed_whole k chunk s some_bytes none_carried =
    let test : (length chunk == 0) ≡ false = ground arith in
    simp test (
      ap (λ w. parse k w (length w) s) {x = work_buffer s chunk}
        (ap (λ n. take n s.carry ++ chunk) none_carried))

-- A gap drops what was carried.
feed_gapped :
    (k : Sizes) (chunk : Bytes) (s : FrameBuilder)
    → 0 < length chunk
    → feed k chunk true s ≡ parse k chunk (length chunk) (reset_for_gap s)
unfolding feed reset_for_gap
feed_gapped k chunk s some_bytes =
    let test : (length chunk == 0) ≡ false = ground arith in simp test refl

reset-IsReady :
    (s : FrameBuilder)
    → length s.video_buffers ≡ 2
    → s.video_buffer_index < 2
    → IsReady (reset_for_gap s)
unfolding reset_for_gap
reset-IsReady s two index_in = record { free = refl; two = two; index_in = index_in }

reset-Passed :
    (fs : List Frame) (s t : FrameBuilder) → Passed fs (reset_for_gap s) t → Passed fs s t
unfolding reset_for_gap
reset-Passed fs s t p = record {
  emitted = p.emitted;
  in_sync = p.in_sync;
  ready = p.ready;
  between = p.between;
}

module _ (k : Sizes) (some_video : 0 < k.frame) (fits : k.frame ≤ k.capacity) where
  -- The loop over frames that end the buffer.
  frames_scan :
      (buf : Bytes) (fs : List Frame)
      → AreFrames k fs
      → (extra p : ℕ) (s : FrameBuilder) → At buf p (wires fs)
      → length buf ≡ p + length (wires fs)
      → IsReady s
      → scan (rounds fs + suc extra) k buf (length buf) (here k buf p s)
        ≡ here k buf (length buf) (framed_all fs p s)
  frames_scan buf [] oks extra p s at size r =
      ap (λ f. scan f k buf (length buf) (here k buf p s)) {y = suc extra} (omega arith)
      ∙ scan_stop extra k buf (length buf) (here k buf p s) (ground arith)
      ∙ ap (λ q. here k buf q s) (omega arith)
  frames_scan buf (f ∷ fs) oks extra p s at size r =
      ap (λ n. scan n k buf (length buf) (here k buf p s))
        {y = suc (length f.payload + suc (rounds fs + suc extra))} (omega arith)
      ∙ frame_step k buf some_video fits f oks.0 (rounds fs + suc extra) p s (wires fs) at r
      ∙ frames_scan buf fs oks.1 extra (p + 8 + length f.payload + 9) (framed f p s)
          (behind_frame k buf f oks.0 p (wires fs) at)
          (size ∙ ap (λ n. p + n) (frame_size k f oks.0 (wires fs)) ∙ omega arith)
          (framed-IsReady f p s r)

  -- `feed`, from the assembled buffer on.
  parse_frames :
      (buf : Bytes) (f : Frame) (fs : List Frame) (s : FrameBuilder)
      → AreFrames k (f ∷ fs)
      → buf ≡ wires (f ∷ fs)
      → IsReady s
      → Passed (f ∷ fs) s (parse k buf (length buf) s)
  unfolding parse
  parse_frames buf f fs s oks whole r =
      let n : ℕ = length buf in
      let b : FrameBuilder = begin_video s in
      let t : FrameBuilder = framed_all (f ∷ fs) 0 b in
      let enough : rounds (f ∷ fs) ≤ n = omega (arith, rounds-le k (f ∷ fs) oks, ap length whole) in
      let loop : scan (n + 1) k buf n (start_scan (consume_audio buf n 0 b)) ≡ here k buf n t =
        ap (λ c. scan (n + 1) k buf n (start_scan c))
          (not_audio buf n b (ap is_audio (begin-state s) ∙ r.free))
        ∙ ap (λ m. scan m k buf n (here k buf 0 b))
            {y = rounds (f ∷ fs) + suc (n - rounds (f ∷ fs))} (omega arith)
        ∙ frames_scan buf (f ∷ fs) oks (n - rounds (f ∷ fs)) 0 b whole
            (omega (arith, ap length whole)) (begin-IsReady s r) in
      let (events, desyncs) = begin-same s in
      let passed : Passed (f ∷ fs) b t = framed_all-Passed f fs 0 b (begin-IsReady s r) in
      rw loop (
        rw (end-idle k buf n t passed.between) (record {
          emitted = passed.emitted ∙ ap (λ l. l ++ frame_events (f ∷ fs)) events;
          in_sync = passed.in_sync ∙ desyncs;
          ready = record {
            free = passed.ready.free;
            two = passed.ready.two;
            index_in = passed.ready.index_in;
          };
          between = passed.between;
        }))

-- A parser that is not in an audio packet and has nothing carried passes on a chunk of whole frames:
-- one call of the video callback for each, in order, with exactly its video, and no desync is
-- counted. It is then between frames, ready for the next chunk. The video must fit a buffer.
pub feed_frames :
    (k : Sizes) (f : Frame) (fs : List Frame) (s : FrameBuilder)
    → 0 < k.frame
    → k.frame ≤ k.capacity
    → AreFrames k (f ∷ fs)
    → IsReady s
    → s.carry_len ≡ 0
    → Passed (f ∷ fs) s (feed k (wires (f ∷ fs)) false s)
feed_frames k f fs s some_video fits oks r none_carried =
    rw (feed_whole k (wires (f ∷ fs)) s (omega arith) none_carried)
      (parse_frames k some_video fits (wires (f ∷ fs)) f fs s oks refl r)

-- A chunk of whole frames that arrives behind lost bytes is passed on too, whatever the parser was
-- in the middle of: one call of the video callback for each frame, in order, with exactly its
-- video, and no desync is counted. The parser must have its two buffers, and the video fit one.
pub feed_after_gap :
    (k : Sizes) (f : Frame) (fs : List Frame) (s : FrameBuilder)
    → 0 < k.frame
    → k.frame ≤ k.capacity
    → AreFrames k (f ∷ fs)
    → length s.video_buffers ≡ 2
    → s.video_buffer_index < 2
    → Passed (f ∷ fs) s (feed k (wires (f ∷ fs)) true s)
feed_after_gap k f fs s some_video fits oks two index_in =
    rw (feed_gapped k (wires (f ∷ fs)) s (omega arith)) (
      reset-Passed (f ∷ fs) s (parse k (wires (f ∷ fs)) (length (wires (f ∷ fs))) (reset_for_gap s))
        (parse_frames k some_video fits (wires (f ∷ fs)) f fs (reset_for_gap s) oks refl
          (reset-IsReady s two index_in)))
