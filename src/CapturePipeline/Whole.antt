-- ===== src/CapturePipeline/Whole.antt =====
-- From a chunk to the video output: the parsers of `CapturePipeline`
-- (src/liblgx/src/CapturePipeline.cpp) behind each other.
use lgx2userspace.Prelude.{
  ◌+◌, ◌%◌, ◌^◌, ◌≤◌, ◌<◌, ◌≡◌, refl, sym, ap, ◌∙◌, Bool, true, false, ◌||◌, inl, inr, List, [],
  ◌∷◌, ◌++◌, append_assoc, append-nil, Bytes, Bool-cases, length,
}
use lgx2userspace.BufferReorderer.{BufferReorderer, Sent}
use lgx2userspace.BufferReorderer.Emit
use lgx2userspace.FrameBuilder.{Sizes, FrameBuilder}
use lgx2userspace.FrameBuilder.Frames.{Frame}
use lgx2userspace.FrameBuilder.Frames.Stream.{IsReady}
use lgx2userspace.FrameBuilder.Frames.Chunk.{
  wires, AreFrames, frame_events, feed_frames, feed_after_gap,
}
use lgx2userspace.CapturePipeline.{
  Setup, Pipeline, Output, video_frame, is_signal, on_video_frame, on_events, build_all,
  parse_chunk, feed,
}

-- The calls of the video output that show some frames.
abbrev pub frame_calls : List Frame → List Output
frame_calls [] = []
frame_calls (f ∷ fs) = video_frame f.payload ∷ frame_calls fs

-- The frame parser can take a chunk that begins with a frame: behind lost bytes in any state, with none
-- lost between packets and with nothing carried. It has its two buffers.
abbrev pub TakesFrames : Bool → FrameBuilder → Type 0
TakesFrames true s = (length s.video_buffers ≡ 2) × (s.video_buffer_index < 2)
TakesFrames false s = IsReady s × (s.carry_len ≡ 0)

-- The frames reach the video output, in order, and nothing else goes out.
pub record Shows (fs : List Frame) (p q : Pipeline) : Type 0 where
  pub shown : q.outputs ≡ p.outputs ++ frame_calls fs
  pub input_kept : q.input_state ≡ p.input_state
  pub gate_kept : q.gate ≡ p.gate
  pub resync_kept : q.resync_pending ≡ p.resync_pending

-- The pipeline behind a frame that was shown.
abbrev showing : Bytes → Pipeline → Pipeline
showing bytes p = record p {
  video_blanked = false;
  video_frames_emitted = (p.video_frames_emitted + 1) % 2 ^ 64;
  outputs = p.outputs ++ (video_frame bytes ∷ []);
}

frame_shown :
    (c : Setup) (bytes : Bytes) (p : Pipeline)
    → is_signal p.input_state ≡ true
    → c.has_video ≡ true
    → on_video_frame c bytes p ≡ showing bytes p
unfolding on_video_frame
frame_shown c bytes p present there = simp (present, there) refl

frames-Shows :
    (c : Setup) (fs : List Frame) (p : Pipeline)
    → is_signal p.input_state ≡ true
    → c.has_video ≡ true
    → Shows fs p (on_events c (frame_events fs) p)
unfolding on_events
frames-Shows c [] p present there = record {
  shown = sym (append-nil p.outputs);
  input_kept = refl;
  gate_kept = refl;
  resync_kept = refl;
}
frames-Shows c (f ∷ fs) p present there =
    let q : Pipeline = showing f.payload p in
    let first = ap (on_events c (frame_events fs)) (frame_shown c f.payload p present there) in
    let rest : Shows fs q (on_events c (frame_events fs) q) = frames-Shows c fs q present there in
    record {
      shown =
          ap (λ (t : Pipeline). t.outputs) first
          ∙ rest.shown
          ∙ append_assoc p.outputs (video_frame f.payload ∷ []) (frame_calls fs);
      input_kept = ap (λ (t : Pipeline). t.input_state) first ∙ rest.input_kept;
      gate_kept = ap (λ (t : Pipeline). t.gate) first ∙ rest.gate_kept;
      resync_kept = ap (λ (t : Pipeline). t.resync_pending) first ∙ rest.resync_kept;
    }

built_frames :
    (k : Sizes) (f : Frame) (fs : List Frame) (lost : Bool) (sent : List Sent) (s : FrameBuilder)
    → 0 < k.frame
    → k.frame ≤ k.capacity
    → AreFrames k (f ∷ fs)
    → TakesFrames lost s
    → sent ≡ record { bytes = wires (f ∷ fs); gapped = lost } ∷ []
    → (build_all k sent (record s { events = [] })).events ≡ frame_events (f ∷ fs)
unfolding build_all
built_frames k f fs true sent s some_video fits oks takes e =
    ap (λ l. (build_all k l (record s { events = [] })).events) e
    ∙ (feed_after_gap k f fs (record s { events = [] }) some_video fits oks takes.0 takes.1).emitted
built_frames k f fs false sent s some_video fits oks takes e =
    ap (λ l. (build_all k l (record s { events = [] })).events) e
    ∙ (feed_frames k f fs (record s { events = [] }) some_video fits oks
        (record { free = takes.0.free; two = takes.0.two; index_in = takes.0.index_in })
        takes.1).emitted

-- What the reorderer makes of a chunk.
abbrev pub reordered : Setup → Bytes → Bool → Pipeline → List Sent
reordered c chunk gapped p = (Emit.feed c.dma chunk gapped (record p.reorderer { sent = [] })).sent

parsed-Shows :
    (c : Setup) (f : Frame) (fs : List Frame) (lost : Bool) (chunk : Bytes) (gapped : Bool)
    (p : Pipeline)
    → 0 < c.sizes.frame
    → c.sizes.frame ≤ c.sizes.capacity
    → AreFrames c.sizes (f ∷ fs)
    → is_signal p.input_state ≡ true
    → c.has_video ≡ true
    → TakesFrames lost p.builder
    → reordered c chunk gapped p ≡ record { bytes = wires (f ∷ fs); gapped = lost } ∷ []
    → Shows (f ∷ fs) p (parse_chunk c chunk gapped p)
unfolding parse_chunk
parsed-Shows c f fs lost chunk gapped p some_video fits oks present there takes sends =
    let r : BufferReorderer = Emit.feed c.dma chunk gapped (record p.reorderer { sent = [] }) in
    let b : FrameBuilder = build_all c.sizes r.sent (record p.builder { events = [] }) in
    let q : Pipeline = record p {
      reorderer = r;
      builder = b;
      reported_order_changes = r.order_changes;
    } in
    let events : b.events ≡ frame_events (f ∷ fs) =
      built_frames c.sizes f fs lost r.sent p.builder some_video fits oks takes sends in
    let h : Shows (f ∷ fs) q (on_events c (frame_events (f ∷ fs)) q) =
      frames-Shows c (f ∷ fs) q present there in
    let same : on_events c b.events q ≡ on_events c (frame_events (f ∷ fs)) q =
      ap (λ es. on_events c es q) events in
    record {
      shown = ap (λ (t : Pipeline). t.outputs) same ∙ h.shown;
      input_kept = ap (λ (t : Pipeline). t.input_state) same ∙ h.input_kept;
      gate_kept = ap (λ (t : Pipeline). t.gate) same ∙ h.gate_kept;
      resync_kept = ap (λ (t : Pipeline). t.resync_pending) same ∙ h.resync_kept;
    }

-- While there is a signal, frames that the reorderer passes on whole reach the video output: one call
-- for each, in order, with exactly its video, and nothing else goes out. A chunk counts as gapped for
-- the reorderer if it is, or if chunks were skipped before; behind lost bytes the frame parser may be
-- in the middle of anything. There must be a video output, the reorderer must pass on one piece that
-- consists of the frames, and a frame must fit its buffer.
pub feed_passes_frames :
    (c : Setup) (f : Frame) (fs : List Frame) (lost : Bool) (chunk : Bytes) (gapped : Bool)
    (p : Pipeline)
    → 0 < c.sizes.frame
    → c.sizes.frame ≤ c.sizes.capacity
    → AreFrames c.sizes (f ∷ fs)
    → is_signal p.input_state ≡ true
    → c.has_video ≡ true
    → TakesFrames lost p.builder
    → reordered c chunk (p.resync_pending || gapped) p
      ≡ record { bytes = wires (f ∷ fs); gapped = lost } ∷ []
    → ((feed c chunk gapped p).outputs ≡ p.outputs ++ frame_calls (f ∷ fs))
      × ((feed c chunk gapped p).gate ≡ p.gate)
      × ((feed c chunk gapped p).resync_pending ≡ false)
unfolding feed
feed_passes_frames c f fs lost chunk gapped p some_video fits oks present there takes sends =
    elim (Bool-cases p.resync_pending) [
      | inl resync ↦
          let h : Shows (f ∷ fs) (record p { resync_pending = false })
              (parse_chunk c chunk true (record p { resync_pending = false })) =
            parsed-Shows c f fs lost chunk true (record p { resync_pending = false }) some_video
              fits oks present there takes (simp resync at sends) in
          simp (present, resync) (h.shown, h.gate_kept, h.resync_kept)
      | inr steady ↦
          let h : Shows (f ∷ fs) p (parse_chunk c chunk gapped p) =
            parsed-Shows c f fs lost chunk gapped p some_video fits oks present there takes
              (simp steady at sends) in
          simp (present, steady) (h.shown, h.gate_kept, h.resync_kept ∙ steady)
    ]
