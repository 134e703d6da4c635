-- ===== src/CapturePipeline/Tests.antt =====
-- Runs of src/liblgx/src/CapturePipeline.cpp on small parsers.
use lgx2userspace.Prelude.{length, ℕ, ◌≡◌, refl, true, false, [], ◌∷◌, arith, Bytes, replicate}
use lgx2userspace.AudioGate
use lgx2userspace.BufferReorderer
use lgx2userspace.BufferReorderer.{normal, flush_out}
use lgx2userspace.BufferReorderer.Scan.{scan, scan_loop, scan_round, expire, find_zero}
use lgx2userspace.BufferReorderer.Emit
use lgx2userspace.FrameBuilder.{fresh, sav_header_valid, eav_header_valid}
use lgx2userspace.FrameBuilder.Frames.{Frame, IsFrame}
use lgx2userspace.FrameBuilder.Frames.Chunk.{wires}
use lgx2userspace.CapturePipeline.{
  signal, no_cable, Setup, Pipeline, silence, video_frame, start, parse_chunk, feed,
  set_input_state, send_silence, silence_bytes, silence_time, tick,
}
use lgx2userspace.CapturePipeline.Silence.{Silences, tick_keeps_pace}
use lgx2userspace.CapturePipeline.Skip.{feeds, signal_back_resyncs}
use lgx2userspace.CapturePipeline.Whole.{reordered, feed_passes_frames}

abbrev setup : Setup
setup = record {
  has_video = true;
  has_audio = true;
  keep_alive_frames = true;
  keep_alive_interval = 33_000_000;
  sizes = record { frame = 4; tolerance = 1; audio_max = 8; capacity = 4 };
  dma = 4;
}

abbrev blank : Bytes
blank = 0 ∷ 0 ∷ 0 ∷ 0 ∷ []

abbrev pipeline : Pipeline
pipeline = start BufferReorderer.initial (fresh blank blank (replicate 16 0)) AudioGate.initial

-- The signal is lost, and silence was sent up to 50 ms.
abbrev silenced : Pipeline
silenced = record pipeline {
  input_state = no_cable;
  sending_silence = true;
  silence_sent_up_to = 50_000_000;
}

tick_keeps_pace_example : (n : ℕ) × Silences 65_000_000 n silenced (tick setup 65_000_000 silenced)
tick_keeps_pace_example = tick_keeps_pace setup 65_000_000 silenced refl refl refl (omega arith)

-- 15 ms are 2880 bytes.
fifteen_ms : (send_silence setup 65_000_000 silenced).outputs ≡ silence 2880 ∷ []
unfolding send_silence silence_bytes silence_time
fifteen_ms = refl

signal_back_resyncs_example :
    feed setup (3 ∷ []) false (
      set_input_state setup signal 70_000_000
        (feeds setup ((1 ∷ [], false) ∷ (2 ∷ [], false) ∷ []) silenced))
    ≡ parse_chunk setup
        (3 ∷ [])
        true
        (record (set_input_state setup signal 70_000_000 silenced) { resync_pending = false })
signal_back_resyncs_example =
    signal_back_resyncs setup (1 ∷ [], false) ((2 ∷ [], false) ∷ []) 70_000_000 (3 ∷ []) false
      silenced refl

abbrev frame : Frame
frame = record {
  sav = 5 ∷ 0x40 ∷ 0 ∷ 5 ∷ [];
  payload = 1 ∷ 2 ∷ 3 ∷ 4 ∷ [];
  eav = 5 ∷ 0x3F ∷ 0 ∷ 0 ∷ 5 ∷ [];
}

frame-IsFrame : IsFrame setup.sizes frame
unfolding sav_header_valid eav_header_valid
frame-IsFrame = record {
  sav_size = refl;
  eav_size = refl;
  sav_valid = refl;
  eav_valid = refl;
  paired = refl;
  frame_size = refl;
  clean = (refl, (refl, (refl, (refl, tt))));
}

-- A frame waits in the reorderer, in normal order.
abbrev holding : Pipeline
holding = record pipeline {
  reorderer = record BufferReorderer.initial {
    pipe = wires (frame ∷ []);
    in_offset = length (wires (frame ∷ []));
    scan_offset = length (wires (frame ∷ []));
    order = normal;
    gap_pending = false;
  };
}

-- As many bytes as are held back.
abbrev behind : Bytes
behind = replicate 17 1

passes_on :
    reordered setup behind false holding
    ≡ record { bytes = wires (frame ∷ []); gapped = false } ∷ []
unfolding Emit.feed Emit.feed_chunk Emit.emit Emit.emit_loop Emit.emit_round scan scan_loop
    scan_round expire find_zero flush_out
passes_on = refl

feed_passes_frames_example :
    ((feed setup behind false holding).outputs ≡ video_frame (1 ∷ 2 ∷ 3 ∷ 4 ∷ []) ∷ [])
    × ((feed setup behind false holding).gate ≡ AudioGate.initial)
    × ((feed setup behind false holding).resync_pending ≡ false)
feed_passes_frames_example =
    feed_passes_frames setup frame [] false behind false holding (omega arith) (omega arith)
      (frame-IsFrame, tt) refl refl
      (record { free = refl; two = refl; index_in = omega arith }, refl) passes_on
