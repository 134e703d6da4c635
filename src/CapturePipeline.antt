-- ===== src/CapturePipeline.antt =====
-- src/liblgx/src/CapturePipeline.h and CapturePipeline.cpp, and `InputState` of lgxinterfaces.h: raw
-- chunks into video frames and audio packets.
-- A steady_clock time point is its count of nanoseconds, and the clock never goes back. `outputs` are
-- the calls of the video and of the audio output in order; `card` stands for the frame that
-- NoSignalCard renders for a state. The sink of the BufferReorderer feeds the FrameBuilder and its
-- callbacks the outputs while `feed` runs; none of them is read by the part that calls it, so they run
-- one behind the other here.
pub mod Silence
pub mod Skip
pub mod Whole
mod Tests
use lgx2userspace.Prelude.{
  ℕ, ◌+◌, ◌-◌, ◌*◌, ◌/◌, ◌%◌, ◌^◌, Bool, true, false, not, ◌&&◌, ◌||◌, List, [], ◌∷◌, ◌++◌, ltb,
  leb, ◌==◌, if◌then◌else◌, Bytes,
}
use lgx2userspace.AudioGate.{AudioGate, update, process}
use lgx2userspace.BufferReorderer.{BufferReorderer, Sent}
use lgx2userspace.BufferReorderer.Emit
use lgx2userspace.FrameBuilder.{Sizes, Event, video, audio, FrameBuilder}
use lgx2userspace.FrameBuilder.Feed

pub data InputState : Type 0 where
  signal no_signal no_cable protected no_device : InputState

abbrev pub same_state : InputState → InputState → Bool
same_state signal signal = true
same_state no_signal no_signal = true
same_state no_cable no_cable = true
same_state protected protected = true
same_state no_device no_device = true
same_state _ _ = false

abbrev pub is_signal : InputState → Bool
is_signal state = same_state state signal

-- A call of an output.
pub data Output : Type 0 where
  show_no_signal : InputState → Output
  video_frame : Bytes → Output
  card : InputState → Output
  audio_packet : Bytes → Output
  silence : ℕ → Output

-- What is fixed: which outputs there are (either may be null), the options, and the sizes of the parsers.
pub record Setup : Type 0 where
  pub has_video : Bool
  pub has_audio : Bool
  pub keep_alive_frames : Bool
  pub keep_alive_interval : ℕ
  pub sizes : Sizes
  pub dma : ℕ

-- The class `CapturePipeline`.
pub record Pipeline : Type 0 where
  pub reorderer : BufferReorderer
  pub builder : FrameBuilder
  pub reported_order_changes : ℕ
  pub input_state : InputState
  pub resync_pending : Bool
  pub gate : AudioGate
  pub gate_reported_open : Bool
  pub video_blanked : Bool
  pub blanked_for : InputState
  pub last_keep_alive : ℕ
  pub sending_silence : Bool
  pub silence_sent_up_to : ℕ
  pub video_frames_emitted : ℕ
  pub keep_alive_frames_emitted : ℕ
  pub outputs : List Output

-- The constructor, with the parsers it starts with.
abbrev pub start : BufferReorderer → FrameBuilder → AudioGate → Pipeline
start reorderer builder gate = record {
  reorderer = reorderer;
  builder = builder;
  reported_order_changes = 0;
  input_state = signal;
  resync_pending = false;
  gate = gate;
  gate_reported_open = false;
  video_blanked = false;
  blanked_for = signal;
  last_keep_alive = 0;
  sending_silence = false;
  silence_sent_up_to = 0;
  video_frames_emitted = 0;
  keep_alive_frames_emitted = 0;
  outputs = [];
}

-- AUDIO_BYTES_PER_SECOND, SILENCE_CHUNK (10 ms) and SILENCE_MAX (100 ms).
abbrev pub audio_bytes_per_second : ℕ
audio_bytes_per_second = 192_000

abbrev pub silence_chunk : ℕ
silence_chunk = 10_000_000

abbrev pub silence_max : ℕ
silence_max = 100_000_000

abbrev pub emit : Bool → Output → Pipeline → Pipeline
emit there call p = if there then record p { outputs = p.outputs ++ (call ∷ []) } else p

-- `wantsData`
abbrev pub wants_data : Pipeline → Bool
wants_data p = is_signal p.input_state

-- `onVideoFrame`
unfoldable pub on_video_frame : Setup → Bytes → Pipeline → Pipeline
on_video_frame c bytes p =
    if not (is_signal p.input_state)
    then p
    else emit c.has_video (video_frame bytes) (record p {
      video_blanked = false;
      video_frames_emitted = (p.video_frames_emitted + 1) % 2 ^ 64;
    })

-- `onAudioPacket`
unfoldable pub on_audio_packet : Setup → Bytes → Pipeline → Pipeline
on_audio_packet c bytes p =
    if not c.has_audio
    then p
    else (let (gate, gated) = process bytes p.gate in
        record p { gate = gate; outputs = p.outputs ++ (audio_packet gated ∷ []) })

abbrev pub on_event : Setup → Event → Pipeline → Pipeline
on_event c (video bytes) p = on_video_frame c bytes p
on_event c (audio bytes) p = on_audio_packet c bytes p

-- The callbacks that the parser made, in order.
unfoldable pub on_events : Setup → List Event → Pipeline → Pipeline
on_events c [] p = p
on_events c (e ∷ es) p = on_events c es (on_event c e p)

-- The calls of the sink, in order.
unfoldable pub build_all : Sizes → List Sent → FrameBuilder → FrameBuilder
build_all k [] s = s
build_all k (x ∷ xs) s = build_all k xs (Feed.feed k x.bytes x.gapped s)

-- What `_bufferReorderer.feed` does, with the parser behind it and the outputs behind that.
unfoldable pub parse_chunk : Setup → Bytes → Bool → Pipeline → Pipeline
parse_chunk c chunk gapped p =
    let reordered = Emit.feed c.dma chunk gapped (record p.reorderer { sent = [] }) in
    let built = build_all c.sizes reordered.sent (record p.builder { events = [] }) in
    on_events c built.events (record p {
      reorderer = reordered;
      builder = built;
      reported_order_changes = reordered.order_changes;
    })

-- `feed`
unfoldable pub feed : Setup → Bytes → Bool → Pipeline → Pipeline
feed c chunk gapped p =
    if not (wants_data p)
    then record p { resync_pending = true }
    else if p.resync_pending
    then parse_chunk c chunk true (record p { resync_pending = false })
    else parse_chunk c chunk gapped p

-- The part of `setInputState` on silence.
abbrev pub track_silence : Bool → ℕ → Pipeline → Pipeline
track_silence present now p =
    if present
    then record p { sending_silence = false }
    else if not p.sending_silence
    then record p { sending_silence = true; silence_sent_up_to = now }
    else p

-- The part that blanks the video.
abbrev pub blank_video : Setup → Bool → InputState → Pipeline → Pipeline
blank_video c present state p =
    if not present && (not p.video_blanked || not (same_state p.blanked_for state))
    then record (emit c.has_video (show_no_signal state) p) {
      video_blanked = true;
      blanked_for = state;
      last_keep_alive = 0;
    }
    else p

-- `setInputState`
unfoldable pub set_input_state : Setup → InputState → ℕ → Pipeline → Pipeline
set_input_state c state now p =
    let present = is_signal state in
    let gate = update present now p.gate in
    blank_video c present state (
      track_silence present now
        (record p { input_state = state; gate = gate; gate_reported_open = gate.is_open }))

-- How much silence is due for `owed` nanoseconds: whole stereo frames.
unfoldable pub silence_bytes : ℕ → ℕ
silence_bytes owed =
    let bytes = owed / 1000 * audio_bytes_per_second / 1_000_000 in bytes - bytes % 4

-- How long that silence lasts.
unfoldable pub silence_time : ℕ → ℕ
silence_time bytes = bytes * 1_000_000 / audio_bytes_per_second * 1000

-- `sendSilence`
unfoldable pub send_silence : Setup → ℕ → Pipeline → Pipeline
send_silence c now p =
    if not c.has_audio || not p.sending_silence
    then p
    else if ltb (now - p.silence_sent_up_to) silence_chunk
    then p
    else (let stalled = ltb silence_max (now - p.silence_sent_up_to) in
        let from = if stalled then now - silence_max else p.silence_sent_up_to in
        let bytes = silence_bytes (now - from) in
        if bytes == 0 then record p { silence_sent_up_to = from } else record p {
          silence_sent_up_to = from + silence_time bytes;
          outputs = p.outputs ++ (silence bytes ∷ []);
        })

-- The part of `tick` on keep-alive frames.
unfoldable pub keep_alive : Setup → ℕ → Pipeline → Pipeline
keep_alive c now p =
    if not c.keep_alive_frames || (not c.has_video || is_signal p.input_state)
    then p
    else if not (p.last_keep_alive == 0) && ltb (now - p.last_keep_alive) c.keep_alive_interval
    then p
    else record p {
      last_keep_alive = now;
      keep_alive_frames_emitted = (p.keep_alive_frames_emitted + 1) % 2 ^ 64;
      outputs = p.outputs ++ (card p.input_state ∷ []);
    }

-- `tick`
unfoldable pub tick : Setup → ℕ → Pipeline → Pipeline
tick c now p = keep_alive c now (if not (is_signal p.input_state) then send_silence c now p else p)
