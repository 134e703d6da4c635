-- ===== src/CapturePipeline/Silence.antt =====
-- `CapturePipeline::sendSilence` (src/liblgx/src/CapturePipeline.cpp) against the clock.
use lgx2userspace.Prelude.{
  ℕ, ◌+◌, ◌-◌, ◌%◌, ◌≤◌, ◌<◌, ◌≡◌, true, false, inl, inr, List, [], ◌∷◌, ◌++◌, arith, ltb, ◌==◌,
  if◌then◌else◌, Bool-cases, refl, ◌∙◌,
}
use lgx2userspace.CapturePipeline.{
  Setup, Pipeline, Output, show_no_signal, video_frame, card, audio_packet, silence, is_signal,
  silence_bytes, silence_time, silence_chunk, silence_max, send_silence, keep_alive, tick,
}

-- The silence for a time is whole stereo frames, lasts no longer than the time, and is short of it by
-- less than 30 us.
silence-fits :
    (owed : ℕ)
    → (silence_bytes owed % 4 ≡ 0)
      × (silence_time (silence_bytes owed) ≤ owed)
      × (owed < silence_time (silence_bytes owed) + 30_000)
unfolding silence_bytes silence_time
silence-fits owed = (omega arith, omega arith, omega arith)

some_silence : (owed : ℕ) → silence_chunk ≤ owed → (silence_bytes owed == 0) ≡ false
unfolding silence_bytes
some_silence owed h = ground arith

-- The bytes of silence among the calls of the outputs.
abbrev pub silence_in : List Output → ℕ
silence_in [] = 0
silence_in (silence n ∷ os) = n + silence_in os
silence_in (show_no_signal state ∷ os) = silence_in os
silence_in (video_frame bytes ∷ os) = silence_in os
silence_in (card state ∷ os) = silence_in os
silence_in (audio_packet bytes ∷ os) = silence_in os

silence_in-append : (os ps : List Output) → silence_in (os ++ ps) ≡ silence_in os + silence_in ps
silence_in-append [] ps = omega arith
silence_in-append (silence n ∷ os) ps = omega (arith, silence_in-append os ps)
silence_in-append (show_no_signal state ∷ os) ps = silence_in-append os ps
silence_in-append (video_frame bytes ∷ os) ps = silence_in-append os ps
silence_in-append (card state ∷ os) ps = silence_in-append os ps
silence_in-append (audio_packet bytes ∷ os) ps = silence_in-append os ps

keep_alive_silence :
    (c : Setup) (now : ℕ) (p : Pipeline)
    → ((keep_alive c now p).silence_sent_up_to ≡ p.silence_sent_up_to)
      × (silence_in (keep_alive c now p).outputs ≡ silence_in p.outputs)
unfolding keep_alive
keep_alive_silence c now p = ground (arith, silence_in-append p.outputs (card p.input_state ∷ []))

-- The time up to which silence counts as sent, where a stall is cut short.
abbrev pub resumed : ℕ → ℕ → ℕ
resumed now sent = if ltb silence_max (now - sent) then now - silence_max else sent

-- `bytes` of silence are played between two states, and the clock of the silence goes on by them.
pub record Silences (now bytes : ℕ) (p q : Pipeline) : Type 0 where
  pub whole : bytes % 4 ≡ 0
  pub played : silence_in q.outputs ≡ silence_in p.outputs + bytes
  pub clocked : q.silence_sent_up_to ≡ resumed now p.silence_sent_up_to + silence_time bytes
  pub behind : q.silence_sent_up_to ≤ now
  pub near : now < q.silence_sent_up_to + silence_chunk
  pub onward : p.silence_sent_up_to ≤ q.silence_sent_up_to

send_silence_pace :
    (c : Setup) (now : ℕ) (p : Pipeline)
    → c.has_audio ≡ true
    → p.sending_silence ≡ true
    → p.silence_sent_up_to ≤ now
    → (n : ℕ) × Silences now n p (send_silence c now p)
unfolding send_silence
send_silence_pace c now p there on before =
    elim (Bool-cases (ltb (now - p.silence_sent_up_to) silence_chunk)) [
      | inl early ↦ (
        0,
        simp (there, on, early)
            (record {
              whole = refl;
              played = omega arith;
              clocked = ground (arith, no_time);
              behind = before;
              near = ground arith;
              onward = omega arith;
            }),
      )
      | inr due ↦
          let from : ℕ = resumed now p.silence_sent_up_to in
          let (frames, within, near) = silence-fits (now - from) in
          let late : silence_chunk ≤ now - p.silence_sent_up_to = ground arith in
          let bounds : (p.silence_sent_up_to ≤ from) × (from + silence_chunk ≤ now) =
            ground arith in
          (
            silence_bytes (now - from),
            simp (there, on, due, some_silence (now - from) (omega (arith, bounds.1)))
                (record {
                  whole = frames;
                  played =
                      silence_in-append p.outputs (silence (silence_bytes (now - from)) ∷ [])
                      ∙ omega arith;
                  clocked = refl;
                  behind = omega (arith, bounds.1);
                  near = omega (arith, near);
                  onward = omega (arith, bounds.0);
                }),
          )
    ]
  where
    no_time : silence_time 0 ≡ 0
    no_time = unfold silence_time in refl

-- A tick while there is no signal keeps the silence at the pace of the clock. It plays whole stereo
-- frames of silence, and the time up to which silence counts as sent goes on by just as long as they
-- last, from where it stood, or from 100 ms ago behind a longer stall; when the tick returns, that
-- time is never ahead of the clock, never 10 ms behind it, and never taken back. There must be an
-- audio output, silence must be being sent (`set_input_state` starts it), and not be ahead already.
pub tick_keeps_pace :
    (c : Setup) (now : ℕ) (p : Pipeline)
    → c.has_audio ≡ true
    → p.sending_silence ≡ true
    → is_signal p.input_state ≡ false
    → p.silence_sent_up_to ≤ now
    → (n : ℕ) × Silences now n p (tick c now p)
unfolding tick
tick_keeps_pace c now p there on absent before =
    let (n, paced) = send_silence_pace c now p there on before in
    let (clock, sound) = keep_alive_silence c now (send_silence c now p) in
    (
      n,
      simp absent (record {
        whole = paced.whole;
        played = sound ∙ paced.played;
        clocked = clock ∙ paced.clocked;
        behind = omega (arith, clock, paced.behind);
        near = omega (arith, clock, paced.near);
        onward = omega (arith, clock, paced.onward);
      }),
    )
