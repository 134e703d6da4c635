-- ===== src/PipeWireAudioOutput/Plays.antt =====
-- What `onProcess` of src/liblgx/liblgx-pipewire/src/pw/PipeWireAudioOutput.cpp plays of what was
-- written.
use lgx2userspace.Prelude.{
  ℕ, ◌+◌, ◌-◌, ◌*◌, ◌/◌, ◌%◌, ◌^◌, ◌≤◌, ◌<◌, ◌≡◌, refl, sym, ap, subst, ◌∙◌, min, true, false, not,
  ◌||◌, inl, inr, ◌⊎◌, ◌++◌, arith, ltb, leb, Bool-cases, Bytes, length, take, drop, replicate,
  length-append, length-take, length-drop, length-replicate,
}
use lgx2userspace.PipeWireAudioOutput.{
  stride, ring_bytes, target_bytes, max_bytes, Ring, RingLaws, AudioOutput, is_full, at_least_zero,
  Buffer, wanted_of, skip_of, audio_frame_available, trim, fill, play,
}

skip_fits : (n : ℕ) → skip_of n ≤ n
unfolding skip_of
skip_fits n = ground arith

skip_whole : (n : ℕ) → skip_of n % stride ≡ 0
unfolding skip_of
skip_whole n = ground arith

skip_enough : (n : ℕ) → n - skip_of n ≤ max_bytes
unfolding skip_of
skip_enough n = ground arith

wanted_fits : (b : Buffer) → wanted_of b ≤ b.maxsize
unfolding wanted_of
wanted_fits b = ground arith

module _ {R : Type 0} (ring : Ring R) (laws : RingLaws ring) where
  -- What a buffer was filled with: `skipped` bytes of the queue were passed over, `copied` bytes behind
  -- them were played with silence behind them, and the rest stays queued. Where it plays, it plays all
  -- whole frames that there are and that are wanted; it plays unless the prebuffer still fills.
  pub record Plays (wanted : ℕ) (s : AudioOutput R) (s' : AudioOutput R) (out : Bytes)
      : Type 0 where
    pub skipped : ℕ
    pub copied : ℕ
    pub skipped_whole : skipped % stride ≡ 0
    pub copied_whole : copied % stride ≡ 0
    pub copied_fits : copied ≤ wanted
    pub skipped_backlog : skipped ≡ skip_of (length (laws.contents s.queue))
    pub plays :
        out ≡ take copied (drop skipped (laws.contents s.queue)) ++ replicate (wanted - copied) 0
    pub keeps : laws.contents s'.queue ≡ drop copied (drop skipped (laws.contents s.queue))
    pub short : length (laws.contents s'.queue) ≤ max_bytes
    pub starts :
        (s.prebuffering ≡ false) ⊎ (target_bytes ≤ length (laws.contents s.queue) - skipped)
        → (copied ≡ min (length (laws.contents s.queue) - skipped) wanted / stride * stride)
          × (s'.prebuffering ≡ ltb copied wanted)
    pub waits :
        s.prebuffering ≡ true
        → length (laws.contents s.queue) - skipped < target_bytes
        → (copied ≡ 0) × (s'.prebuffering ≡ true)

  trim_lem :
      (filled : ℕ) (s : AudioOutput R)
      → filled ≡ length (laws.contents s.queue)
      → laws.contents (trim ring filled s).queue ≡ drop (skip_of filled) (laws.contents s.queue)
  unfolding trim skip_of
  trim_lem filled s size = elim (Bool-cases (ltb max_bytes filled)) [
    | inl e ↦
        simp e
          (laws.advance_drops ((filled - target_bytes) / stride * stride) s.queue (ground arith))
    | inr e ↦ simp e refl
  ]

  -- How the buffer is filled behind the skip, from a state `t`.
  fill_lem :
      (wanted skipped : ℕ) (s t : AudioOutput R)
      → let queued = laws.contents s.queue in
        let filled = length queued - skipped in
        laws.contents t.queue ≡ drop skipped queued
        → t.prebuffering ≡ s.prebuffering
        → skipped ≡ skip_of (length queued)
        → Plays wanted s (fill ring wanted filled t).1 (fill ring wanted filled t).0
  unfolding fill
  fill_lem wanted skipped s t rest same is =
      let queued = laws.contents s.queue in
      let filled = length queued - skipped in
      let copied = min filled wanted / stride * stride in
      let whole : skipped % stride ≡ 0 = ap (λ n. n % stride) is ∙ skip_whole (length queued) in
      let few : filled ≤ max_bytes = omega (arith, is, skip_enough (length queued)) in
      let size = ap length rest ∙ length-drop skipped queued in
      let fits : copied ≤ length (laws.contents t.queue) = omega (arith, size) in
      let drops = laws.advance_drops copied t.queue fits in
      let keeps = drops ∙ ap (drop copied) rest in
      let left = ap length drops ∙ length-drop copied (laws.contents t.queue) in
      let out =
        ap (λ xs. xs ++ replicate (wanted - copied) 0)
          (laws.peek_reads copied t.queue fits ∙ ap (take copied) rest) in
      elim (Bool-cases (not t.prebuffering || leb target_bytes filled)) [
        | inr e ↦ simp e (record {
          skipped = skipped;
          copied = 0;
          skipped_whole = whole;
          copied_whole = omega arith;
          copied_fits = omega arith;
          skipped_backlog = is;
          plays = ap (λ n. replicate n 0) {y = wanted - 0} (omega arith);
          keeps = rest;
          short = omega (arith, size);
          starts = λ h. absurd (ground arith);
          waits = λ h low. (refl, same ∙ h);
        })
        | inl e ↦ elim (Bool-cases (ltb copied wanted)) [
          | inl dry ↦
              simp (e, dry)
                (record {
                  skipped = skipped;
                  copied = copied;
                  skipped_whole = whole;
                  copied_whole = omega arith;
                  copied_fits = omega arith;
                  skipped_backlog = is;
                  plays = out;
                  keeps = keeps;
                  short = omega (arith, left, size);
                  starts = λ h. (refl, sym dry);
                  waits = λ h low. absurd (ground arith);
                })
          | inr full ↦
              simp (e, full)
                (record {
                  skipped = skipped;
                  copied = copied;
                  skipped_whole = whole;
                  copied_whole = omega arith;
                  copied_fits = omega arith;
                  skipped_backlog = is;
                  plays = out;
                  keeps = keeps;
                  short = omega (arith, left, size);
                  starts = λ h. (refl, sym full);
                  waits = λ h low. absurd (ground arith);
                })
        ]
      ]

  prebuffering-trim :
      (filled : ℕ) (s : AudioOutput R) → (trim ring filled s).prebuffering ≡ s.prebuffering
  unfolding trim
  prebuffering-trim filled s = ground arith

  Plays-length :
      {wanted : ℕ} {s s' : AudioOutput R} {out : Bytes}
      → Plays wanted s s' out
      → length out ≤ wanted
  Plays-length {wanted} {s} p =
      let behind = drop p.skipped (laws.contents s.queue) in
      omega (
        arith,
        ap length p.plays,
        length-append (take p.copied behind) (replicate (wanted - p.copied) 0),
        length-take p.copied behind,
        length-replicate {A = ℕ} (wanted - p.copied) 0,
        p.copied_fits,
      )

  -- Each buffer that PipeWire hands over is filled with what was queued, in order and in whole frames.
  -- Only a backlog longer than MAX_BYTES has bytes passed over, at its front. Once playing, or with
  -- the prebuffer full, all whole frames that are queued and wanted are played, with silence behind
  -- them, and prebuffering begins again exactly when they are too few; before that only silence is
  -- played and nothing is taken. The rest stays queued, at most MAX_BYTES of it, and the buffer is not
  -- overrun.
  pub play-Plays :
      (b : Buffer) (s : AudioOutput R)
      → Plays (wanted_of b) s (play ring b s).1 (play ring b s).0
        × (length (play ring b s).0 ≤ b.maxsize)
  unfolding play
  play-Plays b s =
      let filled = at_least_zero (ring.filled s.queue) in
      let size : filled ≡ length (laws.contents s.queue) =
        ap at_least_zero (laws.filled_is s.queue) in
      let plays =
        fill_lem (wanted_of b) (skip_of filled) s (trim ring filled s) (trim_lem filled s size)
          (prebuffering-trim filled s) (ap skip_of size) in
      let given =
        subst
          (λ n.
            Plays (wanted_of b) s
              (fill ring (wanted_of b) (n - skip_of filled) (trim ring filled s)).1
              (fill ring (wanted_of b) (n - skip_of filled) (trim ring filled s)).0)
          (sym size) plays in
      (given, omega (arith, Plays-length given, wanted_fits b))

  -- A packet is queued behind what is there, or, where the ring has no room for it, dropped and counted,
  -- with what is queued left as it is.
  pub audio_frame_available_lem :
      (audio : Bytes) (s : AudioOutput R)
      → let s' = audio_frame_available ring audio s in
        ((length (laws.contents s.queue) + length audio ≤ ring_bytes)
          × (laws.contents s'.queue ≡ laws.contents s.queue ++ audio)
          × (s'.dropped_packets ≡ s.dropped_packets))
        ⊎ ((ring_bytes < length (laws.contents s.queue) + length audio)
            × (s'.queue ≡ s.queue)
            × (s'.dropped_packets ≡ (s.dropped_packets + 1) % 2 ^ 64))
  unfolding audio_frame_available
  audio_frame_available_lem audio s =
      let n = length (laws.contents s.queue) + length audio in
      let test = ap (λ z. is_full z (length audio)) (laws.filled_is s.queue) in
      elim (Bool-cases (ltb ring_bytes n)) [
        | inl e ↦ simp (test ∙ e) (inr (ground arith, refl, refl))
        | inr e ↦
            simp (test ∙ e) (inl (ground arith, laws.write_adds audio s.queue (ground arith), refl))
      ]
