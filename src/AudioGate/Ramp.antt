-- ===== src/AudioGate/Ramp.antt =====
-- How `AudioGate::process` (src/liblgx/src/AudioGate.cpp) moves the gain, and when packets are
-- passed on untouched or as silence.
use lgx2userspace.Prelude.{
  ℕ, ◌+◌, ◌-◌, ◌/◌, ◌≤◌, min, ◌≡◌, refl, Bool, true, false, List, [], ◌∷◌, arith, if◌then◌else◌,
  Bytes, length, length-replicate, replicate,
}
use lgx2userspace.AudioGate.{
  AudioGate, ramp_frames, scale_sample, ramp_step, process_frames, process,
}

-- The ramp after `n` frames: it climbs to `ramp_frames`, or falls to 0, by one for each frame.
abbrev pub ramp_after : Bool → ℕ → ℕ → ℕ
ramp_after true n ramp = min ramp_frames (ramp + n)
ramp_after false n ramp = ramp - n

length-process_frames :
    (target ramp : ℕ) (pcm : Bytes) → length (process_frames target ramp pcm).1 ≡ length pcm
unfolding process_frames scale_sample
length-process_frames target ramp (a ∷ b ∷ c ∷ d ∷ rest) =
    omega (arith, length-process_frames target (ramp_step target ramp) rest)
length-process_frames target ramp [] = refl
length-process_frames target ramp (a ∷ []) = refl
length-process_frames target ramp (a ∷ b ∷ []) = refl
length-process_frames target ramp (a ∷ b ∷ c ∷ []) = refl

ramp-process_frames :
    (o : Bool) (ramp : ℕ) (pcm : Bytes)
    → ramp ≤ ramp_frames
    → (process_frames (if o then ramp_frames else 0) ramp pcm).0
      ≡ ramp_after o (length pcm / 4) ramp
unfolding process_frames ramp_step
ramp-process_frames true ramp (a ∷ b ∷ c ∷ d ∷ rest) h =
    ground (arith, ramp-process_frames true (ramp_step 480 ramp) rest)
ramp-process_frames false ramp (a ∷ b ∷ c ∷ d ∷ rest) h =
    ground (arith, ramp-process_frames false (ramp_step 0 ramp) rest)
ramp-process_frames true ramp _ h = ground arith
ramp-process_frames false ramp _ h = ground arith

-- `process` by the state of the gate.
process_at :
    (o : Bool) (pcm : Bytes) (g : AudioGate)
    → g.is_open ≡ o
    → g.ramp_position ≤ ramp_frames
    → (length (process pcm g).1 ≡ length pcm)
      × ((process pcm g).0
          ≡ record g { ramp_position = ramp_after o (length pcm / 4) g.ramp_position })
unfolding process
process_at true pcm g e h = ground (
  arith,
  length-process_frames 480 g.ramp_position pcm,
  ramp-process_frames true g.ramp_position pcm h,
)
process_at false pcm g e h = ground (
  arith,
  length-process_frames 0 g.ramp_position pcm,
  length-replicate {A = ℕ} (length pcm) 0,
  ramp-process_frames false g.ramp_position pcm h,
)

-- `process` keeps the length of a packet, and moves the gain by one for each whole frame of the
-- packet: up to RAMP_FRAMES while the gate is open, down to 0 while it is closed. Nothing else of
-- the gate changes.
pub process_ramp :
    (pcm : Bytes) (g : AudioGate)
    → g.ramp_position ≤ ramp_frames
    → (length (process pcm g).1 ≡ length pcm)
      × ((process pcm g).0
          ≡ record g { ramp_position = ramp_after g.is_open (length pcm / 4) g.ramp_position })
process_ramp pcm g h = process_at g.is_open pcm g refl h

-- The packets that go through the gate, and what comes out.
unfoldable pub process_all : List Bytes → AudioGate → AudioGate × List Bytes
process_all [] g = (g, [])
process_all (p ∷ ps) g =
    let (g', out) = process p g in let (g'', outs) = process_all ps g' in (g'', out ∷ outs)

abbrev pub whole_frames : List Bytes → ℕ
whole_frames [] = 0
whole_frames (p ∷ ps) = length p / 4 + whole_frames ps

process_all_closed :
    (ps : List Bytes) (g : AudioGate)
    → g.is_open ≡ false
    → g.ramp_position ≤ ramp_frames
    → (process_all ps g).0 ≡ record g { ramp_position = g.ramp_position - whole_frames ps }
unfolding process_all
process_all_closed [] g e h = ground arith
process_all_closed (p ∷ ps) g e h =
    ground (arith, process_at false p g e h, process_all_closed ps (process p g).0)

process_silent :
    (pcm : Bytes) (g : AudioGate)
    → g.is_open ≡ false
    → g.ramp_position ≡ 0
    → (process pcm g).1 ≡ replicate (length pcm) 0
unfolding process
process_silent pcm g e z = ground arith

-- Once a closed gate has let packets with RAMP_FRAMES whole frames in all fade out, every packet
-- comes out as zeros of its own length.
pub closed_silent :
    (ps : List Bytes) (pcm : Bytes) (g : AudioGate)
    → g.is_open ≡ false
    → g.ramp_position ≤ ramp_frames
    → ramp_frames ≤ whole_frames ps
    → (process pcm (process_all ps g).0).1 ≡ replicate (length pcm) 0
closed_silent ps pcm g e h enough = rw (process_all_closed ps g e h) (
    process_silent pcm (record g { ramp_position = g.ramp_position - whole_frames ps }) e
      (omega arith))

process_all_open :
    (ps : List Bytes) (g : AudioGate)
    → g.is_open ≡ true
    → g.ramp_position ≤ ramp_frames
    → (process_all ps g).0
      ≡ record g { ramp_position = min ramp_frames (g.ramp_position + whole_frames ps) }
unfolding process_all
process_all_open [] g e h = ground arith
process_all_open (p ∷ ps) g e h =
    ground (arith, process_at true p g e h, process_all_open ps (process p g).0)

process_untouched :
    (pcm : Bytes) (g : AudioGate)
    → g.is_open ≡ true
    → g.ramp_position ≡ ramp_frames
    → (process pcm g).1 ≡ pcm
unfolding process
process_untouched pcm g e z = ground arith

-- Once an open gate has let packets with RAMP_FRAMES whole frames in all fade in, every packet
-- passes through byte for byte.
pub open_untouched :
    (ps : List Bytes) (pcm : Bytes) (g : AudioGate)
    → g.is_open ≡ true
    → g.ramp_position ≤ ramp_frames
    → ramp_frames ≤ whole_frames ps
    → (process pcm (process_all ps g).0).1 ≡ pcm
open_untouched ps pcm g e h enough = rw (process_all_open ps g e h) (
    process_untouched pcm
      (record g { ramp_position = min ramp_frames (g.ramp_position + whole_frames ps) }) e
      (omega arith))
