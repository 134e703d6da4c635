-- ===== src/AudioGate/Tests.antt =====
-- Runs of the gate of src/liblgx/src/AudioGate.cpp.
use lgx2userspace.Prelude.{
  ℕ, ◌<◌, ◌≤◌, ◌≡◌, refl, true, false, List, [], ◌∷◌, inl, inr, arith, Bytes, replicate,
}
use lgx2userspace.AudioGate.{
  AudioGate, initial, update, process, scale_sample, sample_of, scale, ramp_frames,
}
use lgx2userspace.AudioGate.Settle.{Report, updates, Window, opened_settled, settled_opens}
use lgx2userspace.AudioGate.Sample.{byte, magnitude, SameSign, scale_sample_lem}
use lgx2userspace.AudioGate.Ramp.{process_all, whole_frames, closed_silent}

-- The signal comes, goes, and comes back for good.
abbrev reports : List Report
reports =
    record { signal = true; at = 10 }
    ∷ record { signal = false; at = 20 }
    ∷ record { signal = true; at = 30 }
    ∷ record { signal = true; at = 500_000_030 }
    ∷ []

opens : (updates reports initial).is_open ≡ true
unfolding updates update
opens = refl

opened_settled_example : (since : ℕ) × Window reports since true
opened_settled_example = opened_settled reports opens

settled_opens_example : (updates reports initial).is_open ≡ true
settled_opens_example =
    settled_opens (record { signal = true; at = 10 } ∷ record { signal = false; at = 20 } ∷ [])
      (record { signal = true; at = 30 }) (record { signal = true; at = 500_000_030 } ∷ [])
      (omega arith, (omega arith, tt)) (refl, (refl, tt)) (inr (inl (omega arith)))

-- A gate that closes, with two frames and a byte left of the fade.
abbrev closing : AudioGate
closing = record { is_open = false; present = false; present_since = 0; ramp_position = 2 }

abbrev packet : Bytes
packet = 1 ∷ 2 ∷ 3 ∷ 4 ∷ 5 ∷ 6 ∷ 7 ∷ 8 ∷ 9 ∷ []

-- A packet of 480 whole frames.
abbrev long_packet : Bytes
long_packet = replicate 1920 7

long_frames : ramp_frames ≤ whole_frames (long_packet ∷ [])
long_frames = omega arith

closed_silent_example :
    (process packet (process_all (long_packet ∷ []) closing).0).1 ≡ replicate 9 0
closed_silent_example =
    closed_silent (long_packet ∷ []) packet closing refl (omega arith) long_frames

-- The sample -2 at half the gain.
scale_sample_lem_example :
    (sample_of (byte (scale_sample 240 254 255) 0) (byte (scale_sample 240 254 255) 1)
      ≡ scale (sample_of 254 255) 240)
    × (magnitude (scale (sample_of 254 255) 240) ≤ magnitude (sample_of 254 255))
    × SameSign (scale (sample_of 254 255) 240) (sample_of 254 255)
    × (byte (scale_sample 240 254 255) 0 < 256)
    × (byte (scale_sample 240 254 255) 1 < 256)
scale_sample_lem_example = scale_sample_lem 240 254 255 (omega arith) (omega arith) (omega arith)
