-- ===== src/AudioGate/Sample.antt =====
-- The sample arithmetic of `AudioGate::process` (src/liblgx/src/AudioGate.cpp): the casts to
-- int16_t and the multiplication by the gain.
use lgx2userspace.Prelude.{ℕ, ◌+◌, ◌*◌, ◌/◌, ◌%◌, ◌≤◌, ◌<◌, ◌≡◌, arith, Bytes, get_or}
use lgx2userspace.Prelude.Int.{ℤ, pos, negsuc}
use lgx2userspace.AudioGate.{sample_of, scale, word_of, scale_sample, ramp_frames}

-- The absolute value of a sample.
abbrev pub magnitude : ℤ → ℕ
magnitude (pos n) = n
magnitude (negsuc n) = n + 1

-- A sample fits `int16_t`.
abbrev pub IsSample : ℤ → Type 0
IsSample (pos n) = n < 32768
IsSample (negsuc n) = n < 32768

abbrev pub SameSign : ℤ → ℤ → Type 0
SameSign (pos m) (pos n) = Unit
SameSign (pos m) (negsuc n) = m ≡ 0
SameSign (negsuc m) (pos n) = ⊥
SameSign (negsuc m) (negsuc n) = Unit

pub sample_of-IsSample : (lo hi : ℕ) → lo < 256 → hi < 256 → IsSample (sample_of lo hi)
unfolding sample_of
sample_of-IsSample lo hi hl hh = ground arith

scaled_le : (n ramp : ℕ) → ramp ≤ 480 → n * ramp / 480 ≤ n
scaled_le n ramp h = let product : n * ramp ≤ n * 480 = grind arith in omega arith

pub scale_bounds :
    (s : ℤ) (ramp : ℕ)
    → ramp ≤ ramp_frames
    → (magnitude (scale s ramp) ≤ magnitude s) × SameSign (scale s ramp) s
unfolding scale
scale_bounds (pos n) ramp h = (scaled_le n ramp h, tt)
scale_bounds (negsuc n) ramp h = ground (arith, scaled_le (n + 1) ramp h)

word_of-IsSample : (s : ℤ) → IsSample s → sample_of (word_of s % 256) ((word_of s / 256) % 256) ≡ s
unfolding word_of sample_of
word_of-IsSample (pos n) h = ground arith
word_of-IsSample (negsuc n) h = ground arith

scale-IsSample : (s : ℤ) (ramp : ℕ) → ramp ≤ ramp_frames → IsSample s → IsSample (scale s ramp)
unfolding scale
scale-IsSample (pos n) ramp h k = omega (arith, scaled_le n ramp h)
scale-IsSample (negsuc n) ramp h k = ground (arith, scaled_le (n + 1) ramp h)

abbrev pub byte : Bytes → ℕ → ℕ
byte b i = get_or b i 0

-- Two bytes of a sample are replaced by two bytes (below 256) that read back as the scaled sample
-- exactly, so neither cast to int16_t loses anything; the scaled sample is no larger in magnitude
-- than the sample and does not change its sign, for a gain of at most RAMP_FRAMES.
pub scale_sample_lem :
    (ramp lo hi : ℕ)
    → ramp ≤ ramp_frames
    → lo < 256
    → hi < 256
    → (sample_of (byte (scale_sample ramp lo hi) 0) (byte (scale_sample ramp lo hi) 1)
        ≡ scale (sample_of lo hi) ramp)
      × (magnitude (scale (sample_of lo hi) ramp) ≤ magnitude (sample_of lo hi))
      × SameSign (scale (sample_of lo hi) ramp) (sample_of lo hi)
      × (byte (scale_sample ramp lo hi) 0 < 256)
      × (byte (scale_sample ramp lo hi) 1 < 256)
unfolding scale_sample
scale_sample_lem ramp lo hi h hl hh = (
  word_of-IsSample _ (scale-IsSample _ ramp h (sample_of-IsSample lo hi hl hh)),
  (scale_bounds (sample_of lo hi) ramp h).0,
  (scale_bounds (sample_of lo hi) ramp h).1,
  omega arith,
  omega arith,
)
