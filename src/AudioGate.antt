-- ===== src/AudioGate.antt =====
-- src/liblgx/src/AudioGate.h and AudioGate.cpp: the gate that mutes audio without a signal.
-- A steady_clock time point is its count of nanoseconds. The clock never goes back, and `-` on ℕ
-- stops at 0, which is below SETTLE_TIME as a negative duration is: the test reads the same.
pub mod Settle
pub mod Ramp
pub mod Sample
mod Tests
use lgx2userspace.Prelude.{
  ℕ, ◌+◌, ◌-◌, ◌*◌, ◌/◌, ◌%◌, Bool, true, false, not, ◌&&◌, List, [], ◌∷◌, ◌++◌, ltb, leb, ◌==◌,
  if◌then◌else◌, Bytes, length, replicate,
}
use lgx2userspace.Prelude.Int.{ℤ, pos, negsuc}

abbrev pub channels : ℕ
channels = 2

abbrev pub ramp_frames : ℕ
ramp_frames = 480

-- 500 ms
abbrev pub settle_time : ℕ
settle_time = 500_000_000

-- The class `AudioGate`: `gain = ramp_position / ramp_frames`.
pub record AudioGate : Type 0 where
  pub is_open : Bool
  pub present : Bool
  pub present_since : ℕ
  pub ramp_position : ℕ

abbrev pub initial : AudioGate
initial = record { is_open = false; present = false; present_since = 0; ramp_position = 0 }

unfoldable pub update : Bool → ℕ → AudioGate → AudioGate
update signal_present now g =
    if not signal_present
    then record g { present = false; is_open = false }
    else (let g' : AudioGate =
          if not g.present then record g { present = true; present_since = now } else g in
        if not g'.is_open && leb settle_time (now - g'.present_since)
        then record g' { is_open = true }
        else g')

-- `static_cast<int16_t>(s[0] | (s[1] << 8))`: two bytes as a signed 16-bit number.
unfoldable pub sample_of : ℕ → ℕ → ℤ
sample_of lo hi = let w = lo + hi * 256 in if ltb w 32768 then pos w else negsuc (65536 - w - 1)

-- `static_cast<int16_t>(sample * rampPosition / RAMP_FRAMES)`: C++ division rounds towards zero.
unfoldable pub scale : ℤ → ℕ → ℤ
scale (pos n) ramp = pos (n * ramp / ramp_frames)
scale (negsuc n) ramp =
    let q = (n + 1) * ramp / ramp_frames in if q == 0 then pos 0 else negsuc (q - 1)

-- The 16-bit pattern of an integer in range, whose low and high byte are written back.
unfoldable pub word_of : ℤ → ℕ
word_of (pos n) = n % 65536
word_of (negsuc n) = 65535 - n % 65536

unfoldable pub scale_sample : ℕ → ℕ → ℕ → Bytes
unfolding sample_of scale word_of
scale_sample ramp lo hi =
    let w = word_of (scale (sample_of lo hi) ramp) in w % 256 ∷ (w / 256) % 256 ∷ []

-- One step of `_rampPosition` towards `target`.
unfoldable pub ramp_step : ℕ → ℕ → ℕ
ramp_step target ramp =
    if ltb ramp target then ramp + 1 else if ltb target ramp then ramp - 1 else ramp

-- The loop over frames of 2 * 2 bytes: the position after it, and the buffer. What is left over of
-- a frame (`byteLength / 4` leaves it out of the loop) is not touched.
unfoldable pub process_frames : ℕ → ℕ → Bytes → ℕ × Bytes
unfolding scale_sample ramp_step
process_frames target ramp (a ∷ b ∷ c ∷ d ∷ rest) =
    let ramp' = ramp_step target ramp in
    let (end, out) = process_frames target ramp' rest in
    (end, scale_sample ramp' a b ++ (scale_sample ramp' c d ++ out))
process_frames target ramp rest = (ramp, rest)

abbrev pub target_of : AudioGate → ℕ
target_of g = if g.is_open then ramp_frames else 0

-- `process`, in place: the gate after it, and the buffer.
unfoldable pub process : Bytes → AudioGate → AudioGate × Bytes
unfolding process_frames
process pcm g =
    let target = target_of g in
    if g.ramp_position == target
    then (g, if target == 0 then replicate (length pcm) 0 else pcm)
    else (let (ramp, out) = process_frames target g.ramp_position pcm in
        (record g { ramp_position = ramp }, out))
