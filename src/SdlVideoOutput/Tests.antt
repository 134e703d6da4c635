-- ===== src/SdlVideoOutput/Tests.antt =====
-- Runs of src/liblgx/liblgx-sdl/src/sdl/SdlVideoOutput.cpp on a frame whose macropixels are their indices.
use lgx2userspace.Prelude.{◌+◌, ◌*◌, ◌/◌, ◌≡◌, refl, false, arith}
use lgx2userspace.CapturePipeline.{signal}
use lgx2userspace.SdlVideoOutput.{half, SdlVideoOutput, video_frame_available, Upload}
use lgx2userspace.SdlVideoOutput.Rows.{half_shows_upper}

abbrev output : SdlVideoOutput
output = record {
  target_scale = half;
  no_signal = false;
  no_signal_reason = signal;
  texture = λ row column. 0;
}

-- Row `r` is at `r` times the pitch.
abbrev upload : Upload
upload buf p r c = buf (r * (p / 4) + c)

-- The last row of the texture is row 539 of the frame, and not row 1078.
half_shows_upper_example :
    (video_frame_available upload (λ i. i) output).texture 539 1 ≡ 539 * 960 + 2 * 1
half_shows_upper_example =
    half_shows_upper (λ i. i) upload output 539 1 (λ buf p r c. refl) refl (omega arith)
      (omega arith)
