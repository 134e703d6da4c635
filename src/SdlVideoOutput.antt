-- ===== src/SdlVideoOutput.antt =====
-- src/liblgx/liblgx-sdl/src/sdl/SdlVideoOutput.h and SdlVideoOutput.cpp: how a frame becomes the texture
-- that is shown, at each scale. A frame is an array of the 960 * 1080 macropixels of two pixels each, as
-- a function of the index; `SDL_UpdateTexture` is a parameter. The window and the screen that is drawn without a signal are SDL's.
pub mod Rows
mod Tests
use lgx2userspace.Prelude.{ℕ, zero, suc, ◌+◌, ◌*◌, ◌/◌, Bool, true, false, ◌==◌, if◌then◌else◌}
use lgx2userspace.CapturePipeline.{InputState, signal}

-- `VideoScale`
pub data VideoScale : Type 0 where
  full half quarter : VideoScale

abbrev pub frame_width : ℕ
frame_width = 1920

abbrev pub frame_height : ℕ
frame_height = 1080

-- The width and the height that `initialiseVideo` makes the texture with.
abbrev pub texture_width : VideoScale → ℕ
texture_width full = frame_width
texture_width half = frame_width / 2
texture_width quarter = frame_width / 4

abbrev pub texture_height : VideoScale → ℕ
texture_height full = frame_height
texture_height half = frame_height / 2
texture_height quarter = frame_height / 4

-- `texW`, `texH` and `step` of `videoFrameAvailable`.
abbrev pub buffer_width : VideoScale → ℕ
buffer_width full = 960
buffer_width half = 960
buffer_width quarter = 480

abbrev pub buffer_height : VideoScale → ℕ
buffer_height full = 1080
buffer_height half = 540
buffer_height quarter = 270

abbrev pub sample_step : VideoScale → ℕ
sample_step full = 1
sample_step half = 2
sample_step quarter = 4

-- An array of macropixels.
abbrev pub Pixels : Type 0
Pixels = ℕ → ℕ

abbrev pub store : ℕ → ℕ → Pixels → Pixels
store i v buf k = if k == i then v else buf k

-- The index that is read for the pixel (x, y) of the buffer, and the one that is written.
abbrev pub source_index : VideoScale → ℕ → ℕ → ℕ
source_index scale y x = y * sample_step scale * 960 + x * sample_step scale

abbrev pub buffer_index : VideoScale → ℕ → ℕ → ℕ
buffer_index scale y x = y * buffer_width scale + x

module _ (scale : VideoScale) (image : Pixels) where
  -- The inner loop, with `n` rounds left from `x` on.
  unfoldable pub sample_row : ℕ → ℕ → ℕ → Pixels → Pixels
  sample_row zero x y buf = buf
  sample_row (suc n) x y buf =
      sample_row n (x + 1) y (store (buffer_index scale y x) (image (source_index scale y x)) buf)

  -- The outer loop, with `n` rounds left from `y` on.
  unfoldable pub sample_rows : ℕ → ℕ → Pixels → Pixels
  sample_rows zero y buf = buf
  sample_rows (suc n) y buf = sample_rows n (y + 1) (sample_row (buffer_width scale) 0 y buf)

-- The buffer that `videoFrameAvailable` uploads; at full scale that is the frame.
unfoldable pub scaled_buffer : VideoScale → Pixels → Pixels
scaled_buffer full image = image
scaled_buffer half image = sample_rows half image (buffer_height half) 0 (λ i. 0)
scaled_buffer quarter image = sample_rows quarter image (buffer_height quarter) 0 (λ i. 0)

-- The pitch that is given to `SDL_UpdateTexture`, in bytes.
abbrev pub pitch : VideoScale → ℕ
pitch full = 1920 * 2
pitch half = buffer_width half * 2
pitch quarter = buffer_width quarter * 2

-- `SDL_UpdateTexture` of the whole texture, from an array and a pitch in bytes: the macropixel at each
-- row and column.
abbrev pub Upload : Type 0
Upload = Pixels → ℕ → ℕ → ℕ → ℕ

-- `SdlVideoOutput`: the texture as the macropixel at a row and a column.
pub record SdlVideoOutput : Type 0 where
  pub target_scale : VideoScale
  pub no_signal : Bool
  pub no_signal_reason : InputState
  pub texture : ℕ → ℕ → ℕ

-- `videoFrameAvailable`
unfoldable pub video_frame_available : Upload → Pixels → SdlVideoOutput → SdlVideoOutput
video_frame_available upload image s = record s {
  no_signal = false;
  texture = upload (scaled_buffer s.target_scale image) (pitch s.target_scale);
}

-- `initialiseVideo`, with an empty texture.
unfoldable pub initialise_video : VideoScale → SdlVideoOutput → SdlVideoOutput
initialise_video scale s = record s { target_scale = scale; texture = λ row column. 0 }

-- `showNoSignal`
unfoldable pub show_no_signal : InputState → SdlVideoOutput → SdlVideoOutput
show_no_signal reason s = record s { no_signal = true; no_signal_reason = reason }
