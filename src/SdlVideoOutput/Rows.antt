-- ===== src/SdlVideoOutput/Rows.antt =====
-- Which rows of a frame are shown by src/liblgx/liblgx-sdl/src/sdl/SdlVideoOutput.cpp.
use lgx2userspace.Prelude.{
  ℕ, zero, suc, ◌+◌, ◌*◌, ◌/◌, ◌<◌, ◌≡◌, ap, ◌∙◌, ◌&&◌, inl, inr, arith, ltb, leb, ◌==◌,
  if◌then◌else◌, Bool-cases,
}
use lgx2userspace.SdlVideoOutput.{
  VideoScale, full, half, quarter, Pixels, store, source_index, buffer_index, buffer_width,
  buffer_height, sample_row, sample_rows, scaled_buffer, pitch, SdlVideoOutput,
  video_frame_available, Upload, texture_width, texture_height,
}

-- Every read of the loops is inside the frame, and every write inside the buffer.
pub samples_inside :
    (scale : VideoScale) (x y : ℕ)
    → x < buffer_width scale
    → y < buffer_height scale
    → (source_index scale y x < 960 * 1080)
      × (buffer_index scale y x < buffer_width scale * buffer_height scale)
samples_inside full x y hx hy = (omega arith, omega arith)
samples_inside half x y hx hy = (omega arith, omega arith)
samples_inside quarter x y hx hy = (omega arith, omega arith)

module _ (image : Pixels) where
  -- At half scale the writes take each second macropixel of the frame, one behind the other.
  half_row :
      (n x y : ℕ) (buf : Pixels) (k : ℕ)
      → sample_row half image n x y buf k
        ≡ (if leb (y * 960 + x) k && ltb k (y * 960 + x + n) then image (2 * k) else buf k)
  unfolding sample_row
  half_row zero x y buf k = ground arith
  half_row (suc n) x y buf k =
      half_row n (x + 1) y (store (y * 960 + x) (image (y * 2 * 960 + x * 2)) buf) k
      ∙ elim (Bool-cases (k == y * 960 + x)) [
        | inl e ↦
            simp e (ground (arith, ap image {x = y * 2 * 960 + x * 2} {y = 2 * k} (ground arith)))
        | inr e ↦ simp e (ground arith)
      ]

  half_rows :
      (n y : ℕ) (buf : Pixels) (k : ℕ)
      → sample_rows half image n y buf k
        ≡ (if leb (y * 960) k && ltb k (y * 960 + n * 960) then image (2 * k) else buf k)
  unfolding sample_rows
  half_rows zero y buf k = ground arith
  half_rows (suc n) y buf k =
      half_rows n (y + 1) (sample_row half image 960 0 y buf) k
      ∙ ground (arith, half_row 960 0 y buf k)

  -- At half scale the texture's row shows the frame's row of the same number, for each of its 540 rows:
  -- only the upper half of the frame is shown, at every second macropixel. `SDL_UpdateTexture` is
  -- taken to copy each row from where the pitch puts it, with four bytes in a macropixel.
  pub half_shows_upper :
      (upload : Upload) (s : SdlVideoOutput) (row column : ℕ)
      → ((buf : Pixels) (p r c : ℕ) → upload buf p r c ≡ buf (r * (p / 4) + c))
      → s.target_scale ≡ half
      → row < texture_height half
      → column < texture_width half / 2
      → (video_frame_available upload image s).texture row column ≡ image (row * 960 + 2 * column)
  unfolding video_frame_available scaled_buffer
  half_shows_upper upload s row column copies at_half hr hc =
      let k = row * 480 + column in
      simp at_half (
        copies (scaled_buffer half image) (pitch half) row column
        ∙ half_rows 540 0 (λ i. 0) k
        ∙ ground (arith, ap image {x = 2 * k} {y = row * 960 + 2 * column} (omega arith)))
