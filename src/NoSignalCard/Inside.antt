-- ===== src/NoSignalCard/Inside.antt =====
-- Where `render` of src/liblgx/src/NoSignalCard.cpp writes.
use lgx2userspace.Prelude.{
  ℕ, zero, suc, ◌+◌, ◌*◌, ◌%◌, ◌≤◌, ◌<◌, ◌≡◌, inl, inr, Option, none, some, List, [], ◌∷◌, arith,
  Bool-cases, length, All, All-append,
}
use lgx2userspace.CapturePipeline.{InputState, signal, no_signal, no_cable, protected, no_device}
use lgx2userspace.NoSignalCard.{
  width, scale, cell, frame_bytes, message, for_each, left_of, write_index, is_set, write_pixel,
  write_column, write_rows, write_text, text_writes, glyph_rows,
}

-- A write inside the frame, to a byte of luma.
abbrev pub Luma : ℕ → Type 0
Luma w = (w < frame_bytes) × (w % 2 ≡ 0)

for_each-All :
    (P : ℕ → Type 0) (n k : ℕ) (body : ℕ → List ℕ)
    → ((j : ℕ) → j < k + n → All P (body j))
    → All P (for_each n k body)
unfolding for_each
for_each-All P zero k body h = tt
for_each-All P (suc n) k body h =
    All-append P (body k) (for_each n (k + 1) body) (h k (omega arith))
      (for_each-All P n (k + 1) body (λ j lt. h j (omega arith)))

module _ (left i : ℕ) (fits : left + i * cell + cell ≤ width + scale) where
  write_index-Luma :
      (row col y x : ℕ)
      → row < 7
      → col < 5
      → y < scale
      → x < scale
      → Luma (write_index left i row col y x)
  write_index-Luma row col y x hr hc hy hx = (omega arith, omega arith)

  write_pixel-Luma : (row col : ℕ) → row < 7 → col < 5 → All Luma (write_pixel left i row col)
  unfolding write_pixel
  write_pixel-Luma row col hr hc = for_each-All Luma scale 0 _ (λ y hy.
      for_each-All Luma scale 0 _
        (λ x hx. (write_index-Luma row col y x hr hc (omega arith) (omega arith), tt)))

  write_rows-Luma : (rows : Option (List ℕ)) → All Luma (write_rows rows left i)
  unfolding write_column
  write_rows-Luma none = tt
  write_rows-Luma (some rows) = for_each-All Luma 7 0 _ (λ row hr.
      for_each-All Luma 5 0 _ (λ col hc. elim (Bool-cases (is_set rows row col)) [
        | inl e ↦ simp e (write_pixel-Luma row col (omega arith) (omega arith))
        | inr e ↦ simp e tt
      ]))

write_text-Luma :
    (left i : ℕ) (text : List ℕ)
    → left + (i + length text) * cell ≤ width + scale
    → All Luma (write_text left i text)
unfolding write_text
write_text-Luma left i [] h = tt
write_text-Luma left i (c ∷ text) h =
    All-append Luma (write_rows (glyph_rows c) left i) (write_text left (i + 1) text)
      (write_rows-Luma left i (omega arith) (glyph_rows c))
      (write_text-Luma left (i + 1) text (omega arith))

message_fits : (reason : InputState) → length (message reason) ≤ 26
unfolding message
message_fits signal = omega arith
message_fits no_signal = omega arith
message_fits no_cable = omega arith
message_fits protected = omega arith
message_fits no_device = omega arith

-- Whatever the reason is, each byte that is written for its message lies inside the frame and is a byte
-- of luma, so that no chroma changes.
pub text_writes-Luma : (reason : InputState) → All Luma (text_writes (message reason))
text_writes-Luma reason =
    let fits = message_fits reason in
    write_text-Luma (left_of (length (message reason))) 0 (message reason) (omega (arith, fits))
