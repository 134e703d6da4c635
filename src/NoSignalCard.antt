-- ===== src/NoSignalCard.antt =====
-- src/liblgx/src/NoSignalCard.h and NoSignalCard.cpp: the frame that tells why there is no picture. A text
-- is a list of character codes, and a frame is its bytes as a function of the index. The texts are at
-- most 26 characters long, so that they fit the width and no subtraction goes below 0.
pub mod Inside
pub mod Cached
mod Tests
use lgx2userspace.Prelude.{
  ℕ, zero, suc, ◌+◌, ◌-◌, ◌*◌, ◌/◌, ◌%◌, ◌^◌, Bool, true, false, not, ◌||◌, Option, none, some,
  List, [], ◌∷◌, ◌++◌, ◌==◌, if◌then◌else◌, length, get_or,
}
use lgx2userspace.CapturePipeline.{
  InputState, signal, no_signal, no_cable, protected, no_device, same_state, is_signal,
}

-- WIDTH, HEIGHT, SCALE and CELL
abbrev pub width : ℕ
width = 1920

abbrev pub height : ℕ
height = 1080

abbrev pub scale : ℕ
scale = 12

abbrev pub cell : ℕ
cell = 72

abbrev pub frame_bytes : ℕ
frame_bytes = width * height * 2

-- BACKGROUND_Y, TEXT_Y and NEUTRAL_C
abbrev pub background_y : ℕ
background_y = 0x20

abbrev pub text_y : ℕ
text_y = 0xEB

abbrev pub neutral_c : ℕ
neutral_c = 0x80

-- GLYPHS: the seven rows of each character.
abbrev pub glyphs : List (ℕ × List ℕ)
glyphs =
    ((b'A', 0x0E ∷ 0x11 ∷ 0x11 ∷ 0x1F ∷ 0x11 ∷ 0x11 ∷ 0x11 ∷ [])
      ∷ (b'B', 0x1E ∷ 0x11 ∷ 0x11 ∷ 0x1E ∷ 0x11 ∷ 0x11 ∷ 0x1E ∷ [])
      ∷ (b'C', 0x0E ∷ 0x11 ∷ 0x10 ∷ 0x10 ∷ 0x10 ∷ 0x11 ∷ 0x0E ∷ [])
      ∷ (b'D', 0x1E ∷ 0x11 ∷ 0x11 ∷ 0x11 ∷ 0x11 ∷ 0x11 ∷ 0x1E ∷ [])
      ∷ (b'E', 0x1F ∷ 0x10 ∷ 0x10 ∷ 0x1E ∷ 0x10 ∷ 0x10 ∷ 0x1F ∷ [])
      ∷ (b'G', 0x0E ∷ 0x11 ∷ 0x10 ∷ 0x17 ∷ 0x11 ∷ 0x11 ∷ 0x0F ∷ [])
      ∷ (b'H', 0x11 ∷ 0x11 ∷ 0x11 ∷ 0x1F ∷ 0x11 ∷ 0x11 ∷ 0x11 ∷ [])
      ∷ (b'I', 0x0E ∷ 0x04 ∷ 0x04 ∷ 0x04 ∷ 0x04 ∷ 0x04 ∷ 0x0E ∷ [])
      ∷ (b'L', 0x10 ∷ 0x10 ∷ 0x10 ∷ 0x10 ∷ 0x10 ∷ 0x10 ∷ 0x1F ∷ [])
      ∷ (b'M', 0x11 ∷ 0x1B ∷ 0x15 ∷ 0x15 ∷ 0x11 ∷ 0x11 ∷ 0x11 ∷ [])
      ∷ (b'N', 0x11 ∷ 0x19 ∷ 0x15 ∷ 0x13 ∷ 0x11 ∷ 0x11 ∷ 0x11 ∷ [])
      ∷ (b'O', 0x0E ∷ 0x11 ∷ 0x11 ∷ 0x11 ∷ 0x11 ∷ 0x11 ∷ 0x0E ∷ [])
      ∷ (b'P', 0x1E ∷ 0x11 ∷ 0x11 ∷ 0x1E ∷ 0x10 ∷ 0x10 ∷ 0x10 ∷ [])
      ∷ (b'R', 0x1E ∷ 0x11 ∷ 0x11 ∷ 0x1E ∷ 0x14 ∷ 0x12 ∷ 0x11 ∷ [])
      ∷ (b'S', 0x0F ∷ 0x10 ∷ 0x10 ∷ 0x0E ∷ 0x01 ∷ 0x01 ∷ 0x1E ∷ [])
      ∷ (b'T', 0x1F ∷ 0x04 ∷ 0x04 ∷ 0x04 ∷ 0x04 ∷ 0x04 ∷ 0x04 ∷ [])
      ∷ (b'U', 0x11 ∷ 0x11 ∷ 0x11 ∷ 0x11 ∷ 0x11 ∷ 0x11 ∷ 0x0E ∷ [])
      ∷ (b'V', 0x11 ∷ 0x11 ∷ 0x11 ∷ 0x11 ∷ 0x11 ∷ 0x0A ∷ 0x04 ∷ [])
      ∷ [])

-- The loop of `glyphRows`.
unfoldable pub find_glyph : ℕ → List (ℕ × List ℕ) → Option (List ℕ)
find_glyph c [] = none
find_glyph c ((d, rows) ∷ rest) =
    let later = find_glyph c rest in if d == c then some rows else later

-- `glyphRows`
abbrev pub glyph_rows : ℕ → Option (List ℕ)
glyph_rows c = find_glyph c glyphs

-- `message`
unfoldable pub message : InputState → List ℕ
message no_cable =
    b'N' ∷ b'O' ∷ b' ' ∷ b'H' ∷ b'D' ∷ b'M' ∷ b'I' ∷ b' ' ∷ b'C' ∷ b'A' ∷ b'B' ∷ b'L' ∷ b'E' ∷ []
message no_device =
    b'N' ∷ b'O' ∷ b' ' ∷ b'C' ∷ b'A' ∷ b'P' ∷ b'T' ∷ b'U' ∷ b'R' ∷ b'E' ∷ b' ' ∷ b'D' ∷ b'E' ∷ b'V'
    ∷ b'I' ∷ b'C' ∷ b'E' ∷ []
message protected =
    b'H' ∷ b'D' ∷ b'C' ∷ b'P' ∷ b' ' ∷ b'P' ∷ b'R' ∷ b'O' ∷ b'T' ∷ b'E' ∷ b'C' ∷ b'T' ∷ b'E' ∷ b'D'
    ∷ []
message signal = b'N' ∷ b'O' ∷ b' ' ∷ b'S' ∷ b'I' ∷ b'G' ∷ b'N' ∷ b'A' ∷ b'L' ∷ []
message no_signal = b'N' ∷ b'O' ∷ b' ' ∷ b'S' ∷ b'I' ∷ b'G' ∷ b'N' ∷ b'A' ∷ b'L' ∷ []

-- The rounds of a loop from `k` on, `n` of them, and the writes that they make, in order.
unfoldable pub for_each : ℕ → ℕ → (ℕ → List ℕ) → List ℕ
for_each zero k body = []
for_each (suc n) k body = body k ++ for_each n (k + 1) body

-- `left` and `top`
abbrev pub left_of : ℕ → ℕ
left_of count = (width + scale - count * cell) / 2

abbrev pub top : ℕ
top = (height - 7 * scale) / 2

-- The byte that is written for the pixel (x, y) of a font pixel of the character `i`.
abbrev pub write_index : ℕ → ℕ → ℕ → ℕ → ℕ → ℕ → ℕ
write_index left i row col y x =
    (top + row * scale + y) * width * 2 + (left + i * cell + col * scale + x) * 2

-- `rows[row] & (0x10 >> col)`
abbrev pub is_set : List ℕ → ℕ → ℕ → Bool
is_set rows row col = get_or rows row 0 / 2 ^ (4 - col) % 2 == 1

-- The loops over the pixels of a font pixel, over the columns and over the rows of a character.
unfoldable pub write_pixel : ℕ → ℕ → ℕ → ℕ → List ℕ
write_pixel left i row col =
    for_each scale 0 (λ y. for_each scale 0 (λ x. write_index left i row col y x ∷ []))

unfoldable pub write_column : List ℕ → ℕ → ℕ → ℕ → ℕ → List ℕ
write_column rows left i row col =
    if not (is_set rows row col) then [] else write_pixel left i row col

abbrev pub write_rows : Option (List ℕ) → ℕ → ℕ → List ℕ
write_rows none left i = []
write_rows (some rows) left i =
    for_each 7 0 (λ row. for_each 5 0 (λ col. write_column rows left i row col))

-- The loop over the characters, from the character `i` on.
unfoldable pub write_text : ℕ → ℕ → List ℕ → List ℕ
write_text left i [] = []
write_text left i (c ∷ text) = write_rows (glyph_rows c) left i ++ write_text left (i + 1) text

-- The bytes that `render` writes for a text, in order.
abbrev pub text_writes : List ℕ → List ℕ
text_writes text = write_text (left_of (length text)) 0 text

-- The background of `render`.
abbrev pub background : ℕ → ℕ
background k = if k % 2 == 0 then background_y else neutral_c

unfoldable pub store_all : List ℕ → (ℕ → ℕ) → ℕ → ℕ
store_all [] frame = frame
store_all (w ∷ writes) frame = store_all writes (λ k. if k == w then text_y else frame k)

-- `render`
abbrev pub render : List ℕ → ℕ → ℕ
render text = store_all (text_writes text) background

-- `NoSignalCard`
pub record NoSignalCard : Type 0 where
  pub frame : Option (ℕ → ℕ)
  pub rendered : InputState

abbrev pub shown_reason : InputState → InputState
shown_reason reason = if is_signal reason then no_signal else reason

abbrev pub render_card : InputState → (ℕ → ℕ) × NoSignalCard
render_card reason =
    (render (message reason), record { frame = some (render (message reason)); rendered = reason })

abbrev pub cached_frame : Option (ℕ → ℕ) → InputState → NoSignalCard → (ℕ → ℕ) × NoSignalCard
cached_frame none reason s = render_card reason
cached_frame (some f) reason s =
    if not (same_state reason s.rendered) then render_card reason else (f, s)

-- `frame`
unfoldable pub card_frame : InputState → NoSignalCard → (ℕ → ℕ) × NoSignalCard
card_frame reason s = cached_frame s.frame (shown_reason reason) s
