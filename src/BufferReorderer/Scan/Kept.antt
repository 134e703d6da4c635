-- ===== src/BufferReorderer/Scan/Kept.antt =====
-- What `BufferReorderer::scan` of src/liblgx/src/BufferReorderer.cpp leaves alone.
use lgx2userspace.Prelude.{
  ℕ, zero, suc, ◌+◌, ◌-◌, ◌≡◌, refl, ◌∙◌, inl, inr, Option, none, some, arith, ltb, Bool-cases,
  dec_lt,
}
use lgx2userspace.BufferReorderer.{BufferReorderer, marker_span}
use lgx2userspace.BufferReorderer.Scan.{
  at, expire, inspect, advance, scan_round, scan_loop, scan, stop_at, find_zero,
}
use lgx2userspace.BufferReorderer.Scan.Ends.{inspect_cases, scan_on, scan_over}

-- The scan reads the pipe and leaves it alone.
abbrev pub PipeKept : BufferReorderer → BufferReorderer → Type 0
PipeKept b b' = (b'.pipe ≡ b.pipe) × (b'.pipe_start ≡ b.pipe_start)

pub expire-pipe : (dma : ℕ) (b : BufferReorderer) → PipeKept b (expire dma b)
unfolding expire
expire-pipe dma b = ground arith

inspect-pipe : (p : ℕ) (b : BufferReorderer) → PipeKept b (inspect p b)
inspect-pipe p b = elim (inspect_cases p b) [
  | inl e ↦ rw e (refl, refl)
  | inr (inl e) ↦ rw e (ground arith)
  | inr (inr (pending, e)) ↦ rw e (refl, refl)
]

advance-pipe :
    (stop : ℕ) (found : Option ℕ) (b : BufferReorderer) → PipeKept b (advance stop found b)
advance-pipe stop none b = (refl, refl)
advance-pipe stop (some i) b = inspect-pipe (b.pipe_start + i) b

pub round-pipe : (dma limit : ℕ) (b : BufferReorderer) → PipeKept b (scan_round dma limit b)
unfolding scan_round
round-pipe dma limit b =
    let b' : BufferReorderer = expire dma b in
    let stop : ℕ = stop_at dma limit b' in
    let (bytes, start) = expire-pipe dma b in
    let (bytes', start') =
      advance-pipe stop (find_zero b'.pipe (at b'.scan_offset b') (stop - b'.scan_offset)) b' in
    (bytes' ∙ bytes, start' ∙ start)

pub loop-pipe : (fuel dma limit : ℕ) (b : BufferReorderer) → PipeKept b (scan_loop fuel dma limit b)
loop-pipe zero dma limit b = unfold scan_loop in (refl, refl)
loop-pipe (suc fuel) dma limit b = elim (dec_lt b.scan_offset limit) [
  | no over ↦ rw (scan_over (suc fuel) dma limit b (omega arith)) (refl, refl)
  | yes on ↦ rw (scan_on fuel dma limit b on) (
      let (bytes, start) = round-pipe dma limit b in
      let (bytes', start') = loop-pipe fuel dma limit (scan_round dma limit b) in
      (bytes' ∙ bytes, start' ∙ start))
]

pub scan-pipe : (dma : ℕ) (b : BufferReorderer) → PipeKept b (scan dma b)
unfolding scan
scan-pipe dma b = elim (Bool-cases (ltb b.in_offset marker_span)) [
  | inl short ↦ simp short (refl, refl)
  | inr enough ↦ simp enough (
      let limit : ℕ = b.in_offset - marker_span + 1 in
      let (bytes, start) = loop-pipe (limit - b.scan_offset) dma limit b in
      let (bytes', start') = expire-pipe dma (scan_loop (limit - b.scan_offset) dma limit b) in
      (bytes' ∙ bytes, start' ∙ start))
]
