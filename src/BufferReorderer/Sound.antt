-- ===== src/BufferReorderer/Sound.antt =====
-- `BufferReorderer::feed` of src/liblgx/src/BufferReorderer.cpp: the offsets and the pipe over a whole
-- call.
use lgx2userspace.Prelude.{
  ℕ, ◌+◌, ◌-◌, ◌%◌, ◌^◌, ◌≤◌, ◌<◌, ◌≡◌, refl, sym, ap, ◌∙◌, Bool, true, false, inl, inr, [], ◌++◌,
  arith, ltb, ◌==◌, if◌then◌else◌, Bytes, Bool-cases, length, drop, length-append, length-drop,
  dec_le, subst, ◌∷◌, append-nil, drop-drop, drop-length, drop-append_left,
}
use lgx2userspace.BufferReorderer.{BufferReorderer, initial, reset, flush_out, pair_bytes}
use lgx2userspace.BufferReorderer.Scan.{scan}
use lgx2userspace.BufferReorderer.Scan.Ends.{
  Ascending, Bounds, InOrder, Decides, scan-Decides, undecided,
}
use lgx2userspace.BufferReorderer.Scan.Kept.{scan-pipe}
use lgx2userspace.BufferReorderer.Emit.{emit, hold_back, drop_sent, settle, feed_chunk, feed}
use lgx2userspace.BufferReorderer.Emit.Ends.{scan_part, Emitted, emit-Emitted, emit_over}

-- What has been fed in all is `input`: the offsets are in order, the pipe is what follows the output in
-- it, and it is short.
pub record IsSound (dma : ℕ) (input : Bytes) (b : BufferReorderer) : Type 0 where
  pub in_order : InOrder b
  pub start : b.pipe_start ≡ b.out_offset
  pub fed : b.in_offset ≡ length input
  pub pending : b.pipe ≡ drop b.pipe_start input
  pub whole : b.pipe_start + length b.pipe ≡ b.in_offset
  pub short : length b.pipe < hold_back dma + pair_bytes dma

initial-IsSound : (dma : ℕ) → IsSound dma [] initial
initial-IsSound dma = record {
  in_order = record { start_out = omega arith; bounds = omega arith };
  start = refl;
  fed = refl;
  pending = refl;
  whole = refl;
  short = omega arith;
}

-- `flush_out` touches what goes out only.
flush-IsSound :
    (dma : ℕ) (input : Bytes) (b : BufferReorderer)
    → IsSound dma input b
    → IsSound dma input (flush_out b)
unfolding flush_out
flush-IsSound dma input b w = elim (Bool-cases (length b.out == 0)) [
  | inl e ↦ simp e w
  | inr e ↦ simp e (record {
    in_order = record { start_out = w.in_order.start_out; bounds = w.in_order.bounds };
    start = w.start;
    fed = w.fed;
    pending = w.pending;
    whole = w.whole;
    short = w.short;
  })
]

reset-IsSound :
    (dma : ℕ) (input : Bytes) (b : BufferReorderer)
    → b.in_offset ≡ length input
    → IsSound dma input (reset b)
unfolding reset
reset-IsSound dma input b fed = record {
  in_order = record { start_out = omega arith; bounds = omega arith };
  start = refl;
  fed = fed;
  pending = sym (ap (λ n. drop n input) fed ∙ drop-length input);
  whole = omega arith;
  short = omega arith;
}

bounds-Ascending :
    (b : BufferReorderer) → InOrder b → Ascending b.out_offset b.observations (undecided b)
bounds-Ascending b w = elim (Bool-cases b.pending_sav) [
  | inl e ↦ rw e ((rw e at w.bounds).0)
  | inr e ↦ rw e (rw e at w.bounds)
]

-- What is in the pipe.
abbrev IsRest : Bytes → BufferReorderer → Type 0
IsRest input b = (b.in_offset ≡ length input) × (b.pipe ≡ drop b.pipe_start input)

-- Before the hold-back is reached, nothing goes out.
early-IsSound :
    (dma : ℕ) (input : Bytes) (b : BufferReorderer)
    → InOrder b
    → b.pipe_start ≡ b.out_offset
    → b.pipe_start + length b.pipe ≡ b.in_offset
    → IsRest input b
    → 0 < dma
    → b.in_offset ≤ hold_back dma
    → IsSound dma input b
early-IsSound dma input b w start whole rest some_bytes early = record {
  in_order = w;
  start = start;
  fed = rest.0;
  pending = rest.1;
  whole = whole;
  short = omega arith;
}

Bounds-from :
    (b b' : BufferReorderer)
    → scan_part b' ≡ scan_part b
    → InOrder b
    → Ascending b'.out_offset b'.observations (undecided b)
    → Bounds b'.pending_sav b'.pending_sav_offset b'.scan_offset b'.out_offset b'.observations
Bounds-from b b' kept w a =
    let scan' : b'.scan_offset ≡ b.scan_offset = ap (λ k. k.3) kept in
    let pending : b'.pending_sav ≡ b.pending_sav = ap (λ k. k.4) kept in
    let sav : b'.pending_sav_offset ≡ b.pending_sav_offset = ap (λ k. k.5) kept in
    elim (Bool-cases b.pending_sav) [
      | inl e ↦ rw (pending ∙ e, scan', sav) ((rw e at a), (rw e at w.bounds).1)
      | inr e ↦ rw (pending ∙ e, scan') (rw e at a)
    ]

dropped-IsSound :
    (dma : ℕ) (input : Bytes) (b b' : BufferReorderer)
    → InOrder b
    → b.pipe_start ≡ b.out_offset
    → b.pipe_start + length b.pipe ≡ b.in_offset
    → IsRest input b
    → scan_part b' ≡ scan_part b
    → Ascending b'.out_offset b'.observations (undecided b)
    → b.out_offset ≤ b'.out_offset
    → b'.out_offset ≤ b.in_offset
    → b.in_offset < b'.out_offset + (hold_back dma + pair_bytes dma)
    → IsSound dma input (drop_sent b')
dropped-IsSound dma input b b' w start whole rest kept a forward within near =
    let start' : b'.pipe_start ≡ b.pipe_start = ap (λ k. k.1) kept in
    let in' : b'.in_offset ≡ b.in_offset = ap (λ k. k.2) kept in
    let size : length b'.pipe ≡ length b.pipe = ap (λ k. length k.0) kept in
    let left : length (drop (b'.out_offset - b'.pipe_start) b'.pipe)
        ≡ length b'.pipe - (b'.out_offset - b'.pipe_start) =
      length-drop (b'.out_offset - b'.pipe_start) b'.pipe in
    record {
      in_order = record { start_out = omega arith; bounds = Bounds-from b b' kept w a };
      start = refl;
      fed = in' ∙ rest.0;
      pending =
          ap (drop (b'.out_offset - b'.pipe_start)) (ap (λ k. k.0) kept ∙ rest.1)
          ∙ sym (drop-drop b.pipe_start (b'.out_offset - b'.pipe_start) input)
          ∙ ap (λ n. drop n input) (omega arith);
      whole = omega (arith, left);
      short = omega (arith, left);
    }

near :
    (dma limit high : ℕ) (b b' : BufferReorderer)
    → 0 < dma
    → hold_back dma < b.in_offset
    → Emitted dma limit high b b'
    → b.in_offset - hold_back dma ≤ limit
    → b.in_offset < b'.out_offset + (hold_back dma + pair_bytes dma)
near dma limit high b b' some_bytes late m h = elim m.done [
  | inl e ↦ omega arith
  | inr (swaps, e) ↦ omega arith
]

late-IsSound :
    (dma : ℕ) (input : Bytes) (b : BufferReorderer)
    → InOrder b
    → b.pipe_start ≡ b.out_offset
    → b.pipe_start + length b.pipe ≡ b.in_offset
    → IsRest input b
    → 0 < dma
    → b.in_offset < 2 ^ 64
    → hold_back dma < b.in_offset
    → b.in_offset ≤ undecided b + hold_back dma
    → IsSound dma input (drop_sent (emit dma (b.in_offset - hold_back dma) b))
unfolding emit
late-IsSound dma input b w start whole rest some_bytes fits late decided =
    let limit : ℕ = b.in_offset - hold_back dma in
    let a : Ascending b.out_offset b.observations (undecided b) = bounds-Ascending b w in
    elim (dec_le b.out_offset limit) [
      | no over ↦
          rw (emit_over (length b.observations + (limit - b.out_offset)) dma limit b (omega arith))
            (dropped-IsSound dma input b b w start whole rest refl a (omega arith) (omega arith)
              (omega arith))
      | yes room ↦
          let m : Emitted dma limit (undecided b) b (emit dma limit b) =
            emit-Emitted dma limit (undecided b) b some_bytes (omega arith) (omega arith) room a in
          dropped-IsSound dma input b (emit dma limit b) w start whole rest m.kept m.ascending
            m.forward (omega (arith, m.within))
            (near dma limit (undecided b) b (emit dma limit b) some_bytes late m (omega arith))
    ]

settle-IsSound :
    (dma : ℕ) (input : Bytes) (b : BufferReorderer)
    → InOrder b
    → b.pipe_start ≡ b.out_offset
    → b.pipe_start + length b.pipe ≡ b.in_offset
    → IsRest input b
    → 0 < dma
    → b.in_offset < 2 ^ 64
    → b.in_offset ≤ undecided b + hold_back dma
    → IsSound dma input (settle dma b)
settle-IsSound dma input b w start whole rest some_bytes fits decided =
    elim (Bool-cases (ltb (hold_back dma) b.in_offset)) [
      | inl late ↦
          simp late
            (late-IsSound dma input b w start whole rest some_bytes fits (ground arith) decided)
      | inr early ↦
          simp early (early-IsSound dma input b w start whole rest some_bytes (ground arith))
    ]

-- A chunk comes in, is scanned and settled.
arrive-IsSound :
    (dma : ℕ) (input chunk : Bytes) (b : BufferReorderer)
    → 0 < dma
    → b.in_offset + length chunk < 2 ^ 64
    → IsSound dma input b
    → IsSound dma (input ++ chunk) (feed_chunk dma chunk b)
unfolding feed_chunk
arrive-IsSound dma input chunk b some_bytes fits w =
    let arrived : BufferReorderer = record b {
      pipe = b.pipe ++ chunk;
      in_offset = (b.in_offset + length chunk) % 2 ^ 64;
    } in
    let d : Decides dma arrived (scan dma arrived) =
      scan-Decides dma arrived
        (record { start_out = w.in_order.start_out; bounds = w.in_order.bounds }) in
    let (bytes, start) = scan-pipe dma arrived in
    let size : length (b.pipe ++ chunk) ≡ length b.pipe + length chunk =
      length-append b.pipe chunk in
    let total : (b.in_offset + length chunk) % 2 ^ 64 ≡ b.in_offset + length chunk = omega arith in
    let held : b.pipe ++ chunk ≡ drop b.pipe_start (input ++ chunk) =
      ap (λ xs. xs ++ chunk) w.pending
      ∙ sym (drop-append_left b.pipe_start input chunk (omega (arith, w.whole, w.fed))) in
    flush-IsSound dma (input ++ chunk) (settle dma (record (scan dma arrived) { out = [] })) (
      settle-IsSound dma (input ++ chunk) (record (scan dma arrived) { out = [] })
        (record { start_out = d.in_order.start_out; bounds = d.in_order.bounds })
        (start ∙ w.start ∙ sym d.out_kept)
        (omega (arith, start, ap length bytes, size, total, w.whole, d.in_kept))
        (
          d.in_kept ∙ total ∙ ap (λ n. n + length chunk) w.fed ∙ sym (length-append input chunk),
          bytes ∙ held ∙ ap (λ n. drop n (input ++ chunk)) (sym start),
        )
        some_bytes (omega (arith, total, d.in_kept)) (omega (arith, d.decided, d.in_kept)))

reset_if-IsSound :
    (dma : ℕ) (input : Bytes) (gapped : Bool) (b : BufferReorderer)
    → IsSound dma input b
    → IsSound dma input (if gapped then reset b else b)
reset_if-IsSound dma input true b w = reset-IsSound dma input b w.fed
reset_if-IsSound dma input false b w = w

reset_in :
    (gapped : Bool) (b : BufferReorderer) → (if gapped then reset b else b).in_offset ≡ b.in_offset
unfolding reset
reset_in gapped b = ground arith

-- Every call of `feed`, gapped or not and whatever its bytes are, ends with the offsets in order. If
-- `input` is all that was fed before, the pipe then holds what follows the output in `input ++ chunk`,
-- byte for byte, and less than the hold-back and one buffer pair of it. The total of the bytes fed
-- must fit its 64 bits.
pub feed-IsSound :
    (dma : ℕ) (input chunk : Bytes) (gapped : Bool) (b : BufferReorderer)
    → 0 < dma
    → b.in_offset + length chunk < 2 ^ 64
    → IsSound dma input b
    → IsSound dma (input ++ chunk) (feed dma chunk gapped b)
unfolding feed
feed-IsSound dma input chunk gapped b some_bytes fits w =
    let b' : BufferReorderer = if gapped then reset b else b in
    let w' : IsSound dma input b' = reset_if-IsSound dma input gapped b w in
    let same : b'.in_offset ≡ b.in_offset = reset_in gapped b in
    elim (Bool-cases (length chunk == 0)) [
      | inl e ↦ simp e (
          subst (λ xs. IsSound dma xs b')
            (sym (ap (λ xs. input ++ xs) (no_bytes chunk e) ∙ append-nil input)) w')
      | inr e ↦ simp e (arrive-IsSound dma input chunk b' some_bytes (omega arith) w')
    ]
  where
    no_bytes : (xs : Bytes) → (length xs == 0) ≡ true → xs ≡ []
    no_bytes [] h = refl
    no_bytes (x ∷ xs) h = absurd (ground arith)
