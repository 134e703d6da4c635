-- ===== src/BufferReorderer/Emit/Ends.antt =====
-- The loop of `BufferReorderer::emit` (src/liblgx/src/BufferReorderer.cpp) ends.
use lgx2userspace.Prelude.{
  ℕ, zero, suc, ◌+◌, ◌-◌, ◌^◌, ◌≤◌, ◌<◌, ◌≡◌, refl, ap, ◌∙◌, Bool, ◌⊎◌, inl, inr, Option, none,
  some, List, [], ◌∷◌, arith, ltb, ◌==◌, if◌then◌else◌, Bytes, Bool-cases, length, dec_lt,
}
use lgx2userspace.BufferReorderer.{
  Order, unknown, normal, swapped, Observation, BufferReorderer, flush_out, apply_observation,
  pair_bytes,
}
use lgx2userspace.BufferReorderer.Scan.Ends.{Ascending}
use lgx2userspace.BufferReorderer.Emit.{
  next_sav, take_observation, copy_pair, inside_pair, emit_in, emit_round, emit_loop, emit,
}

-- What `emit` does not touch.
abbrev pub scan_part : BufferReorderer → Bytes × ℕ × ℕ × ℕ × Bool × ℕ
scan_part b =
    (b.pipe, b.pipe_start, b.in_offset, b.scan_offset, b.pending_sav, b.pending_sav_offset)

pub apply_same :
    (dma : ℕ) (o : Observation) (b : BufferReorderer)
    → (scan_part (apply_observation dma o b) ≡ scan_part b)
      × ((apply_observation dma o b).observations ≡ b.observations)
      × ((apply_observation dma o b).out_offset ≡ b.out_offset)
      × ((apply_observation dma o b).pipe ≡ b.pipe)
unfolding apply_observation flush_out
apply_same dma o b = ground arith

-- What is left to do: observations to take, and bytes.
abbrev pub work : ℕ → BufferReorderer → ℕ
work limit b = length b.observations + (limit - b.out_offset)

-- One round: less is left, and the offsets stay in order.
pub record Advances (limit high : ℕ) (b b' : BufferReorderer) : Type 0 where
  pub less : work limit b' < work limit b
  pub forward : b.out_offset ≤ b'.out_offset
  pub within : b'.out_offset ≤ limit
  pub ascending : Ascending b'.out_offset b'.observations high
  pub kept : scan_part b' ≡ scan_part b

Ascending-from :
    (low low' : ℕ) (os : List Observation) (high : ℕ)
    → low' ≤ low
    → Ascending low os high
    → Ascending low' os high
Ascending-from low low' [] high h a = omega arith
Ascending-from low low' (o ∷ os) high h a = (omega (arith, a.0), a.1)

-- The output may move up to the next observed SAV.
Ascending-to :
    (low low' : ℕ) (os : List Observation) (high : ℕ)
    → low' ≤ next_sav os
    → low' ≤ high
    → Ascending low os high
    → Ascending low' os high
Ascending-to low low' [] high h h' a = h'
Ascending-to low low' (o ∷ os) high h h' a = (h, a.1)

next-low :
    (low : ℕ) (os : List Observation) (high : ℕ)
    → low < 2 ^ 64
    → Ascending low os high
    → low ≤ next_sav os
next-low low [] high h a = omega arith
next-low low (o ∷ os) high h a = a.0

take-Advances :
    (dma limit high : ℕ) (b : BufferReorderer) (os : List Observation)
    → b.observations ≡ os
    → limit < 2 ^ 64
    → b.out_offset < limit
    → next_sav os ≡ b.out_offset
    → Ascending b.out_offset os high
    → Advances limit high b (take_observation dma os b)
take-Advances dma limit high b [] e fits h at a = absurd (omega arith)
take-Advances dma limit high b (o ∷ os) e fits h at a =
    let (kept, obs, out, _) = apply_same dma o (record b { observations = os }) in
    let size : length b.observations ≡ suc (length os) = ap length e in
    record {
      less = omega (arith, size, out, ap length obs);
      forward = omega (arith, out);
      within = omega (arith, out);
      ascending =
          rw (obs, out)
            (Ascending-from (suc o.sav_offset) b.out_offset os high (omega (arith, a.0)) a.1);
      kept = kept;
    }

inside-Advances :
    (dma limit high : ℕ) (b : BufferReorderer) (os : List Observation)
    → b.observations ≡ os
    → b.out_offset + pair_bytes dma ≤ limit
    → limit < 2 ^ 64
    → next_sav os < b.out_offset + pair_bytes dma
    → Ascending b.out_offset os high
    → Advances limit high b (inside_pair dma os b)
inside-Advances dma limit high b [] e room fits h a = absurd (omega arith)
inside-Advances dma limit high b (o ∷ os) e room fits h a =
    let s : BufferReorderer = apply_observation dma o (record b { observations = os }) in
    let (kept, obs, out, _) = apply_same dma o (record b { observations = os }) in
    let size : length b.observations ≡ suc (length os) = ap length e in
    elim (Bool-cases (s.order_changes == b.order_changes)) [
      | inl stray ↦ simp stray (record {
        less = omega (arith, size, out, ap length obs);
        forward = omega (arith, out);
        within = omega (arith, out);
        ascending =
            rw (obs, out)
              (Ascending-from (suc o.sav_offset) b.out_offset os high (omega (arith, a.0)) a.1);
        kept = kept;
      })
      | inr changed ↦ simp changed (record {
        less = omega (arith, size, a.0, ap length obs);
        forward = a.0;
        within = omega arith;
        ascending =
            rw obs (Ascending-from (suc o.sav_offset) o.sav_offset os high (omega arith) a.1);
        kept = kept;
      })
    ]

-- A round that moves the output to `end`.
move-Advances :
    (limit high end : ℕ) (b b' : BufferReorderer)
    → b.out_offset < end
    → end ≤ limit
    → b'.out_offset ≡ end
    → b'.observations ≡ b.observations
    → Ascending end b.observations high
    → scan_part b' ≡ scan_part b
    → Advances limit high b b'
move-Advances limit high end b b' ahead h out obs a kept = record {
  less = omega (arith, ap length obs);
  forward = omega arith;
  within = omega arith;
  ascending = rw (obs, out) a;
  kept = kept;
}

-- What the `switch` comes to.
abbrev pub Turn : Order → ℕ → ℕ → ℕ → BufferReorderer → Option BufferReorderer → Type 0
Turn order dma limit high b none = (order ≡ swapped) × (limit < b.out_offset + pair_bytes dma)
Turn order dma limit high b (some b') = Advances limit high b b'

-- `end`: the next SAV, or the limit.
end-between :
    (b : BufferReorderer) (limit high : ℕ)
    → limit ≤ high
    → b.out_offset < limit
    → b.out_offset < next_sav b.observations
    → Ascending b.out_offset b.observations high
    → (b.out_offset
        < (if ltb (next_sav b.observations) limit then next_sav b.observations else limit))
      × ((if ltb (next_sav b.observations) limit then next_sav b.observations else limit) ≤ limit)
      × Ascending
          (if ltb (next_sav b.observations) limit then next_sav b.observations else limit)
          b.observations
          high
end-between b limit high deep h ahead a = (
  ground arith,
  ground arith,
  Ascending-to b.out_offset
      (if ltb (next_sav b.observations) limit then next_sav b.observations else limit)
      b.observations high (ground arith) (ground arith) a,
)

emit_in-Turn :
    (order : Order) (dma limit high : ℕ) (b : BufferReorderer)
    → 0 < dma
    → limit ≤ high
    → limit < 2 ^ 64
    → b.out_offset < limit
    → b.out_offset < next_sav b.observations
    → Ascending b.out_offset b.observations high
    → Turn order dma limit high b (emit_in order dma limit b)
emit_in-Turn unknown dma limit high b some_bytes deep fits h ahead a =
    let (further, within, asc) = end-between b limit high deep h ahead a in
    move-Advances limit high
      (if ltb (next_sav b.observations) limit then next_sav b.observations else limit) b _ further
      within refl refl asc refl
emit_in-Turn normal dma limit high b some_bytes deep fits h ahead a =
    let (further, within, asc) = end-between b limit high deep h ahead a in
    move-Advances limit high
      (if ltb (next_sav b.observations) limit then next_sav b.observations else limit) b _ further
      within refl refl asc refl
emit_in-Turn swapped dma limit high b some_bytes deep fits h ahead a =
    elim (Bool-cases (ltb limit (b.out_offset + pair_bytes dma))) [
      | inl short ↦ simp short (refl, ground arith)
      | inr room ↦
          let there : b.out_offset + pair_bytes dma ≤ limit = ground arith in
          elim (Bool-cases (ltb (next_sav b.observations) (b.out_offset + pair_bytes dma))) [
            | inl inside ↦
                simp (room, inside)
                  (inside-Advances dma limit high b b.observations refl there fits (ground arith) a)
            | inr outside ↦
                simp (room, outside)
                  (move-Advances limit high (b.out_offset + pair_bytes dma) b (copy_pair dma b)
                    (omega arith) there refl refl
                    (Ascending-to b.out_offset (b.out_offset + pair_bytes dma) b.observations high
                      (ground arith) (omega arith) a)
                    refl)
          ]
    ]

pub emit_round-Turn :
    (dma limit high : ℕ) (b : BufferReorderer)
    → 0 < dma
    → limit ≤ high
    → limit < 2 ^ 64
    → b.out_offset < limit
    → Ascending b.out_offset b.observations high
    → Turn b.order dma limit high b (emit_round dma limit b)
unfolding emit_round
emit_round-Turn dma limit high b some_bytes deep fits h a =
    elim (Bool-cases (next_sav b.observations == b.out_offset)) [
      | inl at ↦
          simp at (take-Advances dma limit high b b.observations refl fits h (ground arith) a)
      | inr off ↦ simp off (
          emit_in-Turn b.order dma limit high b some_bytes deep fits h
            (ground (arith, next-low b.out_offset b.observations high (omega arith) a)) a)
    ]

-- What `emit` leaves: all that may go out is out, but for a pair that is not whole yet.
pub record Emitted (dma limit high : ℕ) (b b' : BufferReorderer) : Type 0 where
  pub done :
      (b'.out_offset ≡ limit) ⊎ ((b'.order ≡ swapped) × (limit < b'.out_offset + pair_bytes dma))
  pub forward : b.out_offset ≤ b'.out_offset
  pub within : b'.out_offset ≤ limit
  pub ascending : Ascending b'.out_offset b'.observations high
  pub kept : scan_part b' ≡ scan_part b

pub emit_on :
    (fuel dma limit : ℕ) (b b' : BufferReorderer)
    → b.out_offset < limit
    → emit_round dma limit b ≡ some b'
    → emit_loop (suc fuel) dma limit b ≡ emit_loop fuel dma limit b'
unfolding emit_loop
emit_on fuel dma limit b b' h e = ground (arith, e)

pub emit_wait :
    (fuel dma limit : ℕ) (b : BufferReorderer)
    → b.out_offset < limit
    → emit_round dma limit b ≡ none
    → emit_loop (suc fuel) dma limit b ≡ b
unfolding emit_loop
emit_wait fuel dma limit b h e = ground (arith, e)

pub emit_over :
    (fuel dma limit : ℕ) (b : BufferReorderer)
    → limit ≤ b.out_offset
    → emit_loop fuel dma limit b ≡ b
unfolding emit_loop
emit_over zero dma limit b h = refl
emit_over (suc fuel) dma limit b h = ground arith

all-Emitted :
    (fuel dma limit high : ℕ) (b : BufferReorderer)
    → limit ≤ b.out_offset
    → b.out_offset ≤ limit
    → Ascending b.out_offset b.observations high
    → Emitted dma limit high b (emit_loop fuel dma limit b)
all-Emitted fuel dma limit high b over h a = rw (emit_over fuel dma limit b over) (record {
  done = inl (omega arith);
  forward = omega arith;
  within = h;
  ascending = a;
  kept = refl;
})

-- A round, and then the rest of the loop.
Turn-Emitted :
    (fuel dma limit high : ℕ) (b : BufferReorderer) (o : Option BufferReorderer)
    → b.out_offset < limit
    → Ascending b.out_offset b.observations high
    → emit_round dma limit b ≡ o
    → Turn b.order dma limit high b o
    → ((b' : BufferReorderer)
        → Advances limit high b b'
        → Emitted dma limit high b' (emit_loop fuel dma limit b'))
    → Emitted dma limit high b (emit_loop (suc fuel) dma limit b)
Turn-Emitted fuel dma limit high b none on a e (swaps, short) rest =
    rw (emit_wait fuel dma limit b on e) (record {
      done = inr (swaps, short);
      forward = omega arith;
      within = omega arith;
      ascending = a;
      kept = refl;
    })
Turn-Emitted fuel dma limit high b (some b') on a e t rest = rw (emit_on fuel dma limit b b' on e) (
    let m : Emitted dma limit high b' (emit_loop fuel dma limit b') = rest b' t in
    record {
      done = m.done;
      forward = omega (arith, m.forward, t.forward);
      within = m.within;
      ascending = m.ascending;
      kept = m.kept ∙ t.kept;
    })

-- The loop ends by its condition or at the `return`, however the observations lie.
emit_loop-Emitted :
    (fuel dma limit high : ℕ) (b : BufferReorderer)
    → 0 < dma
    → limit ≤ high
    → limit < 2 ^ 64
    → b.out_offset ≤ limit
    → work limit b ≤ fuel
    → Ascending b.out_offset b.observations high
    → Emitted dma limit high b (emit_loop fuel dma limit b)
emit_loop-Emitted zero dma limit high b some_bytes deep fits h enough a =
    all-Emitted zero dma limit high b (omega arith) h a
emit_loop-Emitted (suc fuel) dma limit high b some_bytes deep fits h enough a =
    elim (dec_lt b.out_offset limit) [
      | no over ↦ all-Emitted (suc fuel) dma limit high b (omega arith) h a
      | yes on ↦
          Turn-Emitted fuel dma limit high b (emit_round dma limit b) on a refl
            (emit_round-Turn dma limit high b some_bytes deep fits on a)
            (λ b' t.
              emit_loop-Emitted fuel dma limit high b' some_bytes deep fits t.within
                (omega (arith, t.less)) t.ascending)
    ]

-- `emit` ends, however the observed SAVs lie: behind it all bytes before the limit are out, but for a
-- pair of swapped buffers whose second half is not decided yet. It never runs past the limit or
-- back, and no SAV that is still to take is behind the output. The offsets must be in order, and
-- the limit before the first SAV without a verdict.
pub emit-Emitted :
    (dma limit high : ℕ) (b : BufferReorderer)
    → 0 < dma
    → limit ≤ high
    → limit < 2 ^ 64
    → b.out_offset ≤ limit
    → Ascending b.out_offset b.observations high
    → Emitted dma limit high b (emit dma limit b)
unfolding emit
emit-Emitted dma limit high b some_bytes deep fits h a =
    emit_loop-Emitted (work limit b) dma limit high b some_bytes deep fits h (omega arith) a
