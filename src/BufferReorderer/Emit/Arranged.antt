-- ===== src/BufferReorderer/Emit/Arranged.antt =====
-- The bytes that `BufferReorderer::emit` of src/liblgx/src/BufferReorderer.cpp puts out.
use lgx2userspace.Prelude.{
  false, ℕ, zero, suc, ◌+◌, ◌-◌, ◌%◌, ◌^◌, ◌≤◌, ◌<◌, ◌≡◌, refl, sym, ap, ◌∙◌, inl, inr, ◌⊎◌, Option,
  none, some, List, [], ◌∷◌, ◌++◌, append_assoc, append-nil, arith, ltb, ◌==◌, Bytes, Bool-cases,
  length, slice, dec_lt,
}
use lgx2userspace.BufferReorderer.{
  Order, unknown, normal, swapped, Observation, BufferReorderer, flush_out, apply_observation,
  pair_bytes,
}
use lgx2userspace.BufferReorderer.Scan.{at}
use lgx2userspace.BufferReorderer.Scan.Ends.{Ascending}
use lgx2userspace.BufferReorderer.Emit.{
  next_sav, take_observation, inside_pair, emit_in, emit_round, emit_loop, emit,
}
use lgx2userspace.BufferReorderer.Emit.Ends.{
  apply_same, Advances, Turn, emit_round-Turn, Emitted, emit_on, emit_wait, emit_over, emit-Emitted,
}
use lgx2userspace.BufferReorderer.Emit.Exchanged.{IsArranged, nil-IsArranged, append-IsArranged}

-- From one state to another the bytes between their outputs went out as the order says.
pub record Laid (dma : ℕ) (b b' : BufferReorderer) : Type 0 where
  pub order_same : b'.order ≡ b.order
  pub sent_same : b'.sent ≡ b.sent
  pub added : Bytes
  pub out_is : b'.out ≡ b.out ++ added
  pub arranged : IsArranged b.order dma b.pipe (at b.out_offset b) (at b'.out_offset b) added

-- Each change of the order takes an observation; without one, the output is laid out as above.
record Lays (dma : ℕ) (b b' : BufferReorderer) : Type 0 where
  pub grows : b.order_changes ≤ b'.order_changes
  pub spare : b'.order_changes + length b'.observations ≤ b.order_changes + length b.observations
  pub lays : b'.order_changes ≡ b.order_changes → Laid dma b b'

nil-Lays : (dma : ℕ) (b : BufferReorderer) → Lays dma b b
nil-Lays dma b = record {
  grows = omega arith;
  spare = omega arith;
  lays = λ h. record {
    order_same = refl;
    sent_same = refl;
    added = [];
    out_is = sym (append-nil b.out);
    arranged = nil-IsArranged b.order dma b.pipe (at b.out_offset b);
  };
}

-- An observation changes the order and counts it, or changes neither the order nor the output.
apply_cases :
    (dma : ℕ) (o : Observation) (b : BufferReorderer)
    → ((apply_observation dma o b).order_changes ≡ (b.order_changes + 1) % 2 ^ 32)
      ⊎ (((apply_observation dma o b).order_changes ≡ b.order_changes)
          × ((apply_observation dma o b).order ≡ b.order)
          × ((apply_observation dma o b).sent ≡ b.sent)
          × ((apply_observation dma o b).out ≡ b.out))
unfolding apply_observation flush_out
apply_cases dma o b = ground arith

-- An observation was taken, and the output stands where it stood or the order has changed.
taken-Lays :
    (dma : ℕ) (o : Observation) (os : List Observation) (b b' : BufferReorderer)
    → b.observations ≡ o ∷ os
    → b.order_changes + length b.observations < 2 ^ 32
    → let s = apply_observation dma o (record b { observations = os }) in
      (b' ≡ s)
        ⊎ ((b' ≡ record s { out_offset = o.sav_offset })
            × ((s.order_changes == b.order_changes) ≡ false))
      → Lays dma b b'
taken-Lays dma o os b b' e few same =
    let s : BufferReorderer = apply_observation dma o (record b { observations = os }) in
    let (_, obs, out, _) = apply_same dma o (record b { observations = os }) in
    let size : length b.observations ≡ suc (length os) = ap length e in
    let left : length s.observations ≡ length os = ap length obs in
    elim same [
      | inr (moved, changed) ↦ elim (apply_cases dma o (record b { observations = os })) [
        | inl more ↦
            rw moved (record {
              grows = omega arith;
              spare = omega arith;
              lays = λ h. absurd (ground arith);
            })
        | inr (kept, _, _, _) ↦ absurd (ground arith)
      ]
      | inl stays ↦ elim (apply_cases dma o (record b { observations = os })) [
        | inl more ↦
            rw stays (record {
              grows = omega arith;
              spare = omega arith;
              lays = λ h. absurd (omega arith);
            })
        | inr (kept, order, sent, written) ↦ rw stays (record {
          grows = omega arith;
          spare = omega arith;
          lays = λ h. record {
            order_same = order;
            sent_same = sent;
            added = [];
            out_is = written ∙ sym (append-nil b.out);
            arranged = rw out (nil-IsArranged b.order dma b.pipe (at b.out_offset b));
          };
        })
      ]
    ]

-- What a round comes to for the bytes.
abbrev LaysTurn : ℕ → BufferReorderer → Option BufferReorderer → Type 0
LaysTurn dma b none = Unit
LaysTurn dma b (some b') = Lays dma b b'

-- A round that only lays bytes out.
written-Lays :
    (dma end : ℕ) (xs : Bytes) (b : BufferReorderer)
    → IsArranged b.order dma b.pipe (at b.out_offset b) (at end b) xs
    → Lays dma b (record b { out = b.out ++ xs; out_offset = end })
written-Lays dma end xs b a = record {
  grows = omega arith;
  spare = omega arith;
  lays =
      λ h. record { order_same = refl; sent_same = refl; added = xs; out_is = refl; arranged = a };
}

take_observation-Lays :
    (dma : ℕ) (b : BufferReorderer) (os : List Observation)
    → b.observations ≡ os
    → b.order_changes + length b.observations < 2 ^ 32
    → Lays dma b (take_observation dma os b)
take_observation-Lays dma b [] e few = nil-Lays dma b
take_observation-Lays dma b (o ∷ os) e few = taken-Lays dma o os b _ e few (inl refl)

inside_pair-Lays :
    (dma : ℕ) (b : BufferReorderer) (os : List Observation)
    → b.observations ≡ os
    → b.order_changes + length b.observations < 2 ^ 32
    → Lays dma b (inside_pair dma os b)
inside_pair-Lays dma b [] e few = nil-Lays dma b
inside_pair-Lays dma b (o ∷ os) e few =
    let s : BufferReorderer = apply_observation dma o (record b { observations = os }) in
    taken-Lays dma o os b _ e few (elim (Bool-cases (s.order_changes == b.order_changes)) [
      | inl stray ↦ simp stray (inl refl)
      | inr changed ↦ simp changed (inr (refl, refl))
    ])

skipped-Lays :
    (dma end : ℕ) (b : BufferReorderer)
    → b.order ≡ unknown
    → Lays dma b (record b { out_offset = end })
skipped-Lays dma end b known = record {
  grows = omega arith;
  spare = omega arith;
  lays = λ h. record {
    order_same = refl;
    sent_same = refl;
    added = [];
    out_is = sym (append-nil b.out);
    arranged = rw known refl;
  };
}

pair-IsArranged :
    (dma : ℕ) (b : BufferReorderer)
    → b.pipe_start ≤ b.out_offset
    → IsArranged swapped dma b.pipe (at b.out_offset b) (at (b.out_offset + pair_bytes dma) b) (
        let i = at b.out_offset b in
        slice b.pipe (i + dma) (i + pair_bytes dma) ++ slice b.pipe i (i + dma))
pair-IsArranged dma b begun =
    let i : ℕ = at b.out_offset b in
    (
      1,
      omega arith,
      ap (λ l. slice b.pipe (i + dma) (i + pair_bytes dma) ++ l)
          (sym (append-nil (slice b.pipe i (i + dma)))),
    )

emit_in-Lays :
    (order : Order) (dma limit : ℕ) (b : BufferReorderer)
    → b.order ≡ order
    → b.pipe_start ≤ b.out_offset
    → b.order_changes + length b.observations < 2 ^ 32
    → LaysTurn dma b (emit_in order dma limit b)
emit_in-Lays unknown dma limit b is begun few = skipped-Lays dma _ b is
emit_in-Lays normal dma limit b is begun few = written-Lays dma _ _ b (rw is refl)
emit_in-Lays swapped dma limit b is begun few =
    elim (Bool-cases (ltb limit (b.out_offset + pair_bytes dma))) [
      | inl short ↦ simp short tt
      | inr room ↦
          elim (Bool-cases (ltb (next_sav b.observations) (b.out_offset + pair_bytes dma))) [
            | inl inside ↦ simp (room, inside) (inside_pair-Lays dma b b.observations refl few)
            | inr outside ↦
                simp (room, outside)
                  (written-Lays dma (b.out_offset + pair_bytes dma) _ b
                    (rw is (pair-IsArranged dma b begun)))
          ]
    ]

emit_round-Lays :
    (dma limit : ℕ) (b : BufferReorderer)
    → b.pipe_start ≤ b.out_offset
    → b.order_changes + length b.observations < 2 ^ 32
    → LaysTurn dma b (emit_round dma limit b)
unfolding emit_round
emit_round-Lays dma limit b begun few =
    elim (Bool-cases (next_sav b.observations == b.out_offset)) [
      | inl at ↦ simp at (take_observation-Lays dma b b.observations refl few)
      | inr off ↦ simp off (emit_in-Lays b.order dma limit b refl begun few)
    ]

two-Lays :
    (dma : ℕ) (b b' b'' : BufferReorderer)
    → b'.pipe ≡ b.pipe
    → b'.pipe_start ≡ b.pipe_start
    → b.out_offset ≤ b'.out_offset
    → b'.out_offset ≤ b''.out_offset
    → Lays dma b b'
    → Lays dma b' b''
    → Lays dma b b''
two-Lays dma b b' b'' bytes start h h' l l' = record {
  grows = omega (arith, l.grows, l'.grows);
  spare = omega (arith, l.spare, l'.spare);
  lays = λ e.
      let f : Laid dma b b' = l.lays (omega (arith, l.grows, l'.grows)) in
      let g : Laid dma b' b'' = l'.lays (omega (arith, l.grows, l'.grows)) in
      record {
        order_same = g.order_same ∙ f.order_same;
        sent_same = g.sent_same ∙ f.sent_same;
        added = f.added ++ g.added;
        out_is = g.out_is ∙ ap (λ xs. xs ++ g.added) f.out_is ∙ append_assoc b.out f.added g.added;
        arranged =
            append-IsArranged b.order dma b.pipe (at b.out_offset b) (at b'.out_offset b)
              (at b''.out_offset b) f.added g.added (omega arith) (omega arith) f.arranged
              (simp (sym f.order_same, sym bytes, sym start) g.arranged);
      };
}

rest-Lays :
    (fuel dma limit high : ℕ) (b : BufferReorderer) (o : Option BufferReorderer)
    → b.out_offset < limit
    → emit_round dma limit b ≡ o
    → Turn b.order dma limit high b o
    → LaysTurn dma b o
    → ((b' : BufferReorderer)
        → Advances limit high b b'
        → Lays dma b b'
        → Lays dma b' (emit_loop fuel dma limit b')
          × (b'.out_offset ≤ (emit_loop fuel dma limit b').out_offset))
    → Lays dma b (emit_loop (suc fuel) dma limit b)
      × (b.out_offset ≤ (emit_loop (suc fuel) dma limit b).out_offset)
rest-Lays fuel dma limit high b none on e t l rest =
    rw (emit_wait fuel dma limit b on e) (nil-Lays dma b, omega arith)
rest-Lays fuel dma limit high b (some b') on e t l rest =
    let (further, onward) = rest b' t l in
    rw (emit_on fuel dma limit b b' on e) (
      two-Lays dma b b' (emit_loop fuel dma limit b') (ap (λ k. k.0) t.kept) (ap (λ k. k.1) t.kept)
          t.forward onward l further,
      omega (arith, t.forward, onward),
    )

emit_loop-Lays :
    (fuel dma limit high : ℕ) (b : BufferReorderer)
    → 0 < dma
    → limit ≤ high
    → limit < 2 ^ 64
    → b.pipe_start ≤ b.out_offset
    → b.order_changes + length b.observations < 2 ^ 32
    → Ascending b.out_offset b.observations high
    → Lays dma b (emit_loop fuel dma limit b)
      × (b.out_offset ≤ (emit_loop fuel dma limit b).out_offset)
emit_loop-Lays zero dma limit high b some_bytes deep fits begun few a =
    unfold emit_loop in (nil-Lays dma b, omega arith)
emit_loop-Lays (suc fuel) dma limit high b some_bytes deep fits begun few a =
    elim (dec_lt b.out_offset limit) [
      | no over ↦ rw (emit_over (suc fuel) dma limit b (omega arith)) (nil-Lays dma b, omega arith)
      | yes on ↦
          rest-Lays fuel dma limit high b (emit_round dma limit b) on refl
            (emit_round-Turn dma limit high b some_bytes deep fits on a)
            (emit_round-Lays dma limit b begun few)
            (λ b' t l.
              emit_loop-Lays fuel dma limit high b' some_bytes deep fits
                (omega (arith, begun, t.forward, ap (λ k. k.1) t.kept)) (omega (arith, l.spare))
                t.ascending)
    ]

-- `emit` ends, however the observed SAVs lie, at the limit, or before a pair of swapped buffers whose
-- second half is not decided yet. If no SAV changed the order meanwhile, all bytes from where the
-- output stood to where it stands now are appended to what goes out: as they are in normal order, pair
-- by pair with the two buffers exchanged in swapped order, and none as long as the order is unknown;
-- the order stays and nothing is sent early. The offsets must be in order, the limit before the first
-- SAV without a verdict, and the count of the changes must not wrap around.
pub emit_arranges :
    (dma limit high : ℕ) (b : BufferReorderer)
    → 0 < dma
    → limit ≤ high
    → limit < 2 ^ 64
    → b.pipe_start ≤ b.out_offset
    → b.out_offset ≤ limit
    → Ascending b.out_offset b.observations high
    → b.order_changes + length b.observations < 2 ^ 32
    → (emit dma limit b).order_changes ≡ b.order_changes
    → Emitted dma limit high b (emit dma limit b) × Laid dma b (emit dma limit b)
unfolding emit
emit_arranges dma limit high b some_bytes deep fits begun h a few same = (
  emit-Emitted dma limit high b some_bytes deep fits h a,
  (emit_loop-Lays (length b.observations + (limit - b.out_offset)) dma limit high b some_bytes deep
        fits begun few a).0.lays
      same,
)
