-- ===== src/BufferReorderer/Scan/Ends.antt =====
-- What `BufferReorderer::scan` (src/liblgx/src/BufferReorderer.cpp) does with the offsets.
use lgx2userspace.Prelude.{
  ℕ, zero, suc, ◌+◌, ◌-◌, ◌≤◌, ◌<◌, ◌≡◌, refl, ◌∙◌, Bool, true, false, inl, inr, ◌⊎◌, Option, none,
  some, List, [], ◌∷◌, ◌++◌, arith, ltb, ◌==◌, if◌then◌else◌, Bytes, Bool-cases, get_or, dec_lt,
  dec_le,
}
use lgx2userspace.BufferReorderer.{
  Order, normal, swapped, Observation, BufferReorderer, marker_span,
}
use lgx2userspace.BufferReorderer.Scan.{
  at, pipe_at, expired, expire, stop_at, find_zero, moved_to, take_sav, take_eav, inspect, advance,
  scan_round, scan_loop, scan,
}
use lgx2userspace.BufferReorderer.Emit.{hold_back}

-- The observed SAVs stand in the order of the stream, from `low` on and before `high`.
abbrev pub Ascending : ℕ → List Observation → ℕ → Type 0
Ascending low [] high = low ≤ high
Ascending low (o ∷ os) high = (low ≤ o.sav_offset) × Ascending (suc o.sav_offset) os high

pub Ascending-up :
    (low : ℕ) (os : List Observation) (high high' : ℕ)
    → high ≤ high'
    → Ascending low os high
    → Ascending low os high'
Ascending-up low [] high high' h a = omega arith
Ascending-up low (o ∷ os) high high' h a =
    (a.0, Ascending-up (suc o.sav_offset) os high high' h a.1)

pub Ascending-snoc :
    (low : ℕ) (os : List Observation) (high x : ℕ) (order : Order)
    → high ≤ x
    → Ascending low os high
    → Ascending low (os ++ (record { sav_offset = x; order = order } ∷ [])) (suc x)
Ascending-snoc low [] high x order h a = (omega arith, omega arith)
Ascending-snoc low (o ∷ os) high x order h a =
    (a.0, Ascending-snoc (suc o.sav_offset) os high x order h a.1)

pub Ascending-low :
    (low : ℕ) (os : List Observation) (high : ℕ) → Ascending low os high → low ≤ high
Ascending-low low [] high a = a
Ascending-low low (o ∷ os) high a = omega (arith, a.0, Ascending-low (suc o.sav_offset) os high a.1)

-- The observed SAVs come before the pending one, or else before where the scan stands.
abbrev pub Bounds : Bool → ℕ → ℕ → ℕ → List Observation → Type 0
Bounds true sav here low os = Ascending low os sav × (sav < here)
Bounds false sav here low os = Ascending low os here

-- The offsets in order: the pipe begins before the output, which is before every SAV that is observed
-- and not taken, and these before the one that is pending.
pub record InOrder (b : BufferReorderer) : Type 0 where
  pub start_out : b.pipe_start ≤ b.out_offset
  pub bounds : Bounds b.pending_sav b.pending_sav_offset b.scan_offset b.out_offset b.observations

pub Bounds-low :
    (pending : Bool) (sav here low : ℕ) (os : List Observation)
    → Bounds pending sav here low os
    → low ≤ here
Bounds-low true sav here low os h = omega (arith, Ascending-low low os sav h.0, h.1)
Bounds-low false sav here low os h = Ascending-low low os here h

-- The scan moves on.
pub Bounds-up :
    (pending : Bool) (sav here further low : ℕ) (os : List Observation)
    → here ≤ further
    → Bounds pending sav here low os
    → Bounds pending sav further low os
Bounds-up true sav here further low os h b = (b.0, omega (arith, b.1))
Bounds-up false sav here further low os h b = Ascending-up low os here further h b

-- The pending SAV is decided.
pub Bounds-decide :
    (sav here low : ℕ) (os : List Observation) (order : Order)
    → Bounds true sav here low os
    → Bounds false sav here low (os ++ (record { sav_offset = sav; order = order } ∷ []))
Bounds-decide sav here low os order b =
    Ascending-up low (os ++ (record { sav_offset = sav; order = order } ∷ [])) (suc sav) here
      (omega (arith, b.1)) (Ascending-snoc low os sav sav order (omega arith) b.0)

-- What `memchr` finds lies where it looks.
abbrev pub Inside : ℕ → ℕ → Option ℕ → Type 0
Inside i count none = Unit
Inside i count (some j) = (i ≤ j) × (j < i + count)

pub find_zero_hit :
    (bytes : Bytes) (i count : ℕ)
    → (get_or bytes i 0 == 0) ≡ true
    → find_zero bytes i (suc count) ≡ some i
unfolding find_zero
find_zero_hit bytes i count h = ground arith

pub find_zero_miss :
    (bytes : Bytes) (i count : ℕ)
    → (get_or bytes i 0 == 0) ≡ false
    → find_zero bytes i (suc count) ≡ find_zero bytes (suc i) count
unfolding find_zero
find_zero_miss bytes i count h = ground arith

pub find_zero-Inside : (bytes : Bytes) (i count : ℕ) → Inside i count (find_zero bytes i count)
find_zero-Inside bytes i zero = unfold find_zero in tt
find_zero-Inside bytes i (suc count) = elim (Bool-cases (get_or bytes i 0 == 0)) [
  | inl e ↦ rw (find_zero_hit bytes i count e) (omega arith, omega arith)
  | inr e ↦
      rw (find_zero_miss bytes i count e)
        (wider (find_zero bytes (suc i) count) (find_zero-Inside bytes (suc i) count))
]
  where
    wider : (o : Option ℕ) → Inside (suc i) count o → Inside i (suc count) o
    wider none h = tt
    wider (some j) h = (omega (arith, h.0), omega (arith, h.1))

pub expire-InOrder : (dma : ℕ) (b : BufferReorderer) → InOrder b → InOrder (expire dma b)
unfolding expire
expire-InOrder dma b w = elim (Bool-cases (expired dma b)) [
  | inr e ↦ simp e w
  | inl e ↦
      let pending : b.pending_sav ≡ true = ground arith in
      simp e (record {
        start_out = w.start_out;
        bounds =
            Bounds-decide b.pending_sav_offset b.scan_offset b.out_offset b.observations normal
              (rw pending at w.bounds);
      })
]

-- Nothing else that the scan needs is touched.
pub expire_same :
    (dma : ℕ) (b : BufferReorderer)
    → ((expire dma b).scan_offset ≡ b.scan_offset)
      × ((expire dma b).pipe_start ≡ b.pipe_start)
      × ((expire dma b).out_offset ≡ b.out_offset)
      × ((expire dma b).in_offset ≡ b.in_offset)
unfolding expire
expire_same dma b = ground arith

-- Behind the check a pending SAV has some of its window left.
pub expire_waits : (dma : ℕ) (b : BufferReorderer) → expired dma (expire dma b) ≡ false
unfolding expire
expire_waits dma b = ground arith

pub inspect_cases :
    (p : ℕ) (b : BufferReorderer)
    → (inspect p b ≡ moved_to p b)
      ⊎ ((inspect p b ≡ take_sav p b) ⊎ ((b.pending_sav ≡ true) × (inspect p b ≡ take_eav p b)))
unfolding inspect
inspect_cases p b = ground arith

take_sav-InOrder :
    (p : ℕ) (b : BufferReorderer) → b.scan_offset ≤ p → InOrder b → InOrder (take_sav p b)
take_sav-InOrder p b h w = elim (Bool-cases b.pending_sav) [
  | inl e ↦ simp e (record {
    start_out = w.start_out;
    bounds = (
      Ascending-up b.out_offset
          (b.observations ++ (record { sav_offset = b.pending_sav_offset; order = normal } ∷ []))
          b.scan_offset p h
          (Bounds-decide b.pending_sav_offset b.scan_offset b.out_offset b.observations normal
            (rw e at w.bounds)),
      omega arith,
    );
  })
  | inr e ↦ simp e (record {
    start_out = w.start_out;
    bounds = (
      Ascending-up b.out_offset b.observations b.scan_offset p h (rw e at w.bounds),
      omega arith,
    );
  })
]

inspect-InOrder :
    (p : ℕ) (b : BufferReorderer) → b.scan_offset ≤ p → InOrder b → InOrder (inspect p b)
inspect-InOrder p b h w = elim (inspect_cases p b) [
  | inl e ↦ rw e (record {
    start_out = w.start_out;
    bounds =
        Bounds-up b.pending_sav b.pending_sav_offset b.scan_offset (p + 1) b.out_offset
          b.observations (omega arith) w.bounds;
  })
  | inr (inl e) ↦ rw e (take_sav-InOrder p b h w)
  | inr (inr (pending, e)) ↦ rw e (record {
    start_out = w.start_out;
    bounds =
        Bounds-decide b.pending_sav_offset (p + 1) b.out_offset b.observations
          (if pipe_at (p + 4) b == b.pending_sav_b0 then normal else swapped)
          (Bounds-up true b.pending_sav_offset b.scan_offset (p + 1) b.out_offset b.observations
            (omega arith) (rw pending at w.bounds));
  })
]

inspect_same :
    (p : ℕ) (b : BufferReorderer)
    → ((inspect p b).scan_offset ≡ p + 1)
      × ((inspect p b).out_offset ≡ b.out_offset)
      × ((inspect p b).in_offset ≡ b.in_offset)
inspect_same p b = elim (inspect_cases p b) [
  | inl e ↦ rw e (refl, refl, refl)
  | inr (inl e) ↦ rw e (ground arith)
  | inr (inr (pending, e)) ↦ rw e (refl, refl, refl)
]

-- What a round of the scan keeps, and where it leaves the scan.
pub record Moves (b : BufferReorderer) (limit : ℕ) (b' : BufferReorderer) : Type 0 where
  pub in_order : InOrder b'
  pub further : b.scan_offset < b'.scan_offset
  pub before : b'.scan_offset ≤ limit
  pub out_kept : b'.out_offset ≡ b.out_offset
  pub in_kept : b'.in_offset ≡ b.in_offset

advance-Moves :
    (limit stop : ℕ) (b : BufferReorderer) (found : Option ℕ)
    → InOrder b
    → b.scan_offset < stop
    → stop ≤ limit
    → Inside (at b.scan_offset b) (stop - b.scan_offset) found
    → Moves b limit (advance stop found b)
advance-Moves limit stop b none w ahead h i = record {
  in_order = record {
    start_out = w.start_out;
    bounds =
        Bounds-up b.pending_sav b.pending_sav_offset b.scan_offset stop b.out_offset b.observations
          (omega arith) w.bounds;
  };
  further = ahead;
  before = h;
  out_kept = refl;
  in_kept = refl;
}
advance-Moves limit stop b (some i) w ahead h (low, high) =
    let p : ℕ = b.pipe_start + i in
    let scanned : b.out_offset ≤ b.scan_offset =
      Bounds-low b.pending_sav b.pending_sav_offset b.scan_offset b.out_offset b.observations
        w.bounds in
    let (scan', out', in') = inspect_same p b in
    record {
      in_order = inspect-InOrder p b (omega (arith, w.start_out)) w;
      further = omega (arith, w.start_out);
      before = omega (arith, w.start_out);
      out_kept = out';
      in_kept = in';
    }

stop-ahead :
    (dma limit : ℕ) (b : BufferReorderer)
    → expired dma b ≡ false
    → b.scan_offset < limit
    → (b.scan_offset < stop_at dma limit b) × (stop_at dma limit b ≤ limit)
stop-ahead dma limit b waits h = ground arith

pub scan_round-Moves :
    (dma limit : ℕ) (b : BufferReorderer)
    → InOrder b
    → b.scan_offset < limit
    → Moves b limit (scan_round dma limit b)
unfolding scan_round
scan_round-Moves dma limit b w h =
    let b' : BufferReorderer = expire dma b in
    let stop : ℕ = stop_at dma limit b' in
    let (scan', _, out', in') = expire_same dma b in
    let (ahead, inside) = stop-ahead dma limit b' (expire_waits dma b) (omega arith) in
    let m : Moves b' limit
        (advance stop (find_zero b'.pipe (at b'.scan_offset b') (stop - b'.scan_offset)) b') =
      advance-Moves limit stop b' (find_zero b'.pipe (at b'.scan_offset b') (stop - b'.scan_offset))
        (expire-InOrder dma b w) ahead inside
        (find_zero-Inside b'.pipe (at b'.scan_offset b') (stop - b'.scan_offset)) in
    record {
      in_order = m.in_order;
      further = omega (arith, m.further);
      before = m.before;
      out_kept = m.out_kept ∙ out';
      in_kept = m.in_kept ∙ in';
    }

pub scan_on :
    (fuel dma limit : ℕ) (b : BufferReorderer)
    → b.scan_offset < limit
    → scan_loop (suc fuel) dma limit b ≡ scan_loop fuel dma limit (scan_round dma limit b)
unfolding scan_loop
scan_on fuel dma limit b h = ground arith

pub scan_over :
    (fuel dma limit : ℕ) (b : BufferReorderer)
    → limit ≤ b.scan_offset
    → scan_loop fuel dma limit b ≡ b
unfolding scan_loop
scan_over zero dma limit b h = refl
scan_over (suc fuel) dma limit b h = ground arith

pub record Scanned (b : BufferReorderer) (limit : ℕ) (b' : BufferReorderer) : Type 0 where
  pub in_order : InOrder b'
  pub through : b'.scan_offset ≡ limit
  pub out_kept : b'.out_offset ≡ b.out_offset
  pub in_kept : b'.in_offset ≡ b.in_offset

-- The loop gets to the limit.
pub scan_loop-Scanned :
    (fuel dma limit : ℕ) (b : BufferReorderer)
    → InOrder b
    → b.scan_offset ≤ limit
    → limit ≤ b.scan_offset + fuel
    → Scanned b limit (scan_loop fuel dma limit b)
scan_loop-Scanned zero dma limit b w h enough =
    rw (scan_over zero dma limit b (omega arith))
      (record { in_order = w; through = omega arith; out_kept = refl; in_kept = refl })
scan_loop-Scanned (suc fuel) dma limit b w h enough = elim (dec_lt b.scan_offset limit) [
  | no over ↦
      rw (scan_over (suc fuel) dma limit b (omega arith))
        (record { in_order = w; through = omega arith; out_kept = refl; in_kept = refl })
  | yes on ↦ rw (scan_on fuel dma limit b on) (
      let m : Moves b limit (scan_round dma limit b) = scan_round-Moves dma limit b w on in
      let s : Scanned (scan_round dma limit b) limit
          (scan_loop fuel dma limit (scan_round dma limit b)) =
        scan_loop-Scanned fuel dma limit (scan_round dma limit b) m.in_order m.before
          (omega (arith, m.further)) in
      record {
        in_order = s.in_order;
        through = s.through;
        out_kept = s.out_kept ∙ m.out_kept;
        in_kept = s.in_kept ∙ m.in_kept;
      })
]

-- The first SAV that has no verdict yet, or else where the scan stands.
abbrev pub undecided : BufferReorderer → ℕ
undecided b = if b.pending_sav then b.pending_sav_offset else b.scan_offset

-- What the scan of a chunk keeps, and how far it decides.
pub record Decides (dma : ℕ) (b b' : BufferReorderer) : Type 0 where
  pub in_order : InOrder b'
  pub decided : b.in_offset ≤ undecided b' + hold_back dma
  pub out_kept : b'.out_offset ≡ b.out_offset
  pub in_kept : b'.in_offset ≡ b.in_offset

-- Behind the loop: what is pending and expired is decided, the rest is near the end.
expired-Decides :
    (dma : ℕ) (b b' : BufferReorderer)
    → InOrder b'
    → b.in_offset ≤ b'.scan_offset + 8
    → b'.out_offset ≡ b.out_offset
    → b'.in_offset ≡ b.in_offset
    → Decides dma b (expire dma b')
expired-Decides dma b b' w through out_kept in_kept =
    let (scan', _, out', in') = expire_same dma b' in
    let waits = expire_waits dma b' in
    record {
      in_order = expire-InOrder dma b' w;
      decided = ground arith;
      out_kept = out' ∙ out_kept;
      in_kept = in' ∙ in_kept;
    }

-- The scan of a chunk ends, whatever the bytes are, with the offsets in order: every SAV that it
-- saw further than the hold-back from the end has its verdict, and the scan itself is no further
-- from the end. The output and the input offset stay. The offsets must be in order before.
pub scan-Decides : (dma : ℕ) (b : BufferReorderer) → InOrder b → Decides dma b (scan dma b)
unfolding scan
scan-Decides dma b w = elim (Bool-cases (ltb b.in_offset marker_span)) [
  | inl short ↦
      simp short (record { in_order = w; decided = ground arith; out_kept = refl; in_kept = refl })
  | inr enough ↦ simp enough (
      let limit : ℕ = b.in_offset - marker_span + 1 in
      let nine : 9 ≤ b.in_offset = ground arith in
      elim (dec_le b.scan_offset limit) [
        | yes h ↦
            let s : Scanned b limit (scan_loop (limit - b.scan_offset) dma limit b) =
              scan_loop-Scanned (limit - b.scan_offset) dma limit b w h (omega arith) in
            expired-Decides dma b (scan_loop (limit - b.scan_offset) dma limit b) s.in_order
              (omega (arith, s.through)) s.out_kept s.in_kept
        | no h ↦
            rw (scan_over (limit - b.scan_offset) dma limit b (omega arith))
              (expired-Decides dma b b w (omega arith) refl refl)
      ])
]
