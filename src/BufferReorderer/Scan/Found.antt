-- ===== src/BufferReorderer/Scan/Found.antt =====
-- What `BufferReorderer::scan` of src/liblgx/src/BufferReorderer.cpp finds: the valid SAVs among the
-- bytes that it passes.
use lgx2userspace.Prelude.{
  ℕ, zero, suc, ◌+◌, ◌-◌, ◌≤◌, ◌<◌, ◌≡◌, refl, sym, ap, ap₂, ◌∙◌, Bool, true, false, inl, inr, ◌⊎◌,
  Option, none, some, List, [], ◌∷◌, ◌++◌, map, append_assoc, append-nil, arith, ltb, ◌==◌,
  Bool-cases, get_or, dec_lt, dec_le,
}
use lgx2userspace.BufferReorderer.{Observation, BufferReorderer, marker_span}
use lgx2userspace.BufferReorderer.Scan.{
  at, expired, expire, stop_at, find_zero, moved_to, take_sav, take_eav, inspect, advance,
  scan_round, scan_loop, scan,
}
use lgx2userspace.BufferReorderer.Scan.Ends.{
  InOrder, Bounds-low, Inside, find_zero-Inside, expire_same, expire_waits, Moves, Scanned,
  scan_loop-Scanned, scan_round-Moves, scan_on, scan_over, Decides, scan-Decides,
}
use lgx2userspace.BufferReorderer.Scan.Kept.{PipeKept, expire-pipe, round-pipe}
use lgx2userspace.BufferReorderer.Scan.Marks.{is_sav, savs_in, savs_in-add, Quiet, find_zero-Quiet}

abbrev offset_of : Observation → ℕ
offset_of o = o.sav_offset

abbrev pub waiting : Bool → ℕ → List ℕ
waiting true sav = sav ∷ []
waiting false sav = []

-- The SAVs that are known and not taken yet: those with a verdict, and the one that is pending.
abbrev pub known_savs : BufferReorderer → List ℕ
known_savs b = map offset_of b.observations ++ waiting b.pending_sav b.pending_sav_offset

-- A SAV that gets its verdict stays known.
verdict_known :
    (os : List Observation) (o : Observation)
    → map offset_of (os ++ (o ∷ [])) ≡ map offset_of os ++ (o.sav_offset ∷ [])
verdict_known [] o = refl
verdict_known (x ∷ os) o = ap (◌∷◌ x.sav_offset) (verdict_known os o)

expire_known : (dma : ℕ) (b : BufferReorderer) → known_savs (expire dma b) ≡ known_savs b
unfolding expire
expire_known dma b = elim (Bool-cases (expired dma b)) [
  | inr e ↦ simp e refl
  | inl e ↦
      let pending : b.pending_sav ≡ true = ground arith in
      simp e (simp pending (append-nil _ ∙ verdict_known b.observations _))
]

-- What the loop does at a zero byte at index `i`.
inspect_sav :
    (i : ℕ) (b : BufferReorderer)
    → (get_or b.pipe i 0 == 0) ≡ true
    → let p = b.pipe_start + i in
      ((is_sav b.pipe i ≡ true) × (inspect p b ≡ take_sav p b))
      ⊎ ((is_sav b.pipe i ≡ false)
          × ((inspect p b ≡ moved_to p b)
              ⊎ ((b.pending_sav ≡ true) × (inspect p b ≡ take_eav p b))))
unfolding inspect
inspect_sav i b nil =
    let one : b.pipe_start + i + 1 - b.pipe_start ≡ i + 1 = omega arith in
    let two : b.pipe_start + i + 2 - b.pipe_start ≡ i + 2 = omega arith in
    let three : b.pipe_start + i + 3 - b.pipe_start ≡ i + 3 = omega arith in
    let four : b.pipe_start + i + 4 - b.pipe_start ≡ i + 4 = omega arith in ground arith

take_sav_known :
    (p : ℕ) (b : BufferReorderer) → known_savs (take_sav p b) ≡ known_savs b ++ (p ∷ [])
take_sav_known p b = elim (Bool-cases b.pending_sav) [
  | inl e ↦ simp e (ap (λ l. l ++ (p ∷ [])) (verdict_known b.observations _))
  | inr e ↦ simp e (ap (λ l. l ++ (p ∷ [])) (sym (append-nil _)))
]

inspect_known :
    (i : ℕ) (b : BufferReorderer)
    → (get_or b.pipe i 0 == 0) ≡ true
    → known_savs (inspect (b.pipe_start + i) b) ≡ known_savs b ++ savs_in b.pipe b.pipe_start i 1
unfolding savs_in
inspect_known i b nil = elim (inspect_sav i b nil) [
  | inl (sav, e) ↦ rw e (simp sav (take_sav_known (b.pipe_start + i) b))
  | inr (none_here, inl e) ↦ rw e (simp none_here (sym (append-nil _)))
  | inr (none_here, inr (pending, e)) ↦ rw e (
      simp (none_here, pending)
        (append-nil _ ∙ verdict_known b.observations _ ∙ sym (append-nil _)))
]

advance_known :
    (stop : ℕ) (b : BufferReorderer) (found : Option ℕ)
    → b.pipe_start ≤ b.scan_offset
    → b.scan_offset ≤ stop
    → Inside (at b.scan_offset b) (stop - b.scan_offset) found
    → Quiet b.pipe b.pipe_start (at b.scan_offset b) (stop - b.scan_offset) found
    → known_savs (advance stop found b)
      ≡ known_savs b
        ++ savs_in b.pipe b.pipe_start
            (at b.scan_offset b)
            ((advance stop found b).scan_offset - b.scan_offset)
advance_known stop b none started ahead h q =
    sym (append-nil (known_savs b)) ∙ ap (λ l. known_savs b ++ l) (sym q)
advance_known stop b (some j) started ahead h q =
    let i : ℕ = at b.scan_offset b in
    inspect_known j b q.1
    ∙ ap (λ l. known_savs b ++ l)
        (sym (
          ap (savs_in b.pipe b.pipe_start i) {y = (j - i) + 1} (omega (arith, h.0, scanned))
          ∙ savs_in-add b.pipe b.pipe_start i (j - i) 1
          ∙ ap₂ ◌++◌ q.0 (ap (λ k. savs_in b.pipe b.pipe_start k 1) {y = j} (omega (arith, h.0)))))
  where
    scanned : (inspect (b.pipe_start + j) b).scan_offset ≡ b.pipe_start + j + 1
    scanned = unfold inspect in ground arith

-- What two states of the scan have in common, and the SAVs that it found between them.
record Finds (b b' : BufferReorderer) : Type 0 where
  pub known :
      known_savs b'
      ≡ known_savs b
        ++ savs_in b.pipe b.pipe_start (at b.scan_offset b) (b'.scan_offset - b.scan_offset)
  pub pipe_kept : PipeKept b b'

no_round : (b : BufferReorderer) → Finds b b
unfolding savs_in
no_round b = record {
  known =
      sym (append-nil _)
      ∙ ap (λ n. known_savs b ++ savs_in b.pipe b.pipe_start (at b.scan_offset b) n) {x = 0}
          (omega arith);
  pipe_kept = (refl, refl);
}

started : (b : BufferReorderer) → InOrder b → b.pipe_start ≤ b.scan_offset
started b w = omega (
  arith,
  w.start_out,
  Bounds-low b.pending_sav b.pending_sav_offset b.scan_offset b.out_offset b.observations w.bounds,
)

stop-further :
    (dma limit : ℕ) (b : BufferReorderer)
    → expired dma b ≡ false
    → b.scan_offset < limit
    → b.scan_offset ≤ stop_at dma limit b
stop-further dma limit b waits h = ground arith

round-Finds :
    (dma limit : ℕ) (b : BufferReorderer)
    → InOrder b
    → b.scan_offset < limit
    → Finds b (scan_round dma limit b)
unfolding scan_round
round-Finds dma limit b w h =
    let b' : BufferReorderer = expire dma b in
    let stop : ℕ = stop_at dma limit b' in
    let (scan', start', _, _) = expire_same dma b in
    let (pipe', _) = expire-pipe dma b in
    let found = find_zero b'.pipe (at b'.scan_offset b') (stop - b'.scan_offset) in
    record {
      known =
          advance_known stop b' found (omega (arith, started b w))
            (stop-further dma limit b' (expire_waits dma b) (omega arith))
            (find_zero-Inside b'.pipe (at b'.scan_offset b') (stop - b'.scan_offset))
            (find_zero-Quiet b'.pipe b'.pipe_start (at b'.scan_offset b') (stop - b'.scan_offset))
          ∙ simp (expire_known dma b, scan', start', pipe') refl;
      pipe_kept = round-pipe dma limit b;
    }

two_rounds :
    (b b' b'' : BufferReorderer)
    → b.pipe_start ≤ b.scan_offset
    → b.scan_offset ≤ b'.scan_offset
    → b'.scan_offset ≤ b''.scan_offset
    → Finds b b'
    → Finds b' b''
    → Finds b b''
two_rounds b b' b'' begun on further f g =
    let (pipe', start') = f.pipe_kept in
    let i : ℕ = at b.scan_offset b in
    let m : ℕ = b'.scan_offset - b.scan_offset in
    let n : ℕ = b''.scan_offset - b'.scan_offset in
    record {
      known =
          g.known
          ∙ ap₂ ◌++◌ f.known (
              ap₂ (λ bytes start. savs_in bytes start (at b'.scan_offset b') n) pipe' start'
              ∙ ap (λ k. savs_in b.pipe b.pipe_start k n) (omega (arith, start')))
          ∙ append_assoc (known_savs b) (savs_in b.pipe b.pipe_start i m)
              (savs_in b.pipe b.pipe_start (i + m) n)
          ∙ ap (λ l. known_savs b ++ l)
              (sym (savs_in-add b.pipe b.pipe_start i m n)
                ∙ ap (savs_in b.pipe b.pipe_start i) (omega arith));
      pipe_kept = (g.pipe_kept.0 ∙ pipe', g.pipe_kept.1 ∙ start');
    }

loop-Finds :
    (fuel dma limit : ℕ) (b : BufferReorderer)
    → InOrder b
    → b.scan_offset ≤ limit
    → limit ≤ b.scan_offset + fuel
    → Finds b (scan_loop fuel dma limit b)
loop-Finds zero dma limit b w h enough = rw (scan_over zero dma limit b (omega arith)) (no_round b)
loop-Finds (suc fuel) dma limit b w h enough = elim (dec_lt b.scan_offset limit) [
  | no over ↦ rw (scan_over (suc fuel) dma limit b (omega arith)) (no_round b)
  | yes on ↦ rw (scan_on fuel dma limit b on) (
      let b' : BufferReorderer = scan_round dma limit b in
      let m : Moves b limit b' = scan_round-Moves dma limit b w on in
      let room : limit ≤ b'.scan_offset + fuel = omega (arith, m.further) in
      let s : Scanned b' limit (scan_loop fuel dma limit b') =
        scan_loop-Scanned fuel dma limit b' m.in_order m.before room in
      two_rounds b b' (scan_loop fuel dma limit b') (started b w) (omega (arith, m.further))
        (omega (arith, m.before, s.through)) (round-Finds dma limit b w on)
        (loop-Finds fuel dma limit b' m.in_order m.before room))
]

-- The bytes at which a SAV may begin and that are still to scan.
abbrev pub to_scan : BufferReorderer → ℕ
to_scan b = b.in_offset - 8 - b.scan_offset

known-scan :
    (dma : ℕ) (b : BufferReorderer)
    → InOrder b
    → known_savs (scan dma b)
      ≡ known_savs b ++ savs_in b.pipe b.pipe_start (at b.scan_offset b) (to_scan b)
unfolding scan savs_in
known-scan dma b w = elim (Bool-cases (ltb b.in_offset marker_span)) [
  | inl short ↦ simp short (
      sym (append-nil _)
      ∙ ap (λ n. known_savs b ++ savs_in b.pipe b.pipe_start (at b.scan_offset b) n) {x = 0}
          (ground arith))
  | inr enough ↦ simp enough (
      let limit : ℕ = b.in_offset - marker_span + 1 in
      let nine : 9 ≤ b.in_offset = ground arith in
      let before = λ (n : ℕ). known_savs b ++ savs_in b.pipe b.pipe_start (at b.scan_offset b) n in
      elim (dec_le b.scan_offset limit) [
        | yes h ↦
            let s : Scanned b limit (scan_loop (limit - b.scan_offset) dma limit b) =
              scan_loop-Scanned (limit - b.scan_offset) dma limit b w h (omega arith) in
            expire_known dma (scan_loop (limit - b.scan_offset) dma limit b)
            ∙ (loop-Finds (limit - b.scan_offset) dma limit b w h (omega arith)).known
            ∙ ap before (omega (arith, s.through))
        | no h ↦
            rw (scan_over (limit - b.scan_offset) dma limit b (omega arith))
              (expire_known dma b ∙ (no_round b).known ∙ ap before (omega arith))
      ])
]

-- The scan of a chunk ends, whatever the bytes are, and finds the valid SAVs of the bytes that it
-- passes, all of them and nothing else, in order: each is given its verdict or is pending behind the
-- scan, and so is every SAV known before. All that are further than the hold-back from the end have
-- their verdict, the scan is no further from the end, the offsets stay in order, and the output and
-- the input offset stay. The offsets must be in order before.
pub scan_finds :
    (dma : ℕ) (b : BufferReorderer)
    → InOrder b
    → (known_savs (scan dma b)
        ≡ known_savs b ++ savs_in b.pipe b.pipe_start (at b.scan_offset b) (to_scan b))
      × Decides dma b (scan dma b)
scan_finds dma b w = (known-scan dma b w, scan-Decides dma b w)
