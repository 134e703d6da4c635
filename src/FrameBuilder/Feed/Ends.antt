-- ===== src/FrameBuilder/Feed/Ends.antt =====
-- The scan loop of `FrameBuilder::feed` (src/liblgx/src/FrameBuilder.cpp) ends.
use lgx2userspace.Prelude.{
  ℕ, zero, suc, ◌+◌, ◌≤◌, ◌<◌, ◌≡◌, refl, Bool, true, false, not, ◌&&◌, none, some, ◌⊎◌, inl, inr,
  arith, Bytes, Bool-cases,
}
use lgx2userspace.FrameBuilder.{Sizes, FrameBuilder, consume_audio}
use lgx2userspace.FrameBuilder.Marker.{
  Outcome, process_sav, process_eav, process_audio, process_marker,
}
use lgx2userspace.FrameBuilder.Feed.{
  Scan, start_scan, marker_at, scanning, resume, scan_step, is_some, scan,
}

-- Where `processMarker` says to resume: behind the marker's first byte, and no further than its
-- header, which lies in the buffer.
abbrev pub Advances : ℕ → ℕ → Outcome → Type 0
Advances n pos (none, s) = Unit
Advances n pos (some next, s) = (pos < next) × (next ≤ n)

pub process_marker-Advances :
    (k : Sizes) (buf : Bytes) (n pos : ℕ) (s : FrameBuilder)
    → pos + 4 ≤ n
    → Advances n pos (process_marker k buf n pos s)
unfolding process_marker process_sav process_eav process_audio
process_marker-Advances k buf n pos s h = ground arith

pub consume_audio_pos :
    (buf : Bytes) (n pos : ℕ) (s : FrameBuilder)
    → pos ≤ n
    → (pos ≤ (consume_audio buf n pos s).0) × ((consume_audio buf n pos s).0 ≤ n)
unfolding consume_audio
consume_audio_pos buf n pos s h = ground arith

resume-moves :
    (buf : Bytes) (n pos : ℕ) (o : Outcome)
    → Advances n pos o
    → pos ≤ n
    → (is_some (resume buf n pos o).pending ≡ true)
      ⊎ ((pos < (resume buf n pos o).pos) × ((resume buf n pos o).pos ≤ n))
resume-moves buf n pos (none, s) a h = inl refl
resume-moves buf n pos (some next, s) a h = inr (omega (arith, consume_audio_pos buf n next s a.1))

scan_step-moves :
    (k : Sizes) (buf : Bytes) (n : ℕ) (z : Scan)
    → z.pos + 4 ≤ n
    → (is_some (scan_step k buf n z).pending ≡ true)
      ⊎ ((z.pos < (scan_step k buf n z).pos) × ((scan_step k buf n z).pos ≤ n))
unfolding scan_step
scan_step-moves k buf n z h = elim (Bool-cases (marker_at buf z.pos)) [
  | inl marker ↦ simp marker (
      resume-moves buf n z.pos (process_marker k buf n z.pos z.builder)
        (process_marker-Advances k buf n z.pos z.builder h) (omega arith))
  | inr other ↦ simp other (inr (omega arith, omega arith))
]

-- The loop goes on.
abbrev pub running : ℕ → Scan → Bool
running n z = scanning n z && not (is_some z.pending)

pub running_room : (n : ℕ) (z : Scan) → running n z ≡ true → z.pos + 4 ≤ n
running_room n z h = ground arith

scan-pending :
    (fuel : ℕ) (k : Sizes) (buf : Bytes) (n : ℕ) (z : Scan)
    → is_some z.pending ≡ true
    → scan fuel k buf n z ≡ z
unfolding scan
scan-pending zero k buf n z h = refl
scan-pending (suc fuel) k buf n z h = ground arith

pub scan_more :
    (fuel : ℕ) (k : Sizes) (buf : Bytes) (n : ℕ) (z : Scan)
    → running n z ≡ true
    → scan (suc fuel) k buf n z ≡ scan fuel k buf n (scan_step k buf n z)
unfolding scan
scan_more fuel k buf n z h = ground arith

pub scan_stop :
    (fuel : ℕ) (k : Sizes) (buf : Bytes) (n : ℕ) (z : Scan)
    → running n z ≡ false
    → scan (suc fuel) k buf n z ≡ z
unfolding scan
scan_stop fuel k buf n z h = ground arith

-- With more fuel than bytes in front of it the loop ends by its own condition, or at the `break` on a
-- header that runs past the end of the buffer: the fuel never decides.
pub scan_ends :
    (fuel : ℕ) (k : Sizes) (buf : Bytes) (n : ℕ) (z : Scan)
    → z.pos ≤ n
    → n < z.pos + fuel
    → running n (scan fuel k buf n z) ≡ false
scan_ends zero k buf n z h enough = absurd (omega arith)
scan_ends (suc fuel) k buf n z h enough = elim (Bool-cases (running n z)) [
  | inl more ↦
      rw (scan_more fuel k buf n z more) (elim (scan_step-moves k buf n z (running_room n z more)) [
        | inl pending ↦
            rw (scan-pending fuel k buf n (scan_step k buf n z) pending)
              (ended (scan_step k buf n z) pending)
        | inr moved ↦ scan_ends fuel k buf n (scan_step k buf n z) moved.1 (omega arith)
      ])
  | inr stop ↦ rw (scan_stop fuel k buf n z stop) stop
]
  where
    ended : (y : Scan) → is_some y.pending ≡ true → running n y ≡ false
    ended y p = ground arith

-- With the fuel that `feed` gives it, one round more than there are bytes, the scan loop behind
-- `consumeAudio` ends by its own condition or at the `break`, whatever the bytes and the parser's
-- state are: the fuel never decides.
pub parse_ends :
    (k : Sizes) (buf : Bytes) (n : ℕ) (s : FrameBuilder)
    → running n (scan (n + 1) k buf n (start_scan (consume_audio buf n 0 s))) ≡ false
parse_ends k buf n s =
    let moved = consume_audio_pos buf n 0 s (omega arith) in
    scan_ends (n + 1) k buf n (start_scan (consume_audio buf n 0 s)) moved.1 (omega arith)
