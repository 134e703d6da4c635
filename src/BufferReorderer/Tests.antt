-- ===== src/BufferReorderer/Tests.antt =====
-- Runs of src/liblgx/src/BufferReorderer.cpp on buffers of four bytes.
use lgx2userspace.Prelude.{replicate, ◌≡◌, refl, true, [], ◌∷◌, ◌++◌, arith, Bytes}
use lgx2userspace.BufferReorderer.{normal, swapped, BufferReorderer, initial, apply_observation}
use lgx2userspace.BufferReorderer.Scan.{scan}
use lgx2userspace.BufferReorderer.Scan.Ends.{InOrder, Decides}
use lgx2userspace.BufferReorderer.Scan.Found.{known_savs, scan_finds}
use lgx2userspace.BufferReorderer.Scan.Marks.{savs_in}
use lgx2userspace.FrameBuilder.{sav_header_valid}
use lgx2userspace.BufferReorderer.Emit.{emit, emit_loop, emit_round, feed}
use lgx2userspace.BufferReorderer.Emit.Ends.{Emitted}
use lgx2userspace.BufferReorderer.Emit.Arranged.{Laid, emit_arranges}
use lgx2userspace.BufferReorderer.Sound.{IsSound, feed-IsSound}

abbrev bytes : Bytes
bytes = 1 ∷ 2 ∷ 3 ∷ 4 ∷ 5 ∷ 6 ∷ 7 ∷ 8 ∷ 9 ∷ 10 ∷ []

-- One SAV is pending, and its window passes; another is in the bytes that came in.
abbrev marked : BufferReorderer
marked = record initial {
  pipe = replicate 10 1 ++ (0 ∷ 0xFF ∷ 0xFF ∷ 0xC0 ∷ 5 ∷ 0x40 ∷ 0 ∷ 5 ∷ 1 ∷ 2 ∷ []);
  in_offset = 20;
  scan_offset = 5;
  pending_sav = true;
  pending_sav_offset = 1;
}

marked-InOrder : InOrder marked
marked-InOrder = record { start_out = omega arith; bounds = (omega arith, omega arith) }

scan_finds_example :
    (known_savs (scan 4 marked) ≡ (1 ∷ []) ++ savs_in marked.pipe 0 5 7)
    × Decides 4 marked (scan 4 marked)
scan_finds_example = scan_finds 4 marked marked-InOrder

one_found : savs_in marked.pipe 0 5 7 ≡ 10 ∷ []
unfolding savs_in sav_header_valid
one_found = refl

-- Swapped pairs, with a stray SAV in the second.
abbrev swapping : BufferReorderer
swapping = record initial {
  pipe = bytes ++ bytes;
  in_offset = 20;
  scan_offset = 20;
  order = swapped;
  observations = record { sav_offset = 10; order = normal } ∷ [];
}

no_change : (emit 4 17 swapping).order_changes ≡ 0
unfolding emit emit_loop emit_round apply_observation
no_change = refl

emit_arranges_example :
    Emitted 4 17 20 swapping (emit 4 17 swapping) × Laid 4 swapping (emit 4 17 swapping)
emit_arranges_example =
    emit_arranges 4 17 20 swapping (omega arith) (omega arith) (omega arith) (omega arith)
      (omega arith) (omega arith, omega arith) (omega arith) no_change

-- Two pairs go out with their buffers exchanged; the stray SAV does not change the order.
swapped_out :
    (emit 4 17 swapping).out ≡ 5 ∷ 6 ∷ 7 ∷ 8 ∷ 1 ∷ 2 ∷ 3 ∷ 4 ∷ 3 ∷ 4 ∷ 5 ∷ 6 ∷ 9 ∷ 10 ∷ 1 ∷ 2 ∷ []
unfolding emit emit_loop emit_round apply_observation
swapped_out = refl

initial-IsSound : IsSound 4 [] initial
initial-IsSound = record {
  in_order = record { start_out = omega arith; bounds = omega arith };
  start = refl;
  fed = refl;
  pending = refl;
  whole = refl;
  short = omega arith;
}

feed-IsSound_example : IsSound 4 bytes (feed 4 bytes true initial)
feed-IsSound_example =
    feed-IsSound 4 [] bytes true initial (omega arith) (omega arith) initial-IsSound
