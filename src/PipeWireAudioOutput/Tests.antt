-- ===== src/PipeWireAudioOutput/Tests.antt =====
-- Runs of src/liblgx/liblgx-pipewire/src/pw/PipeWireAudioOutput.cpp on a ring that is a list.
use lgx2userspace.Prelude.{
  ◌≤◌, ◌≡◌, refl, true, false, [], ◌∷◌, ◌++◌, Bytes, length, take, drop, replicate,
}
use lgx2userspace.Prelude.Int.{pos}
use lgx2userspace.PipeWireAudioOutput.{
  Ring, RingLaws, AudioOutput, Buffer, wanted_of, skip_of, trim, fill, play,
}
use lgx2userspace.PipeWireAudioOutput.Plays.{Plays, play-Plays}

abbrev list_ring : Ring Bytes
list_ring = record {
  filled = λ r. pos (length r);
  write = λ xs r. r ++ xs;
  peek = λ n r. take n r;
  advance = λ n r. drop n r;
}

abbrev list_laws : RingLaws list_ring
list_laws = record {
  contents = λ r. r;
  filled_is = λ r. refl;
  write_adds = λ xs r h. refl;
  peek_reads = λ n r h. refl;
  advance_drops = λ n r h. refl;
}

-- Two frames and a half are queued while it plays, and four frames are wanted.
abbrev output : AudioOutput Bytes
output = record {
  queue = 1 ∷ 2 ∷ 3 ∷ 4 ∷ 5 ∷ 6 ∷ 7 ∷ 8 ∷ 9 ∷ 10 ∷ [];
  prebuffering = false;
  underruns = 0;
  trims = 0;
  dropped_packets = 0;
}

abbrev buffer : Buffer
buffer = record { maxsize = 18; requested = 0; mapped = true }

runs_dry : (play list_ring buffer output).0 ≡ 1 ∷ 2 ∷ 3 ∷ 4 ∷ 5 ∷ 6 ∷ 7 ∷ 8 ∷ replicate 8 0
unfolding play fill trim wanted_of skip_of
runs_dry = refl

play-Plays_example :
    Plays list_ring list_laws
      (wanted_of buffer)
      output
      (play list_ring buffer output).1
      (play list_ring buffer output).0
    × (length (play list_ring buffer output).0 ≤ 18)
play-Plays_example = play-Plays list_ring list_laws buffer output
