-- ===== src/FrameBuilder/Tests.antt =====
-- Runs of the parser of src/liblgx/src/FrameBuilder.cpp on frames of four bytes.
use lgx2userspace.Prelude.{
  ◌+◌, ◌≡◌, refl, true, false, none, some, [], ◌∷◌, ◌++◌, arith, Bytes, length, take,
}
use lgx2userspace.FrameBuilder.{
  Sizes, FrameBuilder, fresh, sav_header_valid, eav_header_valid, consume_audio,
}
use lgx2userspace.FrameBuilder.Marker.{process_marker, process_sav}
use lgx2userspace.FrameBuilder.Feed.{
  start_scan, scan, scan_step, begin_video, parse, feed, end_feed, end_scanned, tail_carry,
  work_buffer,
}
use lgx2userspace.FrameBuilder.Feed.Ends.{running, parse_ends}
use lgx2userspace.FrameBuilder.Feed.Carry.{HoldsMarker, tail_not_kept}
use lgx2userspace.FrameBuilder.Feed.Tail.{CarriesTail, parse-CarriesTail}
use lgx2userspace.FrameBuilder.Safe.{IsSafe}
use lgx2userspace.FrameBuilder.Safe.Whole.{feed-IsSafe}
use lgx2userspace.FrameBuilder.Stale.{parse-stale}
use lgx2userspace.FrameBuilder.Frames.{Frame, IsFrame}
use lgx2userspace.FrameBuilder.Frames.Stream.{IsReady}
use lgx2userspace.FrameBuilder.Frames.Chunk.{wires, Passed, feed_frames, feed_after_gap}

abbrev small : Sizes
small = record { frame = 4; tolerance = 1; audio_max = 8; capacity = 8 }

abbrev blank : Bytes
blank = 0 ∷ 0 ∷ 0 ∷ 0 ∷ 0 ∷ 0 ∷ 0 ∷ 0 ∷ []

-- A new parser, with what memory held in `_carry`.
abbrev parser : FrameBuilder
parser = fresh blank blank (7 ∷ 7 ∷ 7 ∷ 7 ∷ 7 ∷ 7 ∷ 7 ∷ 7 ∷ 7 ∷ 7 ∷ 7 ∷ 7 ∷ 7 ∷ 7 ∷ 7 ∷ 7 ∷ [])

-- A frame with the counter 5.
abbrev frame : Frame
frame = record {
  sav = 5 ∷ 0x40 ∷ 0 ∷ 5 ∷ [];
  payload = 1 ∷ 2 ∷ 3 ∷ 4 ∷ [];
  eav = 5 ∷ 0x3F ∷ 0 ∷ 0 ∷ 5 ∷ [];
}

frame-IsFrame : IsFrame small frame
unfolding sav_header_valid eav_header_valid
frame-IsFrame = record {
  sav_size = refl;
  eav_size = refl;
  sav_valid = refl;
  eav_valid = refl;
  paired = refl;
  frame_size = refl;
  clean = (refl, (refl, (refl, (refl, tt))));
}

parser-IsReady : IsReady parser
parser-IsReady = record { free = refl; two = refl; index_in = omega arith }

feed_frames_example :
    Passed (frame ∷ frame ∷ []) parser (feed small (wires (frame ∷ frame ∷ [])) false parser)
feed_frames_example =
    feed_frames small frame (frame ∷ []) parser (omega arith) (omega arith)
      (frame-IsFrame, (frame-IsFrame, tt)) parser-IsReady refl

-- In the middle of an audio packet, with a header carried.
abbrev broken : FrameBuilder
broken = record parser { audio_remaining = 5; carry_len = 9; video_offset = 3 }

feed_after_gap_example : Passed (frame ∷ []) broken (feed small (wires (frame ∷ [])) true broken)
feed_after_gap_example =
    feed_after_gap small frame [] broken (omega arith) (omega arith) (frame-IsFrame, tt) refl
      (omega arith)

parser-IsSafe : IsSafe small parser
parser-IsSafe = (
  record { two = refl; full = (refl, (refl, tt)); index_in = omega arith; offset_in = omega arith },
  record { stored = omega arith; fits = omega arith },
  record { carry_full = refl; carry_in = omega arith },
  tt,
)

feed-IsSafe_example : IsSafe small (feed small (wires (frame ∷ [])) true parser)
feed-IsSafe_example = feed-IsSafe small (omega arith) (wires (frame ∷ [])) true parser parser-IsSafe

parse-stale_example :
    parse small (wires (frame ∷ []) ++ (0 ∷ 0xFF ∷ 0xFF ∷ [])) (length (wires (frame ∷ []))) parser
    ≡ parse small (wires (frame ∷ [])) (length (wires (frame ∷ []))) parser
parse-stale_example = parse-stale small (wires (frame ∷ [])) (0 ∷ 0xFF ∷ 0xFF ∷ []) parser

parse_ends_example :
    running 3 (
      scan
        (3 + 1)
        small
        (1 ∷ 2 ∷ 3 ∷ [])
        3
        (start_scan (consume_audio (1 ∷ 2 ∷ 3 ∷ []) 3 0 parser)))
    ≡ false
parse_ends_example = parse_ends small (1 ∷ 2 ∷ 3 ∷ []) 3 parser

-- The tail `00 FF` is not what the next chunk is put behind.
tail_not_kept_example :
    work_buffer (end_feed small (1 ∷ 0 ∷ 0xFF ∷ []) 3 none parser) (0xFF ∷ 0xC0 ∷ [])
    ≡ take (tail_carry (1 ∷ 0 ∷ 0xFF ∷ []) 3) parser.carry ++ (0xFF ∷ 0xC0 ∷ [])
tail_not_kept_example = tail_not_kept small (1 ∷ 0 ∷ 0xFF ∷ []) 3 parser (0xFF ∷ 0xC0 ∷ []) refl

tail_lost :
    work_buffer (feed small (1 ∷ 0 ∷ 0xFF ∷ []) false parser) (0xFF ∷ 0xC0 ∷ [])
    ≡ 7 ∷ 7 ∷ 0xFF ∷ 0xC0 ∷ []
unfolding feed parse scan end_feed end_scanned tail_carry consume_audio
tail_lost = refl

-- A parser that has seen a header run past the end of a chunk.
abbrev marked : FrameBuilder
marked = record parser {
  carry = 0 ∷ 0xFF ∷ 0xFF ∷ 7 ∷ 7 ∷ 7 ∷ 7 ∷ 7 ∷ 7 ∷ 7 ∷ 7 ∷ 7 ∷ 7 ∷ 7 ∷ 7 ∷ 7 ∷ [];
}

parse-CarriesTail_example :
    CarriesTail (1 ∷ 0 ∷ 0xFF ∷ []) (parse small (1 ∷ 0 ∷ 0xFF ∷ []) 3 marked)
    × HoldsMarker (parse small (1 ∷ 0 ∷ 0xFF ∷ []) 3 marked).carry
parse-CarriesTail_example = parse-CarriesTail small (1 ∷ 0 ∷ 0xFF ∷ []) marked refl

-- A chunk that ends inside a header.
abbrev cut : Bytes
cut = 1 ∷ 0 ∷ 0xFF ∷ 0xFF ∷ 0xC0 ∷ 5 ∷ []

cut-pending :
    (scan
      (length cut + 1)
      small
      cut
      (length cut)
      (start_scan (consume_audio cut (length cut) 0 (begin_video parser)))).pending
    ≡ some 1
unfolding scan scan_step process_marker process_sav consume_audio
cut-pending = refl
