-- ===== src/CaptureStream/Gaps.antt =====
-- What the gap flags of src/liblgx/liblgx-usb/src/usb/CaptureStream.cpp tell the consumer, and the
-- account of every chunk.
use lgx2userspace.Prelude.{
  ◌+◌, ◌≤◌, ◌<◌, ◌≡◌, ◌≢◌, refl, ap, ◌∙◌, Bool, true, false, ◌||◌, List, [], ◌∷◌, ◌++◌, arith, ◌==◌,
  Bytes, length, append-nil, append_assoc, length-append,
}
use lgx2userspace.CaptureStream.{Chunk, CaptureStream, ring_slots, clamp_chunk}
use lgx2userspace.CaptureStream.Window.{contents}
use lgx2userspace.CaptureStream.Push.{length-contents}
use lgx2userspace.CaptureStream.Spec.{
  ChunkQueue, queue_of, tail, push, Op, enqueue, lost, drain, skip, spec, calls, specs,
}
use lgx2userspace.CaptureStream.Refine.{IsLive, calls_refine}

-- A chunk with bytes in it.
abbrev pub HasBytes : Bytes → Type 0
HasBytes bytes = (length bytes == 0) ≡ false

-- When a chunk arrives at a full ring, the consumer next gets the seven younger chunks with the
-- flags that they had, the first of them included, and then the new chunk, flagged: the flag does
-- not stand on the chunk behind the one that was lost.
pub overflow_flags :
    (bytes : Bytes) (gapped : Bool) (s : CaptureStream)
    → IsLive s
    → s.ring_count ≡ ring_slots
    → HasBytes bytes
    → calls (enqueue bytes gapped ∷ drain ∷ []) s
      ≡ tail (contents s) ++ ((clamp_chunk bytes, true) ∷ [])
unfolding specs spec push
overflow_flags bytes gapped s live full some_bytes =
    calls_refine (enqueue bytes gapped ∷ drain ∷ []) s live
    ∙ ground (
      arith,
      length-contents s,
      append-nil (tail (contents s) ++ ((clamp_chunk bytes, true) ∷ [])),
      append-nil (contents s),
    )

-- The calls that store the given chunks.
abbrev pub stores : List Chunk → List Op → List Op
stores [] rest = rest
stores (c ∷ cs) rest = enqueue c.0 c.1 ∷ stores cs rest

-- The chunks as they are stored, the first behind a pending gap if there is one.
abbrev pub flagged : Bool → List Chunk → List Chunk
flagged gap [] = []
flagged gap (c ∷ cs) = (clamp_chunk c.0, gap || c.1) ∷ flagged false cs

abbrev pub AllHaveBytes : List Chunk → Type 0
AllHaveBytes [] = Unit
AllHaveBytes (c ∷ cs) = HasBytes c.0 × AllHaveBytes cs

specs-stores :
    (cs : List Chunk) (q : ChunkQueue)
    → length q.chunks + length cs ≤ ring_slots
    → AllHaveBytes cs
    → specs (stores cs (drain ∷ [])) q ≡ q.chunks ++ flagged q.gap cs
unfolding specs spec
specs-stores [] q room some_bytes = refl
specs-stores (c ∷ cs) q room some_bytes =
    let q' : ChunkQueue = record {
      chunks = q.chunks ++ ((clamp_chunk c.0, q.gap || c.1) ∷ []);
      gap = false;
    } in
    let stored : push c.0 c.1 q ≡ q' = unfold push in ground arith in
    rw some_bytes.0 (
      ap (specs (stores cs (drain ∷ []))) stored
      ∙ specs-stores cs q'
          (omega (arith, length-append q.chunks ((clamp_chunk c.0, q.gap || c.1) ∷ [])))
          some_bytes.1
      ∙ append_assoc q.chunks ((clamp_chunk c.0, q.gap || c.1) ∷ []) (flagged false cs))

-- While the chunks fit beside those held, the consumer gets every chunk, in order, with its own
-- flag; the first of them is flagged too if a gap was pending.
pub stores_lossless :
    (cs : List Chunk) (s : CaptureStream)
    → IsLive s
    → s.ring_count + length cs ≤ ring_slots
    → AllHaveBytes cs
    → calls (stores cs (drain ∷ [])) s ≡ contents s ++ flagged s.gap_pending cs
stores_lossless cs s live room some_bytes =
    calls_refine (stores cs (drain ∷ [])) s live
    ∙ specs-stores cs (queue_of s) (omega (arith, length-contents s)) some_bytes

-- After a discard of chunks that were held, the consumer gets the next chunk that is stored, alone and
-- flagged, whatever its own flag.
pub skip_flags :
    (bytes : Bytes) (gapped : Bool) (s : CaptureStream)
    → IsLive s
    → HasBytes bytes
    → s.ring_count ≢ 0
    → calls (skip ∷ enqueue bytes gapped ∷ drain ∷ []) s ≡ (clamp_chunk bytes, true) ∷ []
unfolding specs spec push
skip_flags bytes gapped s live some_bytes held =
    calls_refine (skip ∷ enqueue bytes gapped ∷ drain ∷ []) s live
    ∙ ground (arith, length-contents s)

-- After the event thread marked a gap, the next chunk that is stored reaches the consumer behind the
-- chunks held and flagged, whatever its own flag, while there is room for it.
pub gap_flags :
    (bytes : Bytes) (gapped : Bool) (s : CaptureStream)
    → IsLive s
    → HasBytes bytes
    → s.ring_count < ring_slots
    → calls (lost ∷ enqueue bytes gapped ∷ drain ∷ []) s
      ≡ contents s ++ ((clamp_chunk bytes, true) ∷ [])
unfolding specs spec push
gap_flags bytes gapped s live some_bytes room =
    calls_refine (lost ∷ enqueue bytes gapped ∷ drain ∷ []) s live
    ∙ ground (arith, length-contents s, append-nil (contents s ++ ((clamp_chunk bytes, true) ∷ [])))
