-- ===== src/CaptureStream/Spec.antt =====
-- The bounded queue that the ring of src/liblgx/liblgx-usb/src/usb/CaptureStream.cpp stands for, and
-- the entry points that touch it, as the event thread and the consumer call them.
use lgx2userspace.Prelude.{
  Bool, true, false, ◌||◌, Option, none, some, List, [], ◌∷◌, ◌++◌, ◌==◌, if◌then◌else◌, Bytes,
  length,
}
use lgx2userspace.CaptureStream.{
  Chunk, CaptureStream, ring_slots, clamp_chunk, enqueue_chunk, mark_gap, deliver_one, deliver,
  discard,
}
use lgx2userspace.CaptureStream.Window.{contents}

-- The abstract queue: the chunks, oldest first, and whether the next one follows a gap.
pub record ChunkQueue : Type 0 where
  pub chunks : List Chunk
  pub gap : Bool

abbrev pub queue_of : CaptureStream → ChunkQueue
queue_of s = record { chunks = contents s; gap = s.gap_pending }

abbrev pub tail : List Chunk → List Chunk
tail [] = []
tail (c ∷ cs) = cs

abbrev pub first : List Chunk → List Chunk
first [] = []
first (c ∷ cs) = c ∷ []

-- A full queue loses its oldest chunk, and the gap is flagged on the chunk that comes in.
unfoldable pub push : Bytes → Bool → ChunkQueue → ChunkQueue
push bytes gapped q =
    if length q.chunks == ring_slots
    then record { chunks = tail q.chunks ++ ((clamp_chunk bytes, true) ∷ []); gap = false }
    else record { chunks = q.chunks ++ ((clamp_chunk bytes, q.gap || gapped) ∷ []); gap = false }

-- `deliver` holds the mutex for one chunk at a time and calls the callback without it: it is a run of
-- rounds, `deliver_round`, with the calls of the event thread anywhere between them. `drain` is a
-- whole `deliver` that nothing falls into.
pub data Op : Type 0 where
  enqueue : Bytes → Bool → Op
  lost : Op
  deliver_round : Op
  drain : Op
  skip : Op

-- What a round hands to the callback.
abbrev given : Option Chunk → List Chunk
given none = []
given (some c) = c ∷ []

-- A call on the stream, with the chunks that go to the callback.
unfoldable pub call : Op → CaptureStream → List Chunk × CaptureStream
call (enqueue bytes gapped) s = ([], enqueue_chunk bytes gapped s)
call lost s = ([], mark_gap s)
call deliver_round s = let (chunk, s') = deliver_one s in (given chunk, s')
call drain s = deliver s
call skip s = ([], discard s)

-- The same call on the queue.
unfoldable pub spec : Op → ChunkQueue → List Chunk × ChunkQueue
spec (enqueue bytes gapped) q = ([], if length bytes == 0 then q else push bytes gapped q)
spec lost q = ([], record q { gap = true })
spec deliver_round q = (first q.chunks, record q { chunks = tail q.chunks })
spec drain q = (q.chunks, record q { chunks = [] })
spec skip q = ([], if length q.chunks == 0 then q else record { chunks = []; gap = true })

-- The chunks that the callback gets over a sequence of calls, in order.
unfoldable pub calls : List Op → CaptureStream → List Chunk
calls [] s = []
calls (op ∷ ops) s = (call op s).0 ++ calls ops (call op s).1

unfoldable pub specs : List Op → ChunkQueue → List Chunk
specs [] q = []
specs (op ∷ ops) q = (spec op q).0 ++ specs ops (spec op q).1
