-- ===== src/CaptureStream/Refine.antt =====
-- The ring of src/liblgx/liblgx-usb/src/usb/CaptureStream.cpp, call by call, against its bounded queue.
use lgx2userspace.Prelude.{
  ℕ, zero, suc, ◌+◌, ◌-◌, ◌%◌, ◌≤◌, ◌≡◌, refl, sym, ap, ap₂, ◌∙◌, Bool, true, false, inl, inr,
  Option, none, some, List, [], ◌∷◌, ◌++◌, arith, ◌==◌, if◌then◌else◌, Bytes, length, get_or,
  Bool-cases,
}
use lgx2userspace.CaptureStream.{
  Chunk, CaptureStream, ring_slots, chunk_of, empty_slot, read_index, dump_chunk, push_chunk,
  enqueue_chunk, mark_gap, deliver_one, deliver_rounds, deliver, discard,
}
use lgx2userspace.CaptureStream.Window.{IsValid, window, contents}
use lgx2userspace.CaptureStream.Spec.{
  queue_of, push, Op, enqueue, lost, deliver_round, drain, skip, first, tail, call, spec, calls,
  specs,
}
use lgx2userspace.CaptureStream.Push.{push-IsValid, push_refines, length-contents}

-- The dump file is all that `dumpChunk` changes.
dump_frame :
    (bytes : Bytes) (gapped : Bool) (s : CaptureStream)
    → dump_chunk bytes gapped s ≡ record s {
      dump = (dump_chunk bytes gapped s).dump;
      dump_count = (dump_chunk bytes gapped s).dump_count;
    }
unfolding dump_chunk
dump_frame bytes gapped s = ground arith

dump_chunk-IsValid :
    (bytes : Bytes) (gapped : Bool) (s : CaptureStream)
    → IsValid s
    → IsValid (dump_chunk bytes gapped s)
dump_chunk-IsValid bytes gapped s v =
    rw (dump_frame bytes gapped s)
      (record { slots = v.slots; write_in = v.write_in; count_in = v.count_in })

enqueue_pushes :
    (bytes : Bytes) (gapped : Bool) (s : CaptureStream)
    → s.shutting_down ≡ false
    → enqueue_chunk bytes gapped s
      ≡ (if length bytes == 0 then s else push_chunk bytes gapped (dump_chunk bytes gapped s))
unfolding enqueue_chunk
enqueue_pushes bytes gapped s up = rw up

shutting_down-push_chunk :
    (bytes : Bytes) (gapped : Bool) (s : CaptureStream)
    → (push_chunk bytes gapped s).shutting_down ≡ s.shutting_down
unfolding push_chunk
shutting_down-push_chunk bytes gapped s = refl

-- The ring is in use: valid, and the stream is not being stopped.
pub record IsLive (s : CaptureStream) : Type 0 where
  pub valid : IsValid s
  pub up : s.shutting_down ≡ false

enqueue-IsLive :
    (bytes : Bytes) (gapped : Bool) (s : CaptureStream)
    → IsLive s
    → IsLive (enqueue_chunk bytes gapped s)
enqueue-IsLive bytes gapped s live =
    rw (enqueue_pushes bytes gapped s live.up) (elim (Bool-cases (length bytes == 0)) [
      | inl empty ↦ rw empty live
      | inr some_bytes ↦ rw some_bytes (record {
        valid = push-IsValid bytes gapped _ (dump_chunk-IsValid bytes gapped s live.valid);
        up =
            shutting_down-push_chunk bytes gapped _
            ∙ ap (λ (t : CaptureStream). t.shutting_down) (dump_frame bytes gapped s)
            ∙ live.up;
      })
    ])

enqueue_refines :
    (bytes : Bytes) (gapped : Bool) (s : CaptureStream)
    → IsLive s
    → queue_of (enqueue_chunk bytes gapped s)
      ≡ (if length bytes == 0 then queue_of s else push bytes gapped (queue_of s))
enqueue_refines bytes gapped s live =
    rw (enqueue_pushes bytes gapped s live.up) (elim (Bool-cases (length bytes == 0)) [
      | inl empty ↦ rw empty
      | inr some_bytes ↦ rw some_bytes (
          push_refines bytes gapped _ (dump_chunk-IsValid bytes gapped s live.valid)
          ∙ ap (λ t. push bytes gapped (queue_of t)) (dump_frame bytes gapped s))
    ])

deliver_one-none : (s : CaptureStream) → s.ring_count ≡ 0 → deliver_one s ≡ (none, s)
unfolding deliver_one
deliver_one-none s e = rw e

deliver_one-some :
    (n : ℕ) (s : CaptureStream)
    → s.ring_count ≡ suc n
    → deliver_one s
      ≡ (some (chunk_of (get_or s.ring (read_index s) empty_slot)), record s { ring_count = n })
unfolding deliver_one
deliver_one-some n s e = ground arith

rounds-none :
    (f : ℕ) (s t : CaptureStream) → deliver_one s ≡ (none, t) → deliver_rounds (suc f) s ≡ ([], t)
unfolding deliver_rounds
rounds-none f s t e =
    rw (e, deliver_rounds) (ap (λ (p : Option Chunk × CaptureStream). ([], p.1)) e)

rounds-some :
    (f : ℕ) (s t u : CaptureStream) (c : Chunk) (cs : List Chunk)
    → deliver_one s ≡ (some c, t)
    → deliver_rounds f t ≡ (cs, u)
    → deliver_rounds (suc f) s ≡ (c ∷ cs, u)
unfolding deliver_rounds
rounds-some f s t u c cs e e' =
    rw (e, deliver_rounds)
      (ap (λ (p : List Chunk × CaptureStream). (c ∷ p.0, p.1))
        (ap (λ (p : Option Chunk × CaptureStream). deliver_rounds f p.1) e ∙ e'))

-- The chunk at the read index is the oldest, and the others stay.
oldest :
    (n : ℕ) (s : CaptureStream)
    → s.ring_count ≡ suc n
    → suc n ≤ ring_slots
    → chunk_of (get_or s.ring (read_index s) empty_slot) ∷ contents (record s { ring_count = n })
      ≡ contents s
oldest n s e b =
    let h : ℕ = s.ring_write + ring_slots - suc n in
    ap₂ ◌∷◌
      (ap (λ k. chunk_of (get_or s.ring ((s.ring_write + ring_slots - k) % ring_slots) empty_slot))
        e)
      (ap (λ k. window s.ring k n) (omega arith))
    ∙ ap (λ k. window s.ring (s.ring_write + ring_slots - k) k) (sym e)

deliver_rounds_lem :
    (n : ℕ) (s : CaptureStream)
    → s.ring_count ≡ n
    → n ≤ ring_slots
    → deliver_rounds (suc n) s ≡ (contents s, record s { ring_count = 0 })
deliver_rounds_lem zero s e b =
    rounds-none zero s s (deliver_one-none s e)
    ∙ ap (λ n. ([], record s { ring_count = n })) e
    ∙ ap (λ n. (window s.ring (s.ring_write + ring_slots - n) n, record s { ring_count = 0 }))
        (sym e)
deliver_rounds_lem (suc n) s e b =
    let t : CaptureStream = record s { ring_count = n } in
    rounds-some (suc n) s t (record s { ring_count = 0 }) _ (contents t) (deliver_one-some n s e)
      (deliver_rounds_lem n t refl (omega arith))
    ∙ ap (λ cs. (cs, record s { ring_count = 0 })) (oldest n s e b)

deliver_lem :
    (s : CaptureStream) → IsValid s → deliver s ≡ (contents s, record s { ring_count = 0 })
unfolding deliver
deliver_lem s v =
    ap (λ n. deliver_rounds n s) {y = suc s.ring_count} (omega arith)
    ∙ deliver_rounds_lem s.ring_count s refl v.count_in

emptied :
    (s : CaptureStream) (gap : Bool)
    → IsLive s
    → IsLive (record s { ring_count = 0; gap_pending = gap })
emptied s gap live = record {
  valid = record {
    slots = live.valid.slots;
    write_in = live.valid.write_in;
    count_in = omega arith;
  };
  up = live.up;
}

round_refines :
    (n : ℕ) (s : CaptureStream)
    → s.ring_count ≡ n
    → IsLive s
    → ((call deliver_round s).0 ≡ first (contents s))
      × (queue_of (call deliver_round s).1
          ≡ record { chunks = tail (contents s); gap = s.gap_pending })
      × IsLive (call deliver_round s).1
unfolding call
round_refines zero s e live =
    let empty : contents s ≡ [] = ap (λ n. window s.ring (s.ring_write + ring_slots - n) n) e in
    rw (deliver_one-none s e) (
      sym (ap first empty),
      ap (λ cs. record { chunks = cs; gap = s.gap_pending }) (empty ∙ sym (ap tail empty)),
      live,
    )
round_refines (suc n) s e live =
    let old = oldest n s e (omega (arith, live.valid.count_in)) in
    rw (deliver_one-some n s e) (
      ap first old,
      ap (λ cs. record { chunks = tail cs; gap = s.gap_pending }) old,
      record {
        valid = record {
          slots = live.valid.slots;
          write_in = live.valid.write_in;
          count_in = omega (arith, live.valid.count_in);
        };
        up = live.up;
      },
    )

-- A call keeps the ring in use, and does to its queue what the specification says.
pub call_refines :
    (op : Op) (s : CaptureStream)
    → IsLive s
    → ((call op s).0 ≡ (spec op (queue_of s)).0)
      × (queue_of (call op s).1 ≡ (spec op (queue_of s)).1)
      × IsLive (call op s).1
unfolding call spec mark_gap discard
call_refines (enqueue bytes gapped) s live =
    (refl, enqueue_refines bytes gapped s live, enqueue-IsLive bytes gapped s live)
call_refines lost s live = (
  refl,
  refl,
  record {
    valid = record {
      slots = live.valid.slots;
      write_in = live.valid.write_in;
      count_in = live.valid.count_in;
    };
    up = live.up;
  },
)
call_refines deliver_round s live = round_refines s.ring_count s refl live
call_refines drain s live =
    let empty : IsLive (record s { ring_count = 0 }) = emptied s s.gap_pending live in
    rw (deliver_lem s live.valid) (refl, refl, empty)
call_refines skip s live = elim (Bool-cases (s.ring_count == 0)) [
  | inl none_held ↦ rw (length-contents s, none_held) (refl, refl, live)
  | inr held ↦ rw (length-contents s, held) (refl, refl, emptied s true live)
]

-- Whatever the order in which the event thread stores chunks and marks gaps and the consumer takes
-- chunks in the rounds of a delivery or discards, a ring in use hands out the chunks that the bounded
-- queue hands out. The event thread's calls may fall between any two rounds, since `deliver` gives its
-- mutex up for each callback.
pub calls_refine :
    (ops : List Op) (s : CaptureStream) → IsLive s → calls ops s ≡ specs ops (queue_of s)
unfolding calls specs
calls_refine [] s live = refl
calls_refine (op ∷ ops) s live =
    let (out, state, live') = call_refines op s live in
    ap₂ ◌++◌ out (calls_refine ops (call op s).1 live' ∙ ap (specs ops) state)
