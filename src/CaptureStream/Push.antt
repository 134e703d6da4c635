-- ===== src/CaptureStream/Push.antt =====
-- How storing a chunk (`enqueueChunk` of src/liblgx/liblgx-usb/src/usb/CaptureStream.cpp) changes the
-- queue that the ring stands for.
use lgx2userspace.Prelude.{
  ℕ, suc, ◌+◌, ◌-◌, ◌%◌, ◌<◌, ◌≡◌, refl, sym, ap, ap₂, ◌∙◌, Bool, true, false, ◌||◌, List, [], ◌∷◌,
  ◌++◌, arith, Bytes, length, get_or, set, drop, length-set, take-append_left, take-length,
  get_or-set_self, ℕ_discrete,
}
use lgx2userspace.CaptureStream.{
  RingSlot, CaptureStream, ring_slots, chunk_of, empty_slot, clamp_chunk, fill_slot, push_chunk,
}
use lgx2userspace.CaptureStream.Window.{
  IsValid, window, contents, length-window, window_mod, window_snoc, window-set,
}
use lgx2userspace.CaptureStream.Spec.{queue_of, tail, push}

chunk_of-fill_slot :
    (slot : RingSlot) (bytes : Bytes) (gapped : Bool)
    → chunk_of (fill_slot slot bytes gapped) ≡ (bytes, gapped)
unfolding fill_slot
chunk_of-fill_slot slot bytes gapped =
    ap (λ b. (b, gapped))
      (take-append_left (length bytes) bytes (drop (length bytes) slot.buffer) (omega arith)
        ∙ take-length bytes)

-- A slot written just behind a window that does not fill the ring extends it.
window_push :
    (ring : List RingSlot) (h n i : ℕ) (v : RingSlot)
    → length ring ≡ ring_slots
    → n < ring_slots
    → i ≡ (h + n) % ring_slots
    → window (set ring i v) h (suc n) ≡ window ring h n ++ (chunk_of v ∷ [])
window_push ring h n i v len p e =
    window_snoc (set ring i v) h n
    ∙ ap₂ (λ w c. w ++ (chunk_of c ∷ [])) (window-set ring h n n i v (omega arith) p e)
        (ap (λ j. get_or (set ring i v) j empty_slot) (sym e)
          ∙ get_or-set_self ring i v empty_slot (omega arith))

pub push-IsValid :
    (bytes : Bytes) (gapped : Bool) (s : CaptureStream)
    → IsValid s
    → IsValid (push_chunk bytes gapped s)
unfolding push_chunk
push-IsValid bytes gapped s v = record {
  slots = length-set s.ring s.ring_write _ ∙ v.slots;
  write_in = omega arith;
  count_in = ground (arith, v.count_in);
}

-- What `push_chunk` does to the fields that the queue reads, by whether the ring is full.
push_room :
    (bytes : Bytes) (gapped : Bool) (s : CaptureStream)
    → s.ring_count < ring_slots
    → (slot : RingSlot) × ((push_chunk bytes gapped s).ring ≡ set s.ring s.ring_write slot)
      × (chunk_of slot ≡ (clamp_chunk bytes, s.gap_pending || gapped))
      × ((push_chunk bytes gapped s).ring_count ≡ s.ring_count + 1)
unfolding push_chunk
push_room bytes gapped s room = (
  fill_slot (get_or s.ring s.ring_write empty_slot) (clamp_chunk bytes) (s.gap_pending || gapped),
  ground arith,
  chunk_of-fill_slot _ _ _,
  ground arith,
)

push_full :
    (bytes : Bytes) (gapped : Bool) (s : CaptureStream)
    → s.ring_count ≡ ring_slots
    → (slot : RingSlot) × ((push_chunk bytes gapped s).ring ≡ set s.ring s.ring_write slot)
      × (chunk_of slot ≡ (clamp_chunk bytes, true))
      × ((push_chunk bytes gapped s).ring_count ≡ ring_slots)
unfolding push_chunk
push_full bytes gapped s full = (
  fill_slot (get_or s.ring s.ring_write empty_slot) (clamp_chunk bytes) true,
  ground arith,
  chunk_of-fill_slot _ _ _,
  ground arith,
)

ring_write-push_chunk :
    (bytes : Bytes) (gapped : Bool) (s : CaptureStream)
    → (push_chunk bytes gapped s).ring_write ≡ (s.ring_write + 1) % ring_slots
unfolding push_chunk
ring_write-push_chunk bytes gapped s = refl

contents-window :
    (t : CaptureStream) (ring : List RingSlot) (h n : ℕ)
    → t.ring ≡ ring
    → t.ring_count ≡ n
    → (t.ring_write + ring_slots - n) % ring_slots ≡ h % ring_slots
    → contents t ≡ window ring h n
contents-window t ring h n er en eh =
    let same : contents t ≡ window ring (t.ring_write + ring_slots - n) n = cc in
    same ∙ window_mod ring (t.ring_write + ring_slots - n) h n eh

pub contents-room :
    (bytes : Bytes) (gapped : Bool) (s : CaptureStream)
    → IsValid s
    → s.ring_count < ring_slots
    → contents (push_chunk bytes gapped s)
      ≡ contents s ++ ((clamp_chunk bytes, s.gap_pending || gapped) ∷ [])
contents-room bytes gapped s v room =
    let (slot, ring, chunk, count) = push_room bytes gapped s room in
    let h : ℕ = s.ring_write + ring_slots - s.ring_count in
    contents-window (push_chunk bytes gapped s) (set s.ring s.ring_write slot) h (suc s.ring_count)
      ring (omega (arith, count))
      (omega (arith, ring_write-push_chunk bytes gapped s, v.write_in, v.count_in))
    ∙ window_push s.ring h s.ring_count s.ring_write slot v.slots room
        (omega (arith, v.write_in, v.count_in))
    ∙ ap (λ c. contents s ++ (c ∷ [])) chunk

pub contents-full :
    (bytes : Bytes) (gapped : Bool) (s : CaptureStream)
    → IsValid s
    → s.ring_count ≡ ring_slots
    → contents (push_chunk bytes gapped s) ≡ tail (contents s) ++ ((clamp_chunk bytes, true) ∷ [])
contents-full bytes gapped s v full =
    let (slot, ring, chunk, count) = push_full bytes gapped s full in
    let h : ℕ = s.ring_write + 1 in
    contents-window (push_chunk bytes gapped s) (set s.ring s.ring_write slot) h ring_slots ring
      count (omega (arith, ring_write-push_chunk bytes gapped s, v.write_in))
    ∙ window_push s.ring h 7 s.ring_write slot v.slots (omega arith) (omega (arith, v.write_in))
    ∙ ap₂ (λ cs c. cs ++ (c ∷ []))
        (sym (ap tail (contents-window s s.ring s.ring_write ring_slots refl full (omega arith))))
        chunk

gap_pending-push_chunk :
    (bytes : Bytes) (gapped : Bool) (s : CaptureStream)
    → (push_chunk bytes gapped s).gap_pending ≡ false
unfolding push_chunk
gap_pending-push_chunk bytes gapped s = refl

pub length-contents : (s : CaptureStream) → length (contents s) ≡ s.ring_count
length-contents s = length-window s.ring (s.ring_write + ring_slots - s.ring_count) s.ring_count

pub push_refines :
    (bytes : Bytes) (gapped : Bool) (s : CaptureStream)
    → IsValid s
    → queue_of (push_chunk bytes gapped s) ≡ push bytes gapped (queue_of s)
unfolding push
push_refines bytes gapped s v = elim (ℕ_discrete s.ring_count ring_slots) [
  | yes full ↦ ground (
    arith,
    length-contents s,
    contents-full bytes gapped s v full,
    gap_pending-push_chunk bytes gapped s,
  )
  | no room ↦ ground (
    arith,
    length-contents s,
    contents-room bytes gapped s v (omega (arith, v.count_in)),
    gap_pending-push_chunk bytes gapped s,
  )
]
