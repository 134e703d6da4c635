-- ===== src/CaptureStream/Window.antt =====
-- The chunks that the ring of src/liblgx/liblgx-usb/src/usb/CaptureStream.cpp holds, oldest first,
-- and its representation invariant.
use lgx2userspace.Prelude.{
  ℕ, zero, suc, ◌+◌, ◌-◌, ◌%◌, ◌≤◌, ◌<◌, ◌≡◌, refl, ap, ap₂, ◌∙◌, List, [], ◌∷◌, ◌++◌, arith,
  length, get_or, set, get_or-set_ne,
}
use lgx2userspace.CaptureStream.{RingSlot, Chunk, CaptureStream, chunk_of, empty_slot, ring_slots}

-- The ring has its eight slots, and the two counters are in range.
pub record IsValid (s : CaptureStream) : Type 0 where
  pub slots : length s.ring ≡ ring_slots
  pub write_in : s.ring_write < ring_slots
  pub count_in : s.ring_count ≤ ring_slots

-- The `n` chunks from slot `h % 8` on, going round.
abbrev pub window : List RingSlot → ℕ → ℕ → List Chunk
window ring h zero = []
window ring h (suc n) = chunk_of (get_or ring (h % ring_slots) empty_slot) ∷ window ring (h + 1) n

abbrev pub contents : CaptureStream → List Chunk
contents s = window s.ring (s.ring_write + ring_slots - s.ring_count) s.ring_count

pub length-window : (ring : List RingSlot) (h n : ℕ) → length (window ring h n) ≡ n
length-window ring h zero = refl
length-window ring h (suc n) = ap suc (length-window ring (h + 1) n)

-- A window depends on its start up to multiples of the ring's size.
pub window_mod :
    (ring : List RingSlot) (h k n : ℕ)
    → h % ring_slots ≡ k % ring_slots
    → window ring h n ≡ window ring k n
window_mod ring h k zero e = refl
window_mod ring h k (suc n) e =
    ap₂ ◌∷◌ (ap (λ i. chunk_of (get_or ring i empty_slot)) e)
      (window_mod ring (h + 1) (k + 1) n (omega arith))

-- A window of `n + 1` slots is one of `n`, and the slot behind it.
pub window_snoc :
    (ring : List RingSlot) (h n : ℕ)
    → window ring h (suc n)
      ≡ window ring h n ++ (chunk_of (get_or ring ((h + n) % ring_slots) empty_slot) ∷ [])
window_snoc ring h zero = ap (λ i. chunk_of (get_or ring i empty_slot) ∷ []) (omega arith)
window_snoc ring h (suc n) = ap (◌∷◌ (chunk_of (get_or ring (h % ring_slots) empty_slot))) (
    window_snoc ring (h + 1) n
    ∙ ap (λ i. window ring (h + 1) n ++ (chunk_of (get_or ring i empty_slot) ∷ [])) (omega arith))

-- A write behind the window does not change it.
pub window-set :
    (ring : List RingSlot) (h n k i : ℕ) (v : RingSlot)
    → n ≤ k
    → k < ring_slots
    → i ≡ (h + k) % ring_slots
    → window (set ring i v) h n ≡ window ring h n
window-set ring h zero k i v p q e = refl
window-set ring h (suc n) zero i v p q e = absurd (omega arith)
window-set ring h (suc n) (suc k) i v p q e =
    ap₂ ◌∷◌ (ap chunk_of (get_or-set_ne ring i (h % ring_slots) v empty_slot (omega arith)))
      (window-set ring (h + 1) n k i v (omega arith) (omega arith) (omega arith))
