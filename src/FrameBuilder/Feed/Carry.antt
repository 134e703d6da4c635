-- ===== src/FrameBuilder/Feed/Carry.antt =====
-- What `FrameBuilder::feed` (src/liblgx/src/FrameBuilder.cpp) carries from one chunk to the next.
use lgx2userspace.Prelude.{
  ℕ, suc, ◌-◌, ◌≤◌, ◌<◌, ◌≡◌, ap, ap₂, ◌∙◌, false, inl, inr, ◌⊎◌, none, [], ◌∷◌, ◌++◌, arith, Bytes,
  length, take, slice, slice-cons, slice-nil,
}
use lgx2userspace.FrameBuilder.{Sizes, FrameBuilder, flush_video, is_audio, byte_at}
use lgx2userspace.FrameBuilder.Feed.{flush_if_video, end_scanned, end_feed, tail_carry, work_buffer}

-- `_carry` begins like a marker.
abbrev pub HoldsMarker : Bytes → Type 0
HoldsMarker carry = take 3 carry ≡ 0x00 ∷ 0xFF ∷ 0xFF ∷ []

pub flush_if-carry :
    (k : Sizes) (buf : Bytes) (end : ℕ) (s : FrameBuilder)
    → ((flush_if_video k buf end s).carry ≡ s.carry)
      × ((flush_if_video k buf end s).carry_len ≡ s.carry_len)
      × ((flush_if_video k buf end s).state ≡ s.state)
unfolding flush_video
flush_if-carry k buf end s = ground arith

-- A chunk that ends in what may begin a marker notes how many bytes that is, and leaves `_carry` as
-- it was: the next chunk is put behind the bytes that `_carry` happens to hold, whatever the tail
-- of this chunk was.
pub tail_not_kept :
    (k : Sizes) (buf : Bytes) (n : ℕ) (s : FrameBuilder) (chunk : Bytes)
    → is_audio s.state ≡ false
    → work_buffer (end_feed k buf n none s) chunk ≡ take (tail_carry buf n) s.carry ++ chunk
unfolding end_feed end_scanned
tail_not_kept k buf n s chunk free =
    let t : FrameBuilder = record s { carry_len = tail_carry buf n } in
    let (bytes, len, _) = flush_if-carry k buf (n - tail_carry buf n) t in
    simp free (ap₂ (λ c l. take l c ++ chunk) bytes len)

pub tail_cases :
    (buf : Bytes) (n : ℕ)
    → (tail_carry buf n ≡ 0)
      ⊎ ((tail_carry buf n ≡ 1) × (1 ≤ n) × (byte_at buf (n - 1) ≡ 0x00))
      ⊎ ((tail_carry buf n ≡ 2)
          × (2 ≤ n)
          × (byte_at buf (n - 2) ≡ 0x00)
          × (byte_at buf (n - 1) ≡ 0xFF))
      ⊎ ((tail_carry buf n ≡ 3)
          × (3 ≤ n)
          × (byte_at buf (n - 3) ≡ 0x00)
          × (byte_at buf (n - 2) ≡ 0xFF)
          × (byte_at buf (n - 1) ≡ 0xFF))
unfolding tail_carry
tail_cases buf n = ground arith

pub cons_slice :
    (buf : Bytes) (a x : ℕ)
    → a < length buf
    → byte_at buf a ≡ x
    → slice buf a (length buf) ≡ x ∷ slice buf (suc a) (length buf)
cons_slice buf a x h e =
    slice-cons buf a (length buf) 0 h h ∙ ap (λ y. y ∷ slice buf (suc a) (length buf)) e

last_one :
    (buf : Bytes) (x : ℕ)
    → 1 ≤ length buf
    → byte_at buf (length buf - 1) ≡ x
    → slice buf (length buf - 1) (length buf) ≡ x ∷ []
last_one buf x h e =
    cons_slice buf (length buf - 1) x (omega arith) e
    ∙ ap (◌∷◌ x) (slice-nil buf (suc (length buf - 1)) (length buf) (omega arith))

last_cons :
    (buf : Bytes) (k x : ℕ)
    → suc k ≤ length buf
    → byte_at buf (length buf - suc k) ≡ x
    → slice buf (length buf - suc k) (length buf) ≡ x ∷ slice buf (length buf - k) (length buf)
last_cons buf k x h e =
    cons_slice buf (length buf - suc k) x (omega arith) e
    ∙ ap (λ i. x ∷ slice buf i (length buf)) (omega arith)

last_two :
    (buf : Bytes)
    → 2 ≤ length buf
    → byte_at buf (length buf - 2) ≡ 0x00
    → byte_at buf (length buf - 1) ≡ 0xFF
    → slice buf (length buf - 2) (length buf) ≡ 0x00 ∷ 0xFF ∷ []
last_two buf h b2 b1 =
    last_cons buf 1 0x00 h b2 ∙ ap (◌∷◌ 0x00) (last_one buf 0xFF (omega arith) b1)

-- The tail that is noted is a beginning of `00 FF FF`.
pub tail_is_prefix :
    (buf : Bytes)
    → slice buf (length buf - tail_carry buf (length buf)) (length buf)
      ≡ take (tail_carry buf (length buf)) (0x00 ∷ 0xFF ∷ 0xFF ∷ [])
tail_is_prefix buf = elim (tail_cases buf (length buf)) [
  | inl e ↦ rw e (slice-nil buf (length buf - 0) (length buf) (omega arith))
  | inr (inl (e, room, b1)) ↦ rw e (last_one buf 0x00 room b1)
  | inr (inr (inl (e, room, b2, b1))) ↦ rw e (last_two buf room b2 b1)
  | inr (inr (inr (e, room, b3, b2, b1))) ↦ rw e (
      last_cons buf 2 0x00 room b3
      ∙ ap (◌∷◌ 0x00) (
          last_cons buf 1 0xFF (omega arith) b2
          ∙ ap (◌∷◌ 0xFF) (last_one buf 0xFF (omega arith) b1)))
]
