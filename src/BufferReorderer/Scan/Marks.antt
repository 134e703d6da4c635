-- ===== src/BufferReorderer/Scan/Marks.antt =====
-- The valid SAVs among some bytes, and what the `memchr` of `BufferReorderer::scan`
-- (src/liblgx/src/BufferReorderer.cpp) passes over.
use lgx2userspace.Prelude.{
  ℕ, zero, suc, ◌+◌, ◌-◌, ◌≡◌, refl, ap, ◌∙◌, Bool, true, false, ◌&&◌, inl, inr, Option, none, some,
  List, [], ◌∷◌, ◌++◌, arith, ◌==◌, if◌then◌else◌, Bytes, Bool-cases, get_or,
}
use lgx2userspace.FrameBuilder.{sav_header_valid}
use lgx2userspace.BufferReorderer.Scan.{find_zero}
use lgx2userspace.BufferReorderer.Scan.Ends.{
  Inside, find_zero_hit, find_zero_miss, find_zero-Inside,
}

-- A valid SAV begins at index `i`.
abbrev pub is_sav : Bytes → ℕ → Bool
is_sav bytes i =
    get_or bytes i 0 == 0
    && (get_or bytes (i + 1) 0 == 0xFF
        && (get_or bytes (i + 2) 0 == 0xFF
            && (get_or bytes (i + 3) 0 == 0xC0 && sav_header_valid bytes (i + 4))))

-- The offsets of the valid SAVs that begin at the `count` indices from `i` on, in bytes whose first is
-- at offset `start`.
unfoldable pub savs_in : Bytes → ℕ → ℕ → ℕ → List ℕ
savs_in bytes start i zero = []
savs_in bytes start i (suc count) =
    let rest = savs_in bytes start (suc i) count in
    if is_sav bytes i then (start + i) ∷ rest else rest

savs_in-quiet :
    (bytes : Bytes) (start i count : ℕ)
    → (get_or bytes i 0 == 0) ≡ false
    → savs_in bytes start i (suc count) ≡ savs_in bytes start (suc i) count
unfolding savs_in
savs_in-quiet bytes start i count h = simp h refl

pub savs_in-add :
    (bytes : Bytes) (start i m n : ℕ)
    → savs_in bytes start i (m + n) ≡ savs_in bytes start i m ++ savs_in bytes start (i + m) n
unfolding savs_in
savs_in-add bytes start i zero n =
    ap (savs_in bytes start i) {y = n} (omega arith)
    ∙ ap (λ a. savs_in bytes start a n) {y = i + 0} (omega arith)
savs_in-add bytes start i (suc m) n =
    let rest =
      savs_in-add bytes start (suc i) m n
      ∙ ap (λ a. savs_in bytes start (suc i) m ++ savs_in bytes start a n) {y = i + suc m}
          (omega arith) in
    ap (savs_in bytes start i) {y = suc (m + n)} (omega arith)
    ∙ (elim (Bool-cases (is_sav bytes i)) [
      | inl e ↦ simp e (ap (◌∷◌ (start + i)) rest)
      | inr e ↦ simp e rest
    ])

-- `memchr` passes over no SAV.
abbrev pub Quiet : Bytes → ℕ → ℕ → ℕ → Option ℕ → Type 0
Quiet bytes start i count none = savs_in bytes start i count ≡ []
Quiet bytes start i count (some j) =
    (savs_in bytes start i (j - i) ≡ []) × ((get_or bytes j 0 == 0) ≡ true)

pub find_zero-Quiet :
    (bytes : Bytes) (start i count : ℕ) → Quiet bytes start i count (find_zero bytes i count)
find_zero-Quiet bytes start i zero = unfold find_zero savs_in in refl
find_zero-Quiet bytes start i (suc count) = elim (Bool-cases (get_or bytes i 0 == 0)) [
  | inl e ↦
      rw (find_zero_hit bytes i count e)
        (ap (savs_in bytes start i) {y = 0} (omega arith) ∙ unfold savs_in in refl, e)
  | inr e ↦ rw (find_zero_miss bytes i count e) (
      further (find_zero bytes (suc i) count) e (find_zero-Inside bytes (suc i) count)
        (find_zero-Quiet bytes start (suc i) count))
]
  where
    further :
        (o : Option ℕ)
        → (get_or bytes i 0 == 0) ≡ false
        → Inside (suc i) count o
        → Quiet bytes start (suc i) count o
        → Quiet bytes start i (suc count) o
    further none e h q = savs_in-quiet bytes start i count e ∙ q
    further (some j) e h q = (
      ap (savs_in bytes start i) {y = suc (j - suc i)} (omega (arith, h.0))
          ∙ savs_in-quiet bytes start i (j - suc i) e
          ∙ q.0,
      q.1,
    )
