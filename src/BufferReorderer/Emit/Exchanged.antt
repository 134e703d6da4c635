-- ===== src/BufferReorderer/Emit/Exchanged.antt =====
-- How `BufferReorderer::emit` of src/liblgx/src/BufferReorderer.cpp arranges the bytes in each order.
use lgx2userspace.Prelude.{
  ℕ, zero, suc, ◌+◌, ◌-◌, ◌≤◌, ◌≡◌, refl, sym, ap, ap₂, ◌∙◌, [], ◌∷◌, ◌++◌, append_assoc, arith,
  Bytes, take, drop, slice, drop-drop,
}
use lgx2userspace.BufferReorderer.{Order, unknown, normal, swapped, pair_bytes}

-- `count` pairs of buffers from index `i` on, each with its two buffers exchanged, and how long they are.
abbrev pub exchanged : ℕ → Bytes → ℕ → ℕ → Bytes
exchanged dma pipe i zero = []
exchanged dma pipe i (suc count) =
    slice pipe (i + dma) (i + pair_bytes dma)
    ++ (slice pipe i (i + dma) ++ exchanged dma pipe (i + pair_bytes dma) count)

abbrev pub pairs : ℕ → ℕ → ℕ
pairs dma zero = 0
pairs dma (suc count) = pair_bytes dma + pairs dma count

-- What the bytes of the pipe from index `i` to `j` are in an order: themselves, or whole pairs
-- exchanged, or nothing as long as the order is not known.
abbrev pub IsArranged : Order → ℕ → Bytes → ℕ → ℕ → Bytes → Type 0
IsArranged unknown dma pipe i j xs = xs ≡ []
IsArranged normal dma pipe i j xs = xs ≡ slice pipe i j
IsArranged swapped dma pipe i j xs =
    (count : ℕ) × (j ≡ i + pairs dma count) × (xs ≡ exchanged dma pipe i count)

take-add : (m n : ℕ) (xs : Bytes) → take (m + n) xs ≡ take m xs ++ take n (drop m xs)
take-add zero n xs = ap (λ k. take k xs) {y = n} (omega arith)
take-add (suc m) n [] = ap (λ k. take k []) {y = suc (m + n)} (omega arith) ∙ sym (nothing n)
  where
    nothing : (n : ℕ) → take n (drop {A = ℕ} (suc m) []) ≡ []
    nothing zero = refl
    nothing (suc n) = refl
take-add (suc m) n (x ∷ xs) =
    ap (λ k. take k (x ∷ xs)) {y = suc (m + n)} (omega arith) ∙ ap (◌∷◌ x) (take-add m n xs)

slice-append :
    (xs : Bytes) (i j k : ℕ) → i ≤ j → j ≤ k → slice xs i j ++ slice xs j k ≡ slice xs i k
slice-append xs i j k h h' =
    ap (λ ys. slice xs i j ++ take (k - j) ys)
      (ap (λ n. drop n xs) {y = i + (j - i)} (omega arith) ∙ drop-drop i (j - i) xs)
    ∙ sym (take-add (j - i) (k - j) (drop i xs))
    ∙ ap (λ n. take n (drop i xs)) (omega arith)

pairs-add : (dma m n : ℕ) → pairs dma (m + n) ≡ pairs dma m + pairs dma n
pairs-add dma zero n = ap (pairs dma) {y = n} (omega arith) ∙ omega arith
pairs-add dma (suc m) n =
    ap (pairs dma) {y = suc (m + n)} (omega arith) ∙ omega (arith, pairs-add dma m n)

exchanged-add :
    (dma : ℕ) (pipe : Bytes) (i m n : ℕ)
    → exchanged dma pipe i (m + n)
      ≡ exchanged dma pipe i m ++ exchanged dma pipe (i + pairs dma m) n
exchanged-add dma pipe i zero n =
    ap (exchanged dma pipe i) {y = n} (omega arith)
    ∙ ap (λ k. exchanged dma pipe k n) {y = i + 0} (omega arith)
exchanged-add dma pipe i (suc m) n =
    let second = slice pipe (i + dma) (i + pair_bytes dma) in
    let front = slice pipe i (i + dma) in
    let rest = exchanged dma pipe (i + pair_bytes dma) m in
    let behind = exchanged dma pipe (i + (pair_bytes dma + pairs dma m)) n in
    ap (exchanged dma pipe i) {y = suc (m + n)} (omega arith)
    ∙ ap (λ l. second ++ (front ++ l))
        (exchanged-add dma pipe (i + pair_bytes dma) m n
          ∙ ap (λ k. rest ++ exchanged dma pipe k n) (omega arith))
    ∙ ap (λ l. second ++ l) (sym (append_assoc front rest behind))
    ∙ sym (append_assoc second (front ++ rest) behind)

pub nil-IsArranged :
    (order : Order) (dma : ℕ) (pipe : Bytes) (i : ℕ) → IsArranged order dma pipe i i []
nil-IsArranged unknown dma pipe i = refl
nil-IsArranged normal dma pipe i = sym (ap (λ n. take n (drop i pipe)) {y = 0} (omega arith))
nil-IsArranged swapped dma pipe i = (0, omega arith, refl)

pub append-IsArranged :
    (order : Order) (dma : ℕ) (pipe : Bytes) (i j k : ℕ) (xs ys : Bytes)
    → i ≤ j
    → j ≤ k
    → IsArranged order dma pipe i j xs
    → IsArranged order dma pipe j k ys
    → IsArranged order dma pipe i k (xs ++ ys)
append-IsArranged unknown dma pipe i j k xs ys h h' a a' = ap₂ ◌++◌ a a'
append-IsArranged normal dma pipe i j k xs ys h h' a a' =
    ap₂ ◌++◌ a a' ∙ slice-append pipe i j k h h'
append-IsArranged swapped dma pipe i j k xs ys h h' (m, e, a) (n, e', a') = (
  m + n,
  omega (arith, pairs-add dma m n),
  ap₂ ◌++◌ a (a' ∙ ap (λ l. exchanged dma pipe l n) e) ∙ sym (exchanged-add dma pipe i m n),
)
