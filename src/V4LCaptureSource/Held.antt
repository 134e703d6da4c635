-- ===== src/V4LCaptureSource/Held.antt =====
-- What may be done with the file, the mappings and the stream that
-- src/liblgx/liblgx-linux/src/v4l/V4LCaptureSource.cpp takes from the system, and when.
use lgx2userspace.Prelude.{
  ℕ, zero, suc, ◌+◌, ◌-◌, ◌<◌, ◌≡◌, refl, ap, ◌∙◌, Bool, true, false, not, ◌&&◌, inl, inr, Option,
  none, some, List, [], ◌∷◌, ◌++◌, arith, ltb, ◌==◌, if◌then◌else◌, Bool-cases, lt→ltb, get_or, set,
}
use lgx2userspace.V4LCaptureSource.{
  Call, file_opened, buffer_mapped, stream_started, stream_stopped, buffer_unmapped, file_closed,
  unmap_calls, no_buffers,
}

-- What is held of the system.
pub record Held : Type 0 where
  pub is_open : Bool
  pub streams : Bool
  pub maps : ℕ

abbrev pub nothing_held : Held
nothing_held = record { is_open = false; streams = false; maps = 0 }

-- The file is closed last, and the stream stopped before a buffer is unmapped.
unfoldable pub allowed : Call → Held → Bool
allowed file_opened h = not h.is_open
allowed buffer_mapped h = h.is_open && not h.streams
allowed stream_started h = h.is_open && not h.streams
allowed stream_stopped h = h.streams
allowed buffer_unmapped h = not h.streams && ltb 0 h.maps
allowed file_closed h = h.is_open && (not h.streams && h.maps == 0)

unfoldable pub held_after : Call → Held → Held
held_after file_opened h = record h { is_open = true }
held_after buffer_mapped h = record h { maps = h.maps + 1 }
held_after stream_started h = record h { streams = true }
held_after stream_stopped h = record h { streams = false }
held_after buffer_unmapped h = record h { maps = h.maps - 1 }
held_after file_closed h = record h { is_open = false }

unfoldable pub follow : List Call → Held → Option Held
follow [] h = some h
follow (c ∷ cs) h = let rest = follow cs (held_after c h) in if allowed c h then rest else none

pub follow-append :
    (xs ys : List Call) (h h' : Held) → follow xs h ≡ some h' → follow (xs ++ ys) h ≡ follow ys h'
unfolding follow
follow-append [] ys h h' e = ap (follow ys) (ground arith)
follow-append (c ∷ xs) ys h h' e = elim (Bool-cases (allowed c h)) [
  | inl k ↦ simp k (follow-append xs ys (held_after c h) h' (simp k at e))
  | inr k ↦ absurd (ground (arith, simp k at e))
]

-- How many of the first `n` buffers are mapped.
unfoldable pub count_in : ℕ → List Bool → ℕ
count_in zero l = 0
count_in (suc n) [] = 0
count_in (suc n) (true ∷ l) = suc (count_in n l)
count_in (suc n) (false ∷ l) = count_in n l

pub count_in-set :
    (n i : ℕ) (l : List Bool)
    → i < n
    → get_or l i true ≡ false
    → count_in n (set l i true) ≡ count_in n l + 1
unfolding count_in
count_in-set zero i l lt h = absurd (omega arith)
count_in-set (suc n) i [] lt h = absurd (ground arith)
count_in-set (suc n) zero (true ∷ l) lt h = absurd (ground arith)
count_in-set (suc n) zero (false ∷ l) lt h = omega arith
count_in-set (suc n) (suc i) (true ∷ l) lt h = omega (arith, count_in-set n i l (omega arith) h)
count_in-set (suc n) (suc i) (false ∷ l) lt h = count_in-set n i l (omega arith) h

pub none_in : (n : ℕ) → 0 ≡ count_in n no_buffers
unfolding count_in
none_in zero = refl
none_in (suc zero) = refl
none_in (suc (suc zero)) = refl
none_in (suc (suc (suc zero))) = refl
none_in (suc (suc (suc (suc zero)))) = refl
none_in (suc (suc (suc (suc (suc n))))) = refl

pub unmap_calls-follow :
    (n : ℕ) (l : List Bool) (rest : List Call)
    → follow
        (unmap_calls n l ++ rest)
        (record { is_open = true; streams = false; maps = count_in n l })
      ≡ follow rest (record { is_open = true; streams = false; maps = 0 })
unfolding unmap_calls count_in follow allowed held_after
unmap_calls-follow zero l rest = refl
unmap_calls-follow (suc n) [] rest = refl
unmap_calls-follow (suc n) (false ∷ l) rest = unmap_calls-follow n l rest
unmap_calls-follow (suc n) (true ∷ l) rest =
    let test : ltb 0 (suc (count_in n l)) ≡ true = lt→ltb 0 (suc (count_in n l)) (omega arith) in
    simp test (
      ap
        (λ m.
          follow (unmap_calls n l ++ rest) (record { is_open = true; streams = false; maps = m }))
        {y = count_in n l} (omega arith)
      ∙ unmap_calls-follow n l rest)
