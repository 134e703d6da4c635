-- ===== src/NoSignalCard/Cached.antt =====
-- The frame that `frame` of src/liblgx/src/NoSignalCard.cpp keeps.
use lgx2userspace.Prelude.{
  ℕ, ◌≡◌, refl, sym, ap, subst, ◌∙◌, true, inl, inr, Option, none, some, arith, Bool-cases,
}
use lgx2userspace.CapturePipeline.{InputState, same_state}
use lgx2userspace.NoSignalCard.{
  message, render, NoSignalCard, shown_reason, cached_frame, card_frame,
}

same_state-eq : (a b : InputState) → same_state a b ≡ true → a ≡ b
same_state-eq a b h = ground arith

-- The frame that is kept is the one of the reason that was rendered.
abbrev pub Keeps : Option (ℕ → ℕ) → InputState → Type 0
Keeps none reason = Unit
Keeps (some f) reason = f ≡ render (message reason)

abbrev pub IsCached : NoSignalCard → Type 0
IsCached s = Keeps s.frame s.rendered

cached :
    (f : Option (ℕ → ℕ)) (reason : InputState) (s : NoSignalCard)
    → f ≡ s.frame
    → IsCached s
    → ((cached_frame f reason s).0 ≡ render (message reason)) × IsCached (cached_frame f reason s).1
cached none reason s e c = (refl, refl)
cached (some f) reason s e c = elim (Bool-cases (same_state reason s.rendered)) [
  | inl k ↦ simp k (
    subst (λ o. Keeps o s.rendered) (sym e) c
        ∙ ap (λ r. render (message r)) (sym (same_state-eq reason s.rendered k)),
    c,
  )
  | inr k ↦ simp k (refl, refl)
]

-- `frame` gives the card of the reason it is asked for, whether it renders it or has kept it, and keeps
-- what it gave; a present signal gets the card for none. The card must be one that was kept that way
-- before, as a new one is.
pub card_frame-IsCached :
    (reason : InputState) (s : NoSignalCard)
    → IsCached s
    → ((card_frame reason s).0 ≡ render (message (shown_reason reason)))
      × IsCached (card_frame reason s).1
unfolding card_frame
card_frame-IsCached reason s c = cached s.frame (shown_reason reason) s refl c
