-- ===== src/CapturePipeline/Skip.antt =====
-- What `CapturePipeline` (src/liblgx/src/CapturePipeline.cpp) does with chunks while there is no signal,
-- and when it is back.
use lgx2userspace.Prelude.{ℕ, ◌≡◌, refl, ap, ◌∙◌, Bool, true, false, List, [], ◌∷◌, Bytes}
use lgx2userspace.CapturePipeline.{
  signal, Setup, Pipeline, is_signal, parse_chunk, feed, set_input_state,
}

-- Chunks, one call of `feed` after the other.
abbrev pub feeds : Setup → List (Bytes × Bool) → Pipeline → Pipeline
feeds c [] p = p
feeds c ((chunk, gapped) ∷ rest) p = feeds c rest (feed c chunk gapped p)

skip-feed :
    (c : Setup) (chunk : Bytes) (gapped : Bool) (p : Pipeline)
    → is_signal p.input_state ≡ false
    → feed c chunk gapped p ≡ record p { resync_pending = true }
unfolding feed
skip-feed c chunk gapped p absent = simp absent refl

skip-feeds :
    (c : Setup) (chunks : List (Bytes × Bool)) (p : Pipeline)
    → is_signal p.input_state ≡ false
    → feeds c chunks (record p { resync_pending = true }) ≡ record p { resync_pending = true }
skip-feeds c [] p absent = refl
skip-feeds c ((chunk, gapped) ∷ rest) p absent =
    ap (feeds c rest) (skip-feed c chunk gapped (record p { resync_pending = true }) absent)
    ∙ skip-feeds c rest p absent

-- Any chunks, one or more, that arrive while there is no signal reach no parser and no output; the chunk
-- after the signal is back is parsed as one that follows a gap, whatever its own flag says, in the
-- state that the parsers had before.
pub signal_back_resyncs :
    (c : Setup) (first : Bytes × Bool) (skipped : List (Bytes × Bool))
    → (now : ℕ) (chunk : Bytes) (gapped : Bool) (p : Pipeline) → is_signal p.input_state ≡ false
    → feed c chunk gapped (set_input_state c signal now (feeds c (first ∷ skipped) p))
      ≡ parse_chunk c chunk true
          (record (set_input_state c signal now p) { resync_pending = false })
unfolding feed set_input_state
signal_back_resyncs c (first, g) skipped now chunk gapped p absent =
    ap (λ q. feed c chunk gapped (set_input_state c signal now q))
      {x = feeds c ((first, g) ∷ skipped) p}
      (ap (feeds c skipped) (skip-feed c first g p absent) ∙ skip-feeds c skipped p absent)
