-- ===== src/CaptureStream/Probe.antt =====
-- The search for a frame start in src/liblgx/liblgx-usb/src/usb/CaptureStream.cpp
-- (`probeTransferComplete`).
use lgx2userspace.Prelude.{
  ℕ, ◌+◌, ◌≤◌, ◌<◌, ◌≡◌, refl, ap, ◌∙◌, false, none, some, List, [], ◌∷◌, arith, length, All,
}
use lgx2userspace.CaptureStream.{no_frame_start, CaptureStream, max_probe_attempts}
use lgx2userspace.CaptureStream.Transfers.{
  Status, completed, cancelled, no_device, failed, Submit, success, Completion, retry_probe,
  starts_frame, probe_complete, probe_transfer_complete, erase, signal_error,
}

-- A completion that shows no frame start: a failed one, or one whose bytes begin otherwise.
abbrev pub IsMiss : Status → Completion → Type 0
IsMiss completed c = starts_frame c.buffer ≡ false
IsMiss failed c = Unit
IsMiss cancelled c = ⊥
IsMiss no_device c = ⊥

-- A miss that libusb takes back.
abbrev pub Missed : Completion → Type 0
Missed c = IsMiss c.status c × (c.resubmit ≡ success)

probe_miss :
    (st : Status) (alloc : ℕ → ℕ × Submit) (c : Completion) (s : CaptureStream)
    → IsMiss st c
    → probe_complete st alloc c s ≡ retry_probe c s
unfolding probe_complete
probe_miss completed alloc c s miss = simp miss
probe_miss failed alloc c s miss = refl
probe_miss cancelled alloc c s miss = elim miss [ ]
probe_miss no_device alloc c s miss = elim miss [ ]

-- The probe transfer completes again and again.
unfoldable pub probes : (ℕ → ℕ × Submit) → List Completion → CaptureStream → CaptureStream
probes alloc [] s = s
probes alloc (c ∷ cs) s = probes alloc cs (probe_transfer_complete alloc c s)

retry_counts :
    (c : Completion) (s : CaptureStream)
    → c.resubmit ≡ success
    → s.shutting_down ≡ false
    → s.probe_attempts < max_probe_attempts
    → retry_probe c s ≡ record s { probe_attempts = s.probe_attempts + 1 }
unfolding retry_probe
retry_counts c s ok up few = ground arith

-- Up to MAX_PROBE_ATTEMPTS misses in all are only counted: the probe stays in flight and nothing is
-- stored.
pub probes_retry :
    (alloc : ℕ → ℕ × Submit) (cs : List Completion) (s : CaptureStream)
    → s.shutting_down ≡ false
    → All Missed cs
    → s.probe_attempts + length cs ≤ max_probe_attempts
    → probes alloc cs s ≡ record s { probe_attempts = s.probe_attempts + length cs }
unfolding probes
probes_retry alloc [] s up misses few = ap (λ n. record s { probe_attempts = n }) (omega arith)
probes_retry alloc (c ∷ cs) s up misses few =
    let s' : CaptureStream = record s { probe_attempts = s.probe_attempts + 1 } in
    let step : probe_transfer_complete alloc c s ≡ s' =
      probe_miss c.status alloc c s misses.0.0 ∙ retry_counts c s misses.0.1 up (omega arith) in
    ap (probes alloc cs) step
    ∙ probes_retry alloc cs s' up misses.1 (omega arith)
    ∙ ap (λ n. record s { probe_attempts = n }) (omega arith)

-- The next miss reports that no frame start was found, and gives the transfer up.
miss_fails :
    (alloc : ℕ → ℕ × Submit) (c : Completion) (s : CaptureStream)
    → s.error ≡ none
    → IsMiss c.status c
    → max_probe_attempts ≤ s.probe_attempts
    → ((probe_transfer_complete alloc c s).error ≡ some no_frame_start)
      × ((probe_transfer_complete alloc c s).transfers ≡ erase c.transfer s.transfers)
unfolding retry_probe signal_error
miss_fails alloc c s fresh miss many = rw (probe_miss c.status alloc c s miss) (ground arith)

-- The search takes MAX_PROBE_ATTEMPTS misses in all, and no more: behind the last of them nothing is
-- reported and nothing but their count has changed, and the next miss reports that no frame start was
-- found and gives the probe transfer up. No failure may have been reported before, the stream must
-- not be stopping, and libusb must take the transfer back each time.
pub probes_give_up :
    (alloc : ℕ → ℕ × Submit) (cs : List Completion) (c : Completion) (s : CaptureStream)
    → s.shutting_down ≡ false
    → s.error ≡ none
    → All Missed cs
    → IsMiss c.status c
    → s.probe_attempts + length cs ≡ max_probe_attempts
    → (probes alloc cs s ≡ record s { probe_attempts = max_probe_attempts })
      × ((probe_transfer_complete alloc c (probes alloc cs s)).error ≡ some no_frame_start)
      × ((probe_transfer_complete alloc c (probes alloc cs s)).transfers
          ≡ erase c.transfer s.transfers)
probes_give_up alloc cs c s up fresh misses miss all =
    let counted : probes alloc cs s ≡ record s { probe_attempts = max_probe_attempts } =
      probes_retry alloc cs s up misses (omega arith)
      ∙ ap (λ n. record s { probe_attempts = n }) all in
    let (fails, gone) =
      miss_fails alloc c (record s { probe_attempts = max_probe_attempts }) fresh miss
        (omega arith) in
    (
      counted,
      ap (λ t. (probe_transfer_complete alloc c t).error) counted ∙ fails,
      ap (λ t. (probe_transfer_complete alloc c t).transfers) counted ∙ gone,
    )
