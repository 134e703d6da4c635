-- ===== src/SignalStatus/Poll.antt =====
-- `StatusMonitor::pollLoop` of src/liblgx/liblgx-usb/src/usb/StatusMonitor.cpp. A round is what
-- `readAdvStatus` returned in it; `reports` are the statuses that were printed. What the loop prints
-- besides, the drain of late responses and the wait between the rounds are not modelled.
use lgx2userspace.Prelude.{
  ℕ, zero, suc, ◌+◌, ◌<◌, ◌≡◌, refl, ap, ◌∙◌, Bool, true, false, not, inl, inr, Option, none, some,
  List, [], ◌∷◌, ◌++◌, arith, ◌==◌, if◌then◌else◌, Bool-cases,
}
use lgx2userspace.CapturePipeline.{InputState, signal}
use lgx2userspace.SignalStatus.{
  AdvStatusRegisters, SignalStatus, decode, same_status, input_state_of,
}

-- The result of a read of the registers: LIBUSB_ERROR_NO_DEVICE, another error, or the registers.
pub data ReadResult : Type 0 where
  no_device failed : ReadResult
  read : AdvStatusRegisters → ReadResult

-- The variables of the loop, and `_inputState`.
pub record Monitor : Type 0 where
  pub running : Bool
  pub input_state : InputState
  pub last_status : Option SignalStatus
  pub consecutive_failures : ℕ
  pub reports : List SignalStatus

-- MAX_CONSECUTIVE_FAILURES
abbrev pub max_consecutive_failures : ℕ
max_consecutive_failures = 10

-- `!haveStatus || status != lastStatus`
abbrev pub is_news : Option SignalStatus → SignalStatus → Bool
is_news none status = true
is_news (some last) status = not (same_status status last)

-- One round, while `_stopping` is not set.
unfoldable pub poll : ReadResult → Monitor → Monitor
poll no_device m = record m { running = false }
poll failed m =
    let failures = m.consecutive_failures + 1 in
    if failures == max_consecutive_failures
    then record m { consecutive_failures = failures; input_state = signal; running = false }
    else record m { consecutive_failures = failures }
poll (read regs) m =
    let status = decode regs in
    let heard = record m { consecutive_failures = 0; input_state = input_state_of status } in
    if is_news m.last_status status
    then record heard { last_status = some status; reports = m.reports ++ (status ∷ []) }
    else heard

-- The rounds of the loop, which ends where a round returns.
unfoldable pub poll_loop : List ReadResult → Monitor → Monitor
poll_loop [] m = m
poll_loop (r ∷ rs) m = let rest = poll_loop rs (poll r m) in if m.running then rest else m

-- `n` failures in a row.
abbrev pub failures : ℕ → List ReadResult
failures zero = []
failures (suc n) = failed ∷ failures n

stopped : (rs : List ReadResult) (m : Monitor) → m.running ≡ false → poll_loop rs m ≡ m
unfolding poll_loop
stopped [] m h = refl
stopped (r ∷ rs) m h = simp h refl

poll_more :
    (r : ReadResult) (rs : List ReadResult) (m : Monitor)
    → m.running ≡ true
    → poll_loop (r ∷ rs) m ≡ poll_loop rs (poll r m)
unfolding poll_loop
poll_more r rs m h = simp h refl

poll_failed :
    (m : Monitor)
    → m.consecutive_failures + 1 < max_consecutive_failures
    → poll failed m ≡ record m { consecutive_failures = m.consecutive_failures + 1 }
unfolding poll
poll_failed m h = ground arith

poll_last :
    (m : Monitor)
    → m.consecutive_failures + 1 ≡ max_consecutive_failures
    → poll failed m ≡ record m {
      consecutive_failures = max_consecutive_failures;
      input_state = signal;
      running = false;
    }
unfolding poll
poll_last m h = ground arith

-- Failures in a row below the limit leave the published input state as it is, and the loop goes on,
-- however many failures there were in a row before: only their number is counted.
pub failures_pass :
    (n : ℕ) (m : Monitor)
    → m.running ≡ true
    → m.consecutive_failures + n < max_consecutive_failures
    → poll_loop (failures n) m ≡ record m { consecutive_failures = m.consecutive_failures + n }
failures_pass zero m on h =
    unfold poll_loop in ap (λ c. record m { consecutive_failures = c }) (omega arith)
failures_pass (suc n) m on h =
    poll_more failed (failures n) m on
    ∙ ap (poll_loop (failures n)) (poll_failed m (omega arith))
    ∙ failures_pass n (record m { consecutive_failures = m.consecutive_failures + 1 }) on
        (omega arith)
    ∙ ap (λ c. record m { consecutive_failures = c }) (omega arith)

-- When a round brings the number of failures in a row to ten, the loop returns, whatever would
-- have come behind it, and the input state is published as a signal.
pub failures_give_up :
    (n : ℕ) (rest : List ReadResult) (m : Monitor)
    → m.running ≡ true
    → 0 < n
    → m.consecutive_failures + n ≡ max_consecutive_failures
    → poll_loop (failures n ++ rest) m ≡ record m {
      consecutive_failures = max_consecutive_failures;
      input_state = signal;
      running = false;
    }
failures_give_up zero rest m on any h = absurd (omega arith)
failures_give_up (suc zero) rest m on any h =
    poll_more failed rest m on
    ∙ ap (poll_loop rest) (poll_last m (omega arith))
    ∙ stopped rest
        (record m {
          consecutive_failures = max_consecutive_failures;
          input_state = signal;
          running = false;
        })
        refl
failures_give_up (suc (suc n)) rest m on any h =
    poll_more failed (failures (suc n) ++ rest) m on
    ∙ ap (poll_loop (failures (suc n) ++ rest)) (poll_failed m (omega arith))
    ∙ failures_give_up (suc n) rest (record m { consecutive_failures = m.consecutive_failures + 1 })
        on (omega arith) (omega arith)

-- What was printed last is the status that the next one is compared with, and no status was printed
-- behind one that compares equal: each report tells of a change.
abbrev pub Changing : List SignalStatus → Type 0
Changing [] = Unit
Changing (s ∷ []) = Unit
Changing (s ∷ t ∷ rest) = (same_status t s ≡ false) × Changing (t ∷ rest)

abbrev pub last_of : List SignalStatus → Option SignalStatus
last_of [] = none
last_of (s ∷ []) = some s
last_of (s ∷ t ∷ rest) = last_of (t ∷ rest)

abbrev pub IsReporting : Monitor → Type 0
IsReporting m = Changing m.reports × (last_of m.reports ≡ m.last_status)

Changing-snoc :
    (l : List SignalStatus) (t : SignalStatus)
    → Changing l
    → is_news (last_of l) t ≡ true
    → Changing (l ++ (t ∷ []))
Changing-snoc [] t c news = tt
Changing-snoc (s ∷ []) t c news = (ground arith, tt)
Changing-snoc (s ∷ u ∷ rest) t c news = (c.0, Changing-snoc (u ∷ rest) t c.1 news)

last_snoc : (l : List SignalStatus) (t : SignalStatus) → last_of (l ++ (t ∷ [])) ≡ some t
last_snoc [] t = refl
last_snoc (s ∷ []) t = refl
last_snoc (s ∷ u ∷ rest) t = last_snoc (u ∷ rest) t

poll-IsReporting : (r : ReadResult) (m : Monitor) → IsReporting m → IsReporting (poll r m)
unfolding poll
poll-IsReporting no_device m w = w
poll-IsReporting failed m w =
    elim (Bool-cases (m.consecutive_failures + 1 == max_consecutive_failures)) [
      | inl e ↦ simp e w
      | inr e ↦ simp e w
    ]
poll-IsReporting (read regs) m w = elim (Bool-cases (is_news m.last_status (decode regs))) [
  | inr old ↦ simp old w
  | inl news ↦ simp news (
    Changing-snoc m.reports (decode regs) w.0 (ap (λ l. is_news l (decode regs)) w.1 ∙ news),
    last_snoc m.reports (decode regs),
  )
]

-- Over any rounds of the poll, no status is printed right behind one that compares equal to it, and the
-- one printed last stays the one that the next is compared with. So it must be before.
pub poll_loop-IsReporting :
    (rs : List ReadResult) (m : Monitor) → IsReporting m → IsReporting (poll_loop rs m)
unfolding poll_loop
poll_loop-IsReporting [] m w = w
poll_loop-IsReporting (r ∷ rs) m w = elim (Bool-cases m.running) [
  | inl on ↦ simp on (poll_loop-IsReporting rs (poll r m) (poll-IsReporting r m w))
  | inr off ↦ simp off w
]
