-- ===== src/CaptureDaemon/Balance.antt =====
-- What the daemon of src/lgx2d/CaptureDaemon.cpp holds, and that it gives it back.
use lgx2userspace.Prelude.{
  ℕ, zero, suc, ◌≡◌, refl, sym, ap, subst, ◌∙◌, Bool, true, false, inl, inr, Option, none, some,
  List, [], ◌∷◌, ◌++◌, arith, if◌then◌else◌, Bool-cases, Option-cases, All, All-append,
}
use lgx2userspace.Usb.{Usb, DeviceType}
use lgx2userspace.UsbContext.{References, ref_device, usable}
use lgx2userspace.CapturePipeline
use lgx2userspace.CapturePipeline.{Pipeline}
use lgx2userspace.DeviceSession
use lgx2userspace.DeviceSession.{
  Call, Session, Opened, session, refused, Streaming, is_some, open_session,
}
use lgx2userspace.DeviceSession.Usage.{idle, follow}
use lgx2userspace.DeviceSession.Used.{
  IsUsed, IsReady, OpenedSoundly, open_session_soundly, deliver-IsUsed, discard-IsUsed,
  stop_gives_back, start-IsUsed, IsReady-IsUsed,
}
use lgx2userspace.DeviceSession.Lifetime.{bootstrap-IsReady}
use lgx2userspace.CaptureDaemon.{
  CaptureDaemon, queue_event, end_session, World, Options, is_wanted, is_session_device,
  attempt_session, after_attempt, try_open, open_attempts, open_device, react, handle_front,
  handle_event, serve_session, end_if_ended, set_state, serve, Action, queueing, handling, serving,
  run, destroy,
}
use lgx2userspace.CaptureDaemon.Counts.{
  Counts, ref-Counts, take-Counts, leave-Counts, pop-Counts, drop-Counts, unref_events-Counts,
}

-- The calls on a handle that was given back.
abbrev pub GivenBack : List Call → Type 0
GivenBack calls = follow calls idle ≡ some idle

abbrev pub Owned : {D : Type 0} → Option (Session D) → Type 0
Owned none = Unit
Owned (some s) = (polls : Bool) × IsUsed polls s

-- The daemon, with the references that others hold: its own are counted, a session has its device, its
-- handle is used as it should, and the handles of those that ended were given back.
pub record IsBalanced {D : Type 0} (base : References) (d : CaptureDaemon D) : Type 0 where
  pub counts : Counts base d.events d.session_device d.references
  pub paired : is_some d.current ≡ is_some d.session_device
  pub owned : Owned d.current
  pub all_ended : All GivenBack d.history

queue_event-IsBalanced :
    {D : Type 0} (base : References) (y : ℕ) (arrived : Bool) (d : CaptureDaemon D)
    → IsBalanced base d
    → IsBalanced base (queue_event y arrived d)
unfolding queue_event
queue_event-IsBalanced base y arrived d b = record {
  counts = ref-Counts base d.references d.events d.session_device y arrived b.counts;
  paired = b.paired;
  owned = b.owned;
  all_ended = b.all_ended;
}

stopped-GivenBack :
    {D : Type 0} (s : Session D) → Owned (some s) → GivenBack (DeviceSession.stop s).calls
stopped-GivenBack s (polls, u) = (stop_gives_back polls s u).2

end_session-IsBalanced :
    {D : Type 0} (base : References) (d : CaptureDaemon D)
    → IsBalanced base d
    → IsBalanced base (end_session d) × ((end_session d).current ≡ none)
unfolding end_session
end_session-IsBalanced base d b = elim (Option-cases d.current) [
  | inl e ↦ simp e (b, refl)
  | inr (s, e) ↦ simp e (
    record {
      counts = leave-Counts base d.references d.events d.session_device b.counts;
      paired = refl;
      owned = tt;
      all_ended =
          All-append GivenBack d.history _ b.all_ended
            (stopped-GivenBack s (subst Owned e b.owned), tt);
    },
    refl,
  )
]

not_there : {A : Type 0} (c : Option A) → is_some c ≡ false → c ≡ none
not_there none h = refl
not_there (some a) h = absurd (ground arith)

module _ {D : Type 0} (usb : Usb D) (fuel : ℕ) (commands : DeviceType → List ℕ) (o : Options) where
  -- An attempt ends in a session in use, or with its handle given back.
  abbrev Attempted : Option (Session D) × List Call → Type 0
  Attempted (none, calls) = GivenBack calls
  Attempted (some s, calls) = Owned (some s)

  attempt_session-Attempted :
      (w : Streaming) (r : Opened D)
      → OpenedSoundly r
      → Attempted (attempt_session usb fuel commands o w r)
  attempt_session-Attempted w (refused calls) h = h
  attempt_session-Attempted w (session s) r =
      booted (DeviceSession.bootstrap usb fuel commands s) is_ready
    where
      is_ready : IsReady (DeviceSession.bootstrap usb fuel commands s).1
      is_ready = bootstrap-IsReady usb fuel commands s r

      booted :
          (x : Bool × Session D)
          → IsReady x.1
          → Attempted (
              if x.0
              then (some (DeviceSession.start w x.1), [])
              else (none, (DeviceSession.stop x.1).calls))
      booted (true, s') h = (s'.status_poll, start-IsUsed w s' h)
      booted (false, s') h = (stop_gives_back false s' (IsReady-IsUsed s' h)).2

  after_attempt-IsBalanced :
      (base : References) (r : Option (Session D) × List Call) (device : ℕ)
      (next : CaptureDaemon D → CaptureDaemon D) (d : CaptureDaemon D)
      → Attempted r
      → ((e : CaptureDaemon D)
          → e.session_device ≡ none
          → e.current ≡ none
          → IsBalanced base e
          → IsBalanced base (next e))
      → d.session_device ≡ none
      → d.current ≡ none
      → IsBalanced base d
      → IsBalanced base (after_attempt usb fuel commands o r device next d)
  after_attempt-IsBalanced base (none, calls) device next d h keep free idle_now b =
      keep (record d { history = d.history ++ (calls ∷ []) }) free idle_now
        (record {
          counts = b.counts;
          paired = b.paired;
          owned = b.owned;
          all_ended = All-append GivenBack d.history (calls ∷ []) b.all_ended (h, tt);
        })
  after_attempt-IsBalanced base (some s, calls) device next d h keep free idle_now b = record {
    counts =
        take-Counts base d.references d.events device
          (subst (λ x. Counts base d.events x d.references) free b.counts);
    paired = refl;
    owned = h;
    all_ended = b.all_ended;
  }

  try_open-IsBalanced :
      (left : ℕ) (base : References) (w : World D) (device : ℕ) (d : CaptureDaemon D)
      → d.session_device ≡ none
      → d.current ≡ none
      → IsBalanced base d
      → IsBalanced base (try_open usb fuel commands o left w device d)
  unfolding try_open
  try_open-IsBalanced zero base w device d free idle_now b = b
  try_open-IsBalanced (suc left) base w device d free idle_now b =
      after_attempt-IsBalanced base _ device (try_open usb fuel commands o left w device) d
        (attempt_session-Attempted w.streaming _ (open_session_soundly _ _ _ _))
        (λ e f i. try_open-IsBalanced left base w device e f i) free idle_now b

  react-IsBalanced :
      (base : References) (w : World D) (device : ℕ) (arrived : Bool) (d : CaptureDaemon D)
      → IsBalanced base d
      → IsBalanced base (react usb fuel commands o w device arrived d)
  unfolding react open_device
  react-IsBalanced base w device true d b = elim (Bool-cases (is_some d.current)) [
    | inl e ↦ simp e b
    | inr e ↦
        simp e (elim (Bool-cases (is_wanted (usable o.gc550 (w.describe device)) o.device_type)) [
          | inr u ↦ simp u b
          | inl u ↦ simp u (
              try_open-IsBalanced open_attempts base w device d
                (not_there d.session_device (sym b.paired ∙ e)) (not_there d.current e) b)
        ])
  ]
  react-IsBalanced base w device false d b =
      elim (Bool-cases (is_session_device device d.session_device)) [
        | inl e ↦ simp e (end_session-IsBalanced base d b).0
        | inr e ↦ simp e b
      ]

  handle_event-IsBalanced :
      (base : References) (w : World D) (d : CaptureDaemon D)
      → IsBalanced base d
      → IsBalanced base (handle_event usb fuel commands o w d)
  unfolding handle_event
  handle_event-IsBalanced base w d b = front d.events refl
    where
      front :
          (l : List (ℕ × Bool))
          → l ≡ d.events
          → IsBalanced base (handle_front usb fuel commands o w l d)
      front [] e = b
      front ((y, arrived) ∷ rest) e =
          let reacted =
            react-IsBalanced (ref_device y base) w y arrived (record d { events = rest })
              (record {
                counts =
                    pop-Counts base d.references rest d.session_device y arrived
                      (subst (λ l. Counts base l d.session_device d.references) (sym e) b.counts);
                paired = b.paired;
                owned = b.owned;
                all_ended = b.all_ended;
              }) in
          record {
            counts = drop-Counts base _ _ _ y reacted.counts;
            paired = reacted.paired;
            owned = reacted.owned;
            all_ended = reacted.all_ended;
          }

  -- The pipeline has no part in what is held.
  with_pipeline :
      (base : References) (p : Pipeline) (d : CaptureDaemon D)
      → IsBalanced base d
      → IsBalanced base (record d { pipeline = p })
  with_pipeline base p d b = record {
    counts = b.counts;
    paired = b.paired;
    owned = b.owned;
    all_ended = b.all_ended;
  }

  with_session :
      (base : References) (p : Pipeline) (s : Session D) (d : CaptureDaemon D)
      → is_some d.current ≡ true
      → Owned (some s)
      → IsBalanced base d
      → IsBalanced base (record d { pipeline = p; current = some s })
  with_session base p s d there h b = record {
    counts = b.counts;
    paired = sym there ∙ b.paired;
    owned = h;
    all_ended = b.all_ended;
  }

  end_if_ended-IsBalanced :
      (base : References) (c : Option (Session D)) (d : CaptureDaemon D)
      → IsBalanced base d
      → IsBalanced base (end_if_ended usb fuel commands o c d)
  end_if_ended-IsBalanced base none d b = b
  end_if_ended-IsBalanced base (some s) d b = elim (Bool-cases (DeviceSession.ended s)) [
    | inl e ↦ simp e (end_session-IsBalanced base d b).0
    | inr e ↦ simp e b
  ]

  serve_session-IsBalanced :
      (base : References) (c : Option (Session D)) (d : CaptureDaemon D)
      → c ≡ d.current
      → IsBalanced base d
      → IsBalanced base (serve_session usb fuel commands o c d)
  serve_session-IsBalanced base none d e b = b
  serve_session-IsBalanced base (some s) d e b =
      let (polls, used) = subst Owned (sym e) b.owned in
      let there = ap is_some (sym e) in
      elim (Bool-cases (CapturePipeline.wants_data d.pipeline)) [
        | inl k ↦ simp k (
            with_session base _ (DeviceSession.deliver s).1 d there
              (polls, deliver-IsUsed polls s used) b)
        | inr k ↦ simp k (
            with_session base d.pipeline (DeviceSession.discard s) d there
              (polls, discard-IsUsed polls s used) b)
      ]

  serve-IsBalanced :
      (base : References) (now : ℕ) (d : CaptureDaemon D)
      → IsBalanced base d
      → IsBalanced base (serve usb fuel commands o now d)
  unfolding serve
  serve-IsBalanced base now d b =
      let e = end_if_ended usb fuel commands o d.current d in
      let live = set_state usb fuel commands o now e in
      let kept =
        serve_session-IsBalanced base live.current live refl
          (with_pipeline base _ e (end_if_ended-IsBalanced base d.current d b)) in
      with_pipeline base _ (serve_session usb fuel commands o live.current live) kept

  -- The daemon's invariant holds over every order of hotplug events, rounds of `handleEvents` and rounds
  -- of `run`, whatever libusb answers: exactly one reference is held for each queued event and one for
  -- the session's device, there is a session exactly if there is a session device, its handle is used
  -- as is allowed, and the handle of every session that ended or failed was given back.
  pub run-IsBalanced :
      (base : References) (actions : List (Action usb fuel commands o)) (d : CaptureDaemon D)
      → IsBalanced base d
      → IsBalanced base (run usb fuel commands o actions d)
  unfolding run
  run-IsBalanced base [] d b = b
  run-IsBalanced base (queueing device arrived ∷ actions) d b =
      run-IsBalanced base actions _ (queue_event-IsBalanced base device arrived d b)
  run-IsBalanced base (handling w ∷ actions) d b =
      run-IsBalanced base actions _ (handle_event-IsBalanced base w d b)
  run-IsBalanced base (serving now ∷ actions) d b =
      run-IsBalanced base actions _ (serve-IsBalanced base now d b)

  abbrev pub daemon_start : Pipeline → References → CaptureDaemon D
  daemon_start p base = record {
    pipeline = p;
    events = [];
    current = none;
    session_device = none;
    references = base;
    history = [];
  }

  -- From the start of the daemon to its destructor, over every order of events and rounds and whatever
  -- libusb answers, every reference that it took is given back, no session is left, and every handle
  -- that was opened was released and closed.
  pub destroy-run :
      (base : References) (p : Pipeline) (actions : List (Action usb fuel commands o))
      → ((x : ℕ)
          → (destroy (run usb fuel commands o actions (daemon_start p base))).references x ≡ base x)
        × ((destroy (run usb fuel commands o actions (daemon_start p base))).current ≡ none)
        × All GivenBack (destroy (run usb fuel commands o actions (daemon_start p base))).history
  unfolding destroy
  destroy-run base p actions =
      let d = run usb fuel commands o actions (daemon_start p base) in
      let started : IsBalanced base (daemon_start p base) = record {
        counts = λ x. omega arith;
        paired = refl;
        owned = tt;
        all_ended = tt;
      } in
      let (b, gone) = end_session-IsBalanced base d (run-IsBalanced base actions _ started) in
      let e = end_session d in
      let free = not_there e.session_device (sym b.paired ∙ ap is_some gone) in
      let all_back =
        unref_events-Counts base e.references e.events
          (subst (λ y. Counts base e.events y e.references) free b.counts) in
      (λ x. let h = all_back x in omega (arith, h), gone, b.all_ended)
