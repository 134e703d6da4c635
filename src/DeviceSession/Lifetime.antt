-- ===== src/DeviceSession/Lifetime.antt =====
-- The life of a session of src/liblgx/liblgx-usb/src/usb/DeviceSession.cpp, from its constructor to its
-- destructor, against what may be done with a handle of libusb and when.
use lgx2userspace.Prelude.{
  ℕ, ◌≡◌, refl, ◌∙◌, Bool, false, inl, inr, Option, none, some, List, [], ◌∷◌, ◌++◌, arith,
  if◌then◌else◌, Bool-cases,
}
use lgx2userspace.Usb.{Usb, DeviceType}
use lgx2userspace.Bootstrapper
use lgx2userspace.DeviceSession.{
  Call, commanded, Parts, Session, Opening, Opened, session, refused, Streaming, open_session,
  is_booted, bootstrap_parts, bootstrap, start, stop,
}
use lgx2userspace.DeviceSession.Used.{
  Method, ready, commands_on, call_methods, stop_gives_back, call_methods-IsUsed, IsReady,
  IsReady-IsUsed, start-IsUsed, OpenedSoundly, open_session_soundly,
}
use lgx2userspace.DeviceSession.Usage.{idle, follow, follow-append}

module _ {D : Type 0} (usb : Usb D) (fuel : ℕ) (commands : DeviceType → List ℕ) where
  -- A session from its construction to its end: `bootstrap`, which may throw, `start`, the methods
  -- that its owner calls, and the destructor, which calls `stop`.
  abbrev pub live : Streaming → List Method → Bool × Session D → Session D
  live w ms r = if r.0 then call_methods ms (start w r.1) else r.1

  abbrev pub life : Streaming → List Method → Opened D → List Call
  life w ms (refused calls) = calls
  life w ms (session s) = (stop (live w ms (bootstrap usb fuel commands s))).calls

  pub bootstrap_parts-IsReady :
      (parts : Option (Parts D)) (s : Session D)
      → parts ≡ s.parts
      → IsReady s
      → IsReady (bootstrap_parts usb fuel commands parts s).1
  bootstrap_parts-IsReady none s e r = absurd (ground (arith, r.parts_ready))
  bootstrap_parts-IsReady (some p) s e r =
      elim (Bool-cases
        (is_booted (Bootstrapper.bootstrap usb fuel commands s.device_type p.bridge).0)) [
          | inr fails ↦ simp fails (again _ _ _)
          | inl works ↦ simp works (elim (Bool-cases s.status_poll) [
            | inl polls ↦ simp polls (again _ _ _)
            | inr silent ↦ simp silent (again _ _ _)
          ])
        ]
    where
      again :
          (p' : Parts D) (reused polls : Bool)
          → IsReady (record s {
            status_poll = polls;
            reused = reused;
            parts = some p';
            calls = s.calls ++ (commanded ∷ []);
          })
      again p' reused polls = record {
        opened_ready = r.opened_ready;
        quiet = r.quiet;
        parts_ready = refl;
        follows_ready =
            follow-append s.calls (commanded ∷ []) idle ready r.follows_ready ∙ commands_on;
      }

  pub bootstrap-IsReady : (s : Session D) → IsReady s → IsReady (bootstrap usb fuel commands s).1
  unfolding bootstrap
  bootstrap-IsReady s r = bootstrap_parts-IsReady s.parts s refl r

  ends :
      (s : Session D) (w : Streaming) (ms : List Method)
      → IsReady s
      → follow (stop (live w ms (bootstrap usb fuel commands s))).calls idle ≡ some idle
  unfolding bootstrap
  ends s w ms r =
      let ready_now = bootstrap_parts-IsReady s.parts s refl r in
      let (works, s') = bootstrap usb fuel commands s in
      elim (Bool-cases works) [
        | inl e ↦
            simp e
              (stop_gives_back s'.status_poll _ (
                call_methods-IsUsed s'.status_poll ms (start w s') (start-IsUsed w s' ready_now))).2
        | inr e ↦ simp e (stop_gives_back false s' (IsReady-IsUsed s' ready_now)).2
      ]

  -- A session is opened and bootstrapped, and started if the bootstrap returns, as its owner does.
  -- Whatever libusb answers, whatever the bootstrap makes of the board, and whichever of `deliver`,
  -- `discard` and `stop` are called after that, in whichever order, each call on a session's handle is allowed when it is made, no part is
  -- used that is not there, and behind the destructor the handle is closed, its interface released,
  -- and the poll thread and the stream have been stopped before that.
  pub life-follow :
      (o : Opening D) (type : DeviceType) (status_poll debug : Bool) (w : Streaming)
      (ms : List Method)
      → follow (life w ms (open_session o type status_poll debug)) idle ≡ some idle
  life-follow o type status_poll debug w ms =
      lived (open_session o type status_poll debug) (open_session_soundly o type status_poll debug)
    where
      lived : (r : Opened D) → OpenedSoundly r → follow (life w ms r) idle ≡ some idle
      lived (refused calls) h = h
      lived (session s) r = ends s w ms r
