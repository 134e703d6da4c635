-- ===== src/DeviceSession/Used.antt =====
-- What the methods of a session of src/liblgx/liblgx-usb/src/usb/DeviceSession.cpp do to the use of
-- its handle.
use lgx2userspace.Prelude.{
  ◌≡◌, refl, sym, ap, ◌∙◌, Bool, true, false, not, ◌&&◌, inl, inr, Option, none, some, List, [],
  ◌∷◌, ◌++◌, arith, Bool-cases, Option-cases,
}
use lgx2userspace.Usb.{DeviceType, is_success}
use lgx2userspace.DeviceSession.Usage.{Usage, idle, allowed, usage_after, follow, follow-append}
use lgx2userspace.DeviceSession.{
  commanded, capture_started, poll_started, released, reset, closed, Parts, Session, Opening,
  Opened, session, refused, Streaming, open_session, start_poll, start, deliver, discard, stop,
  is_some, stop_parts, stop_capture,
}
use lgx2userspace.CaptureStream
use lgx2userspace.CaptureStream.{CaptureStream}

-- A method of a session that was started.
pub data Method : Type 0 where
  delivering discarding stopping : Method

pub unused :
    (polls has_dev capturing : Bool)
    → has_dev ≡ false
    → capturing && not has_dev ≡ false
    → record {
      is_open = has_dev;
      is_claimed = has_dev;
      polling = polls && has_dev;
      capturing = capturing;
    }
      ≡ idle
unused polls true capturing gone goes = absurd (ground arith)
unused true false true gone goes = absurd (ground arith)
unused false false true gone goes = absurd (ground arith)
unused true false false gone goes = refl
unused false false false gone goes = refl

abbrev pub ready : Usage
ready = record { is_open = true; is_claimed = true; polling = false; capturing = false }

pub begins : follow (capture_started ∷ []) ready ≡ some (record ready { capturing = true })
unfolding follow allowed usage_after
begins = refl

pub commands_on : follow (commanded ∷ []) ready ≡ some ready
unfolding follow allowed usage_after
commands_on = refl

module _ {D : Type 0} where
  abbrev pub call_method : Method → Session D → Session D
  call_method delivering s = (deliver s).1
  call_method discarding s = discard s
  call_method stopping s = stop s

  unfoldable pub call_methods : List Method → Session D → Session D
  call_methods [] s = s
  call_methods (m ∷ ms) s = call_methods ms (call_method m s)

  -- The calls that a session has made say that its handle is used as its fields tell. `polls` is
  -- whether its poll was started.
  pub record IsUsed (polls : Bool) (s : Session D) : Type 0 where
    pub parts_there : is_some s.parts ≡ s.has_dev
    pub capture_goes : is_some s.capture && not s.has_dev ≡ false
    pub follows :
        follow s.calls idle
        ≡ some (record {
          is_open = s.has_dev;
          is_claimed = s.has_dev;
          polling = polls && s.has_dev;
          capturing = is_some s.capture;
        })

  -- The queue of the stream is not part of how the handle is used.
  pub with_capture :
      (polls : Bool) (s : Session D) (c c' : CaptureStream)
      → s.capture ≡ some c
      → IsUsed polls s
      → IsUsed polls (record s { capture = some c' })
  with_capture polls s c c' e u = record {
    parts_there = u.parts_there;
    capture_goes = simp e at u.capture_goes;
    follows = simp e at u.follows;
  }

  pub deliver-IsUsed : (polls : Bool) (s : Session D) → IsUsed polls s → IsUsed polls (deliver s).1
  unfolding deliver
  deliver-IsUsed polls s u = elim (Option-cases s.capture) [
    | inl e ↦ simp e u
    | inr (c, e) ↦ simp e (with_capture polls s c (CaptureStream.deliver c).1 e u)
  ]

  pub discard-IsUsed : (polls : Bool) (s : Session D) → IsUsed polls s → IsUsed polls (discard s)
  unfolding discard
  discard-IsUsed polls s u = elim (Option-cases s.capture) [
    | inl e ↦ simp e u
    | inr (c, e) ↦ simp e (with_capture polls s c (CaptureStream.discard c) e u)
  ]

  pub stopped_calls :
      (polls capturing : Bool) (parts : Option (Parts D)) (capture : Option CaptureStream)
      → is_some parts ≡ true
      → follow
          (stop_parts parts ++ (stop_capture capture ++ (released ∷ reset ∷ closed ∷ [])))
          (record {
            is_open = true;
            is_claimed = true;
            polling = polls;
            capturing = is_some capture;
          })
        ≡ some idle
  unfolding follow allowed usage_after
  stopped_calls polls capturing none capture there = absurd (ground arith)
  stopped_calls polls capturing (some p) none there = refl
  stopped_calls polls capturing (some p) (some c) there = refl

  -- `stop` gives the handle back, whatever state the session is in.
  pub stop_gives_back :
      (polls : Bool) (s : Session D)
      → IsUsed polls s
      → IsUsed polls (stop s)
        × ((stop s).has_dev ≡ false)
        × (follow (stop s).calls idle ≡ some idle)
  unfolding stop
  stop_gives_back polls s u = elim (Bool-cases s.has_dev) [
    | inr gone ↦ simp gone (
      u,
      refl,
      u.follows ∙ ap some (unused polls s.has_dev (is_some s.capture) gone u.capture_goes),
    )
    | inl there ↦ simp there (
      record {
        parts_there = refl;
        capture_goes = refl;
        follows = ended there ∙ ap some (idle_again polls);
      },
      refl,
      ended there,
    )
  ]
    where
      idle_again :
          (polls : Bool)
          → idle ≡ record {
            is_open = false;
            is_claimed = false;
            polling = polls && false;
            capturing = false;
          }
      idle_again true = refl
      idle_again false = refl

      ended :
          s.has_dev ≡ true
          → follow
              (s.calls
                ++ (stop_parts s.parts
                    ++ (stop_capture s.capture ++ (released ∷ reset ∷ closed ∷ []))))
              idle
            ≡ some idle
      ended there =
          follow-append s.calls _ idle _ u.follows
          ∙ ap
              (λ h.
                follow
                  (stop_parts s.parts
                    ++ (stop_capture s.capture ++ (released ∷ reset ∷ closed ∷ [])))
                  (record {
                    is_open = h;
                    is_claimed = h;
                    polling = polls && h;
                    capturing = is_some s.capture;
                  }))
              there
          ∙ stopped_calls (polls && true) (is_some s.capture) s.parts s.capture
              (u.parts_there ∙ there)

  pub call_methods-IsUsed :
      (polls : Bool) (ms : List Method) (s : Session D)
      → IsUsed polls s
      → IsUsed polls (call_methods ms s)
  unfolding call_methods
  call_methods-IsUsed polls [] s u = u
  call_methods-IsUsed polls (delivering ∷ ms) s u =
      call_methods-IsUsed polls ms (deliver s).1 (deliver-IsUsed polls s u)
  call_methods-IsUsed polls (discarding ∷ ms) s u =
      call_methods-IsUsed polls ms (discard s) (discard-IsUsed polls s u)
  call_methods-IsUsed polls (stopping ∷ ms) s u =
      call_methods-IsUsed polls ms (stop s) (stop_gives_back polls s u).0

  -- A session between its constructor and `start`.
  pub record IsReady (s : Session D) : Type 0 where
    pub opened_ready : s.has_dev ≡ true
    pub quiet : s.capture ≡ none
    pub parts_ready : is_some s.parts ≡ true
    pub follows_ready : follow s.calls idle ≡ some ready

  pub IsReady-IsUsed : (s : Session D) → IsReady s → IsUsed false s
  IsReady-IsUsed s r = record {
    parts_there = r.parts_ready ∙ sym r.opened_ready;
    capture_goes = simp r.quiet refl;
    follows = r.follows_ready ∙ simp (r.quiet, r.opened_ready) refl;
  }

  pub started_parts :
      (parts : Option (Parts D)) (s : Session D)
      → parts ≡ s.parts
      → s.has_dev ≡ true
      → is_some s.parts ≡ true
      → is_some s.capture ≡ true
      → follow s.calls idle ≡ some (record ready { capturing = true })
      → IsUsed true (start_poll parts s)
  unfolding follow allowed usage_after
  started_parts none s e up there runs calls = absurd (ground arith)
  started_parts (some p) s e up there runs calls = record {
    parts_there = sym up;
    capture_goes = simp (up, runs) refl;
    follows =
        follow-append s.calls (poll_started ∷ []) idle (record ready { capturing = true }) calls
        ∙ simp (up, runs) refl;
  }

  pub start-IsUsed : (w : Streaming) (s : Session D) → IsReady s → IsUsed s.status_poll (start w s)
  unfolding start
  start-IsUsed w s r = elim (Bool-cases s.status_poll) [
    | inl e ↦ simp e (started_parts s.parts _ refl r.opened_ready r.parts_ready refl begun)
    | inr e ↦ simp e (record {
      parts_there = r.parts_ready ∙ sym r.opened_ready;
      capture_goes = simp r.opened_ready refl;
      follows = begun ∙ simp r.opened_ready refl;
    })
  ]
    where
      begun :
          follow (s.calls ++ (capture_started ∷ [])) idle ≡ some (record ready { capturing = true })
      begun = follow-append s.calls (capture_started ∷ []) idle ready r.follows_ready ∙ begins

  -- A constructor that throws leaves the handle closed; one that returns, a session that can start.
  abbrev pub OpenedSoundly : Opened D → Type 0
  OpenedSoundly (refused calls) = follow calls idle ≡ some idle
  OpenedSoundly (session s) = IsReady s

  pub open_session_soundly :
      (o : Opening D) (type : DeviceType) (status_poll debug : Bool)
      → OpenedSoundly (open_session o type status_poll debug)
  unfolding open_session follow allowed usage_after
  open_session_soundly o type status_poll debug = elim (Bool-cases (is_success o.open_result)) [
    | inr e ↦ simp e refl
    | inl e ↦ elim (Bool-cases (is_success o.configuration_result)) [
      | inr e' ↦ simp (e, e') refl
      | inl e' ↦ elim (Bool-cases (is_success o.claim_result)) [
        | inr e'' ↦ simp (e, e', e'') refl
        | inl e'' ↦
            simp (e, e', e'')
              (record {
                opened_ready = refl;
                quiet = refl;
                parts_ready = refl;
                follows_ready = refl;
              })
      ]
    ]
  ]
