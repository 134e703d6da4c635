-- ===== src/CaptureDaemon.antt =====
-- src/lgx2d/CaptureDaemon.h and CaptureDaemon.cpp: the daemon that waits for a card, captures from it
-- until it goes, and waits again. Hotplug events are queued by the event thread between any two steps
-- of the loop. A device is a number; its references are counted, and `history` is what was done with
-- the handles of the sessions that have ended. What is printed and the pauses are left out.
pub mod Counts
pub mod Balance
mod Tests
use lgx2userspace.Prelude.{
  ℕ, zero, suc, ◌+◌, ◌-◌, Bool, true, false, not, ◌&&◌, ◌||◌, Option, none, some, List, [], ◌∷◌,
  ◌++◌, ◌==◌, if◌then◌else◌, length,
}
use lgx2userspace.Usb.{Usb, DeviceType, lgx, lgx2}
use lgx2userspace.UsbContext.{Descriptor, usable, References, ref_device, unref_device}
use lgx2userspace.UsbStream.{same_type}
use lgx2userspace.CaptureStream.{Chunk}
use lgx2userspace.CapturePipeline
use lgx2userspace.CapturePipeline.{InputState, no_device, Setup, Pipeline}
use lgx2userspace.DeviceSession
use lgx2userspace.DeviceSession.{
  Call, Session, Opening, Opened, session, refused, Streaming, open_session,
}

-- OPEN_ATTEMPTS
abbrev pub open_attempts : ℕ
open_attempts = 5

-- `CaptureDaemon`. An event is a device and whether it arrived.
pub record CaptureDaemon (D : Type 0) : Type 0 where
  pub pipeline : Pipeline
  pub events : List (ℕ × Bool)
  pub current : Option (Session D)
  pub session_device : Option ℕ
  pub references : References
  pub history : List (List Call)

-- `queueEvent`
unfoldable pub queue_event : {D : Type 0} → ℕ → Bool → CaptureDaemon D → CaptureDaemon D
queue_event device arrived d = record d {
  references = ref_device device d.references;
  events = d.events ++ ((device, arrived) ∷ []);
}

abbrev pub unref_session_device : Option ℕ → References → References
unref_session_device none refs = refs
unref_session_device (some device) refs = unref_device device refs

abbrev pub end_current : {D : Type 0} → Option (Session D) → CaptureDaemon D → CaptureDaemon D
end_current none d = d
end_current (some s) d = record d {
  current = none;
  session_device = none;
  references = unref_session_device d.session_device d.references;
  history = d.history ++ ((DeviceSession.stop s).calls ∷ []);
}

-- `endSession`
unfoldable pub end_session : {D : Type 0} → CaptureDaemon D → CaptureDaemon D
end_session d = end_current d.current d

-- The loop of the destructor.
unfoldable pub unref_events : List (ℕ × Bool) → References → References
unref_events [] refs = refs
unref_events ((device, arrived) ∷ rest) refs = unref_events rest (unref_device device refs)

-- The destructor.
unfoldable pub destroy : {D : Type 0} → CaptureDaemon D → CaptureDaemon D
destroy d =
    let e = end_session d in
    record e { events = []; references = unref_events e.events e.references }

-- What libusb and the environment answer: what a device is, the answers to each attempt at opening
-- it, the transfers, and whether LGX2_FRONTEND_DEBUG is set.
pub record World (D : Type 0) : Type 0 where
  pub describe : ℕ → Descriptor
  pub answers : ℕ → Opening D
  pub streaming : Streaming
  pub debug : Bool

-- The parts of the build and of `Options`.
pub record Options : Type 0 where
  pub gc550 : Bool
  pub status_poll : Bool
  pub device_type : DeviceType
  pub setup : Setup

abbrev pub is_wanted : Option DeviceType → DeviceType → Bool
is_wanted none wanted = false
is_wanted (some type) wanted = same_type type wanted

-- `event.device == _sessionDevice`
abbrev pub is_session_device : ℕ → Option ℕ → Bool
is_session_device device none = false
is_session_device device (some d) = device == d

module _ {D : Type 0} (usb : Usb D) (fuel : ℕ) (commands : DeviceType → List ℕ) (o : Options) where
  -- The session of an attempt, where the constructor, the bootstrap and the start return; what is left
  -- of it is destroyed where they throw.
  abbrev pub attempt_session : Streaming → Opened D → Option (Session D) × List Call
  attempt_session streaming (refused calls) = (none, calls)
  attempt_session streaming (session s) =
      let (works, s') = DeviceSession.bootstrap usb fuel commands s in
      if works
      then (some (DeviceSession.start streaming s'), [])
      else (none, (DeviceSession.stop s').calls)

  abbrev pub take_session : ℕ → Session D → CaptureDaemon D → CaptureDaemon D
  take_session device s d = record d {
    current = some s;
    session_device = some device;
    references = ref_device device d.references;
  }

  abbrev pub after_attempt :
      Option (Session D) × List Call
      → ℕ
      → (CaptureDaemon D → CaptureDaemon D)
      → CaptureDaemon D
      → CaptureDaemon D
  after_attempt (none, calls) device next d =
      next (record d { history = d.history ++ (calls ∷ []) })
  after_attempt (some s, calls) device next d = take_session device s d

  -- The loop of `openSession` with `left` attempts left.
  unfoldable pub try_open : ℕ → World D → ℕ → CaptureDaemon D → CaptureDaemon D
  try_open zero w device d = d
  try_open (suc left) w device d =
      after_attempt
        (attempt_session w.streaming
          (open_session (w.answers (open_attempts - left)) o.device_type o.status_poll w.debug))
        device (try_open left w device) d

  -- `openSession`
  unfoldable pub open_device : World D → ℕ → CaptureDaemon D → CaptureDaemon D
  open_device w device d =
      if is_wanted (usable o.gc550 (w.describe device)) o.device_type
      then try_open open_attempts w device d
      else d

  abbrev pub is_capturing : CaptureDaemon D → Bool
  is_capturing d = DeviceSession.is_some d.current

  -- What `handleEvents` does with an event that it took off the queue.
  unfoldable pub react : World D → ℕ → Bool → CaptureDaemon D → CaptureDaemon D
  react w device true d = if is_capturing d then d else open_device w device d
  react w device false d = if is_session_device device d.session_device then end_session d else d

  abbrev pub release_event : ℕ → CaptureDaemon D → CaptureDaemon D
  release_event device d = record d { references = unref_device device d.references }

  abbrev pub handle_front : World D → List (ℕ × Bool) → CaptureDaemon D → CaptureDaemon D
  handle_front w [] d = d
  handle_front w ((device, arrived) ∷ rest) d =
      release_event device (react w device arrived (record d { events = rest }))

  -- A round of the loop of `handleEvents`.
  unfoldable pub handle_event : World D → CaptureDaemon D → CaptureDaemon D
  handle_event w d = handle_front w d.events d

  abbrev pub end_if_ended : Option (Session D) → CaptureDaemon D → CaptureDaemon D
  end_if_ended none d = d
  end_if_ended (some s) d = if DeviceSession.ended s then end_session d else d

  abbrev pub state_of : Option (Session D) → InputState
  state_of none = no_device
  state_of (some s) = DeviceSession.input_state s

  -- The chunks that `deliver` hands to the pipeline.
  unfoldable pub feed_all : List Chunk → Pipeline → Pipeline
  feed_all [] p = p
  feed_all ((bytes, gapped) ∷ chunks) p =
      feed_all chunks (CapturePipeline.feed o.setup bytes gapped p)

  abbrev pub serve_session : Option (Session D) → CaptureDaemon D → CaptureDaemon D
  serve_session none d = d
  serve_session (some s) d =
      let (chunks, s') = DeviceSession.deliver s in
      if CapturePipeline.wants_data d.pipeline
      then record d { current = some s'; pipeline = feed_all chunks d.pipeline }
      else record d { current = some (DeviceSession.discard s) }

  abbrev pub set_state : ℕ → CaptureDaemon D → CaptureDaemon D
  set_state now d = record d {
    pipeline = CapturePipeline.set_input_state o.setup (state_of d.current) now d.pipeline;
  }

  abbrev pub tick_pipeline : ℕ → CaptureDaemon D → CaptureDaemon D
  tick_pipeline now d = record d { pipeline = CapturePipeline.tick o.setup now d.pipeline }

  -- A round of the loop of `run` behind `handleEvents`, at the time `now`.
  unfoldable pub serve : ℕ → CaptureDaemon D → CaptureDaemon D
  serve now d =
      let live = set_state now (end_if_ended d.current d) in
      tick_pipeline now (serve_session live.current live)

  -- The loop of `run` and the event thread: an event is queued, a round of `handleEvents` takes one,
  -- or the rest of a round of `run` goes on.
  pub data Action : Type 0 where
    queueing : ℕ → Bool → Action
    handling : World D → Action
    serving : ℕ → Action

  abbrev pub act : Action → CaptureDaemon D → CaptureDaemon D
  act (queueing device arrived) d = queue_event device arrived d
  act (handling w) d = handle_event w d
  act (serving now) d = serve now d

  unfoldable pub run : List Action → CaptureDaemon D → CaptureDaemon D
  run [] d = d
  run (a ∷ actions) d = run actions (act a d)
