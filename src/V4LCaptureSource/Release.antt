-- ===== src/V4LCaptureSource/Release.antt =====
-- What `V4LCaptureSource` of src/liblgx/liblgx-linux/src/v4l/V4LCaptureSource.cpp takes from the system,
-- and that it gives it back.
use lgx2userspace.Prelude.{
  ℕ, zero, suc, ◌+◌, ◌≤◌, ◌<◌, ◌≡◌, refl, sym, ap, ◌∙◌, min, Bool, true, false, not, ◌||◌, inl, inr,
  some, List, [], ◌∷◌, ◌++◌, arith, ◌==◌, if◌then◌else◌, Bool-cases, get_or, get_or-set_ne,
}
use lgx2userspace.V4LCaptureSource.{
  buffer_count, file_opened, buffer_mapped, stream_started, stream_stopped, file_closed,
  V4LCaptureSource, System, map_buffer, start_buffers, start_streaming, unmap_calls, no_buffers,
  release, opened, keep_or_release, open_source,
}
use lgx2userspace.V4LCaptureSource.Held.{
  nothing_held, allowed, held_after, follow, follow-append, count_in, count_in-set, none_in,
  unmap_calls-follow,
}

-- An open source whose calls hold what its fields tell.
record IsHeld (s : V4LCaptureSource) : Type 0 where
  pub up : s.has_fd ≡ true
  pub holds :
      follow s.calls nothing_held
      ≡ some (record { is_open = true; streams = s.streaming; maps = count_in s.count s.mapped })

-- A source in the loop of `startStreaming`, with the buffers from `i` on not mapped yet.
record IsLoading (i : ℕ) (s : V4LCaptureSource) : Type 0 where
  pub held : IsHeld s
  pub quiet : s.streaming ≡ false
  pub free : (j : ℕ) → i ≤ j → j < buffer_count → get_or s.mapped j true ≡ false

stopped_first :
    (streaming : Bool) (n : ℕ) (l : List Bool)
    → follow
        ((if streaming then stream_stopped ∷ [] else []) ++ (unmap_calls n l ++ (file_closed ∷ [])))
        (record { is_open = true; streams = streaming; maps = count_in n l })
      ≡ some nothing_held
unfolding follow allowed held_after
stopped_first true n l = unmap_calls-follow n l (file_closed ∷ [])
stopped_first false n l = unmap_calls-follow n l (file_closed ∷ [])

started :
    (streaming : Bool) (n : ℕ)
    → streaming ≡ false
    → follow (stream_started ∷ []) (record { is_open = true; streams = streaming; maps = n })
      ≡ some (record { is_open = true; streams = true; maps = n })
unfolding follow allowed held_after
started false n h = refl
started true n h = absurd (ground arith)

just_open :
    follow (file_opened ∷ []) nothing_held
    ≡ some (record { is_open = true; streams = false; maps = count_in 0 no_buffers })
unfolding follow allowed held_after count_in
just_open = refl

none_mapped :
    (n : ℕ)
    → follow (file_opened ∷ []) nothing_held
      ≡ some (record { is_open = true; streams = false; maps = count_in n no_buffers })
unfolding follow allowed held_after
none_mapped n = ap (λ m. some (record { is_open = true; streams = false; maps = m })) (none_in n)

all_free : (j : ℕ) → 0 ≤ j → j < buffer_count → get_or no_buffers j true ≡ false
all_free zero a b = refl
all_free (suc zero) a b = refl
all_free (suc (suc zero)) a b = refl
all_free (suc (suc (suc zero))) a b = refl
all_free (suc (suc (suc (suc j)))) a b = absurd (omega arith)

never :
    (follow (release (record opened { has_fd = false; calls = [] })).calls nothing_held
      ≡ some nothing_held)
    × (false ≡ false)
unfolding release follow
never = (refl, refl)

not_wanted :
    (follow (release (release opened)).calls nothing_held ≡ some nothing_held)
    × ((release opened).has_fd ≡ false)
unfolding release follow unmap_calls allowed held_after
not_wanted = (refl, refl)

release_lem :
    (s : V4LCaptureSource)
    → IsHeld s
    → (follow (release s).calls nothing_held ≡ some nothing_held) × ((release s).has_fd ≡ false)
unfolding release
release_lem s h = simp h.up (
  follow-append s.calls _ nothing_held _ h.holds ∙ stopped_first s.streaming s.count s.mapped,
  refl,
)

map_buffer-IsLoading :
    (i : ℕ) (s : V4LCaptureSource)
    → i < s.count
    → s.count ≤ buffer_count
    → IsLoading i s
    → IsLoading (i + 1) (map_buffer i s)
unfolding follow allowed held_after
map_buffer-IsLoading i s lt within h = record {
  held = record {
    up = h.held.up;
    holds =
        follow-append s.calls (buffer_mapped ∷ []) nothing_held _ h.held.holds
        ∙ simp h.quiet (
            ap (λ m. some (record { is_open = true; streams = false; maps = m }))
              (sym (count_in-set s.count i s.mapped lt (h.free i (omega arith) (omega arith)))));
  };
  quiet = h.quiet;
  free = λ j from below.
      get_or-set_ne s.mapped i j true true (λ e. omega (arith, e)) ∙ h.free j (omega arith) below;
}

start_buffers-IsHeld :
    (left i : ℕ) (sys : System) (s : V4LCaptureSource)
    → i + left ≡ s.count
    → s.count ≤ buffer_count
    → IsLoading i s
    → IsHeld (start_buffers left i sys s).1
unfolding start_buffers
start_buffers-IsHeld zero i sys s end within h = elim (Bool-cases sys.starts) [
  | inr e ↦ simp e h.held
  | inl e ↦ simp e (record {
    up = h.held.up;
    holds =
        follow-append s.calls (stream_started ∷ []) nothing_held _ h.held.holds
        ∙ started s.streaming (count_in s.count s.mapped) h.quiet;
  })
]
start_buffers-IsHeld (suc left) i sys s end within h =
    let loaded = map_buffer-IsLoading i s (omega arith) within h in
    elim (Bool-cases (not (sys.buffers i).queried || not (sys.buffers i).maps)) [
      | inl e ↦ simp e h.held
      | inr e ↦ elim (Bool-cases (not (sys.buffers i).queued)) [
        | inl q ↦ simp (e, q) loaded.held
        | inr q ↦
            simp (e, q)
              (start_buffers-IsHeld left (i + 1) sys (map_buffer i s) (omega arith) within loaded)
      ]
    ]

start_streaming-IsHeld : (sys : System) → IsHeld (start_streaming sys opened).1
unfolding start_streaming
start_streaming-IsHeld sys = elim (Bool-cases (not sys.requested || sys.given == 0)) [
  | inl e ↦ simp e (record { up = refl; holds = just_open })
  | inr e ↦ simp e (
      start_buffers-IsHeld (min sys.given buffer_count) 0 sys
        (record opened { count = min sys.given buffer_count }) (omega arith) (omega arith)
        (record {
          held = record { up = refl; holds = none_mapped (min sys.given buffer_count) };
          quiet = refl;
          free = all_free;
        }))
]

released_once : (s : V4LCaptureSource) → s.has_fd ≡ false → release s ≡ s
unfolding release
released_once s h = simp h refl

-- Whatever the system answers, a source whose constructor threw holds nothing, and one whose
-- constructor returned holds nothing behind its destructor: the stream was stopped, then each mapped
-- buffer unmapped, then the file closed, each once.
pub open_source_lem :
    (sys : System)
    → (follow (release (open_source sys).1).calls nothing_held ≡ some nothing_held)
      × ((open_source sys).1.has_fd ≡ (open_source sys).0)
unfolding open_source
open_source_lem sys = elim (Bool-cases sys.opens) [
  | inr e ↦ simp e never
  | inl e ↦ elim (Bool-cases (not sys.format_read || not sys.format_fits)) [
    | inl f ↦ simp (e, f) not_wanted
    | inr f ↦ simp (e, f) (ends (start_streaming sys opened) (start_streaming-IsHeld sys))
  ]
]
  where
    ends :
        (r : Bool × V4LCaptureSource)
        → IsHeld r.1
        → (follow (release (keep_or_release r).1).calls nothing_held ≡ some nothing_held)
          × ((keep_or_release r).1.has_fd ≡ (keep_or_release r).0)
    ends (true, s) h = ((release_lem s h).0, h.up)
    ends (false, s) h =
        let (back, shut) = release_lem s h in
        (ap (λ t. follow t.calls nothing_held) (released_once (release s) shut) ∙ back, shut)
