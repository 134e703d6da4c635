-- ===== src/V4LCaptureSource/Tests.antt =====
-- Runs of src/liblgx/liblgx-linux/src/v4l/V4LCaptureSource.cpp.
use lgx2userspace.Prelude.{◌≡◌, refl, true, some, [], ◌∷◌, not, ◌==◌}
use lgx2userspace.V4LCaptureSource.{
  file_opened, buffer_mapped, buffer_unmapped, file_closed, System, release, open_source,
  start_streaming, start_buffers, unmap_calls,
}
use lgx2userspace.V4LCaptureSource.Held.{follow, nothing_held}
use lgx2userspace.V4LCaptureSource.Release.{open_source_lem}

-- The third buffer cannot be mapped.
abbrev short_system : System
short_system = record {
  opens = true;
  format_read = true;
  format_fits = true;
  requested = true;
  given = 6;
  buffers = λ i. record { queried = true; maps = not (i == 2); queued = true };
  starts = true;
}

open_source_lem_example :
    (follow (release (open_source short_system).1).calls nothing_held ≡ some nothing_held)
    × ((open_source short_system).1.has_fd ≡ (open_source short_system).0)
open_source_lem_example = open_source_lem short_system

unmaps_two :
    (open_source short_system).1.calls
    ≡ file_opened ∷ buffer_mapped ∷ buffer_mapped ∷ buffer_unmapped ∷ buffer_unmapped ∷ file_closed
      ∷ []
unfolding open_source start_streaming start_buffers release unmap_calls
unmaps_two = refl
