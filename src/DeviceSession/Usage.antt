-- ===== src/DeviceSession/Usage.antt =====
-- What may be done with a handle of libusb, and when: the calls of a session of
-- src/liblgx/liblgx-usb/src/usb/DeviceSession.cpp are held against it.
use lgx2userspace.Prelude.{
  ◌≡◌, ap, Bool, true, false, not, ◌&&◌, inl, inr, Option, none, some, List, [], ◌∷◌, ◌++◌, arith,
  if◌then◌else◌, Bool-cases,
}
use lgx2userspace.DeviceSession.{
  Call, opened, configured, claimed, commanded, capture_started, poll_started, poll_stopped,
  capture_stopped, released, reset, closed, null_dereference,
}

-- What a handle is used for at a time.
pub record Usage : Type 0 where
  pub is_open : Bool
  pub is_claimed : Bool
  pub polling : Bool
  pub capturing : Bool

abbrev pub idle : Usage
idle = record { is_open = false; is_claimed = false; polling = false; capturing = false }

-- Whether a call is allowed: transfers only on a claimed interface; the interface is given back only
-- when neither the poll thread nor the stream uses it, and the handle closed only behind that.
unfoldable pub allowed : Call → Usage → Bool
allowed opened u = not u.is_open
allowed configured u = u.is_open && not u.is_claimed
allowed claimed u = u.is_open && not u.is_claimed
allowed commanded u = u.is_claimed
allowed capture_started u = u.is_claimed && not u.capturing
allowed poll_started u = u.is_claimed && not u.polling
allowed poll_stopped u = u.is_claimed
allowed capture_stopped u = u.is_claimed
allowed released u = u.is_claimed && (not u.polling && not u.capturing)
allowed reset u = u.is_open && not u.is_claimed
allowed closed u = u.is_open && not u.is_claimed
allowed null_dereference u = false

unfoldable pub usage_after : Call → Usage → Usage
usage_after opened u = record u { is_open = true }
usage_after configured u = u
usage_after claimed u = record u { is_claimed = true }
usage_after commanded u = u
usage_after capture_started u = record u { capturing = true }
usage_after poll_started u = record u { polling = true }
usage_after poll_stopped u = record u { polling = false }
usage_after capture_stopped u = record u { capturing = false }
usage_after released u = record u { is_claimed = false }
usage_after reset u = u
usage_after closed u = record u { is_open = false }
usage_after null_dereference u = u

-- The use of the handle behind calls that were all allowed.
unfoldable pub follow : List Call → Usage → Option Usage
follow [] u = some u
follow (c ∷ cs) u = let rest = follow cs (usage_after c u) in if allowed c u then rest else none

pub follow-append :
    (xs ys : List Call) (u v : Usage) → follow xs u ≡ some v → follow (xs ++ ys) u ≡ follow ys v
unfolding follow
follow-append [] ys u v h = ap (follow ys) (ground arith)
follow-append (c ∷ xs) ys u v h = elim (Bool-cases (allowed c u)) [
  | inl e ↦ simp e (follow-append xs ys (usage_after c u) v (simp e at h))
  | inr e ↦ absurd (ground (arith, simp e at h))
]
