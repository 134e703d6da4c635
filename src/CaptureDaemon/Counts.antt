-- ===== src/CaptureDaemon/Counts.antt =====
-- The references that the daemon of src/lgx2d/CaptureDaemon.cpp counts.
use lgx2userspace.Prelude.{
  ℕ, ◌+◌, ◌≡◌, refl, Bool, Option, none, some, List, [], ◌∷◌, ◌++◌, arith, ◌==◌, if◌then◌else◌,
}
use lgx2userspace.UsbContext.{References, ref_device, unref_device}
use lgx2userspace.CaptureDaemon.{unref_session_device, unref_events}

-- How many of the queued events are of a device, and whether it is the session's.
abbrev pub queued : ℕ → List (ℕ × Bool) → ℕ
queued x [] = 0
queued x ((y, arrived) ∷ rest) = (if x == y then 1 else 0) + queued x rest

abbrev pub held : ℕ → Option ℕ → ℕ
held x none = 0
held x (some y) = if x == y then 1 else 0

-- The daemon holds a reference for each event and one for the session, beside those of others.
abbrev pub Counts : References → List (ℕ × Bool) → Option ℕ → References → Type 0
Counts base events device refs = (x : ℕ) → refs x ≡ base x + queued x events + held x device

pub queued-append :
    (x y : ℕ) (arrived : Bool) (l : List (ℕ × Bool))
    → queued x (l ++ ((y, arrived) ∷ [])) ≡ (if x == y then 1 else 0) + queued x l
queued-append x y arrived [] = refl
queued-append x y arrived ((z, a) ∷ l) = omega (arith, queued-append x y arrived l)

pub ref-Counts :
    (base refs : References) (events : List (ℕ × Bool)) (device : Option ℕ) (y : ℕ) (arrived : Bool)
    → Counts base events device refs
    → Counts base (events ++ ((y, arrived) ∷ [])) device (ref_device y refs)
ref-Counts base refs events device y arrived h x =
    ground (arith, h x, queued-append x y arrived events)

pub take-Counts :
    (base refs : References) (events : List (ℕ × Bool)) (y : ℕ)
    → Counts base events none refs
    → Counts base events (some y) (ref_device y refs)
take-Counts base refs events y h x = ground (arith, h x)

pub leave-Counts :
    (base refs : References) (events : List (ℕ × Bool)) (device : Option ℕ)
    → Counts base events device refs
    → Counts base events none (unref_session_device device refs)
leave-Counts base refs events none h x = h x
leave-Counts base refs events (some y) h x = ground (arith, h x)

-- The reference of an event that was taken off the queue counts as one of others until it is dropped.
pub pop-Counts :
    (base refs : References) (rest : List (ℕ × Bool)) (device : Option ℕ) (y : ℕ) (arrived : Bool)
    → Counts base ((y, arrived) ∷ rest) device refs
    → Counts (ref_device y base) rest device refs
pop-Counts base refs rest device y arrived h x = ground (arith, h x)

pub drop-Counts :
    (base refs : References) (rest : List (ℕ × Bool)) (device : Option ℕ) (y : ℕ)
    → Counts (ref_device y base) rest device refs
    → Counts base rest device (unref_device y refs)
drop-Counts base refs rest device y h x = ground (arith, h x)

pub unref_events-Counts :
    (base refs : References) (events : List (ℕ × Bool))
    → Counts base events none refs
    → Counts base [] none (unref_events events refs)
unfolding unref_events
unref_events-Counts base refs [] h = h
unref_events-Counts base refs ((y, arrived) ∷ rest) h =
    unref_events-Counts base (unref_device y refs) rest
      (drop-Counts base refs rest none y (pop-Counts base refs rest none y arrived h))
