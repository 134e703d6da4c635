-- ===== src/AudioGate/Settle.antt =====
-- When the gate of src/liblgx/src/AudioGate.cpp opens: `update` along a sequence of reports.
use lgx2userspace.Prelude.{
  ℕ, ◌-◌, ◌≤◌, ◌≡◌, refl, Bool, true, false, List, [], ◌∷◌, ◌++◌, ◌⊎◌, inl, inr, arith, leb, All,
  append_assoc, append-nil, Bool-cases, leb→le, ap, ◌∙◌,
}
use lgx2userspace.AudioGate.{AudioGate, initial, update, settle_time}

-- One call of `update`.
pub record Report : Type 0 where
  pub signal : Bool
  pub at : ℕ

-- The gate after a sequence of reports, oldest first.
unfoldable pub updates : List Report → AudioGate → AudioGate
updates [] g = g
updates (r ∷ rs) g = updates rs (update r.signal r.at g)

abbrev pub IsPresent : Report → Type 0
IsPresent r = r.signal ≡ true

-- Some report of the list came `settle_time` or more after `since`.
abbrev pub HasSettled : ℕ → List Report → Type 0
HasSettled since [] = ⊥
HasSettled since (r ∷ rs) = (settle_time ≤ r.at - since) ⊎ HasSettled since rs

-- The history ends in reports of a present signal, `first` and those behind it.
pub record Window (history : List Report) (since : ℕ) (opened : Bool) : Type 0 where
  pub before : List Report
  pub first : Report
  pub run : List Report
  pub splits : history ≡ before ++ (first ∷ run)
  pub present : All IsPresent (first ∷ run)
  pub starts : first.at ≡ since
  pub settled : opened ≡ true → HasSettled since (first ∷ run)

abbrev Inv : List Report → AudioGate → Type 0
Inv h g = elim g.present [ false ↦ g.is_open ≡ false | true ↦ Window h g.present_since g.is_open ]

All-concat :
    (xs : List Report) (r : Report)
    → All IsPresent xs
    → IsPresent r
    → All IsPresent (xs ++ (r ∷ []))
All-concat [] r h p = (p, tt)
All-concat (x ∷ xs) r h p = (h.0, All-concat xs r h.1 p)

HasSettled-left :
    (since : ℕ) (xs ys : List Report) → HasSettled since xs → HasSettled since (xs ++ ys)
HasSettled-left since [] ys h = elim h [ ]
HasSettled-left since (x ∷ xs) ys (inl h) = inl h
HasSettled-left since (x ∷ xs) ys (inr h) = inr (HasSettled-left since xs ys h)

HasSettled-right :
    (since : ℕ) (xs ys : List Report) → HasSettled since ys → HasSettled since (xs ++ ys)
HasSettled-right since [] ys h = h
HasSettled-right since (x ∷ xs) ys h = inr (HasSettled-right since xs ys h)

-- A window of an open gate grows by a report of a present signal.
Window-grow :
    {h : List Report} {since : ℕ} {o o' : Bool} (r : Report)
    → IsPresent r
    → (o' ≡ true → (o ≡ true) ⊎ (settle_time ≤ r.at - since))
    → Window h since o
    → Window (h ++ (r ∷ [])) since o'
Window-grow {h} {since} {o} {o'} r p opener w = record {
  before = w.before;
  first = w.first;
  run = w.run ++ (r ∷ []);
  splits = ap (λ l. l ++ (r ∷ [])) w.splits ∙ append_assoc w.before (w.first ∷ w.run) (r ∷ []);
  present = (w.present.0, All-concat w.run r w.present.1 p);
  starts = w.starts;
  settled = λ e. elim (opener e) [
    | inl e' ↦ HasSettled-left since (w.first ∷ w.run) (r ∷ []) (w.settled e')
    | inr late ↦ HasSettled-right since (w.first ∷ w.run) (r ∷ []) (inl late)
  ];
}

Window-start :
    (h : List Report) (r : Report) (o : Bool)
    → IsPresent r
    → (o ≡ true → settle_time ≤ r.at - r.at)
    → Window (h ++ (r ∷ [])) r.at o
Window-start h r o p late = record {
  before = h;
  first = r;
  run = [];
  splits = refl;
  present = (p, tt);
  starts = refl;
  settled = λ e. inl (late e);
}

opens : (o : Bool) (t : ℕ) → leb settle_time t ≡ true → (o ≡ true) ⊎ (settle_time ≤ t)
opens o t e = inr (leb→le settle_time t e)

update-Inv :
    (h : List Report) (r : Report) (s : Bool) (g : AudioGate) (p o : Bool)
    → r.signal ≡ s
    → Inv h (record g { present = p; is_open = o })
    → Inv (h ++ (r ∷ [])) (update s r.at (record g { present = p; is_open = o }))
unfolding update
update-Inv h r false g p o e inv = refl
update-Inv h r true g false true e inv = cc inv
update-Inv h r true g false false e inv = elim (Bool-cases (leb settle_time (r.at - r.at))) [
  | inl late ↦ rw late (Window-start h r true e (λ _. leb→le _ _ late))
  | inr soon ↦ rw soon (Window-start h r false e (λ c. absurd (cc c)))
]
update-Inv h r true g true true e w = Window-grow r e (λ c. inl refl) w
update-Inv h r true g true false e w =
    elim (Bool-cases (leb settle_time (r.at - g.present_since))) [
      | inl late ↦ rw late (Window-grow r e (λ _. inr (leb→le _ _ late)) w)
      | inr soon ↦ rw soon (Window-grow r e (λ c. absurd (cc c)) w)
    ]

updates-Inv : (rs h : List Report) (g : AudioGate) → Inv h g → Inv (h ++ rs) (updates rs g)
unfolding updates
updates-Inv [] h g inv = rw append-nil inv
updates-Inv (r ∷ rs) h g inv = rw (← append_assoc h (r ∷ []) rs) (
    updates-Inv rs (h ++ (r ∷ [])) (update r.signal r.at g)
      (update-Inv h r r.signal g g.present g.is_open refl inv))

Inv-open :
    (h : List Report) (g : AudioGate) (p o : Bool)
    → o ≡ true
    → Inv h (record g { present = p; is_open = o })
    → Window h g.present_since true
Inv-open h g true true e w = w
Inv-open h g true false e w = absurd (cc e)
Inv-open h g false true e inv = absurd (cc inv)
Inv-open h g false false e inv = absurd (cc e)

-- The gate is open only if the reports end in an unbroken run of a present signal, one of which
-- came SETTLE_TIME or more after the first of the run, whatever the times are.
pub opened_settled :
    (rs : List Report) → (updates rs initial).is_open ≡ true → (since : ℕ) × Window rs since true
opened_settled rs e =
    let g = updates rs initial in
    (g.present_since, Inv-open rs g g.present g.is_open e (updates-Inv rs [] initial refl))

-- The other direction, for a clock that does not go back.

update-since :
    (r : Report) (t : ℕ) (g : AudioGate)
    → r.at ≤ t
    → g.present_since ≤ t
    → (update r.signal r.at g).present_since ≤ t
unfolding update
update-since r t g hr hg = ground arith

updates-since :
    (rs : List Report) (t : ℕ) (g : AudioGate)
    → All (λ r. r.at ≤ t) rs
    → g.present_since ≤ t
    → (updates rs g).present_since ≤ t
unfolding updates
updates-since [] t g h hg = hg
updates-since (r ∷ rs) t g h hg =
    updates-since rs t (update r.signal r.at g) h.1 (update-since r t g h.0 hg)

updates-append :
    (xs ys : List Report) (g : AudioGate) → updates (xs ++ ys) g ≡ updates ys (updates xs g)
unfolding updates
updates-append [] ys g = refl
updates-append (x ∷ xs) ys g = updates-append xs ys (update x.signal x.at g)

update_first :
    (r : Report) (g : AudioGate)
    → IsPresent r
    → g.present_since ≤ r.at
    → ((update r.signal r.at g).present ≡ true) × ((update r.signal r.at g).present_since ≤ r.at)
unfolding update
update_first r g p h = ground arith

update_present :
    (r : Report) (g : AudioGate)
    → IsPresent r
    → g.present ≡ true
    → ((update r.signal r.at g).present ≡ true)
      × ((update r.signal r.at g).present_since ≡ g.present_since)
      × (g.is_open ≡ true → (update r.signal r.at g).is_open ≡ true)
      × (settle_time ≤ r.at - g.present_since → (update r.signal r.at g).is_open ≡ true)
unfolding update
update_present r g p h = ground arith

updates_settle :
    (rs : List Report) (t : ℕ) (g : AudioGate)
    → All IsPresent rs
    → g.present ≡ true
    → g.present_since ≤ t
    → (g.is_open ≡ true) ⊎ HasSettled t rs
    → (updates rs g).is_open ≡ true
unfolding updates
updates_settle [] t g ps p h (inl o) = o
updates_settle [] t g ps p h (inr s) = elim s [ ]
updates_settle (r ∷ rs) t g ps p h s =
    let (p', since, stays, late) = update_present r g ps.0 p in
    updates_settle rs t (update r.signal r.at g) ps.1 p' (rw since h) (elim s [
      | inl o ↦ inl (stays o)
      | inr (inl l) ↦ inl (late (omega arith))
      | inr (inr k) ↦ inr k
    ])

first_settle :
    (first : Report) (run : List Report) (g : AudioGate)
    → IsPresent first
    → g.present_since ≤ first.at
    → HasSettled first.at (first ∷ run)
    → HasSettled first.at run
first_settle first run g p h (inl l) = absurd (omega arith)
first_settle first run g p h (inr k) = k

-- After reports that came before `first`, and then `first` and a run behind it that are all of a
-- present signal, the gate is open if one of the run came SETTLE_TIME or more after `first`. The
-- reports before must not be later than `first`.
pub settled_opens :
    (before : List Report) (first : Report) (run : List Report)
    → All (λ r. r.at ≤ first.at) before
    → All IsPresent (first ∷ run)
    → HasSettled first.at (first ∷ run)
    → (updates (before ++ (first ∷ run)) initial).is_open ≡ true
settled_opens before first run ordered ps s =
    let g = updates before initial in
    let early : g.present_since ≤ first.at =
      updates-since before first.at initial ordered (omega arith) in
    let (p, since) = update_first first g ps.0 early in
    rw (updates-append before (first ∷ run) initial) (
      unfold updates in
      updates_settle run first.at (update first.signal first.at g) ps.1 p since
        (inr (first_settle first run g ps.0 early s)))
