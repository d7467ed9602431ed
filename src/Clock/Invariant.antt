-- ===== src/Clock/Invariant.antt =====
-- What every round of the two threads of src/clock.c keeps, and the timer's round in full.
use libsel4osapi.Prelude.{
  ℕ, ◌+◌, ◌%◌, ◌≡◌, refl, ap, subst, ◌∙◌, inl, inr, some, List, [], ◌∷◌, ◌++◌, append_assoc,
  append-nil, Bool-cases,
}
use libsel4osapi.Run.{ok}
use libsel4osapi.LinkedList.Chain.{Apart-of_has, Distinct-split}
use libsel4osapi.LinkedList.Separate.{Separate-back, Distinct-remove}
use libsel4osapi.Pool.View.{reset}
use libsel4osapi.Pool.Shape.{els, els-append}
use libsel4osapi.Clock.{Event, Clock, word, timer_entry_init, tick}
use libsel4osapi.Clock.Schedule.{Entry, caps, caps-append, spare, Idle-snoc, IsClock}
use libsel4osapi.Clock.Tick.{
  Outcome, outcome, outcome_of, applied, applied-applied, at_entries, is_due, is_one_shot, rearmed,
  fire_all-outcome,
}

abbrev pub released : Clock → (us vs : List Entry) → Entry → Clock
released c us vs s = record c {
  schedule = record c.schedule {
    used = us ++ vs;
    free = c.schedule.free ++ reset (some timer_entry_init) s ∷ [];
  };
}

module _ (c : Clock) (us vs : List Entry) where
  pub released-IsClock :
      (s : Entry) → IsClock (at_entries c (us ++ s ∷ vs)) → IsClock (released c us vs s)
  unfolding timer_entry_init
  released-IsClock s i = record {
    elements =
        rw (els-append c.schedule.free (reset (some timer_entry_init) s ∷ []), els-append us vs)
          (Separate-back s.el s.entry s.entry (els c.schedule.free) (els us) (els vs)
            (rw (els-append us (s ∷ vs)) at i.elements));
    endpoints =
        rw (caps-append us vs, append_assoc (caps us) (caps vs))
          (Distinct-remove s.value.aep s.el (caps us) (caps vs ++ spare (c.caller_ep ∷ c.slots))
            (rw (caps-append us (s ∷ vs), append_assoc (caps us) (caps (s ∷ vs))) at i.endpoints));
    idle = Idle-snoc c.schedule.free _ i.idle refl;
    init_eq = i.init_eq;
    compare_eq = i.compare_eq;
  }

  -- An entry changes its fields but not its endpoint.
  changed-IsClock :
      (s t : Entry)
      → t.el ≡ s.el
      → t.entry ≡ s.entry
      → t.value.aep ≡ s.value.aep
      → IsClock (at_entries c (us ++ s ∷ vs))
      → IsClock (at_entries c (us ++ t ∷ vs))
  changed-IsClock s t e n q i = record {
    elements = rw (els-append us (t ∷ vs), e, n) (rw (els-append us (s ∷ vs)) at i.elements);
    endpoints = rw (caps-append us (t ∷ vs), e, q) (rw (caps-append us (s ∷ vs)) at i.endpoints);
    idle = i.idle;
    init_eq = i.init_eq;
    compare_eq = i.compare_eq;
  }

-- IsClock looks neither at the time nor at the events.
pub IsClock-same :
    (c : Clock) (time : ℕ) (events : List Event)
    → IsClock c
    → IsClock (record c { time = time; events = events })
IsClock-same c time events i = record {
  elements = i.elements;
  endpoints = i.endpoints;
  idle = i.idle;
  init_eq = i.init_eq;
  compare_eq = i.compare_eq;
}

Applied-IsClock :
    (now : ℕ) (c : Clock) (us vs : List Entry) (s : Entry)
    → IsClock (at_entries c (us ++ s ∷ vs))
    → IsClock (applied c us vs (outcome_of now s))
Applied-IsClock now c us vs s i = elim (Bool-cases (is_due now s)) [
  | inl due ↦ elim (Bool-cases (is_one_shot s)) [
    | inl once ↦
        rw (due, once, append-nil us) (IsClock-same _ c.time _ (released-IsClock c us vs s i))
    | inr again ↦
        rw (due, again, append_assoc us (rearmed now s ∷ []) vs, append-nil c.schedule.free)
          (IsClock-same _ c.time _ (changed-IsClock c us vs s (rearmed now s) refl refl refl i))
  ]
  | inr early ↦
      rw (early, append_assoc us (s ∷ []) vs, append-nil c.schedule.free)
        (IsClock-same _ c.time _ i)
]

outcome-IsClock :
    (c : Clock) (us ss : List Entry)
    → IsClock (at_entries c (us ++ ss))
    → IsClock (applied c us [] (outcome c.time ss))
outcome-IsClock c us [] i = rw (append-nil us, append-nil c.schedule.free, append-nil c.events) i
outcome-IsClock c us (s ∷ ss) i =
    let one = outcome_of c.time s in
    subst IsClock (applied-applied c us ss one (outcome c.time ss)) (
      outcome-IsClock (applied c us ss one) (us ++ one.kept) ss
        (Applied-IsClock c.time c us ss s i))

-- The clock after a round of the timer thread: the time moves on, and each scheduled entry has the
-- outcome of its own.
abbrev pub ticked : ℕ → Clock → Clock
ticked period_ms c =
    let now = (c.time + period_ms) % word in
    let o = outcome now c.schedule.used in
    record c {
      time = now;
      schedule = record c.schedule { used = o.kept; free = c.schedule.free ++ o.dropped };
      events = c.events ++ o.events;
    }

-- A round of the timer thread ends, and serves each scheduled entry as `outcome_of` says: one that
-- is due gets the new time, and is then released and its endpoint revoked if it is one-shot, and
-- rearmed from the new time if it is periodic; the others stay as they are.
pub tick-ticked :
    (period_ms : ℕ) (c : Clock) → IsClock c → tick period_ms c ≡ ok tt (ticked period_ms c)
unfolding tick
tick-ticked period_ms c i =
    let now = (c.time + period_ms) % word in
    let o = outcome now c.schedule.used in
    fire_all-outcome (record c { time = now }) [] c.schedule.used i.init_eq i.compare_eq
      (record {
        elements = i.elements.right;
        elements_apart = Apart-of_has _ [] (λ a e. refl);
        endpoints =
            (Distinct-split (caps c.schedule.used) (spare (c.caller_ep ∷ c.slots)) i.endpoints).0;
        endpoints_apart = Apart-of_has _ [] (λ a e. refl);
      })
    ∙ ap (ok tt) (applied-nil (record c { time = now }) o)
  where
    applied-nil :
        (d : Clock) (o : Outcome)
        → applied d [] [] o ≡ record d {
          schedule = record d.schedule { used = o.kept; free = d.schedule.free ++ o.dropped };
          events = d.events ++ o.events;
        }
    applied-nil d o = rw (append-nil o.kept)

-- The timer thread keeps the endpoints of the schedule apart and its free entries idle.
pub ticked-IsClock : (period_ms : ℕ) (c : Clock) → IsClock c → IsClock (ticked period_ms c)
ticked-IsClock period_ms c i =
    let now = (c.time + period_ms) % word in
    rw (append-nil (outcome now c.schedule.used).kept) at
      (outcome-IsClock (record c { time = now }) [] c.schedule.used (IsClock-same c now c.events i))
