-- ===== src/Clock/Tick.antt =====
-- One round of sel4osapi_sysclock_timer_thread, against a description of which timeouts it serves.
use libsel4osapi.Prelude.{
  ℕ, ◌+◌, ◌%◌, ◌≡◌, refl, sym, ap, subst, ◌∙◌, Bool, ◌⊎◌, inl, inr, false, not, ◌&&◌, some, List,
  [], ◌∷◌, ◌++◌, append_assoc, append-nil, leb, ◌==◌, if◌then◌else◌, Bool-cases,
}
use libsel4osapi.Run.{ok}
use libsel4osapi.LinkedList.Chain.{has, Distinct, Apart}
use libsel4osapi.LinkedList.Separate.{Apart-snoc}
use libsel4osapi.Pool.View
use libsel4osapi.Pool.View.{Slot, View, reset, value_at, put, split_at}
use libsel4osapi.Pool.Shape.{els, els-append}
use libsel4osapi.Pool.Lookup.{value_at-middle, put-middle}
use libsel4osapi.Clock.{
  Event, send, revoke, Clock, word, timer_entry_init, timer_entry_compare, deref, emit, set_entry,
  free_timeout, fire, fire_all,
}
use libsel4osapi.Clock.Schedule.{Entry, caps, caps-append, release-middle}

-- The timeouts that are served at time `now`.
abbrev pub is_due : ℕ → Entry → Bool
is_due now s = not (s.value.aep == 0) && leb s.value.next_event now

abbrev pub is_one_shot : Entry → Bool
is_one_shot s = s.value.periodic == 0

abbrev pub rearmed : ℕ → Entry → Entry
rearmed now s = record s { value = record s.value { next_event = (now + s.value.period) % word } }

-- What a round makes of the schedule, of the free entries and of the environment.
pub record Outcome : Type 0 where
  pub kept : List Entry
  pub dropped : List Entry
  pub events : List Event

abbrev pub outcome_of : ℕ → Entry → Outcome
outcome_of now s =
    if is_due now s
    then (if is_one_shot s
        then record {
          kept = [];
          dropped = reset (some timer_entry_init) s ∷ [];
          events = send s.value.aep now ∷ revoke s.value.aep ∷ [];
        }
        else record { kept = rearmed now s ∷ []; dropped = []; events = send s.value.aep now ∷ [] })
    else record { kept = s ∷ []; dropped = []; events = [] }

abbrev pub outcome : ℕ → List Entry → Outcome
outcome now [] = record { kept = []; dropped = []; events = [] }
outcome now (s ∷ ss) =
    let a = outcome_of now s in
    let b = outcome now ss in
    record {
      kept = a.kept ++ b.kept;
      dropped = a.dropped ++ b.dropped;
      events = a.events ++ b.events;
    }

-- The clock with an outcome applied behind `us`.
abbrev pub applied : Clock → (us vs : List Entry) → Outcome → Clock
applied c us vs o = record c {
  schedule = record c.schedule { used = us ++ o.kept ++ vs; free = c.schedule.free ++ o.dropped };
  events = c.events ++ o.events;
}

abbrev pub at_entries : Clock → List Entry → Clock
at_entries c ss = record c { schedule = record c.schedule { used = ss } }

module _ (c : Clock) (us vs : List Entry) (s : Entry)
    (i : c.schedule.init_fn ≡ some timer_entry_init)
    (k : c.schedule.compare_fn ≡ some timer_entry_compare) (o : has s.el (els us) ≡ false)
    (o' : has s.el (els vs) ≡ false) (a : has s.value.aep (caps us) ≡ false) where
  fire-outcome :
      fire s.el (at_entries c (us ++ s ∷ vs)) ≡ ok tt (applied c us vs (outcome_of c.time s))
  unfolding fire deref emit set_entry free_timeout View.modify
  fire-outcome = rw (value_at-middle us vs s o) (elim (Bool-cases (is_due c.time s)) [
    | inl due ↦ elim (Bool-cases (is_one_shot s)) [
      | inl once ↦ rw (
        due,
        once,
        release-middle c.schedule us vs s i k a,
        append_assoc c.events (send s.value.aep c.time ∷ []) (revoke s.value.aep ∷ []),
        append-nil us,
      )
      | inr again ↦ rw (
        due,
        again,
        put-middle (λ u. record u { next_event = (c.time + u.period) % word }) us vs s o o',
        append-nil c.schedule.free,
        append_assoc us (rearmed c.time s ∷ []) vs,
      )
    ]
    | inr early ↦
        rw (early, append-nil c.schedule.free, append-nil c.events, append_assoc us (s ∷ []) vs)
  ])

-- The entries still to be met are none of those behind the cursor.
pub record Ahead (us ss : List Entry) : Type 0 where
  pub elements : Distinct (els ss)
  pub elements_apart : Apart (els ss) (els us)
  pub endpoints : Distinct (caps ss)
  pub endpoints_apart : Apart (caps ss) (caps us)

-- The entry that a round keeps, where it keeps one, has the old element and the old endpoint.
kept_cases :
    (now : ℕ) (s : Entry)
    → let kept = (outcome_of now s).kept in
      (kept ≡ []) ⊎ ((t : Entry) × (kept ≡ t ∷ []) × (t.el ≡ s.el) × (t.value.aep ≡ s.value.aep))
kept_cases now s = elim (Bool-cases (is_due now s)) [
  | inl due ↦ elim (Bool-cases (is_one_shot s)) [
    | inl once ↦ inl (rw (due, once))
    | inr again ↦ inr (rearmed now s, rw (due, again), refl, refl)
  ]
  | inr early ↦ inr (s, rw early, refl, refl)
]

Ahead-snoc :
    (us ss : List Entry) (s t : Entry)
    → t.el ≡ s.el
    → t.value.aep ≡ s.value.aep
    → Ahead us (s ∷ ss)
    → Ahead (us ++ t ∷ []) ss
Ahead-snoc us ss s t e q a = record {
  elements = a.elements.2;
  elements_apart =
      rw (els-append us (t ∷ []), e)
        (Apart-snoc s.el t.entry (els ss) (els us) a.elements.1 a.elements_apart.1);
  endpoints = a.endpoints.2;
  endpoints_apart =
      rw (caps-append us (t ∷ []), q)
        (Apart-snoc s.value.aep t.el (caps ss) (caps us) a.endpoints.1 a.endpoints_apart.1);
}

Ahead-kept :
    (now : ℕ) (us ss : List Entry) (s : Entry)
    → Ahead us (s ∷ ss)
    → Ahead (us ++ (outcome_of now s).kept) ss
Ahead-kept now us ss s a = elim (kept_cases now s) [
  | inl none_kept ↦
      subst (λ ks. Ahead (us ++ ks) ss) (sym none_kept)
        (rw (append-nil us) (record {
          elements = a.elements.2;
          elements_apart = a.elements_apart.1;
          endpoints = a.endpoints.2;
          endpoints_apart = a.endpoints_apart.1;
        }))
  | inr (t, one, e, q) ↦ subst (λ ks. Ahead (us ++ ks) ss) (sym one) (Ahead-snoc us ss s t e q a)
]

-- Two outcomes, one behind the other.
pub applied-applied :
    (c : Clock) (us ss : List Entry) (one rest : Outcome)
    → applied (applied c us ss one) (us ++ one.kept) [] rest
      ≡ applied c us [] (record {
        kept = one.kept ++ rest.kept;
        dropped = one.dropped ++ rest.dropped;
        events = one.events ++ rest.events;
      })
applied-applied c us ss one rest = simp append_assoc

pub fire_all-outcome :
    (c : Clock) (us ss : List Entry)
    → c.schedule.init_fn ≡ some timer_entry_init
    → c.schedule.compare_fn ≡ some timer_entry_compare
    → Ahead us ss
    → fire_all ss (at_entries c (us ++ ss)) ≡ ok tt (applied c us [] (outcome c.time ss))
unfolding fire_all
fire_all-outcome c us [] i k a =
    rw (append-nil us, append-nil us, append-nil c.schedule.free, append-nil c.events)
fire_all-outcome c us (s ∷ ss) i k a =
    let one = outcome_of c.time s in
    let rest = outcome c.time ss in
    rw (fire-outcome c us ss s i k a.elements_apart.0 a.elements.1 a.endpoints_apart.0) (
      fire_all-outcome (applied c us ss one) (us ++ one.kept) ss i k (Ahead-kept c.time us ss s a)
      ∙ ap (ok tt) (applied-applied c us ss one rest))
