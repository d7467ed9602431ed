-- ===== src/Clock/Server/Accept.antt =====
-- What the server thread of src/clock.c answers, and what it keeps.
use libsel4osapi.Prelude.{
  ℕ, ◌+◌, ◌%◌, ◌≤◌, ◌≡◌, refl, false, some, List, [], ◌∷◌, ◌++◌, append_assoc, length, ==-ne,
}
use libsel4osapi.Run.{ok}
use libsel4osapi.LinkedList.{null}
use libsel4osapi.LinkedList.Chain.{has}
use libsel4osapi.LinkedList.Separate.{Separate-shift, Distinct-retag}
use libsel4osapi.Pool.View
use libsel4osapi.Pool.View.{View, reset, alloc_from}
use libsel4osapi.Pool.Shape.{els, els-append}
use libsel4osapi.Pool.Lookup.{value_at-middle, put-middle}
use libsel4osapi.Clock.{
  word, Clock, op_set_timeout, op_cancel_timeout, timer_entry_init, deref, set_entry,
}
use libsel4osapi.Clock.Schedule.{Entry, caps, caps-append, spare, IsClock}
use libsel4osapi.Clock.Tick.{at_entries}
use libsel4osapi.Clock.Server.{Request, filled, cancel, set_timeout, serve}
use libsel4osapi.Clock.Server.Cancel.{cancelled, cancel_loop-found, cancel_loop-missed}

-- A request to cancel the timeout `id`.
pub record IsCancel (id : ℕ) (m : Request) : Type 0 where
  pub op : m.mr0 ≡ op_cancel_timeout
  pub len : m.length ≡ 2
  pub target : m.mr1 ≡ id

-- A request to schedule a timeout.
pub record IsSchedule (m : Request) : Type 0 where
  pub op : m.mr0 ≡ op_set_timeout
  pub len : m.length ≡ 3
  pub cap_count : m.extra_caps ≡ 1

-- Cancelling a scheduled timeout releases its entry, revokes its endpoint, and yet replies with
-- the error 1, on any fuel for three rounds more than there are entries in front of it.
pub serve-cancelled :
    (fuel : ℕ) (m : Request) (c : Clock) (us vs : List Entry) (s : Entry)
    → IsClock (at_entries c (us ++ s ∷ vs))
    → IsCancel s.value.aep m
    → length us + 3 ≤ fuel
    → serve fuel m (at_entries c (us ++ s ∷ vs)) ≡ ok (1 ∷ []) (cancelled c us vs s)
unfolding serve cancel
serve-cancelled fuel m c us vs s i r f =
    rw (r.op, r.len, r.target, cancel_loop-found fuel c us vs s i f)

-- Cancelling an endpoint that no entry has changes nothing, and replies with the error 1.
pub serve-unknown :
    (fuel : ℕ) (m : Request) (c : Clock) (id : ℕ)
    → IsClock c
    → has id (caps c.schedule.used) ≡ false
    → IsCancel id m
    → length c.schedule.used + 1 ≤ fuel
    → serve fuel m c ≡ ok (1 ∷ []) c
unfolding serve cancel
serve-unknown fuel m c id i o r f = rw (r.op, r.len, r.target, cancel_loop-missed fuel c id i o f)

module _ (c : Clock) (s : Entry) (rest : List Entry) (slot : ℕ) (slots : List ℕ) (m : Request) where
  -- The clock before the request: `s` is the oldest free entry, and `slot` the next slot.
  abbrev pub offered : Clock
  offered = record c { schedule = record c.schedule { free = s ∷ rest }; slots = slot ∷ slots }

  abbrev pub scheduled : Entry
  scheduled = record s {
    value = record {
      caller = m.badge;
      aep = c.caller_ep;
      periodic = m.mr1;
      period = m.mr2;
      next_event = (c.time + m.mr2) % word;
    };
  }

  abbrev pub accepted : Clock
  accepted = record c {
    schedule = record c.schedule { free = rest; used = c.schedule.used ++ scheduled ∷ [] };
    caller_ep = slot;
    slots = slots;
  }

  -- A request for a timeout, where an entry is free, is answered with the endpoint that now names
  -- the timeout and with the time; the entry goes behind the others, and the next slot is opened.
  pub serve-accepted :
      (fuel : ℕ)
      → IsClock offered
      → IsSchedule m
      → serve fuel m offered ≡ ok (0 ∷ c.caller_ep ∷ c.time ∷ []) accepted
  unfolding serve set_timeout deref set_entry timer_entry_init View.alloc View.modify
  serve-accepted fuel i r =
      let own =
        value_at-middle c.schedule.used [] (reset (some timer_entry_init) s) i.elements.apart.0 in
      let filled_in =
        put-middle (filled m c.caller_ep c.time) c.schedule.used []
          (reset (some timer_entry_init) s) i.elements.apart.0 refl in
      rw (r.op, r.cap_count, r.len, ==-ne s.el null i.elements.left.0, i.init_eq, own, filled_in)

  -- The server keeps the endpoints of the schedule apart.
  pub accepted-IsClock : IsClock offered → IsClock accepted
  accepted-IsClock i = record {
    elements =
        rw (els-append c.schedule.used (scheduled ∷ []))
          (Separate-shift s.el s.entry s.entry (els rest) (els c.schedule.used) i.elements);
    endpoints =
        rw
          (
            caps-append c.schedule.used (scheduled ∷ []),
            append_assoc (caps c.schedule.used) (caps (scheduled ∷ [])) (spare (slot ∷ slots)),
          )
          (Distinct-retag c.caller_ep 0 s.el (caps c.schedule.used) (spare (slot ∷ slots))
            i.endpoints);
    idle = i.idle.1;
    init_eq = i.init_eq;
    compare_eq = i.compare_eq;
  }

-- A request for a timeout, where no entry is free, is answered with the error 1; the schedule
-- stays as it is, but a capability slot is used up.
pub serve-full :
    (fuel : ℕ) (m : Request) (c : Clock) (slot : ℕ) (slots : List ℕ)
    → c.schedule.free ≡ []
    → c.slots ≡ slot ∷ slots
    → IsSchedule m
    → serve fuel m c ≡ ok (1 ∷ 0 ∷ 0 ∷ []) (record c { caller_ep = slot; slots = slots })
unfolding serve set_timeout View.alloc
serve-full fuel m c slot slots e n r = rw (r.op, r.cap_count, r.len, e, n)
