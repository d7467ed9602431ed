-- ===== src/Clock/Server/Safety.antt =====
-- Every request to the server thread of src/clock.c, on every branch.
use libsel4osapi.Prelude.{
  ℕ, ◌+◌, ◌≤◌, ◌≡◌, refl, sym, ap, subst, true, inl, inr, some, List, [], ◌∷◌, ◌++◌, arith,
  Bool-cases, length, length-append, ==-ne, ◌==◌, leb, ◌||◌,
}
use libsel4osapi.Run.{Safe, safe, asserts, Safe-check}
use libsel4osapi.LinkedList.Chain.{has}
use libsel4osapi.LinkedList.Separate.{Distinct-remove}
use libsel4osapi.Pool.View
use libsel4osapi.Pool.View.{reset}
use libsel4osapi.Pool.Lookup.{value_at-middle}
use libsel4osapi.LinkedList.{null}
use libsel4osapi.Clock.{
  Clock, op_get_time, op_set_timeout, op_cancel_timeout, timer_entry_init, deref, set_entry,
}
use libsel4osapi.Clock.Schedule.{Entry, caps, spare, IsClock}
use libsel4osapi.Clock.Tick.{at_entries}
use libsel4osapi.Clock.Invariant.{released-IsClock, IsClock-same}
use libsel4osapi.Clock.Server.{renew, Request, cancel, set_timeout, serve}
use libsel4osapi.Clock.Server.Accept.{
  IsCancel, IsSchedule, serve-cancelled, serve-unknown, serve-accepted, serve-full,
  accepted-IsClock,
}

-- Where the entry with an endpoint stands.
record IsFound (id : ℕ) (ss : List Entry) : Type 0 where
  us : List Entry
  vs : List Entry
  at : Entry
  split : ss ≡ us ++ at ∷ vs
  own : at.value.aep ≡ id

has-IsFound : (id : ℕ) (ss : List Entry) → has id (caps ss) ≡ true → IsFound id ss
has-IsFound id [] h = cc
has-IsFound id (s ∷ ss) h = elim (Bool-cases (id == s.value.aep)) [
  | inl own ↦ record { us = []; vs = ss; at = s; split = refl; own = ground arith }
  | inr other ↦
      let r = has-IsFound id ss (ground arith) in
      record { us = s ∷ r.us; vs = r.vs; at = r.at; split = ap (λ ts. s ∷ ts) r.split; own = r.own }
]

-- The receive slot moves on.
renewed-IsClock :
    (c : Clock) (slot : ℕ) (slots : List ℕ)
    → IsClock (record c { slots = slot ∷ slots })
    → IsClock (record c { caller_ep = slot; slots = slots })
renewed-IsClock c slot slots i = record {
  elements = i.elements;
  endpoints =
      Distinct-remove c.caller_ep 0 (caps c.schedule.used) (spare (slot ∷ slots)) i.endpoints;
  idle = i.idle;
  init_eq = i.init_eq;
  compare_eq = i.compare_eq;
}

module _ (fuel : ℕ) (m : Request) where
  SafeClock : Clock → Type 0
  SafeClock c = Safe (λ reply d. IsClock d) (serve fuel m c)

  set-Safe :
      (c : Clock) (free : List Entry) (slots : List ℕ)
      → IsSchedule m
      → IsClock (record c { schedule = record c.schedule { free = free }; slots = slots })
      → SafeClock (record c { schedule = record c.schedule { free = free }; slots = slots })
  unfolding SafeClock serve set_timeout renew View.alloc deref set_entry timer_entry_init
  set-Safe c [] [] r i = rw (r.op, r.cap_count, r.len) asserts
  set-Safe c (s ∷ rest) [] r i =
      let own =
        value_at-middle c.schedule.used [] (reset (some timer_entry_init) s) i.elements.apart.0 in
      rw (r.op, r.cap_count, r.len, ==-ne s.el null i.elements.left.0, i.init_eq, own) asserts
  set-Safe c [] (slot ∷ slots) r i =
      rw
        (serve-full fuel m
          (record c { schedule = record c.schedule { free = [] }; slots = slot ∷ slots }) slot slots
          refl refl r)
        (safe
          (renewed-IsClock (record c { schedule = record c.schedule { free = [] } }) slot slots i))
  set-Safe c (s ∷ rest) (slot ∷ slots) r i =
      rw (serve-accepted c s rest slot slots m fuel i r)
        (safe (accepted-IsClock c s rest slot slots m i))

  cancelled-Safe :
      (c : Clock) (us vs : List Entry) (s : Entry)
      → IsCancel s.value.aep m
      → IsClock (at_entries c (us ++ s ∷ vs))
      → length (us ++ s ∷ vs) + 3 ≤ fuel
      → SafeClock (at_entries c (us ++ s ∷ vs))
  unfolding SafeClock
  cancelled-Safe c us vs s r i f =
      rw (serve-cancelled fuel m c us vs s i r (omega (arith, length-append us (s ∷ vs))))
        (safe (IsClock-same _ c.time _ (released-IsClock c us vs s i)))

  cancel-Safe :
      (c : Clock) → IsCancel m.mr1 m → IsClock c → length c.schedule.used + 3 ≤ fuel → SafeClock c
  unfolding SafeClock
  cancel-Safe c r i f = elim (Bool-cases (has m.mr1 (caps c.schedule.used))) [
    | inl found ↦
        let q = has-IsFound m.mr1 c.schedule.used found in
        let used = q.split in
        subst (λ ys. SafeClock (at_entries c ys)) (sym used)
          (cancelled-Safe c q.us q.vs q.at (record { op = r.op; len = r.len; target = sym q.own })
            (subst (λ ys. IsClock (at_entries c ys)) used i)
            (subst (λ ys. length ys + 3 ≤ fuel) used f))
    | inr missed ↦ rw (serve-unknown fuel m c m.mr1 i missed r (omega arith)) (safe i)
  ]

-- A round of the server ends at any request: it replies and leaves a clock whose endpoints are
-- apart, or stops at an assertion on the request or on the next capability slot.
pub serve-Safe :
    (fuel : ℕ) (m : Request) (c : Clock)
    → IsClock c
    → length c.schedule.used + 3 ≤ fuel
    → Safe (λ reply d. IsClock d) (serve fuel m c)
unfolding SafeClock serve cancel set_timeout
serve-Safe fuel m c i f = elim (Bool-cases (m.mr0 == op_cancel_timeout)) [
  | inl op ↦
      let op_eq : m.mr0 ≡ op_cancel_timeout = ground arith in
      elim (Bool-cases (m.length == 2)) [
        | inl len ↦
            cancel-Safe fuel m c (record { op = op_eq; len = ground arith; target = refl }) i f
        | inr len ↦ Safe-check _ (leb 1 m.length) c λ _. rw (op_eq, len) asserts
      ]
  | inr op ↦ elim (Bool-cases (m.mr0 == op_set_timeout)) [
    | inl op' ↦
        let op_eq : m.mr0 ≡ op_set_timeout = ground arith in
        elim (Bool-cases (m.extra_caps == 1)) [
          | inl caps_eq ↦ elim (Bool-cases (m.length == 3)) [
            | inl len ↦
                set-Safe fuel m c c.schedule.free c.slots
                  (record { op = op_eq; len = ground arith; cap_count = ground arith }) i
            | inr len ↦ Safe-check _ (leb 1 m.length) c λ _. rw (op_eq, caps_eq, len) asserts
          ]
          | inr caps_ne ↦ Safe-check _ (leb 1 m.length) c λ _. rw (op_eq, caps_ne) asserts
        ]
    | inr op' ↦ Safe-check _ (leb 1 m.length) c λ _.
        Safe-check _ (m.mr0 == op_cancel_timeout || m.mr0 == op_set_timeout || m.mr0 == op_get_time)
          c λ _. rw (op, op') (safe i)
  ]
]
