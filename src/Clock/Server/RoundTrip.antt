-- ===== src/Clock/Server/RoundTrip.antt =====
-- The client calls of src/clock.c: a timeout that is scheduled and then cancelled.
use libsel4osapi.Prelude.{ℕ, ◌+◌, ◌≤◌, ◌≡◌, refl, some, List, [], ◌∷◌, ◌++◌, append-nil, length}
use libsel4osapi.Run.{ok, Cmd, ◌>>=◌}
use libsel4osapi.Pool.View.{reset}
use libsel4osapi.Clock.{Clock, revoke, timer_entry_init, op_set_timeout, op_cancel_timeout}
use libsel4osapi.Clock.Schedule.{Entry, IsClock}
use libsel4osapi.Clock.Server.{Request, schedule_timeout, cancel_timeout}
use libsel4osapi.Clock.Server.Accept.{
  offered, scheduled, accepted, serve-accepted, accepted-IsClock, serve-cancelled,
}

abbrev pub set_request : (badge periodic timeout_ms : ℕ) → Request
set_request badge periodic timeout_ms = record {
  length = 3;
  extra_caps = 1;
  badge = badge;
  mr0 = op_set_timeout;
  mr1 = periodic;
  mr2 = timeout_ms;
}

abbrev cancel_request : (badge timeout_id : ℕ) → Request
cancel_request badge timeout_id = record {
  length = 2;
  extra_caps = 0;
  badge = badge;
  mr0 = op_cancel_timeout;
  mr1 = timeout_id;
  mr2 = 0;
}

-- Where an entry is free, a client gets the endpoint of its timeout.
pub schedule_timeout-accepted :
    (fuel badge periodic timeout_ms : ℕ) (c : Clock) (s : Entry) (rest : List Entry) (slot : ℕ)
    (slots : List ℕ)
    → IsClock (offered c s rest slot slots (set_request badge periodic timeout_ms))
    → schedule_timeout fuel badge periodic timeout_ms
        (offered c s rest slot slots (set_request badge periodic timeout_ms))
      ≡ ok c.caller_ep (accepted c s rest slot slots (set_request badge periodic timeout_ms))
unfolding schedule_timeout
schedule_timeout-accepted fuel badge periodic timeout_ms c s rest slot slots i =
    rw
      (serve-accepted c s rest slot slots (set_request badge periodic timeout_ms) fuel i
        (record { op = refl; len = refl; cap_count = refl }))
      refl

-- A client schedules a timeout and cancels it by the identifier that it was given.
abbrev pub schedule_and_cancel : (fuel badge periodic timeout_ms : ℕ) → Cmd Clock ℕ
schedule_and_cancel fuel badge periodic timeout_ms =
    schedule_timeout fuel badge periodic timeout_ms >>= cancel_timeout fuel badge

-- Where an entry is free, scheduling a timeout and cancelling it by its identifier ends: the
-- schedule holds the same timeouts as before, the entry is free again and reset, behind the others,
-- the endpoint is revoked, and a capability slot is used up. The second call returns the error 1.
pub schedule-cancel :
    (fuel badge periodic timeout_ms : ℕ) (c : Clock) (s : Entry) (rest : List Entry) (slot : ℕ)
    (slots : List ℕ)
    → IsClock (record c { schedule = record c.schedule { free = s ∷ rest }; slots = slot ∷ slots })
    → length c.schedule.used + 3 ≤ fuel
    → schedule_and_cancel fuel badge periodic timeout_ms
        (record c { schedule = record c.schedule { free = s ∷ rest }; slots = slot ∷ slots })
      ≡ ok 1 (record c {
        schedule = record c.schedule {
          free =
              rest
              ++ reset
                  (some timer_entry_init)
                  (scheduled c s rest slot slots (set_request badge periodic timeout_ms))
                ∷ [];
        };
        caller_ep = slot;
        slots = slots;
        events = c.events ++ revoke c.caller_ep ∷ [];
      })
unfolding schedule_timeout cancel_timeout
schedule-cancel fuel badge periodic timeout_ms c s rest slot slots i f =
    let m = set_request badge periodic timeout_ms in
    let first =
      serve-accepted c s rest slot slots m fuel i
        (record { op = refl; len = refl; cap_count = refl }) in
    let second =
      serve-cancelled fuel (cancel_request badge c.caller_ep) (accepted c s rest slot slots m)
        c.schedule.used [] (scheduled c s rest slot slots m)
        (accepted-IsClock c s rest slot slots m i) (record { op = refl; len = refl; target = refl })
        f in
    rw (first, second, append-nil c.schedule.used) refl
