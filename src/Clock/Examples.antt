-- ===== src/Clock/Examples.antt =====
-- Runs of src/clock.c on a schedule of two timeouts and one free entry.
use libsel4osapi.Prelude.{ℕ, ◌≡◌, refl, some, List, [], ◌∷◌, arith}
use libsel4osapi.Run.{ok, Safe}
use libsel4osapi.LinkedList.{node}
use libsel4osapi.LinkedList.Chain.{Distinct}
use libsel4osapi.Pool.New.{slots}
use libsel4osapi.Pool.Shape.{els}
use libsel4osapi.Pool.{Block}
use libsel4osapi.Pool.View.{reset}
use libsel4osapi.Clock.{
  Clock, revoke, TimeoutEntry, op_set_timeout, op_cancel_timeout, timer_entry_init,
  timer_entry_compare, tick, initialize,
}
use libsel4osapi.Clock.Schedule.{Entry, spare, IsClock}
use libsel4osapi.Clock.Invariant.{ticked, tick-ticked, ticked-IsClock}
use libsel4osapi.Clock.Reachable.{Step, start, next, request, Reaches-IsClock}
use libsel4osapi.Clock.Server.{Request, serve}
use libsel4osapi.Clock.Server.Cancel.{cancelled}
use libsel4osapi.Clock.Server.Accept.{
  accepted, scheduled, serve-cancelled, serve-accepted, serve-full, accepted-IsClock,
}
use libsel4osapi.Clock.Server.RoundTrip.{schedule_and_cancel, schedule-cancel}
use libsel4osapi.Clock.Server.Safety.{serve-Safe}

abbrev pub timeout : (aep periodic next_event : ℕ) → TimeoutEntry
timeout a p n = record { caller = 3; aep = a; periodic = p; period = 20; next_event = n }

-- The timeout 7 is one-shot and due at 10; the timeout 8 is periodic.
abbrev pub one_shot : Entry
one_shot = record { entry = 11; el = 100; value = timeout 7 0 10 }

abbrev pub repeating : Entry
repeating = record { entry = 12; el = 200; value = timeout 8 1 10 }

abbrev pub idle_entry : Entry
idle_entry = record { entry = 13; el = 300; value = timeout 0 0 0 }

abbrev pub clock_with : (free used : List Entry) → Clock
clock_with free used = record {
  time = 0;
  schedule = record {
    size = 3;
    free = free;
    used = used;
    init_fn = some timer_entry_init;
    compare_fn = some timer_entry_compare;
  };
  caller_ep = 9;
  slots = 10 ∷ 11 ∷ [];
  events = [];
}

abbrev pub sample : Clock
sample = clock_with (idle_entry ∷ []) (one_shot ∷ repeating ∷ [])

pub sample-IsClock : IsClock sample
sample-IsClock = record {
  elements = record {
    left = (omega arith, refl, tt);
    right = (omega arith, refl, (omega arith, refl, tt));
    apart = (refl, tt);
  };
  endpoints = (
    omega arith,
    refl,
    (omega arith, refl, (omega arith, refl, (omega arith, refl, (omega arith, refl, tt)))),
  );
  idle = (refl, tt);
  init_eq = refl;
  compare_eq = refl;
}

abbrev cancel_request : ℕ → Request
cancel_request id = record {
  length = 2;
  extra_caps = 0;
  badge = 3;
  mr0 = op_cancel_timeout;
  mr1 = id;
  mr2 = 0;
}

abbrev set_request : Request
set_request = record {
  length = 3;
  extra_caps = 1;
  badge = 3;
  mr0 = op_set_timeout;
  mr1 = 0;
  mr2 = 50;
}

tick-ticked_example : tick 10 sample ≡ ok tt (ticked 10 sample)
tick-ticked_example = tick-ticked 10 sample sample-IsClock

ticked-IsClock_example : IsClock (ticked 10 sample)
ticked-IsClock_example = ticked-IsClock 10 sample sample-IsClock

serve-cancelled_example :
    serve 4 (cancel_request 8) sample ≡ ok (1 ∷ []) (cancelled sample (one_shot ∷ []) [] repeating)
serve-cancelled_example =
    serve-cancelled 4 (cancel_request 8) sample (one_shot ∷ []) [] repeating sample-IsClock
      (record { op = refl; len = refl; target = refl }) (omega arith)

serve-accepted_example :
    serve 0 set_request sample
    ≡ ok (0 ∷ 9 ∷ 0 ∷ []) (accepted sample idle_entry [] 10 (11 ∷ []) set_request)
serve-accepted_example =
    serve-accepted sample idle_entry [] 10 (11 ∷ []) set_request 0 sample-IsClock
      (record { op = refl; len = refl; cap_count = refl })

accepted-IsClock_example : IsClock (accepted sample idle_entry [] 10 (11 ∷ []) set_request)
accepted-IsClock_example =
    accepted-IsClock sample idle_entry [] 10 (11 ∷ []) set_request sample-IsClock

serve-full_example :
    serve 0 set_request (clock_with [] (one_shot ∷ []))
    ≡ ok
        (1 ∷ 0 ∷ 0 ∷ [])
        (record (clock_with [] (one_shot ∷ [])) { caller_ep = 10; slots = 11 ∷ [] })
serve-full_example =
    serve-full 0 set_request (clock_with [] (one_shot ∷ [])) 10 (11 ∷ []) refl refl
      (record { op = refl; len = refl; cap_count = refl })

serve-Safe_example : Safe (λ reply d. IsClock d) (serve 5 set_request sample)
serve-Safe_example = serve-Safe 5 set_request sample sample-IsClock (omega arith)

abbrev block : Block TimeoutEntry
block = record { el = 100; entry = 11; el_junk = timeout 1 2 3; entry_junk = node 4 5 6 }

abbrev initial : Clock
initial = initialize (block ∷ []) 9 (10 ∷ [])

abbrev fresh_entry : Entry
fresh_entry = record { entry = 11; el = 100; value = timer_entry_init (timeout 1 2 3) }

abbrev after_request : Clock
after_request = accepted initial fresh_entry [] 10 [] set_request

block-Distinct : Distinct (els (slots (some timer_entry_init) (block ∷ [])))
block-Distinct = (omega arith, refl, tt)

spare-Distinct : Distinct (spare (9 ∷ 10 ∷ []))
spare-Distinct = (omega arith, refl, (omega arith, refl, tt))

first-Step : Step initial after_request
unfolding initialize
first-Step = request set_request _ _ (0 ∷ 9 ∷ 0 ∷ []) (
    serve-accepted initial fresh_entry [] 10 [] set_request 3
      (Reaches-IsClock (block ∷ []) 9 (10 ∷ []) initial block-Distinct spare-Distinct start)
      (record { op = refl; len = refl; cap_count = refl }))

Reaches-IsClock_example : IsClock after_request
Reaches-IsClock_example =
    Reaches-IsClock (block ∷ []) 9 (10 ∷ []) after_request block-Distinct spare-Distinct
      (next initial after_request start first-Step)

schedule-cancel_example :
    schedule_and_cancel 5 3 0 50 sample
    ≡ ok 1 (record sample {
      schedule = record sample.schedule {
        free =
            reset (some timer_entry_init) (scheduled sample idle_entry [] 10 (11 ∷ []) set_request)
            ∷ [];
      };
      caller_ep = 10;
      slots = 11 ∷ [];
      events = revoke 9 ∷ [];
    })
schedule-cancel_example =
    schedule-cancel 5 3 0 50 sample idle_entry [] 10 (11 ∷ []) sample-IsClock (omega arith)
