-- ===== src/Clock/Sleep/Examples.antt =====
-- A thread of process 3 that sleeps for 25 ms, next to two timeouts of src/clock.c.
use libsel4osapi.Prelude.{ℕ, Bool, ◌==◌, refl, [], ◌∷◌, arith}
use libsel4osapi.Run.{Returns}
use libsel4osapi.Clock.Server.Accept.{offered}
use libsel4osapi.Clock.Server.RoundTrip.{set_request}
use libsel4osapi.Clock.Examples.{sample, sample-IsClock, idle_entry}
use libsel4osapi.Clock.Sleep.{thread_sleep}
use libsel4osapi.Clock.Sleep.Wakes.{IsAwake, thread_sleep-IsAwake}

abbrev register : ℕ → ℕ
register t = t

abbrev nine : ℕ → Bool
nine aep = aep == 9

thread_sleep-IsAwake_example : Returns (IsAwake register 0 25 10 9) (
    thread_sleep register nine 5 10 3 4 0 25
      (offered sample idle_entry [] 10 (11 ∷ []) (set_request 3 0 25)))
thread_sleep-IsAwake_example =
    thread_sleep-IsAwake register nine 5 10 3 4 25 sample idle_entry [] 10 (11 ∷ []) sample-IsClock
      (omega arith) (omega arith) (omega arith) (omega arith) refl (refl, (refl, tt))
