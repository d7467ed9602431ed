-- ===== src/Clock/Sleep.antt =====
-- sel4osapi_thread_sleep of src/thread.c with sel4osapi_sysclock_wait_for_timeout of src/clock.c: the
-- thread schedules a timeout and waits on its notification `wait_aep`. Each timeout of the thread has a
-- copy of that notification: `mine` says of a capability whether it is one, and a signal to any copy wakes
-- the thread, also one that was sent before the wait. While the thread waits, the timer thread runs its
-- rounds and the server none. `mr0` is the register that a thread finds when it wakes, given the time
-- that the timer thread has sent.
pub mod Round
pub mod Wakes
pub mod Examples
use libsel4osapi.Prelude.{
  ℕ, zero, suc, Bool, false, not, Option, none, some, List, [], ◌∷◌, length, drop, ◌==◌,
  if◌then◌else◌,
}
use libsel4osapi.Run.{
  ok, fail, assert_failed, out_of_fuel, Cmd, pure, stop, ◌>>=◌, ◌>>◌, check, when,
}
use libsel4osapi.Clock.{Event, send, revoke, Clock, tick}
use libsel4osapi.Clock.Server.{schedule_timeout, cancel_timeout}

-- The times that were sent to the copies of the thread's notification.
abbrev pub heard : (mine : ℕ → Bool) → List Event → List ℕ
heard mine [] = []
heard mine (send a t ∷ es) = if mine a then t ∷ heard mine es else heard mine es
heard mine (revoke a ∷ es) = heard mine es

abbrev pub head? : List ℕ → Option ℕ
head? [] = none
head? (t ∷ ts) = some t

abbrev pub if_none : Option ℕ → Cmd Clock ℕ → Cmd Clock ℕ
if_none none rest = rest
if_none (some t) rest = pure t

-- seL4_Wait of `wait_aep` by a thread that has taken `seen` signals before: where no other one has been
-- sent, the timer thread runs a round at a time until there is one.
pub wait : (mine : ℕ → Bool) → (rounds period_ms seen : ℕ) → Cmd Clock ℕ
wait mine zero period_ms seen =
    λ c. if_none (head? (drop seen (heard mine c.events))) (stop out_of_fuel) c
wait mine (suc rounds) period_ms seen =
    let rest = wait mine rounds period_ms seen in
    λ c. if_none (head? (drop seen (heard mine c.events))) (tick period_ms >> rest) c

module _ (mr0 : ℕ → ℕ) (mine : ℕ → Bool) (fuel period_ms badge : ℕ) where
  -- sel4osapi_sysclock_wait_for_timeout
  pub wait_for_timeout : (rounds timeout_id seen : ℕ) → (cancel : Bool) → Cmd Clock ℕ
  unfolding wait
  wait_for_timeout rounds timeout_id seen cancel = do
    time ← wait mine rounds period_ms seen
    when cancel (do error ← cancel_timeout fuel badge timeout_id; pure tt)
    pure (mr0 time)

  -- sel4osapi_thread_sleep
  pub thread_sleep : (rounds seen ms : ℕ) → Cmd Clock ℕ
  unfolding wait_for_timeout
  thread_sleep rounds seen ms = do
    timeout_id ← schedule_timeout fuel badge 0 ms
    check (not (timeout_id == 0))
    wait_for_timeout rounds timeout_id seen false
