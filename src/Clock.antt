-- ===== src/Clock.antt =====
-- src/clock.c: the system clock, its timer thread and its server thread, over the view of the pool
-- `schedule`. Both threads hold `timeouts_mutex` while they use the schedule, so each round of a
-- thread is one step. `slots` are what vka_cspace_alloc will return; an empty list is its error.
pub mod Server
pub mod Schedule
pub mod Tick
pub mod Invariant
pub mod Reachable
pub mod Sleep
pub mod Examples
use libsel4osapi.Prelude.{
  ℕ, zero, suc, ◌+◌, ◌*◌, ◌%◌, ◌^◌, Bool, true, false, not, ◌&&◌, ◌||◌, Option, none, some, List,
  [], ◌∷◌, ◌++◌, ℤ, pos, negsuc, is_zero, ltb, leb, length, ◌==◌, if◌then◌else◌,
}
use libsel4osapi.Run.{
  ok, fail, assert_failed, bad_pointer, out_of_fuel, Cmd, pure, stop, ◌>>=◌, ◌>>◌, check, need,
}
use libsel4osapi.LinkedList.{Ptr, null}
use libsel4osapi.Pool.{Block}
use libsel4osapi.Pool.New.{new_view}
use libsel4osapi.Pool.View
use libsel4osapi.Pool.View.{Slot, View, value_at, split_at}

-- struct timeout_entry
pub record TimeoutEntry : Type 0 where
  pub caller : ℕ
  pub aep : ℕ
  pub periodic : ℕ
  pub period : ℕ
  pub next_event : ℕ

-- What the clock does to its environment: a time sent to a callback, and a capability revoked.
pub data Event : Type 0 where
  send : ℕ → ℕ → Event
  revoke : ℕ → Event

-- sel4osapi_sysclock_t, with the server thread's receive slot `caller_ep`.
pub record Clock : Type 0 where
  pub time : ℕ
  pub schedule : View TimeoutEntry
  pub caller_ep : ℕ
  pub slots : List ℕ
  pub events : List Event

-- CONFIG_LIB_OSAPI_SYSCLOCK_PERIOD is 10 by default; any period serves.
abbrev pub word : ℕ
word = 2 ^ 32

abbrev pub max_entries : ℕ
max_entries = 100

abbrev pub op_get_time : ℕ
op_get_time = 100

abbrev pub op_set_timeout : ℕ
op_set_timeout = 101

abbrev pub op_cancel_timeout : ℕ
op_cancel_timeout = 102

-- timer_entry_init leaves `next_event` as it is.
unfoldable pub timer_entry_init : TimeoutEntry → TimeoutEntry
timer_entry_init t = record t { aep = 0; caller = 0; period = 0; periodic = 0 }

unfoldable pub timer_entry_compare : TimeoutEntry → TimeoutEntry → ℤ
timer_entry_compare a b =
    if a.aep == b.aep then pos 0 else if ltb b.aep a.aep then negsuc 0 else pos 1

pub emit : Event → Cmd Clock (Unit {0})
emit e c = ok tt (record c { events = c.events ++ e ∷ [] })

-- `timeout` read through its pointer, which points at a used element.
pub deref : Ptr → Cmd Clock TimeoutEntry
deref p c = need (value_at p c.schedule.used) c

abbrev pub put_schedule : View TimeoutEntry → Cmd Clock (Unit {0})
put_schedule v c = ok tt (record c { schedule = v })

-- simple_pool_free of `timeout`, asserted, and vka_cnode_revoke of its endpoint.
pub free_timeout : Ptr → TimeoutEntry → Cmd Clock (Unit {0})
unfolding emit
free_timeout p t = do
  λ c. (do let (error, v) = View.release c.schedule p t; check (is_zero error); put_schedule v) c
  emit (revoke t.aep)

pub set_entry : Ptr → (TimeoutEntry → TimeoutEntry) → Cmd Clock (Unit {0})
set_entry p f c = ok tt (record c { schedule = View.modify c.schedule p f })

-- The body of the timer thread's loop over the schedule.
pub fire : Ptr → Cmd Clock (Unit {0})
unfolding emit deref free_timeout set_entry
fire p = do
  t ← deref p
  λ c.
      if not (t.aep == 0) && leb t.next_event c.time
      then (do
        emit (send t.aep c.time)
        if t.periodic == 0
            then free_timeout p t
            else set_entry p (λ u. record u { next_event = (c.time + u.period) % word }))
          c
      else ok tt c

-- `next` is read before the entry is released, so the loop meets the entries that were scheduled
-- when it began, in order.
pub fire_all : List (Slot TimeoutEntry) → Cmd Clock (Unit {0})
unfolding fire
fire_all [] = pure tt
fire_all (s ∷ ss) = do fire s.el; fire_all ss

-- One round of sel4osapi_sysclock_timer_thread, after its wait.
pub tick : (period_ms : ℕ) → Cmd Clock (Unit {0})
unfolding fire_all
tick period_ms = do
  λ c. ok tt (record c { time = (c.time + period_ms) % word })
  λ c. fire_all c.schedule.used c

-- sel4osapi_sysclock_initialize: simple_pool_new gives the schedule of the elements at `blocks`.
unfoldable pub initialize : List (Block TimeoutEntry) → (caller_ep : ℕ) → List ℕ → Clock
initialize blocks caller_ep slots = record {
  time = 0;
  schedule = new_view max_entries (some timer_entry_init) (some timer_entry_compare) blocks;
  caller_ep = caller_ep;
  slots = slots;
  events = [];
}
