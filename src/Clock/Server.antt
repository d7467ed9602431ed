-- ===== src/Clock/Server.antt =====
-- sel4osapi_sysclock_server_thread of src/clock.c, and the client calls that reach it.
pub mod Cancel
pub mod Accept
pub mod Safety
pub mod RoundTrip
use libsel4osapi.Prelude.{
  ℕ, zero, suc, ◌+◌, ◌%◌, Bool, true, false, not, ◌||◌, Option, none, some, List, [], ◌∷◌, ◌++◌,
  leb, ◌==◌, if◌then◌else◌,
}
use libsel4osapi.Run.{
  ok, fail, assert_failed, bad_pointer, out_of_fuel, Cmd, pure, stop, ◌>>=◌, ◌>>◌, check, need,
  when,
}
use libsel4osapi.LinkedList.{Ptr, null}
use libsel4osapi.Pool.View
use libsel4osapi.Pool.View.{Slot, View, value_at}
use libsel4osapi.Clock.{
  TimeoutEntry, Clock, word, op_get_time, op_set_timeout, op_cancel_timeout, free_timeout,
  set_entry, deref,
}

-- What seL4_Recv delivers: the label's length and capability count, the sender's badge, and the
-- message registers that the server reads.
pub record Request : Type 0 where
  pub length : ℕ
  pub extra_caps : ℕ
  pub badge : ℕ
  pub mr0 : ℕ
  pub mr1 : ℕ
  pub mr2 : ℕ

-- The element behind that of `p` in a list; `none` if `p` is not in the list.
abbrev pub next_el : Ptr → List (Slot TimeoutEntry) → Option Ptr
next_el p [] = none
next_el p (s ∷ []) = if s.el == p then some null else none
next_el p (s ∷ t ∷ ss) = if s.el == p then some t.el else next_el p (t ∷ ss)

abbrev or_else : Option Ptr → Option Ptr → Ptr
or_else none none = null
or_else none (some q) = q
or_else (some q) o = q

-- `entry->next`, with a node named by its element: the list is the one that the node is in.
unfoldable pub next_entry : View TimeoutEntry → Ptr → Ptr
next_entry v p = or_else (next_el p v.used) (next_el p v.free)

-- The cursor of the cancellation may stand on a released entry.
pub deref_entry : Ptr → Cmd Clock TimeoutEntry
deref_entry p c = need (value_at p (c.schedule.used ++ c.schedule.free)) c

-- The loop of SYSCLOCK_OP_CANCEL_TIMEOUT; its flag `done` is never set. A released entry is
-- visited again, where it stands in the free list.
pub cancel_loop : ℕ → ℕ → Ptr → Cmd Clock (Unit {0})
unfolding deref_entry
cancel_loop zero timeout_id entry = stop out_of_fuel
cancel_loop (suc fuel) timeout_id entry = if entry == null then pure tt else do
  t ← deref_entry entry
  if t.aep == timeout_id then (do free_timeout entry t; cancel_loop fuel timeout_id entry) else λ c.
      cancel_loop fuel timeout_id (next_entry c.schedule entry) c

abbrev pub head_el : List (Slot TimeoutEntry) → Ptr
head_el [] = null
head_el (s ∷ ss) = s.el

-- The reply's registers.
pub cancel : ℕ → Request → Cmd Clock (List ℕ)
unfolding cancel_loop
cancel fuel m = do
  check (m.length == 2)
  λ c. cancel_loop fuel m.mr1 (head_el c.schedule.used) c
  let done = false
  pure ((if done then 0 else 1) ∷ [])

-- The fields of a new entry, from the time at which it is inserted.
abbrev pub filled : Request → ℕ → ℕ → TimeoutEntry → TimeoutEntry
filled m caller_ep insert_time t = record t {
  aep = caller_ep;
  caller = m.badge;
  period = m.mr2;
  periodic = m.mr1;
  next_event = (insert_time + m.mr2) % word;
}

set_new : Request → Ptr × View TimeoutEntry → Cmd Clock (List ℕ)
set_new m (entry, v) c =
    if entry == null
    then ok (1 ∷ 0 ∷ 0 ∷ []) (record c { schedule = v })
    else (do
      t ← deref entry
      check (t.aep == 0)
      set_entry entry (filled m c.caller_ep c.time)
      pure (0 ∷ c.caller_ep ∷ c.time ∷ []))
        (record c { schedule = v })

pub set_timeout : Request → Cmd Clock (List ℕ)
unfolding set_new
set_timeout m = do
  check (m.extra_caps == 1)
  check (m.length == 3)
  λ c. set_new m (View.alloc c.schedule) c

-- vka_cspace_alloc of the slot that will receive the next callback.
renew : List ℕ → Cmd Clock (Unit {0})
renew [] = stop assert_failed
renew (slot ∷ slots) = λ c. ok tt (record c { caller_ep = slot; slots = slots })

-- One round of the server: the registers that it replies with, and the clock after it.
pub serve : ℕ → Request → Cmd Clock (List ℕ)
unfolding cancel set_timeout renew
serve fuel m = do
  check (leb 1 m.length)
  let op = m.mr0
  check (op == op_cancel_timeout || op == op_set_timeout || op == op_get_time)
  reply ←
      if op == op_cancel_timeout
      then cancel fuel m
      else if op == op_set_timeout
      then set_timeout m
      else λ c. ok (c.time ∷ []) c
  when (op == op_set_timeout) (λ c. renew c.slots c)
  pure reply

abbrev register : ℕ → List ℕ → ℕ
register n [] = 0
register zero (r ∷ rs) = r
register (suc n) (r ∷ rs) = register n rs

-- sel4osapi_sysclock_schedule_timeout, called by a thread whose endpoint has `badge`.
pub schedule_timeout : ℕ → (badge periodic timeout_ms : ℕ) → Cmd Clock ℕ
unfolding serve
schedule_timeout fuel badge periodic timeout_ms = do
  reply ← serve fuel (record {
    length = 3;
    extra_caps = 1;
    badge = badge;
    mr0 = op_set_timeout;
    mr1 = periodic;
    mr2 = timeout_ms;
  })
  pure (if not (register 0 reply == 0) then 0 else register 1 reply)

-- sel4osapi_sysclock_cancel_timeout
pub cancel_timeout : ℕ → (badge timeout_id : ℕ) → Cmd Clock ℕ
unfolding serve
cancel_timeout fuel badge timeout_id = do
  reply ← serve fuel (record {
    length = 2;
    extra_caps = 0;
    badge = badge;
    mr0 = op_cancel_timeout;
    mr1 = timeout_id;
    mr2 = 0;
  })
  pure (register 0 reply)

-- sel4osapi_sysclock_get_time, where the process has the endpoint of the server.
pub get_time : ℕ → (badge : ℕ) → (has_endpoint : Bool) → Cmd Clock ℕ
unfolding serve
get_time fuel badge has_endpoint =
    if has_endpoint
    then (do
      reply ← serve fuel (record {
        length = 1;
        extra_caps = 0;
        badge = badge;
        mr0 = op_get_time;
        mr1 = 0;
        mr2 = 0;
      })
      pure (register 0 reply))
    else pure 0
