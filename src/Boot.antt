-- ===== src/Boot.antt =====
-- The start of the root task: sel4osapi_system_initialize of src/system.c, with what it calls. The
-- services are started in Boot/Services and put together in Boot/Root. `machine` says of each call of
-- another library whether it succeeds; what such calls hand out are the lists of the resources, and an
-- empty list is a failure.
pub mod Services
pub mod Root
pub mod Stocked
pub mod Running
pub mod Examples
use libsel4osapi.Prelude.{ℕ, ◌+◌, ◌-◌, ◌%◌, ◌^◌, Bool, not, some, List, [], ◌∷◌, ◌++◌, ◌==◌}
use libsel4osapi.Run.{Run, ok, fail, assert_failed, Cmd, pure, stop, ◌>>=◌, ◌>>◌, check}
use libsel4osapi.LinkedList.{Ptr, null}
use libsel4osapi.Buffer.{Bytes}
use libsel4osapi.Thread.{ThreadInfo, Threads, thread_create, thread_start}

-- The routines of the threads that the root task starts.
pub data Routine : Type 0 where
  timer_thread server_thread serial_server_thread udp_stack_thread eth_irq_thread : Routine

-- What the root task can still allocate. Its threads note in their world which routine they run; the
-- endpoints and notifications of vka serve other objects as well. `mutexes` are what
-- sel4osapi_mutex_create returns.
pub record Resources : Type 0 where
  pub threads : Threads (List Routine)
  pub slots : List ℕ
  pub mutexes : List Ptr

abbrev pub in_threads : {A : Type 0} → Resources → Run (Threads (List Routine)) A → Run Resources A
in_threads r (ok a t) = ok a (record r { threads = t })
in_threads r (fail f) = fail f

abbrev pub enter : Routine → ThreadInfo → List Routine → List Routine
enter routine info w = w ++ routine ∷ []

pop_endpoint : List ℕ → Cmd Resources ℕ
pop_endpoint [] = stop assert_failed
pop_endpoint (x ∷ xs) = λ r. ok x (record r { threads = record r.threads { endpoints = xs } })

pop_notification : List ℕ → Cmd Resources ℕ
pop_notification [] = stop assert_failed
pop_notification (x ∷ xs) =
    λ r. ok x (record r { threads = record r.threads { notifications = xs } })

pop_slot : List ℕ → Cmd Resources ℕ
pop_slot [] = stop assert_failed
pop_slot (x ∷ xs) = λ r. ok x (record r { slots = xs })

pop_mutex : List Ptr → Cmd Resources Ptr
pop_mutex [] = stop assert_failed
pop_mutex (x ∷ xs) = λ r. ok x (record r { mutexes = xs })

-- vka_alloc_endpoint, vka_alloc_notification and vka_cspace_alloc, asserted.
pub alloc_endpoint : Cmd Resources ℕ
unfolding pop_endpoint
alloc_endpoint = λ r. pop_endpoint r.threads.endpoints r

pub alloc_notification : Cmd Resources ℕ
unfolding pop_notification
alloc_notification = λ r. pop_notification r.threads.notifications r

pub alloc_slot : Cmd Resources ℕ
unfolding pop_slot
alloc_slot = λ r. pop_slot r.slots r

-- sel4osapi_mutex_create, with the caller's assertion.
pub create_mutex : Cmd Resources Ptr
unfolding pop_mutex
create_mutex = do mutex ← λ r. pop_mutex r.mutexes r; check (not (mutex == null)); pure mutex

-- sel4osapi_thread_create, with the caller's assertion; the fault handler of a thread of the root task
-- is set up by other libraries.
pub create_thread : (name : Bytes) → Routine → (arg : Ptr) → (priority : ℕ) → Cmd Resources Ptr
create_thread name routine arg priority = do
  p ← λ r.
      in_threads r (thread_create (λ _ _. []) (some name) (enter routine) arg priority r.threads)
  check (not (p == null))
  pure p

-- sel4osapi_thread_start, asserted.
pub start_thread : Ptr → Cmd Resources (Unit {0})
start_thread p = do error ← λ r. in_threads r (thread_start p r.threads); check (error == 0)

-- Whether the calls of the other libraries succeed that initialise the allocator, the address space and
-- its two reservations, the devices, the DMA and the timer, that copy the capability of the clock, and
-- that open the serial devices.
pub record Machine : Type 0 where
  pub allocator : Bool
  pub vspace : Bool
  pub vmem : Bool
  pub brk : Bool
  pub io_ops : Bool
  pub dma : Bool
  pub timer : Bool
  pub mint : Bool
  pub serial : Bool
  pub uart1 : Bool
  pub uart2 : Bool
