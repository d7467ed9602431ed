-- ===== src/Boot/Services/Begun.antt =====
-- The services of the root task when they have been started (src/clock.c, src/io.c).
use libsel4osapi.Prelude.{
  ℕ, suc, ◌≡◌, ◌≢◌, refl, true, not, none, some, List, [], ◌∷◌, ◌==◌, ==-ne, arith,
}
use libsel4osapi.Run.{Returns, returns, Returns-check, bind}
use libsel4osapi.LinkedList.{Ptr, null}
use libsel4osapi.Pool.{Block}
use libsel4osapi.Pool.View.{View}
use libsel4osapi.Pool.New.{new_view, slots}
use libsel4osapi.Thread.{Thread}
use libsel4osapi.Clock.{
  TimeoutEntry, initialize, max_entries, timer_entry_init, timer_entry_compare,
}
use libsel4osapi.Serial.{SerialClient}
use libsel4osapi.Ipc.{IpcClient, ipcserver_initialize}
use libsel4osapi.Boot.{
  Routine, timer_thread, server_thread, serial_server_thread, Resources, Machine,
}
use libsel4osapi.Boot.Services.{
  Sysclock, SerialServer, sysclock_initialize, sysclock_start, sysclock_serve, io_initialize,
  start_ipcserver, serial_initialize, timer_name, server_name, serial_name,
}
use libsel4osapi.Boot.Stocked.{
  more, Stocked, alloc_endpoint-Stocked, alloc_notification-Stocked, alloc_slot-Stocked,
  create_mutex-Stocked,
}
use libsel4osapi.Boot.Running.{Entered, IsThreads, create_thread-Stocked, start_thread-Stocked}

-- The calls of the other libraries succeed.
pub record IsWorking (m : Machine) : Type 0 where
  pub allocator : m.allocator ≡ true
  pub vspace : m.vspace ≡ true
  pub vmem : m.vmem ≡ true
  pub brk : m.brk ≡ true
  pub io_ops : m.io_ops ≡ true
  pub dma : m.dma ≡ true
  pub timer : m.timer ≡ true
  pub mint : m.mint ≡ true
  pub serial : m.serial ≡ true
  pub uart1 : m.uart1 ≡ true
  pub uart2 : m.uart2 ≡ true

-- The clock shows 0, and no timeout is scheduled.
pub record IsUnset (blocks : List (Block TimeoutEntry)) (c : Sysclock) : Type 0 where
  pub time_eq : c.time ≡ 0
  pub schedule_eq :
      c.schedule ≡ new_view max_entries (some timer_entry_init) (some timer_entry_compare) blocks
  pub mutex_ne : c.timeouts_mutex ≢ null
  pub server_ep_ne : c.server_ep ≢ 0

-- The serial server has no clients.
pub record IsUnused (process_max : ℕ) (blocks : List (Block SerialClient)) (s : SerialServer)
    : Type 0 where
  pub clients_eq : s.serial.clients ≡ new_view process_max none none blocks
  pub output_eq : s.serial.output ≡ []
  pub mutex_ne : s.mutex ≢ null
  pub server_ep_ne : s.serial.server_ep ≢ 0

abbrev pub clock_threads : Sysclock → List (Ptr × Routine)
clock_threads c = (c.server_thread, server_thread) ∷ (c.timer_thread, timer_thread) ∷ []

IsUnset-initialize :
    (blocks : List (Block TimeoutEntry)) (c : Sysclock) (caller_ep : ℕ) (slots : List ℕ)
    → IsUnset blocks c
    → record {
      time = c.time;
      schedule = c.schedule;
      caller_ep = caller_ep;
      slots = slots;
      events = [];
    }
      ≡ initialize blocks caller_ep slots
unfolding initialize
IsUnset-initialize blocks c caller_ep slots u = rw (u.time_eq, u.schedule_eq) refl

module _ (machine : Machine) (w : IsWorking machine) (max_prio : ℕ) where
  pub sysclock_initialize-Stocked :
      (arg : Ptr) (blocks : List (Block TimeoutEntry)) (n m : ℕ) (r : Resources)
      → Stocked (more 6 n) (IsThreads (more 2 m) [] []) r
      → Returns
          (λ (c, cap) r'. IsUnset blocks c × Stocked n (IsThreads m (clock_threads c) []) r')
          (sysclock_initialize machine max_prio arg blocks r)
  unfolding sysclock_initialize
  sysclock_initialize-Stocked arg blocks n m r s =
      bind (alloc_endpoint-Stocked _ _ r s) λ ep r1 (ep_ne, s1).
        bind (alloc_notification-Stocked _ _ r1 s1) λ aep r2 s2.
          Returns-check _ machine.timer r2 w.timer (
            bind (create_mutex-Stocked _ _ r2 s2) λ mutex r3 (mutex_ne, s3).
              bind
                (create_thread-Stocked _ _ [] [] r3 timer_name timer_thread arg max_prio
                  (omega arith) s3)
                λ timer r4 s4.
                  bind
                    (create_thread-Stocked _ _ _ [] r4 server_name server_thread arg max_prio
                      (omega arith) s4)
                    λ server r5 s5. bind (alloc_slot-Stocked _ _ r5 s5) λ cap r6 s6.
                      Returns-check _ machine.mint r6 w.mint (
                        returns (
                          record {
                            time_eq = refl;
                            schedule_eq = refl;
                            mutex_ne = mutex_ne;
                            server_ep_ne = ep_ne;
                          },
                          s6,
                        )))

  pub sysclock_start-Stocked :
      (c : Sysclock) (n m : ℕ) (r : Resources)
      → Stocked n (IsThreads m (clock_threads c) []) r
      → Returns
          (λ _ r'.
            Stocked n (IsThreads m (clock_threads c) (c.server_thread ∷ c.timer_thread ∷ [])) r')
          (sysclock_start machine max_prio c r)
  unfolding sysclock_start
  sysclock_start-Stocked c n m r s =
      let (t, at, _) = s.pool.held.1.0 in
      bind (start_thread-Stocked n m _ [] r c.timer_thread t at s) λ _ r1 s1.
        let (t', at', _) = s1.pool.held.0 in
        start_thread-Stocked n m _ _ r1 c.server_thread t' at' s1

  pub io_initialize-same :
      (r : Resources) → Returns (λ _ r'. r' ≡ r) (io_initialize machine max_prio r)
  unfolding io_initialize
  io_initialize-same r = rw (w.io_ops, w.dma) (returns refl)

  pub start_ipcserver-Stocked :
      (process_max : ℕ) (blocks : List (Block IpcClient)) (pages : List Ptr) (n : ℕ)
      (P : View (Thread Entered) → Type 0) (r : Resources)
      → Stocked (suc n) P r
      → Returns
          (λ (_, ipc) r'. (ipc ≡ ipcserver_initialize process_max blocks pages) × Stocked n P r')
          (start_ipcserver machine max_prio process_max blocks pages r)
  unfolding start_ipcserver
  start_ipcserver-Stocked process_max blocks pages n P r s =
      bind (create_mutex-Stocked n P r s) λ mutex r1 (_, s1). returns (refl, s1)

  pub serial_initialize-Stocked :
      (process_max : ℕ) (arg : Ptr) (blocks : List (Block SerialClient)) (priority : ℕ) (n m : ℕ)
      (hs : List (Ptr × Routine)) (ps : List Ptr) (r : Resources)
      → Stocked (more 3 n) (IsThreads (suc m) hs ps) r
      → Returns
          (λ c r'.
            IsUnused process_max blocks c
            × Stocked n (IsThreads m ((c.thread, serial_server_thread) ∷ hs) (c.thread ∷ ps)) r')
          (serial_initialize machine max_prio process_max arg blocks priority r)
  unfolding serial_initialize
  serial_initialize-Stocked process_max arg blocks priority n m hs ps r s =
      Returns-check _ machine.serial r w.serial (
        Returns-check _ machine.uart1 r w.uart1 (
          Returns-check _ machine.uart2 r w.uart2 (
            bind (create_mutex-Stocked _ _ r s) λ mutex r1 (mutex_ne, s1).
              bind (alloc_endpoint-Stocked _ _ r1 s1) λ ep r2 (ep_ne, s2).
                Returns-check _ (not (ep == 0)) r2 (rw (==-ne ep 0 ep_ne) refl) (
                  bind
                    (create_thread-Stocked _ _ hs ps r2 serial_name serial_server_thread arg
                      priority (omega arith) s2)
                    λ thread r3 s3.
                      let (t, at, _) = s3.pool.held.0 in
                      bind (start_thread-Stocked _ _ _ ps r3 thread t at s3) λ _ r4 s4. returns (
                        record {
                          clients_eq = refl;
                          output_eq = refl;
                          mutex_ne = mutex_ne;
                          server_ep_ne = ep_ne;
                        },
                        s4,
                      )))))

  -- The clock with which the server thread begins is the one that sel4osapi_sysclock_initialize makes.
  pub sysclock_serve-initialize :
      (blocks : List (Block TimeoutEntry)) (c : Sysclock) (n : ℕ)
      (P : View (Thread Entered) → Type 0) (r : Resources)
      → IsUnset blocks c
      → Stocked (suc n) P r
      → Returns
          (λ clock r'. (clock ≡ initialize blocks clock.caller_ep r'.slots) × Stocked n P r')
          (sysclock_serve machine max_prio c r)
  unfolding sysclock_serve
  sysclock_serve-initialize blocks c n P r u s =
      bind (alloc_slot-Stocked n P r s)
        λ caller_ep r' s'. returns (IsUnset-initialize blocks c caller_ep r'.slots u, s')
