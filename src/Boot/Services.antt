-- ===== src/Boot/Services.antt =====
-- The start of the services in the root task: sel4osapi_sysclock_initialize and sel4osapi_sysclock_start
-- of src/clock.c, sel4osapi_io_initialize and sel4osapi_io_serial_initialize of src/io.c,
-- sel4osapi_ipcserver_initialize of src/ipc.c and sel4osapi_udp_initialize of src/udp.c.
pub mod Begun
pub mod Stack
use libsel4osapi.Prelude.{ℕ, not, none, some, List, [], ◌∷◌, ◌==◌}
use libsel4osapi.Run.{ok, Cmd, pure, ◌>>=◌, ◌>>◌, check}
use libsel4osapi.LinkedList.{Ptr, null}
use libsel4osapi.Pool.{Block}
use libsel4osapi.Pool.New.{new_view}
use libsel4osapi.Pool.View.{View}
use libsel4osapi.Buffer.{Bytes}
use libsel4osapi.Clock.{Clock, TimeoutEntry, max_entries, timer_entry_init, timer_entry_compare}
use libsel4osapi.Ipc.{IpcClient, Ipc, ipcserver_initialize}
use libsel4osapi.Serial.{SerialClient, Serial}
use libsel4osapi.Udp.Stack.{SocketServer}
use libsel4osapi.Boot.{
  Routine, timer_thread, server_thread, serial_server_thread, udp_stack_thread, Resources, Machine,
  alloc_endpoint, alloc_notification, alloc_slot, create_mutex, create_thread, start_thread,
}

-- sel4osapi_sysclock_t before its threads run.
pub record Sysclock : Type 0 where
  pub time : ℕ
  pub server_ep : ℕ
  pub timer_aep : ℕ
  pub schedule : View TimeoutEntry
  pub timeouts_mutex : Ptr
  pub timer_thread : Ptr
  pub server_thread : Ptr

-- sel4osapi_serialserver_t with its mutex and its thread.
pub record SerialServer : Type 0 where
  pub serial : Serial
  pub mutex : Ptr
  pub thread : Ptr

-- sel4osapi_udpstack_t
pub record UdpStack : Type 0 where
  pub mutex : Ptr
  pub stack_op_ep : ℕ
  pub socket_servers : View SocketServer
  pub server_thread : Ptr

-- "sysclock::timer", "sysclock::server", "serial" and "udp::stack".
abbrev pub timer_name : Bytes
timer_name =
    115 ∷ 121 ∷ 115 ∷ 99 ∷ 108 ∷ 111 ∷ 99 ∷ 107 ∷ 58 ∷ 58 ∷ 116 ∷ 105 ∷ 109 ∷ 101 ∷ 114 ∷ []

abbrev pub server_name : Bytes
server_name =
    115 ∷ 121 ∷ 115 ∷ 99 ∷ 108 ∷ 111 ∷ 99 ∷ 107 ∷ 58 ∷ 58 ∷ 115 ∷ 101 ∷ 114 ∷ 118 ∷ 101 ∷ 114 ∷ []

abbrev pub serial_name : Bytes
serial_name = 115 ∷ 101 ∷ 114 ∷ 105 ∷ 97 ∷ 108 ∷ []

abbrev pub stack_name : Bytes
stack_name = 117 ∷ 100 ∷ 112 ∷ 58 ∷ 58 ∷ 115 ∷ 116 ∷ 97 ∷ 99 ∷ 107 ∷ []

module _ (machine : Machine) (max_prio : ℕ) where
  -- The clock, and the copy of its endpoint for the root task.
  pub sysclock_initialize : (arg : Ptr) → List (Block TimeoutEntry) → Cmd Resources (Sysclock × ℕ)
  sysclock_initialize arg blocks = do
    server_ep ← alloc_endpoint
    timer_aep ← alloc_notification
    check machine.timer
    mutex ← create_mutex
    timer ← create_thread timer_name timer_thread arg max_prio
    server ← create_thread server_name server_thread arg max_prio
    cap ← alloc_slot
    check machine.mint
    pure (
      record {
        time = 0;
        server_ep = server_ep;
        timer_aep = timer_aep;
        schedule = new_view max_entries (some timer_entry_init) (some timer_entry_compare) blocks;
        timeouts_mutex = mutex;
        timer_thread = timer;
        server_thread = server;
      },
      cap,
    )

  pub sysclock_start : Sysclock → Cmd Resources (Unit {0})
  sysclock_start sysclock = do
    start_thread sysclock.timer_thread
    start_thread sysclock.server_thread

  -- sel4osapi_sysclock_server_thread up to its loop: its receive slot.
  pub sysclock_serve : Sysclock → Cmd Resources Clock
  sysclock_serve sysclock = do
    caller_ep ← alloc_slot
    λ r.
        ok
          (record {
            time = sysclock.time;
            schedule = sysclock.schedule;
            caller_ep = caller_ep;
            slots = r.slots;
            events = [];
          })
          r

  pub io_initialize : Cmd Resources (Unit {0})
  io_initialize = do check machine.io_ops; check machine.dma

  -- `pages` are the pages to come for the clients.
  pub start_ipcserver :
      (process_max : ℕ) → List (Block IpcClient) → (pages : List Ptr) → Cmd Resources (Ptr × Ipc)
  start_ipcserver process_max blocks pages = do
    mutex ← create_mutex
    pure (mutex, ipcserver_initialize process_max blocks pages)

  -- Both devices are configured.
  pub serial_initialize :
      (process_max : ℕ)
      → (arg : Ptr) → List (Block SerialClient)
      → (priority : ℕ) → Cmd Resources SerialServer
  serial_initialize process_max arg blocks priority = do
    check machine.serial
    check machine.uart1
    check machine.uart2
    mutex ← create_mutex
    server_ep ← alloc_endpoint
    check (not (server_ep == 0))
    thread ← create_thread serial_name serial_server_thread arg priority
    start_thread thread
    pure (record {
      serial = record {
        server_ep = server_ep;
        clients = new_view process_max none none blocks;
        op_size = 0;
        output = [];
      };
      mutex = mutex;
      thread = thread;
    })

  pub udp_initialize :
      (max_sockets : ℕ)
      → (arg : Ptr) → List (Block SocketServer)
      → (priority : ℕ) → Cmd Resources UdpStack
  udp_initialize max_sockets arg blocks priority = do
    mutex ← create_mutex
    stack_op_ep ← alloc_endpoint
    thread ← create_thread stack_name udp_stack_thread arg priority
    start_thread thread
    pure (record {
      mutex = mutex;
      stack_op_ep = stack_op_ep;
      socket_servers = new_view max_sockets none none blocks;
      server_thread = thread;
    })
