-- ===== src/Boot/Root.antt =====
-- sel4osapi_system_initialize and sel4osapi_system_initialize_network of src/system.c.
pub mod Booted
pub mod First
pub mod Networked
pub mod Examples
use libsel4osapi.Prelude.{ℕ, ◌-◌, ◌%◌, ◌^◌, Bool, not, none, List, [], ◌∷◌, ◌==◌}
use libsel4osapi.Run.{Run, ok, fail, assert_failed, Cmd, pure, ◌>>=◌, ◌>>◌, check}
use libsel4osapi.LinkedList.{Ptr, null}
use libsel4osapi.Pool.{Block}
use libsel4osapi.Pool.New.{new_view}
use libsel4osapi.Pool.View.{View}
use libsel4osapi.Buffer.{Bytes}
use libsel4osapi.Clock.{TimeoutEntry}
use libsel4osapi.Ipc.{IpcClient, Ipc}
use libsel4osapi.Serial.{SerialClient}
use libsel4osapi.Udp.Stack.{SocketServer}
use libsel4osapi.Network.{on_resources, Netiface, Netstack, Driver, Vface, network_initialize}
use libsel4osapi.Thread.{ThreadInfo, Thread}
use libsel4osapi.Process.{no_grant}
use libsel4osapi.Process.Environment.{Env}
use libsel4osapi.Process.Create.{Process}
use libsel4osapi.System.{Division, divide_untypeds}
use libsel4osapi.System.Start.{main_thread}
use libsel4osapi.Boot.{Routine, Resources, Machine, alloc_notification, create_mutex}
use libsel4osapi.Boot.Services.{
  Sysclock, SerialServer, UdpStack, sysclock_initialize, sysclock_start, io_initialize,
  start_ipcserver, serial_initialize, udp_initialize,
}

-- What the kernel's boot information and the other libraries give the root task: the page of its
-- environment, its capabilities, its IPC buffer, the elements of the pools, and the addresses of the
-- clock and of the serial server, which their threads get as arguments.
pub record Supplies : Type 0 where
  pub env_page : Ptr
  pub pd : ℕ
  pub cnode : ℕ
  pub tcb : ℕ
  pub cnode_size_bits : ℕ
  pub ipc : Ptr
  pub thread_blocks : List (Block (Thread (List Routine)))
  pub process_blocks : List (Block Process)
  pub timeout_blocks : List (Block TimeoutEntry)
  pub ipc_blocks : List (Block IpcClient)
  pub serial_blocks : List (Block SerialClient)
  pub ipc_pages : List Ptr
  pub sysclock : Ptr
  pub serial : Ptr

-- The fields of sel4osapi_system_t that are set.
pub record Root : Type 0 where
  pub is_root : ℕ
  pub env : Env
  pub main_thread : ThreadInfo
  pub sysclock : Sysclock
  pub global_mutex : Ptr
  pub logmutex : Ptr
  pub division : Division
  pub idling_aep : ℕ
  pub processes : View Process
  pub ipc : Ipc
  pub serial : SerialServer

-- The services of the root task, with its own copy of the endpoint of the clock.
pub record Services : Type 0 where
  pub sysclock : Sysclock
  pub sysclock_server_ep : ℕ
  pub ipc : Ipc
  pub serial : SerialServer

-- "root_task"
abbrev pub root_name : Bytes
root_name = 114 ∷ 111 ∷ 111 ∷ 116 ∷ 95 ∷ 116 ∷ 97 ∷ 115 ∷ 107 ∷ []

module _ (machine : Machine) (supplies : Supplies) (max_prio max_threads process_max : ℕ)
    (main_name : ℕ → Bytes) where
  -- sel4osapi_system_bootstrap_root: the value of `is_root`.
  pub bootstrap_root : Cmd Resources ℕ
  bootstrap_root = do
    check machine.allocator
    check machine.vspace
    check machine.vmem
    check machine.brk
    pure 1

  -- sel4osapi_system_initialize_root_task_env; the other fields are those of an empty page. The pool of
  -- the threads is kept with the resources.
  abbrev pub root_env : (idling_aep sysclock_server_ep : ℕ) → Env
  root_env idling_aep sysclock_server_ep = record {
    pid = 0;
    name = root_name;
    priority = (max_prio - 1) % 2 ^ 8;
    page_directory = supplies.pd;
    root_cnode = supplies.cnode;
    tcb = supplies.tcb;
    untypeds = no_grant;
    sysclock_server_ep = sysclock_server_ep;
    idling_aep = idling_aep;
    ipc_id = 0;
    rx = record { buf = null; buf_size = 0 };
    tx = record { buf = null; buf_size = 0 };
    stack_op_ep = 0;
    serial_id = 0;
    serial_server_ep = 0;
    serial = record { buf = null; buf_size = 0 };
    fault_endpoint = 0;
    cspace_size_bits = supplies.cnode_size_bits;
    free_start = 0;
    free_end = 0;
  }

  pub initialize_root_task_env : (idling_aep : ℕ) → Cmd Resources Env
  initialize_root_task_env idling_aep = do
    check (not (supplies.env_page == null))
    λ r. ok tt (record r {
      threads = record r.threads {
        threads = new_view max_threads none none supplies.thread_blocks;
        pid = 0;
        fault_endpoint = 0;
      };
    })
    pure (root_env idling_aep 0)

  pub start_services : (priority : ℕ) → Cmd Resources Services
  start_services priority = do
    io_initialize machine max_prio
    (sysclock, cap) ← sysclock_initialize machine max_prio supplies.sysclock supplies.timeout_blocks
    sysclock_start machine max_prio sysclock
    (_, ipc) ← start_ipcserver machine max_prio process_max supplies.ipc_blocks supplies.ipc_pages
    serial ←
        serial_initialize machine max_prio process_max supplies.serial supplies.serial_blocks
          priority
    pure (record { sysclock = sysclock; sysclock_server_ep = cap; ipc = ipc; serial = serial })

  -- sel4osapi_system_initialize, with all services configured and the log not yet initialised.
  pub system_initialize :
      (reserves allocates : ℕ → Bool)
      → (sizes : ℕ → ℕ) → (root_mem_size max_untypeds : ℕ) → (bootstrap_mem_pool : Ptr)
      → Cmd Resources Root
  unfolding start_services
  system_initialize reserves allocates sizes root_mem_size max_untypeds bootstrap_mem_pool = do
    check (not (bootstrap_mem_pool == null))
    is_root ← bootstrap_root
    global_mutex ← create_mutex
    idling_aep ← alloc_notification
    division ← divide_untypeds reserves allocates sizes root_mem_size max_untypeds
    env ← initialize_root_task_env idling_aep
    wait_aep ← alloc_notification
    logmutex ← create_mutex
    services ← start_services env.priority
    pure (record {
      is_root = is_root;
      env = record env { sysclock_server_ep = services.sysclock_server_ep };
      main_thread = main_thread main_name env wait_aep supplies.ipc;
      sysclock = services.sysclock;
      global_mutex = global_mutex;
      logmutex = logmutex;
      division = division;
      idling_aep = idling_aep;
      processes = new_view process_max none none supplies.process_blocks;
      ipc = services.ipc;
      serial = services.serial;
    })

-- sel4osapi_system_initialize_network; `named` says whether `iface_name` is not NULL, and `priority` is
-- that of the root task.
pub initialize_network :
    {D : Type 0} (get_irq_handler : ℕ → Bool) (netif_add : (addr mask gw : ℕ) → Bool)
    (machine : Machine) (max_prio : ℕ)
    → List (Block (Netiface D))
    → List (Block Vface)
    → List (Block SocketServer)
    → (named : Bool) → Driver D
    → (addr mask gw : ℕ) → (max_sockets : ℕ) → (udp : Ptr) → (priority : ℕ)
    → Cmd (Netstack D) UdpStack
initialize_network get_irq_handler netif_add machine max_prio iface_blocks vface_blocks
      socket_blocks named driver addr mask gw max_sockets udp priority =
    do
      check named
      network_initialize get_irq_handler netif_add iface_blocks vface_blocks priority driver addr
          mask gw
      on_resources (udp_initialize machine max_prio max_sockets udp socket_blocks priority)
