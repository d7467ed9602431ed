-- ===== src/Process/Create.antt =====
-- sel4osapi_process_create of src/process.c: a process gets an element of the pool, a client of the
-- serial server and one of the IPC server, and its environment. What the other libraries hand out are
-- lists: `env_pages` and `serial_pages` of vspace_new_pages (the latter with what they hold), and
-- `natives` of sel4utils_configure_process_custom.
pub mod Registered
pub mod Examples
use libsel4osapi.Prelude.{ℕ, suc, ◌+◌, not, Option, none, some, List, [], ◌∷◌, ◌==◌, if◌then◌else◌}
use libsel4osapi.Run.{
  Run, ok, fail, assert_failed, bad_pointer, Cmd, pure, stop, ◌>>=◌, ◌>>◌, check, need,
}
use libsel4osapi.LinkedList.{Ptr, null}
use libsel4osapi.Pool.View
use libsel4osapi.Pool.View.{Slot, View, value_at}
use libsel4osapi.Buffer.{Bytes}
use libsel4osapi.Ipc
use libsel4osapi.Ipc.{IpcClient, Ipc}
use libsel4osapi.Serial
use libsel4osapi.Serial.{SerialClient, Serial}
use libsel4osapi.Process.Environment.{Config, Parent, Env, Copies, init_env}

-- The capabilities of sel4utils_process_t that the environment is made from.
pub record Native : Type 0 where
  pub pd : ℕ
  pub tcb : ℕ
  pub fault_endpoint : ℕ

-- sel4osapi_process_t; its environment is none until it is filled.
pub record Process : Type 0 where
  pub env : Option Env
  pub fault_endpoint : ℕ
  pub ipcclient : Ptr
  pub serialclient : Ptr

-- The fields of sel4osapi_system_t that a new process is made from.
pub record System : Type 0 where
  pub processes : View Process
  pub serial : Serial
  pub ipc : Ipc
  pub copies : Copies
  pub user_untypeds : ℕ → ℕ
  pub sysclock_ep : ℕ
  pub udp_stack_ep : ℕ
  pub env_pages : List Ptr
  pub serial_pages : List (Ptr × Bytes)
  pub natives : List Native

abbrev in_serial : {A : Type 0} → System → Run Serial A → Run System A
in_serial s (ok a t) = ok a (record s { serial = t })
in_serial s (fail f) = fail f

abbrev in_ipc : {A : Type 0} → System → Run Ipc A → Run System A
in_ipc s (ok a t) = ok a (record s { ipc = t })
in_ipc s (fail f) = fail f

abbrev pub in_copies : {A : Type 0} → System → Run Copies A → Run System A
in_copies s (ok a t) = ok a (record s { copies = t })
in_copies s (fail f) = fail f

-- The page of the environment; the code writes through the pointer without a test.
take_env_page : List Ptr → Cmd System (Unit {0})
take_env_page [] = stop bad_pointer
take_env_page (p ∷ ps) = do
  λ s. ok tt (record s { env_pages = ps })
  if p == null then stop bad_pointer else pure tt

take_native : List Native → Cmd System Native
take_native [] = stop assert_failed
take_native (n ∷ ns) = λ s. ok n (record s { natives = ns })

take_serial_page : List (Ptr × Bytes) → Cmd System (Ptr × Bytes)
take_serial_page [] = stop assert_failed
take_serial_page (p ∷ ps) = λ s. ok p (record s { serial_pages = ps })

module _ (mint : ℕ → ℕ) (page_cap : Ptr → ℕ) (map_pages : List ℕ → Ptr) (config : Config) where
  -- The clients of the serial server and of the IPC server.
  pub create_clients : (pid : ℕ) → Cmd System (Ptr × Ptr × Ptr)
  unfolding take_serial_page
  create_clients pid = do
    (buf, page) ← λ s. take_serial_page s.serial_pages s
    serialclient ← λ s. in_serial s (Serial.create_client page config.serial_buf_size s.serial)
    check (not (serialclient == null))
    ipcclient ← λ s. in_ipc s (Ipc.create_client config.rx_buf_size config.tx_buf_size pid s.ipc)
    check (not (ipcclient == null))
    pure (buf, serialclient, ipcclient)

  -- What sel4osapi_process_init_env reads of the system and of the process's clients.
  abbrev pub parent_of : System → Native → Ptr → SerialClient → IpcClient → Parent
  parent_of s native buf serial ipc = record {
    pd = native.pd;
    tcb = native.tcb;
    fault_endpoint = native.fault_endpoint;
    sysclock_ep = s.sysclock_ep;
    udp_stack_ep = s.udp_stack_ep;
    user_untypeds = s.user_untypeds;
    ipc_id = ipc.id;
    ipc_rx_buf = ipc.rx_buf;
    ipc_tx_buf = ipc.tx_buf;
    serial_id = serial.id;
    serial_server_ep = serial.server_ep;
    serial_buf = buf;
  }

  -- The environment of a process begins with an empty CSpace.
  pub fill_env :
      (pid : ℕ) (name : List ℕ) (priority : ℕ)
      → Native
      → (buf serialclient ipcclient : Ptr) → Cmd System Env
  fill_env pid name priority native buf serialclient ipcclient = do
    serial ← λ s. need (value_at serialclient s.serial.clients.used) s
    ipc ← λ s. need (value_at ipcclient s.ipc.clients.used) s
    λ s. in_copies s (
        init_env mint page_cap map_pages config (parent_of s native buf serial ipc) pid name
          priority (record s.copies { copied = [] }))

  -- What sel4osapi_process_create does with the element that simple_pool_alloc returned.
  pub fill_process : (name : List ℕ) (priority : ℕ) → Ptr × View Process → Cmd System Ptr
  unfolding take_env_page take_native
  fill_process name priority (p, v) =
      if p == null then (λ s. ok null (record s { processes = v })) else do
        let pid = View.get_current_size v
        λ s. ok tt (record s { processes = v })
        λ s. take_env_page s.env_pages s
        native ← λ s. take_native s.natives s
        (buf, serialclient, ipcclient) ← create_clients pid
        env ← fill_env pid name priority native buf serialclient ipcclient
        λ s. ok tt (record s {
          processes = View.modify s.processes p (λ _. record {
            env = some env;
            fault_endpoint = native.fault_endpoint;
            ipcclient = ipcclient;
            serialclient = serialclient;
          });
        })
        pure p

  pub process_create : (name : List ℕ) (priority : ℕ) → Cmd System Ptr
  unfolding fill_process
  process_create name priority = λ s. fill_process name priority (View.alloc s.processes) s
