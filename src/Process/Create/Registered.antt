-- ===== src/Process/Create/Registered.antt =====
-- A process that src/process.c creates is known to the services by its identifiers.
use libsel4osapi.Prelude.{
  add_one, ℕ, suc, ◌+◌, ◌≤◌, ◌<◌, ◌^◌, ◌≡◌, ◌≢◌, refl, sym, subst, true, none, some, List, [], ◌∷◌,
  ◌++◌, length, length-append, ==-ne,
}
use libsel4osapi.Run.{ok, Run, Returns, returns, Cmd, and_then}
use libsel4osapi.LinkedList.{Ptr, null}
use libsel4osapi.LinkedList.Separate.{Separate}
use libsel4osapi.Pool.View
use libsel4osapi.Pool.View.{Slot, View, value_at, put, alloc-first}
use libsel4osapi.Pool.Shape.{els}
use libsel4osapi.Pool.Lookup.{value_at-middle, put-middle}
use libsel4osapi.Buffer.{Bytes}
use libsel4osapi.Ipc.{IpcClient}
use libsel4osapi.Ipc.Clients as IpcClients
use libsel4osapi.Ipc.Clients.{client_refs, create_client-found}
use libsel4osapi.Serial
use libsel4osapi.Serial.{SerialClient}
use libsel4osapi.Serial.Clients as SerialClients
use libsel4osapi.Serial.Clients.{IsSerial, create_client-joined, find_client-middle}
use libsel4osapi.Udp.Stack.{find_client}
use libsel4osapi.Udp.Stack.Requests.{unknown}
use libsel4osapi.Process.{Untyped}
use libsel4osapi.Process.Environment.{Config, Parent, Env, Copies}
use libsel4osapi.Process.Environment.Fresh.{IsFresh, init_env-IsFresh}
use libsel4osapi.Process.Create.{
  Native, Process, System, in_copies, take_env_page, take_native, take_serial_page, create_clients,
  parent_of, fill_env, fill_process, process_create,
}

bind_in_copies :
    {A B : Type 0} {P : A → Copies → Type 0} {Q : B → System → Type 0} {r : Run Copies A}
    (s : System) (k : A → Cmd System B)
    → Returns P r
    → ((a : A) (t : Copies) → P a t → Returns Q (k a (record s { copies = t })))
    → Returns Q (and_then (in_copies s r) k)
bind_in_copies s k (returns p) rest = rest _ _ p

module _ (mint : ℕ → ℕ) (page_cap : Ptr → ℕ) (map_pages : List ℕ → Ptr) (config : Config)
    (s : System) (sc : Slot SerialClient) (screst : List (Slot SerialClient)) (buf : Ptr)
    (page : Bytes) (buffers : List (Ptr × Bytes)) (ic : Slot IpcClient)
    (icrest : List (Slot IpcClient)) (rx tx : Ptr) (pages : List Ptr) (pid : ℕ) where
  -- Both servers have a free client, and the pages that it takes.
  abbrev pub unserved : System
  unserved = record s {
    serial = SerialClients.offered s.serial sc screst page config.serial_buf_size;
    ipc = IpcClients.offered config.rx_buf_size config.tx_buf_size s.ipc ic icrest rx tx pages pid;
    serial_pages = (buf, page) ∷ buffers;
  }

  abbrev pub served : System
  served = record s {
    serial = SerialClients.joined s.serial sc screst page config.serial_buf_size;
    ipc = IpcClients.joined config.rx_buf_size config.tx_buf_size s.ipc ic icrest rx tx pages pid;
    serial_pages = buffers;
  }

  create_clients-served :
      s.serial.clients.init_fn ≡ none
      → IsSerial unserved.serial
      → s.ipc.clients.init_fn ≡ none
      → Separate (els (ic ∷ icrest)) (els s.ipc.clients.used)
      → rx ≢ null
      → tx ≢ null
      → unknown pid (client_refs s.ipc.clients.used) ≡ true
      → create_clients mint page_cap map_pages config pid unserved ≡ ok (buf, sc.el, ic.el) served
  unfolding create_clients take_serial_page
  create_clients-served n i n' d rx_ne tx_ne u =
      rw
        (
          (create_client-joined s.serial sc screst page config.serial_buf_size n i).0,
          ==-ne sc.el null i.elements.left.0,
          (create_client-found config.rx_buf_size config.tx_buf_size s.ipc ic icrest rx tx pages pid
              null n' d rx_ne tx_ne u).0,
          ==-ne ic.el null d.left.0,
        )
        refl

-- What holds of a process that was created: it stands behind the others with its environment, whose
-- capabilities lie in front of its free slots, and the servers find its clients by the identifiers in
-- the environment.
pub record IsCreated (mint : ℕ → ℕ) (config : Config) (base pid spare : ℕ) (us : List Untyped)
    (e : Slot Process) (serial_el ipc_el p : Ptr) (s : System) : Type 0 where
  pub result : p ≡ e.el
  pub env : Env
  pub parent : Parent
  pub fresh : IsFresh mint config base pid spare us parent env s.copies
  pub stored : Process
  pub stored_eq : value_at e.el s.processes.used ≡ some stored
  pub env_eq : stored.env ≡ some env
  pub ipc_found : (old : Ptr) → find_client env.ipc_id (client_refs s.ipc.clients.used) old ≡ ipc_el
  pub serial_slot : Slot SerialClient
  pub serial_at : serial_slot.el ≡ serial_el
  pub serial_found : Serial.find_client env.serial_id s.serial.clients.used ≡ some serial_slot

module _ (mint : ℕ → ℕ) (page_cap : Ptr → ℕ) (map_pages : List ℕ → Ptr) (config : Config) (base : ℕ)
    (consecutive : (k : ℕ) → mint k ≡ base + k) (base_ne : base ≢ 0)
    (mapped : (p : Ptr) → page_cap p ≢ 0) (maps : (l : List ℕ) → map_pages l ≢ 0) (s : System)
    (e : Slot Process) (rest : List (Slot Process)) (env_page : Ptr) (env_pages : List Ptr)
    (native : Native) (natives : List Native) (aep : ℕ) (aeps : List ℕ) (sc : Slot SerialClient)
    (screst : List (Slot SerialClient)) (buf : Ptr) (page : Bytes) (buffers : List (Ptr × Bytes))
    (ic : Slot IpcClient) (icrest : List (Slot IpcClient)) (rx tx : Ptr) (pages : List Ptr) where
  -- The process's identifier.
  abbrev pub new_pid : ℕ
  new_pid = suc (length s.processes.used)

  -- The system when the process has its element, its page and its native part.
  abbrev pub begun : System
  begun = record s {
    processes = record s.processes { free = rest; used = s.processes.used ++ e ∷ [] };
    copies = record s.copies { notifications = aep ∷ aeps };
    env_pages = env_pages;
    natives = natives;
  }

  -- The system before the call.
  abbrev pub supplied : System
  supplied =
      record (unserved mint page_cap map_pages config begun sc screst buf page buffers ic icrest rx
        tx pages new_pid) {
          processes = record s.processes { free = e ∷ rest };
          env_pages = env_page ∷ env_pages;
          natives = native ∷ natives;
        }

  pub process_create-IsCreated :
      (name : List ℕ) (priority spare : ℕ)
      → s.processes.init_fn ≡ none
      → Separate (els (e ∷ rest)) (els s.processes.used)
      → env_page ≢ null
      → s.serial.clients.init_fn ≡ none
      → IsSerial supplied.serial
      → s.ipc.clients.init_fn ≡ none
      → Separate (els (ic ∷ icrest)) (els s.ipc.clients.used)
      → rx ≢ null
      → tx ≢ null
      → unknown new_pid (client_refs s.ipc.clients.used) ≡ true
      → config.rx_pages + (config.tx_pages + (config.serial_pages + spare)) ≤ length s.copies.slots
      → config.rx_pages ≤ config.tx_pages
      → 0 < length s.copies.table
      → length s.copies.table < 2 ^ 8
      → base + (7 + length s.copies.table) < 2 ^ config.cspace_size_bits
      → 2 ^ config.cspace_size_bits < 2 ^ 32
      → Returns
          (IsCreated mint config base new_pid spare s.copies.table e sc.el ic.el)
          (process_create mint page_cap map_pages config name priority supplied)
  unfolding process_create fill_process fill_env take_env_page take_native View.modify
      View.get_current_size
  process_create-IsCreated name priority spare n d page_ne sn si cn cd rx_ne tx_ne u room le some_ut
        few space word =
      let served_system =
        served mint page_cap map_pages config begun sc screst buf page buffers ic icrest rx tx pages
          new_pid in
      let serial_slot = SerialClients.registered s.serial sc screst page config.serial_buf_size in
      let ipc_slot =
        IpcClients.registered config.rx_buf_size config.tx_buf_size s.ipc ic icrest rx tx pages
          new_pid in
      let (created, is_serial) =
        create_client-joined s.serial sc screst page config.serial_buf_size sn si in
      let (registered, found) =
        create_client-found config.rx_buf_size config.tx_buf_size s.ipc ic icrest rx tx pages
          new_pid null cn cd rx_ne tx_ne u in
      rw
        (
          alloc-first s.processes e rest n,
          ==-ne e.el null d.left.0,
          length-append s.processes.used (e ∷ []),
          add_one (length s.processes.used),
          ==-ne env_page null page_ne,
          create_clients-served mint page_cap map_pages config begun sc screst buf page buffers ic
              icrest rx tx pages new_pid sn si cn cd rx_ne tx_ne u,
          value_at-middle s.serial.clients.used [] serial_slot si.elements.apart.0,
          value_at-middle s.ipc.clients.used [] ipc_slot cd.apart.0,
        )
        (bind_in_copies served_system _
          (init_env-IsFresh mint page_cap map_pages config base consecutive base_ne mapped maps
            (parent_of mint page_cap map_pages config served_system native buf serial_slot.value
              ipc_slot.value)
            new_pid spare name priority aep aeps (record served_system.copies { copied = [] }) refl
            refl room le some_ut few space word)
          λ env t fresh. returns (record {
            result = refl;
            env = env;
            parent =
                parent_of mint page_cap map_pages config served_system native buf serial_slot.value
                  ipc_slot.value;
            fresh = fresh;
            stored = record {
              env = some env;
              fault_endpoint = native.fault_endpoint;
              ipcclient = ic.el;
              serialclient = sc.el;
            };
            stored_eq = stored_last env;
            env_eq = refl;
            ipc_found = λ old.
                subst
                  (λ id. find_client id (client_refs served_system.ipc.clients.used) old ≡ ic.el)
                  (sym fresh.ipc_eq)
                  (create_client-found config.rx_buf_size config.tx_buf_size s.ipc ic icrest rx tx
                    pages new_pid old cn cd rx_ne tx_ne u).1;
            serial_slot = serial_slot;
            serial_at = refl;
            serial_found =
                subst
                  (λ id. Serial.find_client id served_system.serial.clients.used ≡ some serial_slot)
                  (sym fresh.serial_eq)
                  (find_client-middle s.serial.clients.used [] serial_slot is_serial.numbered);
          }))
    where
      stored_last :
          (env : Env)
          → value_at e.el (
              put e.el
                (λ _. record {
                  env = some env;
                  fault_endpoint = native.fault_endpoint;
                  ipcclient = ic.el;
                  serialclient = sc.el;
                })
                (s.processes.used ++ e ∷ []))
            ≡ some (record {
              env = some env;
              fault_endpoint = native.fault_endpoint;
              ipcclient = ic.el;
              serialclient = sc.el;
            })
      stored_last env =
          let v : Process = record {
            env = some env;
            fault_endpoint = native.fault_endpoint;
            ipcclient = ic.el;
            serialclient = sc.el;
          } in
          rw (put-middle (λ _. v) s.processes.used [] e d.apart.0 refl)
            (value_at-middle s.processes.used [] (record e { value = v }) d.apart.0)

-- Where no element is free, no process is created, and nothing changes.
pub process_create-none :
    (mint : ℕ → ℕ) (page_cap : Ptr → ℕ) (map_pages : List ℕ → Ptr) (config : Config) (name : List ℕ)
    (priority : ℕ) (s : System)
    → s.processes.free ≡ []
    → process_create mint page_cap map_pages config name priority s ≡ ok null s
unfolding process_create fill_process View.alloc
process_create-none mint page_cap map_pages config name priority s none_free = rw none_free refl
