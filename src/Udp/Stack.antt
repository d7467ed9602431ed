-- ===== src/Udp/Stack.antt =====
-- The requests that sel4osapi_udp_stack_thread of src/udp.c serves. What the other libraries hand
-- out are lists: `pcbs` of udp_new, `cap_slots` of vka_cspace_alloc, `mutexes` of
-- sel4osapi_mutex_create and `msg_blocks` of malloc; an empty list is the failure that the code asserts
-- against. The threads of the sockets are those of Thread, whose endpoints serve the sockets as well. A
-- request is served as a whole, and the mutex of an interface is free when the stack locks it.
pub mod Requests
pub mod Examples
use libsel4osapi.Prelude.{
  ℕ, zero, suc, ◌+◌, ◌%◌, ◌^◌, Bool, true, false, not, ◌||◌, Option, none, some, List, [], ◌∷◌, leb,
  ltb, ◌++◌, length, take, drop, ◌==◌, if◌then◌else◌,
}
use libsel4osapi.Run.{
  Run, ok, fail, assert_failed, bad_pointer, Cmd, pure, stop, ◌>>=◌, ◌>>◌, check, need,
}
use libsel4osapi.LinkedList.{Ptr, null}
use libsel4osapi.Pool.View
use libsel4osapi.Pool.View.{Slot, View, value_at}
use libsel4osapi.Pool.{Block}
use libsel4osapi.Pool.New.{new_view}
use libsel4osapi.Buffer.{Bytes}
use libsel4osapi.Thread.{ThreadInfo, Threads, thread_create, thread_start}
use libsel4osapi.Udp.Receive.{Message}

-- The routines of the threads of a socket, sel4osapi_udp_socket_tx_thread and
-- sel4osapi_udp_socket_rx_thread.
pub data SocketRoutine : Type 0 where
  tx_routine rx_routine : SocketRoutine

-- The routines that have been entered, with their arguments.
abbrev pub Entries : Type 0
Entries = List (SocketRoutine × Ptr)

abbrev pub enter : SocketRoutine → ThreadInfo → Entries → Entries
enter r info w = w ++ (r, info.arg) ∷ []

-- sel4osapi_udp_socket_server_t; `msgs` is none where it is NULL.
pub record SocketServer : Type 0 where
  pub iface : Ptr
  pub client : Ptr
  pub udp_pcb : Ptr
  pub id : ℕ
  pub addr : ℕ
  pub port : ℕ
  pub aep_rx_data : ℕ
  pub ep_rx_ready : ℕ
  pub ep_tx_ready : ℕ
  pub msgs : Option (View Message)
  pub msgs_mutex : Ptr
  pub tx_thread : Ptr
  pub rx_thread : Ptr

-- A client of the IPC server, and an interface with the addresses of its virtual interfaces.
pub record ClientRef : Type 0 where
  pub el : Ptr
  pub id : ℕ

pub record Iface : Type 0 where
  pub el : Ptr
  pub vfaces : List ℕ

-- The names that snprintf makes of the threads of a socket, the priority of the stack thread, the bound
-- on the messages of a socket, and whether lwIP binds a socket.
pub record StackConfig : Type 0 where
  pub tx_name : ℕ → Bytes
  pub rx_name : ℕ → Bytes
  pub priority : ℕ
  pub max_msgs : ℕ
  pub udp_bind : SocketServer → Bool

-- sel4osapi_udpstack_t with what the thread reads of the system, and its local variables, which keep
-- their values from one request to the next. `receivers` are the calls of lwIP's udp_recv: the PCB, and
-- the socket whose packets udprecv takes in from then on.
pub record Stack : Type 0 where
  pub clients : List ClientRef
  pub ifaces : List Iface
  pub socket_servers : View SocketServer
  pub client : Ptr
  pub iface : Ptr
  pub socket_server : Ptr
  pub rx_ready_ep_mint : ℕ
  pub pcbs : List Ptr
  pub cap_slots : List ℕ
  pub mutexes : List Ptr
  pub msg_blocks : List (Block Message)
  pub threads : Threads Entries
  pub receivers : List (Ptr × Ptr)

-- The registers and the capability of a reply.
pub record StackReply : Type 0 where
  pub registers : List ℕ
  pub cap : Option ℕ

abbrev pub op_create_socket : ℕ
op_create_socket = 300

abbrev pub op_bind_socket : ℕ
op_bind_socket = 301

abbrev pub op_connect_socket : ℕ
op_connect_socket = 302

-- The lookup loops: the variable after the loop, from its value `old` before it.
unfoldable pub find_client : (client_id : ℕ) → List ClientRef → (old : Ptr) → Ptr
find_client client_id [] old = old
find_client client_id (c ∷ cs) old =
    if c.id == client_id then c.el else find_client client_id cs old

abbrev pub serves : (addr : ℕ) → List ℕ → Bool
serves addr [] = false
serves addr (v ∷ vs) = (addr == 0 || v == addr) || serves addr vs

-- The inner `break` leaves the loop over the virtual interfaces only.
unfoldable pub find_iface : (addr : ℕ) → List Iface → (old : Ptr) → Ptr
find_iface addr [] old = old
find_iface addr (i ∷ is) old = find_iface addr is (if serves addr i.vfaces then i.el else old)

unfoldable pub find_socket : (socket_id : ℕ) → List (Slot SocketServer) → (old : Ptr) → Ptr
find_socket socket_id [] old = old
find_socket socket_id (s ∷ ss) old =
    if s.value.id == socket_id then s.el else find_socket socket_id ss old

take_pcb : List Ptr → Cmd Stack Ptr
take_pcb [] = stop assert_failed
take_pcb (p ∷ ps) = λ s. ok p (record s { pcbs = ps })

take_endpoint : List ℕ → Cmd Stack ℕ
take_endpoint [] = stop assert_failed
take_endpoint (e ∷ es) = λ s. ok e (record s { threads = record s.threads { endpoints = es } })

take_slot : List ℕ → Cmd Stack ℕ
take_slot [] = stop assert_failed
take_slot (c ∷ cs) = λ s. ok c (record s { cap_slots = cs })

take_mutex : List Ptr → Cmd Stack Ptr
take_mutex [] = stop assert_failed
take_mutex (m ∷ ms) = do λ s. ok tt (record s { mutexes = ms }); check (not (m == null)); pure m

-- simple_pool_new of the messages of a socket, with the caller's assertion.
new_msgs : (size : ℕ) → Cmd Stack (View Message)
new_msgs size = do
  check (ltb 0 size)
  λ s. check (leb size (length s.msg_blocks)) s
  λ s.
      ok (new_view size none none (take size s.msg_blocks))
        (record s { msg_blocks = drop size s.msg_blocks })

abbrev in_threads : {A : Type 0} → Stack → Run (Threads Entries) A → Run Stack A
in_threads s (ok a t) = ok a (record s { threads = t })
in_threads s (fail f) = fail f

-- sel4osapi_thread_create and sel4osapi_thread_start, with the caller's assertions.
pub create_socket_thread :
    (name : Bytes) → SocketRoutine → (arg : Ptr) → (priority : ℕ) → Cmd Stack Ptr
create_socket_thread name routine arg priority = do
  p ← λ s.
      in_threads s (thread_create (λ _ _. []) (some name) (enter routine) arg priority s.threads)
  check (not (p == null))
  pure p

pub start_socket_thread : Ptr → Cmd Stack (Unit {0})
start_socket_thread p = do error ← λ s. in_threads s (thread_start p s.threads); check (error == 0)

module _ (g : StackConfig) where
  -- What the thread does with the element that simple_pool_alloc returned. It replies before it starts the
  -- thread.
  pub fill_socket : (addr : ℕ) → Ptr × View SocketServer → Cmd Stack StackReply
  unfolding take_pcb take_endpoint take_slot create_socket_thread start_socket_thread
  fill_socket addr (p, v) = do
    check (not (p == null))
    pcb ← λ s. take_pcb s.pcbs s
    let id = View.get_current_size v
    ep_tx ← λ s. take_endpoint s.threads.endpoints s
    tx_thread ← create_socket_thread (g.tx_name id) tx_routine p g.priority
    λ s. ok tt (record s {
      socket_server = p;
      socket_servers = View.modify v p (λ _. record {
        iface = s.iface;
        client = s.client;
        udp_pcb = pcb;
        id = id;
        addr = addr;
        port = 0;
        aep_rx_data = 0;
        ep_rx_ready = 0;
        ep_tx_ready = ep_tx;
        msgs = none;
        msgs_mutex = null;
        tx_thread = tx_thread;
        rx_thread = null;
      });
    })
    mint ← λ s. take_slot s.cap_slots s
    start_socket_thread tx_thread
    pure (record { registers = 0 ∷ id ∷ []; cap = some mint })

  pub create_socket : (client_id addr : ℕ) → Cmd Stack StackReply
  unfolding find_client find_iface fill_socket
  create_socket client_id addr = do
    λ s. ok tt (record s { client = find_client client_id s.clients s.client })
    λ s. check (not (s.client == null)) s
    λ s. ok tt (record s { iface = find_iface addr s.ifaces s.iface })
    λ s. check (not (s.iface == null)) s
    λ s. fill_socket addr (View.alloc s.socket_servers) s

  pub bind_socket : (socket_id bind_port : ℕ) → Cmd Stack StackReply
  unfolding find_socket take_endpoint take_slot take_mutex new_msgs create_socket_thread
      start_socket_thread
  bind_socket socket_id bind_port = do
    λ s.
        ok tt
          (record s { socket_server = find_socket socket_id s.socket_servers.used s.socket_server })
    λ s. check (not (s.socket_server == null)) s
    v ← λ s. need (value_at s.socket_server s.socket_servers.used) s
    check (v.port == 0)
    msgs ← new_msgs g.max_msgs
    mutex ← λ s. take_mutex s.mutexes s
    rx_thread ← λ s. create_socket_thread (g.rx_name v.id) rx_routine s.socket_server g.priority s
    λ s. check (not (s.rx_ready_ep_mint == 0)) s
    ep_rx ← λ s. take_endpoint s.threads.endpoints s
    λ s. ok tt (record s {
      socket_servers = View.modify s.socket_servers s.socket_server (λ t. record t {
        msgs = some msgs;
        msgs_mutex = mutex;
        rx_thread = rx_thread;
        port = bind_port % 2 ^ 16;
        aep_rx_data = s.rx_ready_ep_mint;
        ep_rx_ready = ep_rx;
      });
    })
    mint ← λ s. take_slot s.cap_slots s
    w ← λ s. need (value_at s.socket_server s.socket_servers.used) s
    λ s. ok tt (record s { receivers = s.receivers ++ (w.udp_pcb, s.socket_server) ∷ [] })
    check (g.udp_bind w)
    start_socket_thread rx_thread
    receive ← λ s. take_slot s.cap_slots s
    λ s. ok tt (record s { rx_ready_ep_mint = receive })
    pure (record { registers = 0 ∷ []; cap = some mint })

  -- One round of the thread; it does not reply to an operation that it does not know. The variable
  -- `error` that a connect request is answered with is 0, since each request asserts so.
  unfoldable pub serve_request :
      (args_num extra_caps mr0 mr1 mr2 : ℕ) → Cmd Stack (Option StackReply)
  unfolding create_socket bind_socket
  serve_request args_num extra_caps mr0 mr1 mr2 = do
    check (leb 1 args_num)
    if mr0 == op_create_socket
        then (do check (args_num == 3); r ← create_socket mr1 mr2; pure (some r))
        else if mr0 == op_bind_socket
        then (do
          check (args_num == 3)
          check (extra_caps == 1)
          r ← bind_socket mr1 (mr2 % 2 ^ 16)
          pure (some r))
        else if mr0 == op_connect_socket
        then pure (some (record { registers = 0 ∷ []; cap = none }))
        else pure none
