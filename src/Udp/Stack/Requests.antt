-- ===== src/Udp/Stack/Requests.antt =====
-- What the requests to the UDP stack of src/udp.c do to its sockets.
use libsel4osapi.Prelude.{
  ◌≤◌, ltb, leb, take, drop, add_one, ℕ, suc, ◌<◌, ◌%◌, ◌^◌, ◌≡◌, ◌≢◌, refl, Bool, true, false,
  none, some, List, [], ◌∷◌, ◌++◌, length, length-append, arith, ◌==◌, ==-ne, if◌then◌else◌,
}
use libsel4osapi.Run.{ok}
use libsel4osapi.LinkedList.{Ptr, null}
use libsel4osapi.LinkedList.Chain.{has}
use libsel4osapi.LinkedList.Separate.{Separate}
use libsel4osapi.Pool.View
use libsel4osapi.Pool.View.{Slot, View}
use libsel4osapi.Pool.Shape.{els}
use libsel4osapi.Pool.Lookup.{value_at-middle, put-middle}
use libsel4osapi.Pool.New.{new_view}
use libsel4osapi.Thread.{Thread, Threads}
use libsel4osapi.Thread.Lifecycle.{
  with_thread, created, grown, thread_create-created, thread_start-started,
}
use libsel4osapi.Thread.Lifecycle
use libsel4osapi.Udp.Stack.{
  Entries, tx_routine, rx_routine, enter, SocketServer, ClientRef, StackConfig, Stack, find_client,
  find_iface, find_socket, fill_socket, take_pcb, take_endpoint, take_slot, take_mutex, new_msgs,
  create_socket_thread, start_socket_thread, create_socket, bind_socket,
}

-- An unknown client leaves the variable as it was.
abbrev pub unknown : (client_id : ℕ) → List ClientRef → Bool
unknown client_id [] = true
unknown client_id (c ∷ cs) = if c.id == client_id then false else unknown client_id cs

find_client-unknown :
    (client_id : ℕ) (cs : List ClientRef) (old : Ptr)
    → unknown client_id cs ≡ true
    → find_client client_id cs old ≡ old
unfolding find_client
find_client-unknown client_id [] old u = refl
find_client-unknown client_id (c ∷ cs) old u = ground (arith, find_client-unknown client_id cs old)

module _ (g : StackConfig) (s : Stack) (e : Slot SocketServer) (rest : List (Slot SocketServer))
    (addr : ℕ) (pcb : Ptr) (pcbs : List Ptr) (ep : ℕ) (slot : ℕ) (slots : List ℕ)
    (te : Slot (Thread Entries)) (trest : List (Slot (Thread Entries))) (tep : ℕ) (eps : List ℕ)
    (aep : ℕ) (aeps : List ℕ) (frame : Ptr) (frames : List Ptr) where
  -- The stack before the request: an element is free for the socket and one for its thread, and the
  -- other libraries have what it takes.
  abbrev pub prepared : Stack
  prepared = record s {
    socket_servers = record s.socket_servers { free = e ∷ rest };
    pcbs = pcb ∷ pcbs;
    cap_slots = slot ∷ slots;
    threads = record (Lifecycle.prepared s.threads te trest tep eps aep aeps frame frames) {
      endpoints = ep ∷ tep ∷ eps;
    };
  }

  abbrev pub opened : (client iface : Ptr) → Slot SocketServer
  opened client iface = record e {
    value = record {
      iface = iface;
      client = client;
      udp_pcb = pcb;
      id = suc (length s.socket_servers.used);
      addr = addr;
      port = 0;
      aep_rx_data = 0;
      ep_rx_ready = 0;
      ep_tx_ready = ep;
      msgs = none;
      msgs_mutex = null;
      tx_thread = te.el;
      rx_thread = null;
    };
  }

  abbrev tx_thread : Slot (Thread Entries)
  tx_thread =
      created s.threads te trest tep eps aep aeps frame frames
        (g.tx_name (suc (length s.socket_servers.used))) (enter tx_routine) e.el g.priority

  -- The threads when that of the socket has been started.
  abbrev pub with_tx : Threads Entries
  with_tx =
      with_thread (grown s.threads te trest tep eps aep aeps frame frames) s.threads.threads.used []
        tx_thread (record tx_thread.value { started = true })

  abbrev pub with_socket : (client iface : Ptr) → Stack
  with_socket client iface = record s {
    socket_servers = record s.socket_servers {
      free = rest;
      used = s.socket_servers.used ++ opened client iface ∷ [];
    };
    client = client;
    iface = iface;
    socket_server = e.el;
    pcbs = pcbs;
    cap_slots = slots;
    threads = with_tx;
  }

  -- A request for a socket adds one behind the others, with the next identifier and without a port,
  -- for the client and the interface that the loops leave in their variables, starts its thread, and
  -- replies with the identifier and a capability for the new endpoint.
  pub create_socket-added :
      (client_id : ℕ) (client iface : Ptr)
      → s.socket_servers.init_fn ≡ none
      → Separate (els (e ∷ rest)) (els s.socket_servers.used)
      → find_client client_id s.clients s.client ≡ client
      → client ≢ null
      → find_iface addr s.ifaces s.iface ≡ iface
      → iface ≢ null
      → s.threads.threads.init_fn ≡ none
      → Separate (els (te ∷ trest)) (els s.threads.threads.used)
      → length (g.tx_name (suc (length s.socket_servers.used))) < 40
      → create_socket g client_id addr prepared
        ≡ ok
            (record { registers = 0 ∷ suc (length s.socket_servers.used) ∷ []; cap = some slot })
            (with_socket client iface)
  unfolding create_socket fill_socket take_pcb take_endpoint take_slot create_socket_thread
      start_socket_thread View.alloc View.modify View.get_current_size
  create_socket-added client_id client iface n d c c_ne i i_ne n' d' short =
      rw
        (
          c,
          ==-ne client null c_ne,
          i,
          ==-ne iface null i_ne,
          ==-ne e.el null d.left.0,
          n,
          length-append s.socket_servers.used (e ∷ []),
          add_one (length s.socket_servers.used),
          thread_create-created s.threads te trest tep eps aep aeps frame frames (λ _ _. [])
              (g.tx_name (suc (length s.socket_servers.used))) (enter tx_routine) e.el g.priority n'
              d' short,
          ==-ne te.el null d'.left.0,
          put-middle (λ _. (opened client iface).value) s.socket_servers.used [] e d.apart.0 refl,
          thread_start-started (grown s.threads te trest tep eps aep aeps frame frames)
              s.threads.threads.used [] tx_thread tx_thread.value d'.apart.0 refl,
        )
        refl

  -- A request of a client that the IPC server does not know opens a socket for the client of the
  -- request before it, where a socket can be opened and its thread created.
  pub create_socket-unknown :
      (client_id : ℕ) (iface : Ptr)
      → s.socket_servers.init_fn ≡ none
      → Separate (els (e ∷ rest)) (els s.socket_servers.used)
      → unknown client_id s.clients ≡ true
      → s.client ≢ null
      → find_iface addr s.ifaces s.iface ≡ iface
      → iface ≢ null
      → s.threads.threads.init_fn ≡ none
      → Separate (els (te ∷ trest)) (els s.threads.threads.used)
      → length (g.tx_name (suc (length s.socket_servers.used))) < 40
      → create_socket g client_id addr prepared
        ≡ ok
            (record { registers = 0 ∷ suc (length s.socket_servers.used) ∷ []; cap = some slot })
            (with_socket s.client iface)
  create_socket-unknown client_id iface n d u ne i i_ne n' d' short =
      create_socket-added client_id s.client iface n d
        (find_client-unknown client_id s.clients s.client u) ne i i_ne n' d' short

module _ (g : StackConfig) (s : Stack) (us vs : List (Slot SocketServer)) (c : Slot SocketServer)
    (ep : ℕ) (mint receive : ℕ) (slots : List ℕ) (mutex : Ptr) (mutexes : List Ptr)
    (te : Slot (Thread Entries)) (trest : List (Slot (Thread Entries))) (tep : ℕ) (eps : List ℕ)
    (aep : ℕ) (aeps : List ℕ) (frame : Ptr) (frames : List Ptr) where
  -- The stack before the request, with the socket as `v`; the thread takes its endpoint first.
  abbrev pub with_server : SocketServer → Stack
  with_server v = record s {
    socket_servers = record s.socket_servers { used = us ++ record c { value = v } ∷ vs };
    cap_slots = mint ∷ receive ∷ slots;
    mutexes = mutex ∷ mutexes;
    threads = Lifecycle.prepared s.threads te trest tep (ep ∷ eps) aep aeps frame frames;
  }

  -- The socket when it is bound.
  abbrev pub bound : ℕ → SocketServer
  bound port = record c.value {
    msgs = some (new_view g.max_msgs none none (take g.max_msgs s.msg_blocks));
    msgs_mutex = mutex;
    rx_thread = te.el;
    port = port;
    aep_rx_data = s.rx_ready_ep_mint;
    ep_rx_ready = ep;
  }

  abbrev rx_thread : Slot (Thread Entries)
  rx_thread =
      created s.threads te trest tep (ep ∷ eps) aep aeps frame frames (g.rx_name c.value.id)
        (enter rx_routine) c.el g.priority

  -- The threads when that of the socket has been started.
  abbrev pub with_rx : Threads Entries
  with_rx =
      record (with_thread (grown s.threads te trest tep (ep ∷ eps) aep aeps frame frames)
        s.threads.threads.used [] rx_thread (record rx_thread.value { started = true })) {
          endpoints = eps;
        }

  -- The stack after the request: lwIP passes the packets of the socket on, and the next notification
  -- will go to a new slot.
  abbrev pub with_bound : ℕ → Stack
  with_bound port = record (with_server (bound port)) {
    socket_server = c.el;
    rx_ready_ep_mint = receive;
    cap_slots = slots;
    mutexes = mutexes;
    msg_blocks = drop g.max_msgs s.msg_blocks;
    threads = with_rx;
    receivers = s.receivers ++ (c.value.udp_pcb, c.el) ∷ [];
  }

  -- A request to bind a socket without a port, where the stack has what it takes and lwIP binds it, changes
  -- that socket only: it gets the port, the notification that the request carried, a new endpoint, a pool
  -- and a mutex for its messages, and its second thread, which is started. The reply has a capability for
  -- the endpoint.
  pub bind_socket-bound :
      (socket_id port : ℕ)
      → c.el ≢ null
      → has c.el (els us) ≡ false
      → has c.el (els vs) ≡ false
      → find_socket socket_id (us ++ c ∷ vs) s.socket_server ≡ c.el
      → c.value.port ≡ 0
      → port < 2 ^ 16
      → s.rx_ready_ep_mint ≢ 0
      → g.udp_bind (bound port) ≡ true
      → 0 < g.max_msgs
      → g.max_msgs ≤ length s.msg_blocks
      → mutex ≢ null
      → s.threads.threads.init_fn ≡ none
      → Separate (els (te ∷ trest)) (els s.threads.threads.used)
      → length (g.rx_name c.value.id) < 40
      → bind_socket g socket_id port (with_server c.value)
        ≡ ok (record { registers = 0 ∷ []; cap = some mint }) (with_bound port)
  unfolding bind_socket take_endpoint take_slot take_mutex new_msgs create_socket_thread
      start_socket_thread View.modify
  bind_socket-bound socket_id port ne front back found unbound narrow mint_ne binds some_msgs blocks
        mutex_ne n d short =
      let unset : (c.value.port == 0) ≡ true = ground arith in
      let small : port % 2 ^ 16 ≡ port = omega arith in
      let positive : ltb 0 g.max_msgs ≡ true = ground arith in
      let enough : leb g.max_msgs (length s.msg_blocks) ≡ true = ground arith in
      rw
        (
          found,
          ==-ne c.el null ne,
          value_at-middle us vs c front,
          unset,
          positive,
          enough,
          ==-ne mutex null mutex_ne,
          thread_create-created s.threads te trest tep (ep ∷ eps) aep aeps frame frames (λ _ _. [])
              (g.rx_name c.value.id) (enter rx_routine) c.el g.priority n d short,
          ==-ne te.el null d.left.0,
          ==-ne s.rx_ready_ep_mint 0 mint_ne,
          small,
          put-middle
              (λ t. record t {
                msgs = some (new_view g.max_msgs none none (take g.max_msgs s.msg_blocks));
                msgs_mutex = mutex;
                rx_thread = te.el;
                port = port;
                aep_rx_data = s.rx_ready_ep_mint;
                ep_rx_ready = ep;
              })
              us vs c front back,
          value_at-middle us vs (record c { value = bound port }) front,
          binds,
          thread_start-started
              (record (grown s.threads te trest tep (ep ∷ eps) aep aeps frame frames) {
                endpoints = eps;
              })
              s.threads.threads.used [] rx_thread rx_thread.value d.apart.0 refl,
        )
        refl
