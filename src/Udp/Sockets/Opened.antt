-- ===== src/Udp/Sockets/Opened.antt =====
-- What a process and the stack of src/udp.c agree on when the process has opened a socket.
use libsel4osapi.Prelude.{
  ℕ, suc, ◌≤◌, ◌<◌, ◌%◌, ◌^◌, ◌≡◌, ◌≢◌, refl, true, false, none, List, [], ◌∷◌, ◌++◌, length, arith,
  ltb, ◌==◌, ==-ne,
}
use libsel4osapi.Run.{ok}
use libsel4osapi.LinkedList.{Ptr, null}
use libsel4osapi.LinkedList.Chain.{has}
use libsel4osapi.LinkedList.Separate.{Separate}
use libsel4osapi.Pool.View
use libsel4osapi.Pool.View.{Slot, View, put}
use libsel4osapi.Pool.Shape.{els}
use libsel4osapi.Pool.Lookup.{value_at-middle, put-middle}
use libsel4osapi.Thread.{Thread}
use libsel4osapi.Udp.Stack.{
  Entries, SocketServer, StackConfig, Stack, find_client, find_iface, find_socket, serve_request,
}
use libsel4osapi.Udp.Stack.Requests.{
  prepared, with_socket, create_socket-added, with_server, bound, with_bound, bind_socket-bound,
}
use libsel4osapi.Udp.Sockets.{
  UdpSocket, World, take_slot, take_notification, set_socket, call_stack, open_socket,
  create_socket, bind,
}

module _ (g : StackConfig) (w : World) (c : Slot UdpSocket) (crest : List (Slot UdpSocket)) (tx : ℕ)
    (cslots : List ℕ) (s : Stack) (e : Slot SocketServer) (rest : List (Slot SocketServer))
    (addr : ℕ) (pcb : Ptr) (pcbs : List Ptr) (ep : ℕ) (slot : ℕ) (slots : List ℕ)
    (te : Slot (Thread Entries)) (trest : List (Slot (Thread Entries))) (tep : ℕ) (eps : List ℕ)
    (taep : ℕ) (taeps : List ℕ) (frame : Ptr) (frames : List Ptr) where
  -- The process and the stack before the call, both with a free element and what it takes.
  abbrev pub ready : World
  ready = record w {
    sockets = record w.sockets { free = c ∷ crest };
    slots = tx ∷ cslots;
    stack =
        prepared g s e rest addr pcb pcbs ep slot slots te trest tep eps taep taeps frame frames;
  }

  abbrev pub socket : Slot UdpSocket
  socket = record c {
    value = record {
      id = suc (length s.socket_servers.used);
      addr = addr;
      port = 0;
      ep_tx_ready = tx;
      ep_rx_ready = 0;
      aep_rx_data = 0;
    };
  }

  abbrev pub with_open : (client iface : Ptr) → World
  with_open client iface = record w {
    sockets = record w.sockets { free = crest; used = w.sockets.used ++ socket ∷ [] };
    slots = cslots;
    stack =
        with_socket g s e rest addr pcb pcbs ep slot slots te trest tep eps taep taeps frame frames
          client iface;
  }

  -- Where both have what it takes, the thread of the socket included, a process that the IPC server knows gets a socket behind its others,
  -- without a port, with the identifier that the stack has given to the socket that serves it.
  pub create_socket-opened :
      (client iface : Ptr)
      → w.sockets.init_fn ≡ none
      → Separate (els (c ∷ crest)) (els w.sockets.used)
      → tx ≢ 0
      → s.socket_servers.init_fn ≡ none
      → Separate (els (e ∷ rest)) (els s.socket_servers.used)
      → find_client w.client_id s.clients s.client ≡ client
      → client ≢ null
      → find_iface addr s.ifaces s.iface ≡ iface
      → iface ≢ null
      → s.threads.threads.init_fn ≡ none
      → Separate (els (te ∷ trest)) (els s.threads.threads.used)
      → length (g.tx_name (suc (length s.socket_servers.used))) < 40
      → create_socket g addr ready ≡ ok c.el (with_open client iface)
  unfolding create_socket open_socket call_stack take_slot set_socket View.alloc View.modify
      serve_request
  create_socket-opened client iface n d tx_ne n' d' f client_ne fi iface_ne n2 d2 short =
      let blank : ℕ → UdpSocket = λ ep_tx. record c.value {
        addr = addr;
        port = 0;
        ep_tx_ready = ep_tx;
        ep_rx_ready = 0;
        aep_rx_data = 0;
      } in
      rw
        (
          ==-ne c.el null d.left.0,
          n,
          ==-ne tx 0 tx_ne,
          put-middle (λ v. record v { addr = addr; port = 0; ep_rx_ready = 0; aep_rx_data = 0 })
              w.sockets.used [] c d.apart.0 refl,
          put-middle (λ v. record v { ep_tx_ready = tx }) w.sockets.used []
              (record c { value = blank c.value.ep_tx_ready }) d.apart.0 refl,
          create_socket-added g s e rest addr pcb pcbs ep slot slots te trest tep eps taep taeps
              frame frames w.client_id client iface n' d' f client_ne fi iface_ne n2 d2 short,
          put-middle (λ v. record v { id = suc (length s.socket_servers.used) }) w.sockets.used []
              (record c { value = blank tx }) d.apart.0 refl,
        )
        refl

module _ (g : StackConfig) (w : World) (us vs : List (Slot UdpSocket)) (k : Slot UdpSocket)
    (copy rx : ℕ) (cslots : List ℕ) (aep : ℕ) (aeps : List ℕ) (s : Stack)
    (us' vs' : List (Slot SocketServer)) (c : Slot SocketServer) (ep : ℕ) (mint receive : ℕ)
    (slots : List ℕ) (mutex : Ptr) (mutexes : List Ptr) (te : Slot (Thread Entries))
    (trest : List (Slot (Thread Entries))) (tep : ℕ) (eps : List ℕ) (taep : ℕ) (taeps : List ℕ)
    (frame : Ptr) (frames : List Ptr) where
  -- The socket of the process holds `v`, and that of the stack `v'`.
  abbrev pub unbound : World
  unbound = record w {
    sockets = record w.sockets { used = us ++ k ∷ vs };
    slots = copy ∷ rx ∷ cslots;
    notifications = aep ∷ aeps;
    stack =
        with_server g s us' vs' c ep mint receive slots mutex mutexes te trest tep eps taep taeps
          frame frames c.value;
  }

  abbrev pub bound_socket : ℕ → Slot UdpSocket
  bound_socket port = record k {
    value = record k.value { port = port; ep_rx_ready = rx; aep_rx_data = aep };
  }

  abbrev pub with_port : ℕ → World
  with_port port = record w {
    sockets = record w.sockets { used = us ++ bound_socket port ∷ vs };
    slots = cslots;
    notifications = aeps;
    stack =
        with_bound g s us' vs' c ep mint receive slots mutex mutexes te trest tep eps taep taeps
          frame frames port;
  }

  pub bind-with_port :
      (port : ℕ)
      → k.el ≢ null
      → has k.el (els us) ≡ false
      → has k.el (els vs) ≡ false
      → k.value.port ≡ 0
      → copy ≢ 0
      → rx ≢ 0
      → aep ≢ 0
      → 0 < port
      → port < 2 ^ 16
      → c.el ≢ null
      → has c.el (els us') ≡ false
      → has c.el (els vs') ≡ false
      → find_socket k.value.id (us' ++ c ∷ vs') s.socket_server ≡ c.el
      → c.value.port ≡ 0
      → s.rx_ready_ep_mint ≢ 0
      → g.udp_bind (
          bound g s us' vs' c ep mint receive slots mutex mutexes te trest tep eps taep taeps frame
            frames port)
        ≡ true
      → 0 < g.max_msgs
      → g.max_msgs ≤ length s.msg_blocks
      → mutex ≢ null
      → s.threads.threads.init_fn ≡ none
      → Separate (els (te ∷ trest)) (els s.threads.threads.used)
      → length (g.rx_name c.value.id) < 40
      → bind g k.el port unbound ≡ ok 0 (with_port port)
  unfolding bind call_stack take_slot take_notification set_socket View.modify serve_request
  bind-with_port port k_ne o o' p0 copy_ne rx_ne aep_ne some_port narrow c_ne q q' found p0'
        receive_ne binds some_msgs blocks mutex_ne n2 d2 short =
      let positive : ltb 0 port ≡ true = ground arith in
      let closed : (k.value.port == 0) ≡ true = ground arith in
      let small : port % 2 ^ 16 ≡ port = omega arith in
      let first : Slot UdpSocket = record k { value = record k.value { aep_rx_data = aep } } in
      rw
        (
          positive,
          ==-ne k.el null k_ne,
          value_at-middle us vs k o,
          closed,
          ==-ne aep 0 aep_ne,
          put-middle (λ v. record v { aep_rx_data = aep }) us vs k o o',
          ==-ne copy 0 copy_ne,
          ==-ne rx 0 rx_ne,
          put-middle (λ v. record v { ep_rx_ready = rx }) us vs first o o',
          small,
          bind_socket-bound g s us' vs' c ep mint receive slots mutex mutexes te trest tep eps taep
              taeps frame frames k.value.id port c_ne q q' found p0' narrow receive_ne binds
              some_msgs blocks mutex_ne n2 d2 short,
          put-middle (λ v. record v { port = port }) us vs
              (record first { value = record first.value { ep_rx_ready = rx } }) o o',
        )
        refl
