-- ===== src/Udp/Sockets/Agree.antt =====
-- Opening and binding a socket by the calls of src/udp.c: the process and the stack agree on it.
use libsel4osapi.Prelude.{
  ℕ, suc, ◌<◌, ◌≤◌, ◌^◌, ◌≡◌, ◌≢◌, refl, ap, subst, true, false, none, List, [], ◌∷◌, ◌++◌, length,
  length-append, arith, ltb, ◌==◌, ==-ne, ==-self,
}
use libsel4osapi.Run.{ok, and_then}
use libsel4osapi.LinkedList.{Ptr, null}
use libsel4osapi.LinkedList.Separate.{Separate, Separate-shift}
use libsel4osapi.Pool.View.{Slot}
use libsel4osapi.Pool.Shape.{els, els-append}
use libsel4osapi.Thread.{Thread}
use libsel4osapi.Udp.Stack.{
  Entries, SocketServer, StackConfig, Stack, find_client, find_iface, find_socket,
}
use libsel4osapi.Udp.Stack.Requests.{opened, with_socket, bound}
use libsel4osapi.Udp.Sockets.{UdpSocket, World, create_socket, bind, find_descriptor, sd_to_socket}
use libsel4osapi.Udp.Sockets.Opened.{ready, socket, create_socket-opened, with_port, bind-with_port}

-- All identifiers are at most `n`.
abbrev pub ServersUpTo : ℕ → List (Slot SocketServer) → Type 0
ServersUpTo n [] = Unit
ServersUpTo n (s ∷ ss) = (s.value.id ≤ n) × ServersUpTo n ss

abbrev pub SocketsUpTo : ℕ → List (Slot UdpSocket) → Type 0
SocketsUpTo n [] = Unit
SocketsUpTo n (s ∷ ss) = (s.value.id ≤ n) × SocketsUpTo n ss

-- A process and its stack between two calls: the elements of their pools are distinct, and no
-- identifier is past the number of the sockets that the stack serves.
pub record IsWorld (w : World) : Type 0 where
  pub sockets : Separate (els w.sockets.free) (els w.sockets.used)
  pub servers : Separate (els w.stack.socket_servers.free) (els w.stack.socket_servers.used)
  pub threads : Separate (els w.stack.threads.threads.free) (els w.stack.threads.threads.used)
  pub sockets_to : SocketsUpTo (length w.stack.socket_servers.used) w.sockets.used
  pub servers_to : ServersUpTo (length w.stack.socket_servers.used) w.stack.socket_servers.used
  pub sockets_init : w.sockets.init_fn ≡ none
  pub servers_init : w.stack.socket_servers.init_fn ≡ none
  pub threads_init : w.stack.threads.threads.init_fn ≡ none

find_socket-last :
    (n : ℕ) (ss : List (Slot SocketServer)) (s : Slot SocketServer) (old : Ptr)
    → ServersUpTo n ss
    → s.value.id ≡ suc n
    → find_socket (suc n) (ss ++ s ∷ []) old ≡ s.el
unfolding find_socket
find_socket-last n [] s old i e = rw (e, ==-self (suc n)) refl
find_socket-last n (t ∷ ss) s old i e =
    let other : (t.value.id == suc n) ≡ false = let l = i.0 in ground arith in
    rw other (find_socket-last n ss s old i.1 e)

find_descriptor-last :
    (n : ℕ) (ss : List (Slot UdpSocket)) (s : Slot UdpSocket)
    → SocketsUpTo n ss
    → s.value.id ≡ suc n
    → find_descriptor (suc n) (ss ++ s ∷ []) ≡ s.el
unfolding find_descriptor
find_descriptor-last n [] s i e = rw (e, ==-self (suc n)) refl
find_descriptor-last n (t ∷ ss) s i e =
    let other : (t.value.id == suc n) ≡ false = let l = i.0 in ground arith in
    rw other (find_descriptor-last n ss s i.1 e)

ServersUpTo-snoc :
    (n : ℕ) (ss : List (Slot SocketServer)) (s : Slot SocketServer)
    → ServersUpTo n ss
    → s.value.id ≤ suc n
    → ServersUpTo (suc n) (ss ++ s ∷ [])
ServersUpTo-snoc n [] s i le = (le, tt)
ServersUpTo-snoc n (t ∷ ss) s i le = (omega (arith, i.0), ServersUpTo-snoc n ss s i.1 le)

SocketsUpTo-snoc :
    (n : ℕ) (ss : List (Slot UdpSocket)) (s : Slot UdpSocket)
    → SocketsUpTo n ss
    → s.value.id ≤ suc n
    → SocketsUpTo (suc n) (ss ++ s ∷ [])
SocketsUpTo-snoc n [] s i le = (le, tt)
SocketsUpTo-snoc n (t ∷ ss) s i le = (omega (arith, i.0), SocketsUpTo-snoc n ss s i.1 le)

module _ (g : StackConfig) (w : World) (c : Slot UdpSocket) (crest : List (Slot UdpSocket))
    (tx copy rx : ℕ) (cslots : List ℕ) (aep : ℕ) (aeps : List ℕ) (s : Stack) (e : Slot SocketServer)
    (rest : List (Slot SocketServer)) (addr : ℕ) (pcb : Ptr) (pcbs : List Ptr) (ep ep2 : ℕ)
    (slot mint receive : ℕ) (slots : List ℕ) (mutex : Ptr) (mutexes : List Ptr)
    (te te2 : Slot (Thread Entries)) (trest : List (Slot (Thread Entries))) (tep tep2 : ℕ)
    (eps : List ℕ) (taep taep2 : ℕ) (taeps : List ℕ) (frame frame2 : Ptr) (frames : List Ptr)
    (client iface : Ptr) where
  abbrev s' : Stack
  s' = record s { mutexes = mutex ∷ mutexes }

  -- The process and the stack before the calls: the stack has an element for the socket and two for its
  -- threads.
  abbrev pub start : World
  start =
      ready g (record w { notifications = aep ∷ aeps }) c crest tx (copy ∷ rx ∷ cslots) s' e rest
        addr pcb pcbs ep slot (mint ∷ receive ∷ slots) te (te2 ∷ trest) tep (tep2 ∷ ep2 ∷ eps) taep
        (taep2 ∷ taeps) frame (frame2 ∷ frames)

  abbrev pub served : Stack
  served =
      with_socket g s' e rest addr pcb pcbs ep slot (mint ∷ receive ∷ slots) te (te2 ∷ trest) tep
        (tep2 ∷ ep2 ∷ eps) taep (taep2 ∷ taeps) frame (frame2 ∷ frames) client iface

  abbrev pub server : Slot SocketServer
  server =
      opened g s' e rest addr pcb pcbs ep slot (mint ∷ receive ∷ slots) te (te2 ∷ trest) tep
        (tep2 ∷ ep2 ∷ eps) taep (taep2 ∷ taeps) frame (frame2 ∷ frames) client iface

  abbrev pub new_socket : Slot UdpSocket
  new_socket =
      socket g w c crest tx (copy ∷ rx ∷ cslots) s' e rest addr pcb pcbs ep slot
        (mint ∷ receive ∷ slots) te (te2 ∷ trest) tep (tep2 ∷ ep2 ∷ eps) taep (taep2 ∷ taeps) frame
        (frame2 ∷ frames)

  -- The process and the stack after them.
  abbrev pub final : ℕ → World
  final port =
      with_port g (record w { sockets = record w.sockets { free = crest } }) w.sockets.used []
        new_socket copy rx cslots aep aeps served s.socket_servers.used [] server ep2 mint receive
        slots mutex mutexes te2 trest tep2 eps taep2 taeps frame2 frames port

  -- The socket of the stack when it is bound.
  abbrev pub bound_server : ℕ → SocketServer
  bound_server port =
      bound g served s.socket_servers.used [] server ep2 mint receive slots mutex mutexes te2 trest
        tep2 eps taep2 taeps frame2 frames port

  abbrev last_server : ℕ → Slot SocketServer
  last_server port = record server { value = bound_server port }

  abbrev last_socket : ℕ → Slot UdpSocket
  last_socket port = record new_socket {
    value = record new_socket.value { port = port; ep_rx_ready = rx; aep_rx_data = aep };
  }

  -- Opening a socket and binding it to a port, where the process and the stack have what it takes, the
  -- elements of two threads included, the names of the threads fit, the process is known, an interface has
  -- the address and lwIP binds the socket, succeeds: the new socket of the process has the identifier of the one that the stack
  -- serves, both have the port, the descriptor leads to the one and the stack finds the other, and
  -- elements and identifiers stay apart.
  pub open-bound :
      (port : ℕ)
      → IsWorld start
      → tx ≢ 0
      → copy ≢ 0
      → rx ≢ 0
      → aep ≢ 0
      → 0 < port
      → port < 2 ^ 16
      → find_client w.client_id s.clients s.client ≡ client
      → client ≢ null
      → find_iface addr s.ifaces s.iface ≡ iface
      → iface ≢ null
      → s.rx_ready_ep_mint ≢ 0
      → g.udp_bind (bound_server port) ≡ true
      → 0 < g.max_msgs
      → g.max_msgs ≤ length s.msg_blocks
      → mutex ≢ null
      → length (g.tx_name (suc (length s.socket_servers.used))) < 40
      → length (g.rx_name (suc (length s.socket_servers.used))) < 40
      → (and_then (create_socket g addr start) (λ p. bind g p port) ≡ ok 0 (final port))
        × (sd_to_socket (suc (length s.socket_servers.used)) (final port) ≡ ok c.el (final port))
        × (find_socket
              (suc (length s.socket_servers.used))
              (final port).stack.socket_servers.used
              null
            ≡ e.el)
        × IsWorld (final port)
  unfolding sd_to_socket
  open-bound port i tx_ne copy_ne rx_ne aep_ne some_port narrow f client_ne fi iface_ne receive_ne
        binds some_msgs blocks mutex_ne short short2 =
      (
        rw
            (create_socket-opened g (record w { notifications = aep ∷ aeps }) c crest tx
              (copy ∷ rx ∷ cslots) s' e rest addr pcb pcbs ep slot (mint ∷ receive ∷ slots) te
              (te2 ∷ trest) tep (tep2 ∷ ep2 ∷ eps) taep (taep2 ∷ taeps) frame (frame2 ∷ frames)
              client iface i.sockets_init i.sockets tx_ne i.servers_init i.servers f client_ne fi
              iface_ne i.threads_init i.threads short)
            (bind-with_port g (record w { sockets = record w.sockets { free = crest } })
              w.sockets.used [] new_socket copy rx cslots aep aeps served s.socket_servers.used []
              server ep2 mint receive slots mutex mutexes te2 trest tep2 eps taep2 taeps frame2
              frames port i.sockets.left.0 i.sockets.apart.0 refl refl copy_ne rx_ne aep_ne
              some_port narrow i.servers.left.0 i.servers.apart.0 refl
              (find_socket-last n s.socket_servers.used server e.el i.servers_to refl) refl
              receive_ne binds some_msgs blocks mutex_ne i.threads_init with_tx-Separate short2),
        rw
            (
              ltb_suc n,
              find_descriptor-last n w.sockets.used (last_socket port) i.sockets_to refl,
              ==-ne c.el null i.sockets.left.0,
            )
            (ap (λ p. ok p (final port))
              (find_descriptor-last n w.sockets.used (last_socket port) i.sockets_to refl)),
        find_socket-last _ s.socket_servers.used (last_server port) null i.servers_to refl,
        record {
          sockets =
              rw (els-append w.sockets.used (last_socket port ∷ []))
                (Separate-shift c.el c.entry c.entry (els crest) (els w.sockets.used) i.sockets);
          servers = rw (els-append s.socket_servers.used (last_server port ∷ [])) (
              Separate-shift e.el e.entry e.entry (els rest) (els s.socket_servers.used) i.servers);
          threads = rw (els-append served.threads.threads.used (_ ∷ [])) (
              Separate-shift te2.el te2.entry te2.entry (els trest)
                (els served.threads.threads.used) with_tx-Separate);
          sockets_to =
              to_next (λ k. SocketsUpTo k (final port).sockets.used)
                (SocketsUpTo-snoc n w.sockets.used _ i.sockets_to (omega arith));
          servers_to =
              to_next (λ k. ServersUpTo k (final port).stack.socket_servers.used)
                (ServersUpTo-snoc n s.socket_servers.used _ i.servers_to (omega arith));
          sockets_init = i.sockets_init;
          servers_init = i.servers_init;
          threads_init = i.threads_init;
        },
      )
    where
      n : ℕ
      n = length s.socket_servers.used

      with_tx-Separate : Separate (els (te2 ∷ trest)) (els served.threads.threads.used)
      with_tx-Separate = rw (els-append s.threads.threads.used (_ ∷ [])) (
          Separate-shift te.el te.entry te.entry (els (te2 ∷ trest)) (els s.threads.threads.used)
            i.threads)

      ltb_suc : (k : ℕ) → ltb 0 (suc k) ≡ true
      ltb_suc k = ground arith

      to_next :
          (P : ℕ → Type 0) → P (suc n) → P (length (s.socket_servers.used ++ last_server port ∷ []))
      to_next P =
          subst P (omega (arith, length-append s.socket_servers.used (last_server port ∷ [])))
