-- ===== src/Udp/Sockets/Examples.antt =====
-- A process that opens its first socket by the calls of src/udp.c and binds it to port 80.
use libsel4osapi.Prelude.{◌≡◌, refl, none, [], ◌∷◌, arith}
use libsel4osapi.Run.{ok, and_then}
use libsel4osapi.LinkedList.{null}
use libsel4osapi.Pool.View.{Slot}
use libsel4osapi.Udp.Stack.Examples.{thread, threads, block, config}
use libsel4osapi.Udp.Stack.{SocketServer, Stack, find_client, find_iface, find_socket}
use libsel4osapi.Udp.Sockets.{UdpSocket, World, create_socket, bind, sd_to_socket}
use libsel4osapi.Udp.Sockets.Agree.{IsWorld, start, final, open-bound}

abbrev server : Slot SocketServer
server = record {
  entry = 10;
  el = 11;
  value = record {
    iface = 0;
    client = 0;
    udp_pcb = 0;
    id = 0;
    addr = 0;
    port = 0;
    aep_rx_data = 0;
    ep_rx_ready = 0;
    ep_tx_ready = 0;
    msgs = none;
    msgs_mutex = 0;
    tx_thread = 0;
    rx_thread = 0;
  };
}

abbrev socket : Slot UdpSocket
socket = record {
  entry = 20;
  el = 21;
  value = record { id = 0; addr = 0; port = 0; ep_tx_ready = 0; ep_rx_ready = 0; aep_rx_data = 0 };
}

-- The client 1 is at 30, and the interface at 40.
abbrev stack : Stack
stack = record {
  clients = record { el = 30; id = 1 } ∷ [];
  ifaces = record { el = 40; vfaces = 9 ∷ [] } ∷ [];
  socket_servers = record { size = 1; free = []; used = []; init_fn = none; compare_fn = none };
  client = null;
  iface = null;
  socket_server = null;
  rx_ready_ep_mint = 70;
  pcbs = [];
  cap_slots = [];
  mutexes = [];
  msg_blocks = block 501 ∷ block 503 ∷ [];
  threads = threads;
  receivers = [];
}

abbrev process : World
process = record {
  client_id = 1;
  sockets = record { size = 1; free = []; used = []; init_fn = none; compare_fn = none };
  slots = [];
  notifications = [];
  stack = stack;
}

finds_client : find_client 1 stack.clients null ≡ 30
unfolding find_client
finds_client = refl

finds_iface : find_iface 9 stack.ifaces null ≡ 40
unfolding find_iface
finds_iface = refl

abbrev before : World
before =
    start config process socket [] 81 82 83 [] 84 [] stack server [] 9 51 [] 61 62 71 72 73 [] 88 []
      (thread 91) (thread 93) [] 64 65 [] 66 67 [] 4096 8192 [] 30 40

abbrev after : World
after =
    final config process socket [] 81 82 83 [] 84 [] stack server [] 9 51 [] 61 62 71 72 73 [] 88 []
      (thread 91) (thread 93) [] 64 65 [] 66 67 [] 4096 8192 [] 30 40 80

open-bound_example :
    (and_then (create_socket config 9 before) (λ p. bind config p 80) ≡ ok 0 after)
    × (sd_to_socket 1 after ≡ ok 21 after)
    × (find_socket 1 after.stack.socket_servers.used null ≡ 11)
    × IsWorld after
open-bound_example =
    open-bound config process socket [] 81 82 83 [] 84 [] stack server [] 9 51 [] 61 62 71 72 73 []
      88 [] (thread 91) (thread 93) [] 64 65 [] 66 67 [] 4096 8192 [] 30 40 80
      (record {
        sockets = record { left = (omega arith, refl, tt); right = tt; apart = (refl, tt) };
        servers = record { left = (omega arith, refl, tt); right = tt; apart = (refl, tt) };
        threads = record {
          left = (omega arith, refl, (omega arith, refl, tt));
          right = tt;
          apart = (refl, (refl, tt));
        };
        sockets_to = tt;
        servers_to = tt;
        sockets_init = refl;
        servers_init = refl;
        threads_init = refl;
      })
      (omega arith) (omega arith) (omega arith) (omega arith) (omega arith) (omega arith)
      finds_client (omega arith) finds_iface (omega arith) (omega arith) refl (omega arith)
      (omega arith) (omega arith) (omega arith) (omega arith)
