-- ===== src/Udp/Stack/Examples.antt =====
-- Requests to the UDP stack of src/udp.c.
use libsel4osapi.Prelude.{suc, ◌≢◌, true, false, ◌≡◌, refl, none, some, List, [], ◌∷◌, arith}
use libsel4osapi.Run.{ok}
use libsel4osapi.LinkedList.{Ptr, null, node}
use libsel4osapi.LinkedList.Separate.{Separate}
use libsel4osapi.Pool.View.{Slot}
use libsel4osapi.Pool.Shape.{els}
use libsel4osapi.Pool.{Block}
use libsel4osapi.Thread.{Thread, Threads}
use libsel4osapi.Udp.Receive.{Message}
use libsel4osapi.Udp.Stack.{
  Entries, tx_routine, enter, SocketServer, StackConfig, Stack, find_iface, find_socket,
  create_socket, bind_socket,
}
use libsel4osapi.Udp.Stack.Requests.{
  prepared, with_socket, create_socket-unknown, with_server, with_bound, bind_socket-bound,
}

abbrev socket : Slot SocketServer
socket = record {
  entry = 10;
  el = 11;
  value = record {
    iface = 40;
    client = 30;
    udp_pcb = 50;
    id = 1;
    addr = 9;
    port = 0;
    aep_rx_data = 0;
    ep_rx_ready = 0;
    ep_tx_ready = 60;
    msgs = none;
    msgs_mutex = 0;
    tx_thread = 0;
    rx_thread = 0;
  };
}

abbrev pub thread : (el : Ptr) → Slot (Thread Entries)
thread el = record {
  entry = suc el;
  el = el;
  value = record {
    local_endpoint = 0;
    thread_aep = 0;
    fault_endpoint = 0;
    thread_routine = enter tx_routine;
    info = record {
      tid = 0;
      name = [];
      arg = 0;
      tls = 0;
      active = 0;
      wait_aep = 0;
      priority = 0;
      ipc = 0;
      ipc_word = 0;
    };
    started = false;
    user_data = 0;
  };
}

abbrev pub threads : Threads Entries
threads = record {
  threads = record { size = 2; free = []; used = []; init_fn = none; compare_fn = none };
  pid = 0;
  fault_endpoint = 0;
  endpoints = [];
  notifications = [];
  frames = [];
  calls = [];
  world = [];
}

abbrev pub block : Ptr → Block Message
block el = record {
  el = el;
  entry = suc el;
  el_junk = record { pbuf = 0; addr = 0; port = 0 };
  entry_junk = node 0 0 0;
}

abbrev pub config : StackConfig
config = record {
  tx_name = λ id. 116 ∷ id ∷ [];
  rx_name = λ id. 114 ∷ id ∷ [];
  priority = 100;
  max_msgs = 2;
  udp_bind = λ v. true;
}

thread-Separate :
    (el : Ptr) → el ≢ 0 → Separate (els (thread el ∷ [])) (els {E = Thread Entries} [])
thread-Separate el ne = record { left = (ne, refl, tt); right = tt; apart = (refl, tt) }

-- The client 1 is at 30, and was that of the request before; the interface is at 40.
abbrev stack : List (Slot SocketServer) → Stack
stack used = record {
  clients = record { el = 30; id = 1 } ∷ [];
  ifaces = record { el = 40; vfaces = 9 ∷ [] } ∷ [];
  socket_servers = record { size = 1; free = []; used = used; init_fn = none; compare_fn = none };
  client = 30;
  iface = null;
  socket_server = null;
  rx_ready_ep_mint = 70;
  pcbs = [];
  cap_slots = [];
  mutexes = [];
  msg_blocks = block 501 ∷ block 503 ∷ [];
  threads = threads;
  receivers = [];
}

socket-Separate : Separate (els (socket ∷ [])) (els {E = SocketServer} [])
socket-Separate = record { left = (omega arith, refl, tt); right = tt; apart = (refl, tt) }

finds_iface : find_iface 9 (stack []).ifaces null ≡ 40
unfolding find_iface
finds_iface = refl

finds_socket : find_socket 1 (socket ∷ []) null ≡ 11
unfolding find_socket
finds_socket = refl

create_socket-unknown_example :
    create_socket config 5 9
      (prepared config (stack []) socket [] 9 51 [] 61 71 [] (thread 91) [] 62 [] 63 [] 4096 [])
    ≡ ok
        (record { registers = 0 ∷ 1 ∷ []; cap = some 71 })
        (with_socket config
          (stack [])
          socket
          []
          9
          51
          []
          61
          71
          []
          (thread 91)
          []
          62
          []
          63
          []
          4096
          []
          30
          40)
create_socket-unknown_example =
    create_socket-unknown config (stack []) socket [] 9 51 [] 61 71 [] (thread 91) [] 62 [] 63 []
      4096 [] 5 40 refl socket-Separate refl (omega arith) finds_iface (omega arith) refl
      (thread-Separate 91 (omega arith)) (omega arith)

bind_socket-bound_example :
    bind_socket config 1 80 (
      with_server config
        (stack (socket ∷ []))
        []
        []
        socket
        61
        71
        72
        []
        88
        []
        (thread 91)
        []
        62
        []
        63
        []
        4096
        []
        socket.value)
    ≡ ok
        (record { registers = 0 ∷ []; cap = some 71 })
        (with_bound config
          (stack (socket ∷ []))
          []
          []
          socket
          61
          71
          72
          []
          88
          []
          (thread 91)
          []
          62
          []
          63
          []
          4096
          []
          80)
bind_socket-bound_example =
    bind_socket-bound config (stack (socket ∷ [])) [] [] socket 61 71 72 [] 88 [] (thread 91) [] 62
      [] 63 [] 4096 [] 1 80 (omega arith) refl refl finds_socket refl (omega arith) (omega arith)
      refl (omega arith) (omega arith) (omega arith) refl (thread-Separate 91 (omega arith))
      (omega arith)
