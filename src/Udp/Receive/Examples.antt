-- ===== src/Udp/Receive/Examples.antt =====
-- Runs of the receive side of a socket of src/udp.c.
use libsel4osapi.Prelude.{◌≡◌, refl, none, List, [], ◌∷◌, ◌++◌, inr, arith}
use libsel4osapi.Run.{ok}
use libsel4osapi.LinkedList.{Ptr, null}
use libsel4osapi.Pool.View
use libsel4osapi.Pool.View.{Slot, View}
use libsel4osapi.Buffer.{Bytes, write_at}
use libsel4osapi.Udp.Receive.{
  Message, Receiver, notify, raise, store_message, udprecv, rx_begin, notify_left, serve_message,
  copy_packet, put_rx,
}
use libsel4osapi.Udp.Receive.Queue.{Datagram}
use libsel4osapi.Udp.Receive.Order.{datagram, pending, IsReceiver}
use libsel4osapi.Udp.Receive.Fifo.{start, arrives, begins, Trace-fifo}
use libsel4osapi.Udp.Receive.Client.{Client}

-- Each packet has two payloads.
abbrev payloads : Ptr → List Bytes
payloads p = (p ∷ []) ∷ (2 ∷ 3 ∷ []) ∷ []

abbrev receiver : (free used : List (Slot Message)) → Receiver
receiver free used = record {
  msgs = record { size = 2; free = free; used = used; init_fn = none; compare_fn = none };
  rx_buf = 0 ∷ 0 ∷ 0 ∷ 0 ∷ [];
  rx_buf_size = 4;
  remaining_msgs = 0;
  msg = null;
  events = [];
}

abbrev slot : Slot Message
slot = record { entry = 10; el = 11; value = record { pbuf = 5; addr = 6; port = 7 } }

abbrev waiting_one : Receiver
waiting_one = receiver [] (slot ∷ [])

abbrev idle : Receiver
idle = receiver (slot ∷ []) []

idle-IsReceiver : IsReceiver payloads idle
idle-IsReceiver = record {
  elements = record { left = (omega arith, refl, tt); right = tt; apart = (refl, tt) };
  init_eq = refl;
  compare_eq = refl;
  size_eq = refl;
  fits = tt;
  head = refl;
}

abbrev replied_one : Receiver
replied_one = record waiting_one { msg = 11 }

replied_one-IsReceiver : IsReceiver payloads replied_one
replied_one-IsReceiver = record {
  elements = record { left = tt; right = (omega arith, refl, tt); apart = tt };
  init_eq = refl;
  compare_eq = refl;
  size_eq = refl;
  fits = (omega arith, omega arith, tt);
  head = inr refl;
}

abbrev arrived : Receiver
arrived = record idle {
  msgs = record idle.msgs {
    free = [];
    used = record slot { value = record { pbuf = 8; addr = 6; port = 7 } } ∷ [];
  };
  events = notify 1 ∷ [];
}

arrives_run : udprecv 8 6 7 idle ≡ ok tt arrived
unfolding udprecv store_message raise View.alloc View.modify
arrives_run = refl

abbrev served : Receiver
served = record arrived { msg = 11; remaining_msgs = 0; rx_buf = 8 ∷ 2 ∷ 3 ∷ 0 ∷ [] }

begins_run : rx_begin payloads arrived ≡ ok (record { packet_len = 3; port = 7; ipaddr = 6 }) served
unfolding rx_begin notify_left serve_message copy_packet put_rx View.get_current_size write_at
begins_run = refl

abbrev packet_datagram : Datagram
packet_datagram = datagram payloads (record { pbuf = 8; addr = 6; port = 7 })

Trace-fifo_example :
    IsReceiver payloads served
    × (packet_datagram ∷ [] ≡ (packet_datagram ∷ []) ++ pending payloads served)
Trace-fifo_example =
    Trace-fifo payloads idle served (packet_datagram ∷ []) (packet_datagram ∷ []) idle-IsReceiver
      refl
      (begins (packet_datagram ∷ []) [] arrived served
        (record { packet_len = 3; port = 7; ipaddr = 6 })
        (arrives [] [] idle arrived 8 6 7 start (omega arith) (omega arith) arrives_run) refl
        begins_run)

abbrev client : Client
client = record {
  server = record waiting_one { events = notify 1 ∷ [] };
  port = 80;
  heard = 0;
  rx_buf_avail = 1;
}
