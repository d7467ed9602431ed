-- ===== src/Udp/Receive.antt =====
-- The receive side of a socket of src/udp.c: udprecv, which lwIP calls with each packet, and
-- sel4osapi_udp_socket_rx_thread, whose round is two steps because its two critical sections on
-- `msgs_mutex` let udprecv run in between. lwIP's packets are a parameter: `segments p` are the
-- payloads of the chain of pbufs at `p`.
pub mod Queue
pub mod Order
pub mod Deliver
pub mod Fifo
pub mod Client
pub mod Examples
use libsel4osapi.Prelude.{
  ℕ, zero, suc, ◌+◌, ◌-◌, not, Option, none, some, List, [], ◌∷◌, ◌++◌, is_zero, ltb, leb, length,
  ◌==◌, if◌then◌else◌,
}
use libsel4osapi.Run.{
  ok, fail, assert_failed, bad_pointer, Cmd, pure, stop, ◌>>=◌, ◌>>◌, check, when, need,
}
use libsel4osapi.LinkedList.{Ptr, null}
use libsel4osapi.Pool.View
use libsel4osapi.Pool.View.{Slot, View, value_at}
use libsel4osapi.Buffer.{Bytes, write_at}

-- sel4osapi_udp_message_t
pub record Message : Type 0 where
  pub pbuf : Ptr
  pub addr : ℕ
  pub port : ℕ

-- A pbuf given back to lwIP, and a message sent to the client's notification.
pub data RxEvent : Type 0 where
  freed : Ptr → RxEvent
  notify : ℕ → RxEvent

-- The part of a sel4osapi_udp_socket_server_t and of its client that the receive side uses, with
-- the local variables `remaining_msgs` and `msg` of the receive thread.
pub record Receiver : Type 0 where
  pub msgs : View Message
  pub rx_buf : Bytes
  pub rx_buf_size : ℕ
  pub remaining_msgs : ℕ
  pub msg : Ptr
  pub events : List RxEvent

-- The message registers that the receive thread replies with.
pub record RxReply : Type 0 where
  pub packet_len : ℕ
  pub port : ℕ
  pub ipaddr : ℕ

pub raise : RxEvent → Cmd Receiver (Unit {0})
raise e s = ok tt (record s { events = s.events ++ e ∷ [] })

-- What udprecv does with the element that simple_pool_alloc returned.
pub store_message : (p : Ptr) (addr port : ℕ) → Ptr × View Message → Cmd Receiver (Unit {0})
unfolding raise
store_message p addr port (m, v) s =
    (if m == null then (do raise (freed p); raise (notify 1)) else raise (notify 1)) (record s {
      msgs =
          if m == null
          then v
          else View.modify v m (λ _. record { pbuf = p; addr = addr; port = port });
    })

pub udprecv : (p : Ptr) (addr port : ℕ) → Cmd Receiver (Unit {0})
unfolding store_message
udprecv p addr port s = store_message p addr port (View.alloc s.msgs) s

-- One memcpy into `rx_buf`.
pub put_rx : ℕ → Bytes → Cmd Receiver (Unit {0})
put_rx packet_len payload s =
    (do buf ← need (write_at s.rx_buf packet_len payload); λ t. ok tt (record t { rx_buf = buf })) s

-- The loop that copies a packet, and `packet_len` after it.
pub copy_packet : List Bytes → ℕ → Cmd Receiver ℕ
unfolding put_rx
copy_packet [] packet_len = pure packet_len
copy_packet (q ∷ qs) packet_len = do put_rx packet_len q; copy_packet qs (packet_len + length q)

-- The start of a round: the notification for the packets that are left.
pub notify_left : Cmd Receiver (Unit {0})
unfolding raise
notify_left s = when (ltb 0 s.remaining_msgs) (raise (notify 0)) s

module _ (segments : Ptr → List Bytes) where
  -- What the thread does with the head of `msgs->entries`, up to its reply.
  pub serve_message : List (Slot Message) → Cmd Receiver RxReply
  unfolding copy_packet
  serve_message [] = pure (record { packet_len = 0; port = 0; ipaddr = 0 })
  serve_message (e ∷ es) = do
    λ s. ok tt (record s { msg = e.el; remaining_msgs = View.get_current_size s.msgs })
    check (not (e.el == null))
    check (not (e.value.pbuf == null))
    packet_len ← copy_packet (segments e.value.pbuf) 0
    λ s. check (leb packet_len s.rx_buf_size) s
    λ s. ok tt (record s { remaining_msgs = s.remaining_msgs - 1 })
    pure (record { packet_len = packet_len; port = e.value.port; ipaddr = e.value.addr })

  pub rx_begin : Cmd Receiver RxReply
  unfolding notify_left serve_message
  rx_begin = do notify_left; λ s. serve_message s.msgs.used s

-- simple_pool_free of `msg`, asserted.
pub return_msg : Ptr → Message → Cmd Receiver (Unit {0})
return_msg p m s =
    (do
      let (error, v) = View.release s.msgs p m
      check (is_zero error)
      λ t. ok tt (record t { msgs = v; msg = null }))
      s

-- The rest of the round, behind the reply.
pub rx_end : Cmd Receiver (Unit {0})
unfolding raise return_msg
rx_end s =
    (if s.msg == null
        then pure tt
        else do m ← need (value_at s.msg s.msgs.used); raise (freed m.pbuf); return_msg s.msg m)
      s
