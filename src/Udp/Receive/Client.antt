-- ===== src/Udp/Receive/Client.antt =====
-- sel4osapi_udp_recv of src/udp.c, with the round of the receive thread that its call starts.
use libsel4osapi.Prelude.{
  ℕ, suc, ◌+◌, ◌-◌, none, some, Option, List, [], ◌∷◌, ℤ, pos, negsuc, length, ltb, ◌==◌,
  if◌then◌else◌,
}
use libsel4osapi.Run.{Run, ok, fail, blocked, Cmd, pure, ◌>>=◌, ◌>>◌, check, need}
use libsel4osapi.LinkedList.{Ptr}
use libsel4osapi.Buffer.{Bytes, read_from}
use libsel4osapi.Udp.Receive.{Receiver, RxEvent, freed, notify, RxReply, rx_begin}
use libsel4osapi.Udp.Receive.Queue.{Datagram}

-- The signals sent to the client's notification `aep_rx_data`.
abbrev pub notifies : List RxEvent → ℕ
notifies [] = 0
notifies (freed p ∷ es) = notifies es
notifies (notify n ∷ es) = suc (notifies es)

-- The socket's server, its port, and the client's semaphore `rx_buf_avail`. The client has waited for
-- the first `heard` of the signals: a wait takes all signals that were sent before.
pub record Client : Type 0 where
  pub server : Receiver
  pub port : ℕ
  pub heard : ℕ
  pub rx_buf_avail : ℕ

-- What sel4osapi_udp_recv returns and writes through its pointers; `msg` is none where it writes no
-- message.
pub record Received : Type 0 where
  pub error : ℤ
  pub msg : Option Bytes
  pub len_out : ℕ
  pub ipaddr_out : ℕ
  pub port_out : ℕ

module _ (segments : Ptr → List Bytes) (not_enough_memory : ℤ) where
  abbrev with_server : Client → Run Receiver RxReply → Run Client RxReply
  with_server c (ok r s) = ok r (record c { server = s })
  with_server c (fail f) = fail f

  -- seL4_Call of `ep_rx_ready`.
  call_server : Cmd Client RxReply
  call_server c = with_server c (rx_begin segments c.server)

  -- The checks on the length of the message.
  pub read_reply : (max_len : ℕ) → RxReply → Cmd Client Received
  read_reply max_len r =
      if ltb max_len r.packet_len
      then pure (record {
        error = not_enough_memory;
        msg = none;
        len_out = r.packet_len;
        ipaddr_out = r.ipaddr;
        port_out = r.port;
      })
      else if r.packet_len == 0
      then pure (record {
        error = negsuc 0;
        msg = none;
        len_out = r.packet_len;
        ipaddr_out = r.ipaddr;
        port_out = r.port;
      })
      else (do
        bytes ← λ c. need (read_from c.server.rx_buf r.packet_len) c
        pure (record {
          error = pos 0;
          msg = some bytes;
          len_out = r.packet_len;
          ipaddr_out = r.ipaddr;
          port_out = r.port;
        }))

  -- seL4_Recv of `aep_rx_data`.
  pub wait_data : Cmd Client (Unit {0})
  wait_data c =
      let sent = notifies c.server.events in
      if ltb c.heard sent then ok tt (record c { heard = sent }) else fail blocked

  pub udp_recv : (max_len : ℕ) → Cmd Client Received
  unfolding read_reply wait_data
  udp_recv max_len = do
    check (ltb 0 max_len)
    λ c. check (ltb 0 c.port) c
    wait_data
    λ c.
        if c.rx_buf_avail == 0
        then fail blocked
        else ok tt (record c { rx_buf_avail = c.rx_buf_avail - 1 })
    r ← call_server
    res ← read_reply max_len r
    λ c. ok tt (record c { rx_buf_avail = c.rx_buf_avail + 1 })
    pure res

  -- The result for the datagrams that waited.
  abbrev pub result_of : (max_len : ℕ) → List Datagram → Received
  result_of max_len [] = record {
    error = negsuc 0;
    msg = none;
    len_out = 0;
    ipaddr_out = 0;
    port_out = 0;
  }
  result_of max_len (d ∷ ds) = record {
    error =
        if ltb max_len (length d.bytes)
        then not_enough_memory
        else if length d.bytes == 0
        then negsuc 0
        else pos 0;
    msg =
        if ltb max_len (length d.bytes)
        then none
        else if length d.bytes == 0
        then none
        else some d.bytes;
    len_out = length d.bytes;
    ipaddr_out = d.addr;
    port_out = d.port;
  }

  abbrev pub rest_of : List Datagram → List Datagram
  rest_of [] = []
  rest_of (d ∷ ds) = ds
