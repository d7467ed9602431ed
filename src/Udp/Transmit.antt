-- ===== src/Udp/Transmit.antt =====
-- The send side of a socket of src/udp.c: sel4osapi_udp_send and the round of
-- sel4osapi_udp_socket_tx_thread that it calls. lwIP is a parameter: whether pbuf_alloc gives a
-- packet of a length, and what udp_sendto returns.
pub mod Send
use libsel4osapi.Prelude.{
  ℕ, zero, suc, ◌+◌, ◌-◌, ◌%◌, ◌^◌, Bool, not, List, [], ◌∷◌, ◌++◌, ℤ, pos, negsuc, is_zero, ltb,
  leb, length, ◌==◌, if◌then◌else◌,
}
use libsel4osapi.Run.{ok, fail, bad_pointer, blocked, Cmd, pure, stop, ◌>>=◌, ◌>>◌, check, need}
use libsel4osapi.Buffer.{Bytes, write_at, read_from}

-- What is given to udp_sendto.
pub record Packet : Type 0 where
  pub payload : Bytes
  pub addr : ℕ
  pub port : ℕ

-- The fields of a sel4osapi_ipcclient_t that the send side uses, and the packets sent so far.
pub record Sender : Type 0 where
  pub tx_buf : Bytes
  pub tx_buf_size : ℕ
  pub tx_buf_avail : ℕ
  pub sent : List Packet

abbrev pub err_mem : ℤ
err_mem = negsuc 0

-- sel4osapi_semaphore_take and sel4osapi_semaphore_give of `tx_buf_avail`.
pub take_tx : Cmd Sender (Unit {0})
take_tx s =
    if s.tx_buf_avail == 0
    then fail blocked
    else ok tt (record s { tx_buf_avail = s.tx_buf_avail - 1 })

pub give_tx : Cmd Sender (Unit {0})
give_tx s = ok tt (record s { tx_buf_avail = s.tx_buf_avail + 1 })

-- memcpy of the client's message into `tx_buf`.
pub fill_tx : Bytes → ℕ → Cmd Sender (Unit {0})
fill_tx msg len s =
    (do
      bytes ← need (read_from msg len)
      buf ← need (write_at s.tx_buf 0 bytes)
      λ t. ok tt (record t { tx_buf = buf }))
      s

module _ (pbuf_alloc : ℕ → Bool) (udp_sendto : Packet → ℤ) where
  pub transmit : (len addr port : ℕ) → Cmd Sender ℤ
  transmit len addr port =
      if pbuf_alloc len
      then (do
        payload ← λ s. need (read_from s.tx_buf len) s
        let p : Packet = record { payload = payload; addr = addr; port = port }
        λ s. ok tt (record s { sent = s.sent ++ p ∷ [] })
        pure (udp_sendto p))
      else pure err_mem

  -- A round of the transmit thread: the register that it replies with.
  pub tx_round : (len addr port : ℕ) → Cmd Sender ℤ
  unfolding transmit
  tx_round len addr port = do
    lwerr ←
        λ s. transmit (if ltb s.tx_buf_size len then s.tx_buf_size else len) addr (port % 2 ^ 16) s
    pure (if not (is_zero lwerr) then lwerr else pos 0)

  pub udp_send : (msg : Bytes) (len addr port : ℕ) → Cmd Sender ℤ
  unfolding take_tx give_tx fill_tx tx_round
  udp_send msg len addr port = do
    λ s. check (ltb len s.tx_buf_size) s
    take_tx
    fill_tx msg len
    error ← tx_round len addr port
    give_tx
    pure error
