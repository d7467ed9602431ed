-- ===== src/Udp/Transmit/Send.antt =====
-- sel4osapi_udp_send passes the message on unchanged.
use libsel4osapi.Prelude.{
  ℕ, zero, suc, ◌+◌, ◌-◌, ◌≤◌, ◌<◌, ◌%◌, ◌^◌, ◌≡◌, refl, inl, inr, Bool, true, false, not, [], ◌∷◌,
  ◌++◌, ℤ, pos, negsuc, is_zero, ltb, leb, length, take, drop, ◌==◌, if◌then◌else◌, arith,
  Bool-cases,
}
use libsel4osapi.Run.{ok}
use libsel4osapi.Buffer.{Bytes, write_at-front, read_from-append, length-take}
use libsel4osapi.Udp.Transmit.{
  Packet, Sender, err_mem, take_tx, give_tx, fill_tx, transmit, tx_round, udp_send,
}

-- The buffer is at least as large as the thread takes it to be.
pub record IsSender (s : Sender) (msg : Bytes) (len : ℕ) : Type 0 where
  pub available : 0 < s.tx_buf_avail
  pub mapped : s.tx_buf_size ≤ length s.tx_buf
  pub shorter : len < s.tx_buf_size
  pub holds : len ≤ length msg

abbrev filled_with : Sender → Bytes → Sender
filled_with s bytes = record s { tx_buf = bytes ++ drop (length bytes) s.tx_buf }

fill_tx-take :
    (s : Sender) (msg : Bytes) (len : ℕ)
    → len ≤ length msg
    → len ≤ length s.tx_buf
    → fill_tx msg len s ≡ ok tt (filled_with s (take len msg))
unfolding fill_tx
fill_tx-take s msg len f g =
    let ok_read : leb len (length msg) ≡ true = ground arith in
    rw (ok_read, write_at-front s.tx_buf (take len msg) (omega (arith, length-take len msg f)))

module _ (pbuf_alloc : ℕ → Bool) (udp_sendto : Packet → ℤ) where
  settle : (e : ℤ) → (if not (is_zero e) then e else pos 0) ≡ e
  settle (pos zero) = refl
  settle (pos (suc n)) = refl
  settle (negsuc n) = refl

  tx_round-sent :
      (s : Sender) (bytes rest : Bytes) (len addr port : ℕ)
      → length bytes ≡ len
      → len < s.tx_buf_size
      → port < 2 ^ 16
      → s.tx_buf ≡ bytes ++ rest
      → let p : Packet = record { payload = bytes; addr = addr; port = port } in
        tx_round pbuf_alloc udp_sendto len addr port s ≡ (
          if pbuf_alloc len
          then ok (udp_sendto p) (record s { sent = s.sent ++ p ∷ [] })
          else ok err_mem s)
  unfolding tx_round transmit
  tx_round-sent s bytes rest len addr port l f g b =
      let whole : ltb s.tx_buf_size len ≡ false = ground arith in
      let narrow : port % 2 ^ 16 ≡ port = omega arith in
      elim (Bool-cases (pbuf_alloc len)) [
        | inl room ↦
            rw
              (
                whole,
                room,
                b,
                read_from-append bytes rest len l,
                narrow,
                settle (udp_sendto (record { payload = bytes; addr = addr; port = port })),
              )
              refl
        | inr full ↦ rw (whole, full) refl
      ]

  -- A message shorter than the buffer goes to lwIP whole, to the address and port given, and the
  -- call returns what udp_sendto returns; where lwIP has no packet it returns ERR_MEM and sends
  -- nothing. The buffer's semaphore is given back in both cases.
  pub udp_send-sent :
      (s : Sender) (msg : Bytes) (len addr port : ℕ)
      → IsSender s msg len
      → port < 2 ^ 16
      → let p : Packet = record { payload = take len msg; addr = addr; port = port } in
        let s' : Sender = filled_with s (take len msg) in
        udp_send pbuf_alloc udp_sendto msg len addr port s ≡ (
          if pbuf_alloc len
          then ok (udp_sendto p) (record s' { sent = s.sent ++ p ∷ [] })
          else ok err_mem s')
  unfolding udp_send take_tx give_tx tx_round transmit
  udp_send-sent s msg len addr port r f =
      let blocked_not : (s.tx_buf_avail == 0) ≡ false = let a = r.available in ground arith in
      let fits : ltb len s.tx_buf_size ≡ true = let a = r.shorter in ground arith in
      let given : s.tx_buf_avail - 1 + 1 ≡ s.tx_buf_avail = omega (arith, r.available) in
      let bytes = take len msg in
      let s' : Sender = filled_with (record s { tx_buf_avail = s.tx_buf_avail - 1 }) bytes in
      let round =
        tx_round-sent s' bytes (drop (length bytes) s.tx_buf) len addr port
          (length-take len msg r.holds) r.shorter f refl in
      let filled =
        fill_tx-take (record s { tx_buf_avail = s.tx_buf_avail - 1 }) msg len r.holds
          (omega (arith, r.shorter, r.mapped)) in
      elim (Bool-cases (pbuf_alloc len)) [
        | inl room ↦ rw (fits, blocked_not, filled, rw room at round, room, given) refl
        | inr full ↦ rw (fits, blocked_not, filled, rw full at round, full, given) refl
      ]
