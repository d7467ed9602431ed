-- ===== src/Udp/Examples.antt =====
-- A run of the send side of a socket of src/udp.c.
use libsel4osapi.Prelude.{ℕ, Bool, true, ◌≡◌, [], ◌∷◌, ℤ, pos, arith}
use libsel4osapi.Run.{ok}
use libsel4osapi.Udp.Transmit.{Packet, Sender, udp_send}
use libsel4osapi.Udp.Transmit.Send.{udp_send-sent}

abbrev sender : Sender
sender = record { tx_buf = 0 ∷ 0 ∷ 0 ∷ []; tx_buf_size = 3; tx_buf_avail = 1; sent = [] }

abbrev always : ℕ → Bool
always n = true

abbrev accepted : Packet → ℤ
accepted p = pos 0

udp_send-sent_example :
    udp_send always accepted (4 ∷ 5 ∷ 6 ∷ []) 2 9 80 sender
    ≡ ok (pos 0) (record sender {
      tx_buf = 4 ∷ 5 ∷ 0 ∷ [];
      sent = record { payload = 4 ∷ 5 ∷ []; addr = 9; port = 80 } ∷ [];
    })
udp_send-sent_example =
    udp_send-sent always accepted sender (4 ∷ 5 ∷ 6 ∷ []) 2 9 80
      (record {
        available = omega arith;
        mapped = omega arith;
        shorter = omega arith;
        holds = omega arith;
      })
      (omega arith)
