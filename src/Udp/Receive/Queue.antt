-- ===== src/Udp/Receive/Queue.antt =====
-- What the pool `msgs` of a socket of src/udp.c holds: a queue of the datagrams that wait.
use libsel4osapi.Prelude.{
  ℕ, zero, suc, ◌+◌, ◌≤◌, ◌≡◌, refl, sym, ap, ◌∙◌, List, [], ◌∷◌, ◌++◌, append_assoc, arith, length,
  length-append, drop,
}
use libsel4osapi.Run.{ok}
use libsel4osapi.Buffer.{Bytes, length-drop, write_at-front, write_at-behind}
use libsel4osapi.Udp.Receive.{Receiver, copy_packet, put_rx}

abbrev pub flatten : List Bytes → Bytes
flatten [] = []
flatten (q ∷ qs) = q ++ flatten qs

-- What a client is to receive.
pub record Datagram : Type 0 where
  pub bytes : Bytes
  pub addr : ℕ
  pub port : ℕ

-- One memcpy behind the bytes `us` of the packet.
put_rx-append :
    (s : Receiver) (us rest q : Bytes)
    → s.rx_buf ≡ us ++ rest
    → length q ≤ length rest
    → put_rx (length us) q s ≡ ok tt (record s { rx_buf = us ++ (q ++ drop (length q) rest) })
unfolding put_rx
put_rx-append s us rest q e f = rw (e, write_at-behind us rest q, write_at-front rest q f)

drop-nil : (n : ℕ) → drop {A = ℕ} n [] ≡ []
drop-nil zero = refl
drop-nil (suc n) = refl

drop-sum : (n m : ℕ) (rest : Bytes) → drop (n + m) rest ≡ drop m (drop n rest)
drop-sum zero m rest = let e : 0 + m ≡ m = omega arith in ap (λ k. drop k rest) e
drop-sum (suc n) m [] = drop-nil (suc n + m) ∙ sym (drop-nil m)
drop-sum (suc n) m (b ∷ rest) =
    let e : suc n + m ≡ suc (n + m) = omega arith in
    ap (λ k. drop k (b ∷ rest)) e ∙ drop-sum n m rest

-- The loop copies the payloads one behind the other.
pub copy_packet-flatten :
    (qs : List Bytes) (s : Receiver) (us rest : Bytes)
    → length (flatten qs) ≤ length rest
    → copy_packet qs (length us) (record s { rx_buf = us ++ rest })
      ≡ ok
          (length us + length (flatten qs))
          (record s { rx_buf = us ++ (flatten qs ++ drop (length (flatten qs)) rest) })
unfolding copy_packet
copy_packet-flatten [] s us rest f = ap (λ n. ok n (record s { rx_buf = us ++ rest })) (omega arith)
copy_packet-flatten (q ∷ qs) s us rest f =
    let left = drop (length q) rest in
    let fits = length-append q (flatten qs) in
    rw
      (
        put_rx-append (record s { rx_buf = us ++ rest }) us rest q refl (omega arith),
        fits,
        drop-sum (length q) (length (flatten qs)) rest,
        append_assoc q (flatten qs),
      )
      (rw (length-append us q, append_assoc us q, append_assoc us q, sum (length us) (length q)) at
        (copy_packet-flatten qs s (us ++ q) left (omega (arith, length-drop (length q) rest))))
  where
    sum : (a b c : ℕ) → (a + b) + c ≡ a + (b + c)
    sum a b c = omega arith
