-- ===== src/Udp/Receive/Deliver.antt =====
-- A round of the receive thread of src/udp.c delivers the datagram that waits longest.
use libsel4osapi.Prelude.{
  ℕ, suc, ◌+◌, ◌-◌, ◌≤◌, ◌≡◌, refl, inl, inr, true, false, List, [], ◌∷◌, ◌++◌, arith, length,
  length-append, take, drop, take-append, ◌==◌, ==-ne, Bool-cases, leb, ltb,
}
use libsel4osapi.Run.{ok, Returns, returns}
use libsel4osapi.LinkedList.{Ptr, null}
use libsel4osapi.Pool.View
use libsel4osapi.Pool.View.{Slot, View, split_at, give_back, reset}
use libsel4osapi.Buffer.{Bytes, length-drop}
use libsel4osapi.Udp.Receive.{
  Message, Receiver, notify, RxReply, raise, copy_packet, notify_left, serve_message, rx_begin,
}
use libsel4osapi.Udp.Receive.Queue.{flatten, Datagram, copy_packet-flatten}
use libsel4osapi.Udp.Receive.Order.{waiting, pending, IsReceiver, with_queue}

module _ (segments : Ptr → List Bytes) where
  abbrev delivered : Receiver → Slot Message → List (Slot Message) → Receiver
  delivered s e es =
      let bytes = flatten (segments e.value.pbuf) in
      record (with_queue segments s s.msgs.free (e ∷ es)) {
        msg = e.el;
        remaining_msgs = length es;
        rx_buf = bytes ++ drop (length bytes) s.rx_buf;
      }

  abbrev reply_to : Slot Message → RxReply
  reply_to e = record {
    packet_len = length (flatten (segments e.value.pbuf));
    port = e.value.port;
    ipaddr = e.value.addr;
  }

  serve-head :
      (s : Receiver) (e : Slot Message) (es : List (Slot Message))
      → IsReceiver segments (with_queue segments s s.msgs.free (e ∷ es))
      → serve_message segments (e ∷ es) (with_queue segments s s.msgs.free (e ∷ es))
        ≡ ok (reply_to e) (delivered s e es)
  unfolding serve_message View.get_current_size
  serve-head s e es i =
      let fits : length (flatten (segments e.value.pbuf)) ≤ length s.rx_buf =
        omega (arith, i.size_eq, i.fits.1) in
      let test : leb (0 + length (flatten (segments e.value.pbuf))) s.rx_buf_size ≡ true =
        let f = i.fits.1 in ground arith in
      let s' : Receiver = record (with_queue segments s s.msgs.free (e ∷ es)) {
        msg = e.el;
        remaining_msgs = suc (length es);
      } in
      let bytes = flatten (segments e.value.pbuf) in
      let copied : copy_packet (segments e.value.pbuf) 0 s'
          ≡ ok (0 + length bytes) (record s' { rx_buf = bytes ++ drop (length bytes) s.rx_buf }) =
        copy_packet-flatten (segments e.value.pbuf) s' [] s.rx_buf fits in
      rw
        (
          ==-ne e.el null i.elements.right.0,
          ==-ne e.value.pbuf null i.fits.0,
          copied,
          test,
          zero_add (length bytes),
          pred (length es),
        )
        refl
    where
      zero_add : (n : ℕ) → 0 + n ≡ n
      zero_add n = omega arith

      pred : (n : ℕ) → suc n - 1 ≡ n
      pred n = omega arith

  -- What the thread replies with, and leaves in `rx_buf`, where `ds` wait: the first of them.
  abbrev pub IsDelivery : List Datagram → RxReply → Receiver → Type 0
  IsDelivery [] r s =
      (r ≡ record { packet_len = 0; port = 0; ipaddr = 0 }) × (pending segments s ≡ [])
  IsDelivery (d ∷ ds) r s =
      (take r.packet_len s.rx_buf ≡ d.bytes)
      × (r.packet_len ≡ length d.bytes)
      × (r.port ≡ d.port)
      × (r.ipaddr ≡ d.addr)
      × (pending segments s ≡ ds)

  serve-IsDelivery :
      (s : Receiver) (used : List (Slot Message))
      → IsReceiver segments (with_queue segments s s.msgs.free used)
      → s.msg ≡ null
      → Returns
          (λ r s'. IsReceiver segments s' × IsDelivery (waiting segments s.msg used) r s')
          (serve_message segments used (with_queue segments s s.msgs.free used))
  unfolding serve_message
  serve-IsDelivery s [] i n = returns (i, (refl, refl))
  serve-IsDelivery s (e ∷ es) i n =
      let bytes = flatten (segments e.value.pbuf) in
      let fits : length bytes ≤ length s.rx_buf = omega (arith, i.size_eq, i.fits.1) in
      let busy : (e.el == null) ≡ false = ==-ne e.el null i.elements.right.0 in
      rw (n, serve-head s e es i)
        (returns (
          record {
            elements = i.elements;
            init_eq = i.init_eq;
            compare_eq = i.compare_eq;
            size_eq = omega (
              arith,
              i.size_eq,
              length-append bytes (drop (length bytes) s.rx_buf),
              length-drop (length bytes) s.rx_buf fits,
            );
            fits = i.fits;
            head = inr refl;
          },
          (take-append bytes (drop (length bytes) s.rx_buf), refl, refl, refl, rw busy refl),
        ))

  -- A round of the receive thread up to its reply ends, and delivers the datagram that waits
  -- longest: the reply has its length, port and address, and `rx_buf` starts with its bytes. Where
  -- none waits the reply is zero.
  pub rx_begin-IsDelivery :
      (s : Receiver)
      → IsReceiver segments s
      → s.msg ≡ null
      → Returns
          (λ r s'. IsReceiver segments s' × IsDelivery (pending segments s) r s')
          (rx_begin segments s)
  unfolding rx_begin notify_left raise
  rx_begin-IsDelivery s i n = elim (Bool-cases (ltb 0 s.remaining_msgs)) [
    | inl left ↦ rw left (
        serve-IsDelivery (record s { events = s.events ++ notify 0 ∷ [] }) s.msgs.used
          (record {
            elements = i.elements;
            init_eq = i.init_eq;
            compare_eq = i.compare_eq;
            size_eq = i.size_eq;
            fits = i.fits;
            head = i.head;
          })
          n)
    | inr none_left ↦ rw none_left (serve-IsDelivery s s.msgs.used i n)
  ]
