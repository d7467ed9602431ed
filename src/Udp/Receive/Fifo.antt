-- ===== src/Udp/Receive/Fifo.antt =====
-- The receive side of a socket of src/udp.c delivers the datagrams that it took in, in order.
use libsel4osapi.Prelude.{
  ℕ, ◌≤◌, ◌≡◌, ◌≢◌, refl, sym, ap, subst, ◌∙◌, inl, inr, true, false, List, [], ◌∷◌, ◌++◌,
  append_assoc, append-nil, arith, length, take, ◌==◌, ==-ne, ==-self, if◌then◌else◌,
}
use libsel4osapi.Run.{ok, Returns, returns, Returns-ok}
use libsel4osapi.LinkedList.{Ptr, null}
use libsel4osapi.LinkedList.Separate.{Separate-back}
use libsel4osapi.Pool.View
use libsel4osapi.Pool.View.{Slot, View, split_at, give_back, reset}
use libsel4osapi.Pool.Shape.{els, els-append}
use libsel4osapi.Buffer.{Bytes}
use libsel4osapi.Udp.Receive.{
  Message, Receiver, RxEvent, freed, RxReply, raise, udprecv, rx_begin, rx_end, return_msg,
}
use libsel4osapi.Udp.Receive.Queue.{flatten, Datagram}
use libsel4osapi.Udp.Receive.Order.{
  datagram, datagrams, waiting, pending, IsHead, IsReceiver, with_queue,
}
use libsel4osapi.Udp.Receive.Order.{offer, udprecv-pending}
use libsel4osapi.Udp.Receive.Deliver.{IsDelivery, rx_begin-IsDelivery}

module _ (segments : Ptr → List Bytes) where
  waiting-null : (es : List (Slot Message)) → waiting segments null es ≡ datagrams segments es
  waiting-null [] = refl
  waiting-null (e ∷ es) = refl

  IsHead-null : (es : List (Slot Message)) → IsHead segments null es
  IsHead-null [] = refl
  IsHead-null (e ∷ es) = inl refl

  -- The receiver that has replied with the head of its queue.
  abbrev replied : Receiver → Slot Message → List (Slot Message) → Receiver
  replied s e es = record (with_queue segments s s.msgs.free (e ∷ es)) { msg = e.el }

  abbrev ended : Receiver → Slot Message → List (Slot Message) → Receiver
  ended s e es = record (with_queue segments s (s.msgs.free ++ e ∷ []) es) {
    msg = null;
    events = s.events ++ freed e.value.pbuf ∷ [];
  }

  rx_end-head :
      (s : Receiver) (e : Slot Message) (es : List (Slot Message))
      → IsReceiver segments (replied s e es)
      → rx_end (replied s e es) ≡ ok tt (ended s e es)
  unfolding rx_end return_msg raise View.release split_at
  rx_end-head s e es i =
      rw (==-ne e.el null i.elements.right.0, ==-self e.el, i.compare_eq, ==-self e.el, i.init_eq)

  ended-IsReceiver :
      (s : Receiver) (e : Slot Message) (es : List (Slot Message))
      → IsReceiver segments (replied s e es)
      → IsReceiver segments (ended s e es)
  ended-IsReceiver s e es i = record {
    elements =
        rw (els-append s.msgs.free (e ∷ []))
          (Separate-back e.el e.entry e.entry (els s.msgs.free) [] (els es) i.elements);
    init_eq = i.init_eq;
    compare_eq = i.compare_eq;
    size_eq = i.size_eq;
    fits = i.fits.2;
    head = IsHead-null es;
  }

  -- Whether the round has a message to give back, and its packet.
  abbrev given_back : Ptr → List (Slot Message) → List RxEvent
  given_back msg [] = []
  given_back msg (e ∷ es) = if msg == null then [] else freed e.value.pbuf ∷ []

  IsEnded : Receiver → Receiver → Type 0
  IsEnded s s' =
      IsReceiver segments s'
      × (s'.msg ≡ null)
      × (pending segments s' ≡ pending segments s)
      × (s'.events ≡ s.events ++ given_back s.msg s.msgs.used)

  -- `msg` stands for the head of the queue.
  at_head :
      (s : Receiver) (e : Slot Message) (es : List (Slot Message))
      → IsReceiver segments (with_queue segments s s.msgs.free (e ∷ es))
      → IsReceiver segments (replied s e es)
  at_head s e es i = record {
    elements = i.elements;
    init_eq = i.init_eq;
    compare_eq = i.compare_eq;
    size_eq = i.size_eq;
    fits = i.fits;
    head = inr refl;
  }

  rx_end-IsEnded :
      (s : Receiver) (e : Slot Message) (es : List (Slot Message))
      → IsReceiver segments (replied s e es)
      → Returns (λ _ s'. IsEnded (replied s e es) s') (rx_end (replied s e es))
  unfolding IsEnded
  rx_end-IsEnded s e es i =
      let busy : (e.el == null) ≡ false = ==-ne e.el null i.elements.right.0 in
      rw (rx_end-head s e es i)
        (returns (ended-IsReceiver s e es i, refl, rw busy (waiting-null es), rw busy refl))

  rx_end_from :
      (s : Receiver) (used : List (Slot Message))
      → IsReceiver segments (with_queue segments s s.msgs.free used)
      → Returns
          (λ _ s'. IsEnded (with_queue segments s s.msgs.free used) s')
          (rx_end (with_queue segments s s.msgs.free used))
  unfolding IsEnded rx_end
  rx_end_from s [] i =
      let h = i.head in
      let idle : (s.msg == null) ≡ true = ground arith in
      rw idle (returns (i, h, refl, sym (append-nil s.events)))
  rx_end_from s (e ∷ es) i = elim i.head [
    | inl h ↦
        let idle : (s.msg == null) ≡ true = ground arith in
        rw idle (returns (i, h, rw idle refl, sym (append-nil s.events)))
    | inr h ↦
        subst
          (λ p.
            Returns
              (λ _ s'. IsEnded (record (with_queue segments s s.msgs.free (e ∷ es)) { msg = p }) s')
              (rx_end (record (with_queue segments s s.msgs.free (e ∷ es)) { msg = p })))
          (sym h) (rx_end-IsEnded s e es (at_head s e es i))
  ]

  -- The rest of the round ends: it gives the packet that has been replied with back to lwIP and its
  -- message to the pool, once, and keeps the datagrams that wait.
  pub rx_end-pending :
      (s : Receiver)
      → IsReceiver segments s
      → Returns
          (λ _ s'.
            IsReceiver segments s'
            × (s'.msg ≡ null)
            × (pending segments s' ≡ pending segments s)
            × (s'.events ≡ s.events ++ given_back s.msg s.msgs.used))
          (rx_end s)
  unfolding IsEnded
  rx_end-pending s i = rx_end_from s s.msgs.used i

  -- What a client finds when the reply comes: nothing where no datagram waited.
  abbrev pub delivery : List Datagram → RxReply → Receiver → List Datagram
  delivery [] r s = []
  delivery (d ∷ ds) r s =
      record { bytes = take r.packet_len s.rx_buf; addr = r.ipaddr; port = r.port } ∷ []

  -- The steps of one socket, to which packets come that fit its receive buffer: `xs` are the datagrams taken in since `s`, `ys` those delivered.
  pub data Trace (s : Receiver) : List Datagram → List Datagram → Receiver → Type 0 where
    start : Trace s [] [] s
    arrives :
        (xs ys : List Datagram) (t t' : Receiver) (p : Ptr) (addr port : ℕ)
        → Trace s xs ys t
        → p ≢ null
        → length (flatten (segments p)) ≤ t.rx_buf_size
        → udprecv p addr port t ≡ ok tt t'
        → Trace s
            (offer segments t.msgs.free
              (datagram segments (record { pbuf = p; addr = addr; port = port }))
              xs)
            ys
            t'
    begins :
        (xs ys : List Datagram) (t t' : Receiver) (r : RxReply)
        → Trace s xs ys t
        → t.msg ≡ null
        → rx_begin segments t ≡ ok r t'
        → Trace s xs (ys ++ delivery (pending segments t) r t') t'
    ends :
        (xs ys : List Datagram) (t t' : Receiver)
        → Trace s xs ys t
        → rx_end t ≡ ok tt t'
        → Trace s xs ys t'

  offer-append :
      (free : List (Slot Message)) (d : Datagram) (ys ds : List Datagram)
      → offer segments free d (ys ++ ds) ≡ ys ++ offer segments free d ds
  offer-append [] d ys ds = refl
  offer-append (f ∷ fs) d ys ds = append_assoc ys ds (d ∷ [])

  -- A delivery takes the first of the datagrams that wait.
  delivery-append :
      (ds : List Datagram) (r : RxReply) (s : Receiver)
      → IsDelivery segments ds r s
      → delivery ds r s ++ pending segments s ≡ ds
  delivery-append [] r s d = d.1
  delivery-append (d ∷ ds) r s (bytes_eq, len_eq, port_eq, addr_eq, rest) =
      rw (bytes_eq, port_eq, addr_eq, rest) refl

  -- Whatever the order in which packets that fit the receive buffer arrive and the client asks for them,
  -- those delivered are the first of those taken in, unchanged and in order, and the others wait.
  pub Trace-fifo :
      (s t : Receiver) (xs ys : List Datagram)
      → IsReceiver segments s
      → pending segments s ≡ []
      → Trace s xs ys t
      → IsReceiver segments t × (xs ≡ ys ++ pending segments t)
  Trace-fifo s t xs ys i e start = (i, sym e)
  Trace-fifo s t _ ys i e (arrives xs _ u _ p addr port tr n f ran) =
      let (iu, eq) = Trace-fifo s u xs ys i e tr in
      let (it, added, _) =
        Returns-ok (subst (Returns _) ran (udprecv-pending segments u p addr port iu n f)) in
      let d = datagram segments (record { pbuf = p; addr = addr; port = port }) in
      (
        it,
        ap (offer segments u.msgs.free d) eq
            ∙ offer-append u.msgs.free d ys (pending segments u)
            ∙ ap (λ ds. ys ++ ds) (sym added),
      )
  Trace-fifo s t xs _ i e (begins _ ys u _ r tr n ran) =
      let (iu, eq) = Trace-fifo s u xs ys i e tr in
      let (it, d) = Returns-ok (subst (Returns _) ran (rx_begin-IsDelivery segments u iu n)) in
      (
        it,
        eq
            ∙ ap (λ ds. ys ++ ds) (sym (delivery-append (pending segments u) r t d))
            ∙ sym (append_assoc ys (delivery (pending segments u) r t) (pending segments t)),
      )
  Trace-fifo s t xs ys i e (ends _ _ u _ tr ran) =
      let (iu, eq) = Trace-fifo s u xs ys i e tr in
      let (it, _, kept, _) = Returns-ok (subst (Returns _) ran (rx_end-pending u iu)) in
      (it, eq ∙ ap (λ ds. ys ++ ds) (sym kept))
