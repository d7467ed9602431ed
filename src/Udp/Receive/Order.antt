-- ===== src/Udp/Receive/Order.antt =====
-- The datagrams that wait in the receive side of a socket of src/udp.c, and what udprecv adds.
use libsel4osapi.Prelude.{
  ℕ, ◌≤◌, ◌≡◌, ◌≢◌, refl, ap, ◌⊎◌, inl, inr, none, List, [], ◌∷◌, ◌++◌, append_assoc, length, ◌==◌,
  ==-ne, if◌then◌else◌, Bool-cases,
}
use libsel4osapi.Run.{ok, Returns, returns}
use libsel4osapi.LinkedList.{Ptr, null}
use libsel4osapi.LinkedList.Separate.{Separate, Separate-shift}
use libsel4osapi.Pool.View
use libsel4osapi.Pool.View.{Slot, View, split_at, give_back, reset}
use libsel4osapi.Pool.Shape.{els, els-append}
use libsel4osapi.Pool.Lookup.{put-middle}
use libsel4osapi.Buffer.{Bytes}
use libsel4osapi.Udp.Receive.{
  Message, Receiver, RxEvent, freed, notify, raise, store_message, udprecv,
}
use libsel4osapi.Udp.Receive.Queue.{flatten, Datagram}

module _ (segments : Ptr → List Bytes) where
  abbrev pub datagram : Message → Datagram
  datagram m = record { bytes = flatten (segments m.pbuf); addr = m.addr; port = m.port }

  abbrev pub datagrams : List (Slot Message) → List Datagram
  datagrams [] = []
  datagrams (e ∷ es) = datagram e.value ∷ datagrams es

  -- The datagrams that have not been delivered: `msg` has been, if there is one.
  abbrev pub waiting : Ptr → List (Slot Message) → List Datagram
  waiting msg [] = []
  waiting msg (e ∷ es) = if msg == null then datagram e.value ∷ datagrams es else datagrams es

  abbrev pub pending : Receiver → List Datagram
  pending s = waiting s.msg s.msgs.used

  -- `msg` is NULL or the head of the queue.
  abbrev pub IsHead : Ptr → List (Slot Message) → Type 0
  IsHead msg [] = msg ≡ null
  IsHead msg (e ∷ es) = (msg ≡ null) ⊎ (msg ≡ e.el)

  -- Each message has a packet, and it fits the client's buffer.
  abbrev pub Fits : ℕ → List (Slot Message) → Type 0
  Fits size [] = Unit
  Fits size (e ∷ es) =
      (e.value.pbuf ≢ null) × (length (flatten (segments e.value.pbuf)) ≤ size) × Fits size es

  pub record IsReceiver (s : Receiver) : Type 0 where
    pub elements : Separate (els s.msgs.free) (els s.msgs.used)
    pub init_eq : s.msgs.init_fn ≡ none
    pub compare_eq : s.msgs.compare_fn ≡ none
    pub size_eq : length s.rx_buf ≡ s.rx_buf_size
    pub fits : Fits s.rx_buf_size s.msgs.used
    pub head : IsHead s.msg s.msgs.used

  -- Taken in where an element is free.
  abbrev pub offer : List (Slot Message) → Datagram → List Datagram → List Datagram
  offer [] d ds = ds
  offer (f ∷ fs) d ds = ds ++ d ∷ []

  abbrev pub offer_events : List (Slot Message) → Ptr → List RxEvent
  offer_events [] p = freed p ∷ notify 1 ∷ []
  offer_events (f ∷ fs) p = notify 1 ∷ []

  -- The receiver after a packet: a message goes behind the others.
  abbrev pub with_queue : Receiver → (free used : List (Slot Message)) → Receiver
  with_queue s free used = record s { msgs = record s.msgs { free = free; used = used } }

  datagrams-append :
      (xs ys : List (Slot Message)) → datagrams (xs ++ ys) ≡ datagrams xs ++ datagrams ys
  datagrams-append [] ys = refl
  datagrams-append (x ∷ xs) ys = ap (λ ds. datagram x.value ∷ ds) (datagrams-append xs ys)

  waiting-snoc :
      (msg : Ptr) (us : List (Slot Message)) (e : Slot Message)
      → IsHead msg us
      → waiting msg (us ++ e ∷ []) ≡ waiting msg us ++ datagram e.value ∷ []
  waiting-snoc msg [] e h = rw h refl
  waiting-snoc msg (u ∷ us) e h = elim (Bool-cases (msg == null)) [
    | inl z ↦ rw (z, datagrams-append us (e ∷ [])) refl
    | inr z ↦ rw (z, datagrams-append us (e ∷ [])) refl
  ]

  IsHead-snoc :
      (msg : Ptr) (us : List (Slot Message)) (e : Slot Message)
      → IsHead msg us
      → IsHead msg (us ++ e ∷ [])
  IsHead-snoc msg [] e h = inl h
  IsHead-snoc msg (u ∷ us) e h = h

  Fits-snoc :
      (size : ℕ) (us : List (Slot Message)) (e : Slot Message)
      → Fits size us
      → e.value.pbuf ≢ null
      → length (flatten (segments e.value.pbuf)) ≤ size
      → Fits size (us ++ e ∷ [])
  Fits-snoc size [] e f n l = (n, l, tt)
  Fits-snoc size (u ∷ us) e f n l = (f.0, f.1, Fits-snoc size us e f.2 n l)

  abbrev stored : Slot Message → (p : Ptr) (addr port : ℕ) → Slot Message
  stored e p addr port = record e { value = record { pbuf = p; addr = addr; port = port } }

  udprecv-taken :
      (s : Receiver) (e : Slot Message) (rest : List (Slot Message)) (p : Ptr) (addr port : ℕ)
      → IsReceiver (with_queue s (e ∷ rest) s.msgs.used)
      → udprecv p addr port (with_queue s (e ∷ rest) s.msgs.used)
        ≡ ok tt (record (with_queue s rest (s.msgs.used ++ stored e p addr port ∷ [])) {
          events = s.events ++ notify 1 ∷ [];
        })
  unfolding udprecv store_message raise View.alloc View.modify
  udprecv-taken s e rest p addr port i = rw (
    ==-ne e.el null i.elements.left.0,
    i.init_eq,
    put-middle (λ _. record { pbuf = p; addr = addr; port = port }) s.msgs.used [] e
        i.elements.apart.0 refl,
  )

  udprecv_from :
      (s : Receiver) (free : List (Slot Message)) (p : Ptr) (addr port : ℕ)
      → IsReceiver (with_queue s free s.msgs.used)
      → p ≢ null
      → length (flatten (segments p)) ≤ s.rx_buf_size
      → Returns
          (λ _ s'.
            IsReceiver s'
            × (pending s'
                ≡ offer free (datagram (record { pbuf = p; addr = addr; port = port })) (pending s))
            × (s'.events ≡ s.events ++ offer_events free p))
          (udprecv p addr port (with_queue s free s.msgs.used))
  unfolding udprecv store_message raise View.alloc View.modify
  udprecv_from s [] p addr port i n f = returns (
    record {
      elements = i.elements;
      init_eq = i.init_eq;
      compare_eq = i.compare_eq;
      size_eq = i.size_eq;
      fits = i.fits;
      head = i.head;
    },
    refl,
    append_assoc s.events (freed p ∷ []) (notify 1 ∷ []),
  )
  udprecv_from s (e ∷ rest) p addr port i n f =
      let e' = stored e p addr port in
      rw (udprecv-taken s e rest p addr port i) (
        returns (
          record {
            elements =
                rw (els-append s.msgs.used (e' ∷ []))
                  (Separate-shift e.el e.entry e.entry (els rest) (els s.msgs.used) i.elements);
            init_eq = i.init_eq;
            compare_eq = i.compare_eq;
            size_eq = i.size_eq;
            fits = Fits-snoc s.rx_buf_size s.msgs.used e' i.fits n f;
            head = IsHead-snoc s.msg s.msgs.used e' i.head;
          },
          waiting-snoc s.msg s.msgs.used e' i.head,
          refl,
        ))

  -- udprecv ends, and takes the packet in behind those that wait; where no message is free it gives
  -- the packet back to lwIP instead. It notifies the client in both cases.
  pub udprecv-pending :
      (s : Receiver) (p : Ptr) (addr port : ℕ)
      → IsReceiver s
      → p ≢ null
      → length (flatten (segments p)) ≤ s.rx_buf_size
      → Returns
          (λ _ s'.
            IsReceiver s'
            × (pending s'
                ≡ offer s.msgs.free
                    (datagram (record { pbuf = p; addr = addr; port = port }))
                    (pending s))
            × (s'.events ≡ s.events ++ offer_events s.msgs.free p))
          (udprecv p addr port s)
  udprecv-pending s p addr port i n f = udprecv_from s s.msgs.free p addr port i n f
