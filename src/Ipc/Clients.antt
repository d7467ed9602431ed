-- ===== src/Ipc/Clients.antt =====
-- The clients of src/ipc.c as the UDP stack of src/udp.c looks them up.
use libsel4osapi.Prelude.{ℕ, ◌≡◌, ◌≢◌, refl, true, none, List, [], ◌∷◌, ◌++◌, ==-ne, ==-self, arith}
use libsel4osapi.Run.{ok}
use libsel4osapi.LinkedList.{Ptr, null}
use libsel4osapi.LinkedList.Separate.{Separate}
use libsel4osapi.Pool.View
use libsel4osapi.Pool.View.{Slot, View}
use libsel4osapi.Pool.Shape.{els}
use libsel4osapi.Pool.Lookup.{put-middle}
use libsel4osapi.Ipc.{IpcClient, Ipc, new_pages, fill_client, create_client}
use libsel4osapi.Udp.Stack.{ClientRef, find_client}
use libsel4osapi.Udp.Stack.Requests.{unknown}

-- What the stack thread reads of the clients.
abbrev pub client_refs : List (Slot IpcClient) → List ClientRef
client_refs [] = []
client_refs (s ∷ ss) = record { el = s.el; id = s.value.id } ∷ client_refs ss

find_client-last :
    (id : ℕ) (ss : List (Slot IpcClient)) (s : Slot IpcClient) (old : Ptr)
    → unknown id (client_refs ss) ≡ true
    → s.value.id ≡ id
    → find_client id (client_refs (ss ++ s ∷ [])) old ≡ s.el
unfolding find_client
find_client-last id [] s old u e = rw (e, ==-self id) refl
find_client-last id (t ∷ ss) s old u e = ground (arith, find_client-last id ss s old)

module _ (rx_buf_size tx_buf_size : ℕ) (s : Ipc) (e : Slot IpcClient) (rest : List (Slot IpcClient))
    (rx tx : Ptr) (pages : List Ptr) (id : ℕ) where
  abbrev pub offered : Ipc
  offered = record s { clients = record s.clients { free = e ∷ rest }; pages = rx ∷ tx ∷ pages }

  abbrev pub registered : Slot IpcClient
  registered = record e {
    value = record {
      id = id;
      tx_buf_avail = 1;
      rx_buf_avail = 1;
      rx_buf = rx;
      rx_buf_size = rx_buf_size;
      tx_buf = tx;
      tx_buf_size = tx_buf_size;
    };
  }

  abbrev pub joined : Ipc
  joined = record s {
    clients = record s.clients { free = rest; used = s.clients.used ++ registered ∷ [] };
    pages = pages;
  }

  -- Where an element and two buffers are to be had, a new client stands behind the others, with both
  -- buffers available, and if no other client has its identifier, the UDP stack finds it by it.
  pub create_client-found :
      (old : Ptr)
      → s.clients.init_fn ≡ none
      → Separate (els (e ∷ rest)) (els s.clients.used)
      → rx ≢ null
      → tx ≢ null
      → unknown id (client_refs s.clients.used) ≡ true
      → (create_client rx_buf_size tx_buf_size id offered ≡ ok e.el joined)
        × (find_client id (client_refs joined.clients.used) old ≡ e.el)
  unfolding create_client fill_client new_pages View.alloc View.modify
  create_client-found old n d r t u = (
    rw
        (
          ==-ne e.el null d.left.0,
          ==-ne rx null r,
          ==-ne tx null t,
          n,
          put-middle (λ _. registered.value) s.clients.used [] e d.apart.0 refl,
        )
        refl,
    find_client-last id s.clients.used registered old u refl,
  )
