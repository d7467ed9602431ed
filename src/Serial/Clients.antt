-- ===== src/Serial/Clients.antt =====
-- The clients of src/io.c: each has its own identifier and its own element of the pool.
use libsel4osapi.Prelude.{
  add_one, ℕ, suc, ◌+◌, ◌≤◌, ◌≡◌, refl, subst, ◌∙◌, false, none, some, List, [], ◌∷◌, ◌++◌, length,
  length-append, arith, ◌==◌, ==-ne, ==-self,
}
use libsel4osapi.Run.{ok}
use libsel4osapi.LinkedList.{null}
use libsel4osapi.LinkedList.Separate.{Separate, Separate-shift}
use libsel4osapi.Pool.View
use libsel4osapi.Pool.View.{Slot, View, reset}
use libsel4osapi.Pool.Shape.{els, els-append}
use libsel4osapi.Pool.Lookup.{put-middle}
use libsel4osapi.Buffer.{Bytes}
use libsel4osapi.Serial.{SerialClient, Serial, find_client, create_client}

-- The identifiers of the clients are 1, 2 and so on.
abbrev pub Numbered : ℕ → List (Slot SerialClient) → Type 0
Numbered n [] = Unit
Numbered n (s ∷ ss) = (s.value.id ≡ suc n) × Numbered (suc n) ss

pub record IsSerial (s : Serial) : Type 0 where
  pub elements : Separate (els s.clients.free) (els s.clients.used)
  pub numbered : Numbered 0 s.clients.used

-- A number that is not past those of `ss` finds none of them.
find_client-later :
    (n k : ℕ) (ss vs : List (Slot SerialClient))
    → Numbered n ss
    → suc (n + length ss) ≤ k
    → find_client k (ss ++ vs) ≡ find_client k vs
unfolding find_client
find_client-later n k [] vs i f = refl
find_client-later n k (s ∷ ss) vs i f =
    let other : (s.value.id == k) ≡ false = let e = i.0 in ground arith in
    rw other (find_client-later (suc n) k ss vs i.1 (omega arith))

Numbered-split :
    (n : ℕ) (us vs : List (Slot SerialClient))
    → Numbered n (us ++ vs)
    → Numbered n us × Numbered (n + length us) vs
Numbered-split n [] vs i = let e : n ≡ n + 0 = omega arith in (tt, subst (λ k. Numbered k vs) e i)
Numbered-split n (u ∷ us) vs i =
    let (a, b) = Numbered-split (suc n) us vs i.1 in
    let e : suc n + length us ≡ n + suc (length us) = omega arith in
    ((i.0, a), subst (λ k. Numbered k vs) e b)

-- A client's own identifier finds it.
pub find_client-middle :
    (us vs : List (Slot SerialClient)) (s : Slot SerialClient)
    → Numbered 0 (us ++ s ∷ vs)
    → find_client s.value.id (us ++ s ∷ vs) ≡ some s
unfolding find_client
find_client-middle us vs s i =
    let (a, b) = Numbered-split 0 us (s ∷ vs) i in
    find_client-later 0 s.value.id us (s ∷ vs) a (omega (arith, b.0))
    ∙ (rw (==-self s.value.id) refl)

Numbered-snoc :
    (n : ℕ) (us : List (Slot SerialClient)) (s : Slot SerialClient)
    → Numbered n us
    → s.value.id ≡ suc (n + length us)
    → Numbered n (us ++ s ∷ [])
Numbered-snoc n [] s i e = (omega (arith, e), tt)
Numbered-snoc n (u ∷ us) s i e = (i.0, Numbered-snoc (suc n) us s i.1 (omega (arith, e)))

module _ (s : Serial) (e : Slot SerialClient) (rest : List (Slot SerialClient)) (page : Bytes)
    (buf_size : ℕ) where
  abbrev pub offered : Serial
  offered = record s { clients = record s.clients { free = e ∷ rest } }

  abbrev pub registered : Slot SerialClient
  registered = record e {
    value = record {
      id = suc (length s.clients.used);
      buf_avail = 1;
      buf = page;
      buf_size = buf_size;
      server_ep = s.server_ep;
    };
  }

  abbrev pub joined : Serial
  joined = record s {
    clients = record s.clients { free = rest; used = s.clients.used ++ registered ∷ [] };
  }

  -- Where an element is free, a new client gets the next number, a buffer that is available, and
  -- stands behind the others; the clients stay distinct.
  pub create_client-joined :
      s.clients.init_fn ≡ none
      → IsSerial offered
      → (create_client page buf_size offered ≡ ok e.el joined) × IsSerial joined
  unfolding create_client View.alloc View.modify View.get_current_size
  create_client-joined n i = (
    rw
        (
          ==-ne e.el null i.elements.left.0,
          n,
          length-append s.clients.used (e ∷ []),
          add_one (length s.clients.used),
          put-middle (λ _. registered.value) s.clients.used [] e i.elements.apart.0 refl,
        )
        refl,
    record {
      elements =
          rw (els-append s.clients.used (registered ∷ []))
            (Separate-shift e.el e.entry e.entry (els rest) (els s.clients.used) i.elements);
      numbered = Numbered-snoc 0 s.clients.used registered i.numbered (omega arith);
    },
  )
