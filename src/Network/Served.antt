-- ===== src/Network/Served.antt =====
-- The interface that src/network.c creates, as the stack thread of src/udp.c looks it up.
use libsel4osapi.Prelude.{
  ℕ, suc, ◌<◌, ◌≡◌, ◌≢◌, refl, Bool, true, false, ◌||◌, none, List, [], ◌∷◌, ◌==◌, ==-ne, ==-self,
  ltb_of-lt, if◌then◌else◌, arith,
}
use libsel4osapi.Run.{Run, Cmd, Returns, returns, and_then, bind}
use libsel4osapi.LinkedList.{Ptr, null}
use libsel4osapi.Pool.{Block}
use libsel4osapi.Pool.New.{new_view, slots}
use libsel4osapi.Pool.View
use libsel4osapi.Pool.View.{Slot, View}
use libsel4osapi.Udp.Stack.{Iface, find_iface}
use libsel4osapi.Boot.{Routine, eth_irq_thread, Resources}
use libsel4osapi.Boot.Stocked.{
  more, Stocked, alloc_notification-Stocked, alloc_slot-Stocked, create_mutex-Stocked,
}
use libsel4osapi.Boot.Running.{IsThreads, create_thread-Stocked, start_thread-Stocked}
use libsel4osapi.Network.{
  Vface, Driver, Netiface, Netstack, net_vfaces_max, net_phys_ifaces, irq_name, in_resources,
  set_iface, add_vface, fill_interface, create_interface, network_initialize,
}

abbrev pub addresses : List (Slot Vface) → List ℕ
addresses [] = []
addresses (v ∷ vs) = v.value.ip_addr ∷ addresses vs

-- What the stack thread reads of the interfaces.
abbrev pub iface_refs : {D : Type 0} → List (Slot (Netiface D)) → List Iface
iface_refs [] = []
iface_refs (i ∷ is) = record { el = i.el; vfaces = addresses i.value.vfaces.used } ∷ iface_refs is

-- An operation on the resources leaves the rest of the stack.
pub on_resources-lift :
    {D A B : Type 0} {P : A → Resources → Type 0} {Q : B → Netstack D → Type 0}
    {r : Run Resources A} (s : Netstack D) (k : A → Cmd (Netstack D) B)
    → Returns P r
    → ((a : A) (r' : Resources) → P a r' → Returns Q (k a (record s { resources = r' })))
    → Returns Q (and_then (in_resources s r) k)
on_resources-lift s k (returns p) next = next _ _ p

pub on_resources-last :
    {D A : Type 0} {P : A → Resources → Type 0} {Q : A → Netstack D → Type 0} {r : Run Resources A}
    (s : Netstack D)
    → Returns P r
    → ((a : A) (r' : Resources) → P a r' → Q a (record s { resources = r' }))
    → Returns Q (in_resources s r)
on_resources-last s (returns p) next = returns (next _ _ p)

module _ {D : Type 0} (ib : Block (Netiface D)) (ibs : List (Block (Netiface D))) (vb : Block Vface)
    (vbs : List (Block Vface)) (driver : Driver D) (addr mask gw : ℕ) where
  -- The only virtual interface.
  abbrev pub vface : Slot Vface
  vface = record {
    entry = vb.entry;
    el = vb.el;
    value = record { ip_addr = addr; ip_mask = mask; ip_gw = gw; up = true };
  }

  -- The only interface, with its virtual interfaces.
  abbrev pub iface : (irq aep : ℕ) → (thread mutex : Ptr) → View Vface → Slot (Netiface D)
  iface irq aep thread mutex vfaces = record {
    entry = ib.entry;
    el = ib.el;
    value = record {
      driver = driver;
      irq = irq;
      irq_aep = aep;
      irq_thread = thread;
      mutex = mutex;
      acks = 0;
      vfaces = vfaces;
      last_checked_ip_t = 0;
      last_checked_arp_t = 0;
    };
  }

  abbrev pub with_vface : View Vface
  with_vface = record (new_view net_vfaces_max none none (vb ∷ vbs)) {
    free = slots none vbs;
    used = vface ∷ [];
  }

  abbrev pub with_iface : Slot (Netiface D) → View (Netiface D)
  with_iface i = record (new_view net_phys_ifaces none none (ib ∷ ibs)) {
    free = slots none ibs;
    used = i ∷ [];
  }

  -- The interface is created, and its thread, which has its routine, is not started.
  record IsCreated (s : Netstack D) (n m : ℕ) (hs : List (Ptr × Routine)) (ps : List Ptr) (q : Ptr)
      (s' : Netstack D) : Type 0 where
    irq : ℕ
    aep : ℕ
    thread : Ptr
    mutex : Ptr
    resources : Resources
    q_eq : q ≡ ib.el
    s_eq : s' ≡ record s {
      ifaces =
          with_iface (iface irq aep thread mutex (new_view net_vfaces_max none none (vb ∷ vbs)));
      resources = resources;
    }
    mutex_ne : mutex ≢ null
    stocked : Stocked n (IsThreads m ((thread, eth_irq_thread) ∷ hs) ps) resources

  -- The network with the interface, which lwIP uses by default, and whose thread is started with its
  -- routine next to the threads `hs` and `ps`. `n` of each resource and `m` elements for threads are left.
  pub record IsNetwork (n m : ℕ) (hs : List (Ptr × Routine)) (ps : List Ptr) (thread : Ptr)
      (s : Netstack D) : Type 0 where
    pub irq : ℕ
    pub aep : ℕ
    pub mutex : Ptr
    pub ifaces_eq : s.ifaces ≡ with_iface (iface irq aep thread mutex with_vface)
    pub default_eq : s.default_netif ≡ vb.el
    pub mutex_ne : mutex ≢ null
    pub stack_mutex_ne : s.mutex ≢ null
    pub stocked : Stocked n (IsThreads m ((thread, eth_irq_thread) ∷ hs) (thread ∷ ps)) s.resources

  create_interface-IsCreated :
      (get_irq_handler : ℕ → Bool) (priority n m : ℕ) (hs : List (Ptr × Routine)) (ps : List Ptr)
      (s : Netstack D)
      → ib.el ≢ null
      → 0 < driver.irq_num
      → get_irq_handler driver.irq_num ≡ true
      → Stocked (more 4 n) (IsThreads (suc m) hs ps) s.resources
      → Returns (IsCreated s n m hs ps) (
          create_interface get_irq_handler priority driver
            (vb ∷ vbs)
            (record s { ifaces = new_view net_phys_ifaces none none (ib ∷ ibs) }))
  unfolding create_interface fill_interface set_iface View.alloc View.modify
  create_interface-IsCreated get_irq_handler priority n m hs ps s ib_ne irq_ne gives st =
      let filled : Ptr → Ptr → ℕ → ℕ → Slot (Netiface D) = λ thread mutex irq aep.
        iface irq aep thread mutex (new_view net_vfaces_max none none (vb ∷ vbs)) in
      let at : Resources → Netstack D = λ r. record s {
        ifaces = with_iface (record { entry = ib.entry; el = ib.el; value = ib.el_junk });
        resources = r;
      } in
      rw (ltb_of-lt 0 driver.irq_num irq_ne, ==-ne ib.el null ib_ne)
        (on_resources-lift (at s.resources) _ (create_mutex-Stocked _ _ s.resources st)
          λ mutex r1 (mutex_ne, s1).
            on_resources-lift (at r1) _ (alloc_slot-Stocked _ _ r1 s1) λ irq r2 s2. rw gives (
              on_resources-lift (at r2) _ (alloc_notification-Stocked _ _ r2 s2) λ aep r3 s3.
                on_resources-lift (at r3) _
                  (create_thread-Stocked n m hs ps r3 irq_name eth_irq_thread ib.el priority
                    (omega arith) s3)
                  λ thread r4 s4. rw (==-self ib.el) (
                    returns (record {
                      irq = irq;
                      aep = aep;
                      thread = thread;
                      mutex = mutex;
                      resources = r4;
                      q_eq = refl;
                      s_eq = refl;
                      mutex_ne = mutex_ne;
                      stocked = s4;
                    }))))

  -- Where the other libraries have what it takes, initialising the network ends with the interface and
  -- its virtual interface, which is up, and the thread of the interface is started.
  pub network_initialize-IsNetwork :
      (get_irq_handler : ℕ → Bool) (netif_add : (addr mask gw : ℕ) → Bool) (priority n m : ℕ)
      (hs : List (Ptr × Routine)) (ps : List Ptr) (s : Netstack D)
      → ib.el ≢ null
      → vb.el ≢ null
      → 0 < driver.irq_num
      → get_irq_handler driver.irq_num ≡ true
      → netif_add addr mask gw ≡ true
      → Stocked (more 5 n) (IsThreads (suc m) hs ps) s.resources
      → Returns
          (λ error s'. (error ≡ 0) × ((thread : Ptr) × IsNetwork n m hs ps thread s'))
          (network_initialize get_irq_handler netif_add
            (ib ∷ ibs)
            (vb ∷ vbs)
            priority
            driver
            addr
            mask
            gw
            s)
  unfolding network_initialize add_vface set_iface View.alloc View.modify
  network_initialize-IsNetwork get_irq_handler netif_add priority n m hs ps s ib_ne vb_ne irq_ne
        gives adds st =
      on_resources-lift s _ (create_mutex-Stocked _ _ s.resources st) λ lock r1 (lock_ne, s1).
        bind
          (create_interface-IsCreated get_irq_handler priority n m hs ps
            (record s { resources = r1; mutex = lock }) ib_ne irq_ne gives s1)
          λ q s' f.
            let (t, at, _) = f.stocked.pool.held.0 in
            rw
              (
                f.q_eq,
                f.s_eq,
                ==-ne ib.el null ib_ne,
                ==-self ib.el,
                ==-ne vb.el null vb_ne,
                adds,
                ==-self ib.el,
                ==-self vb.el,
                ==-self ib.el,
              )
              (on_resources-lift
                (record s {
                  mutex = lock;
                  ifaces = with_iface (iface f.irq f.aep f.thread f.mutex with_vface);
                  default_netif = vb.el;
                  resources = f.resources;
                })
                _ (start_thread-Stocked n m _ ps f.resources f.thread t at f.stocked)
                λ _ r3 s3. returns (
                  refl,
                  (
                    f.thread,
                    record {
                      irq = f.irq;
                      aep = f.aep;
                      mutex = f.mutex;
                      ifaces_eq = refl;
                      default_eq = refl;
                      mutex_ne = f.mutex_ne;
                      stack_mutex_ne = lock_ne;
                      stocked = s3;
                    },
                  ),
                ))

  find_iface-only :
      (i : Slot (Netiface D)) (wanted : ℕ) (old : Ptr)
      → i.value.vfaces ≡ with_vface
      → find_iface wanted (iface_refs (i ∷ [])) old
        ≡ (if (wanted == 0) || (addr == wanted) then i.el else old)
  unfolding find_iface
  find_iface-only i wanted old e = rw e (either ((wanted == 0) || (addr == wanted)))
    where
      either : (b : Bool) → (if b || false then i.el else old) ≡ (if b then i.el else old)
      either true = refl
      either false = refl

  -- The stack thread finds the interface by the default address and by 0, and by no other address.
  pub IsNetwork-found :
      (n m : ℕ) (hs : List (Ptr × Routine)) (ps : List Ptr) (thread : Ptr) (s : Netstack D)
      (wanted : ℕ) (old : Ptr)
      → IsNetwork n m hs ps thread s
      → find_iface wanted (iface_refs s.ifaces.used) old
        ≡ (if (wanted == 0) || (addr == wanted) then ib.el else old)
  IsNetwork-found n m hs ps thread s wanted old i =
      rw i.ifaces_eq (find_iface-only (iface i.irq i.aep thread i.mutex with_vface) wanted old refl)
