-- ===== src/Boot/Root/Networked.antt =====
-- The network of the root task when sel4osapi_system_initialize_network of src/system.c has started it.
use libsel4osapi.Prelude.{ℕ, suc, ◌<◌, ◌≡◌, ◌≢◌, Bool, true, ◌||◌, List, ◌∷◌, ◌==◌, if◌then◌else◌}
use libsel4osapi.Run.{Returns, bind}
use libsel4osapi.LinkedList.{Ptr, null}
use libsel4osapi.Pool.{Block}
use libsel4osapi.Udp.Stack.{SocketServer, find_iface}
use libsel4osapi.Network.{Vface, Driver, Netiface, Netstack}
use libsel4osapi.Network.Served.{
  iface_refs, iface, with_vface, with_iface, on_resources-last, IsNetwork-found,
  network_initialize-IsNetwork,
}
use libsel4osapi.Boot.{Routine, udp_stack_thread, eth_irq_thread, Machine}
use libsel4osapi.Boot.Services.{UdpStack}
use libsel4osapi.Boot.Services.Stack.{IsVacant, udp_initialize-Stocked}
use libsel4osapi.Boot.Stocked.{more, Stocked}
use libsel4osapi.Boot.Running.{IsThreads}
use libsel4osapi.Boot.Root.{initialize_network}

module _ {D : Type 0} (ib : Block (Netiface D)) (ibs : List (Block (Netiface D))) (vb : Block Vface)
    (vbs : List (Block Vface)) (driver : Driver D) (addr mask gw : ℕ) where
  -- The network has one interface, whose thread is `thread`, with one virtual interface, which lwIP uses by
  -- default, and the UDP stack has no sockets; the two threads are started with their routines, next to
  -- the threads `ps` that are started and `hs` that have theirs. `n` of each resource and `m` elements for
  -- threads are left.
  pub record IsServing (max_sockets : ℕ) (blocks : List (Block SocketServer))
      (hs : List (Ptr × Routine)) (ps : List Ptr) (n m : ℕ) (udp : UdpStack) (s : Netstack D)
      : Type 0 where
    pub irq : ℕ
    pub aep : ℕ
    pub thread : Ptr
    pub mutex : Ptr
    pub ifaces_eq :
        s.ifaces
        ≡ with_iface ib ibs vb vbs driver addr mask gw (
            iface ib ibs vb vbs driver addr mask gw irq aep thread mutex
              (with_vface ib ibs vb vbs driver addr mask gw))
    pub default_eq : s.default_netif ≡ vb.el
    pub mutex_ne : mutex ≢ null
    pub stack_mutex_ne : s.mutex ≢ null
    pub vacant : IsVacant max_sockets blocks udp
    pub stocked :
        Stocked n
          (IsThreads m
            ((udp.server_thread, udp_stack_thread) ∷ (thread, eth_irq_thread) ∷ hs)
            (udp.server_thread ∷ thread ∷ ps))
          s.resources

  -- Where the other libraries have what it takes and the root task has 8 + n of each resource and
  -- 2 + m elements for threads, starting the network ends with one interface and its one virtual
  -- interface, which is up and lwIP's default, and with a UDP stack without sockets; the threads of both
  -- are started with their routines, those that were started before stay so, and the stack finds the
  -- interface by the default address and by 0, and by no other address.
  pub initialize_network-IsServing :
      (get_irq_handler : ℕ → Bool) (netif_add : (addr mask gw : ℕ) → Bool) (machine : Machine)
      (max_prio : ℕ) (blocks : List (Block SocketServer)) (max_sockets : ℕ) (udp : Ptr)
      (priority n m : ℕ) (hs : List (Ptr × Routine)) (ps : List Ptr) (s : Netstack D) (wanted : ℕ)
      (old : Ptr)
      → ib.el ≢ null
      → vb.el ≢ null
      → 0 < driver.irq_num
      → get_irq_handler driver.irq_num ≡ true
      → netif_add addr mask gw ≡ true
      → Stocked (more 8 n) (IsThreads (more 2 m) hs ps) s.resources
      → Returns
          (λ u s'.
            IsServing max_sockets blocks hs ps n m u s'
            × (find_iface wanted (iface_refs s'.ifaces.used) old
                ≡ (if (wanted == 0) || (addr == wanted) then ib.el else old)))
          (initialize_network get_irq_handler netif_add machine max_prio
            (ib ∷ ibs)
            (vb ∷ vbs)
            blocks
            true
            driver
            addr
            mask
            gw
            max_sockets
            udp
            priority
            s)
  unfolding initialize_network
  initialize_network-IsServing get_irq_handler netif_add machine max_prio blocks max_sockets udp
        priority n m hs ps s wanted old ib_ne vb_ne irq_ne gives adds st =
      bind
        (network_initialize-IsNetwork ib ibs vb vbs driver addr mask gw get_irq_handler netif_add
          priority (more 3 n) (suc m) hs ps s ib_ne vb_ne irq_ne gives adds st)
        λ error s1 (_, (thread, net)).
          on_resources-last s1
            (udp_initialize-Stocked machine max_prio max_sockets udp blocks priority n m _ _
              s1.resources net.stocked)
            λ u r (vacant, stocked). (
              record {
                irq = net.irq;
                aep = net.aep;
                thread = thread;
                mutex = net.mutex;
                ifaces_eq = net.ifaces_eq;
                default_eq = net.default_eq;
                mutex_ne = net.mutex_ne;
                stack_mutex_ne = net.stack_mutex_ne;
                vacant = vacant;
                stocked = stocked;
              },
              IsNetwork-found ib ibs vb vbs driver addr mask gw _ _ hs ps thread s1 wanted old net,
            )
