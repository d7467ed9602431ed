-- ===== src/Network.antt =====
-- src/network.c: the network interfaces and their virtual interfaces. `D` is the state of the driver. The
-- mutexes, the thread of an interface and what other libraries hand out come from the resources of the
-- root task. CLEAR_BUFFERS is not defined, so the timers of lwIP are not run.
pub mod Served
use libsel4osapi.Prelude.{
  ℕ, suc, ◌+◌, Bool, true, false, not, Option, none, some, List, [], ◌∷◌, ltb, ◌==◌, if◌then◌else◌,
}
use libsel4osapi.Run.{
  Run, ok, fail, assert_failed, bad_pointer, Cmd, pure, stop, ◌>>=◌, ◌>>◌, check, need, when,
}
use libsel4osapi.LinkedList.{Ptr, null}
use libsel4osapi.Pool.{Block}
use libsel4osapi.Pool.New.{new_view}
use libsel4osapi.Buffer.{Bytes}
use libsel4osapi.Boot.{
  eth_irq_thread, Resources, alloc_notification, alloc_slot, create_mutex, create_thread,
  start_thread,
}
use libsel4osapi.Pool.View
use libsel4osapi.Pool.View.{Slot, View, value_at}

-- sel4osapi_netvface_t; `up` is what netif_set_up sets.
pub record Vface : Type 0 where
  pub ip_addr : ℕ
  pub ip_mask : ℕ
  pub ip_gw : ℕ
  pub up : Bool

module _ (D : Type 0) where
  -- sel4osapi_netiface_driver_t
  pub record Driver : Type 0 where
    pub irq_num : ℕ
    pub handle_irq_fn : D → ℕ → D
    pub state : D

  -- sel4osapi_netiface_t; `acks` counts the interrupts that its thread has acknowledged.
  pub record Netiface : Type 0 where
    pub driver : Driver
    pub irq : ℕ
    pub irq_aep : ℕ
    pub irq_thread : Ptr
    pub mutex : Ptr
    pub acks : ℕ
    pub vfaces : View Vface
    pub last_checked_ip_t : ℕ
    pub last_checked_arp_t : ℕ

  -- sel4osapi_netstack_t, with the default interface of lwIP and the resources of the root task.
  pub record Netstack : Type 0 where
    pub ifaces : View Netiface
    pub default_netif : Ptr
    pub mutex : Ptr
    pub resources : Resources

-- The default configuration: virtual interfaces of an interface, and interfaces.
abbrev pub net_vfaces_max : ℕ
net_vfaces_max = 2

abbrev pub net_phys_ifaces : ℕ
net_phys_ifaces = 1

-- "eth::irq"
abbrev pub irq_name : Bytes
irq_name = 101 ∷ 116 ∷ 104 ∷ 58 ∷ 58 ∷ 105 ∷ 114 ∷ 113 ∷ []

module _ {D : Type 0} where
  abbrev pub in_resources : {A : Type 0} → Netstack D → Run Resources A → Run (Netstack D) A
  in_resources s (ok a r) = ok a (record s { resources = r })
  in_resources s (fail f) = fail f

  abbrev pub on_resources : {A : Type 0} → Cmd Resources A → Cmd (Netstack D) A
  on_resources m s = in_resources s (m s.resources)

  pub set_iface : Ptr → (Netiface D → Netiface D) → Cmd (Netstack D) (Unit {0})
  set_iface p f s = ok tt (record s { ifaces = View.modify s.ifaces p f })

  -- One round of sel4osapi_eth_irq1_thread of the interface at `p`, after its wait.
  pub irq_round : Ptr → Cmd (Netstack D) (Unit {0})
  unfolding set_iface
  irq_round p = do
    set_iface p (λ i. record i {
      driver = record i.driver { state = i.driver.handle_irq_fn i.driver.state i.driver.irq_num };
    })
    set_iface p (λ i. record i { acks = suc i.acks })

  -- sel4osapi_netiface_add_vface of the interface at `p`; `netif_add` says whether lwIP adds it.
  pub add_vface :
      (netif_add : (addr mask gw : ℕ) → Bool)
      → Ptr
      → (addr mask gw : ℕ) → (is_default : Bool) → Cmd (Netstack D) ℕ
  unfolding set_iface
  add_vface netif_add p addr mask gw is_default = do
    iface ← λ s. need (value_at p s.ifaces.used) s
    let (vface, vfaces) = View.alloc iface.vfaces
    check (not (vface == null))
    check (netif_add addr mask gw)
    set_iface p (λ i. record i {
      vfaces =
          View.modify vfaces vface
            (λ _. record { ip_addr = addr; ip_mask = mask; ip_gw = gw; up = true });
    })
    when is_default (λ s. ok tt (record s { default_netif = vface }))
    pure 0

  -- What sel4osapi_network_create_interface does with the element that simple_pool_alloc returned;
  -- `get_irq_handler` says whether the kernel gives the handler of an interrupt, and `priority` is that of
  -- the process.
  pub fill_interface :
      (get_irq_handler : ℕ → Bool)
      → (priority : ℕ) → Driver D
      → List (Block Vface)
      → Ptr × View (Netiface D)
      → Cmd (Netstack D) Ptr
  unfolding set_iface
  fill_interface get_irq_handler priority driver blocks (p, v) = do
    check (not (p == null))
    λ s. ok tt (record s { ifaces = v })
    mutex ← on_resources create_mutex
    irq ← on_resources alloc_slot
    check (get_irq_handler driver.irq_num)
    irq_aep ← on_resources alloc_notification
    irq_thread ← on_resources (create_thread irq_name eth_irq_thread p priority)
    set_iface p (λ _. record {
      driver = driver;
      irq = irq;
      irq_aep = irq_aep;
      irq_thread = irq_thread;
      mutex = mutex;
      acks = 0;
      vfaces = new_view net_vfaces_max none none blocks;
      last_checked_ip_t = 0;
      last_checked_arp_t = 0;
    })
    pure p

  pub create_interface :
      (get_irq_handler : ℕ → Bool)
      → (priority : ℕ) → Driver D
      → List (Block Vface)
      → Cmd (Netstack D) Ptr
  unfolding fill_interface
  create_interface get_irq_handler priority driver blocks = do
    check (ltb 0 driver.irq_num)
    λ s. fill_interface get_irq_handler priority driver blocks (View.alloc s.ifaces) s

  -- sel4osapi_network_initialize, with the default address, mask and gateway.
  pub network_initialize :
      (get_irq_handler : ℕ → Bool) (netif_add : (addr mask gw : ℕ) → Bool)
      → List (Block (Netiface D))
      → List (Block Vface)
      → (priority : ℕ) → Driver D
      → (addr mask gw : ℕ) → Cmd (Netstack D) ℕ
  unfolding create_interface add_vface
  network_initialize get_irq_handler netif_add iface_blocks vface_blocks priority driver addr mask
        gw =
      do
        mutex ← on_resources create_mutex
        λ s.
            ok tt
              (record s { mutex = mutex; ifaces = new_view net_phys_ifaces none none iface_blocks })
        iface ← create_interface get_irq_handler priority driver vface_blocks
        check (not (iface == null))
        error ← add_vface netif_add iface addr mask gw true
        check (error == 0)
        i ← λ s. need (value_at iface s.ifaces.used) s
        on_resources (start_thread i.irq_thread)
        pure 0
