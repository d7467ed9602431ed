-- ===== src/Boot/Root/Examples.antt =====
-- The network of src/network.c and the UDP stack, started by the root task, with one interface whose
-- driver counts its interrupts.
use libsel4osapi.Prelude.{
  ℕ, suc, ◌≡◌, refl, Bool, true, none, [], ◌∷◌, ◌||◌, ◌==◌, if◌then◌else◌, arith,
}
use libsel4osapi.Run.{Returns}
use libsel4osapi.LinkedList.{Node}
use libsel4osapi.LinkedList.Chain.{Apart-of_has}
use libsel4osapi.Pool.{Block}
use libsel4osapi.Pool.New.{new_view}
use libsel4osapi.Pool.View.{View}
use libsel4osapi.Pool.Shape.{els}
use libsel4osapi.Thread.{Thread}
use libsel4osapi.Udp.Stack.{find_iface}
use libsel4osapi.Network.{Vface, Driver, Netiface, Netstack}
use libsel4osapi.Network.Served.{iface_refs}
use libsel4osapi.Boot.{Resources}
use libsel4osapi.Boot.Examples.{machine, thread, block, upward, upward-NoneZero}
use libsel4osapi.Boot.Stocked.{Stocked}
use libsel4osapi.Boot.Running.{Entered, IsThreads}
use libsel4osapi.Boot.Root.{initialize_network}
use libsel4osapi.Boot.Root.Networked.{IsServing, initialize_network-IsServing}

abbrev count : ℕ → ℕ → ℕ
count n irq_num = suc n

abbrev driver : Driver ℕ
driver = record { irq_num = 150; handle_irq_fn = count; state = 0 }

abbrev loose : Node
loose = record { el = 0; next = 0; prev = 0 }

abbrev vface_block : Block Vface
vface_block = record {
  el = 21;
  entry = 20;
  el_junk = record { ip_addr = 0; ip_mask = 0; ip_gw = 0; up = true };
  entry_junk = loose;
}

abbrev iface_block : Block (Netiface ℕ)
iface_block = record {
  el = 11;
  entry = 10;
  el_junk = record {
    driver = driver;
    irq = 0;
    irq_aep = 0;
    irq_thread = 0;
    mutex = 0;
    acks = 0;
    vfaces = record { size = 0; free = []; used = []; init_fn = none; compare_fn = none };
    last_checked_ip_t = 0;
    last_checked_arp_t = 0;
  };
  entry_junk = loose;
}

abbrev gives : ℕ → Bool
gives irq_num = true

abbrev adds : ℕ → ℕ → ℕ → Bool
adds addr mask gw = true

abbrev pool : View (Thread Entered)
pool = new_view 2 none none (block 10 thread ∷ block 20 thread ∷ [])

abbrev host_resources : Resources
host_resources = record {
  threads = record {
    threads = pool;
    pid = 0;
    fault_endpoint = 0;
    endpoints = upward 9 100;
    notifications = upward 9 200;
    frames = upward 9 300;
    calls = [];
    world = [];
  };
  slots = upward 9 400;
  mutexes = upward 9 500;
}

host_resources-Stocked : Stocked 9 (IsThreads 2 [] []) host_resources
host_resources-Stocked = record {
  endpoints_le = omega arith;
  endpoints_ne = upward-NoneZero 9 100;
  notifications_le = omega arith;
  frames_le = omega arith;
  slots_le = omega arith;
  mutexes_le = omega arith;
  mutexes_ne = upward-NoneZero 9 500;
  pool = record {
    free_le = omega arith;
    apart = record {
      left = (omega arith, refl, (omega arith, refl, tt));
      right = tt;
      apart = Apart-of_has (els pool.free) [] (λ a o. refl);
    };
    init_eq = refl;
    held = tt;
    started = tt;
  };
}

abbrev stack : Netstack ℕ
stack = record {
  ifaces = record { size = 0; free = []; used = []; init_fn = none; compare_fn = none };
  default_netif = 0;
  mutex = 0;
  resources = host_resources;
}

initialize_network-IsServing_example :
    Returns
      (λ u s'.
        IsServing iface_block [] vface_block [] driver 9 8 7 16 [] [] [] 1 0 u s'
        × (find_iface 9 (iface_refs s'.ifaces.used) 0 ≡ (if (9 == 0) || (9 == 9) then 11 else 0)))
      (initialize_network gives adds machine 255
        (iface_block ∷ [])
        (vface_block ∷ [])
        []
        true
        driver
        9
        8
        7
        16
        64
        100
        stack)
initialize_network-IsServing_example =
    initialize_network-IsServing iface_block [] vface_block [] driver 9 8 7 gives adds machine 255
      [] 16 64 100 1 0 [] [] stack 9 0 (omega arith) (omega arith) (omega arith) refl refl
      host_resources-Stocked
