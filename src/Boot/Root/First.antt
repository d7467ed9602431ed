-- ===== src/Boot/Root/First.antt =====
-- The first process that the root task of src/system.c creates after its start.
use libsel4osapi.Prelude.{
  ℕ, zero, suc, ◌+◌, ◌^◌, ◌≤◌, ◌<◌, ◌≡◌, ◌≢◌, refl, sym, ap, subst, ◌∙◌, Bool, true, none, List, [],
  ◌∷◌, length, arith,
}
use libsel4osapi.Run.{Returns, mono}
use libsel4osapi.LinkedList.{Ptr, null}
use libsel4osapi.LinkedList.Chain.{Distinct, Apart-of_has, Cells}
use libsel4osapi.LinkedList.Separate.{Separate}
use libsel4osapi.Pool.{Block}
use libsel4osapi.Pool.View.{View}
use libsel4osapi.Pool.Shape.{els}
use libsel4osapi.Pool.New.{slot, slots, new_view}
use libsel4osapi.Buffer.{Bytes}
use libsel4osapi.Ipc.{Ipc, IpcClient, ipcserver_initialize}
use libsel4osapi.Serial.{SerialClient}
use libsel4osapi.Memory.{untyped_bytes}
use libsel4osapi.Process.Granted.{assign-first}
use libsel4osapi.Process.Environment.{Config}
use libsel4osapi.Process.Environment.Staged.{granted}
use libsel4osapi.Process.Create.{Native, Process, System, process_create}
use libsel4osapi.System.{table_of}
use libsel4osapi.System.Divide.{table_of-suc}
use libsel4osapi.System.Life.Restored.{IsLife, process_create-IsLife}
use libsel4osapi.Boot.{Resources, Machine}
use libsel4osapi.Boot.Services.Begun.{IsWorking}
use libsel4osapi.Boot.Stocked.{Stocked}
use libsel4osapi.Boot.Root.{Supplies, Root, system_initialize}
use libsel4osapi.Boot.Root.Booted.{Anything, IsBooted, system_initialize-IsBooted}

-- What the creation of a process takes from other libraries.
pub record Parts : Type 0 where
  pub udp_stack_ep : ℕ
  pub user_untypeds : ℕ → ℕ
  pub env_page : Ptr
  pub env_pages : List Ptr
  pub native : Native
  pub natives : List Native
  pub buf : Ptr
  pub page : Bytes
  pub buffers : List (Ptr × Bytes)

abbrev parts_of :
    Root → Resources → Parts → View Process → View SerialClient → Ipc → List ℕ → System
parts_of root r parts processes serial ipc notifications = record {
  processes = processes;
  serial = record root.serial.serial { clients = serial };
  ipc = ipc;
  copies = record {
    copied = [];
    slots = r.slots;
    notifications = notifications;
    table = root.division.table;
    parent_idling_aep = 0;
  };
  user_untypeds = parts.user_untypeds;
  sysclock_ep = root.sysclock.server_ep;
  udp_stack_ep = parts.udp_stack_ep;
  env_pages = parts.env_page ∷ parts.env_pages;
  serial_pages = (parts.buf, parts.page) ∷ parts.buffers;
  natives = parts.native ∷ parts.natives;
}

-- What sel4osapi_process_create works on after the start.
pub system_of : Root → Resources → Parts → System
system_of root r parts =
    parts_of root r parts root.processes root.serial.serial.clients root.ipc r.threads.notifications

Separate-nil : (xs : Cells) → Distinct xs → Separate xs []
Separate-nil xs d = record { left = d; right = tt; apart = Apart-of_has xs [] (λ a o. refl) }

some_granted :
    (mint : ℕ → ℕ) (config : Config) (pid : ℕ) (sizes : ℕ → ℕ) (n : ℕ)
    → 0 < n
    → 0 < config.mem_size
    → (granted mint config pid (table_of sizes n 0)).1.untyped_count ≢ 0
some_granted mint config pid sizes zero some_ut some_mem = absurd (omega arith)
some_granted mint config pid sizes (suc n) some_ut some_mem =
    rw (table_of-suc sizes n 0)
      (assign-first (λ k. mint (2 + k)) config.mem_size pid _ _ refl some_mem)

module _ (W : Type 0) (mint : ℕ → ℕ) (page_cap : Ptr → ℕ) (map_pages : List ℕ → Ptr)
    (config : Config) (base : ℕ) (consecutive : (k : ℕ) → mint k ≡ base + k) (base_ne : base ≢ 0)
    (mapped : (p : Ptr) → page_cap p ≢ 0) (maps : (l : List ℕ) → map_pages l ≢ 0)
    (rx_size : 0 < config.rx_buf_size) (tx_size : 0 < config.tx_buf_size)
    (serial_size : 0 < config.serial_buf_size) (add_uts : ℕ → ℕ → Bool)
    (accepts : (slot size_bits : ℕ) → add_uts slot size_bits ≡ true)
    (max_threads max_sockets process_max max_prio : ℕ) (main_name : ℕ → Bytes) (machine : Machine)
    (w : IsWorking machine) (base_supplies : Supplies) (pb : Block Process)
    (pbs : List (Block Process)) (sb : Block SerialClient) (sbs : List (Block SerialClient))
    (ib : Block IpcClient) (ibs : List (Block IpcClient)) (rx tx : Ptr) (pages : List Ptr) where
  -- Each pool has at least one element, and the IPC server two pages.
  abbrev pub supplies : Supplies
  supplies = record base_supplies {
    process_blocks = pb ∷ pbs;
    serial_blocks = sb ∷ sbs;
    ipc_blocks = ib ∷ ibs;
    ipc_pages = rx ∷ tx ∷ pages;
  }

  first_of :
      (parts : Parts) (name : List ℕ) (priority : ℕ) (reserves allocates : ℕ → Bool) (sizes : ℕ → ℕ)
      (root_mem_size max_untypeds n m : ℕ) (root : Root) (r : Resources) (notifications : List ℕ)
      → r.threads.notifications ≡ notifications
      → Distinct (els (slots none (pb ∷ pbs)))
      → Distinct (els (slots none (sb ∷ sbs)))
      → Distinct (els (slots none (ib ∷ ibs)))
      → parts.env_page ≢ null
      → rx ≢ null
      → tx ≢ null
      → config.rx_pages + (config.tx_pages + (config.serial_pages + 1)) ≤ n
      → config.rx_pages ≤ config.tx_pages
      → 0 < config.mem_size
      → base + (7 + max_untypeds) < 2 ^ config.cspace_size_bits
      → 2 ^ config.cspace_size_bits < 2 ^ 32
      → IsBooted machine w supplies max_prio max_threads process_max main_name reserves allocates
          sizes root_mem_size max_untypeds n m root r
      → Returns
          (IsLife W mint map_pages add_uts max_threads max_sockets main_name root.division.table)
          (process_create mint page_cap map_pages config name priority (system_of root r parts))
  unfolding system_of ipcserver_initialize
  first_of parts name priority reserves allocates sizes root_mem_size max_untypeds n m root r [] e
        dp ds di page_ne rx_ne tx_ne room le some_mem space word b =
      absurd (omega (arith, b.stocked.notifications_le, ap length e, room))
  first_of parts name priority reserves allocates sizes root_mem_size max_untypeds n m root r
        (aep ∷ aeps) e dp ds di page_ne rx_ne tx_ne room le some_mem space word b =
      let processes = new_view process_max none none (pb ∷ pbs) in
      let clients = new_view process_max none none (sb ∷ sbs) in
      let ipc = ipcserver_initialize process_max (ib ∷ ibs) (rx ∷ tx ∷ pages) in
      let known = parts_of root r parts processes clients ipc (aep ∷ aeps) in
      let same : system_of root r parts ≡ known =
        ap
          (λ v. parts_of root r parts v root.serial.serial.clients root.ipc r.threads.notifications)
          b.processes_eq
        ∙ ap (λ v. parts_of root r parts processes v root.ipc r.threads.notifications)
            b.serial.clients_eq
        ∙ ap (λ v. parts_of root r parts processes clients v r.threads.notifications) b.ipc_eq
        ∙ ap (λ v. parts_of root r parts processes clients ipc v) e in
      let t = b.table in
      let few : length root.division.table ≤ max_untypeds = b.divided.all.at_most in
      subst
        (λ s.
          Returns
            (IsLife W mint map_pages add_uts max_threads max_sockets main_name root.division.table)
            (process_create mint page_cap map_pages config name priority s))
        (sym same)
        (process_create-IsLife W mint page_cap map_pages config base consecutive base_ne mapped maps
          rx_size tx_size serial_size add_uts accepts max_threads max_sockets main_name known
          (slot pb) (slots none pbs) parts.env_page parts.env_pages parts.native parts.natives aep
          aeps (slot sb) (slots none sbs) parts.buf parts.page parts.buffers (slot ib)
          (slots none ibs) rx tx pages name priority refl (Separate-nil _ dp) page_ne refl
          (record { elements = Separate-nil _ ds; numbered = tt }) refl (Separate-nil _ di) rx_ne
          tx_ne refl (omega (arith, b.stocked.slots_le, room)) le t.some_untyped t.few
          (omega (arith, few, space)) word (omega arith)
          (subst (λ us. (granted mint config 1 us).1.untyped_count ≢ 0) (sym t.table_eq)
            (some_granted mint config 1 sizes (length root.division.table) t.some_untyped
              some_mem)))

  -- After a start in which every call of another library succeeds, with the resources that it takes and
  -- the pages of a process left, the root task can create a first process: it can be spawned, becomes
  -- ready with the untypeds that the table has lost, and when it is deleted the table is free again.
  pub system_initialize-IsLife :
      (parts : Parts) (name : List ℕ) (priority : ℕ) (reserves allocates : ℕ → Bool) (sizes : ℕ → ℕ)
      (root_mem_size max_untypeds : ℕ) (bootstrap_mem_pool : Ptr) (n m : ℕ) (r : Resources)
      → bootstrap_mem_pool ≢ null
      → supplies.env_page ≢ null
      → 3 + m ≤ length supplies.thread_blocks
      → Distinct (els (slots none supplies.thread_blocks))
      → allocates 0 ≡ true
      → 0 < max_untypeds
      → max_untypeds < 2 ^ 8
      → root_mem_size + untyped_bytes < 2 ^ 32
      → Stocked (14 + n) Anything r
      → Distinct (els (slots none (pb ∷ pbs)))
      → Distinct (els (slots none (sb ∷ sbs)))
      → Distinct (els (slots none (ib ∷ ibs)))
      → parts.env_page ≢ null
      → rx ≢ null
      → tx ≢ null
      → config.rx_pages + (config.tx_pages + (config.serial_pages + 1)) ≤ n
      → config.rx_pages ≤ config.tx_pages
      → 0 < config.mem_size
      → base + (7 + max_untypeds) < 2 ^ config.cspace_size_bits
      → 2 ^ config.cspace_size_bits < 2 ^ 32
      → Returns
          (λ root r'.
            Returns
              (IsLife W mint map_pages add_uts max_threads max_sockets main_name
                root.division.table)
              (process_create mint page_cap map_pages config name priority
                (system_of root r' parts)))
          (system_initialize machine supplies max_prio max_threads process_max main_name reserves
            allocates sizes root_mem_size max_untypeds bootstrap_mem_pool r)
  system_initialize-IsLife parts name priority reserves allocates sizes root_mem_size max_untypeds
        bootstrap_mem_pool n m r pool_ne env_ne le d given some_room few small s dp ds di page_ne
        rx_ne tx_ne room pages_le some_mem space word =
      mono
        (system_initialize-IsBooted machine w supplies max_prio max_threads process_max main_name
          reserves allocates sizes root_mem_size max_untypeds bootstrap_mem_pool n m r pool_ne
          env_ne le d given some_room few small s)
        λ root r' b.
          first_of parts name priority reserves allocates sizes root_mem_size max_untypeds n m root
            r' r'.threads.notifications refl dp ds di page_ne rx_ne tx_ne room pages_le some_mem
            space word b
