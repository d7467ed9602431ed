-- ===== src/Process/Environment.antt =====
-- sel4osapi_process_init_env of src/process.c: the environment that the root task prepares for a new
-- process. `mint k` is the slot of the process that gets the k-th capability, `page_cap` what
-- vspace_get_cap returns, and `map_pages` the address at which vspace_map_pages maps pages in the
-- process; 0 is the failure of each.
pub mod Pages
pub mod Staged
pub mod Fresh
pub mod Examples
use libsel4osapi.Prelude.{
  ℕ, zero, suc, ◌+◌, ◌-◌, ◌*◌, ◌%◌, ◌^◌, not, List, [], ◌∷◌, ◌++◌, map, take, length, ltb, leb,
  ◌==◌, if◌then◌else◌,
}
use libsel4osapi.Run.{ok, fail, assert_failed, bad_pointer, Cmd, pure, stop, ◌>>=◌, ◌>>◌, check}
use libsel4osapi.LinkedList.{Ptr}
use libsel4osapi.Process.{Untyped, Grant, no_grant, assign}

-- What the configuration fixes: the numbers of pages and the sizes of the shared buffers, the memory
-- of a process and the size of its CSpace.
pub record Config : Type 0 where
  pub rx_pages : ℕ
  pub rx_buf_size : ℕ
  pub tx_pages : ℕ
  pub tx_buf_size : ℕ
  pub serial_pages : ℕ
  pub serial_buf_size : ℕ
  pub mem_size : ℕ
  pub cspace_size_bits : ℕ

-- The capabilities of the root task from which the process gets its own, the process's clients of
-- the IPC server and of the serial server, and the pointers to untypeds `user_untypeds[i].cptr`.
pub record Parent : Type 0 where
  pub pd : ℕ
  pub tcb : ℕ
  pub fault_endpoint : ℕ
  pub sysclock_ep : ℕ
  pub udp_stack_ep : ℕ
  pub user_untypeds : ℕ → ℕ
  pub ipc_id : ℕ
  pub ipc_rx_buf : Ptr
  pub ipc_tx_buf : Ptr
  pub serial_id : ℕ
  pub serial_server_ep : ℕ
  pub serial_buf : Ptr

-- A buffer as the process sees it.
pub record Shared : Type 0 where
  pub buf : Ptr
  pub buf_size : ℕ

-- The copies of a process's own objects, and of the endpoint of the clock.
pub record Objects : Type 0 where
  pub page_directory : ℕ
  pub tcb : ℕ
  pub untypeds : Grant
  pub sysclock_server_ep : ℕ
  pub idling_aep : ℕ

-- What a process shares with the services: its buffers, and copies of their endpoints.
pub record Links : Type 0 where
  pub rx : Shared
  pub tx : Shared
  pub stack_op_ep : ℕ
  pub serial_server_ep : ℕ
  pub serial : Shared
  pub fault_endpoint : ℕ

-- The fields of sel4osapi_process_env_t that are set.
pub record Env : Type 0 where
  pub pid : ℕ
  pub name : List ℕ
  pub priority : ℕ
  pub page_directory : ℕ
  pub root_cnode : ℕ
  pub tcb : ℕ
  pub untypeds : Grant
  pub sysclock_server_ep : ℕ
  pub idling_aep : ℕ
  pub ipc_id : ℕ
  pub rx : Shared
  pub tx : Shared
  pub stack_op_ep : ℕ
  pub serial_id : ℕ
  pub serial_server_ep : ℕ
  pub serial : Shared
  pub fault_endpoint : ℕ
  pub cspace_size_bits : ℕ
  pub free_start : ℕ
  pub free_end : ℕ

-- The capabilities copied to the process so far, with their badges, the slots that vka_cspace_alloc
-- of the root task will return, the notifications of vka_alloc_notification, and the table of the
-- untypeds. `parent_idling_aep` is the field of the process.
pub record Copies : Type 0 where
  pub copied : List (ℕ × ℕ)
  pub slots : List ℕ
  pub notifications : List ℕ
  pub table : List Untyped
  pub parent_idling_aep : ℕ

abbrev pub page_size : ℕ
page_size = 4096

-- SEL4UTILS_CNODE_SLOT
abbrev pub cnode_slot : ℕ
cnode_slot = 1

-- SEL4OSAPI_USER_PROCESS_NAME_MAX_LEN; snprintf keeps a byte for the end of the string.
abbrev pub name_max_len : ℕ
name_max_len = 15

module _ (mint : ℕ → ℕ) (page_cap : Ptr → ℕ) (map_pages : List ℕ → Ptr) (config : Config) where
  -- sel4osapi_process_copy_cap_into of `source`.
  pub copy_cap_into : (pid source : ℕ) → Cmd Copies ℕ
  copy_cap_into pid source s =
      (do
        check (not (mint (length s.copied) == 0))
        λ t. ok tt (record t { copied = t.copied ++ (source, pid) ∷ [] })
        pure (mint (length s.copied)))
        s

  -- The loop over the untypeds of the system.
  pub copy_untypeds : (pid : ℕ) → (ℕ → ℕ) → Cmd Copies Grant
  copy_untypeds pid user_untypeds s =
      let (table, g) =
        assign (λ k. mint (length s.copied + k)) config.mem_size pid 0 s.table no_grant in
      ok g (record s {
        table = table;
        copied = s.copied ++ map (λ i. (user_untypeds i, pid)) g.untyped_indices;
      })

  -- `untypeds.end - untypeds.start + 1`, in machine words.
  abbrev pub range_size : Grant → ℕ
  range_size g = (g.end + 2 ^ 32 - g.start + 1) % 2 ^ 32

  pub grant_untypeds : (pid : ℕ) → (ℕ → ℕ) → Cmd Copies Grant
  grant_untypeds pid user_untypeds = do
    g ← copy_untypeds pid user_untypeds
    λ s. check (leb (range_size g) (length s.table)) s
    pure g

  take_slot : List ℕ → Cmd Copies ℕ
  take_slot [] = stop assert_failed
  take_slot (x ∷ xs) = λ s. ok x (record s { slots = xs })

  take_notification : List ℕ → Cmd Copies ℕ
  take_notification [] = stop assert_failed
  take_notification (x ∷ xs) = λ s. ok x (record s { notifications = xs })

  -- The loop that copies the capabilities of `n` pages from the address `page` on.
  pub copy_pages : (n : ℕ) → (page : Ptr) → Cmd Copies (List ℕ)
  unfolding take_slot
  copy_pages zero page = pure []
  copy_pages (suc n) page = do
    check (not (page_cap page == 0))
    slot ← λ s. take_slot s.slots s
    slots ← copy_pages n (page + page_size)
    pure (slot ∷ slots)

  -- The first `n` of the copies are mapped; to read past their end is a fault.
  pub map_copies : (n : ℕ) → List ℕ → (buf_size : ℕ) → Cmd Copies Shared
  map_copies n copies buf_size = if ltb (length copies) n then stop bad_pointer else do
    check (not (map_pages (take n copies) == 0))
    pure (record { buf = map_pages (take n copies); buf_size = buf_size })

  -- The buffers of the IPC client: both are mapped with the number of pages of the first.
  pub share_ipc : Parent → Cmd Copies (Shared × Shared)
  unfolding copy_pages map_copies
  share_ipc p = do
    rx_copies ← copy_pages config.rx_pages p.ipc_rx_buf
    tx_copies ← copy_pages config.tx_pages p.ipc_tx_buf
    rx ← map_copies config.rx_pages rx_copies config.rx_buf_size
    tx ← map_copies config.rx_pages tx_copies config.tx_buf_size
    pure (rx, tx)

  pub share_serial : Parent → Cmd Copies Shared
  unfolding copy_pages map_copies
  share_serial p = do
    copies ← copy_pages config.serial_pages p.serial_buf
    map_copies config.serial_pages copies config.serial_buf_size

  -- The notification on which the process idles.
  pub idle_copy : (pid : ℕ) → Cmd Copies ℕ
  unfolding take_notification copy_cap_into
  idle_copy pid = do
    aep ← λ s. take_notification s.notifications s
    λ s. ok tt (record s { parent_idling_aep = aep })
    copy_cap_into pid aep

  -- The range of slots behind the last capability.
  pub free_slots : (fault_endpoint : ℕ) → Cmd Copies (ℕ × ℕ)
  free_slots fault_endpoint = do
    let start = (fault_endpoint + 1) % 2 ^ 32
    let end = 2 ^ config.cspace_size_bits % 2 ^ 32
    check (ltb start end)
    pure (start, end)

  pub copy_objects : Parent → (pid : ℕ) → Cmd Copies Objects
  copy_objects p pid = do
    page_directory ← copy_cap_into pid p.pd
    tcb ← copy_cap_into pid p.tcb
    g ← grant_untypeds pid p.user_untypeds
    sysclock_server_ep ← copy_cap_into pid p.sysclock_ep
    idling_aep ← idle_copy pid
    pure (record {
      page_directory = page_directory;
      tcb = tcb;
      untypeds = g;
      sysclock_server_ep = sysclock_server_ep;
      idling_aep = idling_aep;
    })

  pub link_services : Parent → (pid : ℕ) → Cmd Copies Links
  link_services p pid = do
    (rx, tx) ← share_ipc p
    stack_op_ep ← copy_cap_into pid p.udp_stack_ep
    serial_server_ep ← copy_cap_into pid p.serial_server_ep
    serial ← share_serial p
    fault_endpoint ← copy_cap_into pid p.fault_endpoint
    pure (record {
      rx = rx;
      tx = tx;
      stack_op_ep = stack_op_ep;
      serial_server_ep = serial_server_ep;
      serial = serial;
      fault_endpoint = fault_endpoint;
    })

  abbrev pub env_of : Parent → (pid : ℕ) → List ℕ → (priority : ℕ) → Objects → Links → ℕ × ℕ → Env
  env_of p pid name priority o l (free_start, free_end) = record {
    pid = pid;
    name = take (name_max_len - 1) name;
    priority = priority % 2 ^ 8;
    page_directory = o.page_directory;
    root_cnode = cnode_slot;
    tcb = o.tcb;
    untypeds = o.untypeds;
    sysclock_server_ep = o.sysclock_server_ep;
    idling_aep = o.idling_aep;
    ipc_id = p.ipc_id;
    rx = l.rx;
    tx = l.tx;
    stack_op_ep = l.stack_op_ep;
    serial_id = p.serial_id;
    serial_server_ep = l.serial_server_ep;
    serial = l.serial;
    fault_endpoint = l.fault_endpoint;
    cspace_size_bits = config.cspace_size_bits;
    free_start = free_start;
    free_end = free_end;
  }

  -- sel4osapi_process_init_env, with all services configured.
  pub init_env : (p : Parent) (pid : ℕ) (name : List ℕ) (priority : ℕ) → Cmd Copies Env
  unfolding copy_objects link_services
  init_env p pid name priority = do
    objects ← copy_objects p pid
    links ← link_services p pid
    free ← free_slots links.fault_endpoint
    pure (env_of p pid name priority objects links free)
