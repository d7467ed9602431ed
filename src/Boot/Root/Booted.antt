-- ===== src/Boot/Root/Booted.antt =====
-- The root task of src/system.c when it has started.
use libsel4osapi.Prelude.{
  ℕ, suc, ◌+◌, ◌^◌, ◌≤◌, ◌<◌, ◌≡◌, ◌≢◌, refl, sym, subst, Bool, true, not, none, [], ◌∷◌, length,
  ◌==◌, ==-ne, arith,
}
use libsel4osapi.Run.{Returns, returns, Returns-check, bind}
use libsel4osapi.LinkedList.{Ptr, null}
use libsel4osapi.LinkedList.Chain.{Distinct, Apart-of_has}
use libsel4osapi.Pool.View.{View}
use libsel4osapi.Pool.Shape.{els}
use libsel4osapi.Pool.New.{new_view, slots, length-slots}
use libsel4osapi.Buffer.{Bytes}
use libsel4osapi.Ipc.{ipcserver_initialize}
use libsel4osapi.Memory.{untyped_bytes}
use libsel4osapi.Thread.{Thread}
use libsel4osapi.System.Divide.{IsDivided, IsTable, divide_untypeds-IsTable}
use libsel4osapi.Boot.{serial_server_thread, Resources, Machine}
use libsel4osapi.Boot.Services.Begun.{
  IsWorking, IsUnset, IsUnused, clock_threads, sysclock_initialize-Stocked, sysclock_start-Stocked,
  io_initialize-same, start_ipcserver-Stocked, serial_initialize-Stocked,
}
use libsel4osapi.Boot.Stocked.{
  more, Stocked, Stocked-le, alloc_notification-Stocked, create_mutex-Stocked,
}
use libsel4osapi.Boot.Running.{Entered, IsThreads}
use libsel4osapi.Boot.Root.{
  Supplies, Root, bootstrap_root, initialize_root_task_env, start_services, system_initialize,
}

abbrev pub Anything : View (Thread Entered) → Type 0
Anything v = Unit

module _ (machine : Machine) (w : IsWorking machine) (supplies : Supplies)
    (max_prio max_threads process_max : ℕ) (main_name : ℕ → Bytes) where
  -- The system of the root task: the clock is unset, the serial server and the IPC server have no
  -- clients, no process exists, the table of the untypeds is free, and the two threads of the clock and
  -- that of the serial server are started. `n` of each resource and `m` elements for threads are left.
  pub record IsBooted (reserves allocates : ℕ → Bool) (sizes : ℕ → ℕ)
      (root_mem_size max_untypeds n m : ℕ) (root : Root) (r : Resources) : Type 0 where
    pub is_root_eq : root.is_root ≡ 1
    pub pid_eq : root.env.pid ≡ 0
    pub clock : IsUnset supplies.timeout_blocks root.sysclock
    pub serial : IsUnused process_max supplies.serial_blocks root.serial
    pub ipc_eq : root.ipc ≡ ipcserver_initialize process_max supplies.ipc_blocks supplies.ipc_pages
    pub processes_eq : root.processes ≡ new_view process_max none none supplies.process_blocks
    pub divided : IsDivided reserves allocates root_mem_size max_untypeds root.division
    pub table : IsTable sizes root.division.table
    pub mutex_ne : root.global_mutex ≢ null
    pub logmutex_ne : root.logmutex ≢ null
    pub stocked :
        Stocked n
          (IsThreads m
            ((root.serial.thread, serial_server_thread) ∷ clock_threads root.sysclock)
            (root.serial.thread ∷ root.sysclock.server_thread ∷ root.sysclock.timer_thread ∷ []))
          r

  bootstrap_root-one :
      (r : Resources)
      → Returns
          (λ k r'. (k ≡ 1) × (r' ≡ r))
          (bootstrap_root machine supplies max_prio max_threads process_max main_name r)
  unfolding bootstrap_root
  bootstrap_root-one r = Returns-check _ machine.allocator r w.allocator (
      Returns-check _ machine.vspace r w.vspace (
        Returns-check _ machine.vmem r w.vmem
          (Returns-check _ machine.brk r w.brk (returns (refl, refl)))))

  initialize_root_task_env-Stocked :
      (n m idling_aep : ℕ) (r : Resources)
      → supplies.env_page ≢ null
      → m ≤ length supplies.thread_blocks
      → Distinct (els (slots none supplies.thread_blocks))
      → Stocked n Anything r
      → Returns
          (λ env r'. (env.pid ≡ 0) × Stocked n (IsThreads m [] []) r')
          (initialize_root_task_env machine supplies max_prio max_threads process_max main_name
            idling_aep r)
  unfolding initialize_root_task_env
  initialize_root_task_env-Stocked n m idling_aep r page_ne le d s =
      Returns-check _ (not (supplies.env_page == null)) r
        (rw (==-ne supplies.env_page null page_ne) refl)
        (returns (
          refl,
          record {
            endpoints_le = s.endpoints_le;
            endpoints_ne = s.endpoints_ne;
            notifications_le = s.notifications_le;
            frames_le = s.frames_le;
            slots_le = s.slots_le;
            mutexes_le = s.mutexes_le;
            mutexes_ne = s.mutexes_ne;
            pool = record {
              free_le = omega (arith, le, length-slots none supplies.thread_blocks);
              apart = record { left = d; right = tt; apart = Apart-of_has _ [] (λ a o. refl) };
              init_eq = refl;
              held = tt;
              started = tt;
            };
          },
        ))

  start_services-Stocked :
      (priority n m : ℕ) (r : Resources)
      → Stocked (more 10 n) (IsThreads (more 3 m) [] []) r
      → Returns
          (λ v r'.
            IsUnset supplies.timeout_blocks v.sysclock
            × IsUnused process_max supplies.serial_blocks v.serial
            × (v.ipc ≡ ipcserver_initialize process_max supplies.ipc_blocks supplies.ipc_pages)
            × Stocked n
                (IsThreads m
                  ((v.serial.thread, serial_server_thread) ∷ clock_threads v.sysclock)
                  (v.serial.thread ∷ v.sysclock.server_thread ∷ v.sysclock.timer_thread ∷ []))
                r')
          (start_services machine supplies max_prio max_threads process_max main_name priority r)
  unfolding start_services
  start_services-Stocked priority n m r s =
      bind (io_initialize-same machine w max_prio r) λ _ r0 same.
        bind
          (sysclock_initialize-Stocked machine w max_prio supplies.sysclock supplies.timeout_blocks
            (more 4 n) (suc m) r0 (subst (Stocked _ (IsThreads _ [] [])) (sym same) s))
          λ (sysclock, cap) r1 (clock, s1).
            bind (sysclock_start-Stocked machine w max_prio sysclock _ _ r1 s1) λ _ r2 s2.
              bind
                (start_ipcserver-Stocked machine w max_prio process_max supplies.ipc_blocks
                  supplies.ipc_pages _ _ r2 s2)
                λ (ipc_mutex, ipc) r3 (ipc_eq, s3).
                  bind
                    (serial_initialize-Stocked machine w max_prio process_max supplies.serial
                      supplies.serial_blocks priority n m _ _ r3 s3)
                    λ serial r4 (unused, s4). returns (clock, unused, ipc_eq, s4)

  -- Where the calls of other libraries succeed, 14 + n of each resource and 3 + m elements for threads
  -- are at hand, and the allocator gives a first untyped and at most 255 of them, the start of the root
  -- task ends: nothing is used, the table of the untypeds is free and lists all that the allocator gives,
  -- the two threads of the clock and the thread of the serial server are started with their routines,
  -- and n of each resource and m elements for threads are left.
  pub system_initialize-IsBooted :
      (reserves allocates : ℕ → Bool) (sizes : ℕ → ℕ) (root_mem_size max_untypeds : ℕ)
      (bootstrap_mem_pool : Ptr) (n m : ℕ) (r : Resources)
      → bootstrap_mem_pool ≢ null
      → supplies.env_page ≢ null
      → 3 + m ≤ length supplies.thread_blocks
      → Distinct (els (slots none supplies.thread_blocks))
      → allocates 0 ≡ true
      → 0 < max_untypeds
      → max_untypeds < 2 ^ 8
      → root_mem_size + untyped_bytes < 2 ^ 32
      → Stocked (14 + n) Anything r
      → Returns (IsBooted reserves allocates sizes root_mem_size max_untypeds n m) (
          system_initialize machine supplies max_prio max_threads process_max main_name reserves
            allocates sizes root_mem_size max_untypeds bootstrap_mem_pool r)
  unfolding system_initialize
  system_initialize-IsBooted reserves allocates sizes root_mem_size max_untypeds bootstrap_mem_pool
        n m r pool_ne page_ne le d given room few small s =
      Returns-check _ (not (bootstrap_mem_pool == null)) r
        (rw (==-ne bootstrap_mem_pool null pool_ne) refl)
        (bind (bootstrap_root-one r) λ is_root r1 (one, same).
          bind
            (create_mutex-Stocked (more 13 n) Anything r1 (
              subst (Stocked (more 14 n) Anything) (sym same)
                (Stocked-le (more 14 n) (14 + n) Anything r (omega arith) s)))
            λ global_mutex r2 (mutex_ne, s2).
              bind (alloc_notification-Stocked _ _ r2 s2) λ idling_aep r3 s3.
                bind
                  (divide_untypeds-IsTable reserves allocates sizes root_mem_size max_untypeds r3
                    given room few small)
                  λ division r4 (same', divided, table).
                    bind
                      (initialize_root_task_env-Stocked (more 12 n) (more 3 m) idling_aep r4 page_ne
                        (omega (arith, le)) d (subst (Stocked _ Anything) (sym same') s3))
                      λ env r5 (pid, s5).
                        bind (alloc_notification-Stocked _ _ r5 s5) λ wait_aep r6 s6.
                          bind (create_mutex-Stocked _ _ r6 s6) λ logmutex r7 (log_ne, s7).
                            bind (start_services-Stocked _ n m r7 s7)
                              λ services r8 (clock, unused, ipc_eq, s8). returns (record {
                                is_root_eq = one;
                                pid_eq = pid;
                                clock = clock;
                                serial = unused;
                                ipc_eq = ipc_eq;
                                processes_eq = refl;
                                divided = divided;
                                table = table;
                                mutex_ne = mutex_ne;
                                logmutex_ne = log_ne;
                                stocked = s8;
                              }))
