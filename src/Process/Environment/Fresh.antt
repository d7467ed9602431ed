-- ===== src/Process/Environment/Fresh.antt =====
-- The environment of a new process of src/process.c: its capabilities lie in front of the slots that
-- the process is told are free.
use libsel4osapi.Prelude.{
  ℕ, suc, ◌+◌, ◌^◌, ◌≤◌, ◌<◌, ◌≡◌, ◌≢◌, refl, ap, ◌∙◌, List, [], ◌∷◌, length, arith,
}
use libsel4osapi.Run.{Returns, returns, bind}
use libsel4osapi.LinkedList.{Ptr}
use libsel4osapi.Process.{Untyped}
use libsel4osapi.Process.Environment.Pages.{IsShared}
use libsel4osapi.Process.Environment.{Config, Parent, Env, Copies, init_env}
use libsel4osapi.Process.Environment.Staged.{
  granted, copy_objects-IsPlaced, link_services-IsLinked, free_slots-exact,
}

-- The capabilities of an environment.
abbrev pub caps : Env → List ℕ
caps env =
    env.page_directory ∷ env.tcb ∷ env.sysclock_server_ep ∷ env.idling_aep ∷ env.stack_op_ep
    ∷ env.serial_server_ep ∷ env.fault_endpoint ∷ []

abbrev pub AllBelow : ℕ → List ℕ → Type 0
AllBelow b [] = Unit
AllBelow b (x ∷ xs) = (x < b) × AllBelow b xs

-- The environment names the process and its clients, the slots from `base` up to the free ones hold
-- the copies that were made, and they are all the capabilities that it has. Its untypeds are those
-- that the loop grants from the table `us`, its buffers are mapped, and `spare` slots are left.
pub record IsFresh (mint : ℕ → ℕ) (config : Config) (base pid spare : ℕ) (us : List Untyped)
    (p : Parent) (env : Env) (s : Copies) : Type 0 where
  pub grant_eq : env.untypeds ≡ (granted mint config pid us).1
  pub table_eq : s.table ≡ (granted mint config pid us).0
  pub rx_shared : IsShared config.rx_buf_size env.rx
  pub tx_shared : IsShared config.tx_buf_size env.tx
  pub serial_shared : IsShared config.serial_buf_size env.serial
  pub stack_ep_ne : env.stack_op_ep ≢ 0
  pub spare_le : spare ≤ length s.slots
  pub pid_eq : env.pid ≡ pid
  pub ipc_eq : env.ipc_id ≡ p.ipc_id
  pub serial_eq : env.serial_id ≡ p.serial_id
  pub free_eq : env.free_start ≡ base + length s.copied
  pub some_free : env.free_start < env.free_end
  pub caps_below : AllBelow env.free_start (caps env)
  pub untypeds_below : env.untypeds.untyped_count ≢ 0 → env.untypeds.end < env.free_start

module _ (mint : ℕ → ℕ) (page_cap : Ptr → ℕ) (map_pages : List ℕ → Ptr) (config : Config) (base : ℕ)
    (consecutive : (k : ℕ) → mint k ≡ base + k) (base_ne : base ≢ 0)
    (mapped : (p : Ptr) → page_cap p ≢ 0) (maps : (l : List ℕ) → map_pages l ≢ 0) where
  -- Where the process's slots are handed out one behind the other, every page can be copied and mapped,
  -- the root task has a notification, a slot for each page of the buffers and at least one but fewer than
  -- 256 untypeds, the receive buffer has no more pages than the send buffer, and the process's CSpace has
  -- room for seven capabilities and the untypeds, init_env ends, and every capability of the new
  -- environment lies in front of its free slots, which begin right behind the copies that were made.
  pub init_env-IsFresh :
      (p : Parent) (pid spare : ℕ) (name : List ℕ) (priority aep : ℕ) (aeps : List ℕ) (s : Copies)
      → s.copied ≡ []
      → s.notifications ≡ aep ∷ aeps
      → config.rx_pages + (config.tx_pages + (config.serial_pages + spare)) ≤ length s.slots
      → config.rx_pages ≤ config.tx_pages
      → 0 < length s.table
      → length s.table < 2 ^ 8
      → base + (7 + length s.table) < 2 ^ config.cspace_size_bits
      → 2 ^ config.cspace_size_bits < 2 ^ 32
      → Returns
          (IsFresh mint config base pid spare s.table p)
          (init_env mint page_cap map_pages config p pid name priority s)
  unfolding init_env
  init_env-IsFresh p pid spare name priority aep aeps s c e room le some_ut few space word =
      bind
        (copy_objects-IsPlaced mint page_cap map_pages config base consecutive base_ne mapped maps p
          pid aep aeps _ s.table s e some_ut few
          (record { copied_eq = ap length c; slots_le = room; table_eq = refl }))
        λ o s1 (placed, g1).
          let n = suc (suc (2 + o.untypeds.untyped_count)) in
          bind
            (link_services-IsLinked mint page_cap map_pages config base consecutive base_ne mapped
              maps p pid n spare _ s1 le g1)
            λ l s2 (linked, g2).
              let fault_at : l.fault_endpoint ≡ base + (6 + o.untypeds.untyped_count) =
                omega (arith, linked.fault_eq) in
              bind
                (free_slots-exact mint page_cap map_pages config base consecutive base_ne mapped
                  maps l.fault_endpoint s2 (omega (arith, fault_at, placed.count_le, space)) word)
                λ (start, end) s3 (same, exact, behind). returns (record {
                  grant_eq = placed.grant_eq;
                  table_eq = ap (λ z. z.table) same ∙ g2.table_eq;
                  rx_shared = linked.rx_shared;
                  tx_shared = linked.tx_shared;
                  serial_shared = linked.serial_shared;
                  stack_ep_ne = omega (arith, linked.op_eq, base_ne);
                  spare_le = omega (arith, g2.slots_le, ap (λ z. length z.slots) same);
                  pid_eq = refl;
                  ipc_eq = refl;
                  serial_eq = refl;
                  free_eq =
                      omega (arith, exact, fault_at, g2.copied_eq, ap (λ z. length z.copied) same);
                  some_free = behind;
                  caps_below = (
                    omega (arith, exact, fault_at, placed.pd_eq),
                    (
                      omega (arith, exact, fault_at, placed.tcb_eq),
                      (
                        omega (arith, exact, fault_at, placed.clock_eq),
                        (
                          omega (arith, exact, fault_at, placed.idle_eq),
                          (
                            omega (arith, exact, fault_at, linked.op_eq),
                            (
                              omega (arith, exact, fault_at, linked.ser_eq),
                              (omega (arith, exact), tt),
                            ),
                          ),
                        ),
                      ),
                    ),
                  );
                  untypeds_below = λ c. omega (arith, exact, placed.untypeds_below c, fault_at);
                })
