-- ===== src/System/Life/Restored.antt =====
-- A process is created, starts and is deleted (src/process.c, src/system.c): it gets its memory, and the
-- root task gets it back.
use libsel4osapi.Prelude.{
  ℕ, suc, ◌+◌, ◌-◌, ◌%◌, ◌^◌, ◌≤◌, ◌<◌, ◌≡◌, ◌≢◌, refl, sym, ap, subst, ◌∙◌, Bool, true, none, some,
  List, [], ◌∷◌, ◌++◌, length, arith,
}
use libsel4osapi.Run.{ok, Returns, mono}
use libsel4osapi.LinkedList.{Ptr, null}
use libsel4osapi.LinkedList.Separate.{Separate}
use libsel4osapi.Pool.View.{Slot, value_at}
use libsel4osapi.Pool.Shape.{els}
use libsel4osapi.Buffer.{Bytes}
use libsel4osapi.Ipc.{IpcClient}
use libsel4osapi.Ipc.Clients.{client_refs}
use libsel4osapi.Serial.{SerialClient}
use libsel4osapi.Serial.Clients.{IsSerial}
use libsel4osapi.Udp.Stack.Requests.{unknown}
use libsel4osapi.Process.{Untyped, delete}
use libsel4osapi.Process.Granted.{new_untypeds}
use libsel4osapi.Process.Restore.{assigned, delete-assign}
use libsel4osapi.Process.Environment.{Config, Env}
use libsel4osapi.Process.Environment.Fresh.{IsFresh}
use libsel4osapi.Process.Environment.Staged.{granted}
use libsel4osapi.Process.Create.{Native, Process, System, process_create}
use libsel4osapi.Process.Create.Registered.{supplied, IsCreated, process_create-IsCreated}
use libsel4osapi.System.{Untypeds}
use libsel4osapi.System.Handover.{numbered, add_untypeds-new}
use libsel4osapi.System.Start.{Message, Supply, process_spawn, initialize_process}
use libsel4osapi.System.Start.Ready.{
  ready, IsStartable, env_message, process_spawn-sent, initialize_process-ready,
}
use libsel4osapi.System.Life.{process_env, spawn, slots_from, process_delete}

-- What becomes of the process at `p`. It is spawned, which leaves the system `spawned`; with the
-- message it becomes ready, whatever its allocator had before, and has the untypeds that are no longer
-- free in the table; and when it is deleted the table is `us` again.
pub record IsLife (W : Type 0) (mint : ℕ → ℕ) (map_pages : List ℕ → Ptr) (add_uts : ℕ → ℕ → Bool)
    (max_threads max_sockets : ℕ) (main_name : ℕ → Bytes) (us : List Untyped) (p : Ptr) (s : System)
    : Type 0 where
  pub env : Env
  pub message : Message
  pub spawned : System
  pub deleted : System
  pub env_eq : process_env p s ≡ ok env s
  pub spawn_eq : spawn map_pages p s ≡ ok message spawned
  pub ready_eq :
      (supply : Supply W) (uts : Untypeds)
      → initialize_process max_threads max_sockets main_name add_uts 3 message env supply uts
        ≡ ok
            (ready max_threads max_sockets main_name env supply)
            (uts ++ numbered (mint 2) (new_untypeds us spawned.copies.table))
  pub delete_eq :
      process_delete p spawned ≡ ok (slots_from env.untypeds.untyped_count (mint 2)) deleted
  pub restored : deleted.copies.table ≡ us

process_env-ok :
    (p : Ptr) (s : System) (v : Process) (env : Env)
    → value_at p s.processes.used ≡ some v
    → v.env ≡ some env
    → process_env p s ≡ ok env s
unfolding process_env
process_env-ok p s v env e e' = rw (e, e') refl

abbrev with_slots : System → List ℕ → System
with_slots s slots = record s { copies = record s.copies { slots = slots } }

abbrev with_table : System → List Untyped → System
with_table s table = record s { copies = record s.copies { table = table } }

spawn-ok :
    (map_pages : List ℕ → Ptr) (p : Ptr) (s : System) (env : Env) (m : Message) (slot : ℕ)
    (slots : List ℕ)
    → process_env p s ≡ ok env s
    → s.copies.slots ≡ slot ∷ slots
    → process_spawn map_pages (slot ∷ slots) ≡ ok m slots
    → spawn map_pages p s ≡ ok m (with_slots s slots)
unfolding spawn
spawn-ok map_pages p s env m slot slots e l sent =
    let sent' : process_spawn map_pages s.copies.slots ≡ ok m slots = rw l sent in
    rw (e, sent') refl

process_delete-ok :
    (p : Ptr) (s : System) (env : Env)
    → process_env p s ≡ ok env s
    → process_delete p s
      ≡ ok
          (slots_from ((env.untypeds.end - env.untypeds.start) + 1) env.untypeds.start)
          (with_table s (delete env.untypeds s.copies.table))
unfolding process_delete
process_delete-ok p s env e = rw e refl

module _ (W : Type 0) (mint : ℕ → ℕ) (page_cap : Ptr → ℕ) (map_pages : List ℕ → Ptr)
    (config : Config) (base : ℕ) (consecutive : (k : ℕ) → mint k ≡ base + k) (base_ne : base ≢ 0)
    (mapped : (p : Ptr) → page_cap p ≢ 0) (maps : (l : List ℕ) → map_pages l ≢ 0)
    (rx_size : 0 < config.rx_buf_size) (tx_size : 0 < config.tx_buf_size)
    (serial_size : 0 < config.serial_buf_size) (add_uts : ℕ → ℕ → Bool)
    (accepts : (slot size_bits : ℕ) → add_uts slot size_bits ≡ true) (max_threads max_sockets : ℕ)
    (main_name : ℕ → Bytes) where
  IsFresh-IsStartable :
      {pid spare : ℕ} {us : List Untyped} {parent : _} {env : Env} {t : _}
      → IsFresh mint config base pid spare us parent env t
      → IsStartable env
  IsFresh-IsStartable f = record {
    rx_buf = f.rx_shared.buf_ne;
    rx_size = omega (arith, f.rx_shared.size_eq, rx_size);
    tx_buf = f.tx_shared.buf_ne;
    tx_size = omega (arith, f.tx_shared.size_eq, tx_size);
    serial_buf = f.serial_shared.buf_ne;
    serial_size = omega (arith, f.serial_shared.size_eq, serial_size);
    stack_ep = f.stack_ep_ne;
  }

  step : (k : ℕ) → mint (2 + k) ≡ mint (2 + 0) + k
  step k = omega (arith, consecutive (2 + k), consecutive (2 + 0))

  IsLife-from :
      (pid : ℕ) (us : List Untyped) (e : Slot Process) (sc ic : Ptr) (p : Ptr) (s : System)
      (slots : List ℕ)
      → s.copies.slots ≡ slots
      → pid % 2 ^ 8 ≢ 0
      → length us < 2 ^ 8
      → (granted mint config pid us).1.untyped_count ≢ 0
      → IsCreated mint config base pid 1 us e sc ic p s
      → IsLife W mint map_pages add_uts max_threads max_sockets main_name us p s
  IsLife-from pid us e sc ic p s [] l pid_ne few some_ut c =
      absurd (omega (arith, c.fresh.spare_le, ap length l))
  IsLife-from pid us e sc ic p s (slot ∷ slots) l pid_ne few some_ut c =
      let env = c.env in
      let g = granted mint config pid us in
      let stored : value_at p s.processes.used ≡ some c.stored =
        subst (λ q. value_at q s.processes.used ≡ some c.stored) (sym c.result) c.stored_eq in
      let has_env = process_env-ok p s c.stored env stored c.env_eq in
      let range =
        (assigned (λ k. mint (2 + k)) config.mem_size step pid us (omega (arith, few))).range in
      let vaddr = map_pages (slot ∷ []) in
      record {
        env = env;
        message = env_message vaddr;
        spawned = with_slots s slots;
        deleted = with_table (with_slots s slots) (delete env.untypeds s.copies.table);
        env_eq = has_env;
        spawn_eq =
            spawn-ok map_pages p s env (env_message vaddr) slot slots has_env l
              (process_spawn-sent map_pages slot slots (maps (slot ∷ [])));
        ready_eq = λ supply uts.
            initialize_process-ready max_threads max_sockets main_name env supply add_uts vaddr uts
              _ (IsFresh-IsStartable c.fresh) (maps (slot ∷ []))
              (rw (c.fresh.grant_eq, c.fresh.table_eq)
                (add_untypeds-new add_uts accepts (λ k. mint (2 + k)) config.mem_size pid us uts
                  step pid_ne (omega (arith, few)) some_ut));
        delete_eq =
            process_delete-ok p (with_slots s slots) env
              (process_env-ok p (with_slots s slots) c.stored env stored c.env_eq)
            ∙ ap (λ q. ok q (with_table (with_slots s slots) (delete env.untypeds s.copies.table)))
                (rw c.fresh.grant_eq (
                  ap (λ n. slots_from n g.1.start)
                    (omega (arith, range.start_eq some_ut, range.end_eq some_ut))
                  ∙ ap (slots_from g.1.untyped_count) (range.start_eq some_ut)));
        restored =
            rw (c.fresh.grant_eq, c.fresh.table_eq)
              (delete-assign (λ k. mint (2 + k)) config.mem_size step pid us (omega (arith, few))
                some_ut);
      }

  -- A process that is created where both servers and the pool have a free element, the root task has
  -- pages, slots and fewer than 256 untypeds, and one of these is granted, lives: it can be spawned, it
  -- then becomes ready with the untypeds that the table has lost, and when it is deleted the table is
  -- what it was before it was created.
  pub process_create-IsLife :
      (s : System) (e : Slot Process) (rest : List (Slot Process)) (env_page : Ptr)
      (env_pages : List Ptr) (native : Native) (natives : List Native) (aep : ℕ) (aeps : List ℕ)
      (sc : Slot SerialClient) (screst : List (Slot SerialClient)) (buf : Ptr) (page : Bytes)
      (buffers : List (Ptr × Bytes)) (ic : Slot IpcClient) (icrest : List (Slot IpcClient))
      (rx tx : Ptr) (pages : List Ptr) (name : List ℕ) (priority : ℕ)
      → let before =
          supplied mint page_cap map_pages config base consecutive base_ne mapped maps s e rest
            env_page env_pages native natives aep aeps sc screst buf page buffers ic icrest rx tx
            pages in
        let pid = suc (length s.processes.used) in
        s.processes.init_fn ≡ none
        → Separate (els (e ∷ rest)) (els s.processes.used)
        → env_page ≢ null
        → s.serial.clients.init_fn ≡ none
        → IsSerial before.serial
        → s.ipc.clients.init_fn ≡ none
        → Separate (els (ic ∷ icrest)) (els s.ipc.clients.used)
        → rx ≢ null
        → tx ≢ null
        → unknown pid (client_refs s.ipc.clients.used) ≡ true
        → config.rx_pages + (config.tx_pages + (config.serial_pages + 1)) ≤ length s.copies.slots
        → config.rx_pages ≤ config.tx_pages
        → 0 < length s.copies.table
        → length s.copies.table < 2 ^ 8
        → base + (7 + length s.copies.table) < 2 ^ config.cspace_size_bits
        → 2 ^ config.cspace_size_bits < 2 ^ 32
        → pid % 2 ^ 8 ≢ 0
        → (granted mint config pid s.copies.table).1.untyped_count ≢ 0
        → Returns
            (IsLife W mint map_pages add_uts max_threads max_sockets main_name s.copies.table)
            (process_create mint page_cap map_pages config name priority before)
  process_create-IsLife s e rest env_page env_pages native natives aep aeps sc screst buf page
        buffers ic icrest rx tx pages name priority n d page_ne sn si cn cd rx_ne tx_ne u room le
        some_ut few space word pid_ne some_granted =
      mono
        (process_create-IsCreated mint page_cap map_pages config base consecutive base_ne mapped
          maps s e rest env_page env_pages native natives aep aeps sc screst buf page buffers ic
          icrest rx tx pages name priority 1 n d page_ne sn si cn cd rx_ne tx_ne u room le some_ut
          few space word)
        λ p s' c.
          IsLife-from (suc (length s.processes.used)) s.copies.table e sc.el ic.el p s'
            s'.copies.slots refl pid_ne few some_granted c
