-- ===== src/System/Start/Ready.antt =====
-- A process that was spawned (src/process.c) is ready when it has set up its part of the system
-- (src/system.c).
use libsel4osapi.Prelude.{
  ltb_of-lt, ℕ, ◌+◌, ◌%◌, ◌^◌, ◌≤◌, ◌<◌, ◌≡◌, ◌≢◌, refl, ap, ◌∙◌, Bool, true, none, List, [], ◌∷◌,
  ◌++◌, length, ==-ne,
}
use libsel4osapi.Run.{ok}
use libsel4osapi.LinkedList.{Ptr, null}
use libsel4osapi.Pool.New.{new_view}
use libsel4osapi.Buffer.{Bytes}
use libsel4osapi.Process.{Untyped, no_grant, assign}
use libsel4osapi.Process.Granted.{new_untypeds}
use libsel4osapi.Process.Environment.{Env}
use libsel4osapi.System.{Untypeds, add_untypeds}
use libsel4osapi.System.Handover.{numbered, add_untypeds-new}
use libsel4osapi.System.Start.{
  Message, null_fault, copy_cap, process_spawn, Supply, User, main_thread, initialize_process,
}

-- An environment with its buffers and its endpoint to the UDP stack.
pub record IsStartable (env : Env) : Type 0 where
  pub rx_buf : env.rx.buf ≢ null
  pub rx_size : 0 < env.rx.buf_size
  pub tx_buf : env.tx.buf ≢ null
  pub tx_size : 0 < env.tx.buf_size
  pub serial_buf : env.serial.buf ≢ null
  pub serial_size : 0 < env.serial.buf_size
  pub stack_ep : env.stack_op_ep ≢ 0

-- The message that a process is sent when its environment is mapped at `vaddr`.
abbrev pub env_message : (vaddr : Ptr) → Message
env_message vaddr = record { label = null_fault; length = 1; mr0 = vaddr }

pub process_spawn-sent :
    (map_pages : List ℕ → Ptr) (slot : ℕ) (slots : List ℕ)
    → map_pages (slot ∷ []) ≢ 0
    → process_spawn map_pages (slot ∷ slots) ≡ ok (env_message (map_pages (slot ∷ []))) slots
unfolding process_spawn copy_cap
process_spawn-sent map_pages slot slots v_ne = rw (==-ne (map_pages (slot ∷ [])) 0 v_ne) refl

module _ {W : Type 0} (max_threads max_sockets : ℕ) (main_name : ℕ → Bytes) (env : Env)
    (supply : Supply W) where
  -- The process's part of the system: nothing is used, and the buffers are available.
  abbrev pub ready : User W
  ready = record {
    is_root = 0;
    env = env;
    main_thread = main_thread main_name env supply.notification supply.ipc;
    threads = new_view max_threads none none supply.thread_blocks;
    sockets = new_view max_sockets none none supply.socket_blocks;
    rx_buf_avail = 1;
    tx_buf_avail = 1;
    serial_buf_avail = 1;
  }

  pub initialize_process-ready :
      (add_uts : ℕ → ℕ → Bool) (vaddr : Ptr) (uts uts' : Untypeds)
      → IsStartable env
      → vaddr ≢ 0
      → add_untypeds add_uts env.untypeds uts ≡ ok tt uts'
      → initialize_process max_threads max_sockets main_name add_uts 3
          (env_message vaddr)
          env
          supply
          uts
        ≡ ok ready uts'
  unfolding initialize_process
  initialize_process-ready add_uts vaddr uts uts' i v_ne added =
      rw
        (
          ==-ne vaddr 0 v_ne,
          added,
          ==-ne env.rx.buf null i.rx_buf,
          ==-ne env.tx.buf null i.tx_buf,
          ltb_of-lt 0 env.rx.buf_size i.rx_size,
          ltb_of-lt 0 env.tx.buf_size i.tx_size,
          ==-ne env.stack_op_ep 0 i.stack_ep,
          ==-ne env.serial.buf null i.serial_buf,
          ltb_of-lt 0 env.serial.buf_size i.serial_size,
        )
        refl

  -- Spawning a process whose environment has its buffers, where a slot is left and the page can be
  -- mapped, sends it a message on which it becomes ready: its pools are unused, its buffers available,
  -- its main thread active, and its allocator has the untypeds that it was granted out of at most 256.
  pub process_spawn-ready :
      (map_pages : List ℕ → Ptr) (slot : ℕ) (slots : List ℕ) (add_uts : ℕ → ℕ → Bool) (mint : ℕ → ℕ)
      (mem_size pid : ℕ) (us : List Untyped) (uts : Untypeds)
      → IsStartable env
      → map_pages (slot ∷ []) ≢ 0
      → ((slot size_bits : ℕ) → add_uts slot size_bits ≡ true)
      → ((k : ℕ) → mint k ≡ mint 0 + k)
      → pid % 2 ^ 8 ≢ 0
      → length us ≤ 2 ^ 8
      → (assign mint mem_size pid 0 us no_grant).1.untyped_count ≢ 0
      → env.untypeds ≡ (assign mint mem_size pid 0 us no_grant).1
      → (m : Message) × (process_spawn map_pages (slot ∷ slots) ≡ ok m slots)
        × (initialize_process max_threads max_sockets main_name add_uts 3 m env supply uts
            ≡ ok ready (
                uts
                ++ numbered (mint 0) (new_untypeds us (assign mint mem_size pid 0 us no_grant).0)))
  process_spawn-ready map_pages slot slots add_uts mint mem_size pid us uts i v_ne accepts step
        pid_ne few granted e =
      (
        env_message (map_pages (slot ∷ [])),
        process_spawn-sent map_pages slot slots v_ne,
        initialize_process-ready add_uts (map_pages (slot ∷ [])) uts _ i v_ne (
            ap (λ g. add_untypeds add_uts g uts) e
            ∙ add_untypeds-new add_uts accepts mint mem_size pid us uts step pid_ne few granted),
      )
