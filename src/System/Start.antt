-- ===== src/System/Start.antt =====
-- How a process starts: sel4osapi_process_spawn of src/process.c sends it the address of its environment,
-- and sel4osapi_system_initialize_process of src/system.c receives it and sets up the process's own part
-- of the system. `copy_slots` are what vka_cspace_alloc of the root task will return, and `map_pages`
-- maps a page in the process.
pub mod Ready
use libsel4osapi.Prelude.{
  ℕ, suc, ◌+◌, Bool, true, false, not, none, List, [], ◌∷◌, ltb, leb, ◌==◌, if◌then◌else◌,
}
use libsel4osapi.Run.{Run, ok, fail, assert_failed, blocked, Cmd, pure, stop, ◌>>=◌, ◌>>◌, check}
use libsel4osapi.LinkedList.{Ptr, null}
use libsel4osapi.Pool.{Block}
use libsel4osapi.Pool.New.{new_view}
use libsel4osapi.Pool.View.{View}
use libsel4osapi.Buffer.{Bytes}
use libsel4osapi.Udp.Sockets.{UdpSocket}
use libsel4osapi.Thread.{ThreadInfo, Thread}
use libsel4osapi.Process.Environment.{Env}
use libsel4osapi.System.{Untypeds, add_untypeds}

-- A message with one register.
pub record Message : Type 0 where
  pub label : ℕ
  pub length : ℕ
  pub mr0 : ℕ

-- seL4_Fault_NullFault
abbrev pub null_fault : ℕ
null_fault = 0

-- sel4osapi_util_copy_cap, with the slots that are left.
pub copy_cap : Cmd (List ℕ) ℕ
copy_cap [] = fail assert_failed
copy_cap (x ∷ xs) = ok x xs

-- sel4osapi_process_spawn, once the process's thread runs: the message that goes to its endpoint.
pub process_spawn : (map_pages : List ℕ → Ptr) → Cmd (List ℕ) Message
unfolding copy_cap
process_spawn map_pages = do
  process_data_frame_copy ← copy_cap
  let vaddr = map_pages (process_data_frame_copy ∷ [])
  check (not (vaddr == 0))
  pure (record { label = null_fault; length = 1; mr0 = vaddr })

-- sel4osapi_process_signal_root: the message that it sends before it idles.
pub signal_root : (exit_code : ℕ) → Message
signal_root exit_code = record { label = null_fault; length = 1; mr0 = exit_code }

-- sel4osapi_process_join returns the label of the message, and drops its register.
pub process_join : Message → ℕ
process_join m = m.label

-- What the other libraries hand out to the process: the elements of the pools, a notification and the
-- address of the IPC buffer.
pub record Supply (W : Type 0) : Type 0 where
  pub thread_blocks : List (Block (Thread W))
  pub socket_blocks : List (Block UdpSocket)
  pub notification : ℕ
  pub ipc : Ptr

-- The process's sel4osapi_system_t, with the counts of its semaphores.
pub record User (W : Type 0) : Type 0 where
  pub is_root : ℕ
  pub env : Env
  pub main_thread : ThreadInfo
  pub threads : View (Thread W)
  pub sockets : View UdpSocket
  pub rx_buf_avail : ℕ
  pub tx_buf_avail : ℕ
  pub serial_buf_avail : ℕ

-- sel4osapi_system_initialize_main_thread; `main_name` formats the name.
pub main_thread : (main_name : ℕ → Bytes) → Env → (notification : ℕ) → (ipc : Ptr) → ThreadInfo
main_thread main_name env notification ipc = record {
  tid = 0;
  name = main_name env.pid;
  arg = null;
  tls = null;
  active = 1;
  wait_aep = notification;
  priority = env.priority;
  ipc = ipc;
  ipc_word = 0;
}

module _ {W : Type 0} (max_threads max_sockets : ℕ) (main_name : ℕ → Bytes) where
  -- sel4osapi_system_initialize_process, with all services configured: `env` is what stands at the
  -- address that the message carries.
  pub initialize_process :
      (add_uts : ℕ → ℕ → Bool) → (argc : ℕ) → Message → Env → Supply W → Cmd Untypeds (User W)
  initialize_process add_uts argc m env supply = do
    check (argc == 3)
    check (m.label == null_fault)
    check (m.length == 1)
    check (not (m.mr0 == 0))
    add_untypeds add_uts env.untypeds
    check (not (env.rx.buf == null))
    check (not (env.tx.buf == null))
    check (ltb 0 env.rx.buf_size)
    check (ltb 0 env.tx.buf_size)
    check (not (env.stack_op_ep == 0))
    check (not (env.serial.buf == null))
    check (ltb 0 env.serial.buf_size)
    pure (record {
      is_root = 0;
      env = env;
      main_thread = main_thread main_name env supply.notification supply.ipc;
      threads = new_view max_threads none none supply.thread_blocks;
      sockets = new_view max_sockets none none supply.socket_blocks;
      rx_buf_avail = 1;
      tx_buf_avail = 1;
      serial_buf_avail = 1;
    })
