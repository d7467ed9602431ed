-- ===== src/Boot/Examples.antt =====
-- The start of the root task of src/system.c on a machine with three untypeds for processes.
use libsel4osapi.Prelude.{
  ℕ, zero, suc, ◌+◌, refl, Bool, true, false, none, List, [], ◌∷◌, ltb, arith,
}
use libsel4osapi.Run.{Returns}
use libsel4osapi.LinkedList.{Ptr, node}
use libsel4osapi.Pool.{Block}
use libsel4osapi.Pool.View.{View}
use libsel4osapi.Buffer.{Bytes}
use libsel4osapi.Thread.{Thread}
use libsel4osapi.Process.Environment.Examples.{config, mint_at, cap_of, mapped_at}
use libsel4osapi.Process.Create.{process_create}
use libsel4osapi.Process.Create.Examples.{native, process, serial_client, ipc_client}
use libsel4osapi.System.Examples.{accepts}
use libsel4osapi.System.Life.Restored.{IsLife}
use libsel4osapi.Boot.{Routine, timer_thread, Resources, Machine, enter}
use libsel4osapi.Boot.Services.Begun.{IsWorking}
use libsel4osapi.Boot.Stocked.{NoneZero, Stocked}
use libsel4osapi.Boot.Root.{Supplies, system_initialize}
use libsel4osapi.Boot.Root.Booted.{Anything, IsBooted, system_initialize-IsBooted}
use libsel4osapi.Boot.Root.First.{Parts, system_of, system_initialize-IsLife}

abbrev pub machine : Machine
machine = record {
  allocator = true;
  vspace = true;
  vmem = true;
  brk = true;
  io_ops = true;
  dma = true;
  timer = true;
  mint = true;
  serial = true;
  uart1 = true;
  uart2 = true;
}

working : IsWorking machine
working = record {
  allocator = refl;
  vspace = refl;
  vmem = refl;
  brk = refl;
  io_ops = refl;
  dma = refl;
  timer = refl;
  mint = refl;
  serial = refl;
  uart1 = refl;
  uart2 = refl;
}

abbrev pub thread : Thread (List Routine)
thread = record {
  local_endpoint = 0;
  thread_aep = 0;
  fault_endpoint = 0;
  thread_routine = enter timer_thread;
  info = record {
    tid = 0;
    name = [];
    arg = 0;
    tls = 0;
    active = 0;
    wait_aep = 0;
    priority = 0;
    ipc = 0;
    ipc_word = 0;
  };
  started = false;
  user_data = 0;
}

abbrev pub block : {E : Type 0} → Ptr → E → Block E
block el junk = record { el = el; entry = 1 + el; el_junk = junk; entry_junk = node 9 9 9 }

abbrev no_threads : View (Thread (List Routine))
no_threads = record { size = 0; free = []; used = []; init_fn = none; compare_fn = none }

abbrev pub upward : (n a : ℕ) → List ℕ
upward zero a = []
upward (suc n) a = suc a ∷ upward n (suc a)

pub upward-NoneZero : (n a : ℕ) → NoneZero (upward n a)
upward-NoneZero zero a = tt
upward-NoneZero (suc n) a = (omega arith, upward-NoneZero n (suc a))

abbrev resources : Resources
resources = record {
  threads = record {
    threads = no_threads;
    pid = 0;
    fault_endpoint = 0;
    endpoints = upward 20 100;
    notifications = upward 20 200;
    frames = upward 20 300;
    calls = [];
    world = [];
  };
  slots = upward 20 400;
  mutexes = upward 20 500;
}

stocked : Stocked (14 + 5) Anything resources
stocked = record {
  endpoints_le = omega arith;
  endpoints_ne = upward-NoneZero 20 100;
  notifications_le = omega arith;
  frames_le = omega arith;
  slots_le = omega arith;
  mutexes_le = omega arith;
  mutexes_ne = upward-NoneZero 20 500;
  pool = tt;
}

abbrev machine_supplies : Supplies
machine_supplies = record {
  env_page = 4096;
  pd = 1;
  cnode = 2;
  tcb = 3;
  cnode_size_bits = 12;
  ipc = 8192;
  thread_blocks = block 10 thread ∷ block 20 thread ∷ block 30 thread ∷ [];
  process_blocks = [];
  timeout_blocks = [];
  ipc_blocks = [];
  serial_blocks = [];
  ipc_pages = [];
  sysclock = 60;
  serial = 70;
}

abbrev name_of_main : ℕ → Bytes
name_of_main pid = 112 ∷ pid ∷ []

abbrev three : ℕ → Bool
three k = ltb k 3

abbrev parts : Parts
parts = record {
  udp_stack_ep = 80;
  user_untypeds = λ i. 200 + i;
  env_page = 4096;
  env_pages = [];
  native = native;
  natives = [];
  buf = 20480;
  page = 0 ∷ [];
  buffers = [];
}

system_initialize-IsBooted_example :
    Returns
      (IsBooted machine working machine_supplies 255 3 2 name_of_main three three
        (λ k. 23)
        30000000
        100
        5
        0)
      (system_initialize machine machine_supplies 255 3 2 name_of_main three three
        (λ k. 23)
        30000000
        100
        40960
        resources)
system_initialize-IsBooted_example =
    system_initialize-IsBooted machine working machine_supplies 255 3 2 name_of_main three three
      (λ k. 23) 30000000 100 40960 5 0 resources (omega arith) (omega arith) (omega arith)
      (omega arith, refl, (omega arith, refl, (omega arith, refl, tt))) refl (omega arith)
      (omega arith) (omega arith) stocked

system_initialize-IsLife_example :
    Returns
      (λ root r'.
        Returns
          (IsLife ℕ mint_at mapped_at accepts 3 4 name_of_main root.division.table)
          (process_create mint_at cap_of mapped_at config (112 ∷ []) 100 (system_of root r' parts)))
      (system_initialize machine
        (record machine_supplies {
          process_blocks = block 1000 process.value ∷ [];
          serial_blocks = block 1010 serial_client.value ∷ [];
          ipc_blocks = block 1020 ipc_client.value ∷ [];
          ipc_pages = 8192 ∷ 12288 ∷ [];
        })
        255
        3
        2
        name_of_main
        three
        three
        (λ k. 23)
        30000000
        10
        40960
        resources)
system_initialize-IsLife_example =
    system_initialize-IsLife ℕ mint_at cap_of mapped_at config 8 (λ k. refl) (omega arith)
      (λ p. omega arith) (λ l. omega arith) (omega arith) (omega arith) (omega arith) accepts
      (λ slot size_bits. refl) 3 4 2 255 name_of_main machine working machine_supplies
      (block 1000 process.value) [] (block 1010 serial_client.value) []
      (block 1020 ipc_client.value) [] 8192 12288 [] parts (112 ∷ []) 100 three three (λ k. 23)
      30000000 10 40960 5 0 resources (omega arith) (omega arith) (omega arith)
      (omega arith, refl, (omega arith, refl, (omega arith, refl, tt))) refl (omega arith)
      (omega arith) (omega arith) stocked (omega arith, refl, tt) (omega arith, refl, tt)
      (omega arith, refl, tt) (omega arith) (omega arith) (omega arith) (omega arith) (omega arith)
      (omega arith) (omega arith) (omega arith)
