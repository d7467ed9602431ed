-- ===== src/Process/Create/Examples.antt =====
-- The first process that the root task of src/process.c creates.
use libsel4osapi.Prelude.{◌+◌, refl, none, [], ◌∷◌, arith}
use libsel4osapi.Run.{Returns}
use libsel4osapi.Pool.View.{Slot, View}
use libsel4osapi.Ipc.{IpcClient}
use libsel4osapi.Serial.{SerialClient}
use libsel4osapi.Process.Environment.Examples.{config, root, mint_at, cap_of, mapped_at}
use libsel4osapi.Process.Create.{Native, Process, System, process_create}
use libsel4osapi.Process.Create.Registered.{IsCreated, supplied, process_create-IsCreated}

abbrev no_elements : (E : Type 0) → View E
no_elements E = record { size = 1; free = []; used = []; init_fn = none; compare_fn = none }

abbrev pub system : System
system = record {
  processes = no_elements Process;
  serial = record { server_ep = 7; clients = no_elements SerialClient; op_size = 0; output = [] };
  ipc = record { clients = no_elements IpcClient; pages = [] };
  copies = root;
  user_untypeds = λ i. 200 + i;
  sysclock_ep = 104;
  udp_stack_ep = 105;
  env_pages = [];
  serial_pages = [];
  natives = [];
}

abbrev pub native : Native
native = record { pd = 101; tcb = 102; fault_endpoint = 103 }

abbrev pub process : Slot Process
process = record {
  entry = 10;
  el = 11;
  value = record { env = none; fault_endpoint = 0; ipcclient = 0; serialclient = 0 };
}

abbrev pub serial_client : Slot SerialClient
serial_client = record {
  entry = 20;
  el = 21;
  value = record { id = 0; buf_avail = 0; buf = []; buf_size = 0; server_ep = 0 };
}

abbrev pub ipc_client : Slot IpcClient
ipc_client = record {
  entry = 30;
  el = 31;
  value = record {
    id = 0;
    tx_buf_avail = 0;
    rx_buf_avail = 0;
    rx_buf = 0;
    rx_buf_size = 0;
    tx_buf = 0;
    tx_buf_size = 0;
  };
}

abbrev pub before : System
before =
    supplied mint_at cap_of mapped_at config 8 (λ k. refl) (omega arith) (λ p. omega arith)
      (λ l. omega arith) system process [] 4096 [] native [] 401 [] serial_client [] 20480 (0 ∷ [])
      [] ipc_client [] 8192 12288 []

process_create-IsCreated_example :
    Returns
      (IsCreated mint_at config 8 1 0 system.copies.table process 21 31)
      (process_create mint_at cap_of mapped_at config (112 ∷ []) 100 before)
process_create-IsCreated_example =
    process_create-IsCreated mint_at cap_of mapped_at config 8 (λ k. refl) (omega arith)
      (λ p. omega arith) (λ l. omega arith) system process [] 4096 [] native [] 401 [] serial_client
      [] 20480 (0 ∷ []) [] ipc_client [] 8192 12288 [] (112 ∷ []) 100 0 refl
      (record { left = (omega arith, refl, tt); right = tt; apart = (refl, tt) }) (omega arith) refl
      (record {
        elements = record { left = (omega arith, refl, tt); right = tt; apart = (refl, tt) };
        numbered = tt;
      })
      refl (record { left = (omega arith, refl, tt); right = tt; apart = (refl, tt) }) (omega arith)
      (omega arith) refl (omega arith) (omega arith) (omega arith) (omega arith) (omega arith)
      (omega arith)
