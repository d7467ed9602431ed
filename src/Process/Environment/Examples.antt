-- ===== src/Process/Environment/Examples.antt =====
-- The environment of process 3 of src/process.c, with three untypeds in the system.
use libsel4osapi.Prelude.{ℕ, ◌+◌, refl, List, [], ◌∷◌, arith}
use libsel4osapi.Run.{Returns}
use libsel4osapi.LinkedList.{Ptr}
use libsel4osapi.Process.{Untyped}
use libsel4osapi.Process.Environment.{Config, Parent, Copies, init_env}
use libsel4osapi.Process.Environment.Fresh.{IsFresh, init_env-IsFresh}

abbrev pub config : Config
config = record {
  rx_pages = 1;
  rx_buf_size = 100;
  tx_pages = 2;
  tx_buf_size = 5000;
  serial_pages = 1;
  serial_buf_size = 4096;
  mem_size = 32;
  cspace_size_bits = 6;
}

abbrev pub parent : Parent
parent = record {
  pd = 101;
  tcb = 102;
  fault_endpoint = 103;
  sysclock_ep = 104;
  udp_stack_ep = 105;
  user_untypeds = λ i. 200 + i;
  ipc_id = 3;
  ipc_rx_buf = 8192;
  ipc_tx_buf = 12288;
  serial_id = 1;
  serial_server_ep = 106;
  serial_buf = 20480;
}

abbrev pub untyped : ℕ → Untyped
untyped a = record { allocation = a; size_bits = 4 }

abbrev pub root : Copies
root = record {
  copied = [];
  slots = 301 ∷ 302 ∷ 303 ∷ 304 ∷ 305 ∷ [];
  notifications = 401 ∷ [];
  table = untyped 0 ∷ untyped 2 ∷ untyped 0 ∷ [];
  parent_idling_aep = 0;
}

abbrev pub mint_at : ℕ → ℕ
mint_at k = 8 + k

abbrev pub cap_of : Ptr → ℕ
cap_of p = 1 + p

abbrev pub mapped_at : List ℕ → Ptr
mapped_at l = 4096

init_env-IsFresh_example :
    Returns
      (IsFresh mint_at config 8 3 0 root.table parent)
      (init_env mint_at cap_of mapped_at config parent 3 (112 ∷ []) 100 root)
init_env-IsFresh_example =
    init_env-IsFresh mint_at cap_of mapped_at config 8 (λ k. refl) (omega arith) (λ p. omega arith)
      (λ l. omega arith) parent 3 0 (112 ∷ []) 100 401 [] root refl refl (omega arith) (omega arith)
      (omega arith) (omega arith) (omega arith) (omega arith)
