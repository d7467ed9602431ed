-- ===== src/System/Life/Examples.antt =====
-- The life of the first process.
use libsel4osapi.Prelude.{ℕ, ◌+◌, refl, [], ◌∷◌, arith}
use libsel4osapi.Run.{Returns}
use libsel4osapi.Buffer.{Bytes}
use libsel4osapi.Process.Granted.{assign-first}
use libsel4osapi.Process.Environment.Examples.{config, root, untyped, mint_at, cap_of, mapped_at}
use libsel4osapi.Process.Create.{process_create}
use libsel4osapi.Process.Create.Examples.{
  system, native, process, serial_client, ipc_client, before,
}
use libsel4osapi.System.Examples.{accepts}
use libsel4osapi.System.Life.Restored.{IsLife, process_create-IsLife}

abbrev name_of_main : ℕ → Bytes
name_of_main pid = 112 ∷ pid ∷ []

process_create-IsLife_example :
    Returns
      (IsLife ℕ mint_at mapped_at accepts 4 4 name_of_main root.table)
      (process_create mint_at cap_of mapped_at config (112 ∷ []) 100 before)
process_create-IsLife_example =
    process_create-IsLife ℕ mint_at cap_of mapped_at config 8 (λ k. refl) (omega arith)
      (λ p. omega arith) (λ l. omega arith) (omega arith) (omega arith) (omega arith) accepts
      (λ slot size_bits. refl) 4 4 name_of_main system process [] 4096 [] native [] 401 []
      serial_client [] 20480 (0 ∷ []) [] ipc_client [] 8192 12288 [] (112 ∷ []) 100 refl
      (record { left = (omega arith, refl, tt); right = tt; apart = (refl, tt) }) (omega arith) refl
      (record {
        elements = record { left = (omega arith, refl, tt); right = tt; apart = (refl, tt) };
        numbered = tt;
      })
      refl (record { left = (omega arith, refl, tt); right = tt; apart = (refl, tt) }) (omega arith)
      (omega arith) refl (omega arith) (omega arith) (omega arith) (omega arith) (omega arith)
      (omega arith) (omega arith)
      (assign-first (λ k. mint_at (2 + k)) 32 1 (untyped 0) _ refl (omega arith))
