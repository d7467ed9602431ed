-- ===== src/System/Life.antt =====
-- The life of a process as the root task sees it: sel4osapi_process_spawn and sel4osapi_process_delete
-- of src/process.c on a process of the pool. The calls that unmap its page and destroy its native part
-- are those of other libraries.
pub mod Restored
pub mod Examples
use libsel4osapi.Prelude.{ℕ, zero, suc, ◌+◌, ◌-◌, Option, none, some, List, [], ◌∷◌}
use libsel4osapi.Run.{Run, ok, fail, Cmd, pure, ◌>>=◌, ◌>>◌, need}
use libsel4osapi.LinkedList.{Ptr}
use libsel4osapi.Pool.View.{value_at}
use libsel4osapi.Process.{delete}
use libsel4osapi.Process.Environment.{Env}
use libsel4osapi.Process.Create.{Process, System}
use libsel4osapi.System.Start.{Message, process_spawn}

abbrev pub env_in : Option Process → Option Env
env_in none = none
env_in (some p) = p.env

-- `process->env`
pub process_env : Ptr → Cmd System Env
process_env p = λ s. need (env_in (value_at p s.processes.used)) s

abbrev pub in_slots : {A : Type 0} → System → Run (List ℕ) A → Run System A
in_slots s (ok a slots) = ok a (record s { copies = record s.copies { slots = slots } })
in_slots s (fail f) = fail f

-- The message goes to the endpoint of the process.
pub spawn : (map_pages : List ℕ → Ptr) → Ptr → Cmd System Message
unfolding process_env
spawn map_pages p = do process_env p; λ s. in_slots s (process_spawn map_pages s.copies.slots)

abbrev pub slots_from : (n slot : ℕ) → List ℕ
slots_from zero slot = []
slots_from (suc n) slot = slot ∷ slots_from n (suc slot)

-- The slots of the root task that it revokes; the process keeps its element of the pool.
pub process_delete : Ptr → Cmd System (List ℕ)
unfolding process_env
process_delete p = do
  env ← process_env p
  λ s. ok tt (record s { copies = record s.copies { table = delete env.untypeds s.copies.table } })
  pure (slots_from ((env.untypeds.end - env.untypeds.start) + 1) env.untypeds.start)
