-- ===== src/System.antt =====
-- src/system.c: how the untyped memory of the machine is divided when the root task starts, and how a
-- process takes over what it was granted.
pub mod Handover
pub mod Divide
pub mod Start
pub mod Life
pub mod Examples
use libsel4osapi.Prelude.{
  ℕ, zero, suc, ◌+◌, ◌-◌, ◌*◌, ◌%◌, ◌^◌, Bool, not, Option, none, some, List, [], ◌∷◌, ◌++◌, ltb,
  leb, get_elem?, length, ◌==◌,
}
use libsel4osapi.Run.{ok, fail, assert_failed, Cmd, pure, stop, ◌>>=◌, ◌>>◌, check}
use libsel4osapi.Memory.{allocate_untypeds}
use libsel4osapi.Process.{Untyped, Grant}

-- What the allocator of a process has been given: the slots of untypeds, with their sizes.
abbrev pub Untypeds : Type 0
Untypeds = List (ℕ × ℕ)

abbrev or_zero : Option ℕ → ℕ
or_zero none = 0
or_zero (some n) = n

-- `add_uts` says whether allocman_utspace_add_uts returns 0.
module _ (add_uts : (slot size_bits : ℕ) → Bool) where
  -- The loop of sel4osapi_system_bootstrap_user, `n` rounds from `slot` on.
  pub add_loop : (n slot size_bits_index : ℕ) → List ℕ → Cmd Untypeds (Unit {0})
  add_loop zero slot size_bits_index size_bits_list = pure tt
  add_loop (suc n) slot size_bits_index size_bits_list = do
    let size_bits = or_zero (get_elem? size_bits_list size_bits_index)
    check (add_uts slot size_bits)
    λ uts. ok tt (uts ++ (slot, size_bits) ∷ [])
    add_loop n (suc slot) (suc size_bits_index) size_bits_list

  -- It runs while the slot is not past the end.
  pub add_untypeds : Grant → Cmd Untypeds (Unit {0})
  unfolding add_loop
  add_untypeds g = add_loop (suc g.end - g.start) g.start 0 g.untyped_size_bits_list

abbrev pub root_task_num_untypeds : ℕ
root_task_num_untypeds = 16

abbrev pub uint_max : ℕ
uint_max = 2 ^ 32 - 1

-- The first `n` entries of user_untypeds_allocation and user_untypeds_size_bits: the sizes are those
-- of the objects, and nothing is allocated.
pub table_of : (sizes : ℕ → ℕ) → (n i : ℕ) → List Untyped
table_of sizes zero i = []
table_of sizes (suc n) i =
    record { allocation = 0; size_bits = sizes i % 2 ^ 8 } ∷ table_of sizes n (suc i)

-- What is left of the division: the table of the untypeds for processes, and how many objects of the
-- reserve were freed.
pub record Division : Type 0 where
  pub table : List Untyped
  pub freed : ℕ

-- sel4osapi_system_initialize, from the reserve for the root task on. `reserves k` and `allocates k`
-- say whether the k-th vka_alloc_untyped of the reserve and of the processes returns 0, `sizes` are the
-- sizes of the latter's objects. user_untypeds_num is a uint8_t.
pub divide_untypeds :
    (reserves allocates : ℕ → Bool)
    → (sizes : ℕ → ℕ) → (root_mem_size max_untypeds : ℕ) → {S : Type 0} → Cmd S Division
unfolding table_of
divide_untypeds reserves allocates sizes root_mem_size max_untypeds = do
  let reserve_num = allocate_untypeds reserves root_mem_size root_task_num_untypeds
  let user_untypeds_num = allocate_untypeds allocates uint_max max_untypeds % 2 ^ 8
  check (ltb 0 user_untypeds_num)
  pure (record { table = table_of sizes user_untypeds_num 0; freed = reserve_num })
