-- ===== src/System/Divide.antt =====
-- The table of the untypeds after the start of src/system.c, and the processes that use it.
use libsel4osapi.Prelude.{
  ltb_of-lt, ℕ, zero, suc, ◌+◌, ◌%◌, ◌^◌, ◌≤◌, ◌<◌, ◌≡◌, ◌≢◌, refl, ap, Bool, true, false, ◌⊎◌, inl,
  inr, ◌∙◌, List, ◌∷◌, length, ltb, arith, subst, sym,
}
use libsel4osapi.Run.{Returns, returns, Returns-check, mono}
use libsel4osapi.Memory.{allocate_untypeds, untyped_bytes}
use libsel4osapi.Memory.Allocate.{
  IsLargest, UntilFailure, allocate_untypeds-IsLargest, allocate_untypeds-UntilFailure,
}
use libsel4osapi.Process.{Untyped, no_grant, assign, delete}
use libsel4osapi.Process.Restore.{delete-assign}
use libsel4osapi.Process.Granted.{assign-first}
use libsel4osapi.System.{Division, table_of, divide_untypeds, root_task_num_untypeds, uint_max}

pub length-table_of : (sizes : ℕ → ℕ) (n i : ℕ) → length (table_of sizes n i) ≡ n
unfolding table_of
length-table_of sizes zero i = refl
length-table_of sizes (suc n) i = ap suc (length-table_of sizes n (suc i))

pub table_of-suc :
    (sizes : ℕ → ℕ) (n i : ℕ)
    → table_of sizes (suc n) i
      ≡ record { allocation = 0; size_bits = sizes i % 2 ^ 8 } ∷ table_of sizes n (suc i)
unfolding table_of
table_of-suc sizes n i = refl

-- Deleting a process that was just created gives the table back.
abbrev pub Restores : (mint : ℕ → ℕ) → (mem_size pid : ℕ) → List Untyped → Type 0
Restores mint mem_size pid us =
    delete (assign mint mem_size pid 0 us no_grant).1 (assign mint mem_size pid 0 us no_grant).0
    ≡ us

table_of-Restores :
    (sizes : ℕ → ℕ) (n : ℕ) (mint : ℕ → ℕ) (mem_size pid : ℕ)
    → 0 < n
    → n ≤ 2 ^ 8
    → ((k : ℕ) → mint k ≡ mint 0 + k)
    → 0 < mem_size
    → Restores mint mem_size pid (table_of sizes n 0)
unfolding table_of
table_of-Restores sizes zero mint mem_size pid some_ut few step some_mem = absurd (omega arith)
table_of-Restores sizes (suc n) mint mem_size pid some_ut few step some_mem =
    delete-assign mint mem_size step pid (table_of sizes (suc n) 0)
      (omega (arith, length-table_of sizes n 1)) (assign-first mint mem_size pid _ _ refl some_mem)

-- What remains of the division when the allocator gives a first untyped and there is room for fewer than
-- 256 of them: all that it gives are in the table, and the objects of the reserve are freed.
pub record IsDivided (reserves allocates : ℕ → Bool) (root_mem_size max_untypeds : ℕ) (d : Division)
    : Type 0 where
  pub all : UntilFailure allocates max_untypeds 0 (length d.table)
  pub reserve : IsLargest reserves root_mem_size root_task_num_untypeds 0 d.freed

-- The table after the division: every entry is free, and there are at least one and fewer than 256.
pub record IsTable (sizes : ℕ → ℕ) (us : List Untyped) : Type 0 where
  pub table_eq : us ≡ table_of sizes (length us) 0
  pub some_untyped : 0 < length us
  pub few : length us < 2 ^ 8

pub divide_untypeds-IsTable :
    (reserves allocates : ℕ → Bool) (sizes : ℕ → ℕ) (root_mem_size max_untypeds : ℕ) {S : Type 0}
    (s : S)
    → allocates 0 ≡ true
    → 0 < max_untypeds
    → max_untypeds < 2 ^ 8
    → root_mem_size + untyped_bytes < 2 ^ 32
    → Returns
        (λ d s'.
          (s' ≡ s)
          × IsDivided reserves allocates root_mem_size max_untypeds d
          × IsTable sizes d.table)
        (divide_untypeds reserves allocates sizes root_mem_size max_untypeds s)
unfolding divide_untypeds
divide_untypeds-IsTable reserves allocates sizes root_mem_size max_untypeds s given room few small =
    let n = allocate_untypeds allocates uint_max max_untypeds in
    let a = allocate_untypeds-UntilFailure allocates max_untypeds in
    let n_ne : n ≢ 0 = λ e. some_given n e a.stopped in
    let exact : n % 2 ^ 8 ≡ n = omega (arith, a.at_most, few) in
    let size = length-table_of sizes (n % 2 ^ 8) 0 in
    Returns-check _ (ltb 0 (n % 2 ^ 8)) s (ltb_of-lt _ _ (omega (arith, exact, n_ne))) (
      returns (
        refl,
        record {
          all = subst (UntilFailure allocates max_untypeds 0) (sym (size ∙ exact)) a;
          reserve = allocate_untypeds-IsLargest reserves root_mem_size root_task_num_untypeds small;
        },
        record {
          table_eq = ap (λ k. table_of sizes k 0) (sym size);
          some_untyped = omega (arith, size, exact, n_ne);
          few = omega (arith, size);
        },
      ))
  where
    some_given : (n : ℕ) → n ≡ 0 → (n ≡ max_untypeds) ⊎ (allocates n ≡ false) → ⊥
    some_given n e (inl full) = omega arith
    some_given n e (inr refused) =
        let z : allocates 0 ≡ false = subst (λ k. allocates k ≡ false) e refused in cc

-- Where the allocator gives a first untyped, the reserve does not come close to 2 ^ 32 bytes and there is
-- room for fewer than 256 untypeds, dividing the untypeds succeeds: the table has an entry for each
-- untyped that the allocator gives, the objects of the reserve are freed, and creating a first process
-- and deleting it leaves the table as it was.
pub divide_untypeds-Restores :
    (reserves allocates : ℕ → Bool) (sizes : ℕ → ℕ) (root_mem_size max_untypeds : ℕ) (mint : ℕ → ℕ)
    (mem_size pid : ℕ) {S : Type 0} (s : S)
    → allocates 0 ≡ true
    → 0 < max_untypeds
    → max_untypeds < 2 ^ 8
    → root_mem_size + untyped_bytes < 2 ^ 32
    → ((k : ℕ) → mint k ≡ mint 0 + k)
    → 0 < mem_size
    → Returns
        (λ d s'.
          (s' ≡ s)
          × IsDivided reserves allocates root_mem_size max_untypeds d
          × Restores mint mem_size pid d.table)
        (divide_untypeds reserves allocates sizes root_mem_size max_untypeds s)
divide_untypeds-Restores reserves allocates sizes root_mem_size max_untypeds mint mem_size pid s
      given room few small step some_mem =
    mono
      (divide_untypeds-IsTable reserves allocates sizes root_mem_size max_untypeds s given room few
        small)
      λ d s' (same, divided, table). (
        same,
        divided,
        subst (Restores mint mem_size pid) (sym table.table_eq) (
            table_of-Restores sizes (length d.table) mint mem_size pid table.some_untyped
              (let f = table.few in omega arith) step some_mem),
      )
