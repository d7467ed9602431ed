-- ===== src/Process.antt =====
-- The untyped memory of a process: the loop of sel4osapi_process_init_env in src/process.c that
-- grants it, and the loop of sel4osapi_process_delete that takes it back. `mint k` is the slot of
-- the process that gets the k-th capability, a parameter.
pub mod Restore
pub mod Granted
pub mod Environment
pub mod Create
pub mod Examples
use libsel4osapi.Prelude.{
  ℕ, zero, suc, ◌+◌, ◌-◌, ◌%◌, ◌^◌, Option, none, some, not, List, [], ◌∷◌, ◌++◌, ltb, ◌==◌,
  get_elem?, if◌then◌else◌,
}

-- user_untypeds_allocation[i] and user_untypeds_size_bits[i] of the system.
pub record Untyped : Type 0 where
  pub allocation : ℕ
  pub size_bits : ℕ

-- The fields of the process environment that the loop fills, and its local variables. An array is
-- the list of the entries written so far, and 0 behind them.
pub record Grant : Type 0 where
  pub start : ℕ
  pub end : ℕ
  pub untyped_indices : List ℕ
  pub untyped_size_bits_list : List ℕ
  pub untyped_count : ℕ
  pub untyped_size : ℕ

-- The page of a new environment holds zeros.
abbrev pub no_grant : Grant
no_grant = record {
  start = 0;
  end = 0;
  untyped_indices = [];
  untyped_size_bits_list = [];
  untyped_count = 0;
  untyped_size = 0;
}

abbrev pub behind_kept : Untyped → List Untyped × Grant → List Untyped × Grant
behind_kept u (us, g) = (u ∷ us, g)

module _ (mint : ℕ → ℕ) (mem_size : ℕ) where
  -- What the loop's body writes for the free untyped `u` at `i`.
  pub take_untyped : ℕ → Untyped → Grant → Grant
  take_untyped i u g =
      let proc_ut_cap = mint g.untyped_count in
      record {
        start = if g.untyped_count == 0 then proc_ut_cap else g.start;
        end = proc_ut_cap;
        untyped_indices = g.untyped_indices ++ (i % 2 ^ 8) ∷ [];
        untyped_size_bits_list = g.untyped_size_bits_list ++ u.size_bits ∷ [];
        untyped_count = suc g.untyped_count;
        untyped_size = (g.untyped_size + 2 ^ u.size_bits) % 2 ^ 32;
      }

  -- The loop from `i` on: the table and the grant after it.
  pub assign : (pid i : ℕ) → List Untyped → Grant → List Untyped × Grant
  unfolding take_untyped
  assign pid i [] g = ([], g)
  assign pid i (u ∷ us) g =
      let skipped = assign pid (suc i) us g in
      let granted = assign pid (suc i) us (take_untyped i u g) in
      if ltb g.untyped_size mem_size
      then (if not (u.allocation == 0)
          then behind_kept u skipped
          else behind_kept (record u { allocation = pid % 2 ^ 8 }) granted)
      else (u ∷ us, g)

-- `user_untypeds_allocation[j] = 0`
pub release_at : List Untyped → ℕ → List Untyped
release_at [] j = []
release_at (u ∷ us) zero = record u { allocation = 0 } ∷ us
release_at (u ∷ us) (suc j) = u ∷ release_at us j

abbrev or_zero : Option ℕ → ℕ
or_zero none = 0
or_zero (some n) = n

-- The loop of sel4osapi_process_delete, `n` rounds from `i` on.
pub release_loop : ℕ → (i : ℕ) → List ℕ → List Untyped → List Untyped
unfolding release_at
release_loop zero i indices table = table
release_loop (suc n) i indices table =
    release_loop n (suc i) indices (release_at table (or_zero (get_elem? indices i)))

-- sel4osapi_process_delete, as far as the table of the untypeds goes.
pub delete : Grant → List Untyped → List Untyped
unfolding release_loop
delete g table = release_loop ((g.end - g.start) + 1) 0 g.untyped_indices table
