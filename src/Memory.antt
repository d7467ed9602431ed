-- ===== src/Memory.antt =====
-- sel4osapi_util_allocate_untypeds of src/util.c. `alloc_untyped k` says whether the k-th call of
-- vka_alloc_untyped returns 0; size_t has 32 bits.
pub mod Allocate
pub mod Examples
use libsel4osapi.Prelude.{ℕ, zero, suc, ◌+◌, ◌-◌, ◌%◌, ◌^◌, Bool, ◌&&◌, leb, if◌then◌else◌}

-- BIT(size_bits)
abbrev pub untyped_bytes : ℕ
untyped_bytes = 2 ^ 23

module _ (alloc_untyped : ℕ → Bool) (bytes : ℕ) where
  -- The loop, with `room` for as many more untypeds; their number after it.
  pub allocate_loop : (room num_untypeds allocated : ℕ) → ℕ
  allocate_loop zero num_untypeds allocated = num_untypeds
  allocate_loop (suc room) num_untypeds allocated =
      let more = (allocated + untyped_bytes) % 2 ^ 32 in
      let rest = allocate_loop room (suc num_untypeds) more in
      if leb more bytes && alloc_untyped num_untypeds then rest else num_untypeds

  pub allocate_untypeds : (max_untypeds : ℕ) → ℕ
  unfolding allocate_loop
  allocate_untypeds max_untypeds = allocate_loop max_untypeds 0 0
