-- ===== src/Memory/Examples.antt =====
-- A run of the allocation of untypeds of src/util.c.
use libsel4osapi.Prelude.{ℕ, Bool, arith, ltb}
use libsel4osapi.Memory.{allocate_untypeds}
use libsel4osapi.Memory.Allocate.{IsLargest, allocate_untypeds-IsLargest}

-- The allocator has five untypeds.
abbrev five : ℕ → Bool
five k = ltb k 5

allocate_untypeds-IsLargest_example :
    IsLargest five 30000000 10 0 (allocate_untypeds five 30000000 10)
allocate_untypeds-IsLargest_example = allocate_untypeds-IsLargest five 30000000 10 (omega arith)
