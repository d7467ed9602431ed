-- ===== src/Process/Examples.antt =====
-- Runs of the untyped loops of src/process.c on a table of three untypeds.
use libsel4osapi.Prelude.{ℕ, ◌+◌, ◌≡◌, ◌≢◌, refl, List, [], ◌∷◌, arith}
use libsel4osapi.Process.{Untyped, no_grant, take_untyped, assign, delete, release_at}
use libsel4osapi.Process.Restore.{delete-assign, delete-nothing}

abbrev mint_at : ℕ → ℕ
mint_at k = 40 + k

abbrev untyped : ℕ → Untyped
untyped a = record { allocation = a; size_bits = 4 }

-- The second untyped belongs to process 2.
abbrev table : List Untyped
table = untyped 0 ∷ untyped 2 ∷ untyped 0 ∷ []

abbrev taken_table : List Untyped
taken_table = untyped 2 ∷ untyped 2 ∷ []

two_granted : (assign mint_at 32 3 0 table no_grant).1.untyped_count ≡ 2
unfolding assign take_untyped
two_granted = refl

none_granted : (assign mint_at 32 3 0 taken_table no_grant).1.untyped_count ≡ 0
unfolding assign
none_granted = refl

some_granted : (assign mint_at 32 3 0 table no_grant).1.untyped_count ≢ 0
some_granted e = omega (arith, two_granted, e)

delete-assign_example :
    delete (assign mint_at 32 3 0 table no_grant).1 (assign mint_at 32 3 0 table no_grant).0 ≡ table
delete-assign_example = delete-assign mint_at 32 (λ k. refl) 3 table (omega arith) some_granted

delete-nothing_example :
    delete
      (assign mint_at 32 3 0 taken_table no_grant).1
      (assign mint_at 32 3 0 taken_table no_grant).0
    ≡ release_at taken_table 0
delete-nothing_example =
    delete-nothing mint_at 32 (λ k. refl) 3 taken_table (omega arith) none_granted
