-- ===== src/System/Examples.antt =====
-- The start of a machine with three untypeds for processes, and a process that is granted two of them.
use libsel4osapi.Prelude.{ℕ, ◌+◌, ◌≡◌, refl, Bool, true, List, [], ◌∷◌, ltb, arith}
use libsel4osapi.Run.{ok, Returns}
use libsel4osapi.Process.{Untyped, no_grant, assign}
use libsel4osapi.Process.Granted.{assign-first, new_untypeds}
use libsel4osapi.System.{add_untypeds, divide_untypeds}
use libsel4osapi.System.Divide.{IsDivided, Restores, divide_untypeds-Restores}
use libsel4osapi.System.Handover.{numbered, add_untypeds-new}

abbrev pub mint_at : ℕ → ℕ
mint_at k = 40 + k

abbrev pub untyped : ℕ → Untyped
untyped a = record { allocation = a; size_bits = 4 }

abbrev pub table : List Untyped
table = untyped 0 ∷ untyped 2 ∷ untyped 0 ∷ []

abbrev pub accepts : ℕ → ℕ → Bool
accepts slot size_bits = true

add_untypeds-new_example :
    add_untypeds accepts (assign mint_at 32 3 0 table no_grant).1 []
    ≡ ok tt (numbered 40 (new_untypeds table (assign mint_at 32 3 0 table no_grant).0))
add_untypeds-new_example =
    add_untypeds-new accepts (λ slot size_bits. refl) mint_at 32 3 table [] (λ k. refl)
      (omega arith) (omega arith) (assign-first mint_at 32 3 (untyped 0) _ refl (omega arith))

abbrev three : ℕ → Bool
three k = ltb k 3

divide_untypeds-Restores_example :
    Returns
      (λ d s'. (s' ≡ tt {0}) × IsDivided three three 30000000 100 d × Restores mint_at 32 1 d.table)
      (divide_untypeds three three (λ k. 23) 30000000 100 (tt {0}))
divide_untypeds-Restores_example =
    divide_untypeds-Restores three three (λ k. 23) 30000000 100 mint_at 32 1 (tt {0}) refl
      (omega arith) (omega arith) (omega arith) (λ k. refl) (omega arith)
