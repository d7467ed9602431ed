-- ===== src/Tester/Examples.antt =====
-- Runs of sel4osapi_list_tester of src/list.c.
use libsel4osapi.Prelude.{ℕ, refl, none, List, [], ◌∷◌, arith}
use libsel4osapi.Run.{Returns}
use libsel4osapi.LinkedList.{Ptr, node}
use libsel4osapi.Pool.{Heap, Block}
use libsel4osapi.Tester.{Round, list_tester}
use libsel4osapi.Tester.Kept.{IsTester}
use libsel4osapi.Tester.Built.{list_tester-IsTester}

abbrev heap : Heap ℕ
heap = record { nodes = λ a. none; elems = λ a. none }

abbrev block : Ptr → Ptr → Block ℕ
block el entry = record { el = el; entry = entry; el_junk = 7; entry_junk = node 9 9 9 }

abbrev blocks : List (Block ℕ)
blocks = block 11 10 ∷ block 21 20 ∷ block 31 30 ∷ block 41 40 ∷ block 51 50 ∷ []

-- Two entries are scheduled, and the second one, whose integer is 2, is returned.
abbrev rounds : List Round
rounds =
    record { r = 4; vals = 0 ∷ 1 ∷ 2 ∷ 3 ∷ 4 ∷ [] }
    ∷ record { r = 6; vals = 4 ∷ 3 ∷ 2 ∷ 1 ∷ 0 ∷ [] }
    ∷ record { r = 7; vals = 8 ∷ 1 ∷ 5 ∷ 12 ∷ 4 ∷ [] }
    ∷ []

list_tester-IsTester_example : Returns (IsTester 5) (list_tester blocks rounds heap)
list_tester-IsTester_example =
    list_tester-IsTester blocks rounds heap refl
      (
        omega arith,
        refl,
        (omega arith, refl, (omega arith, refl, (omega arith, refl, (omega arith, refl, tt)))),
      )
      (
        omega arith,
        refl,
        (omega arith, refl, (omega arith, refl, (omega arith, refl, (omega arith, refl, tt)))),
      )
      (
        (refl, (refl, (refl, (refl, (refl, tt))))),
        (
          (refl, (refl, (refl, (refl, (refl, tt))))),
          ((refl, (refl, (refl, (refl, (refl, tt))))), tt),
        ),
      )
