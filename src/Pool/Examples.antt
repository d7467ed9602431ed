-- ===== src/Pool/Examples.antt =====
-- Runs of src/pool.c on a pool of numbers.
use libsel4osapi.Prelude.{ℕ, ◌≡◌, refl, none, some, List, [], ◌∷◌, arith, ◌==◌, if◌then◌else◌}
use libsel4osapi.Run.{ok, Returns}
use libsel4osapi.LinkedList.{Ptr, node}
use libsel4osapi.Pool.{Heap, Pool, Block, alloc, free, find_node, new}
use libsel4osapi.Pool.View
use libsel4osapi.Pool.View.{Slot, View, split_at}
use libsel4osapi.Pool.Shape.{Shows}
use libsel4osapi.Pool.New.{new_view, new-Shows}
use libsel4osapi.Pool.Alloc.{alloc-View}
use libsel4osapi.Pool.Release.{hit_entry, find_node-split_at, free-View}

-- A node at each of 10 (in use) and 20 (free), with the elements 11 and 21.
abbrev pub heap : Heap ℕ
heap = record {
  nodes = λ a. if a == 10 then some (node 11 0 0) else if a == 20 then some (node 21 0 0) else none;
  elems = λ a. if a == 11 then some 5 else if a == 21 then some 0 else none;
}

abbrev header : Pool ℕ
header = record {
  free_entries = 20;
  entries = 10;
  el_size = 4;
  size = 2;
  current_size = 1;
  init_fn = some (λ n. 0);
  compare_fn = none;
}

abbrev view : View ℕ
view = record {
  size = 2;
  free = record { entry = 20; el = 21; value = 0 } ∷ [];
  used = record { entry = 10; el = 11; value = 5 } ∷ [];
  init_fn = some (λ n. 0);
  compare_fn = none;
}

shown : Shows heap header view
shown = record {
  nodes_apart = record {
    left = (omega arith, refl, tt);
    right = (omega arith, refl, tt);
    apart = (refl, tt);
  };
  els_apart = record {
    left = (omega arith, refl, tt);
    right = (omega arith, refl, tt);
    apart = (refl, tt);
  };
  free_eq = refl;
  used_eq = refl;
  free_chain = (refl, tt);
  used_chain = (refl, tt);
  free_values = (refl, tt);
  used_values = (refl, tt);
  count = refl;
  total = refl;
  size_eq = refl;
  init_eq = refl;
  compare_eq = refl;
}

alloc-View_example :
    Returns
      (λ (e, p') h'. (e ≡ (View.alloc view).0) × Shows h' p' (View.alloc view).1)
      (alloc 3 header heap)
alloc-View_example = alloc-View 3 heap header view shown (omega arith)

find_node-split_at_example :
    find_node 3 header 11 heap ≡ ok (hit_entry (split_at none 11 5 view.used)) heap
find_node-split_at_example =
    find_node-split_at 3 heap header view 11 5 shown (omega arith) refl (omega arith)

free-View_example :
    Returns
      (λ (r, p') h'. (r ≡ (View.release view 11 5).0) × Shows h' p' (View.release view 11 5).1)
      (free 3 header 11 heap)
free-View_example = free-View 3 heap header view 11 5 shown (omega arith) refl (omega arith)

abbrev block : (el entry : Ptr) → Block ℕ
block e n = record { el = e; entry = n; el_junk = 77; entry_junk = node 1 2 3 }

abbrev pub blocks : List (Block ℕ)
blocks = block 11 10 ∷ block 21 20 ∷ []

new-Shows_example :
    Returns
      (λ p h'. Shows h' p (new_view 2 (some (λ n. 0)) none blocks))
      (new 2 4 (some (λ n. 0)) none blocks heap)
new-Shows_example =
    new-Shows 2 4 (some (λ n. 0)) none blocks heap (omega arith) (omega arith) refl
      (omega arith, refl, (omega arith, refl, tt)) (omega arith, refl, (omega arith, refl, tt))
