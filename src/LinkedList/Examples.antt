-- ===== src/LinkedList/Examples.antt =====
-- Runs of src/list.c on a list of two nodes.
use libsel4osapi.Prelude.{◌≡◌, refl, none, some, [], ◌∷◌, arith, ◌==◌, if◌then◌else◌}
use libsel4osapi.Run.{ok, Returns}
use libsel4osapi.LinkedList.{null, node, Nodes, insert_node, unlink, to_array}
use libsel4osapi.LinkedList.Chain.{Cells, Distinct, Chain}
use libsel4osapi.LinkedList.Insert.{IsAppended, insert_node-IsAppended}
use libsel4osapi.LinkedList.ToArray.{to_array-prefix}
use libsel4osapi.LinkedList.Unlink.{IsUnlinked, unlink-IsUnlinked}

-- The list 10, 20, and the loose node 30.
abbrev two_nodes : Nodes
two_nodes a =
    if a == 10
    then some (node 11 20 0)
    else if a == 20
    then some (node 21 0 10)
    else if a == 30
    then some (node 31 7 7)
    else none

abbrev two_cells : Cells
two_cells = (10, 11) ∷ (20, 21) ∷ []

two_cells-Distinct : Distinct two_cells
two_cells-Distinct = (omega arith, refl, (omega arith, refl, tt))

two_cells-Chain : Chain two_nodes null two_cells null
two_cells-Chain = (refl, (refl, tt))

insert_node-IsAppended_example :
    Returns
      (IsAppended two_nodes ((10, 11) ∷ (20, 21) ∷ (30, 31) ∷ []))
      (insert_node 3 10 30 two_nodes)
insert_node-IsAppended_example =
    insert_node-IsAppended two_nodes 30 31 7 7 (omega arith) refl 3 two_cells two_cells-Distinct
      refl two_cells-Chain (omega arith)

unlink-IsUnlinked_example :
    Returns (IsUnlinked two_nodes 20 21 two_cells ((10, 11) ∷ [])) (unlink 10 20 two_nodes)
unlink-IsUnlinked_example =
    unlink-IsUnlinked two_nodes 20 21 ((10, 11) ∷ []) [] two_cells-Distinct two_cells-Chain

to_array-prefix_example : to_array 10 1 two_nodes ≡ ok (11 ∷ [], 1) two_nodes
to_array-prefix_example =
    to_array-prefix two_nodes 10 11 ((20, 21) ∷ []) 1 two_cells-Distinct two_cells-Chain
