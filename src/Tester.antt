-- ===== src/Tester.antt =====
-- sel4osapi_list_tester of src/list.c, which moves nodes between two lists at random. The elements
-- are integers. `r` and `vals` are what rand returns in a round: first the choice of the operation,
-- then the values for which the round looks. The list of rounds ends where `thread->active` is cleared.
-- `blocks` are what malloc returns for the integers and the nodes. What the function prints is left out.
pub mod Found
pub mod Kept
pub mod Built
pub mod Examples
use libsel4osapi.Prelude.{ℕ, zero, suc, ◌+◌, ◌%◌, List, [], ◌∷◌, not, ltb, ◌==◌, if◌then◌else◌}
use libsel4osapi.Run.{bad_pointer, out_of_fuel, Cmd, pure, stop, ◌>>=◌, ◌>>◌, check}
use libsel4osapi.LinkedList.{Ptr, null, load, insert, insert_node, unlink}
use libsel4osapi.Pool.{Heap, Block, on_nodes, load_el, store_el}

-- The local variables of the function.
pub record Tester : Type 0 where
  pub free_entries : Ptr
  pub entries : Ptr
  pub i : ℕ

pub record Round : Type 0 where
  pub r : ℕ
  pub vals : List ℕ

abbrev pub pool_size : ℕ
pool_size = 5

-- Case 0: the first free entry becomes the last current one.
pub schedule_entry : ℕ → Tester → Cmd (Heap ℕ) Tester
schedule_entry fuel t =
    let entry = t.free_entries in
    if entry == null then pure t else do
      node ← on_nodes (load entry)
      val ← load_el node.el
      check (val == 0)
      free' ← on_nodes (unlink t.free_entries entry)
      store_el node.el (t.i % pool_size + 1)
      entries' ← on_nodes (insert_node fuel t.entries entry)
      pure (record { free_entries = free'; entries = entries'; i = suc t.i })

-- The inner loop of case 1: the last node whose integer is `val`, `entry` if none.
pub scan : ℕ → (val : ℕ) → (cursor entry : Ptr) → Cmd (Heap ℕ) Ptr
scan zero val cursor entry = stop out_of_fuel
scan (suc fuel) val cursor entry = if cursor == null then pure entry else do
  node ← on_nodes (load cursor)
  check (not (node.el == null))
  n ← load_el node.el
  scan fuel val node.next (if n == val then cursor else entry)

-- The outer loop of case 1.
pub look_for : ℕ → (vals : List ℕ) → (entries : Ptr) → Cmd (Heap ℕ) Ptr
unfolding scan
look_for fuel [] entries = stop out_of_fuel
look_for fuel (v ∷ vals) entries = do
  entry ← scan fuel (v % pool_size + 1) entries null
  if entry == null then look_for fuel vals entries else pure entry

-- Case 1: a current entry becomes the last free one.
pub return_entry : ℕ → List ℕ → Tester → Cmd (Heap ℕ) Tester
unfolding look_for
return_entry fuel vals t = if t.entries == null then pure t else do
  entry ← look_for fuel vals t.entries
  check (not (entry == null))
  node ← on_nodes (load entry)
  el_n ← load_el node.el
  entries' ← on_nodes (unlink t.entries entry)
  store_el node.el 0
  free' ← on_nodes (insert_node fuel t.free_entries entry)
  pure (record { free_entries = free'; entries = entries'; i = suc t.i })

pub round : ℕ → Round → Tester → Cmd (Heap ℕ) Tester
unfolding schedule_entry return_entry
round fuel x t = if x.r % 2 == 0 then schedule_entry fuel t else return_entry fuel x.vals t

pub run : ℕ → List Round → Tester → Cmd (Heap ℕ) Tester
unfolding round
run fuel [] t = pure t
run fuel (x ∷ xs) t = if ltb t.i 100 then (do t' ← round fuel x t; run fuel xs t') else pure t

-- The loop that fills the free list.
pub allocate_entries : (n fuel : ℕ) → List (Block ℕ) → (free_entries : Ptr) → Cmd (Heap ℕ) Ptr
allocate_entries zero fuel blocks free_entries = pure free_entries
allocate_entries (suc n) fuel [] free_entries = stop bad_pointer
allocate_entries (suc n) fuel (b ∷ blocks) free_entries =
    if b.el == null then stop bad_pointer else do
      store_el b.el 0
      free' ← on_nodes (insert fuel b.entry b.entry_junk free_entries b.el)
      allocate_entries n fuel blocks free'

-- A list has at most `pool_size` nodes.
pub list_tester : List (Block ℕ) → List Round → Cmd (Heap ℕ) Tester
unfolding allocate_entries run
list_tester blocks rounds = do
  free ← allocate_entries pool_size (suc pool_size) blocks null
  run (suc pool_size) rounds (record { free_entries = free; entries = null; i = 0 })
