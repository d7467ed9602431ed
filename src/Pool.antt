-- ===== src/Pool.antt =====
-- src/pool.c: a pool of preallocated elements, as two lists of src/list.c over an explicit heap.
-- An operation takes the pool's header and returns it changed.
pub mod View
pub mod Shape
pub mod Lookup
pub mod New
pub mod Alloc
pub mod Release
pub mod Update
pub mod Session
pub mod Examples
use libsel4osapi.Prelude.{
  ℕ, zero, suc, ◌-◌, Bool, not, ◌&&◌, Option, none, some, List, [], ◌∷◌, ℤ, pos, negsuc, is_zero,
  ltb, leb, ◌==◌, if◌then◌else◌,
}
use libsel4osapi.Run.{
  Run, ok, fail, assert_failed, bad_pointer, out_of_fuel, Cmd, pure, stop, ◌>>=◌, ◌>>◌, check,
}
use libsel4osapi.LinkedList.{Ptr, null, Node, Nodes, load, insert, insert_node, unlink}

-- The list nodes, and the elements of type `E` that they point at.
pub record Heap (E : Type 0) : Type 0 where
  pub nodes : Nodes
  pub elems : Ptr → Option E

-- simple_pool_t. A NULL function is `none`; `init_fn` has its argument `init_arg` applied.
pub record Pool (E : Type 0) : Type 0 where
  pub free_entries : Ptr
  pub entries : Ptr
  pub el_size : ℕ
  pub size : ℕ
  pub current_size : ℕ
  pub init_fn : Option (E → E)
  pub compare_fn : Option (E → E → ℤ)

-- What one round of simple_pool_new gets from malloc: the block of the element and that of the
-- list node, with what they hold.
pub record Block (E : Type 0) : Type 0 where
  pub el : Ptr
  pub entry : Ptr
  pub el_junk : E
  pub entry_junk : Node

module _ {E : Type 0} where
  abbrev pub with_nodes : {A : Type 0} → Heap E → Run Nodes A → Run (Heap E) A
  with_nodes h (ok a n) = ok a (record h { nodes = n })
  with_nodes h (fail f) = fail f

  abbrev pub on_nodes : {A : Type 0} → Cmd Nodes A → Cmd (Heap E) A
  on_nodes m h = with_nodes h (m h.nodes)

  unfoldable pub write_elem : (Ptr → Option E) → Ptr → E → Ptr → Option E
  write_elem s p v a = if a == p then some v else s a

  -- A read of the element at `p`.
  pub load_el : Ptr → Cmd (Heap E) E
  load_el p h =
      if p == null
      then fail bad_pointer
      else elim (h.elems p) [ none ↦ fail bad_pointer | some v ↦ ok v h ]

  pub store_el : Ptr → E → Cmd (Heap E) (Unit {0})
  store_el p v h = ok tt (record h { elems = write_elem h.elems p v })

  -- A client's write through the pointer to an element.
  pub change_el : Ptr → (E → E) → Cmd (Heap E) (Unit {0})
  unfolding load_el store_el
  change_el p f = do v ← load_el p; store_el p (f v)

  -- `if (pool->init_fn) pool->init_fn(el, pool->init_arg)`
  pub init_el : Option (E → E) → Ptr → Cmd (Heap E) (Unit {0})
  unfolding change_el
  init_el none e = pure tt
  init_el (some f) e = change_el e f

  pub init_entry : Option (E → E) → Ptr → Cmd (Heap E) (Unit {0})
  unfolding init_el
  init_entry none entry = pure tt
  init_entry (some f) entry = do n ← on_nodes (load entry); init_el (some f) n.el

  pub alloc_entry : ℕ → Pool E → Cmd (Heap E) (Ptr × Pool E)
  unfolding init_entry
  alloc_entry fuel pool =
      let entry = pool.free_entries in
      if entry == null then pure (null, pool) else do
        n ← on_nodes (load entry)
        check (not (n.el == null))
        free' ← on_nodes (unlink pool.free_entries entry)
        init_entry pool.init_fn entry
        entries' ← on_nodes (insert_node fuel pool.entries entry)
        check (leb (suc pool.current_size) pool.size)
        pure (
          entry,
          record pool {
            free_entries = free';
            entries = entries';
            current_size = suc pool.current_size;
          },
        )

  pub alloc : ℕ → Pool E → Cmd (Heap E) (Ptr × Pool E)
  alloc fuel pool = do
    (entry, pool') ← alloc_entry fuel pool
    if entry == null then pure (null, pool') else do n ← on_nodes (load entry); pure (n.el, pool')

  -- The assertion is on the decremented counter: it fails where the counter was 0.
  pub free_entry : ℕ → Pool E → Ptr → Cmd (Heap E) (ℤ × Pool E)
  free_entry fuel pool entry = do
    check (not (entry == null))
    entries' ← on_nodes (unlink pool.entries entry)
    check (not (pool.current_size == 0))
    init_entry pool.init_fn entry
    free' ← on_nodes (insert_node fuel pool.free_entries entry)
    pure (
      pos 0,
      record pool {
        free_entries = free';
        entries = entries';
        current_size = pool.current_size - 1;
      },
    )

  -- The test of one node in simple_pool_find_node.
  pub matches : Option (E → E → ℤ) → Ptr → Ptr → Cmd (Heap E) Bool
  matches none a e = pure (a == e)
  matches (some compare_fn) a e = do x ← load_el a; y ← load_el e; pure (is_zero (compare_fn x y))

  find_loop : ℕ → Pool E → Ptr → Ptr → Cmd (Heap E) Ptr
  find_loop zero pool e cursor = stop out_of_fuel
  find_loop (suc fuel) pool e cursor = if cursor == null then pure null else do
    n ← on_nodes (load cursor)
    hit ← matches pool.compare_fn n.el e
    if hit then pure cursor else find_loop fuel pool e n.next

  pub find_node : ℕ → Pool E → Ptr → Cmd (Heap E) Ptr
  unfolding find_loop
  find_node fuel pool e = find_loop fuel pool e pool.entries

  pub free : ℕ → Pool E → Ptr → Cmd (Heap E) (ℤ × Pool E)
  free fuel pool e = do
    check (not (e == null))
    entry ← find_node fuel pool e
    if entry == null then pure (negsuc 0, pool) else free_entry fuel pool entry

  -- The loop of simple_pool_new: a missing block is a malloc that returns NULL.
  unfoldable pub fill : ℕ → ℕ → List (Block E) → Pool E → Cmd (Heap E) (Pool E)
  fill zero fuel blocks pool = pure pool
  fill (suc n) fuel [] pool = stop assert_failed
  fill (suc n) fuel (b ∷ blocks) pool = do
    check (not (b.el == null))
    store_el b.el b.el_junk
    init_el pool.init_fn b.el
    free' ← on_nodes (insert fuel b.entry b.entry_junk pool.free_entries b.el)
    fill n fuel blocks (record pool { free_entries = free' })

  unfoldable pub new :
      (size el_size : ℕ)
      → Option (E → E)
      → Option (E → E → ℤ)
      → List (Block E)
      → Cmd (Heap E) (Pool E)
  unfolding fill
  new size el_size init_fn compare_fn blocks = do
    check (ltb 0 size && ltb 0 el_size)
    fill size (suc size) blocks (record {
      free_entries = null;
      entries = null;
      el_size = el_size;
      size = size;
      current_size = 0;
      init_fn = init_fn;
      compare_fn = compare_fn;
    })

  pub get_current_size : Pool E → ℕ
  get_current_size pool = pool.current_size
