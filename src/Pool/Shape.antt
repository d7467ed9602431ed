-- ===== src/Pool/Shape.antt =====
-- The heap of src/pool.c shows a pool: both lists are chained, no address stands twice, and the
-- elements hold the values of the view.
use libsel4osapi.Prelude.{
  suc, ◌+◌, ◌≡◌, ◌≢◌, refl, ap, false, Option, none, some, List, [], ◌∷◌, ◌++◌, arith, length,
}
use libsel4osapi.Run.{Run, ok, and_then, Cmd, Returns, returns}
use libsel4osapi.LinkedList.{Ptr, null, node, Nodes}
use libsel4osapi.LinkedList.Chain.{Cells, has, Chain, first, load-ok}
use libsel4osapi.LinkedList.Separate.{Separate}
use libsel4osapi.Pool.{Heap, Pool, with_nodes, write_elem, load_el, store_el, init_el, init_entry}
use libsel4osapi.Pool.View.{Slot, View, reset}

module _ {E : Type 0} where
  -- The slots as cells of list nodes, and as cells of elements.
  abbrev pub cells : List (Slot E) → Cells
  cells [] = []
  cells (s ∷ ss) = (s.entry, s.el) ∷ cells ss

  abbrev pub els : List (Slot E) → Cells
  els [] = []
  els (s ∷ ss) = (s.el, s.entry) ∷ els ss

  abbrev pub Values : (Ptr → Option E) → List (Slot E) → Type 0
  Values m [] = Unit
  Values m (s ∷ ss) = (m s.el ≡ some s.value) × Values m ss

  pub record Shows (h : Heap E) (p : Pool E) (v : View E) : Type 0 where
    pub nodes_apart : Separate (cells v.free) (cells v.used)
    pub els_apart : Separate (els v.free) (els v.used)
    pub free_eq : p.free_entries ≡ first (cells v.free) null
    pub used_eq : p.entries ≡ first (cells v.used) null
    pub free_chain : Chain h.nodes null (cells v.free) null
    pub used_chain : Chain h.nodes null (cells v.used) null
    pub free_values : Values h.elems v.free
    pub used_values : Values h.elems v.used
    pub count : p.current_size ≡ length v.used
    pub total : length v.free + length v.used ≡ p.size
    pub size_eq : v.size ≡ p.size
    pub init_eq : v.init_fn ≡ p.init_fn
    pub compare_eq : v.compare_fn ≡ p.compare_fn

  pub cells-append : (xs ys : List (Slot E)) → cells (xs ++ ys) ≡ cells xs ++ cells ys
  cells-append [] ys = refl
  cells-append (s ∷ xs) ys = ap (λ r. (s.entry, s.el) ∷ r) (cells-append xs ys)

  pub els-append : (xs ys : List (Slot E)) → els (xs ++ ys) ≡ els xs ++ els ys
  els-append [] ys = refl
  els-append (s ∷ xs) ys = ap (λ r. (s.el, s.entry) ∷ r) (els-append xs ys)

  pub length-cells : (xs : List (Slot E)) → length (cells xs) ≡ length xs
  length-cells [] = refl
  length-cells (s ∷ xs) = ap suc (length-cells xs)

  pub Values-append :
      (m : Ptr → Option E) (xs ys : List (Slot E)) → Values m xs → Values m ys → Values m (xs ++ ys)
  Values-append m [] ys a b = b
  Values-append m (s ∷ xs) ys a b = (a.0, Values-append m xs ys a.1 b)

  pub Values-split :
      (m : Ptr → Option E) (xs ys : List (Slot E)) → Values m (xs ++ ys) → Values m xs × Values m ys
  Values-split m [] ys a = (tt, a)
  Values-split m (s ∷ xs) ys a = let (b, c) = Values-split m xs ys a.1 in ((a.0, b), c)

  -- The elements when `init_fn` has run on the slot `s`.
  abbrev pub initialised : Option (E → E) → Slot E → (Ptr → Option E) → Ptr → Option E
  initialised none s m = m
  initialised (some f) s m = write_elem m s.el (f s.value)

  pub initialised-at :
      (f : Option (E → E)) (s : Slot E) (m : Ptr → Option E)
      → m s.el ≡ some s.value
      → initialised f s m s.el ≡ some (reset f s).value
  unfolding write_elem
  initialised-at none s m a = a
  initialised-at (some f) s m a = ground arith

  pub Values-initialised :
      (f : Option (E → E)) (s : Slot E) (m : Ptr → Option E) (xs : List (Slot E))
      → has s.el (els xs) ≡ false
      → Values m xs
      → Values (initialised f s m) xs
  unfolding write_elem
  Values-initialised none s m xs o a = a
  Values-initialised (some f) s m [] o a = tt
  Values-initialised (some f) s m (t ∷ xs) o a =
      (ground arith, Values-initialised (some f) s m xs (ground arith) a.1)

  pub reset_el : (f : Option (E → E)) (s : Slot E) → (reset f s).el ≡ s.el
  reset_el none s = refl
  reset_el (some f) s = refl

  pub reset_entry : (f : Option (E → E)) (s : Slot E) → (reset f s).entry ≡ s.entry
  reset_entry none s = refl
  reset_entry (some f) s = refl

  pub cells-snoc :
      (f : Option (E → E)) (s : Slot E) (xs : List (Slot E))
      → cells (xs ++ reset f s ∷ []) ≡ cells xs ++ (s.entry, s.el) ∷ []
  cells-snoc f s xs = rw (cells-append xs (reset f s ∷ []), reset_el f s, reset_entry f s)

  pub els-snoc :
      (f : Option (E → E)) (s : Slot E) (xs : List (Slot E))
      → els (xs ++ reset f s ∷ []) ≡ els xs ++ (s.el, s.entry) ∷ []
  els-snoc f s xs = rw (els-append xs (reset f s ∷ []), reset_el f s, reset_entry f s)

  pub Values-snoc :
      (f : Option (E → E)) (s : Slot E) (m : Ptr → Option E) (xs : List (Slot E))
      → has s.el (els xs) ≡ false
      → m s.el ≡ some s.value
      → Values m xs
      → Values (initialised f s m) (xs ++ reset f s ∷ [])
  Values-snoc f s m xs o a vs =
      Values-append _ xs (reset f s ∷ []) (Values-initialised f s m xs o vs)
        (rw (reset_el f s) (initialised-at f s m a), tt)

  pub load_el-ok :
      (h : Heap E) (e : Ptr) (x : E) → e ≢ null → h.elems e ≡ some x → load_el e h ≡ ok x h
  unfolding load_el
  load_el-ok h e x n a = ground arith

  pub store_el-ok :
      (h : Heap E) (e : Ptr) (x : E)
      → store_el e x h ≡ ok tt (record h { elems = write_elem h.elems e x })
  unfolding store_el
  store_el-ok h e x = refl

  pub init_el-none : (h : Heap E) (e : Ptr) → init_el none e h ≡ ok tt h
  unfolding init_el
  init_el-none h e = refl

  pub init_el-ok :
      (h : Heap E) (f : Option (E → E)) (s : Slot E)
      → s.el ≢ null
      → h.elems s.el ≡ some s.value
      → init_el f s.el h ≡ ok tt (record h { elems = initialised f s h.elems })
  unfolding init_el
  init_el-ok h none s n a = refl
  init_el-ok h (some f) s n a = rw (load_el-ok h s.el s.value n a)

  pub init_entry-ok :
      (h : Heap E) (f : Option (E → E)) (s : Slot E) (n v : Ptr)
      → s.entry ≢ null
      → s.el ≢ null
      → h.nodes s.entry ≡ some (node s.el n v)
      → h.elems s.el ≡ some s.value
      → init_entry f s.entry h ≡ ok tt (record h { elems = initialised f s h.elems })
  unfolding init_entry
  init_entry-ok h none s n v ne ne' at a = refl
  init_entry-ok h (some f) s n v ne ne' at a =
      rw (load-ok h.nodes s.entry s.el n v ne at) (init_el-ok h (some f) s ne' a)

  -- A run of a list operation inside a pool operation.
  pub lift :
      {A B : Type 0} {P : A → Nodes → Type 0} {Q : B → Heap E → Type 0} {r : Run Nodes A}
      (h : Heap E) (k : A → Cmd (Heap E) B)
      → Returns P r
      → ((a : A) (n : Nodes) → P a n → Returns Q (k a (record h { nodes = n })))
      → Returns Q (and_then (with_nodes h r) k)
  lift h k (returns p) next = next _ _ p
