-- ===== src/Tester/Kept.antt =====
-- What sel4osapi_list_tester of src/list.c tests: unlinking and inserting lose no node.
use libsel4osapi.Prelude.{
  ℕ, zero, suc, ◌+◌, ◌-◌, ◌%◌, ◌<◌, ◌≤◌, ◌≡◌, refl, subst, inl, inr, true, none, some, Option, List,
  [], ◌∷◌, ◌++◌, ltb, arith, ◌==◌, ==-ne, Bool-cases,
}
use libsel4osapi.Run.{ok, Returns, returns, bind}
use libsel4osapi.LinkedList.{null}
use libsel4osapi.LinkedList.Chain.{first, last, load-ok, Chain-split}
use libsel4osapi.LinkedList.Insert.{insert_node-IsAppended}
use libsel4osapi.LinkedList.Unlink.{unlink-IsUnlinked}
use libsel4osapi.Pool.{Heap, Pool}
use libsel4osapi.Pool.View.{Slot, View}
use libsel4osapi.Pool.Shape.{
  cells, Shows, length-cells, load_el-ok, store_el-ok, lift, initialised, cells-append,
}
use libsel4osapi.Pool.Alloc.{alloc-Shows, used_spared}
use libsel4osapi.Pool.Release.{
  release-Shows, nodes_out, free_spared, used-Chain, nodes_apart, values,
}
use libsel4osapi.Tester.{
  Tester, Round, pool_size, schedule_entry, look_for, return_entry, round, run,
}
use libsel4osapi.Tester.Found.{holds, drawn, look_for-found}

-- The two lists as those of a pool of `size` elements that sets an element to `v` when it moves.
abbrev pub pool_of : (size count v : ℕ) → Tester → Pool ℕ
pool_of size count v t = record {
  free_entries = t.free_entries;
  entries = t.entries;
  el_size = 4;
  size = size;
  current_size = count;
  init_fn = some (λ _. v);
  compare_fn = none;
}

abbrev pub view_of : (size v : ℕ) → (free used : List (Slot ℕ)) → View ℕ
view_of size v free used = record {
  size = size;
  free = free;
  used = used;
  init_fn = some (λ _. v);
  compare_fn = none;
}

abbrev pub Zeros : List (Slot ℕ) → Type 0
Zeros [] = Unit
Zeros (s ∷ ss) = (s.value ≡ 0) × Zeros ss

abbrev pub Tags : List (Slot ℕ) → Type 0
Tags [] = Unit
Tags (s ∷ ss) = (0 < s.value) × (s.value ≤ pool_size) × Tags ss

-- The lists `free` and `used` are well linked and share no node and no element, they have `size`
-- nodes together, and the integers are 0 in the one and from 1 to 5 in the other.
pub record IsTester (size : ℕ) (t : Tester) (h : Heap ℕ) : Type 0 where
  pub free : List (Slot ℕ)
  pub used : List (Slot ℕ)
  pub count : ℕ
  pub shows : Shows h (pool_of size count 0 t) (view_of size 0 free used)
  pub zeros : Zeros free
  pub tags : Tags used

Zeros-snoc : (ss : List (Slot ℕ)) (s : Slot ℕ) → Zeros ss → s.value ≡ 0 → Zeros (ss ++ s ∷ [])
Zeros-snoc [] s z e = (e, tt)
Zeros-snoc (t ∷ ss) s z e = (z.0, Zeros-snoc ss s z.1 e)

Tags-append : (ss ts : List (Slot ℕ)) → Tags ss → Tags ts → Tags (ss ++ ts)
Tags-append [] ts a b = b
Tags-append (s ∷ ss) ts (l, u, a) b = (l, u, Tags-append ss ts a b)

Tags-remove : (us vs : List (Slot ℕ)) (s : Slot ℕ) → Tags (us ++ s ∷ vs) → Tags (us ++ vs)
Tags-remove [] vs s (l, u, a) = a
Tags-remove (t ∷ us) vs s (l, u, a) = (l, u, Tags-remove us vs s a)

-- Each number below `n` is the remainder of a random number.
abbrev pub Covers : ℕ → List ℕ → Type 0
Covers zero vals = Unit
Covers (suc n) vals = (drawn n vals ≡ true) × Covers n vals

Covers-drawn : (n k : ℕ) (vals : List ℕ) → Covers n vals → k < n → drawn k vals ≡ true
Covers-drawn zero k vals c l = absurd (omega arith)
Covers-drawn (suc n) k vals c l = elim (Bool-cases (k == n)) [
  | inl e ↦ let c₀ = c.0 in ground arith
  | inr e ↦ Covers-drawn n k vals c.1 (ground arith)
]

-- What a move writes is no part of the shape.
pub reinit :
    (h : Heap ℕ) (p : Pool ℕ) (v : View ℕ) (f : Option (ℕ → ℕ))
    → Shows h p v
    → Shows h (record p { init_fn = f }) (record v { init_fn = f })
reinit h p v f sh = record {
  nodes_apart = sh.nodes_apart;
  els_apart = sh.els_apart;
  free_eq = sh.free_eq;
  used_eq = sh.used_eq;
  free_chain = sh.free_chain;
  used_chain = sh.used_chain;
  free_values = sh.free_values;
  used_values = sh.used_values;
  count = sh.count;
  total = sh.total;
  size_eq = sh.size_eq;
  init_eq = refl;
  compare_eq = sh.compare_eq;
}

module _ (fuel size : ℕ) (h : Heap ℕ) (t : Tester) (f : size < fuel) where
  schedule_of :
      (free used : List (Slot ℕ)) (count : ℕ)
      → Shows h (pool_of size count 0 t) (view_of size 0 free used)
      → Zeros free
      → Tags used
      → Returns (IsTester size) (schedule_entry fuel t h)
  unfolding schedule_entry
  schedule_of [] used count sh z g =
      let empty : (t.free_entries == null) ≡ true = rw sh.free_eq in
      rw empty (
        returns (record { free = []; used = used; count = count; shows = sh; zeros = z; tags = g }))
  schedule_of (s ∷ rest) used count sh z g =
      let tag = t.i % pool_size + 1 in
      let v = view_of size tag (s ∷ rest) used in
      let sh' =
        reinit h (pool_of size count 0 t) (view_of size 0 (s ∷ rest) used) (some (λ _. tag)) sh in
      let p = pool_of size count tag t in
      let ne = sh.nodes_apart.left.0 in
      let ne' = sh.els_apart.left.0 in
      rw
        (
          sh.free_eq,
          ==-ne s.entry null ne,
          load-ok h.nodes s.entry s.el (first (cells rest) null) null ne sh.free_chain.0,
          load_el-ok h s.el s.value ne' sh.free_values.0,
          z.0,
        )
        (lift h _
          (unlink-IsUnlinked h.nodes s.entry s.el [] (cells rest) sh.nodes_apart.left sh.free_chain)
          λ free' n u.
            rw (store_el-ok (record h { nodes = n }) s.el tag, sh.used_eq)
              (lift (record { nodes = n; elems = initialised (some (λ _. tag)) s h.elems }) _
                (insert_node-IsAppended n s.entry s.el null null ne u.loose fuel (cells used)
                  sh.nodes_apart.right sh.nodes_apart.apart.0
                  (used_spared fuel h p v s rest sh' f n u.same)
                  (omega (arith, length-cells used, sh.total)))
                λ entries' m a. returns (record {
                  free = rest;
                  used = used ++ record s { value = tag } ∷ [];
                  count = suc count;
                  shows = reinit _ _ _ (some (λ _. 0)) (alloc-Shows fuel h p v s rest sh' f u a);
                  zeros = z.1;
                  tags = Tags-append used _ g (omega arith, omega arith, tt);
                })))

  return_of :
      (vals : List ℕ) (free us vs : List (Slot ℕ)) (s : Slot ℕ) (count : ℕ)
      → (sh : Shows h (pool_of size count 0 t) (view_of size 0 free (us ++ s ∷ vs))) → Zeros free
      → Tags (us ++ s ∷ vs)
      → look_for fuel vals t.entries h ≡ ok s.entry h
      → Returns (IsTester size) (return_entry fuel vals t h)
  unfolding return_entry
  return_of vals free us vs s count sh z g found =
      let p = pool_of size count 0 t in
      let v = view_of size 0 free (us ++ s ∷ vs) in
      let (out, ne, ne') = nodes_out fuel h p v us vs s sh f in
      let chain = used-Chain fuel h p v us vs s sh f in
      let apart = nodes_apart fuel h p v us vs s sh f in
      let at = (Chain-split h.nodes null (cells us) (cells (s ∷ vs)) null chain).1.0 in
      let held = (values fuel h p v us vs s sh f).1.0 in
      let head : t.entries ≡ first (cells us ++ cells (s ∷ vs)) null =
        rw (cells-append us (s ∷ vs)) at sh.used_eq in
      elim (Bool-cases (t.entries == null)) [
        | inl empty ↦ rw empty (
            returns (record {
              free = free;
              used = us ++ s ∷ vs;
              count = count;
              shows = sh;
              zeros = z;
              tags = g;
            }))
        | inr some_entry ↦
            rw
              (
                some_entry,
                found,
                ==-ne s.entry null ne,
                load-ok h.nodes s.entry s.el (first (cells vs) null) (last null (cells us)) ne at,
                load_el-ok h s.el s.value ne' held,
                head,
              )
              (lift h _
                (unlink-IsUnlinked h.nodes s.entry s.el (cells us) (cells vs) apart.right chain)
                λ entries' n u.
                  rw (store_el-ok (record h { nodes = n }) s.el 0, sh.free_eq)
                    (lift (record { nodes = n; elems = initialised (some (λ _. 0)) s h.elems }) _
                      (insert_node-IsAppended n s.entry s.el null null ne u.loose fuel (cells free)
                        apart.left out (free_spared fuel h p v us vs s sh f n u.same)
                        (omega (arith, length-cells free, sh.total)))
                      λ free' m a. returns (record {
                        free = free ++ record s { value = 0 } ∷ [];
                        used = us ++ vs;
                        count = count - 1;
                        shows = release-Shows fuel h p v us vs s sh f u a;
                        zeros = Zeros-snoc free _ z refl;
                        tags = Tags-remove us vs s g;
                      })))
      ]

  return_from :
      (vals : List ℕ) (free used : List (Slot ℕ)) (count : ℕ)
      → Shows h (pool_of size count 0 t) (view_of size 0 free used)
      → Zeros free
      → Tags used
      → Covers pool_size vals
      → Returns (IsTester size) (return_entry fuel vals t h)
  unfolding return_entry
  return_from vals free [] count sh z g c =
      let empty : (t.entries == null) ≡ true = rw sh.used_eq in
      rw empty (
        returns (record { free = free; used = []; count = count; shows = sh; zeros = z; tags = g }))
  return_from vals free (s ∷ ss) count sh z g c =
      let hit : holds (s.value - 1 + 1) (s ∷ ss) ≡ true = let l = g.0 in ground arith in
      let (p, found, i) =
        look_for-found h fuel (s.value - 1) (s ∷ ss) vals sh.used_chain sh.nodes_apart.right
          sh.els_apart.right sh.used_values (omega (arith, sh.total)) hit
          (Covers-drawn pool_size (s.value - 1) vals c (omega (arith, g.0, g.1))) in
      let at_entry : look_for fuel vals t.entries h ≡ ok i.s.entry h =
        rw (sh.used_eq, ← i.found) found in
      return_of vals free i.us i.vs i.s count
        (subst (λ u. Shows h (pool_of size count 0 t) (view_of size 0 free u)) i.parts sh) z
        (subst Tags i.parts g) at_entry

  -- One round keeps the lists, whichever operation it chooses.
  pub round-IsTester :
      (x : Round)
      → IsTester size t h
      → Covers pool_size x.vals
      → Returns (IsTester size) (round fuel x t h)
  unfolding round
  round-IsTester x i c = elim (Bool-cases (x.r % 2 == 0)) [
    | inl even ↦ rw even (schedule_of i.free i.used i.count i.shows i.zeros i.tags)
    | inr odd ↦ rw odd (return_from x.vals i.free i.used i.count i.shows i.zeros i.tags c)
  ]

-- The random numbers of each round cover the integers that its search may look for.
abbrev pub Covering : List Round → Type 0
Covering [] = Unit
Covering (x ∷ xs) = Covers pool_size x.vals × Covering xs

-- Rounds of sel4osapi_list_tester on `size` nodes, with random numbers that reach each integer that
-- a search may look for, end with both lists well linked and apart.
pub run-IsTester :
    (fuel size : ℕ) (xs : List Round) (t : Tester) (h : Heap ℕ)
    → size < fuel
    → IsTester size t h
    → Covering xs
    → Returns (IsTester size) (run fuel xs t h)
unfolding run
run-IsTester fuel size [] t h f i c = returns i
run-IsTester fuel size (x ∷ xs) t h f i c = elim (Bool-cases (ltb t.i 100)) [
  | inl more ↦ rw more (
      bind (round-IsTester fuel size h t f x i c.0)
        λ t' h' i'. run-IsTester fuel size xs t' h' f i' c.1)
  | inr done ↦ rw done (returns i)
]
