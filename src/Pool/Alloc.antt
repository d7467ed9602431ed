-- ===== src/Pool/Alloc.antt =====
-- simple_pool_alloc and simple_pool_alloc_entry do what the view's `alloc` says.
use libsel4osapi.Prelude.{
  ℕ, suc, ◌<◌, ◌≡◌, refl, sym, subst, true, false, Option, some, List, [], ◌∷◌, ◌++◌, arith,
  length-append, leb, ◌==◌, ==-ne,
}
use libsel4osapi.Run.{Returns, returns, bind}
use libsel4osapi.LinkedList.{Ptr, null, node, Nodes}
use libsel4osapi.LinkedList.Chain.{
  has, Chain, first, last, Chain-split, Chain-frame, load-ok, Apart-has,
}
use libsel4osapi.LinkedList.Insert.{SameOutside, IsAppended, insert_node-IsAppended}
use libsel4osapi.LinkedList.Unlink.{IsUnlinked, unlink-IsUnlinked}
use libsel4osapi.LinkedList.Separate.{Separate-shift, Separate-has}
use libsel4osapi.Pool.{Heap, Pool, alloc_entry, alloc}
use libsel4osapi.Pool.View
use libsel4osapi.Pool.View.{alloc_from, Slot, View, reset}
use libsel4osapi.Pool.Shape.{
  cells, Shows, cells-snoc, els-snoc, length-cells, Values-snoc, initialised, Values-initialised,
  init_entry-ok, lift,
}

module _ {E : Type 0} where
  module _ (fuel : ℕ) (h : Heap E) (p : Pool E) (v : View E) (s : Slot E) (rest : List (Slot E))
      (sh : Shows h p (record v { free = s ∷ rest })) (f : p.size < fuel) where
    abbrev v' : View E
    v' = record v { free = rest; used = v.used ++ reset p.init_fn s ∷ [] }

    -- The heap after the unlinking, the initialisation and the insertion.
    abbrev after : Nodes → Heap E
    after m = record { nodes = m; elems = initialised p.init_fn s h.elems }

    abbrev taken : (free' entries' : Ptr) → Pool E
    taken free' entries' = record p {
      free_entries = free';
      entries = entries';
      current_size = suc p.current_size;
    }

    pub used_spared :
        (n : Nodes) → SameOutside (cells (s ∷ rest)) h.nodes n → Chain n null (cells v.used) null
    used_spared n same =
        Chain-frame h.nodes n null (cells v.used) null
          (λ a i. same a (Separate-has _ (cells v.used) a sh.nodes_apart i)) sh.used_chain

    pub alloc-Shows :
        {free' entries' : Ptr} {n m : Nodes}
        → IsUnlinked h.nodes s.entry s.el (cells (s ∷ rest)) (cells rest) free' n
        → IsAppended n (cells v.used ++ (s.entry, s.el) ∷ []) entries' m
        → Shows (after m) (taken free' entries') v'
    alloc-Shows {n} {m} u a = record {
      nodes_apart =
          rw (cells-snoc p.init_fn s v.used) (Separate-shift s.entry s.el s.el _ _ sh.nodes_apart);
      els_apart =
          rw (els-snoc p.init_fn s v.used) (Separate-shift s.el s.entry s.entry _ _ sh.els_apart);
      free_eq = u.head_eq;
      used_eq = rw (cells-snoc p.init_fn s v.used) a.head_eq;
      free_chain =
          Chain-frame n m null (cells rest) null (λ b i. a.same b (rest_apart b i)) u.chain;
      used_chain = rw (cells-snoc p.init_fn s v.used) a.chain;
      free_values =
          Values-initialised p.init_fn s h.elems rest sh.els_apart.left.1 sh.free_values.1;
      used_values =
          Values-snoc p.init_fn s h.elems v.used sh.els_apart.apart.0 sh.free_values.0
            sh.used_values;
      count = omega (arith, sh.count, length-append v.used (reset p.init_fn s ∷ []));
      total = omega (arith, sh.total, length-append v.used (reset p.init_fn s ∷ []));
      size_eq = sh.size_eq;
      init_eq = sh.init_eq;
      compare_eq = sh.compare_eq;
    }
      where
        rest_apart :
            (b : Ptr)
            → has b (cells rest) ≡ true
            → has b (cells v.used ++ (s.entry, s.el) ∷ []) ≡ false
        rest_apart b i =
            Apart-has (cells rest) _ b (Separate-shift s.entry s.el s.el _ _ sh.nodes_apart).apart i

    alloc_entry-cons :
        Returns (λ (entry, p') h'. (entry ≡ s.entry) × Shows h' p' v') (alloc_entry fuel p h)
    unfolding alloc_entry
    alloc_entry-cons =
        let ne = sh.nodes_apart.left.0 in
        let ne' = sh.els_apart.left.0 in
        let room : leb (suc p.current_size) p.size ≡ true = ground (arith, sh.count, sh.total) in
        rw
          (
            sh.free_eq,
            ==-ne s.entry null ne,
            load-ok h.nodes s.entry s.el (first (cells rest) null) null ne sh.free_chain.0,
            ==-ne s.el null ne',
          )
          (lift h _
            (unlink-IsUnlinked h.nodes s.entry s.el [] (cells rest) sh.nodes_apart.left
              sh.free_chain)
            λ free' n u.
              rw
                (
                  init_entry-ok (record h { nodes = n }) p.init_fn s null null ne ne' u.loose
                      sh.free_values.0,
                  sh.used_eq,
                )
                (lift (after n) _
                  (insert_node-IsAppended n s.entry s.el null null ne u.loose fuel (cells v.used)
                    sh.nodes_apart.right sh.nodes_apart.apart.0 (used_spared n u.same)
                    (omega (arith, length-cells v.used, sh.total)))
                  λ entries' m a. rw room (returns (refl, alloc-Shows u a))))

  -- The node of the youngest used element points at that element.
  youngest :
      (f : Option (E → E)) (s : Slot E) (h : Heap E) (p : Pool E) (v : View E)
      → Shows h p (record v { used = v.used ++ reset f s ∷ [] })
      → (q : Ptr) × (h.nodes s.entry ≡ some (node s.el null q))
  youngest f s h p v sh =
      let c = rw (cells-snoc f s v.used) at sh.used_chain in
      (last null (cells v.used), (Chain-split h.nodes null (cells v.used) _ null c).1.0)

  alloc_of-View :
      (fuel : ℕ) (h : Heap E) (p : Pool E) (v : View E) (ss : List (Slot E))
      → Shows h p (record v { free = ss })
      → p.size < fuel
      → Returns
          (λ (e, p') h'.
            let r = alloc_from (record v { free = ss }) ss in (e ≡ r.0) × Shows h' p' r.1)
          (alloc fuel p h)
  unfolding alloc alloc_entry
  alloc_of-View fuel h p v [] sh f =
      let empty : (p.free_entries == null) ≡ true = rw sh.free_eq in rw empty (returns (refl, sh))
  alloc_of-View fuel h p v (s ∷ rest) sh f =
      bind (alloc_entry-cons fuel h p v s rest sh f) λ r h' (e, sh').
        let (q, at) = youngest p.init_fn s h' r.1 (record v { free = rest }) sh' in
        rw
          (
            e,
            ==-ne s.entry null sh.nodes_apart.left.0,
            load-ok h'.nodes s.entry s.el null q sh.nodes_apart.left.0 at,
          )
          (returns (
            refl,
            subst (λ f. Shows h' r.1 (record v { free = rest; used = v.used ++ reset f s ∷ [] }))
                (sym sh.init_eq) sh',
          ))

  -- On a heap that shows the pool `v`, simple_pool_alloc returns what `View.alloc v` returns, NULL
  -- where no element is free, and leaves a heap that shows the pool `View.alloc v` leaves.
  pub alloc-View :
      (fuel : ℕ) (h : Heap E) (p : Pool E) (v : View E)
      → Shows h p v
      → p.size < fuel
      → Returns
          (λ (e, p') h'. (e ≡ (View.alloc v).0) × Shows h' p' (View.alloc v).1)
          (alloc fuel p h)
  unfolding View.alloc
  alloc-View fuel h p v = alloc_of-View fuel h p v v.free
