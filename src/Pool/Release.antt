-- ===== src/Pool/Release.antt =====
-- simple_pool_find_node, simple_pool_free_entry and simple_pool_free do what the view's `release`
-- says.
use libsel4osapi.Prelude.{
  ℕ, zero, suc, ◌-◌, ◌<◌, ◌≡◌, ◌≢◌, refl, sym, subst, ◌∙◌, ap, inl, inr, false, Option, none, some,
  List, [], ◌∷◌, ◌++◌, ℤ, pos, negsuc, arith, length, length-append, ◌==◌, if◌then◌else◌, ==-ne,
  Bool-cases,
}
use libsel4osapi.Run.{ok, Returns, returns, mono}
use libsel4osapi.LinkedList.{Ptr, null, Nodes}
use libsel4osapi.LinkedList.Chain.{
  has, Chain, Distinct, first, Distinct-split, Chain-frame, load-ok, Apart-has, has-append,
}
use libsel4osapi.LinkedList.Insert.{SameOutside, IsAppended, insert_node-IsAppended}
use libsel4osapi.LinkedList.Unlink.{IsUnlinked, unlink-IsUnlinked}
use libsel4osapi.LinkedList.Separate.{Separate, Separate-back, Separate-has}
use libsel4osapi.Pool.{Heap, Pool, matches, find_loop, find_node, free_entry, free}
use libsel4osapi.Pool.View
use libsel4osapi.Pool.View.{Slot, View, reset, is_hit, behind, split_at, give_back, split_at-append}
use libsel4osapi.Pool.Shape.{
  cells, els, Values, Shows, cells-append, els-append, cells-snoc, els-snoc, length-cells,
  Values-append, Values-split, Values-snoc, initialised, Values-initialised, init_entry-ok,
  load_el-ok, lift,
}

module _ {E : Type 0} where
  abbrev pub hit_entry : Option (List (Slot E) × Slot E × List (Slot E)) → Ptr
  hit_entry none = null
  hit_entry (some (us, s, vs)) = s.entry

  hit_entry-behind :
      (s : Slot E) (o : Option (List (Slot E) × Slot E × List (Slot E)))
      → hit_entry (behind s o) ≡ hit_entry o
  hit_entry-behind s none = refl
  hit_entry-behind s (some (us, t, vs)) = refl

  module _ (h : Heap E) (e : Ptr) (y : E) (ne : e ≢ null) (at : h.elems e ≡ some y) where
    matches-ok :
        (c : Option (E → E → ℤ)) (s : Slot E)
        → s.el ≢ null
        → h.elems s.el ≡ some s.value
        → matches c s.el e h ≡ ok (is_hit c e y s) h
    unfolding matches
    matches-ok none s n a = refl
    matches-ok (some cmp) s n a = rw (load_el-ok h s.el s.value n a, load_el-ok h e y ne at)

    find_loop-hit :
        (fuel : ℕ) (p : Pool E) (prev : Ptr) (ss : List (Slot E))
        → Chain h.nodes prev (cells ss) null
        → Distinct (cells ss)
        → Distinct (els ss)
        → Values h.elems ss
        → length ss < fuel
        → find_loop fuel p e (first (cells ss) null) h
          ≡ ok (hit_entry (split_at p.compare_fn e y ss)) h
    unfolding find_loop split_at
    find_loop-hit zero p prev ss c d d' v f = absurd (omega arith)
    find_loop-hit (suc fuel) p prev [] c d d' v f = refl
    find_loop-hit (suc fuel) p prev (s ∷ ss) c d d' v f =
        rw
          (
            ==-ne s.entry null d.0,
            load-ok h.nodes s.entry s.el (first (cells ss) null) prev d.0 c.0,
            matches-ok p.compare_fn s d'.0 v.0,
          )
          (elim (Bool-cases (is_hit p.compare_fn e y s)) [
            | inl hit ↦ rw hit
            | inr miss ↦
                rw (miss, hit_entry-behind s (split_at p.compare_fn e y ss))
                  (find_loop-hit fuel p s.entry ss c.1 d.2 d'.2 v.1 (omega arith))
          ])

  module _ (fuel : ℕ) (h : Heap E) (p : Pool E) (v : View E) (us vs : List (Slot E)) (s : Slot E)
      (sh : Shows h p (record v { used = us ++ s ∷ vs })) (f : p.size < fuel) where
    abbrev v' : View E
    v' = record v { free = v.free ++ reset p.init_fn s ∷ []; used = us ++ vs }

    abbrev after : Nodes → Heap E
    after m = record { nodes = m; elems = initialised p.init_fn s h.elems }

    abbrev returned : (entries' free' : Ptr) → Pool E
    returned entries' free' = record p {
      entries = entries';
      free_entries = free';
      current_size = p.current_size - 1;
    }

    pub nodes_apart : Separate (cells v.free) (cells us ++ (s.entry, s.el) ∷ cells vs)
    nodes_apart = rw (cells-append us (s ∷ vs)) at sh.nodes_apart

    els_apart : Separate (els v.free) (els us ++ (s.el, s.entry) ∷ els vs)
    els_apart = rw (els-append us (s ∷ vs)) at sh.els_apart

    pub used-Chain : Chain h.nodes null (cells us ++ (s.entry, s.el) ∷ cells vs) null
    used-Chain = rw (cells-append us (s ∷ vs)) at sh.used_chain

    -- The node and the element of `s` stand nowhere else.
    pub nodes_out : (has s.entry (cells v.free) ≡ false) × (s.entry ≢ null) × (s.el ≢ null)
    nodes_out =
        let i = has-append s.entry (cells us) (cells (s ∷ vs)) in
        let d = Distinct-split (cells us) (cells (s ∷ vs)) nodes_apart.right in
        let d' = Distinct-split (els us) (els (s ∷ vs)) els_apart.right in
        (Separate-has _ _ s.entry nodes_apart (ground (arith, i)), d.1.0, d'.1.0)

    els_out :
        (has s.el (els v.free) ≡ false) × (has s.el (els us) ≡ false) × (has s.el (els vs) ≡ false)
    els_out =
        let i = has-append s.el (els us) (els (s ∷ vs)) in
        let d = Distinct-split (els us) (els (s ∷ vs)) els_apart.right in
        let r : Separate (els us) (els (s ∷ vs)) = record {
          left = d.0;
          right = d.1;
          apart = d.2;
        } in
        (
          Separate-has _ _ s.el els_apart (ground (arith, i)),
          Separate-has _ _ s.el r (ground arith),
          d.1.1,
        )

    pub values : Values h.elems us × Values h.elems (s ∷ vs)
    values = Values-split h.elems us (s ∷ vs) sh.used_values

    counts : length (us ++ s ∷ vs) ≡ suc (length (us ++ vs))
    counts = omega (arith, length-append us (s ∷ vs), length-append us vs)

    pub free_spared :
        (n : Nodes)
        → SameOutside (cells us ++ cells (s ∷ vs)) h.nodes n
        → Chain n null (cells v.free) null
    free_spared n same =
        Chain-frame h.nodes n null (cells v.free) null
          (λ a i. same a (Apart-has (cells v.free) _ a nodes_apart.apart i)) sh.free_chain

    pub release-Shows :
        {free' entries' : Ptr} {n m : Nodes}
        → IsUnlinked h.nodes s.entry s.el
            (cells us ++ cells (s ∷ vs))
            (cells us ++ cells vs)
            entries'
            n
        → IsAppended n (cells v.free ++ (s.entry, s.el) ∷ []) free' m
        → Shows (after m) (returned entries' free') v'
    release-Shows {n} {m} u a =
        let moved =
          Separate-back s.entry s.el s.el (cells v.free) (cells us) (cells vs) nodes_apart in
        let moved' = Separate-back s.el s.entry s.entry (els v.free) (els us) (els vs) els_apart in
        record {
          nodes_apart = rw (cells-snoc p.init_fn s v.free, cells-append us vs) moved;
          els_apart = rw (els-snoc p.init_fn s v.free, els-append us vs) moved';
          free_eq = rw (cells-snoc p.init_fn s v.free) a.head_eq;
          used_eq = rw (cells-append us vs) u.head_eq;
          free_chain = rw (cells-snoc p.init_fn s v.free) a.chain;
          used_chain = rw (cells-append us vs) (
              Chain-frame n m null (cells us ++ cells vs) null
                (λ b i. a.same b (Separate-has _ _ b moved i)) u.chain);
          free_values = Values-snoc p.init_fn s h.elems v.free els_out.0 values.1.0 sh.free_values;
          used_values =
              Values-append _ us vs (Values-initialised p.init_fn s h.elems us els_out.1 values.0)
                (Values-initialised p.init_fn s h.elems vs els_out.2 values.1.1);
          count = omega (arith, sh.count, counts);
          total = omega (arith, sh.total, counts, length-append v.free (reset p.init_fn s ∷ []));
          size_eq = sh.size_eq;
          init_eq = sh.init_eq;
          compare_eq = sh.compare_eq;
        }

    free_entry-Shows :
        Returns (λ (r, p') h'. (r ≡ pos 0) × Shows h' p' v') (free_entry fuel p s.entry h)
    unfolding free_entry
    free_entry-Shows =
        let (_, ne, ne') = nodes_out in
        let busy : (p.current_size == 0) ≡ false = ground (arith, sh.count, counts) in
        let head : p.entries ≡ first (cells us ++ cells (s ∷ vs)) null =
          rw (cells-append us (s ∷ vs)) at sh.used_eq in
        rw (==-ne s.entry null ne, head)
          (lift h _
            (unlink-IsUnlinked h.nodes s.entry s.el (cells us) (cells vs) nodes_apart.right
              used-Chain)
            λ entries' n u.
              rw
                (
                  busy,
                  init_entry-ok (record h { nodes = n }) p.init_fn s null null ne ne' u.loose
                      values.1.0,
                  sh.free_eq,
                )
                (lift (after n) _
                  (insert_node-IsAppended n s.entry s.el null null ne u.loose fuel (cells v.free)
                    nodes_apart.left nodes_out.0 (free_spared n u.same)
                    (omega (arith, length-cells v.free, sh.total)))
                  λ free' m a. returns (refl, release-Shows u a)))

  -- What simple_pool_find_node returns: the node of the first used element that is a hit.
  pub find_node-split_at :
      (fuel : ℕ) (h : Heap E) (p : Pool E) (v : View E) (e : Ptr) (y : E)
      → Shows h p v
      → e ≢ null
      → h.elems e ≡ some y
      → p.size < fuel
      → find_node fuel p e h ≡ ok (hit_entry (split_at v.compare_fn e y v.used)) h
  unfolding find_node
  find_node-split_at fuel h p v e y sh ne at f =
      let head : find_loop fuel p e p.entries h ≡ find_loop fuel p e (first (cells v.used) null) h =
        ap (λ q. find_loop fuel p e q h) sh.used_eq in
      head
      ∙ find_loop-hit h e y ne at fuel p null v.used sh.used_chain sh.nodes_apart.right
          sh.els_apart.right sh.used_values (omega (arith, sh.total))
      ∙ ap (λ c. ok (hit_entry (split_at c e y v.used)) h) (sym sh.compare_eq)

  free_of-View :
      (fuel : ℕ) (h : Heap E) (p : Pool E) (v : View E)
      (o : Option (List (Slot E) × Slot E × List (Slot E)))
      → Shows h p v
      → p.size < fuel
      → ((us vs : List (Slot E)) (s : Slot E) → o ≡ some (us, s, vs) → v.used ≡ us ++ s ∷ vs)
      → Returns
          (λ (r, p') h'. (r ≡ (give_back v o).0) × Shows h' p' (give_back v o).1)
          ((if hit_entry o == null then ok (negsuc 0, p) else free_entry fuel p (hit_entry o)) h)
  free_of-View fuel h p v none sh f parts = returns (refl, sh)
  free_of-View fuel h p v (some (us, s, vs)) sh f parts =
      let sh' : Shows h p (record v { used = us ++ s ∷ vs }) =
        subst (λ u. Shows h p (record v { used = u })) (parts us vs s refl) sh in
      rw (==-ne s.entry null (nodes_out fuel h p v us vs s sh' f).1) (
        mono (free_entry-Shows fuel h p v us vs s sh' f) λ r h' (e, sh''). (
          e,
          subst (λ i. Shows h' r.1 (record v { free = v.free ++ reset i s ∷ []; used = us ++ vs }))
              (sym sh.init_eq) sh'',
        ))

  -- On a heap that shows the pool `v`, simple_pool_free of an element with value `y` returns what
  -- `View.release v` returns, -1 where no used element is a hit, and leaves a heap that shows the
  -- pool that `View.release v` leaves.
  pub free-View :
      (fuel : ℕ) (h : Heap E) (p : Pool E) (v : View E) (e : Ptr) (y : E)
      → Shows h p v
      → e ≢ null
      → h.elems e ≡ some y
      → p.size < fuel
      → Returns
          (λ (r, p') h'. (r ≡ (View.release v e y).0) × Shows h' p' (View.release v e y).1)
          (free fuel p e h)
  unfolding free View.release
  free-View fuel h p v e y sh ne at f =
      rw (==-ne e null ne, find_node-split_at fuel h p v e y sh ne at f)
        (free_of-View fuel h p v (split_at v.compare_fn e y v.used) sh f
          λ us vs s found. (split_at-append v.compare_fn e y v.used found).0)
