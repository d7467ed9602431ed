-- ===== src/Pool/New.antt =====
-- simple_pool_new builds a pool in which every element is free.
use libsel4osapi.Prelude.{
  ℕ, zero, suc, ◌+◌, ◌<◌, ◌≡◌, ◌≢◌, refl, ap, sym, subst, true, false, ◌&&◌, Option, some, List, [],
  ◌∷◌, ◌++◌, ℤ, arith, length, length-append, ltb, ==-ne, append_assoc, append-nil,
}
use libsel4osapi.Run.{Returns, returns, mono}
use libsel4osapi.LinkedList.{Ptr, null}
use libsel4osapi.LinkedList.Chain.{has, Chain, Distinct, Distinct-split, first, Apart-of_has}
use libsel4osapi.LinkedList.Insert.{insert-IsAppended}
use libsel4osapi.LinkedList.Separate.{Separate, Separate-has}
use libsel4osapi.Pool.{Heap, Pool, Block, write_elem, store_el, fill, new}
use libsel4osapi.Pool.View.{Slot, View, reset}
use libsel4osapi.Pool.Shape.{
  cells, els, Values, Shows, cells-append, els-append, cells-snoc, length-cells, Values-snoc,
  initialised, reset_el, reset_entry, init_el-ok, lift,
}

module _ {E : Type 0} where
  abbrev pub slot : Block E → Slot E
  slot b = record { entry = b.entry; el = b.el; value = b.el_junk }

  -- The elements that the blocks become, in order.
  abbrev pub slots : Option (E → E) → List (Block E) → List (Slot E)
  slots f [] = []
  slots f (b ∷ bs) = reset f (slot b) ∷ slots f bs

  -- The free list so far.
  record Built (h : Heap E) (p : Pool E) (ss : List (Slot E)) : Type 0 where
    free_eq : p.free_entries ≡ first (cells ss) null
    chain : Chain h.nodes null (cells ss) null
    values : Values h.elems ss

  -- What the loop leaves alone in the header.
  abbrev with_free : Pool E → Ptr → Pool E
  with_free p q = record p { free_entries = q }

  pub Values-write :
      (m : Ptr → Option E) (e : Ptr) (x : E) (ss : List (Slot E))
      → has e (els ss) ≡ false
      → Values m ss
      → Values (write_elem m e x) ss
  unfolding write_elem
  Values-write m e x [] o v = tt
  Values-write m e x (s ∷ ss) o v = (ground arith, Values-write m e x ss (ground arith) v.1)

  pub length-slots : (f : Option (E → E)) (bs : List (Block E)) → length (slots f bs) ≡ length bs
  length-slots f [] = refl
  length-slots f (b ∷ bs) = omega (arith, length-slots f bs)

  write_elem-at : (m : Ptr → Option E) (e : Ptr) (x : E) → write_elem m e x e ≡ some x
  unfolding write_elem
  write_elem-at m e x = ground arith

  -- The addresses of the next block are new.
  fresh :
      (i : Option (E → E)) (c : Block E) (bs : List (Block E)) (ss : List (Slot E))
      → Distinct (cells (ss ++ slots i (c ∷ bs)))
      → Distinct (els (ss ++ slots i (c ∷ bs)))
      → (c.entry ≢ null)
        × (c.el ≢ null)
        × (has c.entry (cells ss) ≡ false)
        × (has c.el (els ss) ≡ false)
  fresh i c bs ss dn de =
      let dn' = Distinct-split (cells ss) ((c.entry, c.el) ∷ cells (slots i bs)) (
        rw (cells-append ss (slots i (c ∷ bs)), reset_entry i (slot c), reset_el i (slot c)) at
          dn) in
      let de' = Distinct-split (els ss) ((c.el, c.entry) ∷ els (slots i bs)) (
        rw (els-append ss (slots i (c ∷ bs)), reset_entry i (slot c), reset_el i (slot c)) at de) in
      let sn : Separate (cells ss) ((c.entry, c.el) ∷ cells (slots i bs)) = record {
        left = dn'.0;
        right = dn'.1;
        apart = dn'.2;
      } in
      let se : Separate (els ss) ((c.el, c.entry) ∷ els (slots i bs)) = record {
        left = de'.0;
        right = de'.1;
        apart = de'.2;
      } in
      (
        dn'.1.0,
        de'.1.0,
        Separate-has _ _ c.entry sn (ground arith),
        Separate-has _ _ c.el se (ground arith),
      )

  fill-Built :
      (n fuel : ℕ) (bs : List (Block E)) (p : Pool E) (h : Heap E) (ss : List (Slot E))
      → n ≡ length bs
      → length ss + n < fuel
      → Distinct (cells (ss ++ slots p.init_fn bs))
      → Distinct (els (ss ++ slots p.init_fn bs))
      → Built h p ss
      → Returns
          (λ p' h'. (p' ≡ with_free p p'.free_entries) × Built h' p' (ss ++ slots p.init_fn bs))
          (fill n fuel bs p h)
  unfolding fill store_el
  fill-Built zero fuel [] p h ss l f dn de b = returns (refl, rw (append-nil ss) b)
  fill-Built zero fuel (c ∷ bs) p h ss l f dn de b = absurd (omega arith)
  fill-Built (suc n) fuel [] p h ss l f dn de b = absurd (omega arith)
  fill-Built (suc n) fuel (c ∷ bs) p h ss l f dn de b =
      let (ne, ne', out, out') = fresh p.init_fn c bs ss dn de in
      let i = p.init_fn in
      let regroup = append_assoc ss (reset i (slot c) ∷ []) (slots i bs) in
      let put = write_elem h.elems c.el c.el_junk in
      let at : put c.el ≡ some c.el_junk = write_elem-at h.elems c.el c.el_junk in
      rw (==-ne c.el null ne', init_el-ok (record h { elems = put }) i (slot c) ne' at, b.free_eq)
        (lift (record h { elems = initialised i (slot c) put }) _
          (insert-IsAppended fuel c.entry c.entry_junk c.el h.nodes (cells ss) ne
            (Distinct-split (cells ss) _ (rw (cells-append ss (slots i (c ∷ bs))) at dn)).0 out
            b.chain (omega (arith, length-cells ss)))
          λ free' m a.
            subst
              (λ ts.
                Returns (λ p' h'. (p' ≡ with_free p p'.free_entries) × Built h' p' ts)
                  (fill n fuel bs (with_free p free')
                    (record { nodes = m; elems = initialised i (slot c) put })))
              regroup
              (fill-Built n fuel bs (with_free p free')
                (record { nodes = m; elems = initialised i (slot c) put })
                (ss ++ reset i (slot c) ∷ []) (omega arith)
                (omega (arith, length-append ss (reset i (slot c) ∷ [])))
                (subst (λ ts. Distinct (cells ts)) (sym regroup) dn)
                (subst (λ ts. Distinct (els ts)) (sym regroup) de)
                (record {
                  free_eq = rw (cells-snoc i (slot c) ss) a.head_eq;
                  chain = rw (cells-snoc i (slot c) ss) a.chain;
                  values =
                      Values-snoc i (slot c) put ss out' at
                        (Values-write h.elems c.el c.el_junk ss out' b.values);
                })))

  -- The pool of `size` free elements that stand at the blocks, initialised.
  abbrev pub new_view : ℕ → Option (E → E) → Option (E → E → ℤ) → List (Block E) → View E
  new_view size i c bs = record {
    size = size;
    free = slots i bs;
    used = [];
    init_fn = i;
    compare_fn = c;
  }

  -- With `size` blocks at distinct addresses that are not NULL, simple_pool_new ends, and its heap
  -- shows the pool of those elements, all free and initialised.
  pub new-Shows :
      (size el_size : ℕ) (i : Option (E → E)) (c : Option (E → E → ℤ)) (bs : List (Block E))
      (h : Heap E)
      → 0 < size
      → 0 < el_size
      → size ≡ length bs
      → Distinct (cells (slots i bs))
      → Distinct (els (slots i bs))
      → Returns (λ p h'. Shows h' p (new_view size i c bs)) (new size el_size i c bs h)
  unfolding new
  new-Shows size el_size i c bs h s e l dn de =
      let ok_size : (ltb 0 size && ltb 0 el_size) ≡ true = ground arith in
      rw ok_size (
        mono
          (fill-Built size (suc size) bs _ h [] l (omega arith) dn de
            (record { free_eq = refl; chain = tt; values = tt }))
          λ p h' (same, b). record {
            nodes_apart = record { left = dn; right = tt; apart = Apart-of_has _ [] (λ a o. refl) };
            els_apart = record { left = de; right = tt; apart = Apart-of_has _ [] (λ a o. refl) };
            free_eq = b.free_eq;
            used_eq = ap (λ q. q.entries) same;
            free_chain = b.chain;
            used_chain = tt;
            free_values = b.values;
            used_values = tt;
            count = ap (λ q. q.current_size) same;
            total = let z = ap (λ (q : Pool E). q.size) same in omega (arith, z, length-slots i bs);
            size_eq = sym (ap (λ q. q.size) same);
            init_eq = sym (ap (λ q. q.init_fn) same);
            compare_eq = sym (ap (λ q. q.compare_fn) same);
          })
