-- ===== src/Pool/Update.antt =====
-- A client's write through the pointer to a used element of a pool of src/pool.c.
use libsel4osapi.Prelude.{
  ◌≡◌, ◌≢◌, refl, ap, true, inl, inr, Option, some, List, [], ◌∷◌, length, ◌==◌, arith, Bool-cases,
}
use libsel4osapi.Run.{Returns, returns}
use libsel4osapi.LinkedList.{Ptr, null}
use libsel4osapi.LinkedList.Chain.{Cells, has, Distinct}
use libsel4osapi.LinkedList.Separate.{Separate-has}
use libsel4osapi.Pool.{Heap, Pool, write_elem, store_el, change_el}
use libsel4osapi.Pool.View
use libsel4osapi.Pool.View.{Slot, View, value_at, put}
use libsel4osapi.Pool.New.{Values-write}
use libsel4osapi.Pool.Shape.{cells, els, Values, Shows, load_el-ok}

has-ne_null : (a : Ptr) (xs : Cells) → Distinct xs → has a xs ≡ true → a ≢ null
has-ne_null a [] d i = cc
has-ne_null a ((p, e) ∷ xs) d i = elim (Bool-cases (a == p)) [
  | inl same ↦ let n = d.0 in ground arith
  | inr other ↦ has-ne_null a xs d.2 (ground arith)
]

module _ {E : Type 0} where
  pub cells-put : (e : Ptr) (f : E → E) (us : List (Slot E)) → cells (put e f us) ≡ cells us
  cells-put e f [] = refl
  cells-put e f (u ∷ us) = elim (Bool-cases (u.el == e)) [
    | inl same ↦ rw same (ap (λ l. (u.entry, u.el) ∷ l) (cells-put e f us))
    | inr other ↦ rw other (ap (λ l. (u.entry, u.el) ∷ l) (cells-put e f us))
  ]

  pub els-put : (e : Ptr) (f : E → E) (us : List (Slot E)) → els (put e f us) ≡ els us
  els-put e f [] = refl
  els-put e f (u ∷ us) = elim (Bool-cases (u.el == e)) [
    | inl same ↦ rw same (ap (λ l. (u.el, u.entry) ∷ l) (els-put e f us))
    | inr other ↦ rw other (ap (λ l. (u.el, u.entry) ∷ l) (els-put e f us))
  ]

  pub length-put : (e : Ptr) (f : E → E) (us : List (Slot E)) → length (put e f us) ≡ length us
  length-put e f [] = refl
  length-put e f (u ∷ us) = omega (arith, length-put e f us)

  -- An element that is found is listed, and the heap holds its value.
  pub value_at-has :
      (e : Ptr) (us : List (Slot E)) (x : E) → value_at e us ≡ some x → has e (els us) ≡ true
  value_at-has e [] x i = cc
  value_at-has e (u ∷ us) x i = ground (arith, value_at-has e us x)

  pub value_at-Values :
      (m : Ptr → Option E) (e : Ptr) (us : List (Slot E)) (x : E)
      → value_at e us ≡ some x
      → Values m us
      → m e ≡ some x
  value_at-Values m e [] x i v = cc
  value_at-Values m e (u ∷ us) x i v = elim (Bool-cases (u.el == e)) [
    | inl same ↦ let a = v.0 in ground arith
    | inr other ↦ value_at-Values m e us x (ground arith) v.1
  ]

  Values-put :
      (m : Ptr → Option E) (e : Ptr) (f : E → E) (x : E) (us : List (Slot E))
      → m e ≡ some x
      → Values m us
      → Values (write_elem m e (f x)) (put e f us)
  unfolding write_elem
  Values-put m e f x [] at v = tt
  Values-put m e f x (u ∷ us) at v = elim (Bool-cases (u.el == e)) [
    | inl same ↦ let a = v.0 in (ground arith, Values-put m e f x us at v.1)
    | inr other ↦ let a = v.0 in (ground arith, Values-put m e f x us at v.1)
  ]

  -- A used element is not NULL, and the heap holds its value.
  pub used_live :
      (h : Heap E) (p : Pool E) (v : View E) (e : Ptr) (x : E)
      → Shows h p v
      → value_at e v.used ≡ some x
      → (e ≢ null) × (h.elems e ≡ some x)
  used_live h p v e x sh i = (
    has-ne_null e (els v.used) sh.els_apart.right (value_at-has e v.used x i),
    value_at-Values h.elems e v.used x i sh.used_values,
  )

  pub change_el-View :
      (h : Heap E) (p : Pool E) (v : View E) (e : Ptr) (f : E → E) (x : E)
      → Shows h p v
      → value_at e v.used ≡ some x
      → Returns (λ _ h'. Shows h' p (View.modify v e f)) (change_el e f h)
  unfolding change_el store_el View.modify
  change_el-View h p v e f x sh i =
      let listed = value_at-has e v.used x i in
      let (live, at) = used_live h p v e x sh i in
      rw (load_el-ok h e x live at) (
        returns (record {
          nodes_apart = rw (cells-put e f v.used) sh.nodes_apart;
          els_apart = rw (els-put e f v.used) sh.els_apart;
          free_eq = sh.free_eq;
          used_eq = rw (cells-put e f v.used) sh.used_eq;
          free_chain = sh.free_chain;
          used_chain = rw (cells-put e f v.used) sh.used_chain;
          free_values =
              Values-write h.elems e (f x) v.free
                (Separate-has (els v.free) (els v.used) e sh.els_apart listed) sh.free_values;
          used_values = Values-put h.elems e f x v.used at sh.used_values;
          count = omega (arith, sh.count, length-put e f v.used);
          total = omega (arith, sh.total, length-put e f v.used);
          size_eq = sh.size_eq;
          init_eq = sh.init_eq;
          compare_eq = sh.compare_eq;
        }))
