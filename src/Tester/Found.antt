-- ===== src/Tester/Found.antt =====
-- The search of sel4osapi_list_tester ends at a node of the list.
use libsel4osapi.Prelude.{
  ℕ, zero, suc, ◌+◌, ◌%◌, ◌<◌, ◌≡◌, ◌≢◌, refl, ap, inl, inr, ◌⊎◌, Bool, true, false, ◌||◌, List, [],
  ◌∷◌, ◌++◌, length, arith, ◌==◌, ==-ne, Bool-cases, if◌then◌else◌,
}
use libsel4osapi.Run.{ok}
use libsel4osapi.LinkedList.{Ptr, null}
use libsel4osapi.LinkedList.Chain.{Chain, Distinct, first, load-ok, Distinct-split}
use libsel4osapi.Pool.{Heap}
use libsel4osapi.Pool.View.{Slot}
use libsel4osapi.Pool.Shape.{cells, els, Values, cells-append, load_el-ok}
use libsel4osapi.Tester.{pool_size, scan, look_for}

abbrev pub last_hit : ℕ → List (Slot ℕ) → Ptr → Ptr
last_hit val [] entry = entry
last_hit val (s ∷ ss) entry = last_hit val ss (if s.value == val then s.entry else entry)

abbrev pub holds : ℕ → List (Slot ℕ) → Bool
holds val [] = false
holds val (s ∷ ss) = (s.value == val) || holds val ss

-- A random number of `vals` has the remainder `k`.
abbrev pub drawn : ℕ → List ℕ → Bool
drawn k [] = false
drawn k (v ∷ vals) = (v % pool_size == k) || drawn k vals

pub record IsSplit (ss : List (Slot ℕ)) (p : Ptr) : Type 0 where
  pub us : List (Slot ℕ)
  pub s : Slot ℕ
  pub vs : List (Slot ℕ)
  pub parts : ss ≡ us ++ s ∷ vs
  pub found : p ≡ s.entry

IsSplit-cons : (t : Slot ℕ) (ss : List (Slot ℕ)) (p : Ptr) → IsSplit ss p → IsSplit (t ∷ ss) p
IsSplit-cons t ss p i = record {
  us = t ∷ i.us;
  s = i.s;
  vs = i.vs;
  parts = ap (λ r. t ∷ r) i.parts;
  found = i.found;
}

last_hit-cases :
    (val : ℕ) (ss : List (Slot ℕ)) (entry : Ptr)
    → ((last_hit val ss entry ≡ entry) × (holds val ss ≡ false))
      ⊎ IsSplit ss (last_hit val ss entry)
last_hit-cases val [] entry = inl (refl, refl)
last_hit-cases val (s ∷ ss) entry = elim (Bool-cases (s.value == val)) [
  | inl hit ↦ rw hit (elim (last_hit-cases val ss s.entry) [
    | inl (e, _) ↦ inr (record { us = []; s = s; vs = ss; parts = refl; found = e })
    | inr i ↦ inr (IsSplit-cons s ss _ i)
  ])
  | inr miss ↦
      rw miss
        (elim (last_hit-cases val ss entry) [ inl r ↦ inl r | inr i ↦ inr (IsSplit-cons s ss _ i) ])
]

IsSplit-ne_null : (ss : List (Slot ℕ)) (p : Ptr) → Distinct (cells ss) → IsSplit ss p → p ≢ null
IsSplit-ne_null ss p d i =
    let d' = rw (i.parts, cells-append i.us (i.s ∷ i.vs)) at d in
    rw i.found (Distinct-split (cells i.us) (cells (i.s ∷ i.vs)) d').1.0

module _ (h : Heap ℕ) where
  scan-last_hit :
      (fuel val : ℕ) (prev : Ptr) (ss : List (Slot ℕ)) (entry : Ptr)
      → Chain h.nodes prev (cells ss) null
      → Distinct (cells ss)
      → Distinct (els ss)
      → Values h.elems ss
      → length ss < fuel
      → scan fuel val (first (cells ss) null) entry h ≡ ok (last_hit val ss entry) h
  unfolding scan
  scan-last_hit zero val prev ss entry c d d' v f = absurd (omega arith)
  scan-last_hit (suc fuel) val prev [] entry c d d' v f = refl
  scan-last_hit (suc fuel) val prev (s ∷ ss) entry c d d' v f =
      rw
        (
          ==-ne s.entry null d.0,
          load-ok h.nodes s.entry s.el (first (cells ss) null) prev d.0 c.0,
          ==-ne s.el null d'.0,
          load_el-ok h s.el s.value d'.0 v.0,
        )
        (scan-last_hit fuel val s.entry ss (if s.value == val then s.entry else entry) c.1 d.2 d'.2
          v.1 (omega arith))

  -- The search ends where the random numbers reach the integer of a node.
  pub look_for-found :
      (fuel k : ℕ) (ss : List (Slot ℕ)) (vals : List ℕ)
      → Chain h.nodes null (cells ss) null
      → Distinct (cells ss)
      → Distinct (els ss)
      → Values h.elems ss
      → length ss < fuel
      → holds (k + 1) ss ≡ true
      → drawn k vals ≡ true
      → (p : Ptr) × (look_for fuel vals (first (cells ss) null) h ≡ ok p h) × IsSplit ss p
  unfolding look_for
  look_for-found fuel k ss [] c d d' v f t r = cc
  look_for-found fuel k ss (x ∷ vals) c d d' v f t r =
      let val = x % pool_size + 1 in
      let scanned = scan-last_hit fuel val null ss null c d d' v f in
      elim (last_hit-cases val ss null) [
        | inl (e, missing) ↦
            let other : (x % pool_size == k) ≡ false = ground arith in
            let later : drawn k vals ≡ true = ground arith in
            let (p, found, i) = look_for-found fuel k ss vals c d d' v f t later in
            (p, rw (scanned, e) found, i)
        | inr i ↦ (
          last_hit val ss null,
          rw (scanned, ==-ne (last_hit val ss null) null (IsSplit-ne_null ss _ d i)) refl,
          i,
        )
      ]
