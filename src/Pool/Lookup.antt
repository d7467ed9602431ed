-- ===== src/Pool/Lookup.antt =====
-- The view's accesses to an element that stands in the middle of a list.
use libsel4osapi.Prelude.{◌≡◌, refl, false, some, List, [], ◌∷◌, ◌++◌, arith, ==-self}
use libsel4osapi.LinkedList.{Ptr}
use libsel4osapi.LinkedList.Chain.{has}
use libsel4osapi.Pool.View.{Slot, value_at, put}
use libsel4osapi.Pool.Shape.{els}

module _ {E : Type 0} where
  pub value_at-middle :
      (us vs : List (Slot E)) (s : Slot E)
      → has s.el (els us) ≡ false
      → value_at s.el (us ++ s ∷ vs) ≡ some s.value
  value_at-middle [] vs s o = ground arith
  value_at-middle (u ∷ us) vs s o = ground (arith, value_at-middle us vs s)

  pub put-out :
      (e : Ptr) (f : E → E) (us : List (Slot E)) → has e (els us) ≡ false → put e f us ≡ us
  put-out e f [] o = refl
  put-out e f (u ∷ us) o = ground (arith, put-out e f us)

  pub put-middle :
      (f : E → E) (us vs : List (Slot E)) (s : Slot E)
      → has s.el (els us) ≡ false
      → has s.el (els vs) ≡ false
      → put s.el f (us ++ s ∷ vs) ≡ us ++ record s { value = f s.value } ∷ vs
  put-middle f [] vs s o o' = rw (==-self s.el, put-out s.el f vs o')
  put-middle f (u ∷ us) vs s o o' = ground (arith, put-middle f us vs s)
