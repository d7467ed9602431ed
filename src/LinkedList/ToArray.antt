-- ===== src/LinkedList/ToArray.antt =====
-- sel4osapi_list_to_array stores a prefix of the list's elements.
use libsel4osapi.Prelude.{ℕ, zero, suc, ◌≡◌, refl, List, [], ◌∷◌, length, take, ==-ne}
use libsel4osapi.Run.{ok}
use libsel4osapi.LinkedList.{Ptr, null, Nodes, collect, to_array}
use libsel4osapi.LinkedList.Chain.{Cells, Distinct, Chain, first, load-ok}

abbrev pub elements : Cells → List Ptr
elements [] = []
elements ((p, e) ∷ xs) = e ∷ elements xs

collect-take :
    (h : Nodes) (room : ℕ) (prev : Ptr) (xs : Cells)
    → Distinct xs
    → Chain h prev xs null
    → collect room (first xs null) h ≡ ok (take room (elements xs)) h
unfolding collect
collect-take h zero prev xs d c = refl
collect-take h (suc room) prev [] d c = refl
collect-take h (suc room) prev ((p, e) ∷ xs) d c =
    rw (
      ==-ne p null d.0,
      load-ok h p e (first xs null) prev d.0 c.0,
      collect-take h room p xs d.2 c.1,
    )

-- The array gets the elements of the first `array_len_max` nodes of a list that is not empty, all
-- of them where it has no more nodes, and the length is the number of elements stored; the list
-- is only read.
pub to_array-prefix :
    (h : Nodes) (p e : Ptr) (xs : Cells) (array_len_max : ℕ)
    → Distinct ((p, e) ∷ xs)
    → Chain h null ((p, e) ∷ xs) null
    → let es = take array_len_max (elements ((p, e) ∷ xs)) in
      to_array p array_len_max h ≡ ok (es, length es) h
unfolding to_array
to_array-prefix h p e xs array_len_max d c =
    rw (==-ne p null d.0, collect-take h array_len_max null ((p, e) ∷ xs) d c)
