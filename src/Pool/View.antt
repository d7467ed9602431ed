-- ===== src/Pool/View.antt =====
-- What a pool of src/pool.c promises its clients: two queues of elements, one of them free.
use libsel4osapi.Prelude.{
  ℕ, ◌≡◌, ap, Bool, true, Option, none, some, List, [], ◌∷◌, ◌++◌, ℤ, pos, negsuc, is_zero, inl,
  inr, arith, Bool-cases, Option-cases, length, ◌==◌, if◌then◌else◌,
}
use libsel4osapi.LinkedList.{Ptr, null}

-- An element of the pool: its list node, its address and its value.
pub record Slot (E : Type 0) : Type 0 where
  pub entry : Ptr
  pub el : Ptr
  pub value : E

-- The state of a pool as its clients see it.
pub record View (E : Type 0) : Type 0 where
  pub size : ℕ
  pub free : List (Slot E)
  pub used : List (Slot E)
  pub init_fn : Option (E → E)
  pub compare_fn : Option (E → E → ℤ)

module _ {E : Type 0} where
  abbrev pub reset : Option (E → E) → Slot E → Slot E
  reset none s = s
  reset (some f) s = record s { value = f s.value }

  abbrev pub alloc_from : View E → List (Slot E) → Ptr × View E
  alloc_from v [] = (null, v)
  alloc_from v (s ∷ rest) =
      (s.el, record v { free = rest; used = v.used ++ reset v.init_fn s ∷ [] })

  -- The oldest free element becomes the youngest used one; NULL if there is none.
  unfoldable pub alloc : View E → Ptr × View E
  alloc v = alloc_from v v.free

  -- The value of the element at `e`.
  abbrev pub value_at : Ptr → List (Slot E) → Option E
  value_at e [] = none
  value_at e (s ∷ ss) = if s.el == e then some s.value else value_at e ss

  -- The test by which a used element is found: `y` is the value of the element that is sought.
  abbrev pub is_hit : Option (E → E → ℤ) → Ptr → E → Slot E → Bool
  is_hit none e y s = s.el == e
  is_hit (some compare_fn) e y s = is_zero (compare_fn s.value y)

  abbrev pub behind :
      Slot E
      → Option (List (Slot E) × Slot E × List (Slot E))
      → Option (List (Slot E) × Slot E × List (Slot E))
  behind s none = none
  behind s (some (us, t, vs)) = some (s ∷ us, t, vs)

  -- The first used element that is a hit, with those in front of it and behind it.
  unfoldable pub split_at :
      Option (E → E → ℤ) → Ptr → E → List (Slot E) → Option (List (Slot E) × Slot E × List (Slot E))
  split_at c e y [] = none
  split_at c e y (s ∷ ss) =
      if is_hit c e y s then some ([], s, ss) else behind s (split_at c e y ss)

  abbrev pub give_back : View E → Option (List (Slot E) × Slot E × List (Slot E)) → ℤ × View E
  give_back v none = (negsuc 0, v)
  give_back v (some (us, s, vs)) =
      (pos 0, record v { free = v.free ++ reset v.init_fn s ∷ []; used = us ++ vs })

  -- The first used element that is a hit becomes the youngest free one; -1 if there is none.
  unfoldable pub release : View E → Ptr → E → ℤ × View E
  unfolding split_at
  release v e y = give_back v (split_at v.compare_fn e y v.used)

  unfoldable pub get_current_size : View E → ℕ
  get_current_size v = length v.used

  -- Write through a pointer to an element.
  abbrev pub put : Ptr → (E → E) → List (Slot E) → List (Slot E)
  put e f [] = []
  put e f (s ∷ ss) = (if s.el == e then record s { value = f s.value } else s) ∷ put e f ss

  unfoldable pub modify : View E → Ptr → (E → E) → View E
  modify v e f = record v { used = put e f v.used }

  -- A hit splits the list at the first element that passes the test.
  pub split_at-append :
      (c : Option (E → E → ℤ)) (e : Ptr) (y : E) (ss : List (Slot E)) {us vs : List (Slot E)}
      {s : Slot E}
      → split_at c e y ss ≡ some (us, s, vs)
      → (ss ≡ us ++ s ∷ vs) × (is_hit c e y s ≡ true)
  unfolding split_at
  split_at-append c e y [] h = cc
  split_at-append c e y (t ∷ ss) {us} {vs} {s} h = elim (Bool-cases (is_hit c e y t)) [
    | inl hit ↦ ground arith
    | inr miss ↦ elim (Option-cases (split_at c e y ss)) [
      | inl none_left ↦ ground arith
      | inr ((us', s', vs'), found) ↦
          let (rest, test) = split_at-append c e y ss found in ground arith
    ]
  ]

  -- Where elements are not initialised, the oldest free one becomes the youngest used one as it is.
  pub alloc-first :
      (v : View E) (s : Slot E) (rest : List (Slot E))
      → v.init_fn ≡ none
      → alloc (record v { free = s ∷ rest })
        ≡ (s.el, record v { free = rest; used = v.used ++ s ∷ [] })
  unfolding alloc
  alloc-first v s rest n =
      ap (λ f. (s.el, record v { free = rest; used = v.used ++ reset f s ∷ [] })) n
