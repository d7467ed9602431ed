-- ===== src/LinkedList/Chain.antt =====
-- What a list of src/list.c looks like in the store: its nodes in order, with their elements.
use libsel4osapi.Prelude.{
  ℕ, zero, suc, ◌<◌, ◌≡◌, ◌≢◌, refl, ◌∙◌, Bool, true, false, ◌||◌, some, List, [], ◌∷◌, ◌++◌,
  length, arith, ◌==◌,
}
use libsel4osapi.Run.{ok}
use libsel4osapi.LinkedList.{
  Ptr, null, node, Nodes, with_next, with_prev, load, set_next, set_prev, walk,
}

-- Address and element of each node.
abbrev pub Cells : Type 0
Cells = List (Ptr × Ptr)

abbrev pub has : Ptr → Cells → Bool
has a [] = false
has a ((p, _) ∷ xs) = (a == p) || has a xs

-- The addresses are not NULL and stand once each.
abbrev pub Distinct : Cells → Type 0
Distinct [] = Unit
Distinct ((p, _) ∷ xs) = (p ≢ null) × (has p xs ≡ false) × Distinct xs

-- No address stands in both.
abbrev pub Apart : Cells → Cells → Type 0
Apart [] ys = Unit
Apart ((p, _) ∷ xs) ys = (has p ys ≡ false) × Apart xs ys

-- The first address, and the last one; `end` and `prev` where there is none.
abbrev pub first : Cells → Ptr → Ptr
first [] end = end
first ((p, _) ∷ xs) end = p

abbrev pub last : Ptr → Cells → Ptr
last prev [] = prev
last prev ((p, _) ∷ xs) = last p xs

-- The nodes `xs` linked in order, behind `prev` and in front of `end`.
abbrev pub Chain : Nodes → Ptr → Cells → Ptr → Type 0
Chain h prev [] end = Unit
Chain h prev ((p, e) ∷ xs) end = (h p ≡ some (node e (first xs end) prev)) × Chain h p xs end

pub has-append : (a : Ptr) (xs ys : Cells) → has a (xs ++ ys) ≡ (has a xs || has a ys)
has-append a [] ys = refl
has-append a ((p, e) ∷ xs) ys = ground (arith, has-append a xs ys)

pub first-append : (xs ys : Cells) (end : Ptr) → first (xs ++ ys) end ≡ first xs (first ys end)
first-append [] ys end = refl
first-append ((p, e) ∷ xs) ys end = refl

pub last-append : (prev : Ptr) (xs ys : Cells) → last prev (xs ++ ys) ≡ last (last prev xs) ys
last-append prev [] ys = refl
last-append prev ((p, e) ∷ xs) ys = last-append p xs ys

pub has-last : (p e : Ptr) (xs : Cells) → has (last p xs) ((p, e) ∷ xs) ≡ true
has-last p e [] = ground arith
has-last p e ((q, f) ∷ xs) = ground (arith, has-last q f xs)

pub last-ne-null : (p e : Ptr) (xs : Cells) → Distinct ((p, e) ∷ xs) → last p xs ≢ null
last-ne-null p e [] d = d.0
last-ne-null p e ((q, f) ∷ xs) d = last-ne-null q f xs d.2

pub Chain-append :
    (h : Nodes) (prev : Ptr) (xs ys : Cells) (end : Ptr)
    → Chain h prev xs (first ys end)
    → Chain h (last prev xs) ys end
    → Chain h prev (xs ++ ys) end
Chain-append h prev [] ys end c d = d
Chain-append h prev ((p, e) ∷ xs) ys end c d =
    (ground (arith, first-append xs ys end), Chain-append h p xs ys end c.1 d)

pub Chain-split :
    (h : Nodes) (prev : Ptr) (xs ys : Cells) (end : Ptr)
    → Chain h prev (xs ++ ys) end
    → Chain h prev xs (first ys end) × Chain h (last prev xs) ys end
Chain-split h prev [] ys end c = (tt, c)
Chain-split h prev ((p, e) ∷ xs) ys end c =
    let (front, back) = Chain-split h p xs ys end c.1 in
    ((ground (arith, first-append xs ys end), front), back)

-- A chain survives any change that spares its nodes.
pub Chain-frame :
    (h g : Nodes) (prev : Ptr) (xs : Cells) (end : Ptr)
    → ((a : Ptr) → has a xs ≡ true → g a ≡ h a)
    → Chain h prev xs end
    → Chain g prev xs end
Chain-frame h g prev [] end same c = tt
Chain-frame h g prev ((p, e) ∷ xs) end same c =
    (ground (arith, same p), Chain-frame h g p xs end (λ a i. same a (ground arith)) c.1)

pub with_next-ne : (h : Nodes) (p q a : Ptr) → a ≢ p → with_next h p q a ≡ h a
unfolding with_next
with_next-ne h p q a n = ground arith

pub with_prev-ne : (h : Nodes) (p q a : Ptr) → a ≢ p → with_prev h p q a ≡ h a
unfolding with_prev
with_prev-ne h p q a n = ground arith

module _ (h : Nodes) (p e n v : Ptr) (at : h p ≡ some (node e n v)) where
  pub with_next-at : (q : Ptr) → with_next h p q p ≡ some (node e q v)
  unfolding with_next
  with_next-at q = ground arith

  pub with_prev-at : (q : Ptr) → with_prev h p q p ≡ some (node e n q)
  unfolding with_prev
  with_prev-at q = ground arith

pub last-holds :
    (h : Nodes) (prev p e : Ptr) (xs : Cells) (end : Ptr)
    → Chain h prev ((p, e) ∷ xs) end
    → (f v : Ptr) × (h (last p xs) ≡ some (node f end v))
last-holds h prev p e [] end c = (e, prev, c.0)
last-holds h prev p e ((q, f) ∷ xs) end c = last-holds h p q f xs end c.1

pub has-ne : (a b : Ptr) (xs : Cells) → has a xs ≡ true → has b xs ≡ false → b ≢ a
has-ne a b xs i o e = cc

-- A write to the last node's `next` moves the end of the chain.
pub Chain-with_next :
    (h : Nodes) (prev p e : Ptr) (xs : Cells) (end end' : Ptr)
    → Distinct ((p, e) ∷ xs)
    → Chain h prev ((p, e) ∷ xs) end
    → Chain (with_next h (last p xs) end') prev ((p, e) ∷ xs) end'
unfolding with_next
Chain-with_next h prev p e [] end end' d c = (ground arith, tt)
Chain-with_next h prev p e ((q, f) ∷ xs) end end' d c = (
  with_next-ne h (last q xs) end' p (has-ne _ _ ((q, f) ∷ xs) (has-last q f xs) d.1) ∙ c.0,
  Chain-with_next h p q f xs end end' d.2 c.1,
)

-- A write to the first node's `prev` moves the start.
pub Chain-with_prev :
    (h : Nodes) (prev prev' p e : Ptr) (xs : Cells) (end : Ptr)
    → Distinct ((p, e) ∷ xs)
    → Chain h prev ((p, e) ∷ xs) end
    → Chain (with_prev h p prev') prev' ((p, e) ∷ xs) end
unfolding with_prev
Chain-with_prev h prev prev' p e xs end d c =
    (ground arith, Chain-frame h (with_prev h p prev') p xs end (λ a i. ground arith) c.1)

pub Distinct-append :
    (xs ys : Cells) → Distinct xs → Distinct ys → Apart xs ys → Distinct (xs ++ ys)
Distinct-append [] ys dx dy a = dy
Distinct-append ((p, e) ∷ xs) ys dx dy a =
    (dx.0, ground (arith, has-append p xs ys), Distinct-append xs ys dx.2 dy a.1)

pub Distinct-split : (xs ys : Cells) → Distinct (xs ++ ys) → Distinct xs × Distinct ys × Apart xs ys
Distinct-split [] ys d = (tt, d, tt)
Distinct-split ((p, e) ∷ xs) ys d =
    let (dx, dy, a) = Distinct-split xs ys d.2 in
    ((d.0, ground (arith, has-append p xs ys), dx), dy, (ground (arith, has-append p xs ys), a))

pub Apart-has : (xs ys : Cells) (a : Ptr) → Apart xs ys → has a xs ≡ true → has a ys ≡ false
Apart-has [] ys a p i = cc
Apart-has ((q, e) ∷ xs) ys a p i = ground (arith, Apart-has xs ys a p.1)

pub Apart-of_has : (xs ys : Cells) → ((a : Ptr) → has a xs ≡ true → has a ys ≡ false) → Apart xs ys
Apart-of_has [] ys f = tt
Apart-of_has ((p, e) ∷ xs) ys f =
    (f p (ground arith), Apart-of_has xs ys (λ a i. f a (ground arith)))

module _ (h : Nodes) (p e n v : Ptr) (ne : p ≢ null) (at : h p ≡ some (node e n v)) where
  pub load-ok : load p h ≡ ok (node e n v) h
  unfolding load
  load-ok = ground arith

  pub set_next-ok : (q : Ptr) → set_next p q h ≡ ok tt (with_next h p q)
  unfolding set_next
  set_next-ok q = ground arith

  pub set_prev-ok : (q : Ptr) → set_prev p q h ≡ ok tt (with_prev h p q)
  unfolding set_prev
  set_prev-ok q = ground arith

-- The walk ends at the last node, on any fuel above the length, and writes nothing.
pub walk-last :
    (fuel : ℕ) (h : Nodes) (prev : Ptr) (xs : Cells)
    → Distinct xs
    → Chain h prev xs null
    → length xs < fuel
    → walk fuel (first xs null) prev h ≡ ok (last prev xs) h
unfolding walk
walk-last zero h prev xs d c f = absurd (omega arith)
walk-last (suc fuel) h prev [] d c f = refl
walk-last (suc fuel) h prev ((p, e) ∷ xs) d c f =
    ground (
      arith,
      load-ok h p e (first xs null) prev d.0 c.0,
      walk-last fuel h p xs d.2 c.1 (omega arith),
    )
