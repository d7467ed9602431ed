-- ===== src/LinkedList/Separate.antt =====
-- Two lists that share no address, and what remains so when an address moves between them.
use libsel4osapi.Prelude.{◌≡◌, ◌≢◌, refl, true, false, inl, inr, [], ◌∷◌, ◌++◌, arith, Bool-cases}
use libsel4osapi.LinkedList.{Ptr}
use libsel4osapi.LinkedList.Chain.{
  Cells, has, Distinct, Apart, has-append, Distinct-append, Distinct-split, Apart-has, Apart-of_has,
  has-ne,
}

pub record Separate (xs ys : Cells) : Type 0 where
  pub left : Distinct xs
  pub right : Distinct ys
  pub apart : Apart xs ys

-- A cell that has an address stands in one of the two parts.
pub Separate-has : (xs ys : Cells) (a : Ptr) → Separate xs ys → has a ys ≡ true → has a xs ≡ false
Separate-has xs ys a s i = elim (Bool-cases (has a xs)) [
  | inl o ↦ let n = Apart-has xs ys a s.apart o in cc
  | inr o ↦ o
]

pub Apart-snoc :
    (p e : Ptr) (xs ys : Cells) → has p xs ≡ false → Apart xs ys → Apart xs (ys ++ (p, e) ∷ [])
Apart-snoc p e xs ys o s = Apart-of_has xs (ys ++ (p, e) ∷ []) λ a i.
    let n = has-ne a p xs i o in
    let m = Apart-has xs ys a s i in ground (arith, has-append a ys ((p, e) ∷ []))

pub Distinct-snoc :
    (p e : Ptr) (xs : Cells) → p ≢ 0 → Distinct xs → has p xs ≡ false → Distinct (xs ++ (p, e) ∷ [])
Distinct-snoc p e xs n d o =
    Distinct-append xs ((p, e) ∷ []) d (n, refl, tt)
      (Apart-of_has xs ((p, e) ∷ []) λ a i. let m = has-ne a p xs i o in ground arith)

-- The first cell goes to the end of the other list.
pub Separate-shift :
    (p e f : Ptr) (xs ys : Cells) → Separate ((p, e) ∷ xs) ys → Separate xs (ys ++ (p, f) ∷ [])
Separate-shift p e f xs ys s = record {
  left = s.left.2;
  right = Distinct-snoc p f ys s.left.0 s.right s.apart.0;
  apart = Apart-snoc p f xs ys s.left.1 s.apart.1;
}

-- A cell in the middle goes to the end of the other list.
pub Separate-back :
    (p e f : Ptr) (xs us vs : Cells)
    → Separate xs (us ++ (p, e) ∷ vs)
    → Separate (xs ++ (p, f) ∷ []) (us ++ vs)
Separate-back p e f xs us vs s =
    let (du, dv, a) = Distinct-split us ((p, e) ∷ vs) s.right in
    let out : has p xs ≡ false =
      Separate-has xs (us ++ (p, e) ∷ vs) p s (ground (arith, has-append p us ((p, e) ∷ vs))) in
    let out_us : has p us ≡ false =
      Separate-has us ((p, e) ∷ vs) p (record { left = du; right = dv; apart = a })
        (ground arith) in
    record {
      left = Distinct-snoc p f xs dv.0 s.left out;
      right =
          Distinct-append us vs du dv.2
            (Apart-of_has us vs λ b i. let n = Apart-has us ((p, e) ∷ vs) b a i in ground arith);
      apart = Apart-of_has (xs ++ (p, f) ∷ []) (us ++ vs) λ b i. moved b i out_us dv.1;
    }
  where
    moved :
        (b : Ptr)
        → has b (xs ++ (p, f) ∷ []) ≡ true
        → has p us ≡ false
        → has p vs ≡ false
        → has b (us ++ vs) ≡ false
    moved b i o₁ o₂ = elim (Bool-cases (has b xs)) [
      | inl j ↦
          let n = Apart-has xs (us ++ (p, e) ∷ vs) b s.apart j in
          ground (arith, has-append b us vs, has-append b us ((p, e) ∷ vs))
      | inr j ↦
          let q : b ≡ p = ground (arith, has-append b xs ((p, f) ∷ [])) in
          rw (q, has-append p us vs, o₁, o₂)
    ]

-- A list of distinct addresses without one of its cells.
pub Distinct-remove :
    (p e : Ptr) (us vs : Cells) → Distinct (us ++ (p, e) ∷ vs) → Distinct (us ++ vs)
Distinct-remove p e us vs d =
    let (du, dv, a) = Distinct-split us ((p, e) ∷ vs) d in
    Distinct-append us vs du dv.2
      (Apart-of_has us vs λ b i. let n = Apart-has us ((p, e) ∷ vs) b a i in ground arith)

-- A cell in the middle of one list stands nowhere else.
pub record IsAlone (p : Ptr) (xs us vs : Cells) : Type 0 where
  pub ne_null : p ≢ 0
  pub other : has p xs ≡ false
  pub front : has p us ≡ false
  pub back : has p vs ≡ false

pub Separate-middle :
    (p e : Ptr) (xs us vs : Cells) → Separate xs (us ++ (p, e) ∷ vs) → IsAlone p xs us vs
Separate-middle p e xs us vs s =
    let (du, dv, a) = Distinct-split us ((p, e) ∷ vs) s.right in
    let r : Separate us ((p, e) ∷ vs) = record { left = du; right = dv; apart = a } in
    record {
      ne_null = dv.0;
      other = Separate-has xs _ p s (ground (arith, has-append p us ((p, e) ∷ vs)));
      front = Separate-has us _ p r (ground arith);
      back = dv.1;
    }

-- Distinct looks at the addresses only.
pub Distinct-retag :
    (p e f : Ptr) (us vs : Cells) → Distinct (us ++ (p, e) ∷ vs) → Distinct (us ++ (p, f) ∷ vs)
Distinct-retag p e f [] vs d = d
Distinct-retag p e f ((q, g) ∷ us) vs (n, o, d) = (
  n,
  ground (arith, has-append q us ((p, e) ∷ vs), has-append q us ((p, f) ∷ vs)),
  Distinct-retag p e f us vs d,
)
