-- ===== src/LinkedList/Unlink.antt =====
-- sel4osapi_list_unlink takes one node out of its list.
use libsel4osapi.Prelude.{
  ◌≡◌, ◌≢◌, refl, sym, subst, ◌∙◌, inl, inr, true, false, not, some, [], ◌∷◌, ◌++◌, arith, ◌==◌,
  ==-ne, ==-self, Bool-cases, if◌then◌else◌,
}
use libsel4osapi.Run.{ok, pure, ◌>>◌, check, when, Returns, returns}
use libsel4osapi.LinkedList.{
  Ptr, null, node, Nodes, with_next, with_prev, set_next, set_prev, unlink,
}
use libsel4osapi.LinkedList.Chain.{
  Cells, has, Distinct, Apart, first, last, Chain, Chain-append, Chain-split, Chain-frame,
  Chain-with_next, Chain-with_prev, Distinct-split, Apart-has, has-append, has-last, last-ne-null,
  with_next-ne, with_prev-ne, with_next-at, with_prev-at, has-ne, last-holds, load-ok, set_next-ok,
  set_prev-ok,
}
use libsel4osapi.LinkedList.Insert.{SameOutside}

-- The two conditional writes of the unlinking.
skip_next : Nodes → (prev next : Ptr) → Nodes
skip_next h prev next = if prev == null then h else with_next h prev next

skip_prev : Nodes → (next prev : Ptr) → Nodes
skip_prev h next prev = if next == null then h else with_prev h next prev

skip_next_ne_null :
    (h : Nodes) (prev next : Ptr) → prev ≢ null → skip_next h prev next ≡ with_next h prev next
unfolding skip_next
skip_next_ne_null h prev next n = rw (==-ne prev null n)

skip_prev_ne_null :
    (h : Nodes) (next prev : Ptr) → next ≢ null → skip_prev h next prev ≡ with_prev h next prev
unfolding skip_prev
skip_prev_ne_null h next prev n = rw (==-ne next null n)

module _ (h : Nodes) (q : Ptr) where
  skip_next-ok :
      (xs : Cells) (end : Ptr)
      → Distinct xs
      → Chain h null xs end
      → when (not (last null xs == null)) (set_next (last null xs) q) h
        ≡ ok tt (skip_next h (last null xs) q)
  unfolding skip_next
  skip_next-ok [] end d c = refl
  skip_next-ok ((p, e) ∷ xs) end d c =
      let l = last-ne-null p e xs d in
      let (f, v, at) = last-holds h null p e xs end c in
      rw (==-ne (last p xs) null l) (set_next-ok h (last p xs) f end v l at q)

  skip_next-Chain :
      (xs : Cells) (end : Ptr)
      → Distinct xs
      → Chain h null xs end
      → Chain (skip_next h (last null xs) q) null xs q
  unfolding skip_next
  skip_next-Chain [] end d c = tt
  skip_next-Chain ((p, e) ∷ xs) end d c =
      subst (λ g. Chain g null ((p, e) ∷ xs) q)
        (sym (skip_next_ne_null h (last p xs) q (last-ne-null p e xs d)))
        (Chain-with_next h null p e xs end q d c)

  skip_next-same : (xs : Cells) → SameOutside xs h (skip_next h (last null xs) q)
  unfolding skip_next
  skip_next-same [] a o = refl
  skip_next-same ((p, e) ∷ xs) a o =
      let away = with_next-ne h (last p xs) q a (has-ne _ a ((p, e) ∷ xs) (has-last p e xs) o) in
      ground arith

  skip_prev-ok :
      (prev : Ptr) (ys : Cells) (end : Ptr)
      → Distinct ys
      → Chain h prev ys end
      → when (not (first ys null == null)) (set_prev (first ys null) q) h
        ≡ ok tt (skip_prev h (first ys null) q)
  unfolding skip_prev
  skip_prev-ok prev [] end d c = refl
  skip_prev-ok prev ((p, e) ∷ ys) end d c =
      rw (==-ne p null d.0) (set_prev-ok h p e (first ys end) prev d.0 c.0 q)

  skip_prev-Chain :
      (prev : Ptr) (ys : Cells) (end : Ptr)
      → Distinct ys
      → Chain h prev ys end
      → Chain (skip_prev h (first ys null) q) q ys end
  unfolding skip_prev
  skip_prev-Chain prev [] end d c = tt
  skip_prev-Chain prev ((p, e) ∷ ys) end d c =
      subst (λ g. Chain g q ((p, e) ∷ ys) end) (sym (skip_prev_ne_null h p q d.0))
        (Chain-with_prev h prev q p e ys end d c)

  skip_prev-same : (ys : Cells) → SameOutside ys h (skip_prev h (first ys null) q)
  unfolding skip_prev
  skip_prev-same [] a o = refl
  skip_prev-same ((p, e) ∷ ys) a o =
      let away = with_prev-ne h p q a (has-ne p a ((p, e) ∷ ys) (ground arith) o) in ground arith

unlinked : Nodes → (prev entry next : Ptr) → Nodes
unlinked h prev entry next =
    with_next (with_prev (skip_prev (skip_next h prev next) next prev) entry null) entry null

-- The list `xs` starts at `head`, `entry` points nowhere, and the rest of the store is that of `h`.
pub record IsUnlinked (h : Nodes) (entry e : Ptr) (all xs : Cells) (head : Ptr) (g : Nodes)
    : Type 0 where
  pub head_eq : head ≡ first xs null
  pub chain : Chain g null xs null
  pub loose : g entry ≡ some (node e null null)
  pub same : SameOutside all h g

module _ (p e : Ptr) (ys : Cells) where
  head-ne-null : (xs : Cells) → Distinct (xs ++ (p, e) ∷ ys) → first (xs ++ (p, e) ∷ ys) null ≢ null
  head-ne-null [] d = d.0
  head-ne-null ((q, f) ∷ xs) d = d.0

  -- The new head: the next node where the old head is unlinked, else the old head.
  head_step :
      (xs : Cells) (g : Nodes)
      → Distinct (xs ++ (p, e) ∷ ys)
      → (if first (xs ++ (p, e) ∷ ys) null == p
            then (do check (last null xs == null); pure (first ys null))
            else pure (first (xs ++ (p, e) ∷ ys) null))
          g
        ≡ ok (first (xs ++ ys) null) g
  head_step [] g d = rw (==-self p)
  head_step ((q, f) ∷ xs) g d =
      let apart : q ≢ p = ground (arith, has-append q xs ((p, e) ∷ ys)) in rw (==-ne q p apart)

module _ (h : Nodes) (p e : Ptr) (xs ys : Cells) (d : Distinct (xs ++ (p, e) ∷ ys))
    (c : Chain h null (xs ++ (p, e) ∷ ys) null) where
  abbrev h₁ : Nodes
  h₁ = skip_next h (last null xs) (first ys null)

  abbrev h₂ : Nodes
  h₂ = skip_prev h₁ (first ys null) (last null xs)

  abbrev h₃ : Nodes
  h₃ = with_prev h₂ p null

  parts : Distinct xs × Distinct ((p, e) ∷ ys) × Apart xs ((p, e) ∷ ys)
  parts = Distinct-split xs ((p, e) ∷ ys) d

  chains : Chain h null xs p × Chain h (last null xs) ((p, e) ∷ ys) null
  chains = Chain-split h null xs ((p, e) ∷ ys) null c

  out_front : (a : Ptr) → has a ((p, e) ∷ ys) ≡ true → has a xs ≡ false
  out_front a i = elim (Bool-cases (has a xs)) [
    | inl o ↦ let n = Apart-has xs ((p, e) ∷ ys) a parts.2 o in cc
    | inr o ↦ o
  ]

  out_back : (a : Ptr) → has a xs ≡ true → has a ys ≡ false
  out_back a i = let n = Apart-has xs ((p, e) ∷ ys) a parts.2 i in ground arith

  same₁ : (a : Ptr) → has a xs ≡ false → h₁ a ≡ h a
  same₁ = skip_next-same h (first ys null) xs

  same₂ : (a : Ptr) → has a ys ≡ false → h₂ a ≡ h₁ a
  same₂ = skip_prev-same h₁ (last null xs) ys

  at₂ : h₂ p ≡ some (node e (first ys null) (last null xs))
  at₂ = same₂ p parts.1.1 ∙ same₁ p (out_front p (ground arith)) ∙ chains.1.0

  at₃ : h₃ p ≡ some (node e (first ys null) null)
  at₃ = with_prev-at h₂ p e (first ys null) (last null xs) at₂ null

  unlink-ok :
      unlink (first (xs ++ (p, e) ∷ ys) null) p h
      ≡ ok (first (xs ++ ys) null) (unlinked h (last null xs) p (first ys null))
  unfolding unlink unlinked
  unlink-ok =
      let nn = parts.1.0 in
      let c₁ =
        Chain-frame h h₁ p ys null (λ a i. same₁ a (out_front a (ground arith))) chains.1.1 in
      rw (
        ==-ne p null nn,
        ==-ne (first (xs ++ (p, e) ∷ ys) null) null (head-ne-null p e ys xs d),
        load-ok h p e (first ys null) (last null xs) nn chains.1.0,
        skip_next-ok h (first ys null) xs p parts.0 chains.0,
        skip_prev-ok h₁ (last null xs) p ys null parts.1.2 c₁,
        head_step p e ys xs h₂ d,
        set_prev-ok h₂ p e (first ys null) (last null xs) nn at₂ null,
        set_next-ok h₃ p e (first ys null) null nn at₃ null,
      )

  spare : (a : Ptr) → a ≢ p → unlinked h (last null xs) p (first ys null) a ≡ h₂ a
  unfolding unlinked
  spare a n = with_next-ne h₃ p null a n ∙ with_prev-ne h₂ p null a n

  front-ne : (a : Ptr) → has a xs ≡ true → a ≢ p
  front-ne a i n = let o = out_front p (ground arith) in cc

  back-ne : (a : Ptr) → has a ys ≡ true → a ≢ p
  back-ne a i n = let o = parts.1.1 in cc

  unlinked-Chain : Chain (unlinked h (last null xs) p (first ys null)) null (xs ++ ys) null
  unlinked-Chain =
      let c₁ =
        Chain-frame h h₁ p ys null (λ a i. same₁ a (out_front a (ground arith))) chains.1.1 in
      let b₁ = skip_next-Chain h (first ys null) xs p parts.0 chains.0 in
      let c₂ = skip_prev-Chain h₁ (last null xs) p ys null parts.1.2 c₁ in
      let b₂ = Chain-frame h₁ h₂ null xs (first ys null) (λ a i. same₂ a (out_back a i)) b₁ in
      Chain-append _ null xs ys null
        (Chain-frame h₂ _ null xs (first ys null) (λ a i. spare a (front-ne a i)) b₂)
        (Chain-frame h₂ _ (last null xs) ys null (λ a i. spare a (back-ne a i)) c₂)

  outside :
      (a : Ptr)
      → has a (xs ++ (p, e) ∷ ys) ≡ false
      → (has a xs ≡ false) × (has a ys ≡ false) × (a ≢ p)
  outside a o = ground (arith, has-append a xs ((p, e) ∷ ys))

  unlinked-same : SameOutside (xs ++ (p, e) ∷ ys) h (unlinked h (last null xs) p (first ys null))
  unlinked-same a o = let (o₁, o₂, n) = outside a o in spare a n ∙ same₂ a o₂ ∙ same₁ a o₁

  -- `unlink` removes exactly the node `p`, wherever it stands, and writes only to nodes of the list.
  pub unlink-IsUnlinked :
      Returns
        (IsUnlinked h p e (xs ++ (p, e) ∷ ys) (xs ++ ys))
        (unlink (first (xs ++ (p, e) ∷ ys) null) p h)
  unfolding unlinked
  unlink-IsUnlinked = rw unlink-ok (
      returns (record {
        head_eq = refl;
        chain = unlinked-Chain;
        loose = with_next-at h₃ p e (first ys null) null at₃ null;
        same = unlinked-same;
      }))
