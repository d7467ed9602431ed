-- ===== src/LinkedList/Insert.antt =====
-- sel4osapi_list_insert_node appends the node, and sel4osapi_list_insert a fresh one.
use libsel4osapi.Prelude.{
  ℕ, ◌<◌, ◌≡◌, ◌≢◌, refl, sym, subst, ◌∙◌, true, false, some, [], ◌∷◌, ◌++◌, length, arith, ◌==◌,
  ==-ne, if◌then◌else◌,
}
use libsel4osapi.Run.{ok, Returns, returns, mono}
use libsel4osapi.LinkedList.{
  Ptr, null, Node, node, Nodes, with_next, with_prev, insert_node, insert,
}
use libsel4osapi.LinkedList.Chain.{
  Cells, has, Distinct, first, last, Chain, Chain-append, Chain-frame, Chain-with_next, has-append,
  has-last, last-ne-null, with_next-ne, with_prev-ne, with_next-at, with_prev-at, has-ne,
  last-holds, walk-last, set_next-ok, set_prev-ok,
}

-- The store when `entry` has been linked behind the last node `prev`.
inserted : Nodes → (prev entry : Ptr) → Nodes
inserted h prev entry =
    if prev == null
    then with_prev (with_next h entry null) entry null
    else with_prev (with_next (with_next h entry null) prev entry) entry prev

-- `h` and `g` agree but for the nodes of `xs`.
abbrev pub SameOutside : Cells → Nodes → Nodes → Type 0
SameOutside xs h g = (a : Ptr) → has a xs ≡ false → g a ≡ h a

-- The list `xs` starts at `head`, and the rest of the store is that of `h`.
pub record IsAppended (h : Nodes) (xs : Cells) (head : Ptr) (g : Nodes) : Type 0 where
  pub head_eq : head ≡ first xs null
  pub chain : Chain g null xs null
  pub same : SameOutside xs h g

module _ (h : Nodes) (entry e n v : Ptr) (ne : entry ≢ null)
    (at : h entry ≡ some (node e n v)) where
  module _ (p f : Ptr) (xs : Cells) (d : Distinct ((p, f) ∷ xs))
      (out : has entry ((p, f) ∷ xs) ≡ false) where
    last-ne-entry : last p xs ≢ entry
    last-ne-entry l = has-ne (last p xs) entry ((p, f) ∷ xs) (has-last p f xs) out (sym l)

    entry-second : with_next (with_next h entry null) (last p xs) entry entry ≡ some (node e null v)
    entry-second =
        with_next-ne (with_next h entry null) (last p xs) entry entry (λ l. last-ne-entry (sym l))
        ∙ with_next-at h entry e n v at null

    inserted-cons :
        inserted h (last p xs) entry
        ≡ with_prev (with_next (with_next h entry null) (last p xs) entry) entry (last p xs)
    unfolding inserted
    inserted-cons = rw (==-ne (last p xs) null (last-ne-null p f xs d))

  insert_node-ok :
      (fuel : ℕ) (xs : Cells)
      → Distinct xs
      → has entry xs ≡ false
      → Chain h null xs null
      → length xs < fuel
      → insert_node fuel (first xs null) entry h
        ≡ ok (first (xs ++ (entry, e) ∷ []) null) (inserted h (last null xs) entry)
  unfolding insert_node inserted
  insert_node-ok fuel [] d out c f =
      let w = walk-last fuel h null [] tt tt f in
      let s = set_next-ok h entry e n v ne at null in
      let at' = with_next-at h entry e n v at null in
      let t = set_prev-ok (with_next h entry null) entry e null v ne at' null in
      rw (==-ne entry null ne, w, s, t)
  insert_node-ok fuel ((p, f) ∷ xs) d out c b =
      let w = walk-last fuel h null ((p, f) ∷ xs) d c b in
      let l = last-ne-null p f xs d in
      let (g, u, held) = last-holds h null p f xs null c in
      let s = set_next-ok h entry e n v ne at null in
      let h₁ = with_next h entry null in
      let held' = with_next-ne h entry null (last p xs) (last-ne-entry p f xs d out) ∙ held in
      let t = set_next-ok h₁ (last p xs) g null u l held' entry in
      let h₂ = with_next h₁ (last p xs) entry in
      let r = set_prev-ok h₂ entry e null v ne (entry-second p f xs d out) (last p xs) in
      rw (==-ne entry null ne, w, s, ==-ne (last p xs) null l, t, r)

  inserted-Chain :
      (xs : Cells)
      → Distinct xs
      → has entry xs ≡ false
      → Chain h null xs null
      → Chain (inserted h (last null xs) entry) null (xs ++ (entry, e) ∷ []) null
  inserted-Chain [] d out c = (
    unfold inserted in with_prev-at _ entry e null v (with_next-at h entry e n v at null) null,
    tt,
  )
  inserted-Chain ((p, f) ∷ xs) d out c =
      let h₁ = with_next h entry null in
      let h₂ = with_next h₁ (last p xs) entry in
      let spare₁ = λ (a : Ptr) (i : has a ((p, f) ∷ xs) ≡ true).
        with_next-ne h entry null a (λ e'. has-ne a entry ((p, f) ∷ xs) i out (sym e')) in
      let spare₂ = λ (a : Ptr) (i : has a ((p, f) ∷ xs) ≡ true).
        with_prev-ne h₂ entry (last p xs) a (λ e'. has-ne a entry ((p, f) ∷ xs) i out (sym e')) in
      let c₁ = Chain-frame h h₁ null ((p, f) ∷ xs) null spare₁ c in
      let c₂ = Chain-with_next h₁ null p f xs null entry d c₁ in
      let c₃ = Chain-frame h₂ (with_prev h₂ entry (last p xs)) null ((p, f) ∷ xs) entry spare₂ c₂ in
      let at' = with_prev-at h₂ entry e null v (entry-second p f xs d out) (last p xs) in
      subst (λ g. Chain g null ((p, f) ∷ xs ++ (entry, e) ∷ []) null)
        (sym (inserted-cons p f xs d out))
        (Chain-append _ null ((p, f) ∷ xs) ((entry, e) ∷ []) null c₃ (at', tt))

  ne-entry : (xs : Cells) (a : Ptr) → has a (xs ++ (entry, e) ∷ []) ≡ false → a ≢ entry
  ne-entry xs a o = ground (arith, has-append a xs ((entry, e) ∷ []))

  inserted-same :
      (xs : Cells)
      → has entry xs ≡ false
      → Distinct xs
      → SameOutside (xs ++ (entry, e) ∷ []) h (inserted h (last null xs) entry)
  unfolding inserted
  inserted-same [] out d a o =
      with_prev-ne _ entry null a (ne-entry [] a o) ∙ with_next-ne h entry null a (ne-entry [] a o)
  inserted-same ((p, f) ∷ xs) out d a o =
      let apart = ne-entry ((p, f) ∷ xs) a o in
      let o' : has a ((p, f) ∷ xs) ≡ false = ground (arith, has-append a xs ((entry, e) ∷ [])) in
      let apart' = has-ne (last p xs) a ((p, f) ∷ xs) (has-last p f xs) o' in
      rw (inserted-cons p f xs d out, with_prev-ne _ entry (last p xs) a apart)
        (with_next-ne _ (last p xs) entry a apart' ∙ with_next-ne h entry null a apart)

  -- The insertion appends `entry` to the list, and writes to no other node.
  pub insert_node-IsAppended :
      (fuel : ℕ) (xs : Cells)
      → Distinct xs
      → has entry xs ≡ false
      → Chain h null xs null
      → length xs < fuel
      → Returns (IsAppended h (xs ++ (entry, e) ∷ [])) (insert_node fuel (first xs null) entry h)
  insert_node-IsAppended fuel xs d out c f = rw (insert_node-ok fuel xs d out c f) (
      returns (record {
        head_eq = refl;
        chain = inserted-Chain xs d out c;
        same = inserted-same xs out d;
      }))

-- The list with a fresh node at its end.
pub insert-IsAppended :
    (fuel fresh : Ptr) (junk : Node) (e : Ptr) (h : Nodes) (xs : Cells)
    → fresh ≢ null
    → Distinct xs
    → has fresh xs ≡ false
    → Chain h null xs null
    → length xs < fuel
    → Returns (IsAppended h (xs ++ (fresh, e) ∷ [])) (insert fuel fresh junk (first xs null) e h)
unfolding insert
insert-IsAppended fuel fresh junk e h xs ne d out c f =
    let g : Nodes = λ a. if a == fresh then some (record junk { el = e }) else h a in
    let apart = λ (a : Ptr) (i : has a xs ≡ true). has-ne a fresh xs i out in
    let c' = Chain-frame h g null xs null (λ a i. let n = apart a i in ground arith) c in
    rw (==-ne fresh null ne) (
      mono
        (insert_node-IsAppended g fresh e junk.next junk.prev ne (ground arith) fuel xs d out c' f)
        λ head k a. record {
          head_eq = a.head_eq;
          chain = a.chain;
          same = λ b o. a.same b o ∙ (let n = ne_fresh b o in ground arith);
        })
  where
    ne_fresh : (a : Ptr) → has a (xs ++ (fresh, e) ∷ []) ≡ false → a ≢ fresh
    ne_fresh a o = ground (arith, has-append a xs ((fresh, e) ∷ []))
