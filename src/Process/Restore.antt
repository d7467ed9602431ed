-- ===== src/Process/Restore.antt =====
-- Deleting a process of src/process.c gives back exactly the untypeds that it was granted.
use libsel4osapi.Prelude.{
  ℕ, zero, suc, ◌+◌, ◌-◌, ◌≤◌, ◌<◌, ◌%◌, ◌^◌, ◌≡◌, ◌≢◌, refl, sym, ap, subst, ◌∙◌, inl, inr, some,
  List, [], ◌∷◌, ◌++◌, append_assoc, append-nil, length, length-append, get_elem?, ltb, ◌==◌, ==-ne,
  if◌then◌else◌, arith, Bool-cases,
}
use libsel4osapi.Process.{
  Untyped, Grant, no_grant, take_untyped, assign, release_at, release_loop, delete,
}

-- The table with the allocations at `js` reset.
abbrev pub release_all : List ℕ → List Untyped → List Untyped
release_all [] t = t
release_all (j ∷ js) t = release_all js (release_at t j)

release_at-middle :
    (pre us : List Untyped) (u : Untyped)
    → release_at (pre ++ u ∷ us) (length pre) ≡ pre ++ record u { allocation = 0 } ∷ us
unfolding release_at
release_at-middle [] us u = refl
release_at-middle (p ∷ pre) us u = ap (λ r. p ∷ r) (release_at-middle pre us u)

get_elem?-middle : (xs ys : List ℕ) (y : ℕ) → get_elem? (xs ++ y ∷ ys) (length xs) ≡ some y
get_elem?-middle [] ys y = refl
get_elem?-middle (x ∷ xs) ys y = get_elem?-middle xs ys y

length-snoc : (xs : List ℕ) (x : ℕ) → length (xs ++ x ∷ []) ≡ suc (length xs)
length-snoc xs x = omega (arith, length-append xs (x ∷ []))

release_loop-all :
    (xs js : List ℕ) (t : List Untyped)
    → release_loop (length js) (length xs) (xs ++ js) t ≡ release_all js t
unfolding release_loop
release_loop-all xs [] t = refl
release_loop-all xs (j ∷ js) t =
    rw (release_loop, get_elem?-middle xs js j)
      (rw (length-snoc xs j, append_assoc xs (j ∷ []) js) at
        (release_loop-all (xs ++ j ∷ []) js (release_at t j)))

module _ (mint : ℕ → ℕ) (mem_size : ℕ) (consecutive : (k : ℕ) → mint k ≡ mint 0 + k) where
  -- The range of slots, where it is not empty.
  pub record IsRange (g : Grant) : Type 0 where
    pub start_eq : g.untyped_count ≢ 0 → g.start ≡ mint 0
    pub end_eq : g.untyped_count ≢ 0 → suc g.end ≡ mint 0 + g.untyped_count
    pub none_eq : g.untyped_count ≡ 0 → g.end ≡ g.start
    pub count_eq : g.untyped_count ≡ length g.untyped_indices

  -- What the loop from the table `us` on does: it takes the untypeds at `js`.
  pub record IsAssigned (i : ℕ) (us us' : List Untyped) (g g' : Grant) : Type 0 where
    pub js : List ℕ
    pub indices_eq : g'.untyped_indices ≡ g.untyped_indices ++ js
    pub range : IsRange g'
    pub restores : (pre : List Untyped) → length pre ≡ i → release_all js (pre ++ us') ≡ pre ++ us

  take_untyped-IsRange :
      (i : ℕ) (u : Untyped) (g : Grant) → IsRange g → IsRange (take_untyped mint mem_size i u g)
  unfolding take_untyped
  take_untyped-IsRange i u g r = record {
    start_eq = λ _. first (g.untyped_count) r.start_eq;
    end_eq = λ _. omega (arith, consecutive g.untyped_count);
    none_eq = λ z. absurd (omega arith);
    count_eq = ap suc r.count_eq ∙ sym (length-snoc g.untyped_indices (i % 2 ^ 8));
  }
    where
      first : (n : ℕ) → (n ≢ 0 → g.start ≡ mint 0) → (if n == 0 then mint n else g.start) ≡ mint 0
      first zero e = refl
      first (suc n) e = rw (==-ne (suc n) 0 (omega arith)) (e (omega arith))

  snoc_assoc : (pre us : List Untyped) (u : Untyped) → (pre ++ u ∷ []) ++ us ≡ pre ++ u ∷ us
  snoc_assoc pre us u = append_assoc pre (u ∷ []) us

  length-next :
      (pre : List Untyped) (u : Untyped) (i : ℕ) → length pre ≡ i → length (pre ++ u ∷ []) ≡ suc i
  length-next pre u i e = omega (arith, length-append pre (u ∷ []))

  skip-IsAssigned :
      (i : ℕ) (u : Untyped) (us us' : List Untyped) (g g' : Grant)
      → IsAssigned (suc i) us us' g g'
      → IsAssigned i (u ∷ us) (u ∷ us') g g'
  skip-IsAssigned i u us us' g g' a = record {
    js = a.js;
    indices_eq = a.indices_eq;
    range = a.range;
    restores = λ pre e.
        rw (snoc_assoc pre us' u, snoc_assoc pre us u) at
          (a.restores (pre ++ u ∷ []) (length-next pre u i e));
  }

  grant-IsAssigned :
      (pid i : ℕ) (u : Untyped) (us us' : List Untyped) (g g' : Grant)
      → i < 2 ^ 8
      → u.allocation ≡ 0
      → IsAssigned (suc i) us us' (take_untyped mint mem_size i u g) g'
      → IsAssigned i (u ∷ us) (record u { allocation = pid } ∷ us') g g'
  unfolding take_untyped
  grant-IsAssigned pid i u us us' g g' f free a = record {
    js = i ∷ a.js;
    indices_eq =
        a.indices_eq
        ∙ append_assoc g.untyped_indices ((i % 2 ^ 8) ∷ []) a.js
        ∙ ap (λ j. g.untyped_indices ++ j ∷ a.js) (omega arith);
    range = a.range;
    restores = λ pre e.
        ap (release_all a.js) (at_i pre e)
        ∙ (rw (snoc_assoc pre us' u, snoc_assoc pre us u) at
            (a.restores (pre ++ u ∷ []) (length-next pre u i e)));
  }
    where
      at_i :
          (pre : List Untyped)
          → length pre ≡ i
          → release_at (pre ++ record u { allocation = pid } ∷ us') i ≡ pre ++ u ∷ us'
      at_i pre e =
          subst (λ j. release_at (pre ++ record u { allocation = pid } ∷ us') j ≡ pre ++ u ∷ us') e
            (release_at-middle pre us' (record u { allocation = pid })
              ∙ ap (λ z. pre ++ record u { allocation = z } ∷ us') (sym free))

  assign-IsAssigned :
      (pid i : ℕ) (us : List Untyped) (g : Grant)
      → i + length us ≤ 2 ^ 8
      → IsRange g
      → IsAssigned i us (assign mint mem_size pid i us g).0 g (assign mint mem_size pid i us g).1
  unfolding assign
  assign-IsAssigned pid i [] g f r = record {
    js = [];
    indices_eq = sym (append-nil g.untyped_indices);
    range = r;
    restores = λ pre e. refl;
  }
  assign-IsAssigned pid i (u ∷ us) g f r = elim (Bool-cases (ltb g.untyped_size mem_size)) [
    | inl more ↦ elim (Bool-cases (u.allocation == 0)) [
      | inl free ↦
          rw (more, free)
            (grant-IsAssigned (pid % 2 ^ 8) i u us _ g _ (omega arith) (ground arith) (
              assign-IsAssigned pid (suc i) us (take_untyped mint mem_size i u g) (omega arith)
                (take_untyped-IsRange i u g r)))
      | inr taken ↦
          rw (more, taken)
            (skip-IsAssigned i u us _ g _ (assign-IsAssigned pid (suc i) us g (omega arith) r))
    ]
    | inr enough ↦ rw enough (record {
      js = [];
      indices_eq = sym (append-nil g.untyped_indices);
      range = r;
      restores = λ pre e. refl;
    })
  ]

  IsAssigned-delete :
      (us us' : List Untyped) (g : Grant)
      → IsAssigned 0 us us' no_grant g
      → g.untyped_count ≢ 0
      → delete g us' ≡ us
  unfolding delete
  IsAssigned-delete us us' g a n =
      let count : (g.end - g.start) + 1 ≡ length g.untyped_indices =
        omega (arith, a.range.start_eq n, a.range.end_eq n, a.range.count_eq, n) in
      ap (λ k. release_loop k 0 g.untyped_indices us') count
      ∙ release_loop-all [] g.untyped_indices us'
      ∙ ap (λ js. release_all js us') a.indices_eq
      ∙ a.restores [] refl

  pub assigned :
      (pid : ℕ) (us : List Untyped)
      → length us ≤ 2 ^ 8
      → IsAssigned 0 us
          (assign mint mem_size pid 0 us no_grant).0
          no_grant
          (assign mint mem_size pid 0 us no_grant).1
  assigned pid us f = assign-IsAssigned pid 0 us no_grant (omega arith) (record {
    start_eq = λ n. absurd (n refl);
    end_eq = λ n. absurd (n refl);
    none_eq = λ _. refl;
    count_eq = refl;
  })

  -- Creating a process that is granted an untyped, and deleting it, restores the table of at most
  -- 256 untypeds.
  pub delete-assign :
      (pid : ℕ) (us : List Untyped)
      → length us ≤ 2 ^ 8
      → (assign mint mem_size pid 0 us no_grant).1.untyped_count ≢ 0
      → delete (assign mint mem_size pid 0 us no_grant).1 (assign mint mem_size pid 0 us no_grant).0
        ≡ us
  delete-assign pid us f some_granted = IsAssigned-delete us _ _ (assigned pid us f) some_granted

  IsAssigned-nothing :
      (us us' : List Untyped) (g : Grant)
      → IsAssigned 0 us us' no_grant g
      → g.untyped_count ≡ 0
      → delete g us' ≡ release_at us 0
  unfolding delete release_loop
  IsAssigned-nothing us us' g a z =
      let once : (g.end - g.start) + 1 ≡ 1 = omega (arith, a.range.none_eq z) in
      let (none_left, kept) =
        at_nil a.js (a.restores [] refl) (a.indices_eq) (sym a.range.count_eq ∙ z) in
      ap (λ k. release_loop k 0 g.untyped_indices us') once
      ∙ ap (λ js. release_loop 1 0 js us') none_left
      ∙ ap (λ t. release_at t 0) kept
    where
      at_nil :
          (js : List ℕ)
          → release_all js us' ≡ us
          → g.untyped_indices ≡ js
          → length g.untyped_indices ≡ 0
          → (g.untyped_indices ≡ []) × (us' ≡ us)
      at_nil [] e i l = (i, e)
      at_nil (j ∷ js) e i l = absurd (omega (arith, ap length i))

  -- Where a process is granted no untyped, deleting it resets the allocation of the first untyped,
  -- whoever owns it.
  pub delete-nothing :
      (pid : ℕ) (us : List Untyped)
      → length us ≤ 2 ^ 8
      → (assign mint mem_size pid 0 us no_grant).1.untyped_count ≡ 0
      → delete (assign mint mem_size pid 0 us no_grant).1 (assign mint mem_size pid 0 us no_grant).0
        ≡ release_at us 0
  delete-nothing pid us f nothing = IsAssigned-nothing us _ _ (assigned pid us f) nothing
