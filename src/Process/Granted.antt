-- ===== src/Process/Granted.antt =====
-- What a process of src/process.c is granted, read off the table of the untypeds.
use libsel4osapi.Prelude.{
  ℕ, suc, ◌+◌, ◌%◌, ◌^◌, ◌≤◌, ◌<◌, ◌≡◌, ◌≢◌, refl, sym, ◌∙◌, true, not, ◌&&◌, inl, inr, List, [],
  ◌∷◌, ◌++◌, append-nil, append_assoc, length, length-append, ltb, ◌==◌, ==-ne, if◌then◌else◌,
  arith, Bool-cases,
}
use libsel4osapi.Process.{Untyped, Grant, no_grant, take_untyped, assign}

-- The sizes of the untypeds that were free before and are not after.
abbrev pub new_untypeds : (before after : List Untyped) → List ℕ
new_untypeds [] vs = []
new_untypeds (u ∷ us) [] = []
new_untypeds (u ∷ us) (v ∷ vs) =
    if (u.allocation == 0) && not (v.allocation == 0)
    then u.size_bits ∷ new_untypeds us vs
    else new_untypeds us vs

-- The loop over the untypeds grants no more than there are, and keeps their number.
module _ (mint : ℕ → ℕ) (mem_size : ℕ) where
  pub length-assign :
      (pid i : ℕ) (us : List Untyped) (g : Grant)
      → length (assign mint mem_size pid i us g).0 ≡ length us
  unfolding assign
  length-assign pid i [] g = refl
  length-assign pid i (u ∷ us) g = ground (
    arith,
    length-assign pid (suc i) us g,
    length-assign pid (suc i) us (take_untyped mint mem_size i u g),
  )

  pub assign-count :
      (pid i : ℕ) (us : List Untyped) (g : Grant)
      → (assign mint mem_size pid i us g).1.untyped_count ≤ g.untyped_count + length us
  unfolding assign take_untyped
  assign-count pid i [] g = omega arith
  assign-count pid i (u ∷ us) g = ground (
    arith,
    assign-count pid (suc i) us g,
    assign-count pid (suc i) us (take_untyped mint mem_size i u g),
  )

  assign-grows :
      (pid i : ℕ) (us : List Untyped) (g : Grant)
      → g.untyped_count ≤ (assign mint mem_size pid i us g).1.untyped_count
  unfolding assign take_untyped
  assign-grows pid i [] g = omega arith
  assign-grows pid i (u ∷ us) g = ground (
    arith,
    assign-grows pid (suc i) us g,
    assign-grows pid (suc i) us (take_untyped mint mem_size i u g),
  )

  -- A free untyped at the front is granted.
  pub assign-first :
      (pid : ℕ) (u : Untyped) (us : List Untyped)
      → u.allocation ≡ 0
      → 0 < mem_size
      → (assign mint mem_size pid 0 (u ∷ us) no_grant).1.untyped_count ≢ 0
  unfolding assign take_untyped
  assign-first pid u us free some_mem =
      let more : ltb 0 mem_size ≡ true = ground arith in
      let unused : (u.allocation == 0) ≡ true = ground arith in
      let one = assign-grows pid 1 us (take_untyped mint mem_size 0 u no_grant) in
      rw (more, unused) (λ e. omega (arith, one, e))

new_untypeds_self : (us : List Untyped) → new_untypeds us us ≡ []
new_untypeds_self [] = refl
new_untypeds_self (u ∷ us) = ground (arith, new_untypeds_self us)

module _ (mint : ℕ → ℕ) (mem_size pid : ℕ) (pid_ne : pid % 2 ^ 8 ≢ 0) where
  pub assign-new :
      (i : ℕ) (us : List Untyped) (g : Grant)
      → (assign mint mem_size pid i us g).1.untyped_size_bits_list
        ≡ g.untyped_size_bits_list ++ new_untypeds us (assign mint mem_size pid i us g).0
  unfolding assign take_untyped
  assign-new i [] g = sym (append-nil g.untyped_size_bits_list)
  assign-new i (u ∷ us) g = elim (Bool-cases (ltb g.untyped_size mem_size)) [
    | inl more ↦ elim (Bool-cases (u.allocation == 0)) [
      | inl free ↦
          rw (more, free, ==-ne (pid % 2 ^ 8) 0 pid_ne, free)
            (assign-new (suc i) us (take_untyped mint mem_size i u g)
              ∙ append_assoc g.untyped_size_bits_list (u.size_bits ∷ []) _)
      | inr taken ↦ rw (more, taken, taken) (assign-new (suc i) us g)
    ]
    | inr enough ↦
        rw (enough, new_untypeds_self (u ∷ us)) (sym (append-nil g.untyped_size_bits_list))
  ]

  pub assign-sizes :
      (i : ℕ) (us : List Untyped) (g : Grant)
      → g.untyped_count ≡ length g.untyped_size_bits_list
      → (assign mint mem_size pid i us g).1.untyped_count
        ≡ length (assign mint mem_size pid i us g).1.untyped_size_bits_list
  unfolding assign take_untyped
  assign-sizes i [] g e = e
  assign-sizes i (u ∷ us) g e =
      let one =
        assign-sizes (suc i) us (take_untyped mint mem_size i u g)
          (omega (arith, e, length-append g.untyped_size_bits_list (u.size_bits ∷ []))) in
      ground (arith, assign-sizes (suc i) us g e, one)
