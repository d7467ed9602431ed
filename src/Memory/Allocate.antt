-- ===== src/Memory/Allocate.antt =====
-- How many untypeds sel4osapi_util_allocate_untypeds of src/util.c allocates.
use libsel4osapi.Prelude.{
  ℕ, zero, suc, ◌+◌, ◌-◌, ◌*◌, ◌%◌, ◌^◌, ◌≤◌, ◌<◌, ◌≡◌, sym, subst, ◌==◌, ◌⊎◌, inl, inr, Bool, true,
  false, leb, arith, Bool-cases,
}
use libsel4osapi.Memory.{untyped_bytes, allocate_loop, allocate_untypeds}

-- `n` untypeds from `k` on, as many as the bounds and the allocator allow.
pub record IsLargest (alloc_untyped : ℕ → Bool) (bytes max_untypeds k n : ℕ) : Type 0 where
  pub from : k ≤ n
  pub at_most : n ≤ max_untypeds
  pub fits : n * untyped_bytes ≤ bytes
  pub got : (i : ℕ) → k ≤ i → i < n → alloc_untyped i ≡ true
  pub stopped : (n ≡ max_untypeds) ⊎ ((bytes < (n + 1) * untyped_bytes) ⊎ (alloc_untyped n ≡ false))

module _ (alloc_untyped : ℕ → Bool) (bytes : ℕ) (small : bytes + untyped_bytes < 2 ^ 32) where
  -- The loop ends at `k`.
  ends_here :
      (max k : ℕ)
      → k ≤ max
      → k * untyped_bytes ≤ bytes
      → (bytes < (k + 1) * untyped_bytes) ⊎ (alloc_untyped k ≡ false)
      → IsLargest alloc_untyped bytes max k k
  ends_here max k e f s = record {
    from = omega arith;
    at_most = e;
    fits = f;
    got = λ i l h. absurd (omega arith);
    stopped = inr s;
  }

  goes_on :
      (max k n : ℕ)
      → alloc_untyped k ≡ true
      → IsLargest alloc_untyped bytes max (suc k) n
      → IsLargest alloc_untyped bytes max k n
  goes_on max k n t l = record {
    from = let f = l.from in omega arith;
    at_most = l.at_most;
    fits = l.fits;
    got = λ i a b. elim (Bool-cases (i == k)) [
      | inl here ↦ let e : i ≡ k = ground arith in subst (λ j. alloc_untyped j ≡ true) (sym e) t
      | inr later ↦ l.got i (ground arith) b
    ];
    stopped = l.stopped;
  }

  allocate_loop-IsLargest :
      (room max k : ℕ)
      → k + room ≡ max
      → k * untyped_bytes ≤ bytes
      → IsLargest alloc_untyped bytes max k
          (allocate_loop alloc_untyped bytes room k (k * untyped_bytes))
  unfolding allocate_loop
  allocate_loop-IsLargest zero max k e f = record {
    from = omega arith;
    at_most = omega arith;
    fits = f;
    got = λ i l h. absurd (omega arith);
    stopped = inl (omega arith);
  }
  allocate_loop-IsLargest (suc room) max k e f =
      let more : (k * untyped_bytes + untyped_bytes) % 2 ^ 32 ≡ suc k * untyped_bytes =
        omega arith in
      elim (Bool-cases (leb (suc k * untyped_bytes) bytes)) [
        | inl fits ↦ elim (Bool-cases (alloc_untyped k)) [
          | inl got ↦
              rw (more, fits, got)
                (goes_on max k _ got
                  (allocate_loop-IsLargest room max (suc k) (omega arith) (ground arith)))
          | inr refused ↦ rw (more, fits, refused) (ends_here max k (omega arith) f (inr refused))
        ]
        | inr over ↦ rw (more, over) (ends_here max k (omega arith) f (inl (ground arith)))
      ]

-- The function ends with the largest number of untypeds of 2 ^ 23 bytes that the allocator gives,
-- that do not exceed `bytes` in all, and that are at most `max_untypeds`, where `bytes` is so far
-- from 2 ^ 32 that the sum does not wrap around.
pub allocate_untypeds-IsLargest :
    (alloc_untyped : ℕ → Bool) (bytes max_untypeds : ℕ)
    → bytes + untyped_bytes < 2 ^ 32
    → IsLargest alloc_untyped bytes max_untypeds 0
        (allocate_untypeds alloc_untyped bytes max_untypeds)
unfolding allocate_untypeds
allocate_untypeds-IsLargest alloc_untyped bytes max_untypeds small =
    allocate_loop-IsLargest alloc_untyped bytes small max_untypeds max_untypeds 0 (omega arith)
      (omega arith)

-- All untypeds that the allocator gives, from the `k`-th on, up to `max_untypeds`.
pub record UntilFailure (alloc_untyped : ℕ → Bool) (max_untypeds k n : ℕ) : Type 0 where
  pub from : k ≤ n
  pub at_most : n ≤ max_untypeds
  pub got : (i : ℕ) → k ≤ i → i < n → alloc_untyped i ≡ true
  pub stopped : (n ≡ max_untypeds) ⊎ (alloc_untyped n ≡ false)

allocate_loop-UntilFailure :
    (alloc_untyped : ℕ → Bool) (max_untypeds room k allocated : ℕ)
    → k + room ≡ max_untypeds
    → UntilFailure alloc_untyped max_untypeds k
        (allocate_loop alloc_untyped (2 ^ 32 - 1) room k allocated)
unfolding allocate_loop
allocate_loop-UntilFailure alloc_untyped max_untypeds zero k allocated e = record {
  from = omega arith;
  at_most = omega arith;
  got = λ i l u. absurd (omega arith);
  stopped = inl (omega arith);
}
allocate_loop-UntilFailure alloc_untyped max_untypeds (suc room) k allocated e =
    let fits : leb ((allocated + untyped_bytes) % 2 ^ 32) (2 ^ 32 - 1) ≡ true = ground arith in
    elim (Bool-cases (alloc_untyped k)) [
      | inl given ↦
          let r =
            allocate_loop-UntilFailure alloc_untyped max_untypeds room (suc k)
              ((allocated + untyped_bytes) % 2 ^ 32) (omega arith) in
          rw (fits, given)
            (record {
              from = omega (arith, r.from);
              at_most = r.at_most;
              got = λ i l u. elim (Bool-cases (i == k)) [
                | inl here ↦
                    subst (λ j. alloc_untyped j ≡ true) (let h : k ≡ i = ground arith in h) given
                | inr later ↦ r.got i (ground arith) u
              ];
              stopped = r.stopped;
            })
      | inr refused ↦
          rw (fits, refused)
            (record {
              from = omega arith;
              at_most = omega arith;
              got = λ i l u. absurd (omega arith);
              stopped = inr refused;
            })
    ]

pub allocate_untypeds-UntilFailure :
    (alloc_untyped : ℕ → Bool) (max_untypeds : ℕ)
    → UntilFailure alloc_untyped max_untypeds 0
        (allocate_untypeds alloc_untyped (2 ^ 32 - 1) max_untypeds)
unfolding allocate_untypeds
allocate_untypeds-UntilFailure alloc_untyped max_untypeds =
    allocate_loop-UntilFailure alloc_untyped max_untypeds max_untypeds 0 0 (omega arith)
