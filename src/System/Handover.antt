-- ===== src/System/Handover.antt =====
-- The allocator of a new process (src/system.c) gets the untypeds that the root task has granted it
-- (src/process.c).
use libsel4osapi.Prelude.{
  ℕ, suc, ◌+◌, ◌-◌, ◌%◌, ◌^◌, ◌≤◌, ◌≡◌, ◌≢◌, refl, sym, ap, ◌∙◌, Bool, true, some, List, [], ◌∷◌,
  ◌++◌, append-nil, append_assoc, length, length-append, get_elem?, arith,
}
use libsel4osapi.Run.{ok}
use libsel4osapi.Process.{Untyped, no_grant, assign}
use libsel4osapi.Process.Restore.{assigned}
use libsel4osapi.Process.Granted.{new_untypeds, assign-new, assign-sizes}
use libsel4osapi.System.{Untypeds, add_loop, add_untypeds}

-- One slot after the other.
abbrev pub numbered : (slot : ℕ) → List ℕ → Untypeds
numbered slot [] = []
numbered slot (b ∷ bs) = (slot, b) ∷ numbered (suc slot) bs

get_elem?-middle : (xs ys : List ℕ) (y : ℕ) → get_elem? (xs ++ y ∷ ys) (length xs) ≡ some y
get_elem?-middle [] ys y = refl
get_elem?-middle (x ∷ xs) ys y = get_elem?-middle xs ys y

module _ (add_uts : (slot size_bits : ℕ) → Bool)
    (added : (slot size_bits : ℕ) → add_uts slot size_bits ≡ true) where
  add_loop-numbered :
      (ys xs : List ℕ) (slot : ℕ) (uts : Untypeds)
      → add_loop add_uts (length ys) slot (length xs) (xs ++ ys) uts
        ≡ ok tt (uts ++ numbered slot ys)
  unfolding add_loop
  add_loop-numbered [] xs slot uts = ap (ok tt) (sym (append-nil uts))
  add_loop-numbered (y ∷ ys) xs slot uts =
      rw (get_elem?-middle xs ys y, added slot y)
        ((rw (append_assoc xs (y ∷ []) ys, length-snoc) at
            (add_loop-numbered ys (xs ++ y ∷ []) (suc slot) (uts ++ (slot, y) ∷ [])))
          ∙ ap (ok tt) (append_assoc uts ((slot, y) ∷ []) (numbered (suc slot) ys)))
    where
      length-snoc : length (xs ++ y ∷ []) ≡ suc (length xs)
      length-snoc = omega (arith, length-append xs (y ∷ []))

  -- A process that is granted some of at most 256 untypeds hands exactly those to its allocator: the
  -- entries of the system's table that are no longer free, in the slots from that of the first grant
  -- on, each with its size.
  pub add_untypeds-new :
      (mint : ℕ → ℕ) (mem_size pid : ℕ) (us : List Untyped) (uts : Untypeds)
      → ((k : ℕ) → mint k ≡ mint 0 + k)
      → pid % 2 ^ 8 ≢ 0
      → length us ≤ 2 ^ 8
      → (assign mint mem_size pid 0 us no_grant).1.untyped_count ≢ 0
      → add_untypeds add_uts (assign mint mem_size pid 0 us no_grant).1 uts
        ≡ ok tt
            (uts ++ numbered (mint 0) (new_untypeds us (assign mint mem_size pid 0 us no_grant).0))
  unfolding add_untypeds
  add_untypeds-new mint mem_size pid us uts step pid_ne few some_granted =
      let g = (assign mint mem_size pid 0 us no_grant).1 in
      let r = (assigned mint mem_size step pid us few).range in
      let rounds : suc g.end - g.start ≡ length g.untyped_size_bits_list = omega (
        arith,
        r.start_eq some_granted,
        r.end_eq some_granted,
        assign-sizes mint mem_size pid pid_ne 0 us no_grant refl,
      ) in
      ap (λ n. add_loop add_uts n g.start 0 g.untyped_size_bits_list uts) rounds
      ∙ add_loop-numbered g.untyped_size_bits_list [] g.start uts
      ∙ ap (λ n. ok tt (uts ++ numbered n g.untyped_size_bits_list)) (r.start_eq some_granted)
      ∙ ap (λ bs. ok tt (uts ++ numbered (mint 0) bs))
          (assign-new mint mem_size pid pid_ne 0 us no_grant)
