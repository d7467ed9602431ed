-- ===== src/Tester/Built.antt =====
-- sel4osapi_list_tester from its start: the lists that it builds and the rounds on them.
use libsel4osapi.Prelude.{
  ℕ, zero, suc, ◌≡◌, refl, sym, some, none, List, [], ◌∷◌, length, arith, ==-ne,
}
use libsel4osapi.Run.{Run, ok, fail, Cmd, and_then, Returns, returns, bind, Returns-ok}
use libsel4osapi.LinkedList.{Ptr, null, insert}
use libsel4osapi.LinkedList.Chain.{Distinct}
use libsel4osapi.Pool.{Heap, Block, Pool, on_nodes, write_elem, fill, new}
use libsel4osapi.Pool.Shape.{cells, els, store_el-ok, init_el-none}
use libsel4osapi.Pool.New.{slots, new-Shows}
use libsel4osapi.Tester.{Round, pool_size, allocate_entries, list_tester}
use libsel4osapi.Tester.Kept.{IsTester, Zeros, Covering, reinit, run-IsTester}

-- The blocks with their integers set to 0.
abbrev pub zeroed : List (Block ℕ) → List (Block ℕ)
zeroed [] = []
zeroed (b ∷ bs) = record b { el_junk = 0 } ∷ zeroed bs

abbrev new_pool : Ptr → Pool ℕ
new_pool q = record {
  free_entries = q;
  entries = null;
  el_size = 4;
  size = pool_size;
  current_size = 0;
  init_fn = none;
  compare_fn = none;
}

slots-Zeros : (bs : List (Block ℕ)) → Zeros (slots none (zeroed bs))
slots-Zeros [] = tt
slots-Zeros (b ∷ bs) = (refl, slots-Zeros bs)

length-zeroed : (bs : List (Block ℕ)) → length (zeroed bs) ≡ length bs
length-zeroed [] = refl
length-zeroed (b ∷ bs) = omega (arith, length-zeroed bs)

module _ {S A B : Type 0} where
  regroup :
      {C : Type 0} (r : Run S A) (k : A → Cmd S B) (l : B → C) (m : A → Cmd S C)
      → ((a : A) (s : S) → m a s ≡ and_then (k a s) (λ b. ok (l b)))
      → and_then r m ≡ and_then (and_then r k) (λ b. ok (l b))
  regroup (ok a s) k l m e = e a s
  regroup (fail f) k l m e = refl

  Returns-before :
      {P : B → S → Type 0} (g : A → B) (r : Run S A)
      → Returns P (and_then r (λ a. ok (g a)))
      → Returns (λ a. P (g a)) r
  Returns-before g (ok a s) p = returns (Returns-ok p)
  Returns-before g (fail f) p = elim p [ ]

-- The loop does what that of simple_pool_new does with blocks that hold 0.
fill-allocate_entries :
    (n fuel : ℕ) (bs : List (Block ℕ)) (q : Ptr) (h : Heap ℕ)
    → n ≡ length bs
    → Distinct (els (slots none (zeroed bs)))
    → fill n fuel (zeroed bs) (new_pool q) h
      ≡ and_then (allocate_entries n fuel bs q h) (λ r. ok (new_pool r))
unfolding fill allocate_entries
fill-allocate_entries zero fuel bs q h l d = refl
fill-allocate_entries (suc n) fuel [] q h l d = absurd (omega arith)
fill-allocate_entries (suc n) fuel (b ∷ bs) q h l d =
    rw (==-ne b.el null d.0, store_el-ok h b.el 0)
      (rw (init_el-none (record h { elems = write_elem h.elems b.el 0 }) b.el) (
        regroup
          (on_nodes (insert fuel b.entry b.entry_junk q b.el)
            (record h { elems = write_elem h.elems b.el 0 }))
          (allocate_entries n fuel bs) new_pool _
          λ r h'. fill-allocate_entries n fuel bs r h' (omega arith) d.2))

-- On five blocks with distinct addresses, none of them NULL, and rounds whose random numbers each
-- reach every integer that a search may look for, the tester ends: no assertion fails, no pointer
-- is bad and no search goes on for ever. Its two lists are then well linked and share no node and no
-- element, they have five nodes between them, and the integers are 0 in the free list and from 1 to
-- 5 in the other.
pub list_tester-IsTester :
    (bs : List (Block ℕ)) (xs : List Round) (h : Heap ℕ)
    → length bs ≡ pool_size
    → Distinct (cells (slots none (zeroed bs)))
    → Distinct (els (slots none (zeroed bs)))
    → Covering xs
    → Returns (IsTester pool_size) (list_tester bs xs h)
unfolding list_tester new
list_tester-IsTester bs xs h l dn de c =
    let made =
      new-Shows pool_size 4 none none (zeroed bs) h (omega arith) (omega arith)
        (omega (arith, l, length-zeroed bs)) dn de in
    let listed =
      Returns-before new_pool (allocate_entries pool_size (suc pool_size) bs null h)
        (rw (fill-allocate_entries pool_size (suc pool_size) bs null h (sym l) de) at made) in
    bind listed λ free h' sh.
      run-IsTester (suc pool_size) pool_size xs _ h' (omega arith)
        (record {
          free = slots none (zeroed bs);
          used = [];
          count = 0;
          shows = reinit h' _ _ (some (λ _. 0)) sh;
          zeros = slots-Zeros bs;
          tags = tt;
        })
        c
