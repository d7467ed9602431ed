-- ===== src/Pool/Session/Examples.antt =====
-- A session with a pool of two numbers.
use libsel4osapi.Prelude.{ℕ, suc, ◌≡◌, refl, none, some, List, [], ◌∷◌, pos, arith}
use libsel4osapi.Run.{Returns, ◌>>=◌}
use libsel4osapi.Pool.{new}
use libsel4osapi.Pool.View
use libsel4osapi.Pool.View.{View}
use libsel4osapi.Pool.Shape.{Shows}
use libsel4osapi.Pool.New.{new_view}
use libsel4osapi.Pool.Examples.{heap, blocks}
use libsel4osapi.Pool.Session.{
  Call, take, give, change, Reply, element, status, changed, perform_all, serve_all,
}
use libsel4osapi.Pool.Session.Served.{new-serve_all}

-- The third allocation finds nothing free; the element that is given back is used again.
abbrev calls : List (Call ℕ)
calls = take ∷ change 11 (λ n. 7) ∷ take ∷ take ∷ give 11 ∷ take ∷ []

abbrev replies : List Reply
replies = element 11 ∷ changed ∷ element 21 ∷ element 0 ∷ status (pos 0) ∷ element 11 ∷ []

abbrev left : View ℕ
left = record (new_view 2 (some (λ n. 0)) none blocks) {
  free = [];
  used = record { entry = 20; el = 21; value = 0 } ∷ record { entry = 10; el = 11; value = 0 } ∷ [];
}

serve_calls : serve_all (new_view 2 (some (λ n. 0)) none blocks) calls ≡ some (replies, left)
unfolding serve_all View.alloc View.release View.modify View.split_at
serve_calls = refl

new-serve_all_example :
    Returns
      (λ (rs, p) h'. (rs ≡ replies) × Shows h' p left)
      ((new 2 4 (some (λ n. 0)) none blocks >>= λ p. perform_all (suc 2) p calls) heap)
new-serve_all_example =
    new-serve_all 2 4 (some (λ n. 0)) none blocks heap calls replies left (omega arith)
      (omega arith) refl (omega arith, refl, (omega arith, refl, tt))
      (omega arith, refl, (omega arith, refl, tt)) serve_calls
