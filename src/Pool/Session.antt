-- ===== src/Pool/Session.antt =====
-- A client of a pool of src/pool.c: the calls that it makes, on the heap and on the view.
pub mod Served
pub mod Examples
use libsel4osapi.Prelude.{ℕ, Option, none, some, List, [], ◌∷◌, ℤ}
use libsel4osapi.Run.{Cmd, pure, ◌>>=◌, ◌>>◌}
use libsel4osapi.LinkedList.{Ptr}
use libsel4osapi.Pool.{Heap, Pool, alloc, free, change_el}
use libsel4osapi.Pool.View
use libsel4osapi.Pool.View.{View, value_at}

-- simple_pool_alloc, simple_pool_free of an element, and a write to an element.
pub data Call (E : Type 0) : Type 0 where
  take : Call E
  give : Ptr → Call E
  change : Ptr → (E → E) → Call E

-- What a call returns.
pub data Reply : Type 0 where
  element : Ptr → Reply
  status : ℤ → Reply
  changed : Reply

abbrev pub and_serve : {A B : Type 0} → Option A → (A → Option B) → Option B
and_serve none k = none
and_serve (some a) k = k a

module _ {E : Type 0} where
  pub perform : (fuel : ℕ) → Pool E → Call E → Cmd (Heap E) (Reply × Pool E)
  perform fuel pool take = do (e, pool') ← alloc fuel pool; pure (element e, pool')
  perform fuel pool (give e) = do (error, pool') ← free fuel pool e; pure (status error, pool')
  perform fuel pool (change e f) = do change_el e f; pure (changed, pool)

  pub perform_all : (fuel : ℕ) → Pool E → List (Call E) → Cmd (Heap E) (List Reply × Pool E)
  unfolding perform
  perform_all fuel pool [] = pure ([], pool)
  perform_all fuel pool (c ∷ cs) = do
    (r, pool') ← perform fuel pool c
    (rs, pool'') ← perform_all fuel pool' cs
    pure (r ∷ rs, pool'')

  -- The same calls on the view. A client uses the pointers of used elements only.
  abbrev pub serve_give : View E → Ptr → Option E → Option (Reply × View E)
  serve_give v e none = none
  serve_give v e (some y) = some (status (View.release v e y).0, (View.release v e y).1)

  abbrev pub serve_change : View E → Ptr → (E → E) → Option E → Option (Reply × View E)
  serve_change v e f none = none
  serve_change v e f (some y) = some (changed, View.modify v e f)

  pub serve : View E → Call E → Option (Reply × View E)
  serve v take = some (element (View.alloc v).0, (View.alloc v).1)
  serve v (give e) = serve_give v e (value_at e v.used)
  serve v (change e f) = serve_change v e f (value_at e v.used)

  pub serve_all : View E → List (Call E) → Option (List Reply × View E)
  unfolding serve
  serve_all v [] = some ([], v)
  serve_all v (c ∷ cs) =
      and_serve (serve v c) λ (r, v'). and_serve (serve_all v' cs) λ (rs, v''). some (r ∷ rs, v'')
