-- ===== src/Boot/Stocked.antt =====
-- The root task of src/system.c while it starts: what it can still allocate.
use libsel4osapi.Prelude.{
  ℕ, zero, suc, ◌≤◌, ◌≡◌, ◌≢◌, refl, ap, not, List, [], ◌∷◌, length, ◌==◌, ==-ne, arith,
}
use libsel4osapi.Run.{Returns, returns, Returns-check, bind, pure}
use libsel4osapi.LinkedList.{null}
use libsel4osapi.Pool.View.{View}
use libsel4osapi.Thread.{Thread}
use libsel4osapi.Boot.{
  Routine, Resources, pop_endpoint, pop_notification, pop_slot, pop_mutex, alloc_endpoint,
  alloc_notification, alloc_slot, create_mutex,
}

-- `k` more than `n`, as successors.
abbrev pub more : (k n : ℕ) → ℕ
more zero n = n
more (suc k) n = suc (more k n)

abbrev pub NoneZero : List ℕ → Type 0
NoneZero [] = Unit
NoneZero (x ∷ xs) = (x ≢ 0) × NoneZero xs

-- There are `n` of each resource, endpoints and mutexes are not NULL, and `P` holds of the threads.
pub record Stocked (n : ℕ) (P : View (Thread (List Routine)) → Type 0) (r : Resources)
    : Type 0 where
  pub endpoints_le : n ≤ length r.threads.endpoints
  pub endpoints_ne : NoneZero r.threads.endpoints
  pub notifications_le : n ≤ length r.threads.notifications
  pub frames_le : n ≤ length r.threads.frames
  pub slots_le : n ≤ length r.slots
  pub mutexes_le : n ≤ length r.mutexes
  pub mutexes_ne : NoneZero r.mutexes
  pub pool : P r.threads.threads

pub Stocked-le :
    (m n : ℕ) (P : View (Thread (List Routine)) → Type 0) (r : Resources)
    → m ≤ n
    → Stocked n P r
    → Stocked m P r
Stocked-le m n P r le s = record {
  endpoints_le = omega (arith, le, s.endpoints_le);
  endpoints_ne = s.endpoints_ne;
  notifications_le = omega (arith, le, s.notifications_le);
  frames_le = omega (arith, le, s.frames_le);
  slots_le = omega (arith, le, s.slots_le);
  mutexes_le = omega (arith, le, s.mutexes_le);
  mutexes_ne = s.mutexes_ne;
  pool = s.pool;
}

module _ (n : ℕ) (P : View (Thread (List Routine)) → Type 0) (r : Resources) where
  pop_endpoint-Stocked :
      (xs : List ℕ)
      → r.threads.endpoints ≡ xs
      → NoneZero xs
      → Stocked (suc n) P r
      → Returns (λ x r'. (x ≢ 0) × Stocked n P r') (pop_endpoint xs r)
  unfolding pop_endpoint
  pop_endpoint-Stocked [] e ne s = absurd (omega (arith, s.endpoints_le, ap length e))
  pop_endpoint-Stocked (x ∷ xs) e ne s = returns (
    ne.0,
    record {
      endpoints_le = omega (arith, s.endpoints_le, ap length e);
      endpoints_ne = ne.1;
      notifications_le = omega (arith, s.notifications_le);
      frames_le = omega (arith, s.frames_le);
      slots_le = omega (arith, s.slots_le);
      mutexes_le = omega (arith, s.mutexes_le);
      mutexes_ne = s.mutexes_ne;
      pool = s.pool;
    },
  )

  pub alloc_endpoint-Stocked :
      Stocked (suc n) P r → Returns (λ x r'. (x ≢ 0) × Stocked n P r') (alloc_endpoint r)
  unfolding alloc_endpoint
  alloc_endpoint-Stocked s = pop_endpoint-Stocked r.threads.endpoints refl s.endpoints_ne s

  pop_notification-Stocked :
      (xs : List ℕ)
      → r.threads.notifications ≡ xs
      → Stocked (suc n) P r
      → Returns (λ x r'. Stocked n P r') (pop_notification xs r)
  unfolding pop_notification
  pop_notification-Stocked [] e s = absurd (omega (arith, s.notifications_le, ap length e))
  pop_notification-Stocked (x ∷ xs) e s = returns (record {
    endpoints_le = omega (arith, s.endpoints_le);
    endpoints_ne = s.endpoints_ne;
    notifications_le = omega (arith, s.notifications_le, ap length e);
    frames_le = omega (arith, s.frames_le);
    slots_le = omega (arith, s.slots_le);
    mutexes_le = omega (arith, s.mutexes_le);
    mutexes_ne = s.mutexes_ne;
    pool = s.pool;
  })

  pub alloc_notification-Stocked :
      Stocked (suc n) P r → Returns (λ x r'. Stocked n P r') (alloc_notification r)
  unfolding alloc_notification
  alloc_notification-Stocked s = pop_notification-Stocked r.threads.notifications refl s

  pop_slot-Stocked :
      (xs : List ℕ)
      → r.slots ≡ xs
      → Stocked (suc n) P r
      → Returns (λ x r'. Stocked n P r') (pop_slot xs r)
  unfolding pop_slot
  pop_slot-Stocked [] e s = absurd (omega (arith, s.slots_le, ap length e))
  pop_slot-Stocked (x ∷ xs) e s = returns (record {
    endpoints_le = omega (arith, s.endpoints_le);
    endpoints_ne = s.endpoints_ne;
    notifications_le = omega (arith, s.notifications_le);
    frames_le = omega (arith, s.frames_le);
    slots_le = omega (arith, s.slots_le, ap length e);
    mutexes_le = omega (arith, s.mutexes_le);
    mutexes_ne = s.mutexes_ne;
    pool = s.pool;
  })

  pub alloc_slot-Stocked : Stocked (suc n) P r → Returns (λ x r'. Stocked n P r') (alloc_slot r)
  unfolding alloc_slot
  alloc_slot-Stocked s = pop_slot-Stocked r.slots refl s

  pop_mutex-Stocked :
      (xs : List ℕ)
      → r.mutexes ≡ xs
      → NoneZero xs
      → Stocked (suc n) P r
      → Returns (λ x r'. (x ≢ 0) × Stocked n P r') (pop_mutex xs r)
  unfolding pop_mutex
  pop_mutex-Stocked [] e ne s = absurd (omega (arith, s.mutexes_le, ap length e))
  pop_mutex-Stocked (x ∷ xs) e ne s = returns (
    ne.0,
    record {
      endpoints_le = omega (arith, s.endpoints_le);
      endpoints_ne = s.endpoints_ne;
      notifications_le = omega (arith, s.notifications_le);
      frames_le = omega (arith, s.frames_le);
      slots_le = omega (arith, s.slots_le);
      mutexes_le = omega (arith, s.mutexes_le, ap length e);
      mutexes_ne = ne.1;
      pool = s.pool;
    },
  )

  pub create_mutex-Stocked :
      Stocked (suc n) P r → Returns (λ x r'. (x ≢ 0) × Stocked n P r') (create_mutex r)
  unfolding create_mutex
  create_mutex-Stocked s = bind (pop_mutex-Stocked r.mutexes refl s.mutexes_ne s) λ x r' (ne, s').
      Returns-check (λ _. pure x) (not (x == null)) r' (rw (==-ne x null ne) refl)
        (returns (ne, s'))
