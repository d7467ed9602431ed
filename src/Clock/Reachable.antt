-- ===== src/Clock/Reachable.antt =====
-- Runs of the two threads of src/clock.c from the clock that sel4osapi_sysclock_initialize makes.
use libsel4osapi.Prelude.{ℕ, ◌+◌, ◌≡◌, refl, subst, some, List, [], ◌∷◌, length, arith}
use libsel4osapi.Run.{ok, Safe, Safe-ok, safe}
use libsel4osapi.LinkedList.Chain.{Distinct, Apart-of_has}
use libsel4osapi.Pool.{Block}
use libsel4osapi.Pool.New.{slots}
use libsel4osapi.Pool.Shape.{els}
use libsel4osapi.Clock.{Clock, TimeoutEntry, timer_entry_init, tick, initialize}
use libsel4osapi.Clock.Schedule.{Idle, spare, IsClock}
use libsel4osapi.Clock.Invariant.{tick-ticked, ticked-IsClock}
use libsel4osapi.Clock.Server.{Request, serve}
use libsel4osapi.Clock.Server.Safety.{serve-Safe}

-- A round of the timer thread, or of the server thread, that ends.
pub data Step : Clock → Clock → Type 0 where
  timer : (period_ms : ℕ) (c d : Clock) → tick period_ms c ≡ ok tt d → Step c d
  request :
      (m : Request) (c d : Clock) (reply : List ℕ)
      → serve (length c.schedule.used + 3) m c ≡ ok reply d
      → Step c d

pub data Reaches (c : Clock) : Clock → Type 0 where
  start : Reaches c c
  next : (d e : Clock) → Reaches c d → Step d e → Reaches c e

slots-Idle : (bs : List (Block TimeoutEntry)) → Idle (slots (some timer_entry_init) bs)
unfolding timer_entry_init
slots-Idle [] = tt
slots-Idle (b ∷ bs) = (refl, slots-Idle bs)

initialize-IsClock :
    (bs : List (Block TimeoutEntry)) (caller_ep : ℕ) (eps : List ℕ)
    → Distinct (els (slots (some timer_entry_init) bs))
    → Distinct (spare (caller_ep ∷ eps))
    → IsClock (initialize bs caller_ep eps)
unfolding initialize
initialize-IsClock bs caller_ep eps d n = record {
  elements = record { left = d; right = tt; apart = Apart-of_has _ [] (λ a o. refl) };
  endpoints = n;
  idle = slots-Idle bs;
  init_eq = refl;
  compare_eq = refl;
}

Step-IsClock : (c d : Clock) → Step c d → IsClock c → IsClock d
Step-IsClock c d (timer p _ _ e) i =
    Safe-ok {P = λ _ t. IsClock t}
      (subst (Safe _) e (rw (tick-ticked p c i) (safe (ticked-IsClock p c i))))
Step-IsClock c d (request m _ _ reply e) i =
    Safe-ok (subst (Safe _) e (serve-Safe _ m c i (omega arith)))

-- Every clock that the threads reach from the initial one has its endpoints apart and its free
-- entries without endpoint, where the elements and the capability slots are distinct.
pub Reaches-IsClock :
    (bs : List (Block TimeoutEntry)) (caller_ep : ℕ) (eps : List ℕ) (c : Clock)
    → Distinct (els (slots (some timer_entry_init) bs))
    → Distinct (spare (caller_ep ∷ eps))
    → Reaches (initialize bs caller_ep eps) c
    → IsClock c
Reaches-IsClock bs caller_ep eps c d n start = initialize-IsClock bs caller_ep eps d n
Reaches-IsClock bs caller_ep eps c d n (next e _ r s) =
    Step-IsClock e c s (Reaches-IsClock bs caller_ep eps e d n r)
