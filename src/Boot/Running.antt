-- ===== src/Boot/Running.antt =====
-- The threads that the root task of src/system.c creates and starts.
use libsel4osapi.Prelude.{
  ℕ, suc, ◌≤◌, ◌<◌, ◌≡◌, refl, ap, subst, ◌∙◌, inl, inr, true, some, none, List, [], ◌∷◌, ◌++◌,
  length, ◌==◌, ==-ne, ==-self, if◌then◌else◌, arith, Bool-cases,
}
use libsel4osapi.Run.{Returns, returns}
use libsel4osapi.LinkedList.{Ptr, null}
use libsel4osapi.LinkedList.Separate.{Separate, Separate-shift}
use libsel4osapi.Pool.View
use libsel4osapi.Pool.View.{Slot, View, value_at, put}
use libsel4osapi.Pool.Shape.{els, els-append}
use libsel4osapi.Pool.Update.{els-put}
use libsel4osapi.Pool.Lookup.{value_at-middle}
use libsel4osapi.Buffer.{Bytes}
use libsel4osapi.Thread.{Thread, Threads, thread_create}
use libsel4osapi.Thread.Lifecycle.{prepared, created, thread_create-created, thread_start-ok}
use libsel4osapi.Boot.{Routine, Resources, enter, create_thread, start_thread}
use libsel4osapi.Boot.Stocked.{NoneZero, Stocked}

abbrev pub Entered : Type 0
Entered = List Routine

module _ {E : Type 0} where
  value_at-front :
      (p : Ptr) (us vs : List (Slot E)) (x : E)
      → value_at p us ≡ some x
      → value_at p (us ++ vs) ≡ some x
  value_at-front p [] vs x e = cc
  value_at-front p (u ∷ us) vs x e = ground (arith, value_at-front p us vs x)

  value_at-put :
      (p q : Ptr) (f : E → E) (us : List (Slot E)) (x : E)
      → value_at p us ≡ some x
      → value_at p (put q f us) ≡ some (if p == q then f x else x)
  value_at-put p q f [] x e = cc
  value_at-put p q f (u ∷ us) x e = ground (arith, value_at-put p q f us x)

-- The threads at these addresses run these routines.
abbrev pub Held : List (Ptr × Routine) → List (Slot (Thread Entered)) → Type 0
Held [] ss = Unit
Held ((p, k) ∷ hs) ss =
    ((t : Thread Entered) × (value_at p ss ≡ some t) × (t.thread_routine ≡ enter k)) × Held hs ss

-- The threads at these addresses are started.
abbrev pub Started : List Ptr → List (Slot (Thread Entered)) → Type 0
Started [] ss = Unit
Started (p ∷ ps) ss =
    ((t : Thread Entered) × (value_at p ss ≡ some t) × (t.started ≡ true)) × Started ps ss

pub record IsThreads (n : ℕ) (hs : List (Ptr × Routine)) (ps : List Ptr) (v : View (Thread Entered))
    : Type 0 where
  pub free_le : n ≤ length v.free
  pub apart : Separate (els v.free) (els v.used)
  pub init_eq : v.init_fn ≡ none
  pub held : Held hs v.used
  pub started : Started ps v.used

Held-front :
    (hs : List (Ptr × Routine)) (us vs : List (Slot (Thread Entered)))
    → Held hs us
    → Held hs (us ++ vs)
Held-front [] us vs h = tt
Held-front ((p, k) ∷ hs) us vs ((t, e, r), h) =
    ((t, value_at-front p us vs t e, r), Held-front hs us vs h)

Started-front :
    (ps : List Ptr) (us vs : List (Slot (Thread Entered))) → Started ps us → Started ps (us ++ vs)
Started-front [] us vs h = tt
Started-front (p ∷ ps) us vs ((t, e, r), h) =
    ((t, value_at-front p us vs t e, r), Started-front ps us vs h)

abbrev set_started : Thread Entered → Thread Entered
set_started t = record t { started = true }

Held-put :
    (hs : List (Ptr × Routine)) (q : Ptr) (us : List (Slot (Thread Entered)))
    → Held hs us
    → Held hs (put q set_started us)
Held-put [] q us h = tt
Held-put ((p, k) ∷ hs) q us ((t, e, r), h) = (
  (
    (if p == q then set_started t else t),
    value_at-put p q set_started us t e,
    elim (Bool-cases (p == q)) [ inl same ↦ rw same r | inr other ↦ rw other r ],
  ),
  Held-put hs q us h,
)

Started-put :
    (ps : List Ptr) (q : Ptr) (us : List (Slot (Thread Entered)))
    → Started ps us
    → Started ps (put q set_started us)
Started-put [] q us h = tt
Started-put (p ∷ ps) q us ((t, e, r), h) = (
  (
    (if p == q then set_started t else t),
    value_at-put p q set_started us t e,
    elim (Bool-cases (p == q)) [ inl same ↦ rw same refl | inr other ↦ rw other r ],
  ),
  Started-put ps q us h,
)

prepared-same :
    (s : Threads Entered) (e : Slot (Thread Entered)) (rest : List (Slot (Thread Entered))) (ep : ℕ)
    (eps : List ℕ) (aep : ℕ) (aeps : List ℕ) (frame : Ptr) (frames : List Ptr)
    → s.threads.free ≡ e ∷ rest
    → s.endpoints ≡ ep ∷ eps
    → s.notifications ≡ aep ∷ aeps
    → s.frames ≡ frame ∷ frames
    → s ≡ prepared s e rest ep eps aep aeps frame frames
prepared-same s e rest ep eps aep aeps frame frames a b c d =
    ap (λ x. record s { threads = record s.threads { free = x } }) a
    ∙ ap (λ x. record s { threads = record s.threads { free = e ∷ rest }; endpoints = x }) b
    ∙ ap
        (λ x. record s {
          threads = record s.threads { free = e ∷ rest };
          endpoints = ep ∷ eps;
          notifications = x;
        })
        c
    ∙ ap
        (λ x. record s {
          threads = record s.threads { free = e ∷ rest };
          endpoints = ep ∷ eps;
          notifications = aep ∷ aeps;
          frames = x;
        })
        d

module _ (n m : ℕ) (hs : List (Ptr × Routine)) (ps : List Ptr) (r : Resources) where
  pub start_thread-Stocked :
      (p : Ptr) (t : Thread Entered)
      → value_at p r.threads.threads.used ≡ some t
      → Stocked n (IsThreads m hs ps) r
      → Returns (λ _ r'. Stocked n (IsThreads m hs (p ∷ ps)) r') (start_thread p r)
  unfolding start_thread View.modify
  start_thread-Stocked p t e s = rw (thread_start-ok p r.threads) (
      returns (record {
        endpoints_le = s.endpoints_le;
        endpoints_ne = s.endpoints_ne;
        notifications_le = s.notifications_le;
        frames_le = s.frames_le;
        slots_le = s.slots_le;
        mutexes_le = s.mutexes_le;
        mutexes_ne = s.mutexes_ne;
        pool = record {
          free_le = s.pool.free_le;
          apart = rw (els-put p set_started r.threads.threads.used) s.pool.apart;
          init_eq = s.pool.init_eq;
          held = Held-put hs p r.threads.threads.used s.pool.held;
          started = (
            (
              set_started t,
              value_at-put p p set_started r.threads.threads.used t e
                  ∙ ap (λ b. some (if b then set_started t else t)) (==-self p),
              refl,
            ),
            Started-put ps p r.threads.threads.used s.pool.started,
          );
        };
      }))

  create_from :
      (name : Bytes) (k : Routine) (arg : Ptr) (priority : ℕ) (free : List (Slot (Thread Entered)))
      (eps aeps : List ℕ) (frames : List Ptr)
      → r.threads.threads.free ≡ free
      → r.threads.endpoints ≡ eps
      → r.threads.notifications ≡ aeps
      → r.threads.frames ≡ frames
      → length name < 40
      → Stocked (suc n) (IsThreads (suc m) hs ps) r
      → Returns
          (λ p r'. Stocked n (IsThreads m ((p, k) ∷ hs) ps) r')
          (create_thread name k arg priority r)
  unfolding create_thread
  create_from name k arg priority [] eps aeps frames a b c d short s =
      absurd (omega (arith, s.pool.free_le, ap length a))
  create_from name k arg priority (e ∷ rest) [] aeps frames a b c d short s =
      absurd (omega (arith, s.endpoints_le, ap length b))
  create_from name k arg priority (e ∷ rest) (ep ∷ eps) [] frames a b c d short s =
      absurd (omega (arith, s.notifications_le, ap length c))
  create_from name k arg priority (e ∷ rest) (ep ∷ eps) (aep ∷ aeps) [] a b c d short s =
      absurd (omega (arith, s.frames_le, ap length d))
  create_from name k arg priority (e ∷ rest) (ep ∷ eps) (aep ∷ aeps) (frame ∷ frames) a b c d short
        s =
      let t = r.threads in
      let apart : Separate (els (e ∷ rest)) (els t.threads.used) =
        subst (λ fs. Separate (els fs) (els t.threads.used)) a s.pool.apart in
      let new = created t e rest ep eps aep aeps frame frames name (enter k) arg priority in
      let made : thread_create (λ _ _. []) (some name) (enter k) arg priority t ≡ _ =
        ap (thread_create (λ _ _. []) (some name) (enter k) arg priority)
          (prepared-same t e rest ep eps aep aeps frame frames a b c d)
        ∙ thread_create-created t e rest ep eps aep aeps frame frames (λ _ _. []) name (enter k) arg
            priority s.pool.init_eq apart short in
      rw (made, ==-ne e.el null apart.left.0)
        (returns (record {
          endpoints_le = omega (arith, s.endpoints_le, ap length b);
          endpoints_ne = (subst NoneZero b s.endpoints_ne).1;
          notifications_le = omega (arith, s.notifications_le, ap length c);
          frames_le = omega (arith, s.frames_le, ap length d);
          slots_le = omega (arith, s.slots_le);
          mutexes_le = omega (arith, s.mutexes_le);
          mutexes_ne = s.mutexes_ne;
          pool = record {
            free_le = omega (arith, s.pool.free_le, ap length a);
            apart =
                rw (els-append t.threads.used (new ∷ []))
                  (Separate-shift e.el e.entry e.entry (els rest) (els t.threads.used) apart);
            init_eq = s.pool.init_eq;
            held = (
              (new.value, value_at-middle t.threads.used [] new apart.apart.0, refl),
              Held-front hs t.threads.used (new ∷ []) s.pool.held,
            );
            started = Started-front ps t.threads.used (new ∷ []) s.pool.started;
          };
        }))

  pub create_thread-Stocked :
      (name : Bytes) (k : Routine) (arg : Ptr) (priority : ℕ)
      → length name < 40
      → Stocked (suc n) (IsThreads (suc m) hs ps) r
      → Returns
          (λ p r'. Stocked n (IsThreads m ((p, k) ∷ hs) ps) r')
          (create_thread name k arg priority r)
  create_thread-Stocked name k arg priority short s =
      create_from name k arg priority r.threads.threads.free r.threads.endpoints
        r.threads.notifications r.threads.frames refl refl refl refl short s
