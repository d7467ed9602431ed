-- ===== src/Clock/Schedule.antt =====
-- The schedule of src/clock.c between two rounds: each used entry has its own endpoint, and each
-- free one has none.
use libsel4osapi.Prelude.{
  ℕ, ◌≡◌, refl, ap, ◌∙◌, false, some, List, [], ◌∷◌, ◌++◌, pos, is_zero, arith, ◌==◌, ==-self,
}
use libsel4osapi.LinkedList.{Ptr}
use libsel4osapi.LinkedList.Chain.{Cells, has, Distinct}
use libsel4osapi.LinkedList.Separate.{Separate}
use libsel4osapi.Pool.View
use libsel4osapi.Pool.View.{Slot, View, split_at, give_back, reset}
use libsel4osapi.Pool.Shape.{els}
use libsel4osapi.Clock.{TimeoutEntry, Clock, timer_entry_init, timer_entry_compare}

abbrev pub Entry : Type 0
Entry = Slot TimeoutEntry

-- The endpoints of the entries.
abbrev pub caps : List Entry → Cells
caps [] = []
caps (s ∷ ss) = (s.value.aep, s.el) ∷ caps ss

-- Capability slots that no entry has yet.
abbrev pub spare : List ℕ → Cells
spare [] = []
spare (x ∷ xs) = (x, 0) ∷ spare xs

-- No endpoint.
abbrev pub Idle : List Entry → Type 0
Idle [] = Unit
Idle (s ∷ ss) = (s.value.aep ≡ 0) × Idle ss

-- The clock between two rounds. The endpoints in use, the receive slot and the slots to come are
-- distinct and not 0.
pub record IsClock (c : Clock) : Type 0 where
  pub elements : Separate (els c.schedule.free) (els c.schedule.used)
  pub endpoints : Distinct (caps c.schedule.used ++ spare (c.caller_ep ∷ c.slots))
  pub idle : Idle c.schedule.free
  pub init_eq : c.schedule.init_fn ≡ some timer_entry_init
  pub compare_eq : c.schedule.compare_fn ≡ some timer_entry_compare

pub compare_aep : (a b : TimeoutEntry) → is_zero (timer_entry_compare a b) ≡ (a.aep == b.aep)
unfolding timer_entry_compare
compare_aep a b = ground arith

-- An endpoint finds its own entry.
pub split_at-middle :
    (e : Ptr) (us vs : List Entry) (s : Entry)
    → has s.value.aep (caps us) ≡ false
    → split_at (some timer_entry_compare) e s.value (us ++ s ∷ vs) ≡ some (us, s, vs)
unfolding split_at
split_at-middle e [] vs s o = rw (compare_aep s.value s.value, ==-self s.value.aep)
split_at-middle e (u ∷ us) vs s o =
    ground (arith, compare_aep u.value s.value, split_at-middle e us vs s)

pub caps-append : (xs ys : List Entry) → caps (xs ++ ys) ≡ caps xs ++ caps ys
caps-append [] ys = refl
caps-append (s ∷ xs) ys = ap (λ r. (s.value.aep, s.el) ∷ r) (caps-append xs ys)

pub Idle-snoc : (ss : List Entry) (s : Entry) → Idle ss → s.value.aep ≡ 0 → Idle (ss ++ s ∷ [])
Idle-snoc [] s i e = (e, tt)
Idle-snoc (t ∷ ss) s i e = (i.0, Idle-snoc ss s i.1 e)

-- simple_pool_free of an entry releases that very entry.
pub release-middle :
    (v : View TimeoutEntry) (us vs : List Entry) (s : Entry)
    → v.init_fn ≡ some timer_entry_init
    → v.compare_fn ≡ some timer_entry_compare
    → has s.value.aep (caps us) ≡ false
    → View.release (record v { used = us ++ s ∷ vs }) s.el s.value
      ≡ (pos 0, record v { free = v.free ++ reset (some timer_entry_init) s ∷ []; used = us ++ vs })
unfolding View.release
release-middle v us vs s i k a =
    ap (λ c. give_back (record v { used = us ++ s ∷ vs }) (split_at c s.el s.value (us ++ s ∷ vs)))
      k
    ∙ ap (give_back (record v { used = us ++ s ∷ vs })) (split_at-middle s.el us vs s a)
    ∙ ap (λ f. (pos 0, record v { free = v.free ++ reset f s ∷ []; used = us ++ vs })) i
