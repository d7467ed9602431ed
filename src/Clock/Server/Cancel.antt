-- ===== src/Clock/Server/Cancel.antt =====
-- SYSCLOCK_OP_CANCEL_TIMEOUT of src/clock.c.
use libsel4osapi.Prelude.{
  ℕ, suc, ◌+◌, ◌-◌, ◌≤◌, ◌≡◌, ◌≢◌, refl, sym, ap, subst, ◌∙◌, false, none, some, List, [], ◌∷◌,
  ◌++◌, append_assoc, append-nil, arith, length, ==-ne, ==-self,
}
use libsel4osapi.Run.{ok}
use libsel4osapi.LinkedList.{Ptr, null}
use libsel4osapi.LinkedList.Chain.{has, has-append}
use libsel4osapi.LinkedList.Separate.{IsAlone, Separate-middle}
use libsel4osapi.Pool.View.{reset}
use libsel4osapi.Pool.Shape.{els, els-append}
use libsel4osapi.Pool.Lookup.{value_at-middle}
use libsel4osapi.Clock.{Clock, revoke, timer_entry_init, free_timeout, emit}
use libsel4osapi.Clock.Schedule.{Entry, caps, caps-append, spare, IsClock, release-middle}
use libsel4osapi.Clock.Tick.{at_entries}
use libsel4osapi.Clock.Invariant.{released}
use libsel4osapi.Clock.Server.{next_el, next_entry, deref_entry, cancel_loop, head_el}

next_el-out : (p : Ptr) (ss : List Entry) → has p (els ss) ≡ false → next_el p ss ≡ none
next_el-out p [] o = refl
next_el-out p (s ∷ []) o = ground arith
next_el-out p (s ∷ t ∷ ss) o = ground (arith, next_el-out p (t ∷ ss))

next_el-middle :
    (us vs : List Entry) (s : Entry)
    → has s.el (els us) ≡ false
    → next_el s.el (us ++ s ∷ vs) ≡ some (head_el vs)
next_el-middle [] [] s o = ground arith
next_el-middle [] (v ∷ vs) s o = ground arith
next_el-middle (u ∷ []) vs s o = ground (arith, next_el-middle [] vs s)
next_el-middle (u ∷ w ∷ us) vs s o = ground (arith, next_el-middle (w ∷ us) vs s)

-- One round for each entry of `ts`, and `k` more.
abbrev rounds : List Entry → ℕ → ℕ
rounds [] k = k
rounds (t ∷ ts) k = suc (rounds ts k)

-- The entry `s` has an element and an endpoint of its own.
record IsOwn (c : Clock) (us vs : List Entry) (s : Entry) : Type 0 where
  element : IsAlone s.el (els c.schedule.free) (els us) (els vs)
  endpoint : IsAlone s.value.aep [] (caps us) (caps vs ++ spare (c.caller_ep ∷ c.slots))

IsClock-IsOwn :
    (c : Clock) (us vs : List Entry) (s : Entry)
    → IsClock (at_entries c (us ++ s ∷ vs))
    → IsOwn c us vs s
IsClock-IsOwn c us vs s i = record {
  element =
      Separate-middle s.el s.entry (els c.schedule.free) (els us) (els vs)
        (rw (els-append us (s ∷ vs)) at i.elements);
  endpoint = Separate-middle s.value.aep s.el [] (caps us) _ (record {
    left = tt;
    right = rw (caps-append us (s ∷ vs), append_assoc (caps us) (caps (s ∷ vs))) at i.endpoints;
    apart = tt;
  });
}

module _ (c : Clock) (id : ℕ) where
  -- A round of the loop at an entry with another endpoint moves on to the next entry.
  cancel_loop-next :
      (us vs : List Entry) (t : Entry) (k : ℕ)
      → IsClock (at_entries c (us ++ t ∷ vs))
      → t.value.aep ≢ id
      → cancel_loop (suc k) id t.el (at_entries c (us ++ t ∷ vs))
        ≡ cancel_loop k id (head_el vs) (at_entries c (us ++ t ∷ vs))
  unfolding cancel_loop deref_entry next_entry
  cancel_loop-next us vs t k i n =
      let own = (IsClock-IsOwn c us vs t i).element in
      rw (
        ==-ne t.el null own.ne_null,
        append_assoc us (t ∷ vs) c.schedule.free,
        value_at-middle us (vs ++ c.schedule.free) t own.front,
        ==-ne t.value.aep id n,
        next_el-middle us vs t own.front,
      )

  -- The walk goes on over all entries with another endpoint.
  cancel_loop-skip :
      (us ts vs : List Entry) (k : ℕ)
      → IsClock (at_entries c (us ++ (ts ++ vs)))
      → has id (caps ts) ≡ false
      → cancel_loop (rounds ts k) id (head_el (ts ++ vs)) (at_entries c (us ++ (ts ++ vs)))
        ≡ cancel_loop k id (head_el vs) (at_entries c (us ++ (ts ++ vs)))
  cancel_loop-skip us [] vs k i o = refl
  cancel_loop-skip us (t ∷ ts) vs k i o =
      let regroup = append_assoc us (t ∷ []) (ts ++ vs) in
      cancel_loop-next us (ts ++ vs) t (rounds ts k) i (ground arith)
      ∙ subst
          (λ ys.
            cancel_loop (rounds ts k) id (head_el (ts ++ vs)) (at_entries c ys)
            ≡ cancel_loop k id (head_el vs) (at_entries c ys))
          regroup
          (cancel_loop-skip (us ++ t ∷ []) ts vs k
            (subst (λ ys. IsClock (at_entries c ys)) (sym regroup) i) (ground arith))

-- The clock when the entry `s` has been cancelled.
abbrev pub cancelled : Clock → (us vs : List Entry) → Entry → Clock
cancelled c us vs s = record (released c us vs s) { events = c.events ++ revoke s.value.aep ∷ [] }

module _ (c : Clock) (us vs : List Entry) (s : Entry)
    (i : IsClock (at_entries c (us ++ s ∷ vs))) where
  -- At the entry with the endpoint the loop releases it.
  cancel_loop-hit :
      (k : ℕ)
      → cancel_loop (suc k) s.value.aep s.el (at_entries c (us ++ s ∷ vs))
        ≡ cancel_loop k s.value.aep s.el (cancelled c us vs s)
  unfolding cancel_loop deref_entry free_timeout emit
  cancel_loop-hit k =
      let own = (IsClock-IsOwn c us vs s i).element in
      let out = (IsClock-IsOwn c us vs s i).endpoint.front in
      rw (
        ==-ne s.el null own.ne_null,
        append_assoc us (s ∷ vs) c.schedule.free,
        value_at-middle us (vs ++ c.schedule.free) s own.front,
        ==-self s.value.aep,
        release-middle c.schedule us vs s i.init_eq i.compare_eq out,
      )

  -- It then finds it once more at the end of the free list, without an endpoint, and ends.
  cancel_loop-idle :
      (k : ℕ)
      → cancel_loop (suc (suc k)) s.value.aep s.el (cancelled c us vs s)
        ≡ ok tt (cancelled c us vs s)
  unfolding cancel_loop deref_entry next_entry timer_entry_init
  cancel_loop-idle k =
      let own = (IsClock-IsOwn c us vs s i).element in
      let apart : 0 ≢ s.value.aep = λ z. (IsClock-IsOwn c us vs s i).endpoint.ne_null (sym z) in
      let gone : has s.el (els (us ++ vs)) ≡ false =
        ground (arith, ap (has s.el) (els-append us vs), has-append s.el (els us) (els vs), own) in
      let gone_back : has s.el (els ((us ++ vs) ++ c.schedule.free)) ≡ false = ground (
        arith,
        ap (has s.el) (els-append (us ++ vs) c.schedule.free),
        has-append s.el (els (us ++ vs)) (els c.schedule.free),
        own,
      ) in
      rw (
        ==-ne s.el null own.ne_null,
        ← append_assoc (us ++ vs) c.schedule.free (reset (some timer_entry_init) s ∷ []),
        value_at-middle ((us ++ vs) ++ c.schedule.free) [] (reset (some timer_entry_init) s)
            gone_back,
        ==-ne 0 s.value.aep apart,
        next_el-out s.el (us ++ vs) gone,
        next_el-middle c.schedule.free [] (reset (some timer_entry_init) s) own.other,
      )

  cancel_loop-own :
      (k : ℕ)
      → cancel_loop (suc (suc (suc k))) s.value.aep s.el (at_entries c (us ++ s ∷ vs))
        ≡ ok tt (cancelled c us vs s)
  cancel_loop-own k = cancel_loop-hit (suc (suc k)) ∙ cancel_loop-idle k

rounds-length : (ts : List Entry) (k : ℕ) → rounds ts k ≡ length ts + k
rounds-length [] k = omega arith
rounds-length (t ∷ ts) k = omega (arith, rounds-length ts k)

-- The whole loop, where an entry has the endpoint.
pub cancel_loop-found :
    (fuel : ℕ) (c : Clock) (us vs : List Entry) (s : Entry)
    → IsClock (at_entries c (us ++ s ∷ vs))
    → length us + 3 ≤ fuel
    → cancel_loop fuel s.value.aep (head_el (us ++ s ∷ vs)) (at_entries c (us ++ s ∷ vs))
      ≡ ok tt (cancelled c us vs s)
cancel_loop-found fuel c us vs s i f =
    let k = fuel - (length us + 3) in
    let enough : fuel ≡ rounds us (suc (suc (suc k))) =
      omega (arith, rounds-length us (suc (suc (suc k)))) in
    ap (λ n. cancel_loop n s.value.aep (head_el (us ++ s ∷ vs)) (at_entries c (us ++ s ∷ vs)))
      enough
    ∙ cancel_loop-skip c s.value.aep [] us (s ∷ vs) _ i (IsClock-IsOwn c us vs s i).endpoint.front
    ∙ cancel_loop-own c us vs s i k

-- The whole loop, where no entry has the endpoint.
pub cancel_loop-missed :
    (fuel : ℕ) (c : Clock) (id : ℕ)
    → IsClock c
    → has id (caps c.schedule.used) ≡ false
    → length c.schedule.used + 1 ≤ fuel
    → cancel_loop fuel id (head_el c.schedule.used) c ≡ ok tt c
unfolding cancel_loop
cancel_loop-missed fuel c id i o f =
    let used = c.schedule.used in
    let k = fuel - (length used + 1) in
    let enough : fuel ≡ rounds used (suc k) = omega (arith, rounds-length used (suc k)) in
    let all = append-nil used in
    let ends =
      cancel_loop-skip c id [] used [] (suc k) (subst (λ ys. IsClock (at_entries c ys)) (sym all) i)
        o in
    ap (λ n. cancel_loop n id (head_el used) c) enough
    ∙ subst
        (λ ys.
          cancel_loop (rounds used (suc k)) id (head_el ys) (at_entries c ys)
          ≡ ok tt (at_entries c ys))
        all ends
