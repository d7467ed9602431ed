-- ===== src/Clock/Sleep/Wakes.antt =====
-- A thread that sleeps (src/thread.c) wakes up in the round of the timer thread (src/clock.c) in which
-- its time has passed.
use libsel4osapi.Prelude.{
  ℕ, zero, suc, ◌+◌, ◌*◌, ◌%◌, ◌≤◌, ◌<◌, ◌≡◌, ◌≢◌, refl, Bool, ◌==◌, ap, sym, subst, ◌∙◌, ◌⊎◌, inl,
  inr, true, false, none, some, List, [], ◌∷◌, ◌++◌, length, drop, leb, ==-ne, ==-self, arith,
  Bool-cases,
}
use libsel4osapi.Run.{ok, Returns, returns}
use libsel4osapi.LinkedList.Chain.{has, Distinct-split, Apart-has}
use libsel4osapi.Clock.{Clock, word}
use libsel4osapi.Clock.Schedule.{Entry, caps, spare, IsClock}
use libsel4osapi.Clock.Tick.{is_due, is_one_shot}
use libsel4osapi.Clock.Invariant.{ticked, tick-ticked, ticked-IsClock}
use libsel4osapi.Clock.Server.Accept.{offered, scheduled, accepted, accepted-IsClock}
use libsel4osapi.Clock.Server.RoundTrip.{set_request, schedule_timeout-accepted}
use libsel4osapi.Clock.Sleep.{heard, wait, wait_for_timeout, thread_sleep}
use libsel4osapi.Clock.Sleep.Round.{
  entry_at, OnlyOne, OnlyOne-append, ticked-OnlyOne, ticked-early, ticked-due,
}

times_suc : (n p : ℕ) → suc n * p ≡ p + n * p
times_suc n p = omega arith

drop-all : (xs : List ℕ) → drop (length xs) xs ≡ []
drop-all [] = refl
drop-all (x ∷ xs) = drop-all xs

drop-last : (xs : List ℕ) (y : ℕ) → drop (length xs) (xs ++ y ∷ []) ≡ y ∷ []
drop-last [] y = refl
drop-last (x ∷ xs) y = drop-last xs y

-- The clock after `n` rounds.
abbrev pub ticks : (period_ms n : ℕ) → Clock → Clock
ticks period_ms zero c = c
ticks period_ms (suc n) c = ticks period_ms n (ticked period_ms c)

-- The thread waits for `n` rounds in which its timeout is not due, and wakes in the next one.
wait-wakes :
    (mine : ℕ → Bool) (period_ms aep n rounds : ℕ) (c : Clock) (s : Entry)
    → IsClock c
    → entry_at aep c.schedule.used ≡ some s
    → OnlyOne mine aep c.schedule.used
    → s.value.aep ≢ 0
    → s.value.periodic ≡ 0
    → n < rounds
    → (n ≡ 0) ⊎ (c.time + n * period_ms < s.value.next_event)
    → s.value.next_event ≤ c.time + suc n * period_ms
    → c.time + suc n * period_ms < word
    → (wait mine rounds period_ms (length (heard mine c.events)) c
        ≡ ok (c.time + suc n * period_ms) (ticks period_ms (suc n) c))
      × (entry_at aep (ticks period_ms (suc n) c).schedule.used ≡ none)
unfolding wait
wait-wakes mine period_ms aep n zero c s i e o a p fuel early due w = absurd (omega arith)
wait-wakes mine period_ms aep zero (suc zero) c s i e o a p fuel early due w =
    let now : (c.time + period_ms) % word ≡ c.time + 1 * period_ms = omega arith in
    let is_now : is_due ((c.time + period_ms) % word) s ≡ true = ground arith in
    let once : is_one_shot s ≡ true = ground arith in
    let (k, gone) = ticked-due mine period_ms aep c s i e o is_now once in
    (
      rw
          (
            drop-all (heard mine c.events),
            tick-ticked period_ms c i,
            k,
            drop-last (heard mine c.events) ((c.time + period_ms) % word),
          )
          (ap (λ t. ok t (ticked period_ms c)) now),
      gone,
    )
wait-wakes mine period_ms aep zero (suc (suc rounds)) c s i e o a p fuel early due w =
    let now : (c.time + period_ms) % word ≡ c.time + 1 * period_ms = omega arith in
    let is_now : is_due ((c.time + period_ms) % word) s ≡ true = ground arith in
    let once : is_one_shot s ≡ true = ground arith in
    let (k, gone) = ticked-due mine period_ms aep c s i e o is_now once in
    (
      rw
          (
            drop-all (heard mine c.events),
            tick-ticked period_ms c i,
            k,
            drop-last (heard mine c.events) ((c.time + period_ms) % word),
          )
          (ap (λ t. ok t (ticked period_ms c)) now),
      gone,
    )
wait-wakes mine period_ms aep (suc n) (suc rounds) c s i e o a p fuel early due w =
    let next : suc (suc n) * period_ms ≡ period_ms + suc n * period_ms =
      times_suc (suc n) period_ms in
    let this : suc n * period_ms ≡ period_ms + n * period_ms = times_suc n period_ms in
    let now : (c.time + period_ms) % word ≡ c.time + period_ms = omega arith in
    let later : c.time + suc n * period_ms < s.value.next_event = still early in
    let not_yet : is_due ((c.time + period_ms) % word) s ≡ false = ground arith in
    let (k, stays) = ticked-early mine period_ms aep c s i e o not_yet in
    let (run, gone) =
      wait-wakes mine period_ms aep n rounds (ticked period_ms c) s (ticked-IsClock period_ms c i)
        stays (ticked-OnlyOne mine period_ms aep c s i e o) a p (omega arith) (inr (omega arith))
        (omega arith) (omega arith) in
    let seen : length (heard mine (ticked period_ms c).events) ≡ length (heard mine c.events) =
      ap length k in
    (
      rw (drop-all (heard mine c.events), tick-ticked period_ms c i)
          ((rw seen at run) ∙ ap (λ t. ok t (ticks period_ms (suc (suc n)) c)) (omega arith)),
      gone,
    )
  where
    still :
        (suc n ≡ 0) ⊎ (c.time + suc n * period_ms < s.value.next_event)
        → c.time + suc n * period_ms < s.value.next_event
    still (inl z) = absurd (omega arith)
    still (inr l) = l

-- The number of rounds in which the timeout is not due.
record Early (ms period_ms rounds : ℕ) : Type 0 where
  n : ℕ
  fuel : n < rounds
  early : (n ≡ 0) ⊎ (n * period_ms < ms)
  due : ms ≤ suc n * period_ms

Early-rounds :
    (ms period_ms rounds : ℕ) → 0 < rounds → ms ≤ rounds * period_ms → Early ms period_ms rounds
Early-rounds ms period_ms zero positive le = absurd (omega arith)
Early-rounds ms period_ms (suc zero) positive le = record {
  n = 0;
  fuel = omega arith;
  early = inl refl;
  due = le;
}
Early-rounds ms period_ms (suc (suc r)) positive le =
    elim (Bool-cases (leb ms (suc r * period_ms))) [
      | inl less ↦
          let e =
            Early-rounds ms period_ms (suc r) (omega arith)
              (let l : ms ≤ suc r * period_ms = ground arith in l) in
          record { n = e.n; fuel = omega (arith, e.fuel); early = e.early; due = e.due }
      | inr more ↦ record {
        n = suc r;
        fuel = omega arith;
        early = inr (let l : suc r * period_ms < ms = ground arith in l);
        due = le;
      }
    ]

entry_at-none : (aep : ℕ) (ss : List Entry) → has aep (caps ss) ≡ false → entry_at aep ss ≡ none
entry_at-none aep [] o = refl
entry_at-none aep (s ∷ ss) o = ground (arith, entry_at-none aep ss)

entry_at-last :
    (aep : ℕ) (ss : List Entry) (s : Entry)
    → has aep (caps ss) ≡ false
    → s.value.aep ≡ aep
    → entry_at aep (ss ++ s ∷ []) ≡ some s
entry_at-last aep [] s o e = rw (e, ==-self aep) refl
entry_at-last aep (x ∷ ss) s o e = ground (arith, entry_at-last aep ss s)

-- The endpoint that is handed out next is not that of a timeout.
caller_ep-out :
    (c : Clock) → IsClock c → (c.caller_ep ≢ 0) × (has c.caller_ep (caps c.schedule.used) ≡ false)
caller_ep-out c i =
    let (du, ds, apart) =
      Distinct-split (caps c.schedule.used) (spare (c.caller_ep ∷ c.slots)) i.endpoints in
    (
      ds.0,
      elim (Bool-cases (has c.caller_ep (caps c.schedule.used))) [
        | inl there ↦
            let out =
              Apart-has (caps c.schedule.used) (spare (c.caller_ep ∷ c.slots)) c.caller_ep apart
                there in
            (let impossible : true ≡ false = (rw (==-self c.caller_ep) at out) in cc)
        | inr out ↦ out
      ],
    )

-- A thread that has slept: it woke at `time`, and its timeout is gone.
pub record IsAwake (mr0 : ℕ → ℕ) (start ms period_ms aep result : ℕ) (c : Clock) : Type 0 where
  pub time : ℕ
  pub result_eq : result ≡ mr0 time
  pub not_before : start + ms ≤ time
  pub in_time : time ≤ start + ms + period_ms
  pub gone : entry_at aep c.schedule.used ≡ none

-- No timeout is one of the thread.
abbrev pub NoneOf : (mine : ℕ → Bool) → List Entry → Type 0
NoneOf mine [] = Unit
NoneOf mine (s ∷ ss) = (mine s.value.aep ≡ false) × NoneOf mine ss

NoneOf-OnlyOne :
    (mine : ℕ → Bool) (aep : ℕ) (ss : List Entry)
    → has aep (caps ss) ≡ false
    → NoneOf mine ss
    → OnlyOne mine aep ss
NoneOf-OnlyOne mine aep [] o n = tt
NoneOf-OnlyOne mine aep (s ∷ ss) o n =
    let other : (s.value.aep == aep) ≡ false = ground arith in
    (n.0 ∙ sym other, NoneOf-OnlyOne mine aep ss (ground arith) n.1)

module _ (mr0 : ℕ → ℕ) (mine : ℕ → Bool) (fuel period_ms badge : ℕ) where
  -- Where an entry is free, the time does not wrap around meanwhile, no other timeout of the thread is
  -- scheduled, no signal to its notification is left from before and the server serves no request while
  -- it waits, a thread that sleeps for `ms` wakes up: not before that time has passed, and at most a period
  -- after it, in fewer rounds than it takes to pass it; its timeout is gone then.
  pub thread_sleep-IsAwake :
      (rounds ms : ℕ) (c : Clock) (s : Entry) (rest : List Entry) (slot : ℕ) (slots : List ℕ)
      → IsClock (offered c s rest slot slots (set_request badge 0 ms))
      → 0 < period_ms
      → 0 < rounds
      → ms ≤ rounds * period_ms
      → c.time + ms + period_ms < word
      → mine c.caller_ep ≡ true
      → NoneOf mine c.schedule.used
      → Returns (IsAwake mr0 c.time ms period_ms c.caller_ep) (
          thread_sleep mr0 mine fuel period_ms badge rounds
            (length (heard mine c.events))
            ms
            (offered c s rest slot slots (set_request badge 0 ms)))
  unfolding thread_sleep wait_for_timeout
  thread_sleep-IsAwake rounds ms c s rest slot slots i p r le w own others =
      let m = set_request badge 0 ms in
      let d = accepted c s rest slot slots m in
      let e = scheduled c s rest slot slots m in
      let (ne, out) = caller_ep-out (offered c s rest slot slots m) i in
      let y = Early-rounds ms period_ms rounds r le in
      let t : (c.time + ms) % word ≡ c.time + ms = omega arith in
      let passed : suc y.n * period_ms ≤ ms + period_ms = passed_of y.n y.early in
      let (run, gone) =
        wait-wakes mine period_ms c.caller_ep y.n rounds d e
          (accepted-IsClock c s rest slot slots m i)
          (entry_at-last c.caller_ep c.schedule.used e out refl)
          (OnlyOne-append mine c.caller_ep c.schedule.used (e ∷ [])
            (NoneOf-OnlyOne mine c.caller_ep c.schedule.used out others)
            (own ∙ sym (==-self c.caller_ep), tt))
          ne refl y.fuel (early_of y.n y.early) (omega (arith, t, y.due))
          (omega (arith, passed, w)) in
      rw
        (
          schedule_timeout-accepted fuel badge 0 ms c s rest slot slots i,
          ==-ne c.caller_ep 0 ne,
          run,
        )
        (returns (record {
          time = c.time + suc y.n * period_ms;
          result_eq = refl;
          not_before = omega (arith, y.due);
          in_time = omega (arith, passed);
          gone = gone;
        }))
    where
      passed_of : (n : ℕ) → (n ≡ 0) ⊎ (n * period_ms < ms) → suc n * period_ms ≤ ms + period_ms
      passed_of n (inl z) = subst (λ k. suc k * period_ms ≤ ms + period_ms) (sym z) (omega arith)
      passed_of n (inr l) = omega (arith, times_suc n period_ms)

      early_of :
          (n : ℕ)
          → (n ≡ 0) ⊎ (n * period_ms < ms)
          → (n ≡ 0) ⊎ (c.time + n * period_ms < (c.time + ms) % word)
      early_of n (inl z) = inl z
      early_of n (inr l) = inr (omega arith)
