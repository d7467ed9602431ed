-- ===== src/Clock/Sleep/Round.antt =====
-- What a round of the timer thread of src/clock.c does for the timeout of one endpoint.
use libsel4osapi.Prelude.{
  ℕ, ◌+◌, ◌%◌, ◌≡◌, refl, ap, sym, ◌∙◌, Bool, true, false, inl, inr, Option, none, some, List, [],
  ◌∷◌, ◌++◌, append-nil, ◌==◌, if◌then◌else◌, arith, Bool-cases,
}
use libsel4osapi.LinkedList.Chain.{has, Distinct, Distinct-split}
use libsel4osapi.Clock.{Event, send, revoke, Clock, word}
use libsel4osapi.Clock.Schedule.{Entry, caps, spare, IsClock}
use libsel4osapi.Clock.Tick.{is_due, is_one_shot, outcome_of, outcome}
use libsel4osapi.Clock.Invariant.{ticked}
use libsel4osapi.Clock.Sleep.{heard}

-- The times that were sent to `aep`.
abbrev pub wakeups : (aep : ℕ) → List Event → List ℕ
wakeups aep [] = []
wakeups aep (send a t ∷ es) = if a == aep then t ∷ wakeups aep es else wakeups aep es
wakeups aep (revoke a ∷ es) = wakeups aep es

-- The timeout of an endpoint.
abbrev pub entry_at : (aep : ℕ) → List Entry → Option Entry
entry_at aep [] = none
entry_at aep (s ∷ ss) = if s.value.aep == aep then some s else entry_at aep ss

wakeups-append :
    (aep : ℕ) (xs ys : List Event) → wakeups aep (xs ++ ys) ≡ wakeups aep xs ++ wakeups aep ys
wakeups-append aep [] ys = refl
wakeups-append aep (send a t ∷ xs) ys = ground (arith, wakeups-append aep xs ys)
wakeups-append aep (revoke a ∷ xs) ys = wakeups-append aep xs ys

entry_at-append :
    (aep : ℕ) (xs ys : List Entry)
    → entry_at aep xs ≡ none
    → entry_at aep (xs ++ ys) ≡ entry_at aep ys
entry_at-append aep [] ys e = refl
entry_at-append aep (x ∷ xs) ys e = ground (arith, entry_at-append aep xs ys)

-- The timeouts of other endpoints neither wake this one nor come to have it.
other-wakeups :
    (now aep : ℕ) (s : Entry)
    → (s.value.aep == aep) ≡ false
    → (wakeups aep (outcome_of now s).events ≡ []) × (entry_at aep (outcome_of now s).kept ≡ none)
other-wakeups now aep s o = elim (Bool-cases (is_due now s)) [
  | inl due ↦ elim (Bool-cases (is_one_shot s)) [
    | inl once ↦ rw (due, once, o) (refl, refl)
    | inr again ↦ rw (due, again, o) (refl, refl)
  ]
  | inr early ↦ rw (early, o) (refl, refl)
]

others-wakeups :
    (now aep : ℕ) (ss : List Entry)
    → has aep (caps ss) ≡ false
    → (wakeups aep (outcome now ss).events ≡ []) × (entry_at aep (outcome now ss).kept ≡ none)
others-wakeups now aep [] o = (refl, refl)
others-wakeups now aep (s ∷ ss) o =
    let not_this : (s.value.aep == aep) ≡ false = ground arith in
    let (w, k) = other-wakeups now aep s not_this in
    let (ws, ks) = others-wakeups now aep ss (ground arith) in
    (
      wakeups-append aep (outcome_of now s).events (outcome now ss).events
          ∙ ap (λ l. l ++ wakeups aep (outcome now ss).events) w
          ∙ ws,
      entry_at-append aep (outcome_of now s).kept (outcome now ss).kept k ∙ ks,
    )

some-injective : (x s : Entry) → some x ≡ some s → x ≡ s
some-injective x s e = cc

-- A timeout that is not due is not woken and stays.
early-wakeups :
    (now aep : ℕ) (ss : List Entry) (s : Entry)
    → Distinct (caps ss)
    → entry_at aep ss ≡ some s
    → is_due now s ≡ false
    → (wakeups aep (outcome now ss).events ≡ []) × (entry_at aep (outcome now ss).kept ≡ some s)
early-wakeups now aep [] s d e early = cc
early-wakeups now aep (x ∷ ss) s d e early = elim (Bool-cases (x.value.aep == aep)) [
  | inl here ↦
      let same : x ≡ s = some-injective x s ((rw here at e)) in
      let not_due : is_due now x ≡ false = ap (is_due now) same ∙ early in
      let out : has aep (caps ss) ≡ false = let h = d.1 in ground arith in
      let (ws, ks) = others-wakeups now aep ss out in rw (not_due, here) (ws, ap some same)
  | inr there ↦
      let (w, k) = other-wakeups now aep x there in
      let (ws, ks) = early-wakeups now aep ss s d.2 (rw there at e) early in
      (
        wakeups-append aep (outcome_of now x).events (outcome now ss).events
            ∙ ap (λ l. l ++ wakeups aep (outcome now ss).events) w
            ∙ ws,
        entry_at-append aep (outcome_of now x).kept (outcome now ss).kept k ∙ ks,
      )
]

-- A one-shot timeout that is due is woken, once, and goes.
due-wakeups :
    (now aep : ℕ) (ss : List Entry) (s : Entry)
    → Distinct (caps ss)
    → entry_at aep ss ≡ some s
    → is_due now s ≡ true
    → is_one_shot s ≡ true
    → (wakeups aep (outcome now ss).events ≡ now ∷ []) × (entry_at aep (outcome now ss).kept ≡ none)
due-wakeups now aep [] s d e due once = cc
due-wakeups now aep (x ∷ ss) s d e due once = elim (Bool-cases (x.value.aep == aep)) [
  | inl here ↦
      let same : x ≡ s = some-injective x s ((rw here at e)) in
      let is_now : is_due now x ≡ true = ap (is_due now) same ∙ due in
      let is_last : is_one_shot x ≡ true = ap is_one_shot same ∙ once in
      let out : has aep (caps ss) ≡ false = let h = d.1 in ground arith in
      let (ws, ks) = others-wakeups now aep ss out in
      rw (is_now, is_last, here) (ap (λ l. now ∷ l) ws, ks)
  | inr there ↦
      let (w, k) = other-wakeups now aep x there in
      let (ws, ks) = due-wakeups now aep ss s d.2 (rw there at e) due once in
      (
        wakeups-append aep (outcome_of now x).events (outcome now ss).events
            ∙ ap (λ l. l ++ wakeups aep (outcome now ss).events) w
            ∙ ws,
        entry_at-append aep (outcome_of now x).kept (outcome now ss).kept k ∙ ks,
      )
]

-- No timeout but that of `aep` has a copy of the thread's notification.
abbrev pub OnlyOne : (mine : ℕ → Bool) → (aep : ℕ) → List Entry → Type 0
OnlyOne mine aep [] = Unit
OnlyOne mine aep (s ∷ ss) = (mine s.value.aep ≡ (s.value.aep == aep)) × OnlyOne mine aep ss

pub OnlyOne-append :
    (mine : ℕ → Bool) (aep : ℕ) (xs ys : List Entry)
    → OnlyOne mine aep xs
    → OnlyOne mine aep ys
    → OnlyOne mine aep (xs ++ ys)
OnlyOne-append mine aep [] ys a b = b
OnlyOne-append mine aep (x ∷ xs) ys a b = (a.0, OnlyOne-append mine aep xs ys a.1 b)

heard-append :
    (mine : ℕ → Bool) (xs ys : List Event) → heard mine (xs ++ ys) ≡ heard mine xs ++ heard mine ys
heard-append mine [] ys = refl
heard-append mine (send a t ∷ xs) ys = elim (Bool-cases (mine a)) [
  | inl own ↦ rw own (ap (λ l. t ∷ l) (heard-append mine xs ys))
  | inr other ↦ rw other (heard-append mine xs ys)
]
heard-append mine (revoke a ∷ xs) ys = heard-append mine xs ys

-- A timeout wakes the thread where it is the one of `aep`, and keeps its capability.
outcome_of-heard :
    (mine : ℕ → Bool) (now aep : ℕ) (s : Entry)
    → mine s.value.aep ≡ (s.value.aep == aep)
    → (heard mine (outcome_of now s).events ≡ wakeups aep (outcome_of now s).events)
      × OnlyOne mine aep (outcome_of now s).kept
outcome_of-heard mine now aep s o = elim (Bool-cases (is_due now s)) [
  | inl due ↦ elim (Bool-cases (is_one_shot s)) [
    | inl once ↦ rw (due, once, o) (refl, tt)
    | inr again ↦ rw (due, again, o) (refl, (refl, tt))
  ]
  | inr early ↦ rw early (refl, (o, tt))
]

outcome-heard :
    (mine : ℕ → Bool) (now aep : ℕ) (ss : List Entry)
    → OnlyOne mine aep ss
    → (heard mine (outcome now ss).events ≡ wakeups aep (outcome now ss).events)
      × OnlyOne mine aep (outcome now ss).kept
outcome-heard mine now aep [] o = (refl, tt)
outcome-heard mine now aep (s ∷ ss) o =
    let one = outcome_of now s in
    let rest = outcome now ss in
    let (h, k) = outcome_of-heard mine now aep s o.0 in
    let (hs, ks) = outcome-heard mine now aep ss o.1 in
    (
      heard-append mine one.events rest.events
          ∙ ap (λ l. l ++ heard mine rest.events) h
          ∙ ap (λ l. wakeups aep one.events ++ l) hs
          ∙ sym (wakeups-append aep one.events rest.events),
      OnlyOne-append mine aep one.kept rest.kept k ks,
    )

module _ (mine : ℕ → Bool) (period_ms aep : ℕ) (c : Clock) (s : Entry) (i : IsClock c)
    (e : entry_at aep c.schedule.used ≡ some s) (o : OnlyOne mine aep c.schedule.used) where
  used-Distinct : Distinct (caps c.schedule.used)
  used-Distinct =
      (Distinct-split (caps c.schedule.used) (spare (c.caller_ep ∷ c.slots)) i.endpoints).0

  pub ticked-OnlyOne : OnlyOne mine aep (ticked period_ms c).schedule.used
  ticked-OnlyOne = (outcome-heard mine ((c.time + period_ms) % word) aep c.schedule.used o).1

  pub ticked-early :
      is_due ((c.time + period_ms) % word) s ≡ false
      → (heard mine (ticked period_ms c).events ≡ heard mine c.events)
        × (entry_at aep (ticked period_ms c).schedule.used ≡ some s)
  ticked-early early =
      let now = (c.time + period_ms) % word in
      let (w, k) = early-wakeups now aep c.schedule.used s used-Distinct e early in
      let (h, _) = outcome-heard mine now aep c.schedule.used o in
      (
        heard-append mine c.events (outcome now c.schedule.used).events
            ∙ ap (λ l. heard mine c.events ++ l) (h ∙ w)
            ∙ append-nil (heard mine c.events),
        k,
      )

  pub ticked-due :
      is_due ((c.time + period_ms) % word) s ≡ true
      → is_one_shot s ≡ true
      → (heard mine (ticked period_ms c).events
          ≡ heard mine c.events ++ ((c.time + period_ms) % word) ∷ [])
        × (entry_at aep (ticked period_ms c).schedule.used ≡ none)
  ticked-due due once =
      let now = (c.time + period_ms) % word in
      let (w, k) = due-wakeups now aep c.schedule.used s used-Distinct e due once in
      let (h, _) = outcome-heard mine now aep c.schedule.used o in
      (
        heard-append mine c.events (outcome now c.schedule.used).events
            ∙ ap (λ l. heard mine c.events ++ l) (h ∙ w),
        k,
      )
