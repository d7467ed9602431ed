-- ===== src/Run.antt =====
-- The state monad in which the C functions are written: a run ends with a value and a state, or
-- stops at a failed `assert`, at a bad pointer, because a loop's fuel is used up, or because a
-- thread waits for a semaphore that nobody gives.
use libsel4osapi.Prelude.{◌≡◌, refl, Bool, true, false, Option, none, some}

pub data Fault : Type 0 where
  assert_failed bad_pointer out_of_fuel blocked : Fault

pub data Run (S A : Type 0) : Type 0 where
  ok : A → S → Run S A
  fail : Fault → Run S A

abbrev pub Cmd : Type 0 → Type 0 → Type 0
Cmd S A = S → Run S A

abbrev pub pure : {S A : Type 0} → A → Cmd S A
pure = ok

abbrev pub stop : {S A : Type 0} → Fault → Cmd S A
stop f s = fail f

abbrev pub and_then : {S A B : Type 0} → Run S A → (A → Cmd S B) → Run S B
and_then (ok a s) k = k a s
and_then (fail f) k = fail f

infixl 5 ◌>>=◌ ◌>>◌
abbrev pub ◌>>=◌ : {S A B : Type 0} → Cmd S A → (A → Cmd S B) → Cmd S B
◌>>=◌ m k s = and_then (m s) k

abbrev pub ◌>>◌ : {S A B : Type 0} → Cmd S A → Cmd S B → Cmd S B
◌>>◌ m k s = and_then (m s) (λ _. k)

-- `assert(b)`
abbrev pub check : {S : Type 0} → Bool → Cmd S (Unit {0})
check true = pure tt
check false = stop assert_failed

-- `if (b) { m }`
abbrev pub when : {S : Type 0} → Bool → Cmd S (Unit {0}) → Cmd S (Unit {0})
when true m = m
when false m = pure tt

-- A value that a pointer must lead to.
abbrev pub need : {S A : Type 0} → Option A → Cmd S A
need none = stop bad_pointer
need (some a) = pure a

-- The run ends with a value, and value and state satisfy `P`.
pub data Returns {S A : Type 0} (P : A → S → Type 0) : Run S A → Type 0 where
  returns : {a : A} {s : S} → P a s → Returns P (ok a s)

module _ {S A : Type 0} {P : A → S → Type 0} where
  pub bind :
      {B : Type 0} {Q : B → S → Type 0} {r : Run S A} {k : A → Cmd S B}
      → Returns P r
      → ((a : A) (s : S) → P a s → Returns Q (k a s))
      → Returns Q (and_then r k)
  bind (returns p) rest = rest _ _ p

  pub mono :
      {Q : A → S → Type 0} {r : Run S A}
      → Returns P r
      → ((a : A) (s : S) → P a s → Q a s)
      → Returns Q r
  mono (returns p) weaken = returns (weaken _ _ p)

-- The run ends, with a value and a state that satisfy `P` or at a failed `assert`; it meets no bad
-- pointer and its loops end.
pub data Safe {S A : Type 0} (P : A → S → Type 0) : Run S A → Type 0 where
  safe : {a : A} {s : S} → P a s → Safe P (ok a s)
  asserts : Safe P (fail assert_failed)

module _ {S A B : Type 0} {Q : B → S → Type 0} {k : A → Cmd S B} where
  pub Safe-bind :
      {P : A → S → Type 0} {r : Run S A}
      → Safe P r
      → ((a : A) (s : S) → P a s → Safe Q (k a s))
      → Safe Q (and_then r k)
  Safe-bind (safe p) rest = rest _ _ p
  Safe-bind asserts rest = asserts

pub Safe-check :
    {S B : Type 0} {Q : B → S → Type 0} (k : Unit {0} → Cmd S B) (b : Bool) (s : S)
    → (b ≡ true → Safe Q (k tt s))
    → Safe Q (and_then (check b s) k)
Safe-check k true s rest = rest refl
Safe-check k false s rest = asserts

pub Safe-ok : {S A : Type 0} {P : A → S → Type 0} {a : A} {s : S} → Safe P (ok a s) → P a s
Safe-ok (safe p) = p

pub Returns-ok : {S A : Type 0} {P : A → S → Type 0} {a : A} {s : S} → Returns P (ok a s) → P a s
Returns-ok (returns p) = p

pub Returns-check :
    {S B : Type 0} {Q : B → S → Type 0} (k : Unit {0} → Cmd S B) (b : Bool) (s : S)
    → b ≡ true
    → Returns Q (k tt s)
    → Returns Q (and_then (check b s) k)
Returns-check k true s e r = r
Returns-check k false s e r = cc
