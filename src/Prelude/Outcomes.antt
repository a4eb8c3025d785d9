-- ===== src/Prelude/Outcomes.antt =====
-- Calls that change a state and may fail, and what holds of what comes back.
use swarmd.Prelude.Results.{Result, ok, err}

-- A failing call leaves a state too.
abbrev pub Outcome : Type 0 → Type 0 → Type 0 → Type 0
Outcome E S A = Result E A × S

abbrev pub Call : Type 0 → Type 0 → Type 0 → Type 0
Call E S A = S → Outcome E S A

abbrev pub and_then : {E S A B : Type 0} → Outcome E S A → (A → Call E S B) → Outcome E S B
and_then (ok a, s) k = k a s
and_then (err e, s) k = (err e, s)

infixl 5 ◌>>=◌ ◌>>◌
abbrev pub ◌>>=◌ : {E S A B : Type 0} → Call E S A → (A → Call E S B) → Call E S B
◌>>=◌ m k s = and_then (m s) k

abbrev pub ◌>>◌ : {E S B : Type 0} → Call E S (Unit {0}) → Call E S B → Call E S B
◌>>◌ m k s = and_then (m s) (λ _. k)

abbrev pub pure : {E S A : Type 0} → A → Call E S A
pure a s = (ok a, s)

-- Return early.
abbrev pub stop : {E S A : Type 0} → E → Call E S A
stop e s = (err e, s)

-- A value that comes back satisfies `P` with the state, an early return `Q`.
abbrev pub Ends : {E S A : Type 0} → (A → S → Type 0) → (E → S → Type 0) → Outcome E S A → Type 0
Ends P Q (ok a, s) = P a s
Ends P Q (err e, s) = Q e s

module _ {E S A B : Type 0} (P : A → S → Type 0) (Q : E → S → Type 0) (R : B → S → Type 0) where
  pub Ends-and_then :
      (o : Outcome E S A) (k : A → Call E S B)
      → Ends P Q o
      → ((a : A) (s : S) → P a s → Ends R Q (k a s))
      → Ends R Q (and_then o k)
  Ends-and_then (ok a, s) k h next = next a s h
  Ends-and_then (err e, s) k h next = h

module _ {E S A : Type 0} {P P' : A → S → Type 0} {Q Q' : E → S → Type 0} where
  pub Ends-map :
      (o : Outcome E S A)
      → ((a : A) (s : S) → P a s → P' a s)
      → ((e : E) (s : S) → Q e s → Q' e s)
      → Ends P Q o
      → Ends P' Q' o
  Ends-map (ok a, s) p q h = p a s h
  Ends-map (err e, s) p q h = q e s h
