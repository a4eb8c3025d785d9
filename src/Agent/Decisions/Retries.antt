-- ===== src/Agent/Decisions/Retries.antt =====
-- What `nextDecision` of pkg/agent/agent.go does with the answers of its driver.
use swarmd.Prelude.{
  ℕ, zero, suc, ◌+◌, ◌-◌, ◌≤◌, ◌≡◌, refl, true, false, ok, err, Bool-cases, arith, ◌⊎◌, inl, inr,
}
use swarmd.Prelude.Outcomes.{Outcome}
use swarmd.Agent.Types.{GoError, Decision}
use swarmd.Agent.Requests.{Request}
use swarmd.Agent.Host.{Host}
use swarmd.Agent.Decisions.{
  is_some, max_driver_retries, should_retry_driver_error, after_attempt, next_decision_from,
  next_decision,
}

module _ {V S : Type 0} (host : Host V S) (request : Request V) where
  -- So many attempts from a state on, each but the last a timeout of the attempt alone, and what the
  -- last one gave.
  pub data Attempts : ℕ → S → Outcome GoError S (Decision V) → Type 0 where
    last : {s : S} {o : Outcome GoError S (Decision V)} → host.next request s ≡ o → Attempts 1 s o
    again :
        {n : ℕ} {s s' : S} {o : Outcome GoError S (Decision V)} {e : GoError} (retry : ℕ)
        → host.next request s ≡ (err e, s')
        → is_some (host.ctx_err s') ≡ false
        → should_retry_driver_error e ≡ true
        → Attempts n (host.log_retry request.step retry e s') o
        → Attempts (suc n) s o

  -- Why no attempt is made after so many, if so many more than one are allowed.
  abbrev pub Settled : (left n : ℕ) → Outcome GoError S (Decision V) → Type 0
  Settled left n (ok d, s) = Unit
  Settled left n (err e, s) =
      (is_some (host.ctx_err s) ≡ true) ⊎ ((should_retry_driver_error e ≡ false) ⊎ (n ≡ suc left))

  abbrev pub Tried : ℕ → S → Outcome GoError S (Decision V) → Type 0
  Tried left s o = (n : ℕ) × (n ≤ suc left) × Attempts n s o × Settled left n o

  Settled-suc :
      (left n : ℕ) (o : Outcome GoError S (Decision V))
      → Settled left n o
      → Settled (suc left) (suc n) o
  Settled-suc left n (ok d, s) h = tt
  Settled-suc left n (err e, s) (inl h) = inl h
  Settled-suc left n (err e, s) (inr (inl h)) = inr (inl h)
  Settled-suc left n (err e, s) (inr (inr h)) = inr (inr (omega arith))

  Tried-last :
      (left : ℕ) (s : S) (o : Outcome GoError S (Decision V))
      → host.next request s ≡ o
      → Settled left 1 o
      → Tried left s o
  Tried-last left s o e h = (1, omega arith, last e, h)

  -- After a failed attempt.
  attempt_failed :
      (left retry : ℕ) (s : S) (e : GoError) (s' : S) (again' : S → Outcome GoError S (Decision V))
      → host.next request s ≡ (err e, s')
      → ((t : S) → Tried left t (again' t))
      → Tried (suc left) s (after_attempt host true retry again' request (err e, s'))
  attempt_failed left retry s e s' again' h tried = elim (Bool-cases (is_some (host.ctx_err s'))) [
    | inl gone ↦ rw gone (Tried-last (suc left) s _ h (inl gone))
    | inr going ↦ elim (Bool-cases (should_retry_driver_error e)) [
      | inr other ↦ rw (going, other) (Tried-last (suc left) s _ h (inr (inl other)))
      | inl timed ↦
          let t = host.log_retry request.step (retry + 1) e s' in
          let (n, le, made, settled) = tried t in
          rw (going, timed)
            (
              suc n,
              omega arith,
              again (retry + 1) h going timed made,
              Settled-suc left n (again' t) settled,
            )
    ]
  ]

  next_decision_from-Tried :
      (left : ℕ) (s : S) → Tried left s (next_decision_from host left request s)
  unfolding next_decision_from
  next_decision_from-Tried zero s = only (host.next request s) refl
    where
      only :
          (o : Outcome GoError S (Decision V))
          → host.next request s ≡ o
          → Tried zero s
              (after_attempt host false max_driver_retries (λ s'. host.next request s') request o)
      only (ok d, s') h = Tried-last zero s _ h tt
      only (err e, s') h = elim (Bool-cases (is_some (host.ctx_err s'))) [
        | inl gone ↦ rw gone (Tried-last zero s _ h (inl gone))
        | inr going ↦ rw going (Tried-last zero s _ h (inr (inr refl)))
      ]
  next_decision_from-Tried (suc left) s =
      first (host.next request s) refl (next_decision_from-Tried left)
    where
      first :
          (o : Outcome GoError S (Decision V))
          → host.next request s ≡ o
          → ((t : S) → Tried left t (next_decision_from host left request t))
          → Tried (suc left) s (
              after_attempt host true
                (max_driver_retries - suc left)
                (next_decision_from host left request)
                request
                o)
      first (ok d, s') h tried = Tried-last (suc left) s _ h tt
      first (err e, s') h tried =
          attempt_failed left (max_driver_retries - suc left) s e s'
            (next_decision_from host left request) h tried

  -- The driver is asked at most four times: each attempt but the last one timed out while the run went
  -- on, the outcome is that of the last one, and an error is given back only if the run was ended, or
  -- the error is no timeout, or all four attempts were made.
  pub next_decision-Tried : (s : S) → Tried max_driver_retries s (next_decision host request s)
  unfolding next_decision
  next_decision-Tried s = next_decision_from-Tried max_driver_retries s
