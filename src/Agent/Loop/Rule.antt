-- ===== src/Agent/Loop/Rule.antt =====
-- A rule for the turns of pkg/agent/agent.go: what every round keeps holds when the turn ends.
use swarmd.Prelude.{
  ℕ, zero, suc, ◌+◌, ◌≤◌, ◌<◌, ◌≡◌, refl, subst, String, false, ◌||◌, Option, none, some, ◌==◌, inl,
  inr, Bool-cases, length, Result, ok, err, arith,
}
use swarmd.Prelude.Outcomes.{Outcome, Ends, Ends-and_then, and_then}
use swarmd.Store.Types.{Payload, nil}
use swarmd.Agent.Types.{GoError, ToolAction, Decision}
use swarmd.Agent.Requests.{AgentConfig, Wording, Request}
use swarmd.Agent.Host.{Host}
use swarmd.Agent.Decisions.{is_some, next_decision, check_decision, validate_decision}
use swarmd.Agent.Loop.{
  Turn, Progress, Return, canceled_or, run_tool_step, finish_result, fail, give_up, check_running,
  check_running_at, or_driver_error, decided, tell, or_fail, with_step, act, with_decision, build,
  decide, ask, round, turn_loop,
}

-- `Inv k` holds after `k` rounds that went on, `Ret` when the turn returns in one of them.
pub record Rule {V S : Type 0} (host : Host V S) (t : Turn V) (limit : ℕ)
    (Inv : ℕ → Progress → S → Type 0) (Ret : Return V → S → Type 0) : Type 0 where
  pub ends :
      (k : ℕ) (p : Progress) (s : S) (status error thought : String) (answer : Payload V)
      (back : Option GoError)
      → k ≤ limit
      → Inv k p s
      → (status == "max_steps") ≡ false
      → Ret (finish_result host t status error thought answer p s, back) s
  pub decides :
      (k : ℕ) (p : Progress) (request : Request V) (s : S)
      → Inv k p s
      → Inv k p (next_decision host request s).1
  pub notes :
      (k : ℕ) (p : Progress) (d : Decision V) (s : S) → Inv k p s → Inv k (with_decision d p) s
  pub steps :
      (k : ℕ) (d : Decision V) (p : Progress) (tool : ToolAction) (s : S)
      → k < limit
      → Inv k p s
      → let (o, s₁) =
          run_tool_step host t.trigger (t.next_step_index + length p.turn_steps) d tool s in
        Ends
          (λ (u : Unit {0}) s₂. Inv (suc k) (with_step d o.0 p) s₂)
          Ret
          (tell host t o.0 (with_step d o.0 p) s₁)

module _ {V S : Type 0} (host : Host V S) (t : Turn V) (limit : ℕ) (Inv : ℕ → Progress → S → Type 0)
    (Ret : Return V → S → Type 0) (rule : Rule host t limit Inv Ret) where
  module _ (k : ℕ) (p : Progress) (le : k ≤ limit) where
    give_up-Ends :
        {A : Type 0} (P : A → S → Type 0) (status : String) (e : GoError) (back : Option GoError)
        (s : S)
        → Inv k p s
        → (status == "max_steps") ≡ false
        → Ends P Ret (give_up host t status e back p s)
    give_up-Ends P status e back s h ne = rule.ends k p s status e.message "" nil back le h ne

    fail-Ends :
        {A : Type 0} (P : A → S → Type 0) (status : String) (e : GoError) (s : S)
        → Inv k p s
        → (status == "max_steps") ≡ false
        → Ends P Ret (fail host t status e p s)
    fail-Ends P status e s h ne = at_ctx (host.ctx_err s)
      where
        at_ctx : (c : Option GoError) → Ends P Ret (canceled_or host c t status e p s)
        at_ctx none = give_up-Ends P status e none s h ne
        at_ctx (some c) = elim (Bool-cases (e.is_canceled || e.is_deadline_exceeded)) [
          | inl ended ↦ rw ended (give_up-Ends P "canceled" c (some c) s h refl)
          | inr other ↦ rw other (give_up-Ends P status e none s h ne)
        ]

    check_running-Ends :
        (s : S) → Inv k p s → Ends (λ (u : Unit {0}) s'. Inv k p s') Ret (check_running host t p s)
    check_running-Ends s h = at_ctx (host.ctx_err s)
      where
        at_ctx :
            (c : Option GoError)
            → Ends (λ (u : Unit {0}) s'. Inv k p s') Ret (check_running_at host c t p s)
        at_ctx none = h
        at_ctx (some c) =
            give_up-Ends (λ (u : Unit {0}) s'. Inv k p s') "canceled" c (some c) s h refl

    or_driver_error-Ends :
        {A : Type 0} (r : Result GoError A) (s : S)
        → Inv k p s
        → Ends (λ a s'. (r ≡ ok a) × Inv k p s') Ret (or_driver_error host t p r s)
    or_driver_error-Ends (ok a) s h = (refl, h)
    or_driver_error-Ends {A} (err e) s h =
        give_up-Ends (λ (a : A) s'. (err e ≡ ok a) × Inv k p s') "driver_error" e none s h refl

    decided-Ends :
        (o : Outcome GoError S (Decision V))
        → Inv k p o.1
        → Ends (λ (d : Decision V) s'. Inv k p s') Ret (decided host t p o)
    decided-Ends (ok d, s) h = h
    decided-Ends (err e, s) h =
        fail-Ends (λ (d : Decision V) s'. Inv k p s') "driver_error" e s h refl

    or_fail-Ends :
        (failed : Option GoError) (s : S) → Inv k p s → Ends (Inv k) Ret (or_fail host t p failed s)
    or_fail-Ends none s h = h
    or_fail-Ends (some e) s h = fail-Ends (Inv k) "fatal_error" e s h refl

  act-Ends :
      (k : ℕ) (d : Decision V) (p : Progress) (tool : Option ToolAction)
      (finish : Option (Payload V)) (s : S)
      → k < limit
      → check_decision d tool (is_some finish) ≡ ok tt
      → Inv k p s
      → Ends (Inv (suc k)) Ret (act host t d p tool finish s)
  act-Ends k d p tool (some answer) s lt v h =
      rule.ends k p s "finished" "" _ answer none (omega arith) h refl
  act-Ends k d p none none s lt v h = cc
  act-Ends k d p (some tool) none s lt v h =
      let o = run_tool_step host t.trigger (t.next_step_index + length p.turn_steps) d tool s in
      Ends-and_then (λ (u : Unit {0}) s₂. Inv (suc k) (with_step d o.0.0 p) s₂) Ret (Inv (suc k))
        (tell host t o.0.0 (with_step d o.0.0 p) o.1)
        (λ _. or_fail host t (with_step d o.0.0 p) o.0.1) (rule.steps k d p tool s lt h)
        λ _ s₂ h'. or_fail-Ends (suc k) (with_step d o.0.0 p) lt o.0.1 s₂ h'

  module _ (w : Wording V) (a : AgentConfig) where
    ask-Ends :
        (k step : ℕ) (p : Progress) (s : S)
        → k ≤ limit
        → Inv k p s
        → Ends (λ (d : Decision V) s'. Inv k p s') Ret (ask host w a t step p s)
    ask-Ends k step p s le h =
        Ends-and_then (λ (u : Unit {0}) s'. Inv k p s') Ret (λ (d : Decision V) s'. Inv k p s')
          (check_running host t p s)
          (λ _ s₁.
            and_then (or_driver_error host t p (build host w a t step p s₁) s₁)
              (decide host w a t p))
          (check_running-Ends k p le s h)
          λ _ s₁ h₁.
            let built = build host w a t step p s₁ in
            Ends-and_then (λ r s'. (built ≡ ok r) × Inv k p s') Ret
              (λ (d : Decision V) s'. Inv k p s') (or_driver_error host t p built s₁)
              (decide host w a t p) (or_driver_error-Ends k p le built s₁ h₁)
              λ request s₂ h₂.
                decided-Ends k p le (next_decision host request s₂)
                  (rule.decides k p request s₂ h₂.1)

    round-Ends :
        (k step : ℕ) (p : Progress) (s : S)
        → k < limit
        → Inv k p s
        → Ends (Inv (suc k)) Ret (round host w a t step p s)
    unfolding round validate_decision
    round-Ends k step p s lt h =
        Ends-and_then (λ (d : Decision V) s'. Inv k p s') Ret (Inv (suc k))
          (ask host w a t step p s)
          (λ d s₁.
            and_then (or_driver_error host t (with_decision d p) (validate_decision d) s₁)
              λ _. act host t d (with_decision d p) d.tool d.finish)
          (ask-Ends k step p s (omega arith) h)
          λ d s₁ h₁.
            let p' = with_decision d p in
            Ends-and_then (λ u s'. (validate_decision d ≡ ok u) × Inv k p' s') Ret (Inv (suc k))
              (or_driver_error host t p' (validate_decision d) s₁)
              (λ _. act host t d p' d.tool d.finish)
              (or_driver_error-Ends k p' (omega arith) (validate_decision d) s₁
                (rule.notes k p d s₁ h₁))
              λ u s₂ h₂. act-Ends k d p' d.tool d.finish s₂ lt h₂.0 h₂.1

    pub turn_loop-Ends :
        (left k step : ℕ) (p : Progress) (s : S)
        → Inv k p s
        → limit ≡ k + left
        → Ends (Inv limit) Ret (turn_loop host w a t left step p s)
    unfolding turn_loop
    turn_loop-Ends zero k step p s h e = subst (λ n. Inv n p s) (omega arith) h
    turn_loop-Ends (suc left) k step p s h e =
        Ends-and_then (Inv (suc k)) Ret (Inv limit) (round host w a t step p s)
          (λ p'. turn_loop host w a t left (suc step) p') (round-Ends k step p s (omega arith) h)
          λ p' s' h'. turn_loop-Ends left (suc k) (suc step) p' s' h' (omega arith)
