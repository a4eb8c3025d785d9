-- ===== src/Agent/Loop/Numbers.antt =====
-- How many steps a turn of pkg/agent/agent.go takes, and how they are numbered.
use swarmd.Prelude.{
  ℕ, suc, ◌+◌, ◌≤◌, ◌<◌, ◌≡◌, refl, sym, ◌∙◌, String, Bool, true, false, List, [], ◌∷◌, ◌++◌,
  Option, none, some, ◌==◌, if◌then◌else◌, eqb, length, length-append, ok, err, arith,
}
use swarmd.Prelude.Outcomes.{Call, Outcome, Ends}
use swarmd.Agent.Types.{GoError, Trigger, ToolAction, Decision, AgentStep, TurnResult}
use swarmd.Agent.Requests.{AgentConfig, Wording, RequestContext, with_run_started_at}
use swarmd.Agent.Host.{Host}
use mathlib.Core.Bool.{false≢true}
use swarmd.Agent.Spill.{begin_run_spill_dir}
use swarmd.Agent.Loop.Rule.{Rule, turn_loop-Ends}
use swarmd.Agent.Loop.{
  Turn, Progress, Return, settle, invoked, run_tool_step, new_step, called, finish_result, tell_at,
  told, tell, with_step, returned, begun, run_turn,
}

-- Steps with the numbers from `n` on.
abbrev pub Numbered : ℕ → List AgentStep → Type 0
Numbered n [] = Unit
Numbered n (step ∷ steps) = (step.index ≡ n) × Numbered (suc n) steps

Numbered-snoc :
    (n : ℕ) (steps : List AgentStep) (step : AgentStep)
    → Numbered n steps
    → step.index ≡ n + length steps
    → Numbered n (steps ++ step ∷ [])
Numbered-snoc n [] step h e = (omega arith, tt)
Numbered-snoc n (x ∷ xs) step h e = (h.0, Numbered-snoc (suc n) xs step h.1 (omega arith))

-- No tool changes the number of the step that it is given.
abbrev pub KeepsIndex : {V S : Type 0} → Host V S → Type 0
KeepsIndex {V} {S} host =
    (name : String)
    (invoke : Trigger V → ToolAction → AgentStep → S → (Option GoError × AgentStep) × S)
    → host.handler name ≡ some invoke
    → (t : Trigger V) (tool : ToolAction) (step : AgentStep) (s : S)
    → (invoke t tool step s).0.1.index ≡ step.index

-- What a turn with so many steps allowed comes back with.
abbrev pub IsTurn : {V : Type 0} → (first limit : ℕ) → TurnResult V → Type 0
IsTurn first limit r =
    Numbered first r.steps
    × (length r.steps ≤ limit)
    × (((r.status == "max_steps") ≡ true) → length r.steps ≡ limit)

module _ {V S : Type 0} (host : Host V S) (keeps : KeepsIndex host) where
  settle-index : (step : AgentStep) → (settle step).0.index ≡ step.index
  settle-index step = ground arith

  invoked-index : (o : (Option GoError × AgentStep) × S) → (invoked o).0.0.index ≡ o.0.1.index
  invoked-index ((some e, step), s) = refl
  invoked-index ((none, step), s) = settle-index step

  run_tool_step-index :
      (t : Trigger V) (n : ℕ) (d : Decision V) (tool : ToolAction) (s : S)
      → (run_tool_step host t n d tool s).0.0.index ≡ n
  unfolding run_tool_step
  run_tool_step-index t n d tool s = at_handler (host.handler tool.name) refl
    where
      step : AgentStep
      step = new_step host n d tool s

      at_handler :
          (h : Option (Trigger V → ToolAction → AgentStep → S → (Option GoError × AgentStep) × S))
          → host.handler tool.name ≡ h
          → (called host h t tool step s).0.0.index ≡ n
      at_handler none e = refl
      at_handler (some invoke) e =
          invoked-index (invoke t tool step s) ∙ keeps tool.name invoke e t tool step s

  -- After so many rounds that went on.
  abbrev Going : Turn V → ℕ → Progress → S → Type 0
  Going t k p s = Numbered t.next_step_index p.turn_steps × (length p.turn_steps ≡ k)

  -- When the turn returns in one of them.
  abbrev Returned : Turn V → ℕ → Return V → S → Type 0
  Returned t limit r s =
      Numbered t.next_step_index (r.0).steps
      × (length (r.0).steps ≤ limit)
      × (((r.0).status == "max_steps") ≡ false)

  told-Returned :
      (t : Turn V) (limit k : ℕ) (p : Progress) (o : Outcome GoError S (Unit {0}))
      → k ≤ limit
      → Going t k p o.1
      → Ends (λ (u : Unit {0}) s. Going t k p s) (Returned t limit) (told host t p o)
  unfolding finish_result
  told-Returned t limit k p (ok u, s) le h = h
  told-Returned t limit k p (err e, s) le h = (h.0, omega (arith, h.1), refl)

  step-Going :
      (t : Turn V) (limit k : ℕ) (d : Decision V) (p : Progress) (tool : ToolAction) (s : S)
      → k < limit
      → Going t k p s
      → let (o, s₁) =
          run_tool_step host t.trigger (t.next_step_index + length p.turn_steps) d tool s in
        Ends
          (λ (u : Unit {0}) s₂. Going t (suc k) (with_step d o.0 p) s₂)
          (Returned t limit)
          (tell host t o.0 (with_step d o.0 p) s₁)
  step-Going t limit k d p tool s lt h = at_handler host.on_step
    where
      index : ℕ
      index = t.next_step_index + length p.turn_steps

      step : AgentStep
      step = (run_tool_step host t.trigger index d tool s).0.0

      s₁ : S
      s₁ = (run_tool_step host t.trigger index d tool s).1

      more : Going t (suc k) (with_step d step p) s₁
      more = (
        Numbered-snoc t.next_step_index p.turn_steps step h.0
            (run_tool_step-index t.trigger index d tool s),
        omega (arith, length-append p.turn_steps (step ∷ []), h.1),
      )

      at_handler :
          (handle : Option (Trigger V → AgentStep → Call GoError S (Unit {0})))
          → Ends
              (λ (u : Unit {0}) s₂. Going t (suc k) (with_step d step p) s₂)
              (Returned t limit)
              (tell_at host handle t step (with_step d step p) s₁)
      at_handler none = more
      at_handler (some handle) =
          told-Returned t limit (suc k) (with_step d step p) (handle t.trigger step s₁) lt more

  numbers : (t : Turn V) (limit : ℕ) → Rule host t limit (Going t) (Returned t limit)
  unfolding finish_result
  numbers t limit = record {
    ends = λ k p s status error thought answer back le h ne. (h.0, omega (arith, h.1), ne);
    decides = λ k p request s h. h;
    notes = λ k p d s h. h;
    steps = step-Going t limit;
  }

  module _ (w : Wording V) (a : AgentConfig) where
    returned-IsTurn :
        (t : Turn V) (previous : String) (o : Outcome (Return V) S Progress)
        → Ends (Going t a.max_steps) (Returned t a.max_steps) o
        → IsTurn t.next_step_index a.max_steps (returned host w a t previous o).0.0
    unfolding finish_result
    returned-IsTurn t previous (ok p, s) h = (h.0, omega (arith, h.1), λ _. h.1)
    returned-IsTurn t previous (err r, s) h = (h.0, h.1, λ e. absurd (false≢true (sym h.2 ∙ e)))

    -- A turn takes at most as many steps as the agent allows, and exactly so many if it ends for that
    -- reason. They are numbered one after the other from the number that the turn was given, 1 for 0,
    -- however it ends, as long as no tool changes the number of its step.
    pub run_turn-IsTurn :
        (trigger : Trigger V) (next_step_index : ℕ) (reset : Bool) (c : RequestContext) (s : S)
        → IsTurn
            (if eqb next_step_index 0 then 1 else next_step_index)
            a.max_steps
            (run_turn host w a trigger next_step_index reset c s).0.0
    unfolding run_turn finish_result
    run_turn-IsTurn trigger n reset c s = at_begin (begin_run_spill_dir host a trigger s)
      where
        t : Turn V
        t = record {
          trigger = trigger;
          next_step_index = if eqb n 0 then 1 else n;
          started_at = host.now s;
        }

        p : Progress
        p = record {
          turn_steps = [];
          request_context = with_run_started_at (host.now s) c;
          usage_cached_tokens = 0;
        }

        at_begin :
            (o : Outcome GoError S String)
            → IsTurn t.next_step_index a.max_steps (begun host w a t reset p o).0.0
        at_begin (err e, s') = (tt, omega arith, λ h. absurd (false≢true h))
        at_begin (ok previous, s') = returned-IsTurn t previous _ (
            turn_loop-Ends host t a.max_steps (Going t) (Returned t a.max_steps)
              (numbers t a.max_steps) w a a.max_steps 0 1 p (if reset then host.reset s' else s')
              (tt, refl) (omega arith))
