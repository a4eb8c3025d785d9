-- ===== src/Server/Workers/Synced/Once.antt =====
-- pkg/server/runtime_manager.go: `SyncOnce`, from the query to the workers.
use swarmd.Prelude.{
  ◌≡◌, sym, ap, ◌∙◌, inl, inr, List, All, Distinct, Bool-cases, arith, subst, ok, err,
}
use swarmd.Prelude.Maps.{Range, remove_if, lookup-remove_if-some}
use swarmd.Prelude.Outcomes.{Outcome, Ends, and_then, Ends-map}
use swarmd.Agent.Types.{GoError}
use swarmd.Server.Workers.{
  RunnableAgent, WorkerHandle, RuntimeManager, Parts, worker_key, is_id, beyond, reap_workers,
  sync_agents, sync_once,
}
use swarmd.Server.Workers.Keys.{same_agent, HasPlainId}
use swarmd.Server.Workers.Retired.{AllTracked, has_ended, reap-eq}
use swarmd.Server.Workers.Synced.{NotBuilt, Synced, sync_agents-Started, sync_agents-Synced}

module _ {W D C H F R : Type 0} (parts : Parts W D C H F R) (of_workers : Range WorkerHandle)
    (of_agents : Range RunnableAgent) where
  module _ (m : RuntimeManager W) where
    abbrev after_reaping : W → RuntimeManager W
    after_reaping w = record m {
      workers = remove_if (has_ended m) (of_workers.order m.workers) m.workers;
      outside = w;
    }

    after_reaping-AllTracked : (w : W) → AllTracked m → AllTracked (after_reaping w)
    after_reaping-AllTracked w t h old = elim (t h old) [
      | inr settled ↦ inr settled
      | inl there ↦ elim (Bool-cases (is_id h.id m.ended)) [
        | inl e ↦ inr (ground arith)
        | inr e ↦ inl (
            lookup-remove_if-some of_workers (has_ended m) m.workers h.key h there
            ∙ ground (arith, e))
      ]
    ]

    sync_once-eq :
        sync_once parts of_workers of_agents m
        ≡ and_then
            (beyond (after_reaping m.outside) (parts.list_runnable_agents m.outside))
            (sync_agents parts of_workers of_agents)
    unfolding sync_once reap_workers
    sync_once-eq = rw (reap-eq (of_workers.order m.workers) m)

    -- A sync, whatever comes of it, leaves no goroutine behind.
    pub sync_once-AllTracked :
        AllTracked m
        → Ends (λ _. AllTracked) (λ _. AllTracked) (sync_once parts of_workers of_agents m)
    sync_once-AllTracked t =
        subst (Ends (λ _. AllTracked) (λ _. AllTracked)) (sym sync_once-eq)
          (listed (parts.list_runnable_agents m.outside))
      where
        listed :
            (o : Outcome GoError W (List RunnableAgent))
            → Ends
                (λ (_ : Unit {0}). AllTracked)
                (λ _. AllTracked)
                (and_then
                  (beyond (after_reaping m.outside) o)
                  (sync_agents parts of_workers of_agents))
        listed (ok agents, w) =
            Ends-map (sync_agents parts of_workers of_agents agents (after_reaping w))
              (λ _ m' s. s.0) (λ e m' f. f.0)
              (sync_agents-Started parts of_workers of_agents agents (after_reaping w)
                (after_reaping-AllTracked w t))
        listed (err e, w) = after_reaping-AllTracked w t

    module _ (agents : List RunnableAgent) {w : W} where
      -- When the store gives some agents, whose identifiers have no colon, a sync ends with a worker
      -- for each of them and for nobody else, made for the agent as it is now; a worker that was
      -- right and had not ended is the same as before. If it fails, a worker could not be built.
      pub sync_once-Synced :
          AllTracked m
          → parts.list_runnable_agents m.outside ≡ (ok agents, w)
          → All HasPlainId agents
          → Distinct same_agent agents
          → Ends
              (λ _. Synced parts of_workers of_agents agents m)
              (λ e _. NotBuilt parts agents e)
              (sync_once parts of_workers of_agents m)
      sync_once-Synced t listed plain keys =
          subst
            (Ends (λ _. Synced parts of_workers of_agents agents m)
              (λ e _. NotBuilt parts agents e))
            (sym (
              sync_once-eq
              ∙ ap
                  (λ o.
                    and_then (beyond (after_reaping m.outside) o)
                      (sync_agents parts of_workers of_agents))
                  listed))
            (Ends-map (sync_agents parts of_workers of_agents agents (after_reaping w))
              (λ _ m' s. (
                s.0,
                s.1,
                s.2,
                λ r h there was same on.
                    s.3 r h there
                      (lookup-remove_if-some of_workers (has_ended m) m.workers (worker_key r) h was
                        ∙ ground (arith, on))
                      same on,
              ))
              (λ e m' f. f.1)
              (sync_agents-Synced parts of_workers of_agents agents (after_reaping w) plain keys
                (after_reaping-AllTracked w t)))
