-- ===== src/Server/Workers/Synced.antt =====
-- pkg/server/runtime_manager.go: `SyncOnce` brings the workers in step with the store.
pub mod Once
use swarmd.Prelude.{
  ◌≡◌, sym, ap, ◌∙◌, ◌⊎◌, inl, inr, String, true, false, List, [], Option, some, none, if_false,
  Has, All, Distinct, Bool-cases, Option-cases, arith, some-eq-some, subst, ok, err,
}
use swarmd.Prelude.Maps.{
  Map, Range, lookup, remove_if, lookup-remove_if-some, lookup-remove_if-none, lookup-nil,
}
use swarmd.Prelude.Outcomes.{Outcome, Ends, and_then, Ends-map}
use swarmd.Agent.Types.{GoError}
use swarmd.Server.Workers.{
  RunnableAgent, WorkerHandle, RuntimeManager, Parts, worker_key, worker_fingerprint, is_id,
  is_stale, start_missing, desired_agents, build, beyond, reap_workers, sync_agents, sync_once,
}
use swarmd.Server.Workers.Keys.{
  same_agent, HasPlainId, same_key-Distinct, lookup-desired_agents, desired_agents-Has,
}
use swarmd.Server.Workers.Retired.{
  AllTracked, has_ended, is_settled, reap-eq, retired, retire_stale-eq, retired-keeps, retired-Has,
  is_stale-current, current-is_stale,
}
use swarmd.Server.Workers.Started.{AllCurrent, Started, start_missing-Started}

module _ {W D C H F R : Type 0} (parts : Parts W D C H F R) (agents : List RunnableAgent) where
  -- A worker for one of the agents could not be built.
  abbrev pub NotBuilt : GoError → Type 0
  NotBuilt e = (r : RunnableAgent) × Has r agents × (w : W) × ((build parts r w).0 ≡ err e)

  -- Every worker works for an agent, as it is now.
  abbrev pub WorksForAgents : RuntimeManager W → Type 0
  WorksForAgents m' =
      (k : String) (h : WorkerHandle)
      → lookup k m'.workers ≡ some h
      → (r : RunnableAgent) × Has r agents
        × (worker_key r ≡ k)
        × (h.fingerprint ≡ worker_fingerprint parts r)

  -- Every agent has a worker, as it is now.
  abbrev pub HasWorkers : RuntimeManager W → Type 0
  HasWorkers m' =
      (r : RunnableAgent)
      → Has r agents
      → (h : WorkerHandle) × (lookup (worker_key r) m'.workers ≡ some h)
        × (h.fingerprint ≡ worker_fingerprint parts r)

module _ {W D C H F R : Type 0} (parts : Parts W D C H F R) (of_workers : Range WorkerHandle)
    (of_agents : Range RunnableAgent) where
  module _ (desired : Map RunnableAgent) (m : RuntimeManager W) where
    abbrev after_retiring : RuntimeManager W
    after_retiring = record m {
      workers = remove_if (is_stale parts desired) (of_workers.order m.workers) m.workers;
      cancelled = retired parts desired (of_workers.order m.workers) m.cancelled;
    }

    after_retiring-AllTracked : AllTracked m → AllTracked after_retiring
    after_retiring-AllTracked t h old = elim (t h old) [
      | inl there ↦ elim (Bool-cases (is_stale parts desired (h.key, h))) [
        | inl stale ↦
            let gone =
              retired-Has parts desired (of_workers.order m.workers) m.cancelled (h.key, h)
                (of_workers.visits m.workers h.key h there) stale in
            inr (ground arith)
        | inr current ↦ inl (
            lookup-remove_if-some of_workers (is_stale parts desired) m.workers h.key h there
            ∙ ground (arith, current))
      ]
      | inr settled ↦ inr (keeps (Bool-cases (is_id h.id m.cancelled)) settled)
    ]
      where
        keeps :
            (is_id h.id m.cancelled ≡ true) ⊎ (is_id h.id m.cancelled ≡ false)
            → is_settled h m ≡ true
            → is_settled h after_retiring ≡ true
        keeps (inl c) s =
            let still =
              retired-keeps parts desired (of_workers.order m.workers) m.cancelled h.id c in
            ground arith
        keeps (inr n) s = ground arith

    after_retiring-AllCurrent : AllCurrent parts desired after_retiring
    after_retiring-AllCurrent k h there = elim (Option-cases (lookup k m.workers)) [
      | inl e ↦ absurd (
          clash
            (sym (lookup-remove_if-none of_workers (is_stale parts desired) m.workers k e) ∙ there))
      | inr (h', e) ↦ elim (Bool-cases (is_stale parts desired (k, h'))) [
        | inl stale ↦ absurd (
            clash (
              sym (
                lookup-remove_if-some of_workers (is_stale parts desired) m.workers k h' e
                ∙ ground (arith, stale))
              ∙ there))
        | inr current ↦
            let same : h' ≡ h = some-eq-some (
              sym (
                lookup-remove_if-some of_workers (is_stale parts desired) m.workers k h' e
                ∙ ground (arith, current))
              ∙ there) in
            is_stale-current parts desired k h
              (ap (λ x. is_stale parts desired (k, x)) (sym same) ∙ current)
      ]
    ]
      where
        clash : ◌≡◌ {A = Option WorkerHandle} none (some h) → ⊥
        clash q = cc

  module _ (agents : List RunnableAgent) (m : RuntimeManager W) where
    abbrev wished : Map RunnableAgent
    wished = desired_agents agents []

    among :
        (k : String) (r : RunnableAgent)
        → lookup k wished ≡ some r
        → Has r agents × (worker_key r ≡ k)
    among k r found = elim (lookup-desired_agents k agents [] found) [
      | inl known ↦ known
      | inr old ↦ absurd (lookup-nil k old)
    ]

    wanted :
        (e : String × RunnableAgent)
        → Has e (of_agents.order wished)
        → (lookup e.0 wished ≡ some e.1) × (worker_key e.1 ≡ e.0)
    wanted (k, r) h = let found = of_agents.visited wished k r h in (found, (among k r found).1)

    pub sync_agents-Started :
        AllTracked m
        → Ends
            (λ _. Started parts wished (after_retiring wished m) (of_agents.order wished))
            (λ e m'. AllTracked m' × NotBuilt parts agents e)
            (sync_agents parts of_workers of_agents agents m)
    unfolding sync_agents
    sync_agents-Started t = rw (retire_stale-eq parts wished (of_workers.order m.workers) m) (
        Ends-map (start_missing parts (of_agents.order wished) (after_retiring wished m))
          (λ _ m' s. s)
          (λ e m' (t, ((k, r), h, w, q)).
            (t, (r, (among k r (of_agents.visited wished k r h)).0, w, q)))
          (start_missing-Started parts wished (of_agents.order wished) (after_retiring wished m)
            wanted (after_retiring-AllTracked wished m t) (after_retiring-AllCurrent wished m)))

    -- A worker that was right for its agent is still the same.
    abbrev pub LeavesCurrent : RuntimeManager W → Type 0
    LeavesCurrent m' =
        (r : RunnableAgent) (h : WorkerHandle)
        → Has r agents
        → lookup (worker_key r) m.workers ≡ some h
        → h.fingerprint ≡ worker_fingerprint parts r
        → is_id h.id m.ended ≡ false
        → lookup (worker_key r) m'.workers ≡ some h

    -- What a sync makes of the manager, if it comes to an end.
    abbrev pub Synced : RuntimeManager W → Type 0
    Synced m' =
        AllTracked m'
        × WorksForAgents parts agents m'
        × HasWorkers parts agents m'
        × LeavesCurrent m'

    module _ (plain : All HasPlainId agents) (keys : Distinct same_agent agents) where
      stays :
          (r : RunnableAgent) (h : WorkerHandle)
          → Has r agents
          → lookup (worker_key r) m.workers ≡ some h
          → h.fingerprint ≡ worker_fingerprint parts r
          → lookup (worker_key r) (after_retiring wished m).workers ≡ some h
      stays r h there was same =
          lookup-remove_if-some of_workers (is_stale parts wished) m.workers (worker_key r) h was
          ∙ if_false _ _ (
              current-is_stale parts wished (worker_key r) h r
                (desired_agents-Has agents [] (same_key-Distinct agents plain keys) there) same)

      Started-Synced :
          (m' : RuntimeManager W)
          → Started parts wished (after_retiring wished m) (of_agents.order wished) m'
          → Synced m'
      Started-Synced m' s =
          (s.0, works, has, λ r h there was same _. s.2 _ h (stays r h there was same))
        where
          works : WorksForAgents parts agents m'
          works k h was =
              let (r, found, print) = s.1 k h was in
              let (there, key) = among k r found in (r, there, key, print)

          has : HasWorkers parts agents m'
          has r there =
              let found =
                desired_agents-Has agents [] (same_key-Distinct agents plain keys) there in
              let (h, was) =
                s.3 (worker_key r, r) (of_agents.visits wished (worker_key r) r found) in
              let (r', found', print) = s.1 (worker_key r) h was in
              (h, was, print ∙ ap (worker_fingerprint parts) (some-eq-some (sym found' ∙ found)))

      pub sync_agents-Synced :
          AllTracked m
          → Ends
              (λ _. Synced)
              (λ e m'. AllTracked m' × NotBuilt parts agents e)
              (sync_agents parts of_workers of_agents agents m)
      sync_agents-Synced t =
          Ends-map (sync_agents parts of_workers of_agents agents m) (λ _. Started-Synced)
            (λ e m' f. f) (sync_agents-Started t)
