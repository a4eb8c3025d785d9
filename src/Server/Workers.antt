-- ===== src/Server/Workers.antt =====
-- pkg/server/runtime_manager.go: the goroutines that work for the agents of the store.
pub mod Keys
mod Retired
mod Started
pub mod Synced
pub mod Settled
mod Tests
use swarmd.Prelude.{
  ℕ, ◌/◌, String, Bool, true, false, not, List, [], ◌∷◌, ◌++◌, Option, none, some, map, ◌==◌,
  if◌then◌else◌, eqb, ltb, any, length, Result, ok, err,
}
use swarmd.Prelude.Maps.{Map, Range, lookup, put, remove}
use swarmd.Prelude.Outcomes.{Call, Outcome, ◌>>=◌, ◌>>◌, and_then, stop}
use swarmd.Tools.Lines.{concat}
use swarmd.Tools.ApplyPatch.Files.{decimal}
use swarmd.Agent.Types.{GoError}
use swarmd.Agent.Decisions.{plain_error}

-- The fields that the manager reads. Times and durations are in nanoseconds.
pub record RunnableAgent : Type 0 where
  pub namespace_id : String
  pub id : String
  pub root_path : String
  pub model_provider : String
  pub model_name : String
  pub model_base_url : String
  pub max_steps : ℕ
  pub step_timeout : ℕ
  pub max_output_bytes : ℕ
  pub lease_duration : ℕ
  pub config_json : String
  pub current_prompt_version_id : String
  pub updated_at : ℕ
  pub system_prompt : String

-- `id` stands for the pointer: the goroutines are numbered as they are started.
pub record WorkerHandle : Type 0 where
  pub id : ℕ
  pub key : String
  pub fingerprint : String

-- `launched` holds every goroutine of the past, `cancelled` those whose context is cancelled, and
-- `ended` those that have sent on `done`. `outside` is what is not the manager's.
pub record RuntimeManager (W : Type 0) : Type 0 where
  pub workers : Map WorkerHandle
  pub launched : List WorkerHandle
  pub cancelled : List ℕ
  pub ended : List ℕ
  pub outside : W

-- What a worker is made of, with the store's query and the hash of the environment that a
-- configuration reads.
pub record Parts (W Driver Config Headers Files Runtime : Type 0) : Type 0 where
  pub list_runnable_agents : Call GoError W (List RunnableAgent)
  pub env_hash : String → String
  pub new_worker_driver : RunnableAgent → Call GoError W Driver
  pub load_config : String → Call GoError W Config
  pub resolve_http_headers : Config → Call GoError W Headers
  pub filesystem_kind : Config → String
  pub new_disk : String → Call GoError W Files
  pub new_memory : String → Call GoError W Files
  pub sweep_spill_dirs : Files → Call GoError W (Unit {0})
  pub materialize_mounts : Files → Config → Call GoError W (Unit {0})
  pub new_runtime : RunnableAgent → Driver → Config → Headers → Files → Call GoError W Runtime
  pub quote : String → String

-- `workerKey`
unfoldable pub worker_key : RunnableAgent → String
worker_key r = concat r.namespace_id (concat ":" r.id)

abbrev millis : ℕ → String
millis t = decimal (t / 1000000)

with_bars : String → List String → String
with_bars s [] = s
with_bars s (t ∷ ts) = concat s (concat "|" (with_bars t ts))

abbrev pub is_id : ℕ → List ℕ → Bool
is_id n ns = any (eqb n) ns

-- `fmt.Errorf("… for worker %q/%q: %w", …)`
abbrev for_worker : (String → String) → String → RunnableAgent → GoError → GoError
for_worker quote doing r e = record {
  message = concat doing (
      concat " for worker "
        (concat (quote r.namespace_id) (concat "/" (concat (quote r.id) (concat ": " e.message)))));
  is_canceled = e.is_canceled;
  is_deadline_exceeded = e.is_deadline_exceeded;
  is_timeout = false;
}

abbrev named : {W A : Type 0} → (GoError → GoError) → Call GoError W A → Call GoError W A
named wrap c s = relabel wrap (c s)
  where
    relabel : {W A : Type 0} → (GoError → GoError) → Outcome GoError W A → Outcome GoError W A
    relabel wrap (ok a, s) = (ok a, s)
    relabel wrap (err e, s) = (err (wrap e), s)

abbrev beyond :
    {W A : Type 0} → RuntimeManager W → Outcome GoError W A → Outcome GoError (RuntimeManager W) A
beyond m (r, w) = (r, record m { outside = w })

module _ {W D C H F R : Type 0} (parts : Parts W D C H F R) where
  -- `workerFingerprintWithEnv`
  unfoldable pub worker_fingerprint : RunnableAgent → String
  unfolding with_bars
  worker_fingerprint r = with_bars r.current_prompt_version_id (
      r.root_path
      ∷ r.model_provider
      ∷ r.model_name
      ∷ millis r.updated_at
      ∷ decimal r.max_steps
      ∷ millis r.step_timeout
      ∷ decimal r.max_output_bytes
      ∷ millis r.lease_duration
      ∷ r.model_base_url
      ∷ r.system_prompt
      ∷ r.config_json
      ∷ parts.env_hash r.config_json
      ∷ [])

  file_system : String → String → Call GoError W F
  file_system kind root =
      if kind == "disk"
      then parts.new_disk root
      else if kind == "memory"
      then parts.new_memory root
      else stop (plain_error (concat "unsupported filesystem kind " (parts.quote kind)))

  -- The first half of `startWorker`: what has to be built before the goroutine is started.
  unfoldable pub build : RunnableAgent → Call GoError W R
  unfolding file_system
  build r =
      let failed = λ (doing : String). for_worker parts.quote doing r in
      do
        driver ← named (failed "create driver") (parts.new_worker_driver r)
        config ← named (failed "decode managed config") (parts.load_config r.config_json)
        headers ← named (failed "resolve HTTP headers") (parts.resolve_http_headers config)
        let kind = parts.filesystem_kind config
        fsys ←
            named (failed (concat "construct " (concat kind " filesystem")))
              (file_system kind r.root_path)
        named (failed "sweep stale spill directories") (parts.sweep_spill_dirs fsys)
        named (failed "apply mounts") (parts.materialize_mounts fsys config)
        named (failed "construct runtime") (parts.new_runtime r driver config headers fsys)

  -- The second half: `m.workers[key] = handle` and `go`.
  unfoldable pub launch : RunnableAgent → RuntimeManager W → RuntimeManager W
  launch r m =
      let handle : WorkerHandle = record {
        id = length m.launched;
        key = worker_key r;
        fingerprint = worker_fingerprint r;
      } in
      record m { workers = put handle.key handle m.workers; launched = handle ∷ m.launched }

  unfoldable pub start_worker : RunnableAgent → Call GoError (RuntimeManager W) (Unit {0})
  start_worker r m = and_then (beyond m (build r m.outside)) (λ _ m. (ok tt, launch r m))

module _ {W : Type 0} where
  unfoldable pub has_worker : String → String → RuntimeManager W → Bool
  has_worker key fingerprint m = elim (lookup key m.workers) [
    | none ↦ false
    | some handle ↦ handle.fingerprint == fingerprint
  ]

  -- `delete(m.workers, key)` for those whose goroutine has ended.
  unfoldable pub reap : List (String × WorkerHandle) → RuntimeManager W → RuntimeManager W
  reap [] m = m
  reap (e ∷ es) m =
      reap es (if is_id e.1.id m.ended then record m { workers = remove e.0 m.workers } else m)

  -- `handle.cancel()` and `delete(m.workers, key)`
  unfoldable pub retire : String × WorkerHandle → RuntimeManager W → RuntimeManager W
  retire e m = record m { workers = remove e.0 m.workers; cancelled = e.1.id ∷ m.cancelled }

  -- `handle.cancel()` for each, after the map is emptied, and then `<-handle.done` for each.
  pub cancel_all : List (String × WorkerHandle) → RuntimeManager W → RuntimeManager W
  cancel_all [] m = m
  cancel_all (e ∷ es) m = cancel_all es (record m { cancelled = e.1.id ∷ m.cancelled })

  pub await_all : List (String × WorkerHandle) → RuntimeManager W → RuntimeManager W
  await_all [] m = m
  await_all (e ∷ es) m = await_all es (record m { ended = e.1.id ∷ m.ended })

  -- A goroutine that has been started ends, and sends on its channel.
  unfoldable pub end_worker : ℕ → RuntimeManager W → RuntimeManager W
  end_worker n m = if ltb n (length m.launched) then record m { ended = n ∷ m.ended } else m

-- `&RuntimeManager{…}`, before `Run`.
unfoldable pub new_manager : {W : Type 0} → W → RuntimeManager W
new_manager w = record { workers = []; launched = []; cancelled = []; ended = []; outside = w }

-- `desired`
unfoldable pub desired_agents : List RunnableAgent → Map RunnableAgent → Map RunnableAgent
desired_agents [] m = m
desired_agents (r ∷ rs) m = desired_agents rs (put (worker_key r) r m)

module _ {W D C H F R : Type 0} (parts : Parts W D C H F R) where
  -- Whether no agent, or an agent of another fingerprint, has the worker's key.
  unfoldable pub is_stale : Map RunnableAgent → String × WorkerHandle → Bool
  is_stale desired e = elim (lookup e.0 desired) [
    | none ↦ true
    | some agent ↦ not (worker_fingerprint parts agent == e.1.fingerprint)
  ]

  unfoldable pub retire_stale :
      Map RunnableAgent → List (String × WorkerHandle) → RuntimeManager W → RuntimeManager W
  retire_stale desired [] m = m
  retire_stale desired (e ∷ es) m =
      retire_stale desired es (if is_stale desired e then retire e m else m)

  unfoldable pub start_missing :
      List (String × RunnableAgent) → Call GoError (RuntimeManager W) (Unit {0})
  start_missing [] m = (ok tt, m)
  start_missing (e ∷ es) m = elim (has_worker e.0 (worker_fingerprint parts e.1) m) [
    | true ↦ start_missing es m
    | false ↦ and_then (start_worker parts e.1 m) (λ _. start_missing es)
  ]

-- What `Run` waits for: its ticker or its context, and beside it goroutines end.
pub data ServeEvent : Type 0 where
  tick : ServeEvent
  ctx_done : GoError → ServeEvent
  worker_ends : ℕ → ServeEvent

-- `of_workers` and `of_agents` are the orders in which the two maps are visited.
module _ {W D C H F R : Type 0} (parts : Parts W D C H F R) (of_workers : Range WorkerHandle)
    (of_agents : Range RunnableAgent) where
  unfoldable pub reap_workers : RuntimeManager W → RuntimeManager W
  reap_workers m = reap (of_workers.order m.workers) m

  unfoldable pub sync_agents : List RunnableAgent → Call GoError (RuntimeManager W) (Unit {0})
  sync_agents agents m =
      let desired = desired_agents agents [] in
      start_missing parts (of_agents.order desired)
        (retire_stale parts desired (of_workers.order m.workers) m)

  -- `SyncOnce`
  unfoldable pub sync_once : Call GoError (RuntimeManager W) (Unit {0})
  sync_once m =
      let reaped = reap_workers m in
      and_then (beyond reaped (parts.list_runnable_agents reaped.outside)) sync_agents

  unfoldable pub stop_all : RuntimeManager W → RuntimeManager W
  unfolding cancel_all await_all
  stop_all m =
      let handles = of_workers.order m.workers in
      await_all handles (cancel_all handles (record m { workers = [] }))

  -- The loop of `Run` over what happens to it.
  unfoldable pub serve : List ServeEvent → Call GoError (RuntimeManager W) (Unit {0})
  serve [] m = (ok tt, m)
  serve (ctx_done e ∷ es) m = (err e, m)
  serve (worker_ends n ∷ es) m = serve es (end_worker n m)
  serve (tick ∷ es) m = and_then (sync_once m) (λ _. serve es)

  abbrev pub stopped :
      Outcome GoError (RuntimeManager W) (Unit {0}) → Outcome GoError (RuntimeManager W) (Unit {0})
  stopped (ok u, m) = (ok u, m)
  stopped (err e, m) = (err e, stop_all m)

  -- `Run`: what it has done after some events. It returns only with an error.
  unfoldable pub run : List ServeEvent → Call GoError (RuntimeManager W) (Unit {0})
  run es m = stopped (and_then (sync_once m) (λ _. serve es))
