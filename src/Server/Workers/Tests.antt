-- ===== src/Server/Workers/Tests.antt =====
-- pkg/server/runtime_manager.go: two agents, of which one is changed and one is stopped.
use swarmd.Prelude.{ℕ, ◌+◌, ◌≡◌, refl, inl, inr, String, true, false, List, [], ◌∷◌, map, All, ok}
use swarmd.Prelude.Maps.{lookup, put, remove, entries, newest_first}
use swarmd.Prelude.Outcomes.{Ends, pure}
use swarmd.Agent.Types.{GoError}
use swarmd.Server.Workers.{
  RunnableAgent, WorkerHandle, RuntimeManager, Parts, worker_key, worker_fingerprint, reap_workers,
  reap, sync_agents, desired_agents, retire_stale, retire, is_stale, start_missing, has_worker,
  start_worker, build, launch, serve, stop_all, end_worker, sync_once, new_manager, ServeEvent,
  tick, ctx_done, worker_ends, run,
}
use swarmd.Server.Workers.Keys.{HasPlainId, has_colon}
use swarmd.Server.Workers.Retired.{AllTracked}
use swarmd.Server.Workers.Synced.{Synced, NotBuilt}
use swarmd.Server.Workers.Synced.Once.{sync_once-Synced}
use swarmd.Server.Workers.Settled.{AllSettled, run-AllSettled}

abbrev agent : String → String → RunnableAgent
agent name prompt = record {
  namespace_id = "team:a";
  id = name;
  root_path = "/srv";
  model_provider = "";
  model_name = "m";
  model_base_url = "";
  max_steps = 3;
  step_timeout = 5000000;
  max_output_bytes = 100;
  lease_duration = 0;
  config_json = "{}";
  current_prompt_version_id = prompt;
  updated_at = 7000000;
  system_prompt = "";
}

abbrev ann : RunnableAgent
ann = agent "ann" "p2"

-- Everything can be built, and the store has Ann only.
abbrev host : Parts ℕ String String String String String
host = record {
  list_runnable_agents = λ n. (ok (ann ∷ []), n + 1);
  env_hash = λ _. "";
  new_worker_driver = λ r. pure r.model_name;
  load_config = λ c. pure c;
  resolve_http_headers = λ _. pure "";
  filesystem_kind = λ _. "disk";
  new_disk = λ root. pure root;
  new_memory = λ root. pure root;
  sweep_spill_dirs = λ _. pure tt;
  materialize_mounts = λ _ _. pure tt;
  new_runtime = λ r _ _ _ _. pure r.id;
  quote = λ s. s;
}

abbrev ids_of : RuntimeManager ℕ → List ℕ
ids_of m = map (λ h. h.id) m.launched

abbrev handle : ℕ → String → WorkerHandle
handle n key = record { id = n; key = key; fingerprint = "old" }

-- Ann and Bob have workers of before.
abbrev two_workers : RuntimeManager ℕ
two_workers = record {
  workers = ("team:a:ann", handle 0 "team:a:ann") ∷ ("team:a:bob", handle 1 "team:a:bob") ∷ [];
  launched = handle 1 "team:a:bob" ∷ handle 0 "team:a:ann" ∷ [];
  cancelled = [];
  ended = [];
  outside = 0;
}

two_workers-AllTracked : AllTracked two_workers
unfolding lookup
two_workers-AllTracked h (inl e) = rw e (inl refl)
two_workers-AllTracked h (inr (inl e)) = rw e (inl refl)
two_workers-AllTracked h (inr (inr none_left)) = elim none_left [ ]

-- Ann is given a new worker, and the old ones are cancelled.
replaced :
    (ids_of (sync_once host newest_first newest_first two_workers).1 ≡ 2 ∷ 1 ∷ 0 ∷ [])
    × ((sync_once host newest_first newest_first two_workers).1.cancelled ≡ 1 ∷ 0 ∷ [])
unfolding sync_once reap_workers reap sync_agents desired_agents retire_stale retire is_stale
    start_missing has_worker start_worker build launch worker_key worker_fingerprint lookup put
    remove newest_first entries
replaced = (refl, refl)

sync_once-Synced_example :
    Ends
      (λ _. Synced host newest_first newest_first (ann ∷ []) two_workers)
      (λ e _. NotBuilt host (ann ∷ []) e)
      (sync_once host newest_first newest_first two_workers)
unfolding has_colon
sync_once-Synced_example =
    sync_once-Synced host newest_first newest_first two_workers (ann ∷ []) two_workers-AllTracked
      listed plain (refl, tt)
  where
    listed : host.list_runnable_agents two_workers.outside ≡ (ok (ann ∷ []), 1)
    listed = refl

    plain : All HasPlainId (ann ∷ [])
    plain = (refl, tt)

abbrev stop : GoError
stop = record {
  message = "context canceled";
  is_canceled = true;
  is_deadline_exceeded = false;
  is_timeout = false;
}

abbrev events : List ServeEvent
events = worker_ends 0 ∷ tick ∷ ctx_done stop ∷ []

run-AllSettled_example :
    Ends
      (λ _. AllTracked)
      (λ _. AllSettled)
      (run host newest_first newest_first events (new_manager 0))
run-AllSettled_example = run-AllSettled host newest_first newest_first events 0

run_stops : (run host newest_first newest_first events (new_manager 0)).1.cancelled ≡ 1 ∷ []
unfolding run serve new_manager stop_all end_worker sync_once reap_workers reap sync_agents
    desired_agents retire_stale retire is_stale start_missing has_worker start_worker build launch
    worker_key worker_fingerprint lookup put remove newest_first entries
run_stops = refl
