-- ===== src/Server/Workers/Settled.antt =====
-- pkg/server/runtime_manager.go: when `Run` returns, none of its goroutines works on.
use swarmd.Prelude.{
  ℕ, ◌≡◌, refl, sym, ◌⊎◌, inl, inr, String, true, false, ◌||◌, List, [], ◌∷◌, ltb, length, Has,
  Bool-cases, arith, subst, ok, err,
}
use swarmd.Prelude.Maps.{Range}
use swarmd.Prelude.Outcomes.{Outcome, Ends, and_then, Ends-and_then}
use swarmd.Agent.Types.{GoError}
use swarmd.Server.Workers.{
  RunnableAgent, WorkerHandle, RuntimeManager, Parts, is_id, end_worker, cancel_all, await_all,
  stop_all, stopped, sync_once, ServeEvent, tick, ctx_done, worker_ends, serve, run, new_manager,
}
use swarmd.Server.Workers.Retired.{AllTracked, is_settled}
use swarmd.Server.Workers.Synced.Once.{sync_once-AllTracked}

ids : List (String × WorkerHandle) → List ℕ → List ℕ
ids [] ns = ns
ids (e ∷ es) ns = ids es (e.1.id ∷ ns)

ids-keeps :
    (es : List (String × WorkerHandle)) (ns : List ℕ) (n : ℕ)
    → is_id n ns ≡ true
    → is_id n (ids es ns) ≡ true
unfolding ids
ids-keeps [] ns n h = h
ids-keeps (e ∷ es) ns n h = ids-keeps es (e.1.id ∷ ns) n (ground arith)

ids-Has :
    (es : List (String × WorkerHandle)) (ns : List ℕ) (k : String) (h : WorkerHandle)
    → Has (k, h) es
    → is_id h.id (ids es ns) ≡ true
unfolding ids
ids-Has [] ns k h m = elim m [ ]
ids-Has (e ∷ es) ns k h (inl q) = ids-keeps es (e.1.id ∷ ns) h.id (
    subst (λ (x : String × WorkerHandle). is_id x.1.id (e.1.id ∷ ns) ≡ true) (sym q) (ground arith))
ids-Has (e ∷ es) ns k h (inr m) = ids-Has es (e.1.id ∷ ns) k h m

module _ {W : Type 0} where
  -- Every goroutine that was started is cancelled or has ended.
  abbrev pub AllSettled : RuntimeManager W → Type 0
  AllSettled m = (h : WorkerHandle) → Has h m.launched → is_settled h m ≡ true

  cancel_all-eq :
      (es : List (String × WorkerHandle)) (m : RuntimeManager W)
      → cancel_all es m ≡ record m { cancelled = ids es m.cancelled }
  unfolding cancel_all ids
  cancel_all-eq [] m = refl
  cancel_all-eq (e ∷ es) m = cancel_all-eq es (record m { cancelled = e.1.id ∷ m.cancelled })

  await_all-eq :
      (es : List (String × WorkerHandle)) (m : RuntimeManager W)
      → await_all es m ≡ record m { ended = ids es m.ended }
  unfolding await_all ids
  await_all-eq [] m = refl
  await_all-eq (e ∷ es) m = await_all-eq es (record m { ended = e.1.id ∷ m.ended })

  end_worker-AllTracked :
      (n : ℕ) (m : RuntimeManager W) → AllTracked m → AllTracked (end_worker n m)
  unfolding end_worker
  end_worker-AllTracked n m t = elim (Bool-cases (ltb n (length m.launched))) [
    | inl b ↦ rw b (λ h old. elim (t h old) [ inl there ↦ inl there | inr s ↦ inr (ground arith) ])
    | inr b ↦ rw b t
  ]

module _ {W D C H F R : Type 0} (parts : Parts W D C H F R) (of_workers : Range WorkerHandle)
    (of_agents : Range RunnableAgent) where
  stop_all-AllSettled :
      (m : RuntimeManager W) → AllTracked m → AllSettled (stop_all parts of_workers of_agents m)
  unfolding stop_all
  stop_all-AllSettled m t =
      let handles = of_workers.order m.workers in
      rw (cancel_all-eq handles (record m { workers = [] })) (
        rw (await_all-eq handles (record m { workers = []; cancelled = ids handles m.cancelled }))
          settled)
    where
      settled : AllSettled (record m {
        workers = [];
        cancelled = ids (of_workers.order m.workers) m.cancelled;
        ended = ids (of_workers.order m.workers) m.ended;
      })
      settled h old = elim (t h old) [
        | inl there ↦
            let gone =
              ids-Has (of_workers.order m.workers) m.cancelled h.key h
                (of_workers.visits m.workers h.key h there) in
            ground arith
        | inr s ↦ either (Bool-cases (is_id h.id m.cancelled)) s
      ]
        where
          either :
              (is_id h.id m.cancelled ≡ true) ⊎ (is_id h.id m.cancelled ≡ false)
              → is_settled h m ≡ true
              → (is_id h.id (ids (of_workers.order m.workers) m.cancelled)
                  || is_id h.id (ids (of_workers.order m.workers) m.ended))
                ≡ true
          either (inl c) s =
              let still = ids-keeps (of_workers.order m.workers) m.cancelled h.id c in ground arith
          either (inr c) s =
              let still = ids-keeps (of_workers.order m.workers) m.ended h.id (ground arith) in
              ground arith

  serve-AllTracked :
      (es : List ServeEvent) (m : RuntimeManager W)
      → AllTracked m
      → Ends (λ _. AllTracked) (λ _. AllTracked) (serve parts of_workers of_agents es m)
  unfolding serve
  serve-AllTracked [] m t = t
  serve-AllTracked (ctx_done e ∷ es) m t = t
  serve-AllTracked (worker_ends n ∷ es) m t =
      serve-AllTracked es (end_worker n m) (end_worker-AllTracked n m t)
  serve-AllTracked (tick ∷ es) m t =
      Ends-and_then (λ _. AllTracked) (λ _. AllTracked) (λ _. AllTracked)
        (sync_once parts of_workers of_agents m) (λ _. serve parts of_workers of_agents es)
        (sync_once-AllTracked parts of_workers of_agents m t) (λ _ m' t'. serve-AllTracked es m' t')

  -- A manager that starts with no workers never loses a goroutine: while it runs, each one that it
  -- started is in its map, or is cancelled, or has ended; when it returns, each one is cancelled or
  -- has ended. This holds whatever the store and the parts of a worker give, and whenever workers end.
  pub run-AllSettled :
      (es : List ServeEvent) (w : W)
      → Ends (λ _. AllTracked) (λ _. AllSettled) (run parts of_workers of_agents es (new_manager w))
  unfolding run new_manager
  run-AllSettled es w =
      finish
        (and_then (sync_once parts of_workers of_agents (new_manager w))
          (λ _. serve parts of_workers of_agents es))
        (Ends-and_then (λ _. AllTracked) (λ _. AllTracked) (λ _. AllTracked)
          (sync_once parts of_workers of_agents (new_manager w))
          (λ _. serve parts of_workers of_agents es)
          (sync_once-AllTracked parts of_workers of_agents (new_manager w) (λ h old. elim old [ ]))
          (λ _ m t. serve-AllTracked es m t))
    where
      finish :
          (o : Outcome GoError (RuntimeManager W) (Unit {0}))
          → Ends (λ _. AllTracked) (λ _. AllTracked) o
          → Ends (λ _. AllTracked) (λ _. AllSettled) (stopped parts of_workers of_agents o)
      finish (ok u, m) t = t
      finish (err e, m) t = stop_all-AllSettled m t
