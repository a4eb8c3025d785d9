-- ===== src/Server/Workers/Started.antt =====
-- pkg/server/runtime_manager.go: the loop of `SyncOnce` that starts the missing workers.
use swarmd.Prelude.{
  subst, length, ◌≡◌, refl, sym, ap, ◌∙◌, inl, inr, String, Bool, true, false, List, [], ◌∷◌, some,
  none, ◌==◌, eq_iff, Has, Bool-cases, Option-cases, arith, some-eq-some, ok, err,
}
use swarmd.Prelude.Maps.{Map, lookup, put, lookup-put, lookup-put_self, lookup-put_new}
use swarmd.Prelude.Outcomes.{Outcome, Ends, and_then, Ends-and_then, Ends-map}
use swarmd.Agent.Types.{GoError}
use swarmd.Server.Workers.{
  RunnableAgent, WorkerHandle, RuntimeManager, Parts, worker_key, worker_fingerprint, has_worker,
  launch, build, start_worker, start_missing, beyond,
}
use swarmd.Server.Workers.Retired.{AllTracked}

module _ {W D C H F R : Type 0} (parts : Parts W D C H F R) (desired : Map RunnableAgent) where
  -- Every worker of the map works for an agent that is to run, as that agent is now.
  abbrev pub AllCurrent : RuntimeManager W → Type 0
  AllCurrent m =
      (k : String) (h : WorkerHandle)
      → lookup k m.workers ≡ some h
      → (r : RunnableAgent) × (lookup k desired ≡ some r)
        × (h.fingerprint ≡ worker_fingerprint parts r)

  -- No worker of the one state is stopped or replaced in the other.
  abbrev pub KeepsWorkers : RuntimeManager W → RuntimeManager W → Type 0
  KeepsWorkers m m' =
      (k : String) (h : WorkerHandle) → lookup k m.workers ≡ some h → lookup k m'.workers ≡ some h

  module _ (r : RunnableAgent) (m : RuntimeManager W) where
    pub start_worker-Ends :
        (P : RuntimeManager W → Type 0) (Q : GoError → RuntimeManager W → Type 0)
        → ((w : W) → P (launch parts r (record m { outside = w })))
        → ((e : GoError) (w : W)
            → (build parts r m.outside).0 ≡ err e
            → Q e (record m { outside = w }))
        → Ends (λ _. P) Q (start_worker parts r m)
    unfolding start_worker
    start_worker-Ends P Q p q = built (build parts r m.outside) q
      where
        built :
            (o : Outcome GoError W R)
            → ((e : GoError) (w : W) → o.0 ≡ err e → Q e (record m { outside = w }))
            → Ends
                (λ (_ : Unit {0}). P)
                Q
                (and_then (beyond m o) (λ _ m. (ok tt, launch parts r m)))
        built (ok a, w) q = p w
        built (err e, w) q = q e w refl

    launched_by : WorkerHandle
    launched_by = record {
      id = length m.launched;
      key = worker_key r;
      fingerprint = worker_fingerprint parts r;
    }

    pub launch-AllTracked :
        lookup (worker_key r) m.workers ≡ none → AllTracked m → AllTracked (launch parts r m)
    unfolding launch launched_by
    launch-AllTracked fresh t h (inl e) =
        inl (rw e (lookup-put_self (worker_key r) (launched_by) m.workers))
    launch-AllTracked fresh t h (inr old) = elim (t h old) [
      | inl there ↦ inl (lookup-put_new (worker_key r) h.key (launched_by) h m.workers fresh there)
      | inr settled ↦ inr settled
    ]

    pub launch-KeepsWorkers :
        lookup (worker_key r) m.workers ≡ none → KeepsWorkers m (launch parts r m)
    unfolding launch launched_by
    launch-KeepsWorkers fresh k h there =
        lookup-put_new (worker_key r) k (launched_by) h m.workers fresh there

    pub launch-AllCurrent :
        lookup (worker_key r) desired ≡ some r → AllCurrent m → AllCurrent (launch parts r m)
    unfolding launch launched_by
    launch-AllCurrent known c k h there = elim (Bool-cases (worker_key r == k)) [
      | inl t ↦
          let key : worker_key r ≡ k = (eq_iff (worker_key r) k).0 t in
          let same : launched_by ≡ h = some-eq-some (
            sym (lookup-put_self k launched_by m.workers)
            ∙ ap (λ x. lookup k (put x launched_by m.workers)) (sym key)
            ∙ there) in
          (r, ap (λ x. lookup x desired) (sym key) ∙ known, ap (λ x. x.fingerprint) (sym same))
      | inr f ↦ c k h (ground (arith, f, lookup-put (worker_key r) k launched_by m.workers))
    ]

    launch-HasWorker :
        (k : String)
        → worker_key r ≡ k
        → (h : WorkerHandle) × (lookup k (launch parts r m).workers ≡ some h)
    unfolding launch launched_by
    launch-HasWorker k e = (
      launched_by,
      ap (λ x. lookup k (put x launched_by m.workers)) e ∙ lookup-put_self k launched_by m.workers,
    )

  abbrev Wanted : List (String × RunnableAgent) → Type 0
  Wanted es =
      (e : String × RunnableAgent)
      → Has e es
      → (lookup e.0 desired ≡ some e.1) × (worker_key e.1 ≡ e.0)

  abbrev HasWorker : RuntimeManager W → String × RunnableAgent → Type 0
  HasWorker m e = (h : WorkerHandle) × (lookup e.0 m.workers ≡ some h)

  -- What the second loop leaves, given what it found.
  abbrev pub Started : RuntimeManager W → List (String × RunnableAgent) → RuntimeManager W → Type 0
  Started m es m' =
      AllTracked m'
      × AllCurrent m'
      × KeepsWorkers m m'
      × ((e : String × RunnableAgent) → Has e es → HasWorker m' e)

  -- A worker for one of the entries could not be built.
  abbrev pub Failed : List (String × RunnableAgent) → GoError → RuntimeManager W → Type 0
  Failed es e m =
      AllTracked m
      × ((f : String × RunnableAgent) × Has f es × (w : W) × ((build parts f.1 w).0 ≡ err e))

  module _ (r : RunnableAgent) (k : String) (m : RuntimeManager W) where
    -- A key without a worker of the agent's fingerprint has no worker at all.
    has_worker-none :
        lookup k desired ≡ some r
        → AllCurrent m
        → has_worker k (worker_fingerprint parts r) m ≡ false
        → lookup k m.workers ≡ none
    unfolding has_worker
    has_worker-none known c f = elim (Option-cases (lookup k m.workers)) [
      | inl e ↦ e
      | inr (h, e) ↦
          let (s, found, print) = c k h e in
          let same : r ≡ s = some-eq-some (sym known ∙ found) in
          absurd (
            clash
              ((eq_iff h.fingerprint (worker_fingerprint parts r)).1
                (print ∙ ap (worker_fingerprint parts) (sym same)))
              (rw (e, has_worker) at f))
    ]
      where
        clash : {b : Bool} → b ≡ true → b ≡ false → ⊥
        clash p q = cc

    has_worker-some :
        has_worker k (worker_fingerprint parts r) m ≡ true
        → (h : WorkerHandle) × (lookup k m.workers ≡ some h)
    unfolding has_worker
    has_worker-some t = elim (Option-cases (lookup k m.workers)) [
      | inl e ↦ absurd (clash (rw (e, has_worker) at t))
      | inr found ↦ found
    ]
      where
        clash : false ≡ true → ⊥
        clash q = cc

  module _ (e : String × RunnableAgent) (es : List (String × RunnableAgent))
      (m : RuntimeManager W) where
    start_missing-skip :
        has_worker e.0 (worker_fingerprint parts e.1) m ≡ true
        → start_missing parts (e ∷ es) m ≡ start_missing parts es m
    unfolding start_missing
    start_missing-skip b = rw (b, start_missing)

    start_missing-start :
        has_worker e.0 (worker_fingerprint parts e.1) m ≡ false
        → start_missing parts (e ∷ es) m
          ≡ and_then (start_worker parts e.1 m) (λ _. start_missing parts es)
    unfolding start_missing
    start_missing-start b = rw (b, start_missing)

  -- What the first turn of the loop leaves.
  abbrev StartedOne : String × RunnableAgent → RuntimeManager W → RuntimeManager W → Type 0
  StartedOne e m m' = AllTracked m' × AllCurrent m' × KeepsWorkers m m' × HasWorker m' e

  start_worker-StartedOne :
      (e : String × RunnableAgent) (es : List (String × RunnableAgent)) (m : RuntimeManager W)
      → (lookup e.0 desired ≡ some e.1) × (worker_key e.1 ≡ e.0)
      → AllTracked m
      → AllCurrent m
      → lookup e.0 m.workers ≡ none
      → Ends (λ _. StartedOne e m) (Failed (e ∷ es)) (start_worker parts e.1 m)
  start_worker-StartedOne e es m (known, key) t c none_yet =
      let fresh : lookup (worker_key e.1) m.workers ≡ none =
        ap (λ x. lookup x m.workers) key ∙ none_yet in
      start_worker-Ends e.1 m (StartedOne e m) (Failed (e ∷ es))
        (λ w.
          let m₀ : RuntimeManager W = record m { outside = w } in
          (
            launch-AllTracked e.1 m₀ fresh t,
            launch-AllCurrent e.1 m₀ (ap (λ x. lookup x desired) key ∙ known) c,
            launch-KeepsWorkers e.1 m₀ fresh,
            launch-HasWorker e.1 m₀ e.0 key,
          ))
        (λ x w q. (t, (e, inl refl, m.outside, q)))

  module _ (e : String × RunnableAgent) (es : List (String × RunnableAgent)) where
    Started-cons :
        (m m₁ m' : RuntimeManager W)
        → HasWorker m₁ e
        → KeepsWorkers m m₁
        → Started m₁ es m'
        → Started m (e ∷ es) m'
    Started-cons m m₁ m' (h, there) keeps s = (s.0, s.1, λ k h was. s.2 k h (keeps k h was), covers)
      where
        covers : (f : String × RunnableAgent) → Has f (e ∷ es) → HasWorker m' f
        covers f (inl q) = (h, ap (λ x. lookup x.0 m'.workers) q ∙ s.2 e.0 h there)
        covers f (inr q) = s.3 f q

    Failed-cons : (x : GoError) (m : RuntimeManager W) → Failed es x m → Failed (e ∷ es) x m
    Failed-cons x m (t, (f, h, w, q)) = (t, (f, inr h, w, q))

  -- The loop gives every entry a worker and stops none, or it stops where one cannot be built.
  pub start_missing-Started :
      (es : List (String × RunnableAgent)) (m : RuntimeManager W)
      → Wanted es
      → AllTracked m
      → AllCurrent m
      → Ends (λ _. Started m es) (Failed es) (start_missing parts es m)
  unfolding start_missing
  start_missing-Started [] m wanted t c = (t, c, λ k h there. there, λ e h. elim h [ ])
  start_missing-Started (e ∷ es) m wanted t c =
      elim (Bool-cases (has_worker e.0 (worker_fingerprint parts e.1) m)) [
        | inl b ↦
            subst (Ends (λ _. Started m (e ∷ es)) (Failed (e ∷ es)))
              (sym (start_missing-skip e es m b))
              (Ends-map (start_missing parts es m)
                (λ _ m'.
                  Started-cons e es m m m' (has_worker-some e.1 e.0 m b) (λ k h there. there))
                (Failed-cons e es) (start_missing-Started es m (λ f h. wanted f (inr h)) t c))
        | inr b ↦
            subst (Ends (λ _. Started m (e ∷ es)) (Failed (e ∷ es)))
              (sym (start_missing-start e es m b))
              (Ends-and_then (λ _. StartedOne e m) (Failed (e ∷ es)) (λ _. Started m (e ∷ es))
                (start_worker parts e.1 m) (λ _. start_missing parts es)
                (start_worker-StartedOne e es m (wanted e (inl refl)) t c
                  (has_worker-none e.1 e.0 m (wanted e (inl refl)).0 c b))
                (λ _ m₁ s.
                  Ends-map (start_missing parts es m₁) (λ _ m'. Started-cons e es m m₁ m' s.3 s.2)
                    (Failed-cons e es)
                    (start_missing-Started es m₁ (λ f h. wanted f (inr h)) s.0 s.1)))
      ]
