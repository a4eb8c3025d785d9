-- ===== src/Server/Workers/Retired.antt =====
-- pkg/server/runtime_manager.go: the loops that take workers out of the map.
use swarmd.Prelude.{
  ℕ, ◌≡◌, refl, sym, ap, ◌∙◌, ◌⊎◌, inl, inr, String, Bool, true, false, not, ◌||◌, List, [], ◌∷◌,
  some, ◌==◌, eq_iff, if◌then◌else◌, Has, Bool-cases, Option-cases, arith,
}
use swarmd.Prelude.Maps.{Map, lookup, remove, remove_if}
use swarmd.Server.Workers.{
  RunnableAgent, WorkerHandle, RuntimeManager, Parts, worker_fingerprint, is_id, reap, retire,
  is_stale, retire_stale,
}

module _ {W : Type 0} where
  -- A goroutine that works on, or whose context is cancelled, or that has ended.
  abbrev pub is_settled : WorkerHandle → RuntimeManager W → Bool
  is_settled h m = is_id h.id m.cancelled || is_id h.id m.ended

  -- Every goroutine that was started is in the map, or is cancelled, or has ended.
  abbrev pub AllTracked : RuntimeManager W → Type 0
  AllTracked m =
      (h : WorkerHandle)
      → Has h m.launched
      → (lookup h.key m.workers ≡ some h) ⊎ (is_settled h m ≡ true)

  abbrev pub has_ended : RuntimeManager W → String × WorkerHandle → Bool
  has_ended m e = is_id e.1.id m.ended

  pub reap-eq :
      (es : List (String × WorkerHandle)) (m : RuntimeManager W)
      → reap es m ≡ record m { workers = remove_if (has_ended m) es m.workers }
  unfolding reap remove_if
  reap-eq [] m = refl
  reap-eq (e ∷ es) m = elim (Bool-cases (is_id e.1.id m.ended)) [
    | inl t ↦ rw t (reap-eq es (record m { workers = remove e.0 m.workers }))
    | inr f ↦ rw f (reap-eq es m)
  ]

module _ {W D C H F R : Type 0} (parts : Parts W D C H F R) (desired : Map RunnableAgent) where
  -- The goroutines that the first loop cancels.
  pub retired : List (String × WorkerHandle) → List ℕ → List ℕ
  retired [] ns = ns
  retired (e ∷ es) ns = retired es (if is_stale parts desired e then e.1.id ∷ ns else ns)

  pub retire_stale-eq :
      (es : List (String × WorkerHandle)) (m : RuntimeManager W)
      → retire_stale parts desired es m ≡ record m {
        workers = remove_if (is_stale parts desired) es m.workers;
        cancelled = retired es m.cancelled;
      }
  unfolding retire_stale retire remove_if retired
  retire_stale-eq [] m = refl
  retire_stale-eq (e ∷ es) m = elim (Bool-cases (is_stale parts desired e)) [
    | inl t ↦ rw t (retire_stale-eq es (retire e m))
    | inr f ↦ rw f (retire_stale-eq es m)
  ]

  pub retired-keeps :
      (es : List (String × WorkerHandle)) (ns : List ℕ) (n : ℕ)
      → is_id n ns ≡ true
      → is_id n (retired es ns) ≡ true
  unfolding retired
  retired-keeps [] ns n h = h
  retired-keeps (e ∷ es) ns n h = elim (Bool-cases (is_stale parts desired e)) [
    | inl t ↦ rw t (retired-keeps es (e.1.id ∷ ns) n (ground arith))
    | inr f ↦ rw f (retired-keeps es ns n h)
  ]

  pub retired-Has :
      (es : List (String × WorkerHandle)) (ns : List ℕ) (e : String × WorkerHandle)
      → Has e es
      → is_stale parts desired e ≡ true
      → is_id e.1.id (retired es ns) ≡ true
  unfolding retired
  retired-Has [] ns e h t = elim h [ ]
  retired-Has (f ∷ es) ns e (inl q) t =
      rw (ap (is_stale parts desired) (sym q) ∙ t)
        (retired-keeps es (f.1.id ∷ ns) e.1.id (rw q (ground arith)))
  retired-Has (f ∷ es) ns e (inr h) t =
      retired-Has es (if is_stale parts desired f then f.1.id ∷ ns else ns) e h t

  pub is_stale-current :
      (k : String) (h : WorkerHandle)
      → is_stale parts desired (k, h) ≡ false
      → (r : RunnableAgent) × (lookup k desired ≡ some r)
        × (h.fingerprint ≡ worker_fingerprint parts r)
  unfolding is_stale
  is_stale-current k h f = elim (Option-cases (lookup k desired)) [
    | inl e ↦ absurd (clash (rw (e, is_stale) at f))
    | inr (r, e) ↦
        let same : not (worker_fingerprint parts r == h.fingerprint) ≡ false =
          rw (e, is_stale) at f in
        (r, e, sym ((eq_iff (worker_fingerprint parts r) h.fingerprint).0 (ground arith)))
  ]
    where
      clash : true ≡ false → ⊥
      clash q = cc

  pub current-is_stale :
      (k : String) (h : WorkerHandle) (r : RunnableAgent)
      → lookup k desired ≡ some r
      → h.fingerprint ≡ worker_fingerprint parts r
      → is_stale parts desired (k, h) ≡ false
  unfolding is_stale
  current-is_stale k h r known e =
      rw (known, is_stale) (ap not ((eq_iff (worker_fingerprint parts r) h.fingerprint).1 (sym e)))
