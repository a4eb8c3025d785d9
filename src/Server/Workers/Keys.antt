-- ===== src/Server/Workers/Keys.antt =====
-- pkg/server/runtime_manager.go: the keys of the workers, and the map of the agents that are to run.
use swarmd.Prelude.{
  ◌≡◌, refl, sym, ap, ◌∙◌, ◌⊎◌, inl, inr, String, Bool, true, false, ◌&&◌, List, [], ◌∷◌, some,
  ◌==◌, eq_iff, if◌then◌else◌, eqb, any, All, Has, Distinct, Bool-cases, arith,
}
use Prim.Native.Char.{code}
use swarmd.Prelude.Maps.{Map, lookup, put, lookup-put}
use swarmd.Tools.Lines.{concat}
use swarmd.Server.Workers.{RunnableAgent, worker_key, desired_agents}

-- Whether a text has a colon.
unfoldable pub has_colon : String → Bool
has_colon String.[] = false
has_colon (String.◌∷◌ c s) = if eqb (code c) b':' then true else has_colon s

-- The primary key of the table of agents.
unfoldable pub same_agent : RunnableAgent → RunnableAgent → Bool
same_agent r s = (r.namespace_id == s.namespace_id) && (r.id == s.id)

abbrev pub same_key : RunnableAgent → RunnableAgent → Bool
same_key r s = worker_key r == worker_key s

abbrev pub HasPlainId : RunnableAgent → Type 0
HasPlainId r = has_colon r.id ≡ false

has_colon-concat : (s t : String) → has_colon (concat s (concat ":" t)) ≡ true
unfolding has_colon
has_colon-concat String.[] t = refl
has_colon-concat (String.◌∷◌ c s) t = ground (arith, has_colon-concat s t)

text_clash : {s t : String} → has_colon s ≡ false → has_colon t ≡ true → s ≡ t → ⊥
text_clash f t e = cc

-- A text is split at its last colon in one way.
last_colon :
    (n n' a a' : String)
    → has_colon a ≡ false
    → has_colon a' ≡ false
    → concat n (concat ":" a) ≡ concat n' (concat ":" a')
    → (n ≡ n') × (a ≡ a')
last_colon String.[] String.[] a a' f f' e = (refl, cc)
last_colon String.[] (String.◌∷◌ c n') a a' f f' e =
    absurd (text_clash f (has_colon-concat n' a') (cc))
last_colon (String.◌∷◌ c n) String.[] a a' f f' e =
    absurd (text_clash f' (has_colon-concat n a) (cc))
last_colon (String.◌∷◌ c n) (String.◌∷◌ c' n') a a' f f' e =
    let (same_n, same_a) = last_colon n n' a a' f f' (cc) in (cc, same_a)

-- No two agents of the table share a key if their identifiers have no colon.
pub worker_key-injective :
    (r s : RunnableAgent)
    → HasPlainId r
    → HasPlainId s
    → worker_key r ≡ worker_key s
    → same_agent r s ≡ true
unfolding worker_key same_agent
worker_key-injective r s f g e =
    let (n, a) = last_colon r.namespace_id s.namespace_id r.id s.id f g e in
    ground (arith, eq_iff r.namespace_id s.namespace_id, eq_iff r.id s.id)

-- The keys tell two agents apart exactly if the table does.
same_key-eq :
    (r s : RunnableAgent)
    → HasPlainId r
    → HasPlainId s
    → same_agent r s ≡ false
    → same_key r s ≡ false
same_key-eq r s f g h = elim (Bool-cases (same_key r s)) [
  | inl t ↦
      let same : same_agent r s ≡ true =
        worker_key-injective r s f g ((eq_iff (worker_key r) (worker_key s)).0 t) in
      cc
  | inr n ↦ n
]

no_same_key :
    (r : RunnableAgent) (rs : List RunnableAgent)
    → HasPlainId r
    → All HasPlainId rs
    → any (same_agent r) rs ≡ false
    → any (same_key r) rs ≡ false
no_same_key r [] f g h = refl
no_same_key r (s ∷ rs) f g h = ground (arith, same_key-eq r s f g.0, no_same_key r rs f g.1)

pub same_key-Distinct :
    (rs : List RunnableAgent) → All HasPlainId rs → Distinct same_agent rs → Distinct same_key rs
same_key-Distinct [] f d = tt
same_key-Distinct (r ∷ rs) f d = (no_same_key r rs f.0 f.1 d.0, same_key-Distinct rs f.1 d.1)

pub lookup-desired_agents :
    (k : String) (rs : List RunnableAgent) (m : Map RunnableAgent) {r : RunnableAgent}
    → lookup k (desired_agents rs m) ≡ some r
    → (Has r rs × (worker_key r ≡ k)) ⊎ (lookup k m ≡ some r)
unfolding desired_agents
lookup-desired_agents k [] m h = inr h
lookup-desired_agents k (s ∷ rs) m {r} h =
    elim (lookup-desired_agents k rs (put (worker_key s) s m) h) [
      | inl (there, key) ↦ inl (inr there, key)
      | inr found ↦ elim (Bool-cases (worker_key s == k)) [
        | inl t ↦
            let same : s ≡ r = ground (arith, lookup-put (worker_key s) k s m) in
            inl (inl (sym same), ap worker_key (sym same) ∙ (eq_iff (worker_key s) k).0 t)
        | inr f ↦ inr (ground (arith, lookup-put (worker_key s) k s m))
      ]
    ]

desired_agents-others :
    (r : RunnableAgent) (rs : List RunnableAgent) (m : Map RunnableAgent)
    → any (same_key r) rs ≡ false
    → lookup (worker_key r) (desired_agents rs m) ≡ lookup (worker_key r) m
unfolding desired_agents
desired_agents-others r [] m h = refl
desired_agents-others r (s ∷ rs) m h = ground (
  arith,
  desired_agents-others r rs (put (worker_key s) s m),
  lookup-put (worker_key s) (worker_key r) s m,
  eq_iff (worker_key s) (worker_key r),
  eq_iff (worker_key r) (worker_key s),
)

pub desired_agents-Has :
    (rs : List RunnableAgent) (m : Map RunnableAgent) {r : RunnableAgent}
    → Distinct same_key rs
    → Has r rs
    → lookup (worker_key r) (desired_agents rs m) ≡ some r
unfolding desired_agents
desired_agents-Has [] m d h = elim h [ ]
desired_agents-Has (s ∷ rs) m {r} d (inl e) = rw e (
    desired_agents-others s rs (put (worker_key s) s m) d.0
    ∙ lookup-put (worker_key s) (worker_key s) s m
    ∙ ground (arith, eq_iff (worker_key s) (worker_key s)))
desired_agents-Has (s ∷ rs) m d (inr h) = desired_agents-Has rs (put (worker_key s) s m) d.1 h
