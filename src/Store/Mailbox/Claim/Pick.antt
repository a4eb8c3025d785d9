-- ===== src/Store/Mailbox/Claim/Pick.antt =====
-- Which row a claim finds: the SELECT of pkg/server/store/mailbox.go.
use swarmd.Prelude.{
  ℕ, ◌≡◌, refl, sym, subst, true, false, List, [], ◌∷◌, none, some, inl, inr, Has, select,
  select-Has, Has-select, arith, ok, Bool-cases, Option-cases, some-eq-some, if◌then◌else◌, if_true,
  if_false, refuse->>, or_err-eq-ok,
}
use swarmd.Store.Tables.{query, MessageRow, Db, Env}
use swarmd.Store.Types.{ClaimMessageParams}
use swarmd.Store.Envelope.{to_millis}
use swarmd.Store.Mailbox.Claim.{is_before, earliest, is_claimable, claim_candidate}

-- `r` is in the list, and no row of it stands before `r`.
abbrev pub IsFirst : MessageRow → List MessageRow → Type 0
IsFirst r rows = Has r rows × ((s : MessageRow) → Has s rows → is_before s r ≡ false)

is_before_trans :
    (r s t : MessageRow) → is_before r s ≡ false → is_before s t ≡ false → is_before r t ≡ false
is_before_trans r s t p q = ground arith

is_before_asym : (r s : MessageRow) → is_before r s ≡ true → is_before s r ≡ false
is_before_asym r s p = ground arith

IsFirst-one : (x : MessageRow) → IsFirst x (x ∷ [])
IsFirst-one x = (inl refl, λ s m. one s m)
  where
    one : (s : MessageRow) → Has s (x ∷ []) → is_before s x ≡ false
    one s (inl e) = rw e (ground arith)
    one s (inr m) = elim m [ ]

IsFirst-cons :
    (x m : MessageRow) (xs : List MessageRow)
    → IsFirst m xs
    → IsFirst (if is_before m x then m else x) (x ∷ xs)
IsFirst-cons x m xs h = elim (Bool-cases (is_before m x)) [
  | inl t ↦ subst (λ q. IsFirst q (x ∷ xs)) (sym (if_true m x t)) (inr h.0, λ s old. sooner s t old)
  | inr f ↦
      subst (λ q. IsFirst q (x ∷ xs)) (sym (if_false m x f)) (inl refl, λ s old. later s f old)
]
  where
    sooner : (s : MessageRow) → is_before m x ≡ true → Has s (x ∷ xs) → is_before s m ≡ false
    sooner s t (inl e) = rw e (is_before_asym m x t)
    sooner s t (inr old) = h.1 s old

    later : (s : MessageRow) → is_before m x ≡ false → Has s (x ∷ xs) → is_before s x ≡ false
    later s f (inl e) = rw e (ground arith)
    later s f (inr old) = is_before_trans s m x (h.1 s old) f

pub earliest-nil : (rows : List MessageRow) → earliest rows ≡ none → rows ≡ []
unfolding earliest
earliest-nil [] e = refl
earliest-nil (r ∷ rows) e = ground arith

pub earliest-IsFirst :
    (rows : List MessageRow) (r : MessageRow) → earliest rows ≡ some r → IsFirst r rows
unfolding earliest
earliest-IsFirst [] r e = cc
earliest-IsFirst (x ∷ xs) r e = elim (Option-cases (earliest xs)) [
  | inl n ↦ alone xs (earliest-nil xs n) (rw n at e)
  | inr (m, h) ↦
      subst (λ q. IsFirst q (x ∷ xs)) (some-eq-some (rw h at e))
        (IsFirst-cons x m xs (earliest-IsFirst xs m h))
]
  where
    alone : (ys : List MessageRow) → ys ≡ [] → some x ≡ some r → IsFirst r (x ∷ ys)
    alone ys e p =
        subst (λ zs. IsFirst r (x ∷ zs)) (sym e)
          (subst (λ q. IsFirst q (x ∷ [])) (some-eq-some p) (IsFirst-one x))

-- The row that a claim finds passes the test of the query and comes first among those that do.
pub claim_candidate-eq-ok :
    {V : Type 0} (env : Env V) (params : ClaimMessageParams) (now : ℕ) (db : Db) {r : MessageRow}
    → claim_candidate env params now db ≡ ok r
    → let hit = is_claimable params.namespace_id params.agent_id (to_millis now) in
      Has r db.messages
      × (hit r ≡ true)
      × ((s : MessageRow) → Has s db.messages → hit s ≡ true → is_before s r ≡ false)
unfolding claim_candidate
claim_candidate-eq-ok env params now db {r} h =
    let hit = is_claimable params.namespace_id params.agent_id (to_millis now) in
    let found =
      or_err-eq-ok _ (earliest (select hit db.messages)) (refuse->> _ (env.fails query) _ h).1 in
    let (m, least) = earliest-IsFirst (select hit db.messages) r found in
    let (old, t) = select-Has hit db.messages m in
    (old, t, λ s n p. least s (Has-select hit db.messages n p))
