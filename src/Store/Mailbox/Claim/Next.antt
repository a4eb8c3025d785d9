-- ===== src/Store/Mailbox/Claim/Next.antt =====
-- The loop of `ClaimNextMessage`: its first round decides.
use swarmd.Prelude.{
  ℕ, zero, suc, ◌≡◌, refl, sym, ap, ◌∙◌, false, ◌||◌, Option, none, some, inl, inr, Result, ok, err,
  if_false, if_true, Bool-cases, is_empty, subst, ok-eq-ok,
}
use swarmd.Store.Tables.{Db, Env, Outcome, transaction}
use swarmd.Store.Types.{ClaimMessageParams, ClaimedMailboxMessage, StoreError, no_available_message}
use swarmd.Store.Mailbox.Claim.{claim_attempt, claim_loop, claim_next_message, settle}
use swarmd.Store.Mailbox.Claim.Round.{IsClaim, claim_attempt-eq-ok}

module _ {V : Type 0} (env : Env V) (params : ClaimMessageParams) where
  -- How a round ends.
  data Round (k : ℕ) (db : Db)
      : Result StoreError (Option ClaimedMailboxMessage × Db) → Type 0 where
    won :
        (c : ClaimedMailboxMessage) (db' : Db)
        → IsClaim env params k db c db'
        → Round k db (ok (some c, db'))
    lost : (e : StoreError) → Round k db (err e)

  attempt-Round :
      (k : ℕ) (db : Db) (r : Result StoreError (Option ClaimedMailboxMessage × Db))
      → claim_attempt env params k db ≡ r
      → Round k db r
  attempt-Round k db (err e) h = lost e
  attempt-Round k db (ok (c, db')) h =
      let (claimed, same, claim) = claim_attempt-eq-ok env params k db h in
      subst (λ o. Round k db (ok (o, db'))) (sym same) (won claimed db' claim)

  -- What the loop returns after its first round.
  abbrev pub verdict :
      Db → Result StoreError (Option ClaimedMailboxMessage × Db) → Outcome ClaimedMailboxMessage
  verdict db (ok (some c, db')) = (ok c, db')
  verdict db (ok (none, db')) = (err no_available_message, db')
  verdict db (err e) = (err e, db)

  settle-Round :
      (k : ℕ) (db : Db) {r : Result StoreError (Option ClaimedMailboxMessage × Db)}
      (again : Db → Outcome ClaimedMailboxMessage)
      → Round k db r
      → settle (transaction db r) again ≡ verdict db r
  settle-Round k db again (won c db' claim) = refl
  settle-Round k db again (lost e) = refl

  pub claim_loop-verdict :
      (left k : ℕ) (db : Db)
      → claim_loop env params (suc left) k db ≡ verdict db (claim_attempt env params k db)
  unfolding claim_loop
  claim_loop-verdict left k db = settle-Round k db _ (attempt-Round k db _ refl)

  -- However many rounds are allowed, the loop of a claim ends in its first one: the UPDATE always
  -- affects the row that the SELECT of the same transaction found.
  pub claim_loop-one_round :
      (left k : ℕ) (db : Db) → claim_loop env params (suc left) k db ≡ claim_loop env params 1 k db
  claim_loop-one_round left k db = claim_loop-verdict left k db ∙ sym (claim_loop-verdict zero k db)

  verdict-eq-ok :
      (k : ℕ) (db : Db) {r : Result StoreError (Option ClaimedMailboxMessage × Db)}
      {c : ClaimedMailboxMessage} {db' : Db}
      → Round k db r
      → verdict db r ≡ (ok c, db')
      → IsClaim env params k db c db'
  verdict-eq-ok k db {db' = after} (won c' d claim) h =
      subst (λ x. IsClaim env params k db x after) (ok-eq-ok (ap (λ o. o.0) h))
        (subst (λ x. IsClaim env params k db c' x) (ap (λ o. o.1) h) claim)
  verdict-eq-ok k db (lost e) h = cc

  verdict-eq-err :
      (k : ℕ) (db : Db) {r : Result StoreError (Option ClaimedMailboxMessage × Db)} {e : StoreError}
      {db' : Db}
      → Round k db r
      → verdict db r ≡ (err e, db')
      → (db' ≡ db) × (r ≡ err e)
  verdict-eq-err k db (won c' d claim) h = cc
  verdict-eq-err k db (lost e) h = (sym (ap (λ o. o.1) h), cc)

  -- A claim that fails reports the failure of its first round.
  pub claim_next_message-eq-err :
      (db : Db) {e : StoreError}
      → (is_empty params.namespace_id || is_empty params.agent_id) ≡ false
      → (claim_next_message env params db).0 ≡ err e
      → claim_attempt env params 0 db ≡ err e
  unfolding claim_next_message
  claim_next_message-eq-err db named h =
      let loop = sym (claim_loop-verdict 7 0 db) ∙ sym (if_false _ _ named) in
      (verdict-eq-err 0 db (attempt-Round 0 db _ refl)
        (ap (λ o. (o, (verdict db (claim_attempt env params 0 db)).1)) (ap (λ o. o.0) loop ∙ h))).1

  -- The other way round.
  pub claim_next_message_of_err :
      (db : Db) {e : StoreError}
      → (is_empty params.namespace_id || is_empty params.agent_id) ≡ false
      → claim_attempt env params 0 db ≡ err e
      → (claim_next_message env params db).0 ≡ err e
  unfolding claim_next_message
  claim_next_message_of_err db named h =
      ap (λ o. o.0) (if_false _ _ named ∙ claim_loop-verdict 7 0 db ∙ ap (verdict db) h)

  -- A claim that returns a message has taken, of the messages that the agent may claim, the one
  -- that is available and was created earliest. It leaves that message under a lease of the
  -- given owner, until the given time, with one more attempt, and every other message as it was;
  -- it adds one run, with a fresh identifier, and returns the records of both.
  pub claim_next_message-IsClaim :
      (db : Db) {c : ClaimedMailboxMessage} {db' : Db}
      → claim_next_message env params db ≡ (ok c, db')
      → IsClaim env params 0 db c db'
  unfolding claim_next_message
  claim_next_message-IsClaim db h =
      elim (Bool-cases (is_empty params.namespace_id || is_empty params.agent_id)) [
        | inl t ↦ absurd (differ (ap (λ o. o.0) (sym (if_true _ _ t) ∙ h)))
        | inr f ↦
            verdict-eq-ok 0 db (attempt-Round 0 db _ refl)
              (sym (claim_loop-verdict 7 0 db) ∙ sym (if_false _ _ f) ∙ h)
      ]
    where
      differ :
          {e : StoreError} {c : ClaimedMailboxMessage}
          → ◌≡◌ {A = Result StoreError ClaimedMailboxMessage} (err e) (ok c)
          → ⊥
      differ p = cc

  -- A claim that fails, for whatever reason, leaves the database as it was.
  pub claim_next_message-err :
      (db : Db) {e : StoreError} {db' : Db}
      → claim_next_message env params db ≡ (err e, db')
      → db' ≡ db
  unfolding claim_next_message
  claim_next_message-err db h =
      elim (Bool-cases (is_empty params.namespace_id || is_empty params.agent_id)) [
        | inl t ↦ sym (ap (λ o. o.1) (sym (if_true _ _ t) ∙ h))
        | inr f ↦
            (verdict-eq-err 0 db (attempt-Round 0 db _ refl)
              (sym (claim_loop-verdict 7 0 db) ∙ sym (if_false _ _ f) ∙ h)).0
      ]
