-- ===== src/Server/Results/Retries.antt =====
-- pkg/server/persistence.go: which message comes back after a run.
use swarmd.Prelude.{
  ℕ, ◌+◌, ◌≡◌, refl, sym, ap, ◌∙◌, String, Bool, true, false, not, ◌&&◌, ◌||◌, [], Option, none,
  some, ◌==◌, if◌then◌else◌, is_empty, leb, Has, Result, ok, err, refuse->>, >>=-eq-ok, ok-eq-ok,
}
use swarmd.Store.Types.{CompleteRunParams, StoreError}
use swarmd.Store.Envelope.{to_millis}
use swarmd.Store.Tables.{Env, MessageRow, Db}
use swarmd.Store.Mailbox.Claim.{is_claimable}
use swarmd.Store.Mailbox.Complete.{complete_run}
use swarmd.Store.Mailbox.Turns.{may_retry, complete_run-claimable}
use swarmd.Server.Context.{TriggerContext, trigger_context_from_metadata}
use swarmd.Server.Results.{
  AgentResult, ServerError, not_allowed, Envelopes, ResultPersister, delay_of, is_finished,
  is_given_up, dead_letter_reason, retry_at, extract_outbox, run_end, from_store, store_end,
  handle_result, or_context, is_nil, run_end_at, store_error, concat_text,
}

-- The parameters of the end that a result asks for.
record IsRunEnd {V : Type 0} (p : ResultPersister) (now : ℕ) (c : TriggerContext)
    (result : AgentResult V) (params : CompleteRunParams V) : Type 0 where
  namespace_id : params.namespace_id ≡ c.namespace_id
  message_id : params.message_id ≡ c.message_id
  reason : params.dead_letter_reason ≡ dead_letter_reason result
  retry : params.retry_at ≡ retry_at p result now

retries : (finished given_up : Bool) (status : String) (t now_ms : ℕ) → Bool
retries finished given_up status t now_ms =
    is_empty
      (if given_up then concat_text "message exhausted retries after result status " status else "")
    && elim (if finished || given_up then none else some t) [
      | none ↦ false
      | some at ↦ leb (to_millis at) now_ms
    ]

retries-eq :
    (finished given_up : Bool) (status : String) (t now_ms : ℕ)
    → retries finished given_up status t now_ms
      ≡ (not finished && not given_up && leb (to_millis t) now_ms)
unfolding retries is_empty
retries-eq true true status t now_ms = refl
retries-eq true false status t now_ms = refl
retries-eq false true status t now_ms = refl
retries-eq false false status t now_ms = refl

module _ {V : Type 0} (envelopes : Envelopes V) (env : Env V) (p : ResultPersister) (now : ℕ)
    (result : AgentResult V) where
  run_end_at-IsRunEnd :
      (c : TriggerContext) {params : CompleteRunParams V}
      → run_end_at envelopes p now result c ≡ ok params
      → IsRunEnd p now c result params
  unfolding run_end_at
  run_end_at-IsRunEnd c {params = params} h =
      let (outbox, _, h₁) = >>=-eq-ok (extract_outbox envelopes result.value c) _ h in
      let sent = if is_finished result then outbox else [] in
      let (_, h₂) =
        refuse->> not_allowed (not (is_nil envelopes sent) && not p.allow_message_send) _ h₁ in
      let same = sym (ok-eq-ok h₂) in
      record {
        namespace_id = ap (λ x. x.namespace_id) same;
        message_id = ap (λ x. x.message_id) same;
        reason = ap (λ x. x.dead_letter_reason) same;
        retry = ap (λ x. x.retry_at) same;
      }

  run_end-IsRunEnd :
      (c : TriggerContext) {params : CompleteRunParams V}
      → trigger_context_from_metadata result.metadata ≡ ok c
      → run_end envelopes p now result ≡ ok params
      → IsRunEnd p now c result params
  unfolding run_end
  run_end-IsRunEnd c known h =
      run_end_at-IsRunEnd c
        (ap (λ r. or_context envelopes r (run_end_at envelopes p now result)) (sym known) ∙ h)

  from_store-eq-ok :
      (o : Result StoreError (Unit {0}) × Db) {db' : Db}
      → from_store envelopes o ≡ (ok tt, db')
      → o ≡ (ok tt, db')
  from_store-eq-ok (ok u, d) h = ap (λ x. (ok tt, x)) (ap (λ q. q.1) h)
  from_store-eq-ok (err e, d) h = absurd (differ (ap (λ q. q.0) h))
    where
      differ : ◌≡◌ {A = Result ServerError (Unit {0})} (err (store_error e)) (ok tt) → ⊥
      differ q = cc

  pub store_end-eq-ok :
      (r : Result ServerError (CompleteRunParams V)) (db : Db) {db' : Db}
      → store_end envelopes env r db ≡ (ok tt, db')
      → (params : CompleteRunParams V) × (r ≡ ok params)
        × (complete_run env params db ≡ (ok tt, db'))
  store_end-eq-ok (ok params) db h = (params, refl, from_store-eq-ok (complete_run env params db) h)
  store_end-eq-ok (err e) db h = absurd (differ (ap (λ q. q.0) h))
    where
      differ : ◌≡◌ {A = Result ServerError (Unit {0})} (err e) (ok tt) → ⊥
      differ q = cc

  may_retry-result :
      (params : CompleteRunParams V) (c : TriggerContext) (now_ms : ℕ)
      → IsRunEnd p now c result params
      → may_retry params now_ms ≡ (
          not (is_finished result)
          && not (is_given_up result)
          && leb (to_millis (now + delay_of p)) now_ms)
  unfolding dead_letter_reason retry_at retries
  may_retry-result params c now_ms e =
      ap
        (λ (x : String).
          is_empty x && elim params.retry_at [ none ↦ false | some at ↦ leb (to_millis at) now_ms ])
        e.reason
      ∙ ap
          (λ (o : Option ℕ).
            is_empty (dead_letter_reason result)
            && elim o [ none ↦ false | some at ↦ leb (to_millis at) now_ms ])
          e.retry
      ∙ retries-eq (is_finished result) (is_given_up result) result.status (now + delay_of p) now_ms

  -- After the result of an agent is stored, the message that its run was on is in the table, and an
  -- agent may claim it exactly if it is the recipient, the agent did not finish, the message has
  -- attempts left or no limit of them, and the delay has passed.
  pub handle_result-claimable :
      (c : TriggerContext) (db : Db) {db' : Db} (r : MessageRow)
      → trigger_context_from_metadata result.metadata ≡ ok c
      → handle_result envelopes env p now result db ≡ (ok tt, db')
      → Has r db.messages
      → r.namespace_id ≡ c.namespace_id
      → r.message_id ≡ c.message_id
      → (s : MessageRow) × Has s db'.messages
        × (s.message_id ≡ r.message_id)
        × ((agent : String) (now_ms : ℕ)
            → is_claimable c.namespace_id agent now_ms s ≡ (
                r.recipient_agent_id == agent
                && (not (is_finished result)
                    && not (is_given_up result)
                    && leb (to_millis (now + delay_of p)) now_ms)))
  unfolding handle_result
  handle_result-claimable c db r known h m ns id =
      let (params, asked, done) = store_end-eq-ok (run_end envelopes p now result) db h in
      let e = run_end-IsRunEnd c known asked in
      let (s, there, same, claims) =
        complete_run-claimable env params db r done m (ns ∙ sym e.namespace_id)
          (id ∙ sym e.message_id) in
      (
        s,
        there,
        same,
        λ agent now_ms.
            ap (λ n. is_claimable n agent now_ms s) (sym e.namespace_id)
            ∙ claims agent now_ms
            ∙ ap (λ b. r.recipient_agent_id == agent && b) (may_retry-result params c now_ms e),
      )
