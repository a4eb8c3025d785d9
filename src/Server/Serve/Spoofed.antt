-- ===== src/Server/Serve/Spoofed.antt =====
-- pkg/server: whose run the result of an agent ends, if the message names one.
use swarmd.Prelude.{
  ℕ, ◌≡◌, sym, ap, ◌∙◌, subst, String, false, not, ◌&&◌, List, [], none, some, if◌then◌else◌, eqb,
  count, update_where, ok, refuse->>, >>=-eq-ok, ok-eq-ok, arith,
}
use swarmd.Store.Types.{CreateMailboxMessageParams, CompleteRunParams, ClaimedMailboxMessage}
use swarmd.Store.Envelope.{marshal_optional_envelope, to_millis, to_duration_millis}
use swarmd.Store.Tables.{Env, Db, is_run}
use swarmd.Store.Mailbox.Runs.{IsEnd, complete_run-IsEnd}
use swarmd.Server.Context.{
  Metadata, string, TriggerContext, trigger_metadata, read_context, trigger_context_from_metadata,
}
use swarmd.Server.Results.{
  AgentResult, Envelopes, ResultPersister, not_allowed, is_finished, is_nil, retry_at,
  dead_letter_reason, extract_outbox, run_end_at, run_end, or_context, handle_result,
}
use swarmd.Server.Results.Retries.{store_end-eq-ok}
use swarmd.Server.Serve.Taken.{context-eq-ok, handle_result-known}

-- The run has ended with what the result says of it.
pub record HasResult {V : Type 0} (env : Env V) (ns run : String) (result : AgentResult V)
    (db db' : Db) : Type 0 where
  pub known : eqb (count (is_run ns run) db.runs) 0 ≡ false
  pub value_json : String
  pub encoded : marshal_optional_envelope env.codec "run_value" result.value ≡ ok value_json
  pub runs :
      db'.runs
      ≡ update_where
          (is_run ns run)
          (λ row. record row {
            status = result.status;
            finished_at_ms = some (to_millis result.finished_at);
            duration_millis = to_duration_millis result.duration;
            cwd = result.cwd;
            usage_cached_tokens = result.usage_cached_tokens;
            finish_thought = result.finish_thought;
            value_json = value_json;
            error = result.error;
            updated_at_ms = to_millis (env.now 0);
          })
          db.runs

module _ {V : Type 0} (envelopes : Envelopes V) (env : Env V) (p : ResultPersister) (now : ℕ)
    (result : AgentResult V) where
  run_end_at-eq-ok :
      (c : TriggerContext) {params : CompleteRunParams V}
      → run_end_at envelopes p now result c ≡ ok params
      → (outbox : List (CreateMailboxMessageParams V)) × (params ≡ record {
        namespace_id = c.namespace_id;
        run_id = c.run_id;
        message_id = c.message_id;
        status = result.status;
        finished_at = result.finished_at;
        duration = result.duration;
        cwd = result.cwd;
        usage_cached_tokens = result.usage_cached_tokens;
        finish_thought = result.finish_thought;
        value = result.value;
        error = result.error;
        retry_at = retry_at p result now;
        dead_letter_reason = dead_letter_reason result;
        outbox = outbox;
      })
  unfolding run_end_at
  run_end_at-eq-ok c h =
      let (outbox, _, h₁) = >>=-eq-ok (extract_outbox envelopes result.value c) _ h in
      let sent = if is_finished result then outbox else [] in
      let (_, h₂) =
        refuse->> not_allowed (not (is_nil envelopes sent) && not p.allow_message_send) _ h₁ in
      (sent, sym (ok-eq-ok h₂))

  -- A stored result ends the run that its trigger's metadata name.
  handle_result-HasResult :
      (c : TriggerContext) (db : Db) {db' : Db}
      → trigger_context_from_metadata result.metadata ≡ ok c
      → handle_result envelopes env p now result db ≡ (ok tt, db')
      → HasResult env c.namespace_id c.run_id result db db'
  unfolding handle_result run_end
  handle_result-HasResult c db {db' = db'} known h =
      let (params, asked, done) =
        store_end-eq-ok envelopes env p now result (run_end envelopes p now result) db h in
      let (outbox, same) = run_end_at-eq-ok c (
        ap (λ r. or_context envelopes r (run_end_at envelopes p now result)) (sym known) ∙ asked) in
      let end = subst (λ q. IsEnd env q db db') same (complete_run-IsEnd env params db done) in
      record {
        known = end.run_known;
        value_json = end.value_json;
        encoded = end.encoded;
        runs = end.runs;
      }

  spoofed_context :
      (ns agent run : String) (c : ClaimedMailboxMessage) (original : Metadata)
      → original "server_run_id" ≡ some (string run)
      → original "server_namespace_id" ≡ none
      → ((read_context (trigger_metadata ns agent c (some original))).run_id ≡ run)
        × ((read_context (trigger_metadata ns agent c (some original))).namespace_id ≡ ns)
  unfolding trigger_metadata
  spoofed_context ns agent run c original named kept = ground (arith, named, kept)

  -- The metadata of a message win over those of the runtime. If they have a text under the key of the
  -- run's identifier, and none under that of the namespace, then a result of the message's trigger
  -- that is stored is written to the run of that text in the queue's namespace: that run was there,
  -- its status, value, error, usage and end are now those of the result, and no other run changes.
  pub handle_result-spoofed :
      (ns agent run : String) (c : ClaimedMailboxMessage) (original : Metadata) (db : Db) {db' : Db}
      → original "server_run_id" ≡ some (string run)
      → original "server_namespace_id" ≡ none
      → result.metadata ≡ some (trigger_metadata ns agent c (some original))
      → handle_result envelopes env p now result db ≡ (ok tt, db')
      → HasResult env ns run result db db'
  handle_result-spoofed ns agent run c original db {db' = db'} named kept carried h =
      let (context, known) = handle_result-known envelopes env p now result db h in
      let same =
        context-eq-ok (trigger_metadata ns agent c (some original))
          (ap trigger_context_from_metadata (sym carried) ∙ known) in
      let (run_same, ns_same) = spoofed_context ns agent run c original named kept in
      subst (λ n. HasResult env n run result db db') (ap (λ x. x.namespace_id) same ∙ ns_same)
        (subst (λ i. HasResult env context.namespace_id i result db db')
          (ap (λ x. x.run_id) same ∙ run_same) (handle_result-HasResult context db known h))
