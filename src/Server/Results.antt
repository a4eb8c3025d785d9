-- ===== src/Server/Results.antt =====
-- pkg/server/persistence.go: the steps and the result of a run, written to the store.
pub mod Retries
mod Tests
use swarmd.Prelude.{
  ℕ, ◌+◌, String, Bool, true, false, not, ◌&&◌, ◌||◌, List, [], ◌∷◌, Option, none, some, ◌==◌,
  if◌then◌else◌, is_empty, trim_space, ltb, leb, eqb, Result, ok, err, ◌>>=◌, ◌>>◌, refuse, or_err,
}
use swarmd.Store.Types.{
  Payload, nil, text, value, CreateMailboxMessageParams, CompleteRunParams, StepRecord, StoreError,
}
use swarmd.Store.Tables.{Env, Db}
use swarmd.Store.Mailbox.Complete.{record_step, complete_run}
use swarmd.Server.Context.{
  Metadata, metadata_int, TriggerContext, ContextError, trigger_context_from_metadata,
}

-- What a result has beside its trigger, whose metadata it carries.
pub record AgentResult (V : Type 0) : Type 0 where
  pub metadata : Option Metadata
  pub status : String
  pub finished_at : ℕ
  pub duration : ℕ
  pub cwd : String
  pub usage_cached_tokens : ℕ
  pub finish_thought : String
  pub value : Payload V
  pub error : String

pub record WorkerOutboxMessage (V : Type 0) : Type 0 where
  pub recipient_agent_id : String
  pub thread_id : String
  pub kind : String
  pub payload : Payload V
  pub metadata : Payload V
  pub available_at : String
  pub max_attempts : ℕ

pub data ServerError : Type 0 where
  context_error : ContextError → ServerError
  marshal_value missing_recipient bad_time not_allowed : ServerError
  store_error : StoreError → ServerError

-- What the code takes from encoding/json and time: the value as JSON read back as a
-- `WorkerResultEnvelope`, of which only the outbox counts. `encode` is none if the value has no JSON,
-- `read_outbox` is none if the JSON is no envelope.
pub record Envelopes (V : Type 0) : Type 0 where
  pub encode : Payload V → Option String
  pub read_outbox : String → Option (List (WorkerOutboxMessage V))
  pub parse_time : String → Option ℕ

pub record ResultPersister : Type 0 where
  pub retry_delay : ℕ
  pub allow_message_send : Bool

-- Thirty seconds.
abbrev pub default_retry_delay : ℕ
default_retry_delay = 30000000000

-- `toolscommon.FirstNonEmptyString` of two texts.
abbrev pub first_non_empty_string : String → String → String
first_non_empty_string a b = if is_empty (trim_space a) then trim_space b else trim_space a

abbrev pub is_finished : {V : Type 0} → AgentResult V → Bool
is_finished result = result.status == "finished"

abbrev pub is_exhausted : (attempt_count max_attempts : ℕ) → Bool
is_exhausted attempts limit = ltb 0 limit && leb limit attempts

-- `metadataInt` of the trigger's metadata; a nil map has no keys.
abbrev pub result_int : {V : Type 0} → AgentResult V → String → ℕ
result_int result key = elim result.metadata [ none ↦ 0 | some m ↦ metadata_int m key ]

abbrev pub concat_text : String → String → String
concat_text String.[] t = t
concat_text (String.◌∷◌ c s) t = String.◌∷◌ c (concat_text s t)

abbrev pub delay_of : ResultPersister → ℕ
delay_of p = if eqb p.retry_delay 0 then default_retry_delay else p.retry_delay

unfoldable pub is_given_up : {V : Type 0} → AgentResult V → Bool
is_given_up result =
    not (is_finished result)
    && is_exhausted (result_int result "server_attempt_count")
        (result_int result "server_max_attempts")

unfoldable pub dead_letter_reason : {V : Type 0} → AgentResult V → String
unfolding is_given_up
dead_letter_reason result =
    if is_given_up result
    then concat_text "message exhausted retries after result status " result.status
    else ""

unfoldable pub retry_at : {V : Type 0} → ResultPersister → AgentResult V → ℕ → Option ℕ
unfolding is_given_up
retry_at p result now =
    if is_finished result || is_given_up result then none else some (now + delay_of p)

module _ {V : Type 0} (envelopes : Envelopes V) where
  outbox_time : String → Result ServerError (Option ℕ)
  outbox_time s =
      if is_empty s
      then ok none
      else (or_err (envelopes.parse_time s) bad_time >>= λ t. ok (some t))

  outbox_message :
      TriggerContext → WorkerOutboxMessage V → Result ServerError (CreateMailboxMessageParams V)
  unfolding outbox_time
  outbox_message c m = do
    refuse (is_empty m.recipient_agent_id) missing_recipient
    available_at ← outbox_time m.available_at
    ok (record {
      namespace_id = c.namespace_id;
      message_id = "";
      thread_id = first_non_empty_string m.thread_id c.thread_id;
      sender_agent_id = c.agent_id;
      recipient_agent_id = m.recipient_agent_id;
      kind = first_non_empty_string m.kind "agent.message";
      payload = m.payload;
      metadata = m.metadata;
      available_at = available_at;
      max_attempts = m.max_attempts;
    })

  unfoldable pub outbox_messages :
      TriggerContext
      → List (WorkerOutboxMessage V)
      → Result ServerError (List (CreateMailboxMessageParams V))
  unfolding outbox_message
  outbox_messages c [] = ok []
  outbox_messages c (m ∷ ms) =
      outbox_message c m >>= λ x. outbox_messages c ms >>= λ xs. ok (x ∷ xs)

  read_value :
      TriggerContext → Option String → Result ServerError (List (CreateMailboxMessageParams V))
  unfolding outbox_messages
  read_value c none = err marshal_value
  read_value c (some json) = elim (envelopes.read_outbox json) [
    | none ↦ ok []
    | some messages ↦ outbox_messages c messages
  ]

  -- `extractOutbox`.
  unfoldable pub extract_outbox :
      Payload V → TriggerContext → Result ServerError (List (CreateMailboxMessageParams V))
  unfolding read_value
  extract_outbox nil c = ok []
  extract_outbox (text s) c = read_value c (envelopes.encode (text s))
  extract_outbox (value v) c = read_value c (envelopes.encode (value v))

  abbrev pub is_nil : List (CreateMailboxMessageParams V) → Bool
  is_nil [] = true
  is_nil (m ∷ ms) = false

  abbrev pub or_context :
      {A : Type 0}
      → Result ContextError TriggerContext
      → (TriggerContext → Result ServerError A)
      → Result ServerError A
  or_context (ok c) f = f c
  or_context (err e) f = err (context_error e)

  unfoldable pub run_end_at :
      ResultPersister
      → ℕ
      → AgentResult V
      → TriggerContext
      → Result ServerError (CompleteRunParams V)
  unfolding extract_outbox dead_letter_reason retry_at
  run_end_at p now result c = extract_outbox result.value c >>= λ outbox.
      let sent = if is_finished result then outbox else [] in
      refuse (not (is_nil sent) && not p.allow_message_send) not_allowed
      >> ok (record {
        namespace_id = c.namespace_id;
        run_id = c.run_id;
        message_id = c.message_id;
        status = result.status;
        finished_at = result.finished_at;
        duration = result.duration;
        cwd = result.cwd;
        usage_cached_tokens = result.usage_cached_tokens;
        finish_thought = result.finish_thought;
        value = result.value;
        error = result.error;
        retry_at = retry_at p result now;
        dead_letter_reason = dead_letter_reason result;
        outbox = sent;
      })

  -- What `HandleResult` asks of the store, or why it asks nothing.
  unfoldable pub run_end :
      ResultPersister → ℕ → AgentResult V → Result ServerError (CompleteRunParams V)
  unfolding run_end_at
  run_end p now result =
      or_context (trigger_context_from_metadata result.metadata) (run_end_at p now result)

  abbrev pub from_store : Result StoreError (Unit {0}) × Db → Result ServerError (Unit {0}) × Db
  from_store (ok u, db) = (ok tt, db)
  from_store (err e, db) = (err (store_error e), db)

  abbrev pub store_end :
      Env V → Result ServerError (CompleteRunParams V) → Db → Result ServerError (Unit {0}) × Db
  store_end env (ok params) db = from_store (complete_run env params db)
  store_end env (err e) db = (err e, db)

  -- `HandleResult`; `now` is the clock of the process, which is not the store's.
  unfoldable pub handle_result :
      Env V → ResultPersister → (now : ℕ) → AgentResult V → Db → Result ServerError (Unit {0}) × Db
  unfolding run_end
  handle_result env p now result db = store_end env (run_end p now result) db
