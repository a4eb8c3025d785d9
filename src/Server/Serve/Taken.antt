-- ===== src/Server/Serve/Taken.antt =====
-- pkg/server: what a trigger of the queue says of the message, and what its result does.
use swarmd.Prelude.{
  ℕ, ◌+◌, ◌≡◌, refl, sym, ap, subst, inl, inr, String, Bool, true, false, Option, none, some,
  eq_iff, if◌then◌else◌, Has, Has-update_where, Option-cases, Result, ok, err, ok-eq-ok,
  some-eq-some, arith,
}
use swarmd.Store.Types.{ClaimedMailboxMessage, StoreError, Payload}
use swarmd.Store.Envelope.{to_millis, decode_envelope_any, default_string, default_duration}
use swarmd.Store.Tables.{Env, MessageRow, Db}
use swarmd.Store.Mailbox.Scan.{scan_mailbox_message}
use swarmd.Store.Mailbox.Claim.{is_claimable, is_leasable, lease_row, claimed_record, default_lease}
use swarmd.Store.Mailbox.Claim.Round.{IsClaim, is_claimable→is_leasable}
use swarmd.Agent.Types.{Trigger}
use swarmd.Server.Context.{
  Metadata, TriggerContext, ContextError, LeavesKeys, trigger_metadata, read_context,
  empty_metadata, metadata_int, trigger_context_from_metadata, read_context-trigger_metadata,
}
use swarmd.Server.Results.{
  AgentResult, Envelopes, ResultPersister, ServerError, handle_result, run_end, or_context,
  run_end_at,
}
use swarmd.Server.Results.Retries.{store_end-eq-ok}
use swarmd.Server.Queue.{
  MessageQueue, claim_params, message_trigger, polled, with_payload, unclaimed,
}

pub context-eq-ok :
    (m : Metadata) {c : TriggerContext}
    → trigger_context_from_metadata (some m) ≡ ok c
    → c ≡ read_context m
unfolding trigger_context_from_metadata
context-eq-ok m h = checked (read_context m) _ h
  where
    checked :
        (c₀ : TriggerContext) (b : Bool) {c : TriggerContext}
        → ◌≡◌ {A = Result ContextError TriggerContext}
            (if b then err ContextError.incomplete else ok c₀)
            (ok c)
        → c ≡ c₀
    checked c₀ true h = cc
    checked c₀ false h = sym (ok-eq-ok h)

-- The metadata of a trigger whose message leaves the keys of the runtime alone.
module _ (read_metadata : String → Option Metadata) (json : String) where
  abbrev pub Leaves : Type 0
  Leaves = (m : Metadata) → read_metadata json ≡ some m → LeavesKeys m

  empty-LeavesKeys : LeavesKeys empty_metadata
  empty-LeavesKeys = record {
    namespace_id = refl;
    agent_id = refl;
    message_id = refl;
    thread_id = refl;
    run_id = refl;
    sender_agent_id = refl;
    attempt_count = refl;
    max_attempts = refl;
  }

  abbrev pub ReadsBack : String → ClaimedMailboxMessage → Metadata → Type 0
  ReadsBack ns c m =
      ((read_context m).namespace_id ≡ ns)
      × ((read_context m).message_id ≡ c.message.id)
      × (metadata_int m "server_attempt_count" ≡ c.message.attempt_count)
      × (metadata_int m "server_max_attempts" ≡ c.message.max_attempts)

  no_metadata :
      (ns agent : String) (c : ClaimedMailboxMessage)
      → trigger_metadata ns agent c (some empty_metadata) ≡ trigger_metadata ns agent c none
  unfolding trigger_metadata
  no_metadata ns agent c = refl

  pub reads_back :
      (ns agent : String) (c : ClaimedMailboxMessage)
      → Leaves
      → ReadsBack ns c (trigger_metadata ns agent c (read_metadata json))
  reads_back ns agent c leaves = elim (Option-cases (read_metadata json)) [
    | inl e ↦
        subst (λ o. ReadsBack ns c (trigger_metadata ns agent c o)) (sym e)
          (subst (ReadsBack ns c) (no_metadata ns agent c)
            (some_read empty_metadata empty-LeavesKeys))
    | inr (m, e) ↦
        subst (λ o. ReadsBack ns c (trigger_metadata ns agent c o)) (sym e)
          (some_read m (leaves m e))
  ]
    where
      some_read :
          (m : Metadata) → LeavesKeys m → ReadsBack ns c (trigger_metadata ns agent c (some m))
      some_read m keys =
          let h = read_context-trigger_metadata ns agent c m keys in
          (ap (λ x. x.namespace_id) h.0, ap (λ x. x.message_id) h.0, h.1, h.2)

module _ {V : Type 0} (envelopes : Envelopes V) (env : Env V) (p : ResultPersister) (now : ℕ)
    (result : AgentResult V) where
  or_context-eq-ok :
      {A : Type 0} (r : Result ContextError TriggerContext)
      (f : TriggerContext → Result ServerError A) {a : A}
      → or_context envelopes r f ≡ ok a
      → (c : TriggerContext) × (r ≡ ok c)
  or_context-eq-ok (ok c) f h = (c, refl)
  or_context-eq-ok (err e) f h = cc

  -- A result that was stored names its run.
  pub handle_result-known :
      (db : Db) {db' : Db}
      → handle_result envelopes env p now result db ≡ (ok tt, db')
      → (c : TriggerContext) × (trigger_context_from_metadata result.metadata ≡ ok c)
  unfolding handle_result run_end
  handle_result-known db h =
      let (params, asked, done) =
        store_end-eq-ok envelopes env p now result (run_end envelopes p now result) db h in
      or_context-eq-ok (trigger_context_from_metadata result.metadata)
        (run_end_at envelopes p now result) asked

-- What a poll that found a trigger has claimed.
module _ {V : Type 0} (read_metadata : String → Option Metadata) (env : Env V)
    (q : MessageQueue) where
  abbrev pub Claims : Trigger V → Result StoreError ClaimedMailboxMessage × Db → Db → Type 0
  Claims t o db' =
      (c : ClaimedMailboxMessage) × (payload : Payload V) × (o ≡ (ok c, db'))
      × (message_trigger read_metadata q c payload ≡ t)

  decoded :
      (c : ClaimedMailboxMessage) (r : Result StoreError (Payload V)) {t : Trigger V}
      → with_payload read_metadata q c r ≡ ok (some t)
      → (payload : Payload V) × (message_trigger read_metadata q c payload ≡ t)
  decoded c (ok payload) h = (payload, some-eq-some (ok-eq-ok h))
  decoded c (err e) h = cc

  unclaimed-none : (e : StoreError) {t : Trigger V} → unclaimed read_metadata e ≡ ok (some t) → ⊥
  unclaimed-none e h = ground arith

  pub polled-Claims :
      (o : Result StoreError ClaimedMailboxMessage × Db) {t : Trigger V} {db' : Db}
      → polled read_metadata env q o ≡ (ok (some t), db')
      → Claims t o db'
  polled-Claims (ok c, db) h =
      let (payload, e) =
        decoded c (decode_envelope_any env.codec c.message.payload_json) (ap (λ x. x.0) h) in
      (c, payload, ap (λ (x : Db). (ok c, x)) (ap (λ x. x.1) h), e)
  polled-Claims (err e, db) h = absurd (unclaimed-none e (ap (λ x. x.0) h))

-- What a claim says of the message that it has taken, before and after.
pub record Taken (q : MessageQueue) (db : Db) (c : ClaimedMailboxMessage) (db' : Db) : Type 0 where
  pub row : MessageRow
  pub found : Has row db.messages
  pub recipient : row.recipient_agent_id ≡ q.agent_id
  pub leased : MessageRow
  pub there : Has leased db'.messages
  pub namespace_id : leased.namespace_id ≡ q.namespace_id
  pub message_id : leased.message_id ≡ row.message_id
  pub recipient_kept : leased.recipient_agent_id ≡ row.recipient_agent_id
  pub id : c.message.id ≡ row.message_id
  pub metadata : c.message.metadata_json ≡ row.metadata_json
  pub attempts : c.message.attempt_count ≡ row.attempt_count + 1
  pub limit : c.message.max_attempts ≡ row.max_attempts

claimable-names :
    (ns agent : String) (now : ℕ) (row : MessageRow)
    → is_claimable ns agent now row ≡ true
    → (row.namespace_id ≡ ns) × (row.recipient_agent_id ≡ agent)
unfolding is_claimable
claimable-names ns agent now row h =
    ground (arith, eq_iff row.namespace_id ns, eq_iff row.recipient_agent_id agent)

pub IsClaim-Taken :
    {V : Type 0} (env : Env V) (q : MessageQueue) (db : Db) (c : ClaimedMailboxMessage) (db' : Db)
    → IsClaim env (claim_params q) 0 db c db'
    → Taken q db c db'
unfolding lease_row claimed_record scan_mailbox_message
IsClaim-Taken env q db c db' k =
    let (ns, agent) =
      claimable-names q.namespace_id q.agent_id (to_millis (env.now 0)) k.row k.claimable in
    let free =
      is_claimable→is_leasable q.namespace_id q.agent_id (to_millis (env.now 0)) k.row
        k.claimable in
    let lease : MessageRow → MessageRow =
      lease_row (default_string q.lease_owner env.lease_owner)
        (env.now 0 + default_duration q.lease_duration default_lease) (env.new_id "run" 0)
        (env.now 0) in
    record {
      row = k.row;
      found = k.found;
      recipient = agent;
      leased = lease k.row;
      there = subst (Has (lease k.row)) (sym k.messages) (
          Has-update_where (is_leasable q.namespace_id k.row.message_id (to_millis (env.now 0)))
            lease db.messages k.found free);
      namespace_id = ns;
      message_id = refl;
      recipient_kept = refl;
      id = ap (λ m. m.id) k.message;
      metadata = ap (λ m. m.metadata_json) k.message;
      attempts = ap (λ m. m.attempt_count) k.message;
      limit = ap (λ m. m.max_attempts) k.message;
    }
