-- ===== src/Store/Mailbox/Claim.antt =====
-- pkg/server/store/mailbox.go: an agent takes the next message under a lease.
pub mod Pick
pub mod Round
pub mod Next
pub mod Empty
use swarmd.Prelude.{
  ℕ, zero, suc, ◌+◌, String, Bool, true, false, ◌&&◌, ◌||◌, List, [], ◌∷◌, Option, none, some, ◌==◌,
  eqb, leb, ltb, if◌then◌else◌, is_empty, count, select, update_where, Result, ok, err, ◌>>=◌, ◌>>◌,
  or_err,
}
use swarmd.Store.Types.{
  MailboxMessageStatus, queued, leased, MailboxMessageRecord, RunRecord, ClaimMessageParams,
  ClaimedMailboxMessage, StoreError, empty_id, no_available_message,
}
use swarmd.Store.Envelope.{decode_envelope_any, default_string, default_duration, to_millis}
use swarmd.Store.Mailbox.Enqueue.{run_stmt}
use swarmd.Store.Mailbox.Scan.{scan_mailbox_message, render_trigger_prompt}
use swarmd.Store.Tables.{
  begin, commit, query, update_message, affected_message, insert_run, Env, MessageRow, RunRow, Db,
  is_message, add_run, Outcome, transaction,
}

-- The condition of `claimCandidate`'s SELECT, without the recipient also that of the UPDATE.
abbrev pub is_queued : MailboxMessageStatus → Bool
is_queued queued = true
is_queued _ = false

abbrev pub is_leased : MailboxMessageStatus → Bool
is_leased leased = true
is_leased _ = false

-- `lease_expires_at_ms IS NULL OR lease_expires_at_ms <= ?`
abbrev pub has_expired : ℕ → Option ℕ → Bool
has_expired now_ms none = true
has_expired now_ms (some t) = leb t now_ms

unfoldable pub is_free : ℕ → MessageRow → Bool
is_free now_ms row =
    (is_queued row.status || is_leased row.status)
    && leb row.available_at_ms now_ms
    && (is_queued row.status || has_expired now_ms row.lease_expires_at_ms)

unfoldable pub is_claimable : String → String → ℕ → MessageRow → Bool
unfolding is_free
is_claimable ns agent now_ms row =
    row.namespace_id == ns && row.recipient_agent_id == agent && is_free now_ms row

-- `ORDER BY available_at_ms ASC, created_at_ms ASC`
abbrev pub is_before : MessageRow → MessageRow → Bool
is_before r s =
    ltb r.available_at_ms s.available_at_ms
    || (eqb r.available_at_ms s.available_at_ms && ltb r.created_at_ms s.created_at_ms)

abbrev pub earlier : MessageRow → Option MessageRow → Option MessageRow
earlier r none = some r
earlier r (some s) = some (if is_before s r then s else r)

-- `ORDER BY … LIMIT 1`. Of rows that tie, the query may return any; here it is the oldest row.
unfoldable pub earliest : List MessageRow → Option MessageRow
earliest [] = none
earliest (r ∷ rs) = earlier r (earliest rs)

-- What the UPDATE of a claim writes.
unfoldable pub lease_row : String → ℕ → String → ℕ → MessageRow → MessageRow
lease_row owner expires_at run_id now row = record row {
  status = leased;
  lease_owner = owner;
  lease_expires_at_ms = some (to_millis expires_at);
  attempt_count = row.attempt_count + 1;
  run_id = run_id;
  updated_at_ms = to_millis now;
  claimed_at_ms = elim row.claimed_at_ms [ none ↦ some (to_millis now) | some t ↦ some t ];
}

unfoldable pub claimed_record :
    String → ℕ → String → ℕ → MailboxMessageRecord → MailboxMessageRecord
claimed_record owner expires_at run_id now r = record r {
  status = leased;
  lease_owner = owner;
  lease_expires_at = some expires_at;
  attempt_count = r.attempt_count + 1;
  run_id = run_id;
  updated_at = now;
  claimed_at = elim r.claimed_at [ none ↦ some now | some t ↦ some t ];
}

unfoldable pub new_run_row : ClaimMessageParams → String → String → ℕ → String → RunRow
new_run_row params run_id message_id now prompt = record {
  namespace_id = params.namespace_id;
  run_id = run_id;
  message_id = message_id;
  agent_id = params.agent_id;
  trigger_id = message_id;
  status = "running";
  started_at_ms = to_millis now;
  finished_at_ms = none;
  duration_millis = 0;
  cwd = "";
  usage_cached_tokens = 0;
  finish_thought = "";
  value_json = "";
  error = "";
  trigger_prompt = prompt;
  system_prompt = params.system_prompt;
  created_at_ms = to_millis now;
  updated_at_ms = to_millis now;
}

unfoldable pub new_run_record : ClaimMessageParams → String → String → ℕ → String → RunRecord
new_run_record params run_id message_id now prompt = record {
  namespace_id = params.namespace_id;
  id = run_id;
  message_id = message_id;
  agent_id = params.agent_id;
  trigger_id = message_id;
  status = "running";
  started_at = now;
  finished_at = none;
  duration = 0;
  cwd = "";
  usage_cached_tokens = 0;
  finish_thought = "";
  value_json = "";
  error = "";
  trigger_prompt = prompt;
  system_prompt = params.system_prompt;
  created_at = now;
  updated_at = now;
}

-- The rows with the key that the UPDATE of a claim finds.
unfoldable pub is_leasable : String → String → ℕ → MessageRow → Bool
unfolding is_free
is_leasable ns id now_ms row = is_message ns id row && is_free now_ms row

-- Five minutes, in nanoseconds.
abbrev pub default_lease : ℕ
default_lease = 300000000000

abbrev pub claim_rounds : ℕ
claim_rounds = 8

-- A round that claimed a message or failed ends the loop.
abbrev pub settle : {A : Type 0} → Outcome (Option A) → (Db → Outcome A) → Outcome A
settle (ok (some a), db) again = (ok a, db)
settle (ok none, db) again = again db
settle (err e, db) again = (err e, db)

module _ {V : Type 0} (env : Env V) (params : ClaimMessageParams) where
  -- `claimCandidate`.
  unfoldable pub claim_candidate : ℕ → Db → Result StoreError MessageRow
  claim_candidate now db = do
    run_stmt env query
    or_err
        (earliest
          (select (is_claimable params.namespace_id params.agent_id (to_millis now)) db.messages))
        no_available_message

  -- A transaction that claims, behind the UPDATE: the run, and the result.
  unfoldable pub start_run :
      (owner run_id : String) (expires_at now : ℕ)
      → MessageRow
      → Db
      → Result StoreError (Option ClaimedMailboxMessage × Db)
  start_run owner run_id expires_at now row db = do
    payload ← decode_envelope_any env.codec row.payload_json
    prompt ← render_trigger_prompt env.codec payload
    run_stmt env insert_run
    db' ← add_run (new_run_row params run_id row.message_id now prompt) db
    run_stmt env commit
    ok (
      some (record {
        message = claimed_record owner expires_at run_id now (scan_mailbox_message row);
        run = new_run_record params run_id row.message_id now prompt;
      }),
      db',
    )

  -- The UPDATE of the row that was found: `none` is the `continue` when no row is affected.
  unfoldable pub lease_message :
      (owner : String) (duration now k : ℕ)
      → MessageRow
      → Db
      → Result StoreError (Option ClaimedMailboxMessage × Db)
  lease_message owner duration now k row db =
      let run_id = env.new_id "run" k in
      let hit = is_leasable params.namespace_id row.message_id (to_millis now) in
      let rows = update_where hit (lease_row owner (now + duration) run_id now) db.messages in
      let won = start_run owner run_id (now + duration) now row (record db { messages = rows }) in
      do
        run_stmt env update_message
        run_stmt env affected_message
        if eqb (count hit db.messages) 0 then ok (none, db) else won

  -- One round of the loop, a transaction of its own.
  unfoldable pub claim_attempt :
      (k : ℕ) → Db → Result StoreError (Option ClaimedMailboxMessage × Db)
  unfolding claim_candidate
  claim_attempt k db = do
    let now = env.now k
    run_stmt env begin
    row ← claim_candidate now db
    lease_message (default_string params.lease_owner env.lease_owner)
        (default_duration params.lease_duration default_lease) now k row db

  -- `for range 8`: `left` rounds are left, and `k` are behind.
  unfoldable pub claim_loop : (left k : ℕ) → Db → Outcome ClaimedMailboxMessage
  claim_loop zero k db = (err no_available_message, db)
  claim_loop (suc left) k db =
      settle (transaction db (claim_attempt k db)) (claim_loop left (suc k))

  unfoldable pub claim_next_message : Db → Outcome ClaimedMailboxMessage
  claim_next_message db =
      if is_empty params.namespace_id || is_empty params.agent_id
      then (err empty_id, db)
      else claim_loop claim_rounds 0 db
