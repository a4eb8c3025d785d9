-- ===== src/Store/Mailbox/Runs.antt =====
-- What the end of a run does to the tables: `CompleteRun` of pkg/server/store/mailbox.go.
use swarmd.Prelude.{
  ℕ, suc, ◌≡◌, sym, ap, ◌∙◌, String, false, ◌||◌, List, [], ◌∷◌, ◌++◌, count, update_where, ok, err,
  refuse->>, >>=-eq-ok, ok-eq-ok, is_empty, eqb, none, some, refl,
}
use mathlib.Core.List.{append-nil, append_assoc}
use swarmd.Store.Types.{StoreError, CreateMailboxMessageParams, CompleteRunParams}
use swarmd.Store.Envelope.{
  marshal_envelope, marshal_optional_envelope, default_string, to_millis, to_duration_millis,
}
use swarmd.Store.Tables.{
  begin, commit, update_run, affected_run, update_message, affected_message, Env, MessageRow, Db,
  is_message, is_run,
}
use swarmd.Store.Tables.Inserts.{transaction-eq-ok, transaction-eq-err}
use swarmd.Store.Mailbox.Enqueue.{new_message_row, enqueue_message_tx}
use swarmd.Store.Mailbox.Complete.{
  finish_run, fate, release_row, enqueue_outbox, update_run_row, update_message_row, finish_message,
  complete_run,
}
use swarmd.Store.Mailbox.Valid.Claims.{enqueue_message_tx-eq-ok}

-- The rows that an outbox adds, in its order: queued messages with the keys and the contents that
-- the outbox asks for, payload and metadata as the codec writes them.
pub data Sent {V : Type 0} (env : Env V) (now : ℕ)
    : ℕ → List (CreateMailboxMessageParams V) → List MessageRow → Type 0 where
  none_left : {k : ℕ} → Sent env now k [] []
  one_more :
      {k : ℕ} {m : CreateMailboxMessageParams V} {ms : List (CreateMailboxMessageParams V)}
      {rows : List MessageRow} {payload metadata : String}
      → marshal_envelope env.codec "mailbox_payload" m.payload ≡ ok payload
      → marshal_optional_envelope env.codec "mailbox_metadata" m.metadata ≡ ok metadata
      → Sent env now (suc k) ms rows
      → Sent env now k (m ∷ ms) (
          new_message_row m (default_string m.message_id (env.new_id "msg" k)) now payload metadata
          ∷ rows)

-- The tables after a run that ended.
pub record IsEnd {V : Type 0} (env : Env V) (params : CompleteRunParams V) (db db' : Db)
    : Type 0 where
  pub value_json : String
  pub encoded : marshal_optional_envelope env.codec "run_value" params.value ≡ ok value_json
  pub outbox_rows : List MessageRow
  pub run_known : eqb (count (is_run params.namespace_id params.run_id) db.runs) 0 ≡ false
  pub message_known :
      eqb (count (is_message params.namespace_id params.message_id) db.messages) 0 ≡ false
  pub runs :
      db'.runs
      ≡ update_where
          (is_run params.namespace_id params.run_id)
          (λ row. record row {
            status = params.status;
            finished_at_ms = some (to_millis params.finished_at);
            duration_millis = to_duration_millis params.duration;
            cwd = params.cwd;
            usage_cached_tokens = params.usage_cached_tokens;
            finish_thought = params.finish_thought;
            value_json = value_json;
            error = params.error;
            updated_at_ms = to_millis (env.now 0);
          })
          db.runs
  pub messages :
      db'.messages
      ≡ update_where
          (is_message params.namespace_id params.message_id)
          (release_row (fate params) params.error (env.now 0))
          db.messages
        ++ outbox_rows
  pub released :
      (row : MessageRow)
      → release_row (fate params) params.error (env.now 0) row ≡ record row {
        status = (fate params).status;
        available_at_ms = to_millis (fate params).available_at;
        lease_owner = "";
        lease_expires_at_ms = none;
        run_id = "";
        dead_letter_reason = (fate params).reason;
        last_error = params.error;
        updated_at_ms = to_millis (env.now 0);
        completed_at_ms = (fate params).completed_at_ms;
      }
  pub sent : Sent env (env.now 0) 0 params.outbox outbox_rows
  pub agents : db'.agents ≡ db.agents
  pub steps : db'.steps ≡ db.steps
  pub schedules : db'.schedules ≡ db.schedules

module _ {V : Type 0} (env : Env V) where
  update_run_row-eq-ok :
      (params : CompleteRunParams V) (json : String) (now : ℕ) (db : Db) {db' : Db}
      → update_run_row env params json now db ≡ ok db'
      → (eqb (count (is_run params.namespace_id params.run_id) db.runs) 0 ≡ false)
        × (db' ≡ record db {
          runs =
              update_where
                (is_run params.namespace_id params.run_id)
                (finish_run params json now)
                db.runs;
        })
  unfolding update_run_row
  update_run_row-eq-ok params json now db h =
      let (_, h₁) = refuse->> _ (env.fails update_run) _ h in
      let (_, h₂) = refuse->> _ (env.fails affected_run) _ h₁ in
      let (known, h₃) =
        refuse->> _ (eqb (count (is_run params.namespace_id params.run_id) db.runs) 0) _ h₂ in
      (known, sym (ok-eq-ok h₃))

  update_message_row-eq-ok :
      (params : CompleteRunParams V) (now : ℕ) (db : Db) {db' : Db}
      → update_message_row env params now db ≡ ok db'
      → (eqb (count (is_message params.namespace_id params.message_id) db.messages) 0 ≡ false)
        × (db' ≡ record db {
          messages =
              update_where
                (is_message params.namespace_id params.message_id)
                (release_row (fate params) params.error now)
                db.messages;
        })
  unfolding update_message_row
  update_message_row-eq-ok params now db h =
      let (_, h₁) = refuse->> _ (env.fails update_message) _ h in
      let (_, h₂) = refuse->> _ (env.fails affected_message) _ h₁ in
      let (known, h₃) =
        refuse->> _ (eqb (count (is_message params.namespace_id params.message_id) db.messages) 0) _
          h₂ in
      (known, sym (ok-eq-ok h₃))

  enqueue_outbox-eq-ok :
      (now k : ℕ) (ms : List (CreateMailboxMessageParams V)) (db : Db) {db' : Db}
      → enqueue_outbox env now k ms db ≡ ok db'
      → (rows : List MessageRow) × Sent env now k ms rows
        × (db' ≡ record db { messages = db.messages ++ rows })
  unfolding enqueue_outbox
  enqueue_outbox-eq-ok now k [] db h = (
    [],
    none_left,
    sym (ok-eq-ok h)
        ∙ ap (λ (l : List MessageRow). record db { messages = l }) (sym (append-nil db.messages)),
  )
  enqueue_outbox-eq-ok now k (m ∷ ms) db {db'} h =
      let (sent, e, h₁) = >>=-eq-ok (enqueue_message_tx env now k m db) _ h in
      let (payload, metadata, added) = enqueue_message_tx-eq-ok env now k m db e in
      let (_, _, same, written, written') = added in
      let row =
        new_message_row m (default_string m.message_id (env.new_id "msg" k)) now payload metadata in
      let (rows, rest, after) = enqueue_outbox-eq-ok now (suc k) ms sent.1 h₁ in
      (
        row ∷ rows,
        one_more written written' rest,
        after
            ∙ ap (λ (d : Db). record d { messages = d.messages ++ rows }) same
            ∙ ap (λ (l : List MessageRow). record db { messages = l })
                (append_assoc db.messages (row ∷ []) rows),
      )

  -- A run whose end is recorded was known, and so was its message. The run gets its status, its
  -- value as the codec writes it, its error, usage and end; the message gets its fate, without a
  -- lease; the outbox is queued behind the other messages, in order, each message with its payload
  -- and its metadata as the codec writes them; and nothing else changes.
  pub complete_run-IsEnd :
      (params : CompleteRunParams V) (db : Db) {db' : Db}
      → complete_run env params db ≡ (ok tt, db')
      → IsEnd env params db db'
  unfolding complete_run finish_run release_row
  complete_run-IsEnd params db h =
      let (_, h₁) =
        refuse->> _
          (is_empty params.namespace_id || is_empty params.run_id || is_empty params.message_id) _
          (transaction-eq-ok db (finish_message env params db) h) in
      let (json, encoded, h₂) =
        >>=-eq-ok (marshal_optional_envelope env.codec "run_value" params.value) _ h₁ in
      let (_, h₃) = refuse->> _ (env.fails begin) _ h₂ in
      let (updated, e₁, h₄) = >>=-eq-ok (update_run_row env params json (env.now 0) db) _ h₃ in
      let (released, e₂, h₅) = >>=-eq-ok (update_message_row env params (env.now 0) updated) _ h₄ in
      let (sent, e₃, h₆) =
        >>=-eq-ok (enqueue_outbox env (env.now 0) 0 params.outbox released) _ h₅ in
      let (_, h₇) = refuse->> _ (env.fails commit) _ h₆ in
      let (run_known, u) = update_run_row-eq-ok params json (env.now 0) db e₁ in
      let (message_known, m) = update_message_row-eq-ok params (env.now 0) updated e₂ in
      let (rows, sent_rows, o) = enqueue_outbox-eq-ok (env.now 0) 0 params.outbox released e₃ in
      let final = sym (ap (λ p. p.1) (ok-eq-ok h₇)) ∙ o in
      record {
        value_json = json;
        encoded = encoded;
        outbox_rows = rows;
        run_known = run_known;
        message_known =
            ap
              (λ (d : Db).
                eqb (count (is_message params.namespace_id params.message_id) d.messages) 0)
              (sym u)
            ∙ message_known;
        runs = ap (λ d. d.runs) final ∙ ap (λ d. d.runs) m ∙ ap (λ d. d.runs) u;
        messages =
            ap (λ d. d.messages) final
            ∙ ap (λ d. d.messages ++ rows) m
            ∙ ap
                (λ (d : Db).
                  update_where (is_message params.namespace_id params.message_id)
                    (release_row (fate params) params.error (env.now 0)) d.messages
                  ++ rows)
                u;
        released = λ row. refl;
        sent = sent_rows;
        agents = ap (λ d. d.agents) final ∙ ap (λ d. d.agents) m ∙ ap (λ d. d.agents) u;
        steps = ap (λ d. d.steps) final ∙ ap (λ d. d.steps) m ∙ ap (λ d. d.steps) u;
        schedules = ap (λ d. d.schedules) final ∙ ap (λ d. d.schedules) m ∙ ap (λ d. d.schedules) u;
      }

  -- A run whose end is refused, for whatever reason, leaves the database as it was.
  pub complete_run-eq-err :
      (params : CompleteRunParams V) (db : Db) {e : StoreError} {db' : Db}
      → complete_run env params db ≡ (err e, db')
      → db' ≡ db
  unfolding complete_run
  complete_run-eq-err params db h = transaction-eq-err db (finish_message env params db) h
