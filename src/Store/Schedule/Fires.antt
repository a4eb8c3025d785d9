-- ===== src/Store/Schedule/Fires.antt =====
-- pkg/server/store/schedule.go: what a fire does.
use swarmd.Prelude.{
  ℕ, ◌≡◌, refl, sym, ap, ◌∙◌, String, Bool, true, false, [], ◌∷◌, ◌++◌, Option, none, some, eqb,
  count, update_where, Result, ok, refuse->>, or_err, or_err-eq-ok, >>=-eq-ok, ok-eq-ok,
  some-eq-some, if◌then◌else◌, Option-cases, inl, inr, is_empty, trim_space,
}
use swarmd.Store.Types.{
  Payload, MailboxMessageRecord, ScheduleRecord, CreateMailboxMessageParams, bad_cron_expr,
  endless_schedule, StoreError,
}
use swarmd.Store.Envelope.{
  marshal_envelope, marshal_optional_envelope, decode_envelope_any, to_millis,
}
use swarmd.Store.Mailbox.Enqueue.{new_message_row, new_message_record, enqueue_message_tx}
use swarmd.Store.Mailbox.Valid.Claims.{enqueue_message_tx-eq-ok}
use swarmd.Store.Tables.{
  begin, commit, update_schedule, affected_schedule, Env, MessageRow, Db, transaction,
}
use swarmd.Store.Tables.Inserts.{transaction-eq-ok}
use swarmd.Store.Schedule.Loop.{Passed, next_after-eq-some}
use swarmd.Store.Schedule.{
  Calendar, is_pending, fired_row, load_schedule_location, next_after, fire_params, send_fire,
  fire_at, fire_schedule,
}

-- What a fire changes, with the zone, the expression and the payload of the record.
pub record IsFire {V C : Type 0} (env : Env V) (calendar : Calendar V C) (now due_at k : ℕ)
    (r : ScheduleRecord) (db : Db) (m : MailboxMessageRecord) (db' : Db) : Type 0 where
  pub due : r.next_fire_at ≡ some due_at
  pub location : String
  pub located : load_schedule_location calendar r.time_zone ≡ ok location
  pub parsed : C
  pub parses : calendar.parse_standard r.cron_expr ≡ some parsed
  pub next_fire : ℕ
  pub first : Passed calendar parsed location now (calendar.next parsed location due_at) next_fire
  pub payload : Payload V
  pub decoded : decode_envelope_any env.codec r.payload_json ≡ ok payload
  pub payload_json : String
  pub written : marshal_envelope env.codec "mailbox_payload" payload ≡ ok payload_json
  pub metadata_json : String
  pub noted :
      marshal_optional_envelope env.codec "mailbox_metadata" (calendar.fire_metadata r.id due_at)
      ≡ ok metadata_json
  pub pending :
      eqb (count (is_pending r.namespace_id r.id (to_millis due_at)) db.schedules) 0 ≡ false
  -- the message that is sent
  pub params : CreateMailboxMessageParams V
  pub asked : params ≡ record {
    namespace_id = r.namespace_id;
    message_id = "";
    thread_id = env.new_id "thread" k;
    sender_agent_id = "";
    recipient_agent_id = r.agent_id;
    kind = "schedule.fire";
    payload = payload;
    metadata = calendar.fire_metadata r.id due_at;
    available_at = some now;
    max_attempts = 5;
  }
  pub row : MessageRow
  pub same_row : row ≡ new_message_row params (env.new_id "msg" k) now payload_json metadata_json
  pub told : m ≡ new_message_record params now row
  pub after : db' ≡ record db {
    messages = db.messages ++ row ∷ [];
    schedules =
        update_where
          (is_pending r.namespace_id r.id (to_millis due_at))
          (λ s. record s {
            last_fire_at_ms = some (to_millis due_at);
            next_fire_at_ms = some (to_millis next_fire);
            updated_at_ms = to_millis now;
          })
          db.schedules;
  }

module _ {V C : Type 0} (env : Env V) (calendar : Calendar V C) where
  send_fire-IsFire :
      (fuel now due_at next_fire k : ℕ) (r : ScheduleRecord) (payload : Payload V)
      (location : String) (parsed : C) (db : Db) {m : MailboxMessageRecord} {db' : Db}
      → r.next_fire_at ≡ some due_at
      → load_schedule_location calendar r.time_zone ≡ ok location
      → calendar.parse_standard r.cron_expr ≡ some parsed
      → next_after calendar fuel parsed location (calendar.next parsed location due_at) now
        ≡ some next_fire
      → decode_envelope_any env.codec r.payload_json ≡ ok payload
      → send_fire env calendar now due_at next_fire k r payload db ≡ ok (some m, db')
      → IsFire env calendar now due_at k r db m db'
  unfolding send_fire fire_params is_empty trim_space
  send_fire-IsFire fuel now due_at next_fire k r payload location parsed db {m = m} {db' = db'} due
        located parses next decoded h =
      let (_, h₁) = refuse->> _ (env.fails begin) _ h in
      let (_, h₂) = refuse->> _ (env.fails update_schedule) _ h₁ in
      let (_, h₃) = refuse->> _ (env.fails affected_schedule) _ h₂ in
      let hit = is_pending r.namespace_id r.id (to_millis due_at) in
      let (there, h₄) = chosen (eqb (count hit db.schedules) 0) _ h₃ in
      let (sent, e, h₅) =
        >>=-eq-ok
          (enqueue_message_tx env now k (fire_params env calendar now due_at k r payload)
            (record db {
              schedules = update_where hit (fired_row due_at next_fire now) db.schedules;
            }))
          _ h₄ in
      let (_, h₆) = refuse->> _ (env.fails commit) _ h₅ in
      let (payload_json, metadata_json, added) =
        enqueue_message_tx-eq-ok env now k (fire_params env calendar now due_at k r payload) _ e in
      let (told, fresh, same, written, noted) = added in
      record {
        due = due;
        location = location;
        located = located;
        parsed = parsed;
        parses = parses;
        next_fire = next_fire;
        first = next_after-eq-some calendar parsed location fuel _ now next;
        payload = payload;
        decoded = decoded;
        payload_json = payload_json;
        written = written;
        metadata_json = metadata_json;
        noted = noted;
        params = fire_params env calendar now due_at k r payload;
        asked = refl;
        pending = there;
        row =
            new_message_row (fire_params env calendar now due_at k r payload) (env.new_id "msg" k)
              now payload_json metadata_json;
        same_row = refl;
        told = some-eq-some (ap (λ p. p.0) (sym (ok-eq-ok h₆))) ∙ told;
        after = ap (λ p. p.1) (sym (ok-eq-ok h₆)) ∙ same;
      }
    where
      chosen :
          (b : Bool) (s : Result StoreError (Option MailboxMessageRecord × Db))
          → (if b then ok (none, db) else s) ≡ ok (some m, db')
          → (b ≡ false) × (s ≡ ok (some m, db'))
      chosen true s e = absurd (differ (ap (λ p. p.0) (ok-eq-ok e)))
        where
          differ :
              {x : MailboxMessageRecord} → ◌≡◌ {A = Option MailboxMessageRecord} none (some x) → ⊥
          differ q = cc
      chosen false s e = (refl, e)

  fire_at-IsFire :
      (fuel now k due_at : ℕ) (r : ScheduleRecord) (db : Db) {m : MailboxMessageRecord} {db' : Db}
      → r.next_fire_at ≡ some due_at
      → fire_at env calendar fuel now due_at k r db ≡ ok (some m, db')
      → IsFire env calendar now due_at k r db m db'
  unfolding fire_at
  fire_at-IsFire fuel now k due_at r db due h =
      let (location, located, h₁) = >>=-eq-ok (load_schedule_location calendar r.time_zone) _ h in
      let (parsed, parses, h₂) =
        >>=-eq-ok (or_err (calendar.parse_standard r.cron_expr) bad_cron_expr) _ h₁ in
      let loop =
        next_after calendar fuel parsed location (calendar.next parsed location due_at) now in
      let (next_fire, e, h₃) = >>=-eq-ok (or_err loop endless_schedule) _ h₂ in
      let (payload, decoded, h₄) = >>=-eq-ok (decode_envelope_any env.codec r.payload_json) _ h₃ in
      send_fire-IsFire fuel now due_at next_fire k r payload location parsed db due located
        (or_err-eq-ok _ (calendar.parse_standard r.cron_expr) parses) (or_err-eq-ok _ loop e)
        decoded h₄

  pub fire_schedule_due :
      (fuel now k due_at : ℕ) (r : ScheduleRecord) (db : Db)
      → r.next_fire_at ≡ some due_at
      → fire_schedule env calendar fuel now k r db
        ≡ transaction db (fire_at env calendar fuel now due_at k r db)
  unfolding fire_schedule send_fire fire_params
  fire_schedule_due fuel now k due_at r db due = rw (fire_schedule, due) refl

  pub fire_schedule_idle :
      (fuel now k : ℕ) (r : ScheduleRecord) (db : Db)
      → r.next_fire_at ≡ none
      → fire_schedule env calendar fuel now k r db ≡ (ok none, db)
  unfolding fire_schedule
  fire_schedule_idle fuel now k r db idle = rw (fire_schedule, idle) refl

  -- A schedule that fired had a next time, was enabled, and was waiting for that time. Its row now
  -- waits for the first time after the clock that the loop finds in the record's expression and
  -- zone. One message for its agent, with the record's payload and the metadata of the fire as the
  -- codec writes them, is queued behind the others and told to the caller, and nothing else changes.
  pub fire_schedule-IsFire :
      (fuel now k : ℕ) (r : ScheduleRecord) (db : Db) {m : MailboxMessageRecord} {db' : Db}
      → fire_schedule env calendar fuel now k r db ≡ (ok (some m), db')
      → (due_at : ℕ) × IsFire env calendar now due_at k r db m db'
  fire_schedule-IsFire fuel now k r db {m = m} {db' = db'} h = elim (Option-cases r.next_fire_at) [
    | inl idle ↦ absurd (differ (ap (λ o. o.0) (sym (fire_schedule_idle fuel now k r db idle) ∙ h)))
    | inr (due_at, due) ↦ (
      due_at,
      fire_at-IsFire fuel now k due_at r db due (
          transaction-eq-ok db (fire_at env calendar fuel now due_at k r db)
            (sym (fire_schedule_due fuel now k due_at r db due) ∙ h)),
    )
  ]
    where
      differ : ◌≡◌ {A = Result StoreError (Option MailboxMessageRecord)} (ok none) (ok (some m)) → ⊥
      differ q = cc
