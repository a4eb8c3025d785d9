-- ===== src/Store/Schedule.antt =====
-- pkg/server/store/schedule.go, and scanSchedule of store.go: messages that are sent at the times of
-- a cron expression.
pub mod Loop
pub mod Due
pub mod Fires
pub mod Come
pub mod Past
pub mod Kept
pub mod Edits
pub mod Once
mod Tests
use swarmd.Prelude.{
  ℕ, zero, suc, String, Bool, true, false, ◌&&◌, ◌||◌, List, [], ◌∷◌, Option, none, some, eqb, leb,
  ltb, if◌then◌else◌, is_empty, count, select, update_where, order_by, take, map, Result, ok, err,
  ◌>>=◌, ◌>>◌, refuse, or_err,
}
use swarmd.Store.Types.{
  Payload, nil, MailboxMessageRecord, ScheduleRecord, CreateMailboxMessageParams,
  CreateScheduleParams, StoreError, empty_id, not_found, bad_time_zone, bad_cron_expr,
  endless_schedule, database_failed,
}
use swarmd.Store.Envelope.{
  marshal_envelope, decode_envelope_any, default_string, default_int, to_millis, from_millis,
  null_millis_to_time, time_ptr_to_millis,
}
use swarmd.Store.Mailbox.Enqueue.{run_stmt, enqueue_message_tx}
use swarmd.Store.Tables.{
  begin, commit, query, insert_schedule, update_schedule, affected_schedule, Env, ScheduleRow, Db,
  is_schedule, add_schedule, Outcome, transaction,
}

-- What the code takes from the packages time and cron: a location is its name, a `C` is a parsed
-- expression, and `next` is its method `Next` on a time in a location. The zero time, which `Next`
-- returns if it finds none, is 0. `fire_metadata` builds the map of the identifier and the formatted
-- time.
pub record Calendar (V C : Type 0) : Type 0 where
  pub load_location : String → Option String
  pub parse_standard : String → Option C
  pub next : C → String → ℕ → ℕ
  pub fire_metadata : String → ℕ → Payload V

unfoldable pub scan_schedule : ScheduleRow → ScheduleRecord
scan_schedule row = record {
  namespace_id = row.namespace_id;
  id = row.schedule_id;
  agent_id = row.agent_id;
  cron_expr = row.cron_expr;
  time_zone = row.timezone;
  payload_json = row.payload_json;
  enabled = row.enabled;
  next_fire_at = null_millis_to_time row.next_fire_at_ms;
  last_fire_at = null_millis_to_time row.last_fire_at_ms;
  created_at = from_millis row.created_at_ms;
  updated_at = from_millis row.updated_at_ms;
}

-- `enabled = 1 AND next_fire_at_ms IS NOT NULL AND next_fire_at_ms <= ?`
abbrev pub is_due : ℕ → ScheduleRow → Bool
is_due now_ms row = row.enabled && elim row.next_fire_at_ms [ none ↦ false | some t ↦ leb t now_ms ]

abbrev pub next_ms : ScheduleRow → ℕ
next_ms row = elim row.next_fire_at_ms [ none ↦ 0 | some t ↦ t ]

-- `ORDER BY next_fire_at_ms ASC, updated_at_ms ASC`
abbrev pub fires_before : ScheduleRow → ScheduleRow → Bool
fires_before r s =
    ltb (next_ms r) (next_ms s)
    || (eqb (next_ms r) (next_ms s) && ltb r.updated_at_ms s.updated_at_ms)

-- The rows with the key that the UPDATE of a fire finds.
abbrev pub is_pending : String → String → ℕ → ScheduleRow → Bool
is_pending ns id due_ms row =
    is_schedule ns id row
    && row.enabled
    && elim row.next_fire_at_ms [ none ↦ false | some t ↦ eqb t due_ms ]

-- What the UPDATE of a fire writes.
abbrev pub fired_row : ℕ → ℕ → ℕ → ScheduleRow → ScheduleRow
fired_row due_at next_fire now row = record row {
  last_fire_at_ms = some (to_millis due_at);
  next_fire_at_ms = some (to_millis next_fire);
  updated_at_ms = to_millis now;
}

abbrev pub disabled_row : ℕ → ScheduleRow → ScheduleRow
disabled_row now row = record row {
  enabled = false;
  next_fire_at_ms = none;
  updated_at_ms = to_millis now;
}

-- What the INSERT of a schedule writes, and the record that is returned for it.
unfoldable pub new_schedule_row :
    {V : Type 0}
    → CreateScheduleParams V
    → (id location payload : String) → Option ℕ
    → ℕ
    → ScheduleRow
new_schedule_row params id location payload next now = record {
  namespace_id = params.namespace_id;
  schedule_id = id;
  agent_id = params.agent_id;
  cron_expr = params.cron_expr;
  timezone = location;
  payload_json = payload;
  enabled = params.enabled;
  next_fire_at_ms = time_ptr_to_millis next;
  last_fire_at_ms = none;
  created_at_ms = to_millis now;
  updated_at_ms = to_millis now;
}

unfoldable pub new_schedule_record :
    {V : Type 0}
    → CreateScheduleParams V
    → (id location payload : String) → Option ℕ
    → ℕ
    → ScheduleRecord
new_schedule_record params id location payload next now = record {
  namespace_id = params.namespace_id;
  id = id;
  agent_id = params.agent_id;
  cron_expr = params.cron_expr;
  time_zone = location;
  payload_json = payload;
  enabled = params.enabled;
  next_fire_at = next;
  last_fire_at = none;
  created_at = now;
  updated_at = now;
}

module _ {V C : Type 0} (calendar : Calendar V C) where
  unfoldable pub load_schedule_location : String → Result StoreError String
  load_schedule_location name =
      if is_empty name then ok "UTC" else or_err (calendar.load_location name) bad_time_zone

  -- `for !nextFire.After(now)`
  unfoldable pub next_after : (fuel : ℕ) → C → String → (next_fire now : ℕ) → Option ℕ
  next_after zero parsed location next_fire now = if leb next_fire now then none else some next_fire
  next_after (suc fuel) parsed location next_fire now =
      let later = next_after fuel parsed location (calendar.next parsed location next_fire) now in
      if leb next_fire now then later else some next_fire

module _ {V C : Type 0} (env : Env V) (calendar : Calendar V C) where
  unfoldable pub insert_new_schedule :
      CreateScheduleParams V → Db → Result StoreError (ScheduleRecord × Db)
  insert_new_schedule params db = do
    refuse (is_empty params.namespace_id || is_empty params.agent_id) empty_id
    location ← load_schedule_location calendar params.time_zone
    schedule ← or_err (calendar.parse_standard params.cron_expr) bad_cron_expr
    let now = env.now 0
    payload ← marshal_envelope env.codec "schedule_payload" params.payload
    let id = default_string params.schedule_id (env.new_id "sched" 0)
    let next = if params.enabled then some (calendar.next schedule location now) else none
    run_stmt env insert_schedule
    db' ← add_schedule (new_schedule_row params id location payload next now) db
    ok (new_schedule_record params id location payload next now, db')

  unfoldable pub create_schedule : CreateScheduleParams V → Db → Outcome ScheduleRecord
  unfolding insert_new_schedule
  create_schedule params db = transaction db (insert_new_schedule params db)

  unfoldable pub update_disabled : String → String → Db → Result StoreError (Unit {0} × Db)
  update_disabled ns id db = do
    run_stmt env update_schedule
    run_stmt env affected_schedule
    refuse (eqb (count (is_schedule ns id) db.schedules) 0) not_found
    ok (
      tt,
      record db {
        schedules = update_where (is_schedule ns id) (disabled_row (env.now 0)) db.schedules;
      },
    )

  unfoldable pub disable_schedule : String → String → Db → Outcome (Unit {0})
  unfolding update_disabled
  disable_schedule ns id db = transaction db (update_disabled ns id db)

  unfoldable pub fire_params :
      (now due_at k : ℕ) → ScheduleRecord → Payload V → CreateMailboxMessageParams V
  fire_params now due_at k r payload = record {
    namespace_id = r.namespace_id;
    message_id = "";
    thread_id = env.new_id "thread" k;
    sender_agent_id = "";
    recipient_agent_id = r.agent_id;
    kind = "schedule.fire";
    payload = payload;
    metadata = calendar.fire_metadata r.id due_at;
    available_at = some now;
    max_attempts = 5;
  }

  -- The transaction of a fire.
  unfoldable pub send_fire :
      (now due_at next_fire k : ℕ)
      → ScheduleRecord
      → Payload V
      → Db
      → Result StoreError (Option MailboxMessageRecord × Db)
  send_fire now due_at next_fire k r payload db =
      let hit = is_pending r.namespace_id r.id (to_millis due_at) in
      let rows = update_where hit (fired_row due_at next_fire now) db.schedules in
      let sent =
        (enqueue_message_tx env now k (fire_params now due_at k r payload)
            (record db { schedules = rows })
          >>= λ m. run_stmt env commit >> ok (some m.0, m.1)) in
      do
        run_stmt env begin
        run_stmt env update_schedule
        run_stmt env affected_schedule
        if eqb (count hit db.schedules) 0 then ok (none, db) else sent

  unfoldable pub fire_at :
      (fuel now due_at k : ℕ)
      → ScheduleRecord
      → Db
      → Result StoreError (Option MailboxMessageRecord × Db)
  fire_at fuel now due_at k r db = do
    location ← load_schedule_location calendar r.time_zone
    parsed ← or_err (calendar.parse_standard r.cron_expr) bad_cron_expr
    next_fire ←
        or_err (next_after calendar fuel parsed location (calendar.next parsed location due_at) now)
          endless_schedule
    payload ← decode_envelope_any env.codec r.payload_json
    send_fire now due_at next_fire k r payload db

  -- `fireSchedule`, the `k`-th of its call.
  unfoldable pub fire_schedule :
      (fuel now k : ℕ) → ScheduleRecord → Db → Outcome (Option MailboxMessageRecord)
  unfolding fire_at
  fire_schedule fuel now k r db = elim r.next_fire_at [
    | none ↦ (ok none, db)
    | some due_at ↦ transaction db (fire_at fuel now due_at k r db)
  ]

  abbrev pub with_fired :
      Option MailboxMessageRecord
      → Outcome (List MailboxMessageRecord)
      → Outcome (List MailboxMessageRecord)
  with_fired none rest = rest
  with_fired (some m) (ok ms, db) = (ok (m ∷ ms), db)
  with_fired (some m) (err e, db) = (err e, db)

  abbrev pub or_stop :
      Outcome (Option MailboxMessageRecord)
      → (Db → Outcome (List MailboxMessageRecord))
      → Outcome (List MailboxMessageRecord)
  or_stop (ok m, db) rest = with_fired m (rest db)
  or_stop (err e, db) rest = (err e, db)

  -- The loop over the schedules that are due: each is a transaction of its own.
  unfoldable pub fire_all :
      (fuel now k : ℕ) → List ScheduleRecord → Db → Outcome (List MailboxMessageRecord)
  unfolding fire_schedule
  fire_all fuel now k [] db = (ok [], db)
  fire_all fuel now k (r ∷ rs) db =
      or_stop (fire_schedule fuel now k r db) (λ db'. fire_all fuel now (suc k) rs db')

  unfoldable pub due_schedules : (now limit : ℕ) → Db → List ScheduleRecord
  due_schedules now limit db = map scan_schedule (
      take (default_int limit 32)
        (order_by fires_before (select (is_due (to_millis now)) db.schedules)))

  unfoldable pub fire_due_schedules :
      (fuel now limit : ℕ) → Db → Outcome (List MailboxMessageRecord)
  unfolding fire_all due_schedules
  fire_due_schedules fuel now limit db =
      if env.fails query
      then (err database_failed, db)
      else fire_all fuel now 0 (due_schedules now limit db) db
