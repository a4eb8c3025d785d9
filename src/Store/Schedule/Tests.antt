-- ===== src/Store/Schedule/Tests.antt =====
-- pkg/server/store/schedule.go on a schedule that fires every second.
use swarmd.Prelude.{
  ℕ, suc, count, ◌≤◌, ◌+◌, ◌*◌, ◌/◌, ◌%◌, ◌<◌, ◌≡◌, ◌≢◌, refl, String, true, false, ◌&&◌, none,
  some, order_by, ok, is_ok, ok_value, ok_value-eq, arith, Has, inl, first, leb, is_empty,
  trim_space,
}
use swarmd.Store.Types.{
  nil, text, CreateMailboxMessageParams, CreateScheduleParams, ScheduleRecord, MailboxMessageRecord,
}
use swarmd.Store.Envelope.{
  to_millis, marshal_envelope, decode_envelope_any, marshal_optional_envelope,
}
use swarmd.Store.Tables.{Db, ScheduleRow, is_schedule, add_schedule, add_message}
use swarmd.Store.Mailbox.Enqueue.{enqueue_message_tx, new_message_row, new_message_record}
use swarmd.Store.Mailbox.Tests.{test_env, empty_db}
use swarmd.Store.Schedule.{
  Calendar, is_due, next_after, create_schedule, disable_schedule, fire_schedule,
  load_schedule_location, new_schedule_row, new_schedule_record, send_fire, fire_params,
  fire_due_schedules, scan_schedule, due_schedules,
}
use swarmd.Store.Schedule.Loop.{Passed, next_after-Passed, next_after-endless}
use swarmd.Store.Schedule.Due.{create_schedule-is_due, disable_schedule-is_due}
use swarmd.Store.Schedule.Fires.{IsFire, fire_schedule-IsFire}
use swarmd.Store.Schedule.Once.{Steps, done, next_step, fires_due, disables, fire_schedule-once}

abbrev every_second : Calendar ℕ (Unit {0})
every_second = record {
  load_location = λ n. some n;
  parse_standard = λ s. some tt;
  next = λ c l t. (t / 1000000000 + 1) * 1000000000;
  fire_metadata = λ id t. nil;
}

-- `0 0 30 2 *`
abbrev no_day : Calendar ℕ (Unit {0})
no_day = record every_second { next = λ c l t. 0 }

moves_on : (c : Unit {0}) (l : String) (t : ℕ) → t < every_second.next c l t
moves_on c l t = omega arith

whole : (c : Unit {0}) (l : String) (t : ℕ) → every_second.next c l t % 1000000 ≡ 0
whole c l t = omega arith

schedule_code : Unit {0}
unfolding create_schedule disable_schedule fire_schedule load_schedule_location new_schedule_row
    new_schedule_record send_fire fire_params next_after marshal_envelope decode_envelope_any
    marshal_optional_envelope add_schedule add_message enqueue_message_tx new_message_row is_empty
    trim_space fire_due_schedules scan_schedule due_schedules order_by
schedule_code = tt

abbrev ticking : CreateScheduleParams ℕ
ticking = record {
  namespace_id = "n";
  schedule_id = "s";
  agent_id = "a";
  cron_expr = "* * * * *";
  time_zone = "";
  payload = text "tick";
  enabled = true;
}

-- The first row of the table.
abbrev latest : Db → ScheduleRow
latest db = elim (first db.schedules) [
  | some s ↦ s
  | none ↦ new_schedule_row ticking "" "" "" none 0
]

created_ok : is_ok (create_schedule (test_env 1 "x") every_second ticking empty_db).0 ≡ true
unfolding schedule_code
created_ok = refl

abbrev created : ScheduleRecord
created = ok_value (create_schedule (test_env 1 "x") every_second ticking empty_db).0 created_ok

abbrev created_db : Db
created_db = (create_schedule (test_env 1 "x") every_second ticking empty_db).1

abbrev told : ScheduleRecord
told = record {
  namespace_id = "n";
  id = "s";
  agent_id = "a";
  cron_expr = "* * * * *";
  time_zone = "UTC";
  payload_json = created.payload_json;
  enabled = true;
  next_fire_at = some 2000000000;
  last_fire_at = none;
  created_at = 1000000000;
  updated_at = 1000000000;
}

abbrev tick : CreateMailboxMessageParams ℕ
tick = fire_params (test_env 5 "m") every_second 5500000000 2000000000 0 told (text "tick")

abbrev fired_message : MailboxMessageRecord
fired_message = new_message_record tick 5500000000 (new_message_row tick "m" 5500000000 "tick" "")

abbrev fired_db : Db
fired_db = (fire_schedule (test_env 5 "m") every_second 10 5500000000 0 told created_db).1

fired :
    fire_schedule (test_env 5 "m") every_second 10 5500000000 0 told created_db
    ≡ (ok (some fired_message), fired_db)
unfolding schedule_code
fired = refl

-- The times that were missed are one message.
caught_up : is_due 5999 (latest fired_db) ≡ false
unfolding schedule_code
caught_up = refl

due_again : is_due 6000 (latest fired_db) ≡ true
unfolding schedule_code
due_again = refl

fires_all :
    is_ok (fire_due_schedules (test_env 5 "m") every_second 10 5500000000 0 created_db).0 ≡ true
unfolding schedule_code
fires_all = refl

next_after-Passed_example :
    (n : ℕ) × (next_after every_second (suc 1500000000) tt "UTC" 0 1500000000 ≡ some n)
    × Passed every_second tt "UTC" 1500000000 0 n
next_after-Passed_example = next_after-Passed every_second tt "UTC" (moves_on tt "UTC") 0 1500000000

never : (t : ℕ) → no_day.next tt "UTC" t ≡ 0
never t = refl

next_after-endless_example : next_after no_day 3 tt "UTC" (no_day.next tt "UTC" 7) 9 ≡ none
next_after-endless_example = next_after-endless no_day tt "UTC" never 3 7 9

create_schedule-is_due_example :
    (s : ScheduleRow) × Has s created_db.schedules
    × (s.schedule_id ≡ created.id)
    × ((now_ms : ℕ)
        → is_due now_ms s ≡ (
            ticking.enabled
            && elim created.next_fire_at [ none ↦ false | some t ↦ leb (to_millis t) now_ms ]))
create_schedule-is_due_example =
    create_schedule-is_due (test_env 1 "x") every_second ticking empty_db
      (ok_value-eq (create_schedule (test_env 1 "x") every_second ticking empty_db) created_ok)

abbrev disabled_db : Db
disabled_db = (disable_schedule (test_env 2 "x") every_second "n" "s" created_db).1

disabled : disable_schedule (test_env 2 "x") every_second "n" "s" created_db ≡ (ok tt, disabled_db)
unfolding schedule_code
disabled = refl

abbrev off : ScheduleRow
off = latest disabled_db

off-Has : Has off disabled_db.schedules
unfolding schedule_code
off-Has = inl refl

off_key : is_schedule "n" "s" off ≡ true
unfolding schedule_code
off_key = refl

disable_schedule-is_due_example : is_due 9000 off ≡ false
disable_schedule-is_due_example =
    disable_schedule-is_due (test_env 2 "x") every_second "n" "s" created_db off disabled off-Has
      off_key 9000

fire_schedule-IsFire_example :
    (due_at : ℕ) × IsFire
      (test_env 5 "m")
      every_second
      5500000000
      due_at
      0
      told
      created_db
      fired_message
      fired_db
fire_schedule-IsFire_example =
    fire_schedule-IsFire (test_env 5 "m") every_second 10 5500000000 0 told created_db fired

one_row : count (is_schedule "n" "s") created_db.schedules ≤ 1
unfolding schedule_code
one_row = omega arith

-- Another server fires at 6.5 seconds, and somebody turns the schedule off.
abbrev fired_again_db : Db
fired_again_db = (fire_due_schedules (test_env 6 "m2") every_second 10 6500000000 0 fired_db).1

abbrev turned_off_db : Db
turned_off_db = (disable_schedule (test_env 7 "x") every_second "n" "s" fired_again_db).1

meanwhile : Steps every_second fired_db turned_off_db
meanwhile =
    next_step (fires_due (test_env 6 "m2") 10 6500000000 0)
      (next_step (disables (test_env 7 "x") "n" "s") done)

fire_schedule-once_example :
    (fire_schedule (test_env 8 "m3") every_second 10 8500000000 0 told turned_off_db).0
    ≢ ok (some fired_message)
fire_schedule-once_example =
    fire_schedule-once every_second whole (test_env 5 "m") (test_env 8 "m3") 10 5500000000 0
      2000000000 told created_db one_row refl (omega arith) fired meanwhile 10 8500000000 0
      2000000000 told fired_message refl refl refl (omega arith)
