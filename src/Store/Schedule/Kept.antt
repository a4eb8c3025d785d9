-- ===== src/Store/Schedule/Kept.antt =====
-- pkg/server/store/schedule.go: a time that has passed for a schedule stays passed in every call.
use swarmd.Prelude.{
  ℕ, suc, ◌<◌, ◌≤◌, ◌≡◌, ◌≢◌, refl, sym, ap, ◌∙◌, subst, String, Bool, true, false, List, [], ◌∷◌,
  Option, none, some, eqb, any-update_where, All, All-update_where, count, update_where, Result, ok,
  err, refuse->>, or_err, >>=-eq-ok, ◌>>=◌, ◌>>◌, ok-eq-ok, if◌then◌else◌, Bool-cases, Option-cases,
  inl, inr, arith, ◌%◌,
}
use swarmd.Store.Types.{
  Payload, MailboxMessageRecord, ScheduleRecord, bad_cron_expr, endless_schedule, StoreError,
}
use swarmd.Store.Envelope.{decode_envelope_any, to_millis}
use swarmd.Store.Tables.{
  begin, commit, query, update_schedule, affected_schedule, Env, ScheduleRow, Db, is_schedule,
}
use swarmd.Store.Tables.Inserts.{transaction-eq-ok, transaction-eq-err}
use swarmd.Store.Schedule.{
  Calendar, is_pending, fired_row, fire_params, load_schedule_location, next_after, send_fire,
  fire_at, fire_schedule, fire_all, or_stop, with_fired, due_schedules, fire_due_schedules,
}
use swarmd.Store.Schedule.Loop.{Passed, reached, passed}
use swarmd.Store.Schedule.Come.{HasCome, due_schedules-HasCome}
use swarmd.Store.Schedule.Past.{is_past, IsPast, fired-is_past}
use swarmd.Store.Schedule.Fires.{
  IsFire, fire_schedule_due, fire_schedule_idle, fire_schedule-IsFire,
}
use swarmd.Store.Mailbox.Enqueue.{run_stmt, enqueue_message_tx}

module _ {V C : Type 0} (calendar : Calendar V C)
    (whole : (c : C) (location : String) (t : ℕ) → calendar.next c location t % 1000000 ≡ 0) where
  -- A time that the loop ends on is one of the calendar after the clock.
  pub Passed_lt :
      (c : C) (location : String) (now : ℕ) {t n : ℕ}
      → t % 1000000 ≡ 0
      → Passed calendar c location now t n
      → (now < n) × (n % 1000000 ≡ 0)
  Passed_lt c location now w (reached t lt) = (lt, w)
  Passed_lt c location now w (passed t n le rest) =
      Passed_lt c location now (whole c location t) rest

  pub to_millis_lt :
      (due_at now n : ℕ) → due_at ≤ now → now < n → n % 1000000 ≡ 0 → to_millis due_at < to_millis n
  to_millis_lt due_at now n le lt w = omega arith

  module _ (env : Env V) where
    send_fire-none :
        (now due_at next_fire k : ℕ) (r : ScheduleRecord) (payload : Payload V) (db : Db) {db' : Db}
        → send_fire env calendar now due_at next_fire k r payload db ≡ ok (none, db')
        → db' ≡ db
    unfolding send_fire
    send_fire-none now due_at next_fire k r payload db {db' = db'} h =
        let (_, h₁) = refuse->> _ (env.fails begin) _ h in
        let (_, h₂) = refuse->> _ (env.fails update_schedule) _ h₁ in
        let (_, h₃) = refuse->> _ (env.fails affected_schedule) _ h₂ in
        let hit = is_pending r.namespace_id r.id (to_millis due_at) in
        let rows = update_where hit (fired_row due_at next_fire now) db.schedules in
        let params = fire_params env calendar now due_at k r payload in
        none_sent (eqb (count hit db.schedules) 0)
          (enqueue_message_tx env now k params (record db { schedules = rows })) h₃
      where
        none_sent :
            (b : Bool) (q : Result StoreError (MailboxMessageRecord × Db))
            → ◌≡◌ {A = Result StoreError (Option MailboxMessageRecord × Db)}
                (if b
                  then ok (none, db)
                  else (q >>= λ m. run_stmt env commit >> ok (some m.0, m.1)))
                (ok (none, db'))
            → db' ≡ db
        none_sent true q e = sym (ap (λ x. x.1) (ok-eq-ok e))
        none_sent false q e =
            let (m, _, e₁) = >>=-eq-ok q _ e in
            let (_, e₂) = refuse->> _ (env.fails commit) _ e₁ in
            absurd (differ (ap (λ x. x.0) (ok-eq-ok e₂)))
          where
            differ :
                {x : MailboxMessageRecord} → ◌≡◌ {A = Option MailboxMessageRecord} (some x) none → ⊥
            differ q = cc

    fire_at-none :
        (fuel now k due_at : ℕ) (r : ScheduleRecord) (db : Db) {db' : Db}
        → fire_at env calendar fuel now due_at k r db ≡ ok (none, db')
        → db' ≡ db
    unfolding fire_at
    fire_at-none fuel now k due_at r db h =
        let (location, _, h₁) = >>=-eq-ok (load_schedule_location calendar r.time_zone) _ h in
        let (parsed, _, h₂) =
          >>=-eq-ok (or_err (calendar.parse_standard r.cron_expr) bad_cron_expr) _ h₁ in
        let loop =
          next_after calendar fuel parsed location (calendar.next parsed location due_at) now in
        let (next_fire, _, h₃) = >>=-eq-ok (or_err loop endless_schedule) _ h₂ in
        let (payload, _, h₄) = >>=-eq-ok (decode_envelope_any env.codec r.payload_json) _ h₃ in
        send_fire-none now due_at next_fire k r payload db h₄

    unfired :
        (fuel now k : ℕ) (r : ScheduleRecord) (db : Db)
        (o : Result StoreError (Option MailboxMessageRecord) × Db)
        → ((m : MailboxMessageRecord) → o.0 ≢ ok (some m))
        → fire_schedule env calendar fuel now k r db ≡ o
        → o.1 ≡ db
    unfired fuel now k r db (ok (some m), db') quiet h = absurd (quiet m refl)
    unfired fuel now k r db (ok none, db') quiet h = elim (Option-cases r.next_fire_at) [
      | inl idle ↦ ap (λ o. o.1) (sym h ∙ fire_schedule_idle env calendar fuel now k r db idle)
      | inr (due_at, due) ↦ fire_at-none fuel now k due_at r db (
          transaction-eq-ok db (fire_at env calendar fuel now due_at k r db)
            (sym (fire_schedule_due env calendar fuel now k due_at r db due) ∙ h))
    ]
    unfired fuel now k r db (err e, db') quiet h = elim (Option-cases r.next_fire_at) [
      | inl idle ↦ ap (λ o. o.1) (sym h ∙ fire_schedule_idle env calendar fuel now k r db idle)
      | inr (due_at, due) ↦
          transaction-eq-err db (fire_at env calendar fuel now due_at k r db)
            (sym (fire_schedule_due env calendar fuel now k due_at r db due) ∙ h)
    ]

    -- A fire that moves the row on leaves a passed time passed.
    fire-IsPast :
        (now due_at k : ℕ) (r : ScheduleRecord) (db : Db) {m : MailboxMessageRecord} {db' : Db}
        (ns id : String) (due_ms : ℕ)
        → due_at ≤ now
        → IsFire env calendar now due_at k r db m db'
        → IsPast ns id due_ms db
        → IsPast ns id due_ms db'
    fire-IsPast now due_at k r db ns id due_ms come f past =
        let (lt, w) =
          Passed_lt f.parsed f.location now (whole f.parsed f.location due_at) f.first in
        let later = to_millis_lt due_at now f.next_fire come lt w in
        let hit = is_pending r.namespace_id r.id (to_millis due_at) in
        let change : ScheduleRow → ScheduleRow = fired_row due_at f.next_fire now in
        subst (λ d. IsPast ns id due_ms d) (sym f.after)
          (
            any-update_where (is_schedule ns id) hit change (λ x. refl) db.schedules ∙ past.0,
            All-update_where (λ row. is_past ns id due_ms row ≡ true) hit change
                (λ x t p.
                  fired-is_past (is_schedule ns id x) (is_schedule r.namespace_id r.id x)
                    x.next_fire_at_ms x.enabled (to_millis due_at) (to_millis f.next_fire) due_ms t
                    p later)
                db.schedules past.1,
          )

    pub fired-IsPast :
        (fuel now k : ℕ) (r : ScheduleRecord) (db : Db) (ns id : String) (due_ms : ℕ)
        → HasCome r now
        → IsPast ns id due_ms db
        → IsPast ns id due_ms (fire_schedule env calendar fuel now k r db).1
    fired-IsPast fuel now k r db ns id due_ms come past =
        keeps (fire_schedule env calendar fuel now k r db) refl
      where
        keeps :
            (o : Result StoreError (Option MailboxMessageRecord) × Db)
            → fire_schedule env calendar fuel now k r db ≡ o
            → IsPast ns id due_ms o.1
        keeps (ok (some m), db') h =
            let (due_at, f) = fire_schedule-IsFire env calendar fuel now k r db h in
            fire-IsPast now due_at k r db ns id due_ms (come due_at f.due) f past
        keeps (ok none, db') h =
            subst (IsPast ns id due_ms) (sym (unfired fuel now k r db (ok none, db') (λ m q. cc) h))
              past
        keeps (err e, db') h =
            subst (IsPast ns id due_ms) (sym (unfired fuel now k r db (err e, db') (λ m q. cc) h))
              past

    stop-IsPast :
        (o : Result StoreError (Option MailboxMessageRecord) × Db)
        (rest : Db → Result StoreError (List MailboxMessageRecord) × Db) (ns id : String)
        (due_ms : ℕ)
        → IsPast ns id due_ms o.1
        → ((d : Db) → IsPast ns id due_ms d → IsPast ns id due_ms (rest d).1)
        → IsPast ns id due_ms (or_stop env calendar o rest).1
    stop-IsPast (ok none, d) rest ns id due_ms past keep = keep d past
    stop-IsPast (ok (some m), d) rest ns id due_ms past keep = told (rest d) (keep d past)
      where
        told :
            (o : Result StoreError (List MailboxMessageRecord) × Db)
            → IsPast ns id due_ms o.1
            → IsPast ns id due_ms (with_fired env calendar (some m) o).1
        told (ok ms, d') h = h
        told (err e, d') h = h
    stop-IsPast (err e, d) rest ns id due_ms past keep = past

    fire_all-IsPast :
        (fuel now k : ℕ) (rs : List ScheduleRecord) (db : Db) (ns id : String) (due_ms : ℕ)
        → All (λ r. HasCome r now) rs
        → IsPast ns id due_ms db
        → IsPast ns id due_ms (fire_all env calendar fuel now k rs db).1
    unfolding fire_all
    fire_all-IsPast fuel now k [] db ns id due_ms come past = past
    fire_all-IsPast fuel now k (r ∷ rs) db ns id due_ms come past =
        stop-IsPast (fire_schedule env calendar fuel now k r db)
          (λ d. fire_all env calendar fuel now (suc k) rs d) ns id due_ms
          (fired-IsPast fuel now k r db ns id due_ms come.0 past)
          (λ d h. fire_all-IsPast fuel now (suc k) rs d ns id due_ms come.1 h)

    pub fire_due_schedules-IsPast :
        (fuel now limit : ℕ) (db : Db) (ns id : String) (due_ms : ℕ)
        → IsPast ns id due_ms db
        → IsPast ns id due_ms (fire_due_schedules env calendar fuel now limit db).1
    unfolding fire_due_schedules
    fire_due_schedules-IsPast fuel now limit db ns id due_ms past =
        elim (Bool-cases (env.fails query)) [
          | inl t ↦ rw t past
          | inr f ↦ rw f (
              fire_all-IsPast fuel now 0 (due_schedules env calendar now limit db) db ns id due_ms
                (due_schedules-HasCome env calendar now limit db) past)
        ]
