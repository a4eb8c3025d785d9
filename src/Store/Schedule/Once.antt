-- ===== src/Store/Schedule/Once.antt =====
-- pkg/server/store/schedule.go: no time of a schedule is fired twice, whatever calls come between.
use swarmd.Prelude.{
  ℕ, ◌<◌, ◌≤◌, ◌≡◌, ◌≢◌, refl, sym, ap, ◌∙◌, subst, String, Bool, true, false, not, ◌||◌, List, [],
  ◌∷◌, some, eqb, ltb, any, any-update_where, All, count, ok, Bool-cases, inl, inr, arith, ◌%◌,
  some-eq-some,
}
use swarmd.Store.Types.{MailboxMessageRecord, ScheduleRecord, CreateScheduleParams}
use swarmd.Store.Envelope.{to_millis}
use swarmd.Store.Tables.{Env, ScheduleRow, Db, is_schedule}
use swarmd.Store.Schedule.{
  Calendar, is_pending, fired_row, create_schedule, disable_schedule, fire_schedule,
  fire_due_schedules,
}
use swarmd.Store.Schedule.Come.{HasCome}
use swarmd.Store.Schedule.Past.{is_past, IsPast, unique-past, past-count}
use swarmd.Store.Schedule.Fires.{IsFire, fire_schedule-IsFire}
use swarmd.Store.Schedule.Kept.{Passed_lt, to_millis_lt, fired-IsPast, fire_due_schedules-IsPast}
use swarmd.Store.Schedule.Edits.{create-IsPast, disable-IsPast}

module _ {V C : Type 0} (calendar : Calendar V C) where
  -- The calls on the table of schedules, by any server and at any time, each with whatever it
  -- returns; and whatever else leaves that table as it is.
  pub data Step : Db → Db → Type 0 where
    fires_due :
        {db : Db} (env : Env V) (fuel now limit : ℕ)
        → Step db (fire_due_schedules env calendar fuel now limit db).1
    fires :
        {db : Db} (env : Env V) (fuel now k : ℕ) (r : ScheduleRecord)
        → HasCome r now
        → Step db (fire_schedule env calendar fuel now k r db).1
    creates :
        {db : Db} (env : Env V) (params : CreateScheduleParams V)
        → Step db (create_schedule env calendar params db).1
    disables :
        {db : Db} (env : Env V) (ns id : String)
        → Step db (disable_schedule env calendar ns id db).1
    leaves : {db db' : Db} → db'.schedules ≡ db.schedules → Step db db'

  pub data Steps : Db → Db → Type 0 where
    done : {db : Db} → Steps db db
    next_step : {db db' db'' : Db} → Step db db' → Steps db' db'' → Steps db db''

module _ {V C : Type 0} (calendar : Calendar V C)
    (whole : (c : C) (location : String) (t : ℕ) → calendar.next c location t % 1000000 ≡ 0) where
  Step-IsPast :
      {db db' : Db} (ns id : String) (due_ms : ℕ)
      → Step calendar db db'
      → IsPast ns id due_ms db
      → IsPast ns id due_ms db'
  Step-IsPast {db} ns id due_ms (fires_due env fuel now limit) past =
      fire_due_schedules-IsPast calendar whole env fuel now limit db ns id due_ms past
  Step-IsPast {db} ns id due_ms (fires env fuel now k r come) past =
      fired-IsPast calendar whole env fuel now k r db ns id due_ms come past
  Step-IsPast {db} ns id due_ms (creates env params) past =
      create-IsPast env calendar params db ns id due_ms past
  Step-IsPast {db} ns id due_ms (disables env ns' id') past =
      disable-IsPast env calendar ns' id' db ns id due_ms past
  Step-IsPast ns id due_ms (leaves same) past =
      subst
        (λ rows.
          (any (is_schedule ns id) rows ≡ true) × All (λ row. is_past ns id due_ms row ≡ true) rows)
        (sym same) past

  Steps-IsPast :
      {db db' : Db} (ns id : String) (due_ms : ℕ)
      → Steps calendar db db'
      → IsPast ns id due_ms db
      → IsPast ns id due_ms db'
  Steps-IsPast ns id due_ms done past = past
  Steps-IsPast ns id due_ms (next_step step rest) past =
      Steps-IsPast ns id due_ms rest (Step-IsPast ns id due_ms step past)

  -- A fire leaves its time passed, if one row has the key.
  IsFire-IsPast :
      (env : Env V) (now due_at k : ℕ) (r : ScheduleRecord) (db : Db) {m : MailboxMessageRecord}
      {db' : Db}
      → count (is_schedule r.namespace_id r.id) db.schedules ≤ 1
      → due_at ≤ now
      → IsFire env calendar now due_at k r db m db'
      → IsPast r.namespace_id r.id (to_millis due_at) db'
  IsFire-IsPast env now due_at k r db one come f =
      let (lt, w) =
        Passed_lt calendar whole f.parsed f.location now (whole f.parsed f.location due_at)
          f.first in
      let later = to_millis_lt calendar whole due_at now f.next_fire come lt w in
      let key = is_schedule r.namespace_id r.id in
      let hit = is_pending r.namespace_id r.id (to_millis due_at) in
      let change : ScheduleRow → ScheduleRow = fired_row due_at f.next_fire now in
      subst (IsPast r.namespace_id r.id (to_millis due_at)) (sym f.after) (
        any-update_where key hit change (λ x. refl) db.schedules
            ∙ count-any key hit pending-key db.schedules f.pending,
        unique-past r.namespace_id r.id (to_millis due_at) hit change pending-key
            (λ x. moved (key x) (to_millis due_at) _ later) db.schedules one f.pending,
      )
    where
      pending-key :
          (x : ScheduleRow)
          → is_pending r.namespace_id r.id (to_millis due_at) x ≡ true
          → is_schedule r.namespace_id r.id x ≡ true
      pending-key x h = ground arith

      moved :
          (key : Bool) (old_ms new_ms : ℕ) → old_ms < new_ms → (not key || ltb old_ms new_ms) ≡ true
      moved key old_ms new_ms lt = ground arith

      count-any :
          (p q : ScheduleRow → Bool)
          → ((x : ScheduleRow) → q x ≡ true → p x ≡ true)
          → (rows : List ScheduleRow) → eqb (count q rows) 0 ≡ false
          → any p rows ≡ true
      count-any p q imply [] h = ground arith
      count-any p q imply (x ∷ xs) h = elim (Bool-cases (q x)) [
        | inl t ↦ rw (imply x t) refl
        | inr f ↦ ground (arith, count-any p q imply xs)
      ]

  -- No time of a schedule is fired twice. After a fire, and any calls that fire due schedules, create
  -- or disable schedules or leave their table alone, in any order, by any servers and with any
  -- failures, a fire of that schedule for the same time or an earlier one, from whatever record and
  -- at whatever time, sends no message. This holds if the key names at most one row, as the primary
  -- key has it, if the times that are fired have come, as the query has it, and for a calendar whose
  -- times are whole milliseconds.
  pub fire_schedule-once :
      (env later : Env V) (fuel now k due_at : ℕ) (r : ScheduleRecord) (db : Db)
      {m : MailboxMessageRecord} {db' db'' : Db}
      → count (is_schedule r.namespace_id r.id) db.schedules ≤ 1
      → r.next_fire_at ≡ some due_at
      → due_at ≤ now
      → fire_schedule env calendar fuel now k r db ≡ (ok (some m), db')
      → Steps calendar db' db''
      → (fuel' now' k' due_at' : ℕ) (r' : ScheduleRecord) (m' : MailboxMessageRecord)
      → r'.namespace_id ≡ r.namespace_id
      → r'.id ≡ r.id
      → r'.next_fire_at ≡ some due_at'
      → due_at' ≤ due_at
      → (fire_schedule later calendar fuel' now' k' r' db'').0 ≢ ok (some m')
  fire_schedule-once env later fuel now k due_at r db {db'' = db''} one due come h steps fuel' now'
        k' due_at' r' m' ns_same id_same due' le again =
      let (due₁, f) = fire_schedule-IsFire env calendar fuel now k r db h in
      let same = some-eq-some (sym f.due ∙ due) in
      let past =
        Steps-IsPast r.namespace_id r.id (to_millis due₁) steps
          (IsFire-IsPast env now due₁ k r db one (omega (arith, same)) f) in
      let (due₂, g) =
        fire_schedule-IsFire later calendar fuel' now' k' r' db''
          (ap (λ o. (o, (fire_schedule later calendar fuel' now' k' r' db'').1)) again) in
      let same' = some-eq-some (sym g.due ∙ due') in
      let none_left =
        past-count r.namespace_id r.id (to_millis due₁) (to_millis due₂) db''.schedules
          (omega (arith, same, same')) past.1 in
      clash
        (ap (λ (n : String). eqb (count (is_pending n r'.id (to_millis due₂)) db''.schedules) 0)
            ns_same
          ∙ ap
              (λ (i : String).
                eqb (count (is_pending r.namespace_id i (to_millis due₂)) db''.schedules) 0)
              id_same
          ∙ ap (λ n. eqb n 0) none_left)
        g.pending
    where
      clash : {b : Bool} → b ≡ true → b ≡ false → ⊥
      clash p q = cc
