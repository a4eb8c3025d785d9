-- ===== src/Store/Schedule/Edits.antt =====
-- pkg/server/store/schedule.go: CreateSchedule and DisableSchedule bring no time back that has passed.
use swarmd.Prelude.{
  ℕ, ◌≡◌, refl, sym, ap, ◌∙◌, subst, String, Bool, true, false, not, ◌||◌, none, some, eqb,
  any-update_where, All-update_where, count, refuse->>, or_err, >>=-eq-ok, ok-eq-ok, if◌then◌else◌,
  is_empty,
}
use swarmd.Store.Types.{CreateScheduleParams, bad_cron_expr}
use swarmd.Store.Envelope.{marshal_envelope, default_string}
use swarmd.Store.Tables.{
  update_schedule, affected_schedule, insert_schedule, Env, Db, is_schedule, add_schedule,
}
use swarmd.Store.Tables.Inserts.{add_schedule-eq-ok}
use swarmd.Store.Schedule.{
  Calendar, load_schedule_location, insert_new_schedule, create_schedule, new_schedule_row,
  update_disabled, disabled_row, disable_schedule,
}
use swarmd.Store.Schedule.Past.{is_past, IsPast, add-IsPast}
use swarmd.Store.Mailbox.Valid.{transaction-keeps}

module _ {V C : Type 0} (env : Env V) (calendar : Calendar V C) where
  pub create-IsPast :
      (params : CreateScheduleParams V) (db : Db) (ns id : String) (due_ms : ℕ)
      → IsPast ns id due_ms db
      → IsPast ns id due_ms (create_schedule env calendar params db).1
  unfolding create_schedule insert_new_schedule
  create-IsPast params db ns id due_ms past =
      transaction-keeps (IsPast ns id due_ms) db (insert_new_schedule env calendar params db) past
        λ x db' h.
          let (_, h₁) =
            refuse->> _ (is_empty params.namespace_id || is_empty params.agent_id) _ h in
          let (location, _, h₂) =
            >>=-eq-ok (load_schedule_location calendar params.time_zone) _ h₁ in
          let (schedule, _, h₃) =
            >>=-eq-ok (or_err (calendar.parse_standard params.cron_expr) bad_cron_expr) _ h₂ in
          let (payload, _, h₄) =
            >>=-eq-ok (marshal_envelope env.codec "schedule_payload" params.payload) _ h₃ in
          let (_, h₅) = refuse->> _ (env.fails insert_schedule) _ h₄ in
          let next =
            if params.enabled then some (calendar.next schedule location (env.now 0)) else none in
          let row =
            new_schedule_row params (default_string params.schedule_id (env.new_id "sched" 0))
              location payload next (env.now 0) in
          let (after, e, h₆) = >>=-eq-ok (add_schedule row db) _ h₅ in
          let (fresh, _, same) = add_schedule-eq-ok row db e in
          subst (IsPast ns id due_ms) (sym same ∙ ap (λ p. p.1) (ok-eq-ok h₆))
            (add-IsPast ns id due_ms row db fresh past)

  pub disable-IsPast :
      (ns' id' : String) (db : Db) (ns id : String) (due_ms : ℕ)
      → IsPast ns id due_ms db
      → IsPast ns id due_ms (disable_schedule env calendar ns' id' db).1
  unfolding disable_schedule update_disabled
  disable-IsPast ns' id' db ns id due_ms past =
      transaction-keeps (IsPast ns id due_ms) db (update_disabled env calendar ns' id' db) past
        λ x db' h.
          let (_, h₁) = refuse->> _ (env.fails update_schedule) _ h in
          let (_, h₂) = refuse->> _ (env.fails affected_schedule) _ h₁ in
          let (_, h₃) = refuse->> _ (eqb (count (is_schedule ns' id') db.schedules) 0) _ h₂ in
          let change = disabled_row (env.now 0) in
          subst (IsPast ns id due_ms) (ap (λ p. p.1) (ok-eq-ok h₃)) (
            any-update_where (is_schedule ns id) (is_schedule ns' id') change (λ x. refl)
                  db.schedules
                ∙ past.0,
            All-update_where (λ row. is_past ns id due_ms row ≡ true) (is_schedule ns' id') change
                (λ x t p. idle (is_schedule ns id x)) db.schedules past.1,
          )
    where
      idle : (b : Bool) → (not b || true) ≡ true
      idle true = refl
      idle false = refl
