-- ===== src/Store/Schedule/Due.antt =====
-- pkg/server/store/schedule.go: when a schedule is due, from its creation to its end.
use swarmd.Prelude.{
  ℕ, ◌≡◌, refl, sym, ap, ◌∙◌, subst, String, Bool, true, false, ◌&&◌, ◌||◌, List, [], ◌∷◌, Option,
  none, some, leb, is_empty, Has, Has-append_right, update_where-Has, ok, refuse->>, or_err,
  >>=-eq-ok, ok-eq-ok, if◌then◌else◌, Bool-cases, inl, inr, if_true, if_false, arith, eqb, count,
}
use swarmd.Store.Types.{ScheduleRecord, CreateScheduleParams, bad_cron_expr}
use swarmd.Store.Envelope.{marshal_envelope, to_millis, default_string}
use swarmd.Store.Tables.{
  insert_schedule, update_schedule, affected_schedule, Env, ScheduleRow, Db, add_schedule,
  is_schedule,
}
use swarmd.Store.Tables.Inserts.{add_schedule-eq-ok, transaction-eq-ok}
use swarmd.Store.Schedule.{
  Calendar, is_due, load_schedule_location, insert_new_schedule, create_schedule, new_schedule_row,
  new_schedule_record, update_disabled, disabled_row, disable_schedule,
}

created :
    {V : Type 0} (params : CreateScheduleParams V) (id location payload : String) (next : Option ℕ)
    (now : ℕ) {r : ScheduleRecord} (rows : List ScheduleRow)
    → r ≡ new_schedule_record params id location payload next now
    → Has (new_schedule_row params id location payload next now) rows
    → (params.enabled ≡ false → next ≡ none)
    → (s : ScheduleRow) × Has s rows
      × (s.schedule_id ≡ r.id)
      × ((now_ms : ℕ)
          → is_due now_ms s ≡ (
              params.enabled
              && elim r.next_fire_at [ none ↦ false | some t ↦ leb (to_millis t) now_ms ]))
unfolding new_schedule_row new_schedule_record
created params id location payload next now rows e m off = (
  new_schedule_row params id location payload next now,
  m,
  ap (λ x. x.id) (sym e),
  λ now_ms. ground (arith, ap (λ x. x.next_fire_at) e),
)

module _ {V C : Type 0} (env : Env V) (calendar : Calendar V C) where
  -- A schedule that was created is in the table under the identifier that the caller is told. From
  -- the time on that the caller is told, and not before, it is due; if it is not enabled, never.
  pub create_schedule-is_due :
      (params : CreateScheduleParams V) (db : Db) {r : ScheduleRecord} {db' : Db}
      → create_schedule env calendar params db ≡ (ok r, db')
      → (s : ScheduleRow) × Has s db'.schedules
        × (s.schedule_id ≡ r.id)
        × ((now_ms : ℕ)
            → is_due now_ms s ≡ (
                params.enabled
                && elim r.next_fire_at [ none ↦ false | some t ↦ leb (to_millis t) now_ms ]))
  unfolding create_schedule insert_new_schedule
  create_schedule-is_due params db {r = r} {db' = db'} h =
      let (_, h₁) =
        refuse->> _ (is_empty params.namespace_id || is_empty params.agent_id) _
          (transaction-eq-ok db (insert_new_schedule env calendar params db) h) in
      let (location, _, h₂) = >>=-eq-ok (load_schedule_location calendar params.time_zone) _ h₁ in
      let (schedule, _, h₃) =
        >>=-eq-ok (or_err (calendar.parse_standard params.cron_expr) bad_cron_expr) _ h₂ in
      let (payload, _, h₄) =
        >>=-eq-ok (marshal_envelope env.codec "schedule_payload" params.payload) _ h₃ in
      let (_, h₅) = refuse->> _ (env.fails insert_schedule) _ h₄ in
      let next =
        if params.enabled then some (calendar.next schedule location (env.now 0)) else none in
      let id = default_string params.schedule_id (env.new_id "sched" 0) in
      let row = new_schedule_row params id location payload next (env.now 0) in
      let (after, e, h₆) = >>=-eq-ok (add_schedule row db) _ h₅ in
      let (fresh, known, same) = add_schedule-eq-ok row db e in
      created params id location payload next (env.now 0) db'.schedules
        (ap (λ p. p.0) (sym (ok-eq-ok h₆)))
        (subst (λ d. Has row d.schedules) (sym same ∙ ap (λ p. p.1) (ok-eq-ok h₆))
          (Has-append_right db.schedules (row ∷ []) row (inl refl)))
        (λ off. if_false _ _ off)

  -- A schedule that was disabled is not due at any time.
  pub disable_schedule-is_due :
      (ns id : String) (db : Db) {db' : Db} (s : ScheduleRow)
      → disable_schedule env calendar ns id db ≡ (ok tt, db')
      → Has s db'.schedules
      → is_schedule ns id s ≡ true
      → (now_ms : ℕ) → is_due now_ms s ≡ false
  unfolding disable_schedule update_disabled
  disable_schedule-is_due ns id db s h m key now_ms =
      let (_, h₁) =
        refuse->> _ (env.fails update_schedule) _
          (transaction-eq-ok db (update_disabled env calendar ns id db) h) in
      let (_, h₂) = refuse->> _ (env.fails affected_schedule) _ h₁ in
      let (_, h₃) = refuse->> _ (eqb (count (is_schedule ns id) db.schedules) 0) _ h₂ in
      let (old, before, same) =
        update_where-Has (is_schedule ns id) (disabled_row (env.now 0)) db.schedules
          (subst (λ d. Has s d.schedules) (ap (λ p. p.1) (sym (ok-eq-ok h₃))) m) in
      elim (Bool-cases (is_schedule ns id old)) [
        | inl t ↦ subst (λ x. is_due now_ms x ≡ false) (sym (same ∙ if_true _ _ t)) refl
        | inr n ↦ absurd (clash key (ap (is_schedule ns id) (same ∙ if_false _ _ n) ∙ n))
      ]
    where
      clash : {b : Bool} → b ≡ true → b ≡ false → ⊥
      clash p q = cc
