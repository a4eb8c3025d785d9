-- ===== src/Store/Tables/Inserts.antt =====
-- What an insert that succeeds says of the tables: the keys are fresh, and one row is added.
use swarmd.Prelude.{
  ◌≡◌, sym, true, false, [], ◌∷◌, ◌++◌, ap, any, Result, ok, err, refuse->>, guard->>, ok-eq-ok,
}
use swarmd.Store.Tables.{
  MessageRow, RunRow, StepRow, ScheduleRow, Db, is_agent, is_message, is_run, is_step, is_schedule,
  add_schedule, add_message, add_run, add_step, transaction,
}
use swarmd.Store.Types.{StoreError}

pub add_message-eq-ok :
    (row : MessageRow) (db : Db) {db' : Db}
    → add_message row db ≡ ok db'
    → (any (is_message row.namespace_id row.message_id) db.messages ≡ false)
      × (any (is_agent row.namespace_id row.recipient_agent_id) db.agents ≡ true)
      × (db' ≡ record db { messages = db.messages ++ row ∷ [] })
unfolding add_message
add_message-eq-ok row db h =
    let (fresh, h₁) =
      refuse->> _ (any (is_message row.namespace_id row.message_id) db.messages) _ h in
    let (known, h₂) =
      guard->> _ (any (is_agent row.namespace_id row.recipient_agent_id) db.agents) _ h₁ in
    (fresh, known, sym (ok-eq-ok h₂))

pub add_run-eq-ok :
    (row : RunRow) (db : Db) {db' : Db}
    → add_run row db ≡ ok db'
    → (any (is_run row.namespace_id row.run_id) db.runs ≡ false)
      × (any (is_message row.namespace_id row.message_id) db.messages ≡ true)
      × (db' ≡ record db { runs = db.runs ++ row ∷ [] })
unfolding add_run
add_run-eq-ok row db h =
    let (fresh, h₁) = refuse->> _ (any (is_run row.namespace_id row.run_id) db.runs) _ h in
    let (known, h₂) =
      guard->> _ (any (is_message row.namespace_id row.message_id) db.messages) _ h₁ in
    let (_, h₃) = guard->> _ (any (is_agent row.namespace_id row.agent_id) db.agents) _ h₂ in
    (fresh, known, sym (ok-eq-ok h₃))

pub add_step-eq-ok :
    (row : StepRow) (db : Db) {db' : Db}
    → add_step row db ≡ ok db'
    → (any (is_step row.namespace_id row.run_id row.step_index) db.steps ≡ false)
      × (any (is_run row.namespace_id row.run_id) db.runs ≡ true)
      × (db' ≡ record db { steps = db.steps ++ row ∷ [] })
unfolding add_step
add_step-eq-ok row db h =
    let (fresh, h₁) =
      refuse->> _ (any (is_step row.namespace_id row.run_id row.step_index) db.steps) _ h in
    let (known, h₂) = guard->> _ (any (is_run row.namespace_id row.run_id) db.runs) _ h₁ in
    (fresh, known, sym (ok-eq-ok h₂))

-- What a transaction returned, its body returned.
pub transaction-eq-ok :
    {A : Type 0} (db : Db) (r : Result StoreError (A × Db)) {a : A} {db' : Db}
    → transaction db r ≡ (ok a, db')
    → r ≡ ok (a, db')
transaction-eq-ok {A} db (ok (b, d)) h = ap ok (λ i. (value (ap (λ o. o.0) h) i, (h i).1))
  where
    value : {x y : A} → ◌≡◌ {A = Result StoreError A} (ok x) (ok y) → x ≡ y
    value p = cc
transaction-eq-ok {A} db (err e) h = absurd (differ (ap (λ o. o.0) h))
  where
    differ : {x : A} → ◌≡◌ {A = Result StoreError A} (err e) (ok x) → ⊥
    differ p = cc

-- A transaction that fails leaves the database as it was.
pub transaction-eq-err :
    {A : Type 0} (db : Db) (r : Result StoreError (A × Db)) {e : StoreError} {db' : Db}
    → transaction db r ≡ (err e, db')
    → db' ≡ db
transaction-eq-err {A} db (ok (b, d)) h = absurd (differ (ap (λ o. o.0) h))
  where
    differ : {x : StoreError} → ◌≡◌ {A = Result StoreError A} (ok b) (err x) → ⊥
    differ p = cc
transaction-eq-err db (err e) h = sym (ap (λ o. o.1) h)

pub add_schedule-eq-ok :
    (row : ScheduleRow) (db : Db) {db' : Db}
    → add_schedule row db ≡ ok db'
    → (any (is_schedule row.namespace_id row.schedule_id) db.schedules ≡ false)
      × (any (is_agent row.namespace_id row.agent_id) db.agents ≡ true)
      × (db' ≡ record db { schedules = db.schedules ++ row ∷ [] })
unfolding add_schedule
add_schedule-eq-ok row db h =
    let (fresh, h₁) =
      refuse->> _ (any (is_schedule row.namespace_id row.schedule_id) db.schedules) _ h in
    let (known, h₂) = guard->> _ (any (is_agent row.namespace_id row.agent_id) db.agents) _ h₁ in
    (fresh, known, sym (ok-eq-ok h₂))
