-- ===== src/Store/Mailbox/Valid.antt =====
-- The invariant of the mailbox tables, which every operation of pkg/server/store/mailbox.go keeps.
pub mod Claims
pub mod Ends
pub mod Reach
use swarmd.Prelude.{
  ℕ, suc, ◌≤◌, ◌≡◌, refl, String, Bool, true, false, ◌&&◌, List, Option, none, some, ◌==◌, eq_iff,
  any, All, Distinct, arith, Result, ok, err, is_empty, Bool-cases,
}
use swarmd.Store.Types.{MailboxMessageStatus, queued, leased, completed, dead_letter, StoreError}
use swarmd.Store.Tables.{MessageRow, RunRow, StepRow, Db, is_message, is_run, is_step, transaction}

abbrev pub same_message : MessageRow → MessageRow → Bool
same_message r s = is_message r.namespace_id r.message_id s

abbrev pub same_run : RunRow → RunRow → Bool
same_run r s = is_run r.namespace_id r.run_id s

-- The columns of a lease and of an end are set as the status says.
abbrev pub HasShape : MailboxMessageStatus → MessageRow → Type 0
HasShape queued r =
    (r.lease_owner ≡ "")
    × (r.lease_expires_at_ms ≡ none)
    × (r.run_id ≡ "")
    × (r.completed_at_ms ≡ none)
    × (is_empty r.dead_letter_reason ≡ true)
HasShape leased r =
    ((t : ℕ) × (r.lease_expires_at_ms ≡ some t))
    × (r.completed_at_ms ≡ none)
    × (is_empty r.dead_letter_reason ≡ true)
    × (1 ≤ r.attempt_count)
HasShape completed r =
    (r.lease_owner ≡ "")
    × (r.lease_expires_at_ms ≡ none)
    × (r.run_id ≡ "")
    × ((t : ℕ) × (r.completed_at_ms ≡ some t))
    × (is_empty r.dead_letter_reason ≡ true)
HasShape dead_letter r =
    (r.lease_owner ≡ "")
    × (r.lease_expires_at_ms ≡ none)
    × (r.run_id ≡ "")
    × ((t : ℕ) × (r.completed_at_ms ≡ some t))
    × (is_empty r.dead_letter_reason ≡ false)

-- The run that the message names, in its namespace, and for it.
abbrev pub is_run_of : MessageRow → RunRow → Bool
is_run_of r run =
    run.namespace_id == r.namespace_id && run.run_id == r.run_id && run.message_id == r.message_id

abbrev pub IsBacked : List RunRow → MessageRow → Type 0
IsBacked runs r = r.status ≡ leased → any (is_run_of r) runs ≡ true

pub record IsValid (db : Db) : Type 0 where
  pub messages_keyed : Distinct same_message db.messages
  pub runs_keyed : Distinct same_run db.runs
  pub shaped : All (λ r. HasShape r.status r) db.messages
  pub backed : All (IsBacked db.runs) db.messages

-- What a transaction keeps: the rollback keeps everything.
pub transaction-keeps {ℓ} :
    {A : Type 0} (P : Db → Type ℓ) (db : Db) (r : Result StoreError (A × Db))
    → P db
    → ((a : A) (db' : Db) → r ≡ ok (a, db') → P db')
    → P (transaction db r).1
transaction-keeps P db (ok (a, db')) h keep = keep a db' refl
transaction-keeps P db (err e) h keep = h

pub same_message_comm : (r s : MessageRow) → same_message r s ≡ same_message s r
same_message_comm r s = ground (
  arith,
  eq_iff r.namespace_id s.namespace_id,
  eq_iff s.namespace_id r.namespace_id,
  eq_iff r.message_id s.message_id,
  eq_iff s.message_id r.message_id,
)

pub same_run_comm : (r s : RunRow) → same_run r s ≡ same_run s r
same_run_comm r s = ground (
  arith,
  eq_iff r.namespace_id s.namespace_id,
  eq_iff s.namespace_id r.namespace_id,
  eq_iff r.run_id s.run_id,
  eq_iff s.run_id r.run_id,
)
