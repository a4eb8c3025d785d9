-- ===== src/Store/Mailbox/Lease.antt =====
-- A lease excludes: what pkg/server/store/mailbox.go promises to the worker that holds a message.
use swarmd.Prelude.{
  ℕ, ◌+◌, ◌<◌, ◌≡◌, ◌≢◌, refl, sym, subst, ap, ◌∙◌, String, true, false, ◌&&◌, ◌||◌, some, ◌==◌,
  eq_iff, Has, Has-append_left, Has-update_where, Has-update_where_ne, Distinct-eq, arith, ok, err,
  refuse->>, >>=-eq-ok, ok-eq-ok, is_empty,
}
use mathlib.Core.Bool.{false≢true}
use swarmd.Store.Types.{
  leased, CreateMailboxMessageParams, ClaimMessageParams, ClaimedMailboxMessage, StepRecord,
  CompleteRunParams,
}
use swarmd.Store.Envelope.{to_millis, default_string, default_duration}
use swarmd.Store.Tables.{insert_step, Env, MessageRow, Db, is_message, add_step, Outcome}
use swarmd.Store.Tables.Inserts.{add_step-eq-ok}
use swarmd.Store.Mailbox.Enqueue.{check_message, enqueue_message}
use swarmd.Store.Mailbox.Scan.{scan_mailbox_message}
use swarmd.Store.Mailbox.Claim.{
  is_free, is_claimable, is_leasable, lease_row, claimed_record, default_lease, claim_next_message,
}
use swarmd.Store.Mailbox.Claim.Round.{IsClaim, is_claimable→is_leasable}
use swarmd.Store.Mailbox.Claim.Next.{claim_next_message-IsClaim, claim_next_message-err}
use swarmd.Store.Mailbox.Complete.{
  fate, release_row, new_step_row, insert_new_step, record_step, complete_run,
}
use swarmd.Store.Mailbox.Runs.{complete_run-IsEnd, complete_run-eq-err}
use swarmd.Store.Mailbox.Valid.{IsValid, same_message, same_message_comm, transaction-keeps}
use swarmd.Store.Mailbox.Valid.Reach.{Step, Step-IsValid, enqueue, claim, note, complete}
use swarmd.Store.Mailbox.Valid.Claims.{enqueue_message_tx-eq-ok, claim_next_message-IsValid}

-- A call that leaves a lease alone: a claim before it expires, or the end of a run that is for
-- another message, or a call that is neither.
pub data Quiet (V : Type 0) (ns id : String) (until : ℕ) (db : Db) : Db → Type 0 where
  enqueues :
      (env : Env V) (params : CreateMailboxMessageParams V)
      → Quiet V ns id until db (enqueue_message env params db).1
  notes : (env : Env V) (step : StepRecord) → Quiet V ns id until db (record_step env step db).1
  claims :
      (env : Env V) (params : ClaimMessageParams)
      → to_millis (env.now 0) < until
      → Quiet V ns id until db (claim_next_message env params db).1
  completes :
      (env : Env V) (params : CompleteRunParams V)
      → (ns == params.namespace_id && id == params.message_id) ≡ false
      → Quiet V ns id until db (complete_run env params db).1

pub data AllQuiet (V : Type 0) (ns id : String) (until : ℕ) (db : Db) : Db → Type 0 where
  start : AllQuiet V ns id until db db
  then :
      {mid last : Db}
      → AllQuiet V ns id until db mid
      → Quiet V ns id until mid last
      → AllQuiet V ns id until db last

-- A row that is leased beyond a time is not free then.
leased-not_free :
    (r : MessageRow) (until now : ℕ)
    → r.status ≡ leased
    → r.lease_expires_at_ms ≡ some until
    → now < until
    → is_free now r ≡ false
unfolding is_free
leased-not_free r until now s e h = ground arith

namespace_of :
    (ns agent : String) (now : ℕ) (r : MessageRow)
    → is_claimable ns agent now r ≡ true
    → r.namespace_id ≡ ns
unfolding is_claimable
namespace_of ns agent now r h = ground (arith, eq_iff r.namespace_id ns)

free_of :
    (ns agent : String) (now : ℕ) (r : MessageRow)
    → is_claimable ns agent now r ≡ true
    → is_free now r ≡ true
unfolding is_claimable
free_of ns agent now r h = ground arith

module _ {V : Type 0} (r : MessageRow) (until : ℕ) (held : r.status ≡ leased)
    (expires : r.lease_expires_at_ms ≡ some until) where
  claims-keeps :
      (env : Env V) (params : ClaimMessageParams) (db : Db) (o : Outcome ClaimedMailboxMessage)
      → claim_next_message env params db ≡ o
      → to_millis (env.now 0) < until
      → Has r db.messages
      → Has r o.1.messages
  unfolding is_leasable
  claims-keeps env params db (err x, db') e h m =
      subst (λ (d : Db). Has r d.messages) (sym (claim_next_message-err env params db e)) m
  claims-keeps env params db (ok c, db') e h m =
      let claim = claim_next_message-IsClaim env params db e in
      subst (Has r) (sym claim.messages) (
        Has-update_where_ne
          (is_leasable params.namespace_id claim.row.message_id (to_millis (env.now 0)))
          (lease_row (default_string params.lease_owner env.lease_owner)
            (env.now 0 + default_duration params.lease_duration default_lease) (env.new_id "run" 0)
            (env.now 0))
          db.messages m
          (ground (arith, leased-not_free r until (to_millis (env.now 0)) held expires h)))

  completes-keeps :
      (env : Env V) (params : CompleteRunParams V) (db : Db) (o : Outcome (Unit {0}))
      → complete_run env params db ≡ o
      → (r.namespace_id == params.namespace_id && r.message_id == params.message_id) ≡ false
      → Has r db.messages
      → Has r o.1.messages
  completes-keeps env params db (err x, db') e h m =
      subst (λ (d : Db). Has r d.messages) (sym (complete_run-eq-err env params db e)) m
  completes-keeps env params db (ok u, db') e h m =
      let end = complete_run-IsEnd env params db e in
      subst (Has r) (sym end.messages) (
        Has-append_left _ end.outbox_rows r (
          Has-update_where_ne (is_message params.namespace_id params.message_id)
            (release_row (fate params) params.error (env.now 0)) db.messages m h))

  Quiet-keeps :
      {db db' : Db}
      → Quiet V r.namespace_id r.message_id until db db'
      → Has r db.messages
      → Has r db'.messages
  unfolding enqueue_message check_message record_step insert_new_step
  Quiet-keeps {db} (enqueues env params) m =
      transaction-keeps (λ (d : Db). Has r d.messages) db (check_message env params db) m
        λ x db' e.
          let (_, h₁) = refuse->> _ (is_empty params.namespace_id) _ e in
          let (_, h₂) = refuse->> _ (is_empty params.recipient_agent_id) _ h₁ in
          let (payload, metadata, added) =
            enqueue_message_tx-eq-ok env (env.now 0) 0 params db h₂ in
          subst (λ (d : Db). Has r d.messages) (sym added.2) (Has-append_left db.messages _ r m)
  Quiet-keeps {db} (notes env step) m =
      transaction-keeps (λ (d : Db). Has r d.messages) db (insert_new_step env step db) m
        λ u db' h.
          let (_, h₁) = refuse->> _ (is_empty step.namespace_id || is_empty step.run_id) _ h in
          let (_, h₂) = refuse->> _ (env.fails insert_step) _ h₁ in
          let (after, e, h₃) = >>=-eq-ok (add_step (new_step_row step) db) _ h₂ in
          let (_, _, same) = add_step-eq-ok (new_step_row step) db e in
          subst (λ (d : Db). Has r d.messages) (sym same ∙ ap (λ p. p.1) (ok-eq-ok h₃)) m
  Quiet-keeps {db} (claims env params h) m = claims-keeps env params db _ refl h m
  Quiet-keeps {db} (completes env params h) m = completes-keeps env params db _ refl h m

  AllQuiet-keeps :
      {db db' : Db}
      → AllQuiet V r.namespace_id r.message_id until db db'
      → Has r db.messages
      → Has r db'.messages
  AllQuiet-keeps start m = m
  AllQuiet-keeps (then q s) m = Quiet-keeps s (AllQuiet-keeps q m)

Quiet→Step :
    {V : Type 0} {ns id : String} {until : ℕ} {db db' : Db}
    → Quiet V ns id until db db'
    → Step V db db'
Quiet→Step (enqueues env params) = enqueue env params
Quiet→Step (notes env step) = note env step
Quiet→Step (claims env params h) = claim env params
Quiet→Step (completes env params h) = complete env params

AllQuiet-IsValid :
    {V : Type 0} {ns id : String} {until : ℕ} {db db' : Db}
    → AllQuiet V ns id until db db'
    → IsValid db
    → IsValid db'
AllQuiet-IsValid start v = v
AllQuiet-IsValid (then q s) v = Step-IsValid (Quiet→Step s) (AllQuiet-IsValid q v)

-- When the lease that a claim takes runs out, in milliseconds.
abbrev pub lease_end : {V : Type 0} → Env V → ClaimMessageParams → ℕ
lease_end env params = to_millis (env.now 0 + default_duration params.lease_duration default_lease)

module _ {V : Type 0} (env : Env V) (params : ClaimMessageParams) (db : Db)
    {c : ClaimedMailboxMessage} {db' : Db}
    (claimed : claim_next_message env params db ≡ (ok c, db')) where
  abbrev pub the_claim : IsClaim env params 0 db c db'
  the_claim = claim_next_message-IsClaim env params db claimed

  abbrev pub leased_row : MessageRow
  leased_row =
      lease_row (default_string params.lease_owner env.lease_owner)
        (env.now 0 + default_duration params.lease_duration default_lease) (env.new_id "run" 0)
        (env.now 0) the_claim.row

  pub leased_row-Has : Has leased_row db'.messages
  leased_row-Has = subst (Has leased_row) (sym the_claim.messages) (
      Has-update_where
        (is_leasable params.namespace_id the_claim.row.message_id (to_millis (env.now 0)))
        (lease_row (default_string params.lease_owner env.lease_owner)
          (env.now 0 + default_duration params.lease_duration default_lease) (env.new_id "run" 0)
          (env.now 0))
        db.messages the_claim.found
        (is_claimable→is_leasable params.namespace_id params.agent_id _ the_claim.row
          the_claim.claimable))

  pub leased_row-namespace : the_claim.row.namespace_id ≡ params.namespace_id
  leased_row-namespace =
      namespace_of params.namespace_id params.agent_id _ the_claim.row the_claim.claimable

  pub leased_row-id : c.message.id ≡ the_claim.row.message_id
  unfolding claimed_record scan_mailbox_message
  leased_row-id = ap (λ m. m.id) the_claim.message

-- A message that one worker has claimed is not handed out again before its lease expires,
-- whatever calls come in between, as long as none of them ends a run for this message. This holds
-- at a valid mailbox, and for claims in the same namespace whose clock is before the expiry.
pub claim-excludes :
    {V : Type 0} (env later : Env V) (params other : ClaimMessageParams) (db : Db)
    {c c' : ClaimedMailboxMessage} {taken mid last : Db}
    → IsValid db
    → claim_next_message env params db ≡ (ok c, taken)
    → AllQuiet V params.namespace_id c.message.id (lease_end env params) taken mid
    → claim_next_message later other mid ≡ (ok c', last)
    → other.namespace_id ≡ params.namespace_id
    → to_millis (later.now 0) < lease_end env params
    → c'.message.id ≢ c.message.id
unfolding lease_row
claim-excludes {V} env later params other db {taken = taken} {mid = mid} valid first quiet second
      same_ns early same_id =
    let until = lease_end env params in
    let held = leased_row env params db first in
    let next = the_claim later other mid second in
    let kept =
      AllQuiet-keeps held until refl refl
        (subst (λ n. AllQuiet V n held.message_id until taken mid)
          (sym (leased_row-namespace env params db first))
          (subst (λ n. AllQuiet V params.namespace_id n until taken mid)
            (leased_row-id env params db first) quiet))
        (leased_row-Has env params db first) in
    let mid_valid =
      AllQuiet-IsValid quiet
        (subst IsValid (ap (λ o. o.1) first) (claim_next_message-IsValid env params db valid)) in
    let same_row =
      Distinct-eq same_message same_message_comm mid.messages mid_valid.messages_keyed next.found
        kept
        (key next.row held
          (leased_row-namespace later other mid second
            ∙ same_ns
            ∙ sym (leased_row-namespace env params db first))
          (sym (leased_row-id later other mid second)
            ∙ same_id
            ∙ leased_row-id env params db first)) in
    false≢true (
      sym (leased-not_free held until (to_millis (later.now 0)) refl refl early)
      ∙ sym (ap (is_free (to_millis (later.now 0))) same_row)
      ∙ free_of other.namespace_id other.agent_id _ next.row next.claimable)
  where
    key :
        (r s : MessageRow)
        → r.namespace_id ≡ s.namespace_id
        → r.message_id ≡ s.message_id
        → same_message r s ≡ true
    key r s p q =
        ground (arith, eq_iff s.namespace_id r.namespace_id, eq_iff s.message_id r.message_id)

-- The end of a run takes its message from whoever holds it, also when the lease is another run's.
pub complete_run-releases :
    {V : Type 0} (env : Env V) (params : CompleteRunParams V) (db : Db) {db' : Db} (r : MessageRow)
    → complete_run env params db ≡ (ok tt, db')
    → Has r db.messages
    → r.namespace_id ≡ params.namespace_id
    → r.message_id ≡ params.message_id
    → Has (release_row (fate params) params.error (env.now 0) r) db'.messages
complete_run-releases env params db r h m ns id =
    let end = complete_run-IsEnd env params db h in
    subst (Has (release_row (fate params) params.error (env.now 0) r)) (sym end.messages) (
      Has-append_left _ end.outbox_rows _ (
        Has-update_where (is_message params.namespace_id params.message_id)
          (release_row (fate params) params.error (env.now 0)) db.messages m
          (ground (
            arith,
            eq_iff r.namespace_id params.namespace_id,
            eq_iff r.message_id params.message_id,
          ))))
