-- ===== src/Store/Mailbox/Turns.antt =====
-- When a message may be claimed: after it is sent, and after a run on it has ended.
use swarmd.Prelude.{
  ℕ, ◌≡◌, refl, sym, subst, ap, String, Bool, false, ◌&&◌, none, some, inl, leb, ◌==◌, Has,
  Has-append_right, arith, ok, refuse->>, is_empty, eq_iff, eq_refl,
}
use swarmd.Store.Types.{CreateMailboxMessageParams, CompleteRunParams, MailboxMessageRecord}
use swarmd.Store.Envelope.{to_millis, default_string}
use swarmd.Store.Tables.{Env, MessageRow, Db}
use swarmd.Store.Tables.Inserts.{transaction-eq-ok}
use swarmd.Store.Mailbox.Enqueue.{
  new_message_row, new_message_record, check_message, enqueue_message,
}
use swarmd.Store.Mailbox.Claim.{is_free, is_claimable}
use swarmd.Store.Mailbox.Complete.{fate, release_row, complete_run}
use swarmd.Store.Mailbox.Lease.{complete_run-releases}
use swarmd.Store.Mailbox.Valid.Claims.{enqueue_message_tx-eq-ok}

-- From when on the fate of a message lets it be claimed again, if at all.
abbrev pub may_retry : {V : Type 0} → CompleteRunParams V → ℕ → Bool
may_retry params now_ms =
    is_empty params.dead_letter_reason
    && elim params.retry_at [ none ↦ false | some t ↦ leb (to_millis t) now_ms ]

released-is_free :
    {V : Type 0} (params : CompleteRunParams V) (error : String) (at now_ms : ℕ) (r : MessageRow)
    → is_free now_ms (release_row (fate params) error at r) ≡ may_retry params now_ms
unfolding is_free release_row fate
released-is_free params error at now_ms r = ground arith

-- After a run on a message has ended, the message is in the table, and an agent may claim it
-- exactly if it is the recipient, the run neither gave up the message nor did without a retry, and
-- the time of the retry has come.
pub complete_run-claimable :
    {V : Type 0} (env : Env V) (params : CompleteRunParams V) (db : Db) {db' : Db} (r : MessageRow)
    → complete_run env params db ≡ (ok tt, db')
    → Has r db.messages
    → r.namespace_id ≡ params.namespace_id
    → r.message_id ≡ params.message_id
    → (s : MessageRow) × Has s db'.messages
      × (s.message_id ≡ r.message_id)
      × ((agent : String) (now_ms : ℕ)
          → is_claimable params.namespace_id agent now_ms s
            ≡ (r.recipient_agent_id == agent && may_retry params now_ms))
unfolding is_claimable release_row
complete_run-claimable env params db r h m ns id = (
  release_row (fate params) params.error (env.now 0) r,
  complete_run-releases env params db r h m ns id,
  refl,
  λ agent now_ms. ground (
    arith,
    eq_iff r.namespace_id params.namespace_id,
    released-is_free params params.error (env.now 0) now_ms r,
  ),
)

-- A message that was sent is in the table under the identifier that the sender is told, and from
-- the time on that the sender is told, and not before, its recipient may claim it, and nobody else.
pub enqueue_message-claimable :
    {V : Type 0} (env : Env V) (params : CreateMailboxMessageParams V) (db : Db)
    {sent : MailboxMessageRecord} {db' : Db}
    → enqueue_message env params db ≡ (ok sent, db')
    → (s : MessageRow) × Has s db'.messages
      × (s.message_id ≡ sent.id)
      × ((agent : String) (now_ms : ℕ)
          → is_claimable params.namespace_id agent now_ms s
            ≡ (params.recipient_agent_id == agent && leb (to_millis sent.available_at) now_ms))
unfolding enqueue_message check_message is_claimable is_free new_message_row new_message_record
enqueue_message-claimable env params db h =
    let (_, h₁) =
      refuse->> _ (is_empty params.namespace_id) _
        (transaction-eq-ok db (check_message env params db) h) in
    let (_, h₂) = refuse->> _ (is_empty params.recipient_agent_id) _ h₁ in
    let (payload, metadata, added) = enqueue_message_tx-eq-ok env (env.now 0) 0 params db h₂ in
    let row =
      new_message_row params (default_string params.message_id (env.new_id "msg" 0)) (env.now 0)
        payload metadata in
    (
      row,
      subst (λ (d : Db). Has row d.messages) (sym added.2)
          (Has-append_right db.messages _ row (inl refl)),
      ap (λ m. m.id) (sym added.0),
      λ agent now_ms.
          subst
            (λ (m : MailboxMessageRecord).
              (params.namespace_id == params.namespace_id
                && params.recipient_agent_id == agent
                && is_free now_ms row)
              ≡ (params.recipient_agent_id == agent && leb (to_millis m.available_at) now_ms))
            (sym added.0) (ground (arith, eq_refl params.namespace_id)),
    )
