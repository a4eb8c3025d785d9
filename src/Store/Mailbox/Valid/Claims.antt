-- ===== src/Store/Mailbox/Valid/Claims.antt =====
-- A new message, and a claim, keep the invariant.
use swarmd.Prelude.{
  ℕ, ◌+◌, ◌≡◌, refl, sym, subst, ap, ◌∙◌, String, true, false, [], ◌∷◌, ◌++◌, eq_iff, eq_refl, any,
  any-append, All, All-append, All-update_where, All-map, Distinct, Distinct-snoc,
  Distinct-update_where, arith, ok, err, refuse->>, >>=-eq-ok, ok-eq-ok, is_empty,
}
use swarmd.Store.Types.{
  leased, CreateMailboxMessageParams, MailboxMessageRecord, ClaimMessageParams,
  ClaimedMailboxMessage,
}
use swarmd.Store.Envelope.{
  marshal_envelope, marshal_optional_envelope, default_string, default_duration, to_millis,
}
use swarmd.Store.Tables.{
  insert_message, Env, MessageRow, RunRow, Db, is_message, add_message, Outcome,
}
use swarmd.Store.Tables.Inserts.{add_message-eq-ok}
use swarmd.Store.Mailbox.Enqueue.{
  new_message_row, new_message_record, enqueue_message_tx, check_message, enqueue_message,
}
use swarmd.Store.Mailbox.Claim.{
  is_leasable, lease_row, default_lease, new_run_row, claim_next_message,
}
use swarmd.Store.Mailbox.Claim.Round.{IsClaim}
use swarmd.Store.Mailbox.Claim.Next.{claim_next_message-IsClaim, claim_next_message-err}
use swarmd.Store.Mailbox.Valid.{
  IsValid, HasShape, IsBacked, is_run_of, same_message, same_run, same_message_comm, same_run_comm,
  transaction-keeps,
}

-- What a new message adds, with the payload and the metadata that the codec writes.
pub enqueue_message_tx-eq-ok :
    {V : Type 0} (env : Env V) (now k : ℕ) (params : CreateMailboxMessageParams V) (db : Db)
    {r : MailboxMessageRecord} {db' : Db}
    → enqueue_message_tx env now k params db ≡ ok (r, db')
    → (payload metadata : String) × let row =
          new_message_row params
            (default_string params.message_id (env.new_id "msg" k))
            now
            payload
            metadata in
        (r ≡ new_message_record params now row)
        × (any (is_message row.namespace_id row.message_id) db.messages ≡ false)
        × (db' ≡ record db { messages = db.messages ++ row ∷ [] })
        × (marshal_envelope env.codec "mailbox_payload" params.payload ≡ ok payload)
        × (marshal_optional_envelope env.codec "mailbox_metadata" params.metadata ≡ ok metadata)
unfolding enqueue_message_tx
enqueue_message_tx-eq-ok env now k params db h =
    let (payload, written, h₁) =
      >>=-eq-ok (marshal_envelope env.codec "mailbox_payload" params.payload) _ h in
    let (metadata, written', h₂) =
      >>=-eq-ok (marshal_optional_envelope env.codec "mailbox_metadata" params.metadata) _ h₁ in
    let (_, h₃) = refuse->> _ (env.fails (insert_message k)) _ h₂ in
    let row =
      new_message_row params (default_string params.message_id (env.new_id "msg" k)) now payload
        metadata in
    let (after, e, h₄) = >>=-eq-ok (add_message row db) _ h₃ in
    let (fresh, _, same) = add_message-eq-ok row db e in
    (
      payload,
      metadata,
      (
        ap (λ p. p.0) (sym (ok-eq-ok h₄)),
        fresh,
        ap (λ p. p.1) (sym (ok-eq-ok h₄)) ∙ same,
        written,
        written',
      ),
    )

-- A row as `INSERT` writes it keeps the invariant, if its key is fresh.
add_row-IsValid :
    {V : Type 0} (params : CreateMailboxMessageParams V) (id : String) (now : ℕ)
    (payload metadata : String) (db : Db)
    → IsValid db
    → let row = new_message_row params id now payload metadata in
      any (is_message row.namespace_id row.message_id) db.messages ≡ false
      → IsValid (record db { messages = db.messages ++ row ∷ [] })
unfolding new_message_row is_empty
add_row-IsValid params id now payload metadata db v fresh = record {
  messages_keyed =
      Distinct-snoc same_message same_message_comm db.messages _ v.messages_keyed fresh;
  runs_keyed = v.runs_keyed;
  shaped = All-append _ db.messages _ v.shaped ((refl, refl, refl, refl, refl), tt);
  backed = All-append _ db.messages _ v.backed ((λ e. cc), tt);
}

module _ {V : Type 0} (env : Env V) where
  pub enqueue_message_tx-IsValid :
      (now k : ℕ) (params : CreateMailboxMessageParams V) (db : Db) {r : MailboxMessageRecord}
      {db' : Db}
      → enqueue_message_tx env now k params db ≡ ok (r, db')
      → IsValid db
      → IsValid db'
  enqueue_message_tx-IsValid now k params db h v =
      let (payload, metadata, added) = enqueue_message_tx-eq-ok env now k params db h in
      let (_, fresh, e, _, _) = added in
      subst IsValid (sym e) (add_row-IsValid params _ now payload metadata db v fresh)

  pub enqueue_message-IsValid :
      (params : CreateMailboxMessageParams V) (db : Db)
      → IsValid db
      → IsValid (enqueue_message env params db).1
  unfolding enqueue_message check_message
  enqueue_message-IsValid params db v =
      transaction-keeps IsValid db (check_message env params db) v λ r db' e.
        let (_, h₁) = refuse->> _ (is_empty params.namespace_id) _ e in
        let (_, h₂) = refuse->> _ (is_empty params.recipient_agent_id) _ h₁ in
        enqueue_message_tx-IsValid (env.now 0) 0 params db h₂ v

  -- What a claim does to the tables keeps the invariant.
  module _ (params : ClaimMessageParams) (k : ℕ) (db : Db) {c : ClaimedMailboxMessage} {db' : Db}
      (claim : IsClaim env params k db c db') (v : IsValid db) where
    open claim use {row, messages, runs}

    abbrev new_run : RunRow
    new_run = new_run_row params (env.new_id "run" k) row.message_id (env.now k) claim.prompt

    kept : (r : MessageRow) → IsBacked db.runs r → IsBacked (db.runs ++ new_run ∷ []) r
    kept r h e = any-append (is_run_of r) db.runs _ ∙ ground (arith, h e)

    abbrev owner : String
    owner = default_string params.lease_owner env.lease_owner

    abbrev expires : ℕ
    expires = env.now k + default_duration params.lease_duration default_lease

    leased_shape :
        (r : MessageRow)
        → is_leasable params.namespace_id row.message_id (to_millis (env.now k)) r ≡ true
        → HasShape r.status r
        → HasShape leased (lease_row owner expires (env.new_id "run" k) (env.now k) r)
    unfolding is_leasable lease_row
    leased_shape r hit h = ((to_millis expires, refl), ground arith, ground arith, omega arith)

    leased-IsBacked :
        (r : MessageRow)
        → is_leasable params.namespace_id row.message_id (to_millis (env.now k)) r ≡ true
        → IsBacked
            (db.runs ++ new_run ∷ [])
            (lease_row owner expires (env.new_id "run" k) (env.now k) r)
    unfolding is_leasable lease_row new_run_row
    leased-IsBacked r hit e =
        any-append (is_run_of (lease_row owner expires (env.new_id "run" k) (env.now k) r)) db.runs
          _
        ∙ ground (
          arith,
          eq_iff r.namespace_id params.namespace_id,
          eq_iff params.namespace_id r.namespace_id,
          eq_iff r.message_id row.message_id,
          eq_iff row.message_id r.message_id,
          eq_refl (env.new_id "run" k),
        )

    IsClaim-IsValid : IsValid db'
    unfolding lease_row new_run_row
    IsClaim-IsValid = record {
      messages_keyed = subst (Distinct same_message) (sym messages) (
          Distinct-update_where same_message _ _ (λ x y. refl) (λ x y. refl) db.messages
            v.messages_keyed);
      runs_keyed =
          subst (Distinct same_run) (sym runs)
            (Distinct-snoc same_run same_run_comm db.runs _ v.runs_keyed claim.run_is_new);
      shaped = subst (All (λ r. HasShape r.status r)) (sym messages) (
          All-update_where (λ r. HasShape r.status r) _ _ (λ r. leased_shape r) db.messages
            v.shaped);
      backed =
          subst (λ rs. All (IsBacked rs) db'.messages) (sym runs)
            (subst (All (IsBacked (db.runs ++ new_run ∷ []))) (sym messages) (
              All-update_where (IsBacked (db.runs ++ new_run ∷ [])) _ _
                (λ r hit _. leased-IsBacked r hit) db.messages
                (All-map (IsBacked db.runs) _ kept db.messages v.backed)));
    }

  pub claim_next_message-IsValid :
      (params : ClaimMessageParams) (db : Db)
      → IsValid db
      → IsValid (claim_next_message env params db).1
  claim_next_message-IsValid params db v = go (claim_next_message env params db) refl
    where
      go : (o : Outcome ClaimedMailboxMessage) → claim_next_message env params db ≡ o → IsValid o.1
      go (ok c, db') e = IsClaim-IsValid params 0 db (claim_next_message-IsClaim env params db e) v
      go (err x, db') e = subst IsValid (sym (claim_next_message-err env params db e)) v
