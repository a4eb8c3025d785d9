-- ===== src/Store/Mailbox/Claim/Round.antt =====
-- One round of a claim, a transaction: pkg/server/store/mailbox.go, from BEGIN to COMMIT.
use swarmd.Prelude.{
  ℕ, ◌+◌, ◌≡◌, refl, sym, ap, ◌∙◌, String, Bool, true, false, List, [], ◌∷◌, ◌++◌, Option, some,
  Has, any, update_where, Has-count, arith, ok, if_false, refuse->>, >>=-eq-ok, ok-eq-ok, eq_refl,
}
use swarmd.Store.Tables.{
  begin, commit, update_message, affected_message, insert_run, MessageRow, Db, Env, is_run, add_run,
}
use swarmd.Store.Tables.Inserts.{add_run-eq-ok}
use swarmd.Store.Types.{ClaimMessageParams, ClaimedMailboxMessage}
use swarmd.Store.Envelope.{to_millis, default_string, default_duration, decode_envelope_any}
use swarmd.Store.Mailbox.Scan.{scan_mailbox_message, render_trigger_prompt}
use swarmd.Store.Mailbox.Claim.{
  is_before, is_claimable, is_leasable, lease_row, claimed_record, new_run_row, new_run_record,
  start_run, lease_message, claim_attempt, default_lease, claim_candidate,
}
use swarmd.Store.Mailbox.Claim.Pick.{claim_candidate-eq-ok}

pub is_claimable→is_leasable :
    (ns agent : String) (now : ℕ) (r : MessageRow)
    → is_claimable ns agent now r ≡ true
    → is_leasable ns r.message_id now r ≡ true
unfolding is_claimable is_leasable
is_claimable→is_leasable ns agent now r h = ground (arith, eq_refl r.message_id)

-- What a claim does to the tables, and what it returns.
pub record IsClaim {V : Type 0} (env : Env V) (params : ClaimMessageParams) (k : ℕ) (db : Db)
    (c : ClaimedMailboxMessage) (db' : Db) : Type 0 where
  pub row : MessageRow
  pub prompt : String
  pub found : Has row db.messages
  pub claimable :
      is_claimable params.namespace_id params.agent_id (to_millis (env.now k)) row ≡ true
  pub first_of_all :
      (s : MessageRow)
      → Has s db.messages
      → is_claimable params.namespace_id params.agent_id (to_millis (env.now k)) s ≡ true
      → is_before s row ≡ false
  pub message :
      c.message
      ≡ claimed_record
          (default_string params.lease_owner env.lease_owner)
          (env.now k + default_duration params.lease_duration default_lease)
          (env.new_id "run" k)
          (env.now k)
          (scan_mailbox_message row)
  pub messages :
      db'.messages
      ≡ update_where
          (is_leasable params.namespace_id row.message_id (to_millis (env.now k)))
          (lease_row
            (default_string params.lease_owner env.lease_owner)
            (env.now k + default_duration params.lease_duration default_lease)
            (env.new_id "run" k)
            (env.now k))
          db.messages
  pub run : c.run ≡ new_run_record params (env.new_id "run" k) row.message_id (env.now k) prompt
  pub run_is_new : any (is_run params.namespace_id (env.new_id "run" k)) db.runs ≡ false
  pub runs :
      db'.runs
      ≡ db.runs ++ new_run_row params (env.new_id "run" k) row.message_id (env.now k) prompt ∷ []
  pub agents : db'.agents ≡ db.agents
  pub steps : db'.steps ≡ db.steps
  pub schedules : db'.schedules ≡ db.schedules

module _ {V : Type 0} (env : Env V) (params : ClaimMessageParams) where
  start_run-eq-ok :
      (owner run_id : String) (expires_at now : ℕ) (row : MessageRow) (db : Db)
      {c : Option ClaimedMailboxMessage} {db' : Db}
      → start_run env params owner run_id expires_at now row db ≡ ok (c, db')
      → (prompt : String) × (c
          ≡ some (record {
            message = claimed_record owner expires_at run_id now (scan_mailbox_message row);
            run = new_run_record params run_id row.message_id now prompt;
          }))
        × (any (is_run params.namespace_id run_id) db.runs ≡ false)
        × (db' ≡ record db {
          runs = db.runs ++ new_run_row params run_id row.message_id now prompt ∷ [];
        })
  unfolding start_run new_run_row
  start_run-eq-ok owner run_id expires_at now row db h =
      let (payload, _, h₁) = >>=-eq-ok (decode_envelope_any env.codec row.payload_json) _ h in
      let (prompt, _, h₂) = >>=-eq-ok (render_trigger_prompt env.codec payload) _ h₁ in
      let (_, h₃) = refuse->> _ (env.fails insert_run) _ h₂ in
      let run = new_run_row params run_id row.message_id now prompt in
      let (added, e, h₄) = >>=-eq-ok (add_run run db) _ h₃ in
      let (_, h₅) = refuse->> _ (env.fails commit) _ h₄ in
      let (fresh, _, same) = add_run-eq-ok run db e in
      let returned = ok-eq-ok h₅ in
      (prompt, ap (λ p. p.0) (sym returned), fresh, ap (λ p. p.1) (sym returned) ∙ same)

  module _ (owner : String) (duration now k : ℕ) (row : MessageRow) (db : Db)
      {c : Option ClaimedMailboxMessage} {db' : Db} (found : Has row db.messages)
      (free : is_leasable params.namespace_id row.message_id (to_millis now) row ≡ true)
      (done : lease_message env params owner duration now k row db ≡ ok (c, db')) where
    abbrev hit : MessageRow → Bool
    hit = is_leasable params.namespace_id row.message_id (to_millis now)

    abbrev leased_rows : List MessageRow
    leased_rows =
        update_where hit (lease_row owner (now + duration) (env.new_id "run" k) now) db.messages

    -- The UPDATE affects the row that the SELECT found, so the round goes on to the run.
    lease_message-eq-ok :
        start_run env params owner
          (env.new_id "run" k)
          (now + duration)
          now
          row
          (record db { messages = leased_rows })
        ≡ ok (c, db')
    unfolding lease_message
    lease_message-eq-ok =
        let (_, h₁) = refuse->> _ (env.fails update_message) _ done in
        let (_, h₂) = refuse->> _ (env.fails affected_message) _ h₁ in
        sym (if_false _ _ (Has-count hit db.messages found free)) ∙ h₂

  -- A round that ends without an error has claimed a message.
  pub claim_attempt-eq-ok :
      (k : ℕ) (db : Db) {c : Option ClaimedMailboxMessage} {db' : Db}
      → claim_attempt env params k db ≡ ok (c, db')
      → (claimed : ClaimedMailboxMessage) × (c ≡ some claimed) × IsClaim env params k db claimed db'
  unfolding claim_attempt
  claim_attempt-eq-ok k db h =
      let (_, h₁) = refuse->> _ (env.fails begin) _ h in
      let (row, e, h₂) = >>=-eq-ok (claim_candidate env params (env.now k) db) _ h₁ in
      let (found, claimable, least) = claim_candidate-eq-ok env params (env.now k) db e in
      let started =
        lease_message-eq-ok _ _ _ k row db found
          (is_claimable→is_leasable params.namespace_id params.agent_id _ row claimable) h₂ in
      let (prompt, same, fresh, after) = start_run-eq-ok _ _ _ _ row _ started in
      (
        _,
        same,
        record {
          row = row;
          prompt = prompt;
          found = found;
          claimable = claimable;
          first_of_all = least;
          message = refl;
          messages = ap (λ d. d.messages) after;
          run = refl;
          run_is_new = fresh;
          runs = ap (λ d. d.runs) after;
          agents = ap (λ d. d.agents) after;
          steps = ap (λ d. d.steps) after;
          schedules = ap (λ d. d.schedules) after;
        },
      )
