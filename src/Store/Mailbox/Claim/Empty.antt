-- ===== src/Store/Mailbox/Claim/Empty.antt =====
-- When `ClaimNextMessage` answers that no message is available.
use swarmd.Prelude.{
  ℕ, ◌≡◌, ◌≢◌, ◌↔◌, refl, sym, subst, ◌∙◌, Bool, false, ◌||◌, String, [], none, some, inl, inr, Has,
  select, Has-select, arith, Result, ok, err, Bool-cases, Option-cases, is_empty, select-Has,
}
use swarmd.Store.Tables.{begin, query, MessageRow, Db, Env, add_run}
use swarmd.Store.Types.{Payload, ClaimMessageParams, StoreError, no_available_message}
use swarmd.Store.Envelope.{Codec, default_string, default_duration, to_millis, decode_envelope_any}
use swarmd.Store.Mailbox.Scan.{render_trigger_prompt}
use swarmd.Store.Mailbox.Claim.{
  is_claimable, earliest, claim_candidate, start_run, default_lease, lease_message, claim_attempt,
  claim_next_message,
}
use mathlib.Core.Bool.{false≢true}
use swarmd.Store.Mailbox.Claim.Next.{claim_next_message-eq-err, claim_next_message_of_err}
use swarmd.Store.Mailbox.Claim.Pick.{earliest-IsFirst, earliest-nil}

decode-ne :
    {V : Type 0} (codec : Codec V) (s : String)
    → decode_envelope_any codec s ≢ err no_available_message
unfolding decode_envelope_any
decode-ne codec s h = ground arith

render-ne :
    {V : Type 0} (codec : Codec V) (p : Payload V)
    → render_trigger_prompt codec p ≢ err no_available_message
unfolding render_trigger_prompt
render-ne codec p h = ground arith

module _ {V : Type 0} (env : Env V) (params : ClaimMessageParams) where
  lease_message-ne :
      (owner : String) (duration now k : ℕ) (row : MessageRow) (db : Db)
      → lease_message env params owner duration now k row db ≢ err no_available_message
  unfolding lease_message start_run add_run
  lease_message-ne owner duration now k row db h =
      go (decode_envelope_any env.codec row.payload_json) refl
    where
      go :
          (d : Result StoreError (Payload V))
          → decode_envelope_any env.codec row.payload_json ≡ d
          → ⊥
      go (ok p) e = ground (arith, render-ne env.codec p)
      go (err x) e = ground (arith, decode-ne env.codec row.payload_json)

  module _ (k : ℕ) (db : Db) (begun : env.fails begin ≡ false)
      (queried : env.fails query ≡ false) where
    abbrev hit : MessageRow → Bool
    hit = is_claimable params.namespace_id params.agent_id (to_millis (env.now k))

    attempt-none :
        earliest (select hit db.messages) ≡ none
        → claim_attempt env params k db ≡ err no_available_message
    unfolding claim_attempt claim_candidate
    attempt-none e = ground arith

    attempt-some :
        (r : MessageRow)
        → earliest (select hit db.messages) ≡ some r
        → claim_attempt env params k db ≢ err no_available_message
    unfolding claim_attempt claim_candidate
    attempt-some r e h = ground (
      arith,
      lease_message-ne (default_string params.lease_owner env.lease_owner)
          (default_duration params.lease_duration default_lease) (env.now k) k r db,
    )

  -- A claim with both identifiers given, at a database that begins the transaction and answers the
  -- query, reports that no message is available exactly when no message may be claimed.
  pub claim_next_message-none_iff :
      (db : Db)
      → (is_empty params.namespace_id || is_empty params.agent_id) ≡ false
      → env.fails begin ≡ false
      → env.fails query ≡ false
      → ((claim_next_message env params db).0 ≡ err no_available_message) ↔ (
          (s : MessageRow)
          → Has s db.messages
          → is_claimable params.namespace_id params.agent_id (to_millis (env.now 0)) s ≡ false)
  claim_next_message-none_iff db named begun queried = (
    λ h s m. taken h s m,
    λ all.
        claim_next_message_of_err env params db named
          (attempt-none 0 db begun queried (nothing all)),
  )
    where
      idle :
          (claim_next_message env params db).0 ≡ err no_available_message
          → select (hit 0 db begun queried) db.messages ≡ []
      idle h = elim (Option-cases (earliest (select (hit 0 db begun queried) db.messages))) [
        | inl n ↦ earliest-nil _ n
        | inr (r, e) ↦
            absurd (
              attempt-some 0 db begun queried r e (claim_next_message-eq-err env params db named h))
      ]

      taken :
          (claim_next_message env params db).0 ≡ err no_available_message
          → (s : MessageRow) → Has s db.messages
          → hit 0 db begun queried s ≡ false
      taken h s m = elim (Bool-cases (hit 0 db begun queried s)) [
        | inl t ↦
            elim (subst (Has s) (idle h) (Has-select (hit 0 db begun queried) db.messages m t)) [ ]
        | inr f ↦ f
      ]

      nothing :
          ((s : MessageRow) → Has s db.messages → hit 0 db begun queried s ≡ false)
          → earliest (select (hit 0 db begun queried) db.messages) ≡ none
      nothing all = elim (Option-cases (earliest (select (hit 0 db begun queried) db.messages))) [
        | inl n ↦ n
        | inr (r, e) ↦
            let (old, t) =
              select-Has (hit 0 db begun queried) db.messages (earliest-IsFirst _ r e).0 in
            absurd (false≢true (sym (all r old) ∙ t))
      ]
