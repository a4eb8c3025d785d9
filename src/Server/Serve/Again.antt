-- ===== src/Server/Serve/Again.antt =====
-- pkg/agent/agent.go and pkg/server: from the claim of a message to the end of its run.
use swarmd.Prelude.{
  ℕ, ◌+◌, ◌≡◌, sym, ap, ◌∙◌, subst, String, Bool, true, false, not, ◌&&◌, Option, none, some, ◌==◌,
  if◌then◌else◌, leb, Has, Result, ok, err, arith,
}
use swarmd.Store.Types.{ClaimedMailboxMessage, Payload}
use swarmd.Store.Envelope.{to_millis}
use swarmd.Store.Tables.{Env, MessageRow, Db}
use swarmd.Store.Mailbox.Claim.{is_claimable, claim_next_message}
use swarmd.Store.Mailbox.Claim.Next.{claim_next_message-IsClaim}
use swarmd.Agent.Types.{GoError, Trigger, TurnResult}
use swarmd.Agent.Requests.{AgentConfig, Wording, new_trigger_request_context}
use swarmd.Agent.Host.{Host}
use swarmd.Agent.Loop.{Return, handle_trigger}
use swarmd.Agent.Loop.Triggers.{run_turn-trigger}
use swarmd.Server.Context.{Metadata, trigger_metadata, metadata_int, trigger_context_from_metadata}
use swarmd.Server.Steps.{StepError}
use swarmd.Server.Results.{
  Envelopes, ResultPersister, ServerError, handle_result, is_finished, is_given_up, is_exhausted,
  delay_of,
}
use swarmd.Server.Results.Retries.{handle_result-claimable}
use swarmd.Server.Turns.{worker_host, persisted}
use swarmd.Server.Turns.Stored.Kept.{run_turn-messages}
use swarmd.Server.Queue.{MessageQueue, claim_params, message_trigger, poll}
use swarmd.Server.Serve.{Passing, ServeError, serve_trigger, store_result, answered}
use swarmd.Server.Serve.Taken.{
  Leaves, reads_back, context-eq-ok, handle_result-known, polled-Claims, Taken, IsClaim-Taken,
}

-- Not given up, of a result that is not finished.
not_given_up :
    (finished exhausted late : Bool)
    → (not finished && not (not finished && exhausted) && late)
      ≡ (not finished && not exhausted && late)
not_given_up finished exhausted late = ground arith

module _ {V W : Type 0} (read_metadata : String → Option Metadata) (envelopes : Envelopes V)
    (describe : StepError → GoError) (base : Host V W) (w : Wording V) (a : AgentConfig)
    (q : MessageQueue) (p : ResultPersister) where
  stored_result :
      (x : Passing V) (r : TurnResult V) (back : Option GoError) (s : Db × W) {s' : Db × W}
      → store_result read_metadata envelopes describe base w a q p x ((r, back), s) ≡ (ok tt, s')
      → handle_result envelopes x.after p x.now (persisted r) s.0 ≡ (ok tt, s'.0)
  stored_result x r none s h = back_to (handle_result envelopes x.after p x.now (persisted r) s.0) h
    where
      back_to :
          (o : Result ServerError (Unit {0}) × Db) {s' : Db × W}
          → answered s.1 o ≡ (ok tt, s')
          → o ≡ (ok tt, s'.0)
      back_to (ok u, db) h = ap (λ y. (ok tt, y.1.0)) h
      back_to (err e, db) h = absurd (differ (ap (λ y. y.0) h))
        where
          differ :
              ◌≡◌ {A = Result ServeError (Unit {0})} (err (ServeError.result_error e)) (ok tt) → ⊥
          differ k = cc
  stored_result x r (some e) s h = absurd (differ (ap (λ y. y.0) h))
    where
      differ : ◌≡◌ {A = Result ServeError (Unit {0})} (err (ServeError.turn_error e)) (ok tt) → ⊥
      differ k = cc

  -- What has become of the message that was taken.
  abbrev pub Again : ℕ → MessageRow → TurnResult V → Db → Type 0
  Again now row r db' =
      (s : MessageRow) × Has s db'.messages
      × (s.message_id ≡ row.message_id)
      × ((agent : String) (now_ms : ℕ)
          → is_claimable q.namespace_id agent now_ms s ≡ (
              row.recipient_agent_id == agent
              && (not (is_finished (persisted r))
                  && not (is_exhausted (row.attempt_count + 1) row.max_attempts)
                  && leb (to_millis (now + delay_of p)) now_ms)))

  module _ (x : Passing V) (db : Db) (c : ClaimedMailboxMessage) (payload : Payload V) (db₁ : Db)
      (v : W) (k : Taken q db c db₁) (leaves : Leaves read_metadata c.message.metadata_json) where
    abbrev given : Trigger V
    given = message_trigger read_metadata q c payload

    abbrev turn : Return V × (Db × W)
    turn = handle_trigger (worker_host x.during describe base) w a given (db₁, v)

    abbrev meta : Metadata
    meta = trigger_metadata q.namespace_id q.agent_id c (read_metadata c.message.metadata_json)

    same_metadata : (persisted turn.0.0).metadata ≡ some meta
    unfolding handle_trigger persisted message_trigger
    same_metadata =
        ap (λ y. y.metadata)
          (run_turn-trigger (worker_host x.during describe base) w a given 1
            (if a.preserve_state then false else true) new_trigger_request_context (db₁, v))

    attempts_left : is_given_up (persisted turn.0.0) ≡ (
        not (is_finished (persisted turn.0.0))
        && is_exhausted (k.row.attempt_count + 1) k.row.max_attempts)
    unfolding is_given_up
    attempts_left =
        let (_, _, attempts, limit) =
          reads_back read_metadata c.message.metadata_json q.namespace_id q.agent_id c leaves in
        ap
          (λ (y : Option Metadata).
            not (is_finished (persisted turn.0.0))
            && is_exhausted (elim y [ none ↦ 0 | some m ↦ metadata_int m "server_attempt_count" ])
                (elim y [ none ↦ 0 | some m ↦ metadata_int m "server_max_attempts" ]))
          same_metadata
        ∙ ap
            (λ n.
              not (is_finished (persisted turn.0.0))
              && is_exhausted n (metadata_int meta "server_max_attempts"))
            (attempts ∙ k.attempts)
        ∙ ap
            (λ n.
              not (is_finished (persisted turn.0.0)) && is_exhausted (k.row.attempt_count + 1) n)
            (limit ∙ k.limit)

    turn-messages : (turn.1.0).messages ≡ db₁.messages
    unfolding handle_trigger
    turn-messages =
        run_turn-messages x.during describe base w a given 1
          (if a.preserve_state then false else true) new_trigger_request_context (db₁, v)

    served-Again :
        {s' : Db × W}
        → serve_trigger read_metadata envelopes describe base w a q p x given (db₁, v) ≡ (ok tt, s')
        → Again x.now k.row turn.0.0 s'.0
    unfolding serve_trigger
    served-Again h =
        let stored = stored_result x turn.0.0 turn.0.1 turn.1 h in
        let (c', kn) =
          handle_result-known envelopes x.after p x.now (persisted turn.0.0) turn.1.0 stored in
        let known : trigger_context_from_metadata (some meta) ≡ ok c' =
          ap trigger_context_from_metadata (sym same_metadata) ∙ kn in
        let is_read = context-eq-ok meta known in
        let (ns, id, _, _) =
          reads_back read_metadata c.message.metadata_json q.namespace_id q.agent_id c leaves in
        let (s, there, same, claims) =
          handle_result-claimable envelopes x.after p x.now (persisted turn.0.0) c' turn.1.0
            k.leased kn stored (subst (Has k.leased) (sym turn-messages) k.there)
            (k.namespace_id ∙ sym (ap (λ y. y.namespace_id) is_read ∙ ns))
            (k.message_id ∙ sym (ap (λ y. y.message_id) is_read ∙ id ∙ k.id)) in
        (
          s,
          there,
          same ∙ k.message_id,
          λ agent now_ms.
              ap (λ n. is_claimable n agent now_ms s) (sym (ap (λ y. y.namespace_id) is_read ∙ ns))
              ∙ claims agent now_ms
              ∙ ap
                  (λ y.
                    y == agent
                    && (not (is_finished (persisted turn.0.0))
                        && not (is_given_up (persisted turn.0.0))
                        && leb (to_millis (x.now + delay_of p)) now_ms))
                  k.recipient_kept
              ∙ ap
                  (λ y.
                    k.row.recipient_agent_id == agent
                    && (not (is_finished (persisted turn.0.0))
                        && not y
                        && leb (to_millis (x.now + delay_of p)) now_ms))
                  attempts_left
              ∙ ap (λ y. k.row.recipient_agent_id == agent && y)
                  (not_given_up (is_finished (persisted turn.0.0))
                    (is_exhausted (k.row.attempt_count + 1) k.row.max_attempts)
                    (leb (to_millis (x.now + delay_of p)) now_ms)),
        )

  -- When an agent's queue has found a message, the agent has handled it and the result is stored,
  -- the message is one that the agent was the recipient of, it is still in the table, and an agent may
  -- claim it exactly if it is that recipient, the run did not finish, the attempts, this one counted,
  -- are not used up, and the delay has passed. This takes that no message has metadata under the keys
  -- of the runtime.
  pub serve_trigger-Again :
      (env : Env V) (x : Passing V) (db db₁ : Db) (v : W) (t : Trigger V) {s' : Db × W}
      → poll read_metadata env q db ≡ (ok (some t), db₁)
      → serve_trigger read_metadata envelopes describe base w a q p x t (db₁, v) ≡ (ok tt, s')
      → ((row : MessageRow) → Has row db.messages → Leaves read_metadata row.metadata_json)
      → (row : MessageRow) × Has row db.messages
        × (row.recipient_agent_id ≡ q.agent_id)
        × Again x.now row
            (handle_trigger (worker_host x.during describe base) w a t (db₁, v)).0.0
            s'.0
  unfolding poll
  serve_trigger-Again env x db db₁ v t {s'} found served plain =
      let (c, payload, claimed, e) =
        polled-Claims read_metadata env q (claim_next_message env (claim_params q) db) found in
      let k =
        IsClaim-Taken env q db c db₁ (claim_next_message-IsClaim env (claim_params q) db claimed) in
      let leaves : Leaves read_metadata c.message.metadata_json =
        subst (Leaves read_metadata) (sym k.metadata) (plain k.row k.found) in
      (
        k.row,
        k.found,
        k.recipient,
        subst
            (λ (y : Trigger V).
              serve_trigger read_metadata envelopes describe base w a q p x y (db₁, v) ≡ (ok tt, s')
              → Again x.now k.row
                  (handle_trigger (worker_host x.during describe base) w a y (db₁, v)).0.0 s'.0)
            e (served-Again x db c payload db₁ v k leaves) served,
      )
