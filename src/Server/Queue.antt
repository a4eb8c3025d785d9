-- ===== src/Server/Queue.antt =====
-- pkg/server/queue.go: the queue of an agent, which polls the mailbox.
use swarmd.Prelude.{ℕ, String, List, [], ◌∷◌, Option, none, some, Result, ok, err}
use swarmd.Store.Types.{
  Payload, ClaimMessageParams, ClaimedMailboxMessage, StoreError, no_available_message,
}
use swarmd.Store.Tables.{Env, Db}
use swarmd.Store.Envelope.{decode_envelope_any}
use swarmd.Store.Mailbox.Claim.{claim_next_message}
use swarmd.Server.Context.{Metadata, trigger_metadata}
use swarmd.Agent.Types.{GoError, Trigger}

pub record MessageQueue : Type 0 where
  pub namespace_id : String
  pub agent_id : String
  pub lease_owner : String
  pub lease_duration : ℕ
  pub system_prompt : String

pub data QueueError : Type 0 where
  claim_error payload_error : StoreError → QueueError
  ctx_error : GoError → QueueError

-- What ends the wait between two polls: the timer, and what others did to the database
-- meanwhile, or the context.
pub data Wait : Type 0 where
  timer : (Db → Db) → Wait
  done : GoError → Wait

abbrev pub claim_params : MessageQueue → ClaimMessageParams
claim_params q = record {
  namespace_id = q.namespace_id;
  agent_id = q.agent_id;
  lease_owner = q.lease_owner;
  lease_duration = q.lease_duration;
  system_prompt = q.system_prompt;
}

-- `read_metadata` gives the metadata of a message, if they can be decoded and are a map.
module _ {V : Type 0} (read_metadata : String → Option Metadata) where
  unfoldable pub message_trigger : MessageQueue → ClaimedMailboxMessage → Payload V → Trigger V
  message_trigger q c payload = record {
    id = c.run.trigger_id;
    kind = c.message.kind;
    payload = payload;
    metadata =
        some (trigger_metadata q.namespace_id q.agent_id c (read_metadata c.message.metadata_json));
    enqueued_at = c.message.created_at;
  }

  abbrev pub with_payload :
      MessageQueue
      → ClaimedMailboxMessage
      → Result StoreError (Payload V)
      → Result QueueError (Option (Trigger V))
  with_payload q c (ok payload) = ok (some (message_trigger q c payload))
  with_payload q c (err e) = err (payload_error e)

  abbrev pub unclaimed : StoreError → Result QueueError (Option (Trigger V))
  unclaimed no_available_message = ok none
  unclaimed e = err (claim_error e)

  abbrev pub polled :
      Env V
      → MessageQueue
      → Result StoreError ClaimedMailboxMessage × Db
      → Result QueueError (Option (Trigger V)) × Db
  polled env q (ok c, db) =
      (with_payload q c (decode_envelope_any env.codec c.message.payload_json), db)
  polled env q (err e, db) = (unclaimed e, db)

  -- One turn of the loop of `Next`: none is to wait.
  unfoldable pub poll : Env V → MessageQueue → Db → Result QueueError (Option (Trigger V)) × Db
  poll env q db = polled env q (claim_next_message env (claim_params q) db)

  abbrev pub waited :
      Wait
      → Db
      → (Db → Option (Result QueueError (Trigger V)) × Db)
      → Option (Result QueueError (Trigger V)) × Db
  waited (timer others) db again = again (others db)
  waited (done e) db again = (some (err (ctx_error e)), db)

  abbrev pub next_at :
      Wait
      → (Db → Option (Result QueueError (Trigger V)) × Db)
      → Result QueueError (Option (Trigger V)) × Db
      → Option (Result QueueError (Trigger V)) × Db
  next_at wait again (ok (some t), db) = (some (ok t), db)
  next_at wait again (ok none, db) = waited wait db again
  next_at wait again (err e, db) = (some (err e), db)

  -- `Next`, over the polls that it may make and the waits behind them; none is that it still waits.
  unfoldable pub next :
      MessageQueue → List (Env V × Wait) → Db → Option (Result QueueError (Trigger V)) × Db
  unfolding poll
  next q [] db = (none, db)
  next q ((env, wait) ∷ rest) db = next_at wait (next q rest) (poll env q db)
