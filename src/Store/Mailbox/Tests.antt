-- ===== src/Store/Mailbox/Tests.antt =====
-- A small mailbox: one message is sent, claimed, and its run ends, with the theorems at that input.
use swarmd.Prelude.{
  ℕ, ◌*◌, ◌≡◌, ◌≢◌, ◌↔◌, refl, sym, ◌∙◌, String, true, false, ◌&&◌, [], ◌∷◌, none, some, Has, leb,
  ◌==◌, arith, err, is_ok, ok_value, ok_value-eq, trim_space, is_empty,
}
use swarmd.Store.Types.{
  nil, text, value, CreateMailboxMessageParams, ClaimMessageParams, ClaimedMailboxMessage,
  CompleteRunParams, no_available_message,
}
use swarmd.Store.Envelope.{
  Codec, marshal_envelope, marshal_optional_envelope, decode_envelope_any, to_millis,
}
use swarmd.Store.Tables.{Env, MessageRow, Db, add_message, add_run}
use swarmd.Store.Mailbox.Enqueue.{
  enqueue_message_tx, new_message_row, new_message_record, enqueue_message,
}
use swarmd.Store.Mailbox.Scan.{render_trigger_prompt, scan_mailbox_message}
use swarmd.Store.Mailbox.Claim.{
  is_claimable, earliest, lease_row, new_run_row, claimed_record, start_run, lease_message,
  claim_attempt, claim_loop, claim_next_message, is_leasable,
}
use swarmd.Store.Mailbox.Claim.Round.{IsClaim}
use swarmd.Store.Mailbox.Claim.Next.{claim_next_message-IsClaim, claim_loop-one_round}
use swarmd.Store.Mailbox.Claim.Empty.{claim_next_message-none_iff}
use swarmd.Store.Mailbox.Valid.{IsValid}
use swarmd.Store.Mailbox.Valid.Claims.{enqueue_message-IsValid}
use swarmd.Store.Mailbox.Valid.Reach.{here, next, enqueue, claim, complete, Reach-IsValid}
use swarmd.Store.Mailbox.Runs.{IsEnd, complete_run-IsEnd}
use swarmd.Store.Mailbox.Lease.{
  start, then, enqueues, claim-excludes, leased_row, leased_row-Has, leased_row-namespace,
  leased_row-id,
}
use swarmd.Store.Mailbox.Turns.{may_retry, complete_run-claimable, enqueue_message-claimable}
use swarmd.Store.Mailbox.Complete.{
  finish_run, fate, release_row, enqueue_outbox, update_run_row, update_message_row, complete_run,
}

-- Encoders that keep the text of a payload and forget everything else.
abbrev pub test_codec : Codec ℕ
test_codec = record {
  marshal = λ p. elim p [ nil ↦ some "null" | text s ↦ some s | value v ↦ some "0" ];
  unmarshal = λ s. some (text s);
  marshal_indent = λ v. some "0";
  marshal_json_envelope = λ e. some e.body;
  unmarshal_json_envelope = λ s. some (record { version = 1; kind = ""; body = s });
}

-- A call at the given second, with one fresh identifier, and no failure.
abbrev pub test_env : ℕ → String → Env ℕ
test_env second id = record {
  codec = test_codec;
  now = λ k. second * 1000000000;
  new_id = λ prefix k. id;
  fails = λ site. false;
  lease_owner = "worker";
}

abbrev pub empty_db : Db
empty_db = record { agents = ("n", "a") ∷ []; messages = []; runs = []; steps = []; schedules = [] }

abbrev pub greeting : CreateMailboxMessageParams ℕ
greeting = record {
  namespace_id = "n";
  message_id = "";
  thread_id = "";
  sender_agent_id = "";
  recipient_agent_id = "a";
  kind = "";
  payload = text " hello ";
  metadata = nil;
  available_at = none;
  max_attempts = 0;
}

abbrev pub claim_params : ClaimMessageParams
claim_params = record {
  namespace_id = "n";
  agent_id = "a";
  lease_owner = "";
  lease_duration = 0;
  system_prompt = "";
}

mailbox_code : Unit {0}
unfolding is_empty new_run_row claimed_record scan_mailbox_message enqueue_message
    claim_next_message complete_run claim_loop claim_attempt lease_message start_run
    enqueue_message_tx new_message_row add_message add_run marshal_envelope
    marshal_optional_envelope decode_envelope_any trim_space earliest is_claimable is_leasable
    lease_row render_trigger_prompt enqueue_outbox update_run_row update_message_row finish_run fate
    release_row
mailbox_code = tt

abbrev sent_db : Db
sent_db = (enqueue_message (test_env 1 "m") greeting empty_db).1

sent_ok : is_ok (enqueue_message (test_env 1 "m") greeting empty_db).0 ≡ true
unfolding mailbox_code
sent_ok = refl

claimed_ok : is_ok (claim_next_message (test_env 2 "r") claim_params sent_db).0 ≡ true
unfolding mailbox_code
claimed_ok = refl

abbrev first_claim : ClaimedMailboxMessage
first_claim = ok_value (claim_next_message (test_env 2 "r") claim_params sent_db).0 claimed_ok

abbrev claimed_db : Db
claimed_db = (claim_next_message (test_env 2 "r") claim_params sent_db).1

first_id : first_claim.message.id ≡ "m"
unfolding mailbox_code
first_id = refl

abbrev ending : CompleteRunParams ℕ
ending = record {
  namespace_id = "n";
  run_id = "r";
  message_id = "m";
  status = "driver_error";
  finished_at = 3000000000;
  duration = 1000000000;
  cwd = "/";
  usage_cached_tokens = 0;
  finish_thought = "";
  value = nil;
  error = "timeout";
  retry_at = some 33000000000;
  dead_letter_reason = "";
  outbox = greeting ∷ [];
}

ended_ok : is_ok (complete_run (test_env 3 "m2") ending claimed_db).0 ≡ true
unfolding mailbox_code
ended_ok = refl

abbrev ended_db : Db
ended_db = (complete_run (test_env 3 "m2") ending claimed_db).1

-- The retry is claimed again when its time has come, under a new run.
again_ok : is_ok (claim_next_message (test_env 40 "r2") claim_params ended_db).0 ≡ true
unfolding mailbox_code
again_ok = refl

-- While the first lease lasts, a second message may be claimed.
two_ok : is_ok (enqueue_message (test_env 3 "m2") greeting claimed_db).0 ≡ true
unfolding mailbox_code
two_ok = refl

abbrev two_db : Db
two_db = (enqueue_message (test_env 3 "m2") greeting claimed_db).1

other_ok : is_ok (claim_next_message (test_env 4 "r2") claim_params two_db).0 ≡ true
unfolding mailbox_code
other_ok = refl

abbrev other_claim : ClaimedMailboxMessage
other_claim = ok_value (claim_next_message (test_env 4 "r2") claim_params two_db).0 other_ok

empty-IsValid : IsValid empty_db
empty-IsValid = record { messages_keyed = tt; runs_keyed = tt; shaped = tt; backed = tt }

claim_next_message-IsClaim_example :
    IsClaim (test_env 2 "r") claim_params 0 sent_db first_claim claimed_db
claim_next_message-IsClaim_example =
    claim_next_message-IsClaim (test_env 2 "r") claim_params sent_db
      (ok_value-eq (claim_next_message (test_env 2 "r") claim_params sent_db) claimed_ok)

claim_next_message-none_iff_example :
    ((claim_next_message (test_env 4 "r2") claim_params claimed_db).0 ≡ err no_available_message)
    ↔ ((s : MessageRow)
        → Has s claimed_db.messages
        → is_claimable "n" "a" (to_millis (4 * 1000000000)) s ≡ false)
unfolding is_empty
claim_next_message-none_iff_example =
    claim_next_message-none_iff (test_env 4 "r2") claim_params claimed_db refl refl refl

claim_loop-one_round_example :
    claim_loop (test_env 2 "r") claim_params 8 0 sent_db
    ≡ claim_loop (test_env 2 "r") claim_params 1 0 sent_db
claim_loop-one_round_example = claim_loop-one_round (test_env 2 "r") claim_params 7 0 sent_db

claim-excludes_example : other_claim.message.id ≢ first_claim.message.id
claim-excludes_example =
    claim-excludes (test_env 2 "r") (test_env 4 "r2") claim_params claim_params sent_db sent-IsValid
      (ok_value-eq (claim_next_message (test_env 2 "r") claim_params sent_db) claimed_ok)
      (then start (enqueues (test_env 3 "m2") greeting))
      (ok_value-eq (claim_next_message (test_env 4 "r2") claim_params two_db) other_ok) refl
      (omega arith)
  where
    sent-IsValid : IsValid sent_db
    sent-IsValid = enqueue_message-IsValid (test_env 1 "m") greeting empty_db empty-IsValid

Reach-IsValid_example : IsValid ended_db
Reach-IsValid_example = Reach-IsValid empty-IsValid (
    next
      (next (next here (enqueue (test_env 1 "m") greeting)) (claim (test_env 2 "r") claim_params))
      (complete (test_env 3 "m2") ending))

complete_run-IsEnd_example : IsEnd (test_env 3 "m2") ending claimed_db ended_db
complete_run-IsEnd_example =
    complete_run-IsEnd (test_env 3 "m2") ending claimed_db
      (ok_value-eq (complete_run (test_env 3 "m2") ending claimed_db) ended_ok)

abbrev held : MessageRow
held =
    leased_row (test_env 2 "r") claim_params sent_db
      (ok_value-eq (claim_next_message (test_env 2 "r") claim_params sent_db) claimed_ok)

complete_run-claimable_example :
    (s : MessageRow) × Has s ended_db.messages
    × (s.message_id ≡ held.message_id)
    × ((agent : String) (now_ms : ℕ)
        → is_claimable "n" agent now_ms s
          ≡ (held.recipient_agent_id == agent && may_retry ending now_ms))
unfolding lease_row
complete_run-claimable_example =
    complete_run-claimable (test_env 3 "m2") ending claimed_db held
      (ok_value-eq (complete_run (test_env 3 "m2") ending claimed_db) ended_ok)
      (leased_row-Has (test_env 2 "r") claim_params sent_db
        (ok_value-eq (claim_next_message (test_env 2 "r") claim_params sent_db) claimed_ok))
      (leased_row-namespace (test_env 2 "r") claim_params sent_db
        (ok_value-eq (claim_next_message (test_env 2 "r") claim_params sent_db) claimed_ok))
      (sym (
          leased_row-id (test_env 2 "r") claim_params sent_db
            (ok_value-eq (claim_next_message (test_env 2 "r") claim_params sent_db) claimed_ok))
        ∙ first_id)

enqueue_message-claimable_example :
    (s : MessageRow) × Has s sent_db.messages
    × (s.message_id ≡ "m")
    × ((agent : String) (now_ms : ℕ)
        → is_claimable "n" agent now_ms s ≡ ("a" == agent && leb (to_millis 1000000000) now_ms))
unfolding mailbox_code new_message_record
enqueue_message-claimable_example =
    enqueue_message-claimable (test_env 1 "m") greeting empty_db
      (ok_value-eq (enqueue_message (test_env 1 "m") greeting empty_db) sent_ok)
