-- ===== src/Store/Mailbox/Valid/Reach.antt =====
-- Every database that the operations of the mailbox can reach satisfies the invariant.
use swarmd.Store.Types.{
  CreateMailboxMessageParams, ClaimMessageParams, StepRecord, CompleteRunParams,
}
use swarmd.Store.Tables.{Env, Db}
use swarmd.Store.Mailbox.Enqueue.{enqueue_message}
use swarmd.Store.Mailbox.Claim.{claim_next_message}
use swarmd.Store.Mailbox.Complete.{record_step, complete_run}
use swarmd.Store.Mailbox.Valid.{IsValid}
use swarmd.Store.Mailbox.Valid.Claims.{enqueue_message-IsValid, claim_next_message-IsValid}
use swarmd.Store.Mailbox.Valid.Ends.{record_step-IsValid, complete_run-IsValid}

-- One call, by any worker, with any readings of the clock, identifiers and failures.
pub data Step (V : Type 0) (db : Db) : Db → Type 0 where
  enqueue :
      (env : Env V) (params : CreateMailboxMessageParams V)
      → Step V db (enqueue_message env params db).1
  claim :
      (env : Env V) (params : ClaimMessageParams) → Step V db (claim_next_message env params db).1
  note : (env : Env V) (step : StepRecord) → Step V db (record_step env step db).1
  complete : (env : Env V) (params : CompleteRunParams V) → Step V db (complete_run env params db).1

pub data Reach (V : Type 0) (db : Db) : Db → Type 0 where
  here : Reach V db db
  next : {mid last : Db} → Reach V db mid → Step V mid last → Reach V db last

pub Step-IsValid : {V : Type 0} {db db' : Db} → Step V db db' → IsValid db → IsValid db'
Step-IsValid {db = db} (enqueue env params) v = enqueue_message-IsValid env params db v
Step-IsValid {db = db} (claim env params) v = claim_next_message-IsValid env params db v
Step-IsValid {db = db} (note env step) v = record_step-IsValid env step db v
Step-IsValid {db = db} (complete env params) v = complete_run-IsValid env params db v

-- Whatever calls the workers make, in whatever order and whichever fail, the mailbox keeps its
-- invariant: the keys of messages and of runs are unique, the lease and end columns of a message
-- are set as its status says, and a leased message names a run of the runs table that is for it.
pub Reach-IsValid : {V : Type 0} {db db' : Db} → IsValid db → Reach V db db' → IsValid db'
Reach-IsValid v here = v
Reach-IsValid v (next r s) = Step-IsValid s (Reach-IsValid v r)
