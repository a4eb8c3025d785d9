-- ===== src/Store/Mailbox/Valid/Ends.antt =====
-- The steps of a run, and its end, keep the invariant.
use swarmd.Prelude.{
  ℕ, suc, ◌≡◌, refl, sym, subst, ap, ◌∙◌, String, false, ◌||◌, List, [], ◌∷◌, Option, none, some,
  any-update_where, All-update_where, All-map, Distinct-update_where, count, ok, refuse->>,
  >>=-eq-ok, ok-eq-ok, is_empty, eqb, inl, inr, Bool-cases, if_true, if_false,
}
use swarmd.Store.Types.{leased, CreateMailboxMessageParams, CompleteRunParams, StepRecord}
use swarmd.Store.Envelope.{marshal_optional_envelope}
use swarmd.Store.Tables.{
  begin, commit, update_run, affected_run, update_message, affected_message, insert_step, Env,
  MessageRow, Db, is_message, is_run, add_step,
}
use swarmd.Store.Tables.Inserts.{add_step-eq-ok}
use swarmd.Store.Mailbox.Enqueue.{enqueue_message_tx}
use swarmd.Store.Mailbox.Complete.{
  new_step_row, finish_run, Fate, completed_fate, retry_fate, dead_fate, fate, release_row,
  insert_new_step, record_step, enqueue_outbox, update_run_row, update_message_row, finish_message,
  complete_run,
}
use swarmd.Store.Mailbox.Valid.{
  IsValid, HasShape, IsBacked, is_run_of, same_message, same_run, transaction-keeps,
}
use swarmd.Store.Mailbox.Valid.Claims.{enqueue_message_tx-IsValid}

-- The three ends of a message.
data Ends {V : Type 0} (params : CompleteRunParams V) : Fate → Type 0 where
  completes : Ends params (completed_fate params.finished_at)
  retries : (t : ℕ) → Ends params (retry_fate t)
  dies :
      is_empty params.dead_letter_reason ≡ false
      → Ends params (dead_fate params.finished_at params.dead_letter_reason)

fate-Ends : {V : Type 0} (params : CompleteRunParams V) → Ends params (fate params)
unfolding fate
fate-Ends params = elim (Bool-cases (is_empty params.dead_letter_reason)) [
  | inr n ↦ subst (Ends params) (sym (if_false _ _ n)) (dies n)
  | inl t ↦ subst (Ends params) (sym (if_true _ _ t)) (given params.retry_at)
]
  where
    given :
        (o : Option ℕ)
        → Ends params (elim o [ none ↦ completed_fate params.finished_at | some t ↦ retry_fate t ])
    given none = completes
    given (some t) = retries t

released_shape :
    {V : Type 0} (params : CompleteRunParams V) (error : String) (now : ℕ) (r : MessageRow)
    {f : Fate}
    → Ends params f
    → HasShape f.status (release_row f error now r)
unfolding release_row is_empty
released_shape params error now r completes = (refl, refl, refl, (_, refl), refl)
released_shape params error now r (retries t) = (refl, refl, refl, refl, refl)
released_shape params error now r (dies n) = (refl, refl, refl, (_, refl), n)

released_status :
    {V : Type 0} (params : CompleteRunParams V) {f : Fate} {A : Type 0}
    → Ends params f
    → f.status ≡ leased
    → A
released_status params completes e = cc
released_status params (retries t) e = cc
released_status params (dies n) e = cc

module _ {V : Type 0} (env : Env V) where
  update_run_row-IsValid :
      (params : CompleteRunParams V) (json : String) (now : ℕ) (db : Db) {db' : Db}
      → update_run_row env params json now db ≡ ok db'
      → IsValid db
      → IsValid db'
  unfolding update_run_row finish_run
  update_run_row-IsValid params json now db h v =
      let hit = is_run params.namespace_id params.run_id in
      let (_, h₁) = refuse->> _ (env.fails update_run) _ h in
      let (_, h₂) = refuse->> _ (env.fails affected_run) _ h₁ in
      let (_, h₃) = refuse->> _ (eqb (count hit db.runs) 0) _ h₂ in
      subst IsValid (ok-eq-ok h₃) (record {
        messages_keyed = v.messages_keyed;
        runs_keyed =
            Distinct-update_where same_run hit _ (λ x y. refl) (λ x y. refl) db.runs v.runs_keyed;
        shaped = v.shaped;
        backed =
            All-map (IsBacked db.runs) _
              (λ r b e. any-update_where (is_run_of r) hit _ (λ x. refl) db.runs ∙ b e) db.messages
              v.backed;
      })

  update_message_row-IsValid :
      (params : CompleteRunParams V) (now : ℕ) (db : Db) {db' : Db}
      → update_message_row env params now db ≡ ok db'
      → IsValid db
      → IsValid db'
  unfolding update_message_row release_row
  update_message_row-IsValid params now db h v =
      let hit = is_message params.namespace_id params.message_id in
      let (_, h₁) = refuse->> _ (env.fails update_message) _ h in
      let (_, h₂) = refuse->> _ (env.fails affected_message) _ h₁ in
      let (_, h₃) = refuse->> _ (eqb (count hit db.messages) 0) _ h₂ in
      subst IsValid (ok-eq-ok h₃) (record {
        messages_keyed =
            Distinct-update_where same_message hit _ (λ x y. refl) (λ x y. refl) db.messages
              v.messages_keyed;
        runs_keyed = v.runs_keyed;
        shaped =
            All-update_where (λ r. HasShape r.status r) hit _
              (λ r _ _. released_shape params params.error now r (fate-Ends params)) db.messages
              v.shaped;
        backed =
            All-update_where (IsBacked db.runs) hit _
              (λ r _ _ e. released_status params (fate-Ends params) e) db.messages v.backed;
      })

  enqueue_outbox-IsValid :
      (now k : ℕ) (ms : List (CreateMailboxMessageParams V)) (db : Db) {db' : Db}
      → enqueue_outbox env now k ms db ≡ ok db'
      → IsValid db
      → IsValid db'
  unfolding enqueue_outbox
  enqueue_outbox-IsValid now k [] db h v = subst IsValid (ok-eq-ok h) v
  enqueue_outbox-IsValid now k (m ∷ ms) db h v =
      let (sent, e, h₁) = >>=-eq-ok (enqueue_message_tx env now k m db) _ h in
      enqueue_outbox-IsValid now (suc k) ms sent.1 h₁
        (enqueue_message_tx-IsValid env now k m db e v)

  pub complete_run-IsValid :
      (params : CompleteRunParams V) (db : Db) → IsValid db → IsValid (complete_run env params db).1
  unfolding complete_run
  complete_run-IsValid params db v =
      transaction-keeps IsValid db (finish_message env params db) v λ u db' h.
        let (_, h₁) =
          refuse->> _
            (is_empty params.namespace_id || is_empty params.run_id || is_empty params.message_id) _
            h in
        let (json, _, h₂) =
          >>=-eq-ok (marshal_optional_envelope env.codec "run_value" params.value) _ h₁ in
        let (_, h₃) = refuse->> _ (env.fails begin) _ h₂ in
        let (updated, e₁, h₄) = >>=-eq-ok (update_run_row env params json (env.now 0) db) _ h₃ in
        let (released, e₂, h₅) =
          >>=-eq-ok (update_message_row env params (env.now 0) updated) _ h₄ in
        let (sent, e₃, h₆) =
          >>=-eq-ok (enqueue_outbox env (env.now 0) 0 params.outbox released) _ h₅ in
        let (_, h₇) = refuse->> _ (env.fails commit) _ h₆ in
        subst IsValid (ap (λ p. p.1) (ok-eq-ok h₇)) (
          enqueue_outbox-IsValid (env.now 0) 0 params.outbox released e₃ (
            update_message_row-IsValid params (env.now 0) updated e₂
              (update_run_row-IsValid params json (env.now 0) db e₁ v)))

  pub record_step-IsValid :
      (step : StepRecord) (db : Db) → IsValid db → IsValid (record_step env step db).1
  unfolding record_step
  record_step-IsValid step db v =
      transaction-keeps IsValid db (insert_new_step env step db) v λ u db' h.
        let (_, h₁) = refuse->> _ (is_empty step.namespace_id || is_empty step.run_id) _ h in
        let (_, h₂) = refuse->> _ (env.fails insert_step) _ h₁ in
        let (after, e, h₃) = >>=-eq-ok (add_step (new_step_row step) db) _ h₂ in
        let (_, _, same) = add_step-eq-ok (new_step_row step) db e in
        subst IsValid (sym same ∙ ap (λ p. p.1) (ok-eq-ok h₃)) (record {
          messages_keyed = v.messages_keyed;
          runs_keyed = v.runs_keyed;
          shaped = v.shaped;
          backed = v.backed;
        })
