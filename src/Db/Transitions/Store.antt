-- ===== src/Db/Transitions/Store.antt =====
-- Every operation of the store moves every task along the diagram, or leaves it alone.
use ruchat.Prelude.{
  ℕ, String, ◌≡◌, refl, sym, ap, ◌∙◌, Bool, true, Option, some, List, inl, inr, Bool-cases, snd_if,
}
use ruchat.Prelude.Lists.{find, update}
use ruchat.Prelude.Updates.{All-find, map_option, rewritten, find_holds, find-update, find-append}
use ruchat.Protocol.Domain.{CreateTaskRequest, SubmitTaskResultRequest}
use ruchat.Protocol.Codec.{Json}
use ruchat.Db.Rows.{TaskAudit, TaskRow, Db, has_id}
use ruchat.Db.Text.{task_status_from_str}
use ruchat.Db.Nodes.{register_node, update_node_commands}
use ruchat.Db.Events.{record_session_event}
use ruchat.Db.Tasks.{
  requeue_incomplete_tasks, insert_task, is_incomplete, requeue, dispatch, is_acknowledged,
  acknowledge, is_retried, retry, finish, cancel, submit_task_result, cancel_task, claim_task,
  acknowledge_task, retry_task, create_task,
}
use ruchat.Db.Lifecycle.{IsSound, status_of_text}
use ruchat.Db.Writes.{
  is_incomplete-in_progress, is_retried-in_progress, is_acknowledged-dispatched,
  is_queued_for-queued,
}
use ruchat.Db.Keys.{has_id_eq}
use ruchat.Db.Sound.{IsSoundDb}
use ruchat.Db.Effects.{
  acknowledge_task_stored, retry_task_stored, create_task_cases, submit_task_result_cases,
  cancel_task_cases, ClaimCases, claim_task_cases,
}
use ruchat.Db.Claim.{next_queued_holds, next_queued_found, read_pending_id}
use ruchat.Db.Ops.{Op, apply_op}
use ruchat.Db.Transitions.{
  Progress, Progress-refl, requeue-Progress, retry-Progress, dispatch-Progress,
  acknowledge-Progress, finish-Progress, cancel-Progress,
}

module _ (json : Json) (db : Db) (task_id : ℕ) (row : TaskRow) where
  -- The task goes on in a table.
  abbrev Continues : List TaskRow → Type 0
  Continues rows = (row' : TaskRow) × (find (has_id task_id) rows ≡ some row') × Progress row row'

  module _ (h : IsSoundDb json db) (found : find (has_id task_id) db.tasks ≡ some row) where
    sound : IsSound json row
    sound = All-find (IsSound json) (has_id task_id) db.tasks h.rows found

    unchanged : Continues db.tasks
    unchanged = (row, found, Progress-refl sound)

    -- A write that keeps ids, and is progress where its guard picks the row.
    by_update :
        (p : TaskRow → Bool) (f : TaskRow → TaskRow)
        → ((r : TaskRow) → has_id task_id (f r) ≡ has_id task_id r)
        → (p row ≡ true → Progress row (f row))
        → Continues (update p f db.tasks)
    by_update p f keep step = (
      rewritten p f row,
      find-update (has_id task_id) p f db.tasks keep ∙ ap (map_option (rewritten p f)) found,
      elim (Bool-cases (p row)) [ inl e ↦ rw e (step e) | inr e ↦ rw e (Progress-refl sound) ],
    )

    requeue-Continues :
        (node_id reason : String) → Continues (requeue_incomplete_tasks node_id reason db).tasks
    unfolding requeue_incomplete_tasks
    requeue-Continues node_id reason =
        by_update (is_incomplete node_id) (requeue reason) (λ r. unfold has_id requeue in refl)
          (λ e. requeue-Progress sound reason (is_incomplete-in_progress node_id row e))

    acknowledge-Continues :
        (now id : ℕ) (node_id : String)
        → Continues (acknowledge_task json now id node_id db).1.tasks
    acknowledge-Continues now id node_id = rw (acknowledge_task_stored json db now id node_id) (
        by_update (is_acknowledged id node_id) (acknowledge now)
          (λ r. unfold has_id acknowledge in refl)
          (λ e. acknowledge-Progress sound now (is_acknowledged-dispatched id node_id row e)))

    retry-Continues :
        (id : ℕ) (node_id reason : String)
        → Continues (retry_task json id node_id reason db).1.tasks
    retry-Continues id node_id reason = rw (retry_task_stored json db id node_id reason) (
        by_update (is_retried id node_id) (retry reason) (λ r. unfold has_id retry in refl)
          (λ e. retry-Progress sound reason (is_retried-in_progress id node_id row e)))

    create-Continues :
        (now : ℕ) (request : CreateTaskRequest) (audit : TaskAudit)
        → Continues (create_task json now request audit db).1.tasks
    create-Continues now request audit = elim (create_task_cases json db now request audit) [
      | inl same ↦ rw same unchanged
      | inr (_, stored) ↦ rw stored (
        row,
        unfold insert_task in find-append (has_id task_id) db.tasks _ found,
        Progress-refl sound,
      )
    ]

    -- The row that another id finds is this one, if that id is this row's.
    same_row :
        (id : ℕ) (other : TaskRow)
        → find (has_id id) db.tasks ≡ some other
        → has_id id row ≡ true
        → other ≡ row
    same_row id other e t = cc (
      has_id_eq id row t,
      has_id_eq task_id row (find_holds (has_id task_id) db.tasks found),
      e,
      found,
    )

    submit-Continues :
        (now id : ℕ) (request : SubmitTaskResultRequest)
        → Continues (submit_task_result json now id request db).1.tasks
    submit-Continues now id request = elim (submit_task_result_cases json db now id request) [
      | inl same ↦ rw same unchanged
      | inr s ↦ rw s.stored (
          by_update (has_id id)
            (finish now request.result.success (json.result.encode request.result))
            (λ r. unfold has_id finish in refl)
            (λ e.
              finish-Progress sound now request.result.success (json.result.encode request.result) (
                cc (
                  status_of_text sound s.status (
                      ap (λ r. task_status_from_str r.status) (sym (same_row id s.row s.found e))
                      ∙ s.spelled),
                  s.accepted,
                ))))
    ]

    cancel-Continues :
        (now id : ℕ) (reason : Option String) (audit : TaskAudit)
        → Continues (cancel_task json now id reason audit db).1.tasks
    cancel-Continues now id reason audit = elim (cancel_task_cases json db now id reason audit) [
      | inl same ↦ rw same unchanged
      | inr s ↦ rw s.stored (
          by_update (has_id id) (cancel now _ audit) (λ r. unfold has_id cancel in refl)
            (λ e. cancel-Progress sound now _ audit (
              cc (
                status_of_text sound s.status (
                    ap (λ r. task_status_from_str r.status) (sym (same_row id s.row s.found e))
                    ∙ s.spelled),
                s.cancelable,
              ))))
    ]

    claim-Continues :
        (now : ℕ) (node_id : String) → Continues (claim_task json now node_id db).1.tasks
    claim-Continues now node_id = elim (claim_task_cases json db now node_id) [
      | ClaimCases.unknown _ e ↦ rw e unchanged
      | ClaimCases.unread r x _ _ e ↦ rw e unchanged
      | ClaimCases.idle _ _ e ↦ rw e unchanged
      | ClaimCases.took c ↦ rw c.result (
          by_update (has_id c.task.task_id) (dispatch now) (λ r. unfold has_id dispatch in refl)
            (λ e.
              let other =
                same_row c.row.task_id c.row (next_queued_found node_id db h.keys c.next)
                  (rw (read_pending_id json c.row c.decoded) at e) in
              dispatch-Progress sound now (
                rw (← other)
                  (is_queued_for-queued node_id c.row (next_queued_holds node_id db c.next)))))
    ]

  pub apply_op-Progress :
      (op : Op)
      → IsSoundDb json db
      → find (has_id task_id) db.tasks ≡ some row
      → (row' : TaskRow) × (find (has_id task_id) (apply_op json op db).tasks ≡ some row')
        × Progress row row'
  apply_op-Progress (Op.register now registration) h found =
      unfold register_node in unchanged h found
  apply_op-Progress (Op.update_commands now node_id commands) h found =
      unfold update_node_commands in rw (snd_if _) (unchanged h found)
  apply_op-Progress (Op.create now request audit) h found =
      create-Continues h found now request audit
  apply_op-Progress (Op.record_event now node_id kind message) h found =
      unfold record_session_event in unchanged h found
  apply_op-Progress (Op.requeue_incomplete node_id reason) h found =
      requeue-Continues h found node_id reason
  apply_op-Progress (Op.claim now node_id) h found = claim-Continues h found now node_id
  apply_op-Progress (Op.acknowledge now id node_id) h found =
      acknowledge-Continues h found now id node_id
  apply_op-Progress (Op.retry id node_id reason) h found = retry-Continues h found id node_id reason
  apply_op-Progress (Op.submit now id request) h found = submit-Continues h found now id request
  apply_op-Progress (Op.cancel now id reason audit) h found =
      cancel-Continues h found now id reason audit
