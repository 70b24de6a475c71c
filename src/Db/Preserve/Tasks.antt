-- ===== src/Db/Preserve/Tasks.antt =====
-- Every operation of the tasks table keeps the invariant.
use ruchat.Prelude.{ℕ, ◌+◌, String, ◌≡◌, refl, true, Option, some, inl, inr}
use ruchat.Prelude.Lists.{find, update}
use ruchat.Prelude.Updates.{All-append, All-update, All-map, All-guard, All-find}
use ruchat.Protocol.Domain.{CreateTaskRequest, SubmitTaskResultRequest}
use ruchat.Protocol.Codec.{Json}
use ruchat.Db.Rows.{TaskAudit, TaskRow, Db, is_node, has_id}
use ruchat.Db.Tasks.{
  create_task, insert_task, new_task, requeue_incomplete_tasks, requeue, claim_task, dispatch, seen,
  acknowledge_task, acknowledge, retry_task, retry, submit_task_result, finish, cancel_task, cancel,
}
use ruchat.Db.Lifecycle.{IsSound, in_progress_lem, status_of_text}
use ruchat.Db.Effects.{
  acknowledge_task_stored, retry_task_stored, create_task_cases, submit_task_result_cases,
  cancel_task_cases, touched, ClaimCases, claim_task_cases,
}
use ruchat.Db.Writes.{
  requeue-IsSound, retry-IsSound, dispatch-IsSound, acknowledge-IsSound, finish-IsSound,
  cancel-IsSound, new_task-IsSound, is_incomplete-in_progress, is_acknowledged-in_progress,
}
use ruchat.Db.Keys.{Ascends-append, KeepsId, has_id_unique}
use ruchat.Db.Sound.{
  IsSoundDb, HasNode, Readable, update-KeepsNodes, set_nodes-IsSoundDb, update-IsSoundDb,
}

module _ {json : Json} {db : Db} where
  pub requeue-IsSoundDb :
      (node_id reason : String)
      → IsSoundDb json db
      → IsSoundDb json (requeue_incomplete_tasks node_id reason db)
  unfolding requeue_incomplete_tasks requeue
  requeue-IsSoundDb node_id reason h =
      update-IsSoundDb _ (requeue reason) h (λ row. refl) (λ row. refl)
        (All-guard (IsSound json) _ _ db.tasks
          (λ row s e. requeue-IsSound reason s (is_incomplete-in_progress node_id row e)) h.rows)

  pub acknowledge-IsSoundDb :
      (now task_id : ℕ) (node_id : String)
      → IsSoundDb json db
      → IsSoundDb json (acknowledge_task json now task_id node_id db).1
  unfolding acknowledge
  acknowledge-IsSoundDb now task_id node_id h =
      rw (acknowledge_task_stored json db now task_id node_id) (
        update-IsSoundDb _ (acknowledge now) h (λ row. refl) (λ row. refl)
          (All-guard (IsSound json) _ _ db.tasks
            (λ row s e.
              acknowledge-IsSound now s (is_acknowledged-in_progress task_id node_id row e))
            h.rows))

  pub retry-IsSoundDb :
      (task_id : ℕ) (node_id reason : String)
      → IsSoundDb json db
      → IsSoundDb json (retry_task json task_id node_id reason db).1
  unfolding retry
  retry-IsSoundDb task_id node_id reason h = rw (retry_task_stored json db task_id node_id reason) (
      update-IsSoundDb _ (retry reason) h (λ row. refl) (λ row. refl)
        (All-guard (IsSound json) _ _ db.tasks (λ row s e. retry-IsSound reason s) h.rows))

  insert-IsSoundDb :
      (now : ℕ) (request : CreateTaskRequest) (audit : TaskAudit)
      → IsSoundDb json db
      → HasNode db.nodes request.node_id
      → IsSoundDb json (insert_task json now request audit db)
  unfolding insert_task new_task
  insert-IsSoundDb now request audit h owner = record {
    rows =
        All-append (IsSound json) db.tasks _ h.rows
          (new_task-IsSound now request audit (db.task_sequence + 1), tt);
    keys = Ascends-append 0 db.tasks db.task_sequence _ h.keys refl;
    owners = All-append (λ row. HasNode db.nodes row.node_id) db.tasks _ h.owners (owner, tt);
    readable = h.readable;
  }

  pub create-IsSoundDb :
      (now : ℕ) (request : CreateTaskRequest) (audit : TaskAudit)
      → IsSoundDb json db
      → IsSoundDb json (create_task json now request audit db).1
  create-IsSoundDb now request audit h = elim (create_task_cases json db now request audit) [
    | inl same ↦ rw same h
    | inr (owner, stored) ↦ rw stored (insert-IsSoundDb now request audit h owner)
  ]

  -- A write of the one row that an id finds.
  update_found-IsSoundDb :
      (task_id : ℕ) (f : TaskRow → TaskRow) (row : TaskRow)
      → IsSoundDb json db
      → KeepsId f
      → ((r : TaskRow) → (f r).node_id ≡ r.node_id)
      → find (has_id task_id) db.tasks ≡ some row
      → IsSound json (f row)
      → IsSoundDb json (record db { tasks = update (has_id task_id) f db.tasks })
  update_found-IsSoundDb task_id f row h id node found sound =
      update-IsSoundDb (has_id task_id) f h id node (
        All-map (λ r. has_id task_id r ≡ true → r ≡ row) _ db.tasks (λ r same e. rw (same e) sound)
          (has_id_unique 0 db.tasks db.task_sequence task_id row h.keys found))

  found-IsSound :
      (task_id : ℕ) (row : TaskRow)
      → IsSoundDb json db
      → find (has_id task_id) db.tasks ≡ some row
      → IsSound json row
  found-IsSound task_id row h found = All-find (IsSound json) (has_id task_id) db.tasks h.rows found

  pub submit-IsSoundDb :
      (now task_id : ℕ) (request : SubmitTaskResultRequest)
      → IsSoundDb json db
      → IsSoundDb json (submit_task_result json now task_id request db).1
  unfolding finish
  submit-IsSoundDb now task_id request h =
      elim (submit_task_result_cases json db now task_id request) [
        | inl same ↦ rw same h
        | inr s ↦
            let sound = found-IsSound task_id s.row h s.found in
            let open_row = in_progress_lem sound.status s.row sound.written in
            let spelled = status_of_text sound s.status s.spelled in
            rw s.stored (
              update_found-IsSoundDb task_id _ s.row h (λ r. refl) (λ r. refl) s.found
                (finish-IsSound now request.result sound (cc (open_row, spelled, s.accepted))))
      ]

  pub cancel-IsSoundDb :
      (now task_id : ℕ) (reason : Option String) (audit : TaskAudit)
      → IsSoundDb json db
      → IsSoundDb json (cancel_task json now task_id reason audit db).1
  unfolding cancel
  cancel-IsSoundDb now task_id reason audit h =
      elim (cancel_task_cases json db now task_id reason audit) [
        | inl same ↦ rw same h
        | inr s ↦
            let sound = found-IsSound task_id s.row h s.found in
            let spelled = status_of_text sound s.status s.spelled in
            rw s.stored (
              update_found-IsSoundDb task_id _ s.row h (λ r. refl) (λ r. refl) s.found
                (cancel-IsSound now _ audit sound (cc (spelled, s.cancelable))))
      ]

  touch-IsSoundDb :
      (now : ℕ) (node_id : String)
      → IsSoundDb json db
      → IsSoundDb json (touched json db now node_id)
  unfolding seen
  touch-IsSoundDb now node_id h =
      set_nodes-IsSoundDb _ h
        (update-KeepsNodes (is_node node_id) (seen now) db.nodes (λ row. refl))
        (All-update (Readable json) (is_node node_id) (seen now) db.nodes (λ row r _. r) h.readable)

  pub claim-IsSoundDb :
      (now : ℕ) (node_id : String)
      → IsSoundDb json db
      → IsSoundDb json (claim_task json now node_id db).1
  unfolding dispatch
  claim-IsSoundDb now node_id h = elim (claim_task_cases json db now node_id) [
    | ClaimCases.unknown _ e ↦ rw e h
    | ClaimCases.unread row x _ _ e ↦ rw e h
    | ClaimCases.idle _ _ e ↦ rw e (touch-IsSoundDb now node_id h)
    | ClaimCases.took c ↦ rw c.result (
        update-IsSoundDb {db = touched json db now node_id} (has_id c.task.task_id) (dispatch now)
          (touch-IsSoundDb now node_id h) (λ r. refl) (λ r. refl)
          (All-guard (IsSound json) _ _ db.tasks (λ row s e. dispatch-IsSound now s) h.rows))
  ]
