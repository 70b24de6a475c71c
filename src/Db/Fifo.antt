-- ===== src/Db/Fifo.antt =====
-- apps/command-server/src/db.rs: what the operations of the store do to the queue of a node.
use ruchat.Prelude.{
  ℕ, ◌+◌, String, ◌≡◌, ◌≢◌, refl, Bool, true, false, Bool-cases, inl, inr, Option, List, [], ◌∷◌,
  ◌++◌, ◌==◌, arith, ◌&&◌, str_eq, eq_iff, eq_refl, snd_if,
}
use ruchat.Prelude.Lists.{All, update}
use ruchat.Prelude.Updates.{All-map}
use ruchat.Protocol.Domain.{queued, dispatched, CreateTaskRequest, SubmitTaskResultRequest}
use ruchat.Protocol.Codec.{Json}
use ruchat.Db.Rows.{Db, TaskRow, TaskAudit, has_id}
use ruchat.Db.Text.{has_status, task_status_to_str}
use ruchat.Db.Tasks.{
  is_queued_for, in_progress, of_node, dispatch, acknowledge, is_acknowledged, is_retried,
  is_incomplete, retry, requeue, requeue_incomplete_tasks, finish, cancel, new_task, insert_task,
  create_task, claim_task, submit_task_result, cancel_task,
}
use ruchat.Db.Nodes.{register_node, update_node_commands}
use ruchat.Db.Events.{record_session_event}
use ruchat.Db.Sound.{IsSoundDb}
use ruchat.Db.Ops.{Op, apply_op}
use ruchat.Db.Effects.{
  acknowledge_task_stored, retry_task_stored, create_task_cases, submit_task_result_cases,
  cancel_task_cases, ClaimCases, claim_task_cases,
}
use ruchat.Db.Claim.{next_queued_holds}
use ruchat.Db.Held.{Claimed-only, queued_owner}
use ruchat.Db.Writes.{is_acknowledged-dispatched, and_left, and_right}
use ruchat.Db.Queue.{queue, without, queue-update, queue-append}

All-pointwise : {A : Type 0} (P : A → Type 0) → ((x : A) → P x) → (xs : List A) → All P xs
All-pointwise P h [] = tt
All-pointwise P h (x ∷ xs) = (h x, All-pointwise P h xs)

module _ (node_id : String) where
  -- Writes that leave a row queued for nobody.
  status_unqueued :
      (row : TaskRow) → has_status queued row ≡ false → is_queued_for node_id row ≡ false
  unfolding is_queued_for
  status_unqueued row e = ground arith

  pub dispatch-unqueued :
      (now : ℕ) (row : TaskRow) → is_queued_for node_id (dispatch now row) ≡ false
  dispatch-unqueued now row =
      status_unqueued (dispatch now row)
        (unfold dispatch in unfold has_status in unfold task_status_to_str in refl)

  pub cancel-unqueued :
      (now : ℕ) (reason : String) (audit : TaskAudit) (row : TaskRow)
      → is_queued_for node_id (cancel now reason audit row) ≡ false
  cancel-unqueued now reason audit row =
      status_unqueued (cancel now reason audit row)
        (unfold cancel in unfold has_status in unfold task_status_to_str in refl)

  pub finish-unqueued :
      (now : ℕ) (success : Bool) (text : String) (row : TaskRow)
      → is_queued_for node_id (finish now success text row) ≡ false
  finish-unqueued now true text row =
      status_unqueued (finish now true text row)
        (unfold finish in unfold has_status in unfold task_status_to_str in refl)
  finish-unqueued now false text row =
      status_unqueued (finish now false text row)
        (unfold finish in unfold has_status in unfold task_status_to_str in refl)

  -- Rows that are not queued for the node, and are not after the write.
  abbrev Elsewhere : (TaskRow → Bool) → (TaskRow → TaskRow) → TaskRow → Type 0
  Elsewhere p f row =
      p row ≡ true → (is_queued_for node_id row ≡ false) × (is_queued_for node_id (f row) ≡ false)

  queue-rewrite :
      (p : TaskRow → Bool) (f : TaskRow → TaskRow) (rows : List TaskRow)
      → All (Elsewhere p f) rows
      → queue node_id (update p f rows) ≡ queue node_id rows
  unfolding queue update
  queue-rewrite p f [] h = refl
  queue-rewrite p f (row ∷ rows) h = elim (Bool-cases (p row)) [
    | inl e ↦ rw (e, (h.0 e).0, (h.0 e).1) (queue-rewrite p f rows h.1)
    | inr e ↦ rw (e, queue-rewrite p f rows h.1) refl
  ]

  queue-unchanged :
      (p : TaskRow → Bool) (f : TaskRow → TaskRow) (rows : List TaskRow)
      → ((row : TaskRow) → Elsewhere p f row)
      → queue node_id (update p f rows) ≡ queue node_id rows
  queue-unchanged p f rows h = queue-rewrite p f rows (All-pointwise (Elsewhere p f) h rows)

  other_node :
      (other : String) (row : TaskRow)
      → other ≢ node_id
      → of_node other row ≡ true
      → is_queued_for node_id row ≡ false
  unfolding is_queued_for
  other_node other row apart owned =
      ground (arith, eq_iff row.node_id other, eq_iff row.node_id node_id)

  dispatched_unqueued :
      (row : TaskRow) → has_status dispatched row ≡ true → has_status queued row ≡ false
  unfolding has_status task_status_to_str
  dispatched_unqueued row e = ground (
    arith,
    eq_iff row.status "dispatched",
    eq_iff row.status "queued",
    eq_iff "dispatched" "queued",
  )

  acknowledge-elsewhere :
      (now task_id : ℕ) (other : String) (row : TaskRow)
      → is_acknowledged task_id other row ≡ true
      → (is_queued_for node_id row ≡ false) × (is_queued_for node_id (acknowledge now row) ≡ false)
  unfolding acknowledge has_status task_status_to_str
  acknowledge-elsewhere now task_id other row e = (
    status_unqueued row (dispatched_unqueued row (is_acknowledged-dispatched task_id other row e)),
    status_unqueued (acknowledge now row) refl,
  )

  requeue-unchanged :
      (other reason : String) (row : TaskRow)
      → other ≢ node_id
      → is_incomplete other row ≡ true
      → (is_queued_for node_id row ≡ false) × (is_queued_for node_id (requeue reason row) ≡ false)
  unfolding is_incomplete
  requeue-unchanged other reason row apart e =
      let owned : of_node other row ≡ true = and_left _ _ e in
      (
        other_node other row apart owned,
        other_node other (requeue reason row) apart (unfold requeue in owned),
      )

  retried_owner :
      (task_id : ℕ) (other : String) (row : TaskRow)
      → is_retried task_id other row ≡ true
      → of_node other row ≡ true
  unfolding is_retried
  retried_owner task_id other row e =
      and_left _ _ (and_right (has_id task_id row) (of_node other row && in_progress row) e)

  retry-elsewhere :
      (task_id : ℕ) (other reason : String) (row : TaskRow)
      → other ≢ node_id
      → is_retried task_id other row ≡ true
      → (is_queued_for node_id row ≡ false) × (is_queued_for node_id (retry reason row) ≡ false)
  retry-elsewhere task_id other reason row apart e =
      let owned = retried_owner task_id other row e in
      (
        other_node other row apart owned,
        other_node other (retry reason row) apart (unfold retry in owned),
      )

-- The tasks that an operation takes out of the queues for good.
abbrev pub ends : ℕ → Op → Bool
ends id (Op.submit now task_id request) = task_id == id
ends id (Op.cancel now task_id reason audit) = task_id == id
ends id _ = false

-- The operations that put tasks of the node back into its queue, at their old places.
abbrev pub returns_to : String → Op → Bool
returns_to node_id (Op.requeue_incomplete other reason) = str_eq other node_id
returns_to node_id (Op.retry task_id other reason) = str_eq other node_id
returns_to node_id _ = false

abbrev pub is_claim : String → Op → Bool
is_claim node_id (Op.claim now other) = str_eq other node_id
is_claim node_id _ = false

-- What an operation leaves of a queue, if it is no claim for the node and returns nothing to it.
pub data Left (id : ℕ) (before : List ℕ) : List ℕ → Type 0 where
  same : {after : List ℕ} → after ≡ before → Left id before after
  joined : {after : List ℕ} (more : List ℕ) → after ≡ before ++ more → Left id before after
  lost : {after : List ℕ} (x : ℕ) → x ≢ id → after ≡ without x before → Left id before after

module _ (json : Json) (node_id : String) (id : ℕ) (db : Db) where
  Leaves : Db → Type 0
  Leaves after = Left id (queue node_id db.tasks) (queue node_id after.tasks)

  apart : (x : ℕ) → x == id ≡ false → x ≢ id
  apart x e = ground arith

  text_apart : (other : String) → str_eq other node_id ≡ false → other ≢ node_id
  text_apart other e = ground (arith, eq_iff other node_id)

  claim-Leaves :
      (now : ℕ) (other : String)
      → IsSoundDb json db
      → other ≢ node_id
      → Leaves (claim_task json now other db).1
  unfolding Leaves
  claim-Leaves now other sound elsewhere = elim (claim_task_cases json db now other) [
    | ClaimCases.unknown _ e ↦ same (rw e refl)
    | ClaimCases.unread row x _ _ e ↦ same (rw e refl)
    | ClaimCases.idle _ _ e ↦ same (rw e refl)
    | ClaimCases.took c ↦ same (
        rw c.result (
          queue-rewrite node_id (has_id c.task.task_id) (dispatch now) db.tasks (
            All-map (λ r. has_id c.task.task_id r ≡ true → r ≡ c.row)
              (Elsewhere node_id (has_id c.task.task_id) (dispatch now)) db.tasks
              (λ r only t. (
                rw (only t) (
                    other_node node_id other c.row elsewhere (
                      rw (queued_owner other c.row (next_queued_holds other db c.next))
                        (eq_refl other))),
                dispatch-unqueued node_id now r,
              ))
              (Claimed-only json db sound c))))
  ]

  submit-Leaves :
      (now task_id : ℕ) (request : SubmitTaskResultRequest)
      → task_id ≢ id
      → Leaves (submit_task_result json now task_id request db).1
  unfolding Leaves
  submit-Leaves now task_id request other =
      elim (submit_task_result_cases json db now task_id request) [
        | inl unchanged ↦ same (rw unchanged refl)
        | inr s ↦ lost task_id other (
            rw s.stored (queue-update node_id task_id _ db.tasks (finish-unqueued node_id now _ _)))
      ]

  cancel-Leaves :
      (now task_id : ℕ) (reason : Option String) (audit : TaskAudit)
      → task_id ≢ id
      → Leaves (cancel_task json now task_id reason audit db).1
  unfolding Leaves
  cancel-Leaves now task_id reason audit other =
      elim (cancel_task_cases json db now task_id reason audit) [
        | inl unchanged ↦ same (rw unchanged refl)
        | inr s ↦ lost task_id other (
            rw s.stored
              (queue-update node_id task_id _ db.tasks (cancel-unqueued node_id now _ audit)))
      ]

  create-Leaves :
      (now : ℕ) (request : CreateTaskRequest) (audit : TaskAudit)
      → Leaves (create_task json now request audit db).1
  unfolding Leaves insert_task
  create-Leaves now request audit = elim (create_task_cases json db now request audit) [
    | inl unchanged ↦ same (rw unchanged refl)
    | inr (_, stored) ↦
        joined (queue node_id (new_task json now request audit (db.task_sequence + 1) ∷ []))
          (rw stored (queue-append node_id db.tasks _))
  ]

  -- What is neither a claim for the node, nor returns anything to its queue, nor ends the task `id`,
  -- leaves `id` where it stands, or brings it forward.
  pub apply_op-Left :
      (op : Op)
      → IsSoundDb json db
      → is_claim node_id op ≡ false
      → returns_to node_id op ≡ false
      → ends id op ≡ false
      → Left id (queue node_id db.tasks) (queue node_id (apply_op json op db).tasks)
  unfolding Leaves register_node update_node_commands record_session_event requeue_incomplete_tasks
  apply_op-Left (Op.register now registration) sound c r e = same refl
  apply_op-Left (Op.update_commands now other commands) sound c r e = same (rw (snd_if _) refl)
  apply_op-Left (Op.create now request audit) sound c r e = create-Leaves now request audit
  apply_op-Left (Op.record_event now other kind message) sound c r e = same refl
  apply_op-Left (Op.requeue_incomplete other reason) sound c r e = same (
      queue-unchanged node_id (is_incomplete other) (requeue reason) db.tasks
        (λ row. requeue-unchanged node_id other reason row (text_apart other r)))
  apply_op-Left (Op.claim now other) sound c r e = claim-Leaves now other sound (text_apart other c)
  apply_op-Left (Op.acknowledge now task_id other) sound c r e = same (
      rw (acknowledge_task_stored json db now task_id other) (
        queue-unchanged node_id (is_acknowledged task_id other) (acknowledge now) db.tasks
          (acknowledge-elsewhere node_id now task_id other)))
  apply_op-Left (Op.retry task_id other reason) sound c r e = same (
      rw (retry_task_stored json db task_id other reason) (
        queue-unchanged node_id (is_retried task_id other) (retry reason) db.tasks
          (λ row. retry-elsewhere node_id task_id other reason row (text_apart other r))))
  apply_op-Left (Op.submit now task_id request) sound c r e =
      submit-Leaves now task_id request (apart task_id e)
  apply_op-Left (Op.cancel now task_id reason audit) sound c r e =
      cancel-Leaves now task_id reason audit (apart task_id e)
