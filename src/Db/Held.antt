-- ===== src/Db/Held.antt =====
-- Which tasks of one node are in progress, across the operations of the store: only a claim for the
-- node adds one.
use ruchat.Prelude.{
  ℕ, ◌+◌, String, ◌≡◌, ◌≢◌, refl, ◌∙◌, Bool, true, false, ◌&&◌, Option, List, inl, inr, arith,
  eq_iff, eq_refl, str_eq, snd_if,
}
use ruchat.Prelude.Lists.{update, All}
use ruchat.Prelude.Updates.{All-append, All-rewrite, All-zip}
use ruchat.Protocol.Domain.{queued, canceled, CreateTaskRequest, SubmitTaskResultRequest}
use ruchat.Protocol.Codec.{Json}
use ruchat.Db.Rows.{TaskAudit, TaskRow, Db, has_id}
use ruchat.Db.Nodes.{register_node, update_node_commands}
use ruchat.Db.Events.{record_session_event}
use ruchat.Db.Tasks.{
  of_node, in_progress, accepts_result, requeue, requeue_incomplete_tasks, dispatch,
  is_acknowledged, acknowledge, acknowledge_task, retry, retry_task, finish, cancel, result_status,
  new_task, insert_task, create_task, submit_task_result, cancel_task, claim_task, is_queued_for,
}
use ruchat.Db.Lifecycle.{in_progress_lem}
use ruchat.Db.Writes.{is_acknowledged-in_progress, and_left, and_right}
use ruchat.Db.Keys.{has_id_unique}
use ruchat.Db.Sound.{IsSoundDb}
use ruchat.Db.Effects.{
  acknowledge_task_stored, retry_task_stored, create_task_cases, submit_task_result_cases,
  cancel_task_cases, Claimed, ClaimCases, claim_task_cases,
}
use ruchat.Db.Claim.{next_queued_holds, next_queued_found, read_pending_id}
use ruchat.Db.Ops.{Op, apply_op}

-- The writes that take a task out of progress.
pub requeue-stops : (reason : String) (row : TaskRow) → in_progress (requeue reason row) ≡ false
requeue-stops reason row = in_progress_lem queued _ (unfold requeue in refl)

new_task-stops :
    (json : Json) (now : ℕ) (request : CreateTaskRequest) (audit : TaskAudit) (task_id : ℕ)
    → in_progress (new_task json now request audit task_id) ≡ false
new_task-stops json now request audit task_id = in_progress_lem queued _ (unfold new_task in refl)

pub retry-stops : (reason : String) (row : TaskRow) → in_progress (retry reason row) ≡ false
retry-stops reason row = in_progress_lem queued _ (unfold retry in refl)

pub cancel-stops :
    (now : ℕ) (reason : String) (audit : TaskAudit) (row : TaskRow)
    → in_progress (cancel now reason audit row) ≡ false
cancel-stops now reason audit row = in_progress_lem canceled _ (unfold cancel in refl)

pub finish-stops :
    (now : ℕ) (success : Bool) (text : String) (row : TaskRow)
    → in_progress (finish now success text row) ≡ false
finish-stops now success text row =
    in_progress_lem (result_status success) (finish now success text row) (unfold finish in refl)
    ∙ by_success success
  where
    by_success : (b : Bool) → accepts_result (result_status b) ≡ false
    by_success true = refl
    by_success false = refl

module _ (node_id : String) where
  -- The row is a task in progress on the node.
  abbrev pub busy : TaskRow → Bool
  busy row = of_node node_id row && in_progress row

  -- A task in progress on the node is one that `who` names.
  abbrev pub Held : (ℕ → Bool) → TaskRow → Type 0
  Held who row = busy row ≡ true → who row.task_id ≡ true

  pub stopped-Held : (who : ℕ → Bool) (row : TaskRow) → in_progress row ≡ false → Held who row
  stopped-Held who row e h = absurd (apart (and_right (of_node node_id row) _ h))
    where
      apart : in_progress row ≡ true → ⊥
      apart t = cc

  acknowledge-Held :
      (who : ℕ → Bool) (now task_id : ℕ) (other : String) (row : TaskRow)
      → Held who row
      → is_acknowledged task_id other row ≡ true
      → Held who (acknowledge now row)
  unfolding acknowledge
  acknowledge-Held who now task_id other row h e t = h (
      both (of_node node_id row) (in_progress row) (and_left _ _ t)
        (is_acknowledged-in_progress task_id other row e))
    where
      both : (a b : Bool) → a ≡ true → b ≡ true → (a && b) ≡ true
      both a b p q = ground arith

  HeldAll : (who : ℕ → Bool) → Db → Type 0
  HeldAll who db = All (Held who) db.tasks

  -- A write that takes the rows it changes out of progress.
  stopping-Held :
      (who : ℕ → Bool) (p : TaskRow → Bool) (f : TaskRow → TaskRow) (rows : List TaskRow)
      → ((row : TaskRow) → in_progress (f row) ≡ false)
      → All (Held who) rows
      → All (Held who) (update p f rows)
  stopping-Held who p f rows stops h =
      All-rewrite (Held who) (Held who) p f rows (λ row _ _. stopped-Held who (f row) (stops row))
        (λ row k _. k) h

unfoldable pub claims_for : String → Op → Bool
claims_for node_id (Op.claim now other) = str_eq other node_id
claims_for node_id _ = false

dispatch_elsewhere :
    {node_id other : String} (who : ℕ → Bool) (now : ℕ) (row : TaskRow)
    → row.node_id ≡ other
    → other ≢ node_id
    → Held node_id who (dispatch now row)
unfolding dispatch
dispatch_elsewhere {node_id} who now row owned apart t =
    absurd (apart (cc (owned, (eq_iff row.node_id node_id).0 (and_left _ _ t))))

pub queued_owner :
    (node_id : String) (row : TaskRow) → is_queued_for node_id row ≡ true → row.node_id ≡ node_id
unfolding is_queued_for
queued_owner node_id row h = (eq_iff row.node_id node_id).0 (and_left _ _ h)

-- The row of a claim is the only one with its id.
pub Claimed-only :
    (json : Json) (db : Db) {now : ℕ} {node_id : String}
    → IsSoundDb json db
    → (c : Claimed json db now node_id)
    → All (λ r. has_id c.task.task_id r ≡ true → r ≡ c.row) db.tasks
Claimed-only json db {node_id = node_id} sound c =
    has_id_unique 0 db.tasks db.task_sequence c.task.task_id c.row sound.keys
      (rw (read_pending_id json c.row c.decoded) (next_queued_found node_id db sound.keys c.next))

module _ (json : Json) (db : Db) (node_id : String) (who : ℕ → Bool) (sound : IsSoundDb json db)
    (h : All (Held node_id who) db.tasks) where
  requeue-Held :
      (other reason : String)
      → All (Held node_id who) (requeue_incomplete_tasks other reason db).tasks
  unfolding requeue_incomplete_tasks
  requeue-Held other reason = stopping-Held node_id who _ _ db.tasks (requeue-stops reason) h

  acknowledge_task-Held :
      (now task_id : ℕ) (other : String)
      → All (Held node_id who) (acknowledge_task json now task_id other db).1.tasks
  acknowledge_task-Held now task_id other = rw (acknowledge_task_stored json db now task_id other) (
      All-rewrite (Held node_id who) (Held node_id who) _ _ db.tasks
        (λ row k e. acknowledge-Held node_id who now task_id other row k e) (λ row k _. k) h)

  retry_task-Held :
      (task_id : ℕ) (other reason : String)
      → All (Held node_id who) (retry_task json task_id other reason db).1.tasks
  retry_task-Held task_id other reason =
      rw (retry_task_stored json db task_id other reason)
        (stopping-Held node_id who _ _ db.tasks (retry-stops reason) h)

  create_task-Held :
      (now : ℕ) (request : CreateTaskRequest) (audit : TaskAudit)
      → All (Held node_id who) (create_task json now request audit db).1.tasks
  create_task-Held now request audit = elim (create_task_cases json db now request audit) [
    | inl same ↦ rw same h
    | inr (_, stored) ↦ rw stored (
        unfold insert_task in
        All-append (Held node_id who) db.tasks _ h (
          stopped-Held node_id who (new_task json now request audit (db.task_sequence + 1))
              (new_task-stops json now request audit (db.task_sequence + 1)),
          tt,
        ))
  ]

  submit_task_result-Held :
      (now task_id : ℕ) (request : SubmitTaskResultRequest)
      → All (Held node_id who) (submit_task_result json now task_id request db).1.tasks
  submit_task_result-Held now task_id request =
      elim (submit_task_result_cases json db now task_id request) [
        | inl same ↦ rw same h
        | inr s ↦ rw s.stored (stopping-Held node_id who _ _ db.tasks (finish-stops now _ _) h)
      ]

  cancel_task-Held :
      (now task_id : ℕ) (reason : Option String) (audit : TaskAudit)
      → All (Held node_id who) (cancel_task json now task_id reason audit db).1.tasks
  cancel_task-Held now task_id reason audit =
      elim (cancel_task_cases json db now task_id reason audit) [
        | inl same ↦ rw same h
        | inr s ↦ rw s.stored (stopping-Held node_id who _ _ db.tasks (cancel-stops now _ audit) h)
      ]

  -- What another node claims is not this node's.
  claim-Held :
      (now : ℕ) (other : String)
      → other ≢ node_id
      → All (Held node_id who) (claim_task json now other db).1.tasks
  claim-Held now other apart = elim (claim_task_cases json db now other) [
    | ClaimCases.unknown _ e ↦ rw e h
    | ClaimCases.unread row x _ _ e ↦ rw e h
    | ClaimCases.idle _ _ e ↦ rw e h
    | ClaimCases.took c ↦ rw c.result (claimed_elsewhere c)
  ]
    where
      claimed_elsewhere :
          (c : Claimed json db now other)
          → All (Held node_id who) (update (has_id c.task.task_id) (dispatch now) db.tasks)
      claimed_elsewhere c =
          All-rewrite (λ r. Held node_id who r × (has_id c.task.task_id r ≡ true → r ≡ c.row))
            (Held node_id who) _ _ db.tasks
            (λ r k e.
              dispatch_elsewhere who now r
                (rw (k.1 e) (queued_owner other c.row (next_queued_holds other db c.next))) apart)
            (λ r k _. k.0) (All-zip (Held node_id who) _ db.tasks h (Claimed-only json db sound c))

  -- Whatever is done elsewhere, but a claim for the node.
  pub apply_op-Held :
      (op : Op) → claims_for node_id op ≡ false → All (Held node_id who) (apply_op json op db).tasks
  unfolding claims_for
  apply_op-Held (Op.register now registration) e = unfold register_node in h
  apply_op-Held (Op.update_commands now other commands) e =
      unfold update_node_commands in rw (snd_if _) h
  apply_op-Held (Op.create now request audit) e = create_task-Held now request audit
  apply_op-Held (Op.record_event now other kind message) e = unfold record_session_event in h
  apply_op-Held (Op.requeue_incomplete other reason) e = requeue-Held other reason
  apply_op-Held (Op.claim now other) e = claim-Held now other (λ p. cc (p, eq_refl node_id))
  apply_op-Held (Op.acknowledge now id other) e = acknowledge_task-Held now id other
  apply_op-Held (Op.retry id other reason) e = retry_task-Held id other reason
  apply_op-Held (Op.submit now id request) e = submit_task_result-Held now id request
  apply_op-Held (Op.cancel now id reason audit) e = cancel_task-Held now id reason audit
