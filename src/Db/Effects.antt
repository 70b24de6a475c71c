-- ===== src/Db/Effects.antt =====
-- What each operation of the tasks table stores: nothing, or one named write of its rows.
use ruchat.Prelude.{
  ℕ, String, ◌≡◌, ◌≢◌, true, Option, none, some, ◌==◌, inl, inr, ◌⊎◌, Bool-cases, Option-cases,
  arith, snd_if, str_eq, eq_iff,
}
use ruchat.Prelude.Lists.{find, update, matching}
use ruchat.Prelude.Result.{ok, err, Result-cases}
use ruchat.Protocol.Domain.{CreateTaskRequest, SubmitTaskResultRequest, TaskStatus, PendingTask}
use ruchat.Protocol.Codec.{Json}
use ruchat.Db.Rows.{DbError, ClaimTaskOutcome, TaskAudit, TaskRow, Db, is_node, has_id}
use ruchat.Db.Text.{task_status_from_str}
use ruchat.Db.Read.{read_pending, get_node_inner}
use ruchat.Db.Tasks.{
  create_task, insert_task, claim_task, next_queued, dispatch, seen, acknowledge_task,
  is_acknowledged, acknowledge, retry_task, is_retried, retry, submit_task_result, finish,
  cancel_task, cancel, accepts_result, is_cancelable, coalesce,
}
use ruchat.Db.Sound.{HasNode}

module _ (json : Json) (db : Db) where
  pub acknowledge_task_stored :
      (now task_id : ℕ) (node_id : String)
      → (acknowledge_task json now task_id node_id db).1
        ≡ record db { tasks = update (is_acknowledged task_id node_id) (acknowledge now) db.tasks }
  unfolding acknowledge_task
  acknowledge_task_stored now task_id node_id = snd_if _ _ _ _

  pub retry_task_stored :
      (task_id : ℕ) (node_id reason : String)
      → (retry_task json task_id node_id reason db).1
        ≡ record db { tasks = update (is_retried task_id node_id) (retry reason) db.tasks }
  unfolding retry_task
  retry_task_stored task_id node_id reason = snd_if _ _ _ _

  pub create_task_cases :
      (now : ℕ) (request : CreateTaskRequest) (audit : TaskAudit)
      → ((create_task json now request audit db).1 ≡ db)
        ⊎ HasNode db.nodes request.node_id
          × ((create_task json now request audit db).1 ≡ insert_task json now request audit db)
  unfolding create_task get_node_inner
  create_task_cases now request audit = ground arith

  -- The row that a result was written to.
  pub record Submitted (now task_id : ℕ) (request : SubmitTaskResultRequest) : Type 0 where
    pub row : TaskRow
    pub status : TaskStatus
    pub found : find (has_id task_id) db.tasks ≡ some row
    pub owned : row.node_id ≡ request.node_id
    pub spelled : task_status_from_str row.status ≡ ok status
    pub accepted : accepts_result status ≡ true
    pub stored : (submit_task_result json now task_id request db).1 ≡ record db {
      tasks =
          update
            (has_id task_id)
            (finish now request.result.success (json.result.encode request.result))
            db.tasks;
    }

  pub submit_task_result_cases :
      (now task_id : ℕ) (request : SubmitTaskResultRequest)
      → ((submit_task_result json now task_id request db).1 ≡ db) ⊎ Submitted now task_id request
  unfolding submit_task_result
  submit_task_result_cases now task_id request =
      elim (Option-cases (find (has_id task_id) db.tasks)) [
        | inl absent ↦ inl (ground arith)
        | inr (row, found) ↦ elim (Bool-cases (str_eq row.node_id request.node_id)) [
          | inr other ↦ inl (ground arith)
          | inl owned ↦ elim (Result-cases (task_status_from_str row.status)) [
            | inr (e, unread) ↦ inl (ground arith)
            | inl (status, spelled) ↦ elim (Bool-cases (accepts_result status)) [
              | inr closed ↦ inl (ground arith)
              | inl accepted ↦ inr (record {
                row = row;
                status = status;
                found = found;
                owned = (eq_iff row.node_id request.node_id).0 owned;
                spelled = spelled;
                accepted = accepted;
                stored = ground arith;
              })
            ]
          ]
        ]
      ]

  -- The row that was canceled.
  pub record Canceled (now task_id : ℕ) (reason : Option String) (audit : TaskAudit) : Type 0 where
    pub row : TaskRow
    pub status : TaskStatus
    pub found : find (has_id task_id) db.tasks ≡ some row
    pub spelled : task_status_from_str row.status ≡ ok status
    pub cancelable : is_cancelable status ≡ true
    pub stored : (cancel_task json now task_id reason audit db).1 ≡ record db {
      tasks =
          update
            (has_id task_id)
            (cancel now (coalesce reason "canceled by server") audit)
            db.tasks;
    }

  pub cancel_task_cases :
      (now task_id : ℕ) (reason : Option String) (audit : TaskAudit)
      → ((cancel_task json now task_id reason audit db).1 ≡ db) ⊎ Canceled now task_id reason audit
  unfolding cancel_task
  cancel_task_cases now task_id reason audit =
      elim (Option-cases (find (has_id task_id) db.tasks)) [
        | inl absent ↦ inl (ground arith)
        | inr (row, found) ↦ elim (Result-cases (task_status_from_str row.status)) [
          | inr (e, unread) ↦ inl (ground arith)
          | inl (status, spelled) ↦ elim (Bool-cases (is_cancelable status)) [
            | inr closed ↦ inl (ground arith)
            | inl cancelable ↦ inr (record {
              row = row;
              status = status;
              found = found;
              spelled = spelled;
              cancelable = cancelable;
              stored = ground arith;
            })
          ]
        ]
      ]

  -- The store inside the transaction of a claim: the node was seen.
  abbrev pub touched : ℕ → String → Db
  touched now node_id = record db { nodes = update (is_node node_id) (seen now) db.nodes }

  pub record Claimed (now : ℕ) (node_id : String) : Type 0 where
    pub row : TaskRow
    pub task : PendingTask
    pub next : next_queued node_id db ≡ some row
    pub decoded : read_pending json row ≡ ok task
    pub result : claim_task json now node_id db ≡ (
      ok (ClaimTaskOutcome.claimed task),
      record db {
        nodes = update (is_node node_id) (seen now) db.nodes;
        tasks = update (has_id task.task_id) (dispatch now) db.tasks;
      },
    )

  -- The four ways in which a claim ends.
  pub data ClaimCases (now : ℕ) (node_id : String) : Type 0 where
    unknown :
        matching (is_node node_id) db.nodes ≡ 0
        → claim_task json now node_id db ≡ (ok ClaimTaskOutcome.node_not_found, db)
        → ClaimCases now node_id
    idle :
        matching (is_node node_id) db.nodes ≢ 0
        → next_queued node_id db ≡ none
        → claim_task json now node_id db ≡ (ok ClaimTaskOutcome.no_task, touched now node_id)
        → ClaimCases now node_id
    unread :
        (row : TaskRow) (e : DbError)
        → next_queued node_id db ≡ some row
        → read_pending json row ≡ err e
        → claim_task json now node_id db ≡ (err e, db)
        → ClaimCases now node_id
    took : Claimed now node_id → ClaimCases now node_id

  pub claim_task_cases : (now : ℕ) (node_id : String) → ClaimCases now node_id
  unfolding claim_task next_queued
  claim_task_cases now node_id = elim (Bool-cases (matching (is_node node_id) db.nodes == 0)) [
    | inl nobody ↦ unknown (ground arith) (ground arith)
    | inr somebody ↦ elim (Option-cases (next_queued node_id db)) [
      | inl nothing ↦ idle (ground arith) nothing (ground arith)
      | inr (row, next) ↦ elim (Result-cases (read_pending json row)) [
        | inr (e, failure) ↦ unread row e next failure (ground arith)
        | inl (task, decoded) ↦ took (record {
          row = row;
          task = task;
          next = next;
          decoded = decoded;
          result = ground arith;
        })
      ]
    ]
  ]
