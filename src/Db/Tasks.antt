-- ===== src/Db/Tasks.antt =====
-- apps/command-server/src/db.rs: the tasks table. Each SQL statement is a function on rows, named
-- for what it writes; `now` is the result of the operation's one call of `unix_now`.
use ruchat.Prelude.{
  ℕ, ◌+◌, String, Bool, true, false, not, ◌&&◌, ◌||◌, Option, none, some, List, [], ◌∷◌, ◌++◌, ◌==◌,
  str_eq, leb, is_none, if◌then◌else◌,
}
use ruchat.Prelude.Lists.{find, select, update, matching, order_by, head?}
use ruchat.Prelude.Result.{Result, ok, err}
use ruchat.Protocol.Domain.{
  CommandDescriptor, CreateTaskRequest, NodeSnapshot, PendingTask, TaskStatus, queued, dispatched,
  running, succeeded, failed, canceled, SubmitTaskResultRequest, TaskSnapshot,
}
use ruchat.Protocol.Codec.{Json}
use ruchat.Db.Rows.{
  DbError, CreateTaskOutcome, ClaimTaskOutcome, SubmitTaskResultOutcome, CancelTaskOutcome,
  TaskAudit, NodeRow, TaskRow, Db, is_node, has_id,
}
use ruchat.Db.Text.{task_status_to_str, task_status_from_str, has_status}
use ruchat.Db.Read.{
  read_task, read_pending, read_all, limit_rows, get_node_inner, get_task_inner, ok_or_else,
}

-- ORDER BY task_id, and DESC
unfoldable pub older_task : TaskRow → TaskRow → Bool
older_task a b = leb a.task_id b.task_id

unfoldable pub newer_task : TaskRow → TaskRow → Bool
newer_task a b = leb b.task_id a.task_id

abbrev pub of_node : String → TaskRow → Bool
of_node node_id row = str_eq row.node_id node_id

-- status IN ('dispatched', 'running')
unfoldable pub in_progress : TaskRow → Bool
in_progress row = has_status dispatched row || has_status running row

-- `Option::unwrap_or`, and COALESCE
abbrev pub coalesce {ℓ} : {A : Type ℓ} → Option A → A → A
coalesce none fallback = fallback
coalesce (some value) fallback = value

-- requeue_incomplete_tasks
unfoldable pub is_incomplete : String → TaskRow → Bool
is_incomplete node_id row =
    of_node node_id row && (in_progress row && is_none row.finished_at_unix_secs)

unfoldable pub requeue : String → TaskRow → TaskRow
requeue reason row = record row {
  status = task_status_to_str queued;
  dispatched_at_unix_secs = none;
  acked_at_unix_secs = none;
  started_at_unix_secs = none;
  canceled_at_unix_secs = none;
  cancel_reason = none;
  canceled_via = none;
  canceled_by = none;
  retry_count = row.retry_count + 1;
  retry_reason = some reason;
}

unfoldable pub requeue_incomplete_tasks : String → String → Db → Db
requeue_incomplete_tasks node_id reason db = record db {
  tasks = update (is_incomplete node_id) (requeue reason) db.tasks;
}

-- claim_task
unfoldable pub is_queued_for : String → TaskRow → Bool
is_queued_for node_id row = of_node node_id row && has_status queued row

unfoldable pub next_queued : String → Db → Option TaskRow
next_queued node_id db = head? (order_by older_task (select (is_queued_for node_id) db.tasks))

unfoldable pub seen : ℕ → NodeRow → NodeRow
seen now row = record row { last_seen_unix_secs = now }

unfoldable pub dispatch : ℕ → TaskRow → TaskRow
dispatch now row = record row {
  status = task_status_to_str dispatched;
  dispatched_at_unix_secs = some now;
  acked_at_unix_secs = none;
  started_at_unix_secs = none;
  finished_at_unix_secs = none;
  canceled_at_unix_secs = none;
  cancel_reason = none;
  canceled_via = none;
  canceled_by = none;
  result_json = none;
}

-- acknowledge_task
unfoldable pub is_acknowledged : ℕ → String → TaskRow → Bool
is_acknowledged task_id node_id row =
    has_id task_id row && (of_node node_id row && has_status dispatched row)

unfoldable pub acknowledge : ℕ → TaskRow → TaskRow
acknowledge now row = record row {
  status = task_status_to_str running;
  acked_at_unix_secs = some now;
  started_at_unix_secs = some (coalesce row.started_at_unix_secs now);
}

-- retry_task
unfoldable pub is_retried : ℕ → String → TaskRow → Bool
is_retried task_id node_id row = has_id task_id row && (of_node node_id row && in_progress row)

unfoldable pub retry : String → TaskRow → TaskRow
retry reason row = record row {
  status = task_status_to_str queued;
  dispatched_at_unix_secs = none;
  acked_at_unix_secs = none;
  started_at_unix_secs = none;
  finished_at_unix_secs = none;
  canceled_at_unix_secs = none;
  cancel_reason = none;
  canceled_via = none;
  canceled_by = none;
  result_json = none;
  retry_count = row.retry_count + 1;
  retry_reason = some reason;
}

-- submit_task_result
abbrev pub result_status : Bool → TaskStatus
result_status true = succeeded
result_status false = failed

unfoldable pub finish : ℕ → Bool → String → TaskRow → TaskRow
finish now success result_json row = record row {
  status = task_status_to_str (result_status success);
  acked_at_unix_secs = some (coalesce row.acked_at_unix_secs now);
  started_at_unix_secs = some (coalesce row.started_at_unix_secs now);
  finished_at_unix_secs = some now;
  result_json = some result_json;
}

abbrev pub accepts_result : TaskStatus → Bool
accepts_result dispatched = true
accepts_result running = true
accepts_result _ = false

-- cancel_task
abbrev pub is_cancelable : TaskStatus → Bool
is_cancelable queued = true
is_cancelable dispatched = true
is_cancelable running = true
is_cancelable _ = false

unfoldable pub cancel : ℕ → String → TaskAudit → TaskRow → TaskRow
cancel now reason audit row = record row {
  status = task_status_to_str canceled;
  finished_at_unix_secs = some now;
  canceled_at_unix_secs = some now;
  cancel_reason = some reason;
  canceled_via = some audit.source;
  canceled_by = audit.actor;
}

abbrev pub is_empty {ℓ} : {A : Type ℓ} → List A → Bool
is_empty [] = true
is_empty (_ ∷ _) = false

-- create_task
unfoldable pub supports : CreateTaskRequest → CommandDescriptor → Bool
supports request item = str_eq item.name request.command_name

module _ (json : Json) where
  unfoldable pub new_task : ℕ → CreateTaskRequest → TaskAudit → ℕ → TaskRow
  new_task now request audit task_id = record {
    task_id = task_id;
    node_id = request.node_id;
    command_name = request.command_name;
    args_json = json.args.encode request.args;
    status = task_status_to_str queued;
    created_at_unix_secs = now;
    created_via = some audit.source;
    created_by = audit.actor;
    dispatched_at_unix_secs = none;
    acked_at_unix_secs = none;
    started_at_unix_secs = none;
    finished_at_unix_secs = none;
    timeout_secs = request.timeout_secs;
    retry_count = 0;
    retry_reason = none;
    canceled_at_unix_secs = none;
    cancel_reason = none;
    canceled_via = none;
    canceled_by = none;
    result_json = none;
  }

  unfoldable pub insert_task : ℕ → CreateTaskRequest → TaskAudit → Db → Db
  insert_task now request audit db =
      let task_id = db.task_sequence + 1 in
      record db {
        tasks = db.tasks ++ new_task now request audit task_id ∷ [];
        task_sequence = task_id;
      }

  abbrev pub created_outcome : Result DbError TaskSnapshot → Result DbError CreateTaskOutcome
  created_outcome (ok task) = ok (CreateTaskOutcome.created task)
  created_outcome (err e) = err e

  -- The part behind the search for the command.
  create_supported :
      ℕ
      → CreateTaskRequest
      → TaskAudit
      → Db
      → Option CommandDescriptor
      → Result DbError CreateTaskOutcome × Db
  create_supported now request audit db none = (ok CreateTaskOutcome.unsupported_command, db)
  create_supported now request audit db (some command) =
      let stored = insert_task now request audit db in
      if not command.allow_extra_args && not (is_empty request.args)
      then (ok CreateTaskOutcome.extra_args_not_allowed, db)
      else (
        created_outcome (
            ok_or_else "task disappeared after insert"
              (get_task_inner json stored stored.task_sequence)),
        stored,
      )

  -- The part behind the read of the node.
  create_on_node :
      ℕ
      → CreateTaskRequest
      → TaskAudit
      → Db
      → Result DbError (Option NodeSnapshot)
      → Result DbError CreateTaskOutcome × Db
  create_on_node now request audit db (err e) = (err e, db)
  create_on_node now request audit db (ok none) = (ok CreateTaskOutcome.node_not_found, db)
  create_on_node now request audit db (ok (some node)) =
      create_supported now request audit db (find (supports request) node.commands)

  unfoldable pub create_task :
      ℕ → CreateTaskRequest → TaskAudit → Db → Result DbError CreateTaskOutcome × Db
  unfolding create_supported create_on_node
  create_task now request audit db =
      create_on_node now request audit db (get_node_inner json db request.node_id)

  -- An error of the row reader drops the transaction, which rolls back to `db`.
  claim_read : ℕ → Db → Db → Result DbError PendingTask → Result DbError ClaimTaskOutcome × Db
  claim_read now db open_db (err e) = (err e, db)
  claim_read now db open_db (ok task) = (
    ok (ClaimTaskOutcome.claimed task),
    record open_db { tasks = update (has_id task.task_id) (dispatch now) open_db.tasks },
  )

  claim_next : ℕ → Db → Db → Option TaskRow → Result DbError ClaimTaskOutcome × Db
  unfolding claim_read
  claim_next now db open_db none = (ok ClaimTaskOutcome.no_task, open_db)
  claim_next now db open_db (some row) = claim_read now db open_db (read_pending json row)

  unfoldable pub claim_task : ℕ → String → Db → Result DbError ClaimTaskOutcome × Db
  unfolding claim_next
  claim_task now node_id db =
      let open_db = record db { nodes = update (is_node node_id) (seen now) db.nodes } in
      if matching (is_node node_id) db.nodes == 0
      then (ok ClaimTaskOutcome.node_not_found, db)
      else claim_next now db open_db (next_queued node_id open_db)

  -- An UPDATE by key with its guard, and the row read back if it changed one.
  update_and_read :
      (TaskRow → Bool) → (TaskRow → TaskRow) → ℕ → Db → Result DbError (Option TaskSnapshot) × Db
  update_and_read guard write task_id db =
      let stored = record db { tasks = update guard write db.tasks } in
      if matching guard db.tasks == 0
      then (ok none, stored)
      else (get_task_inner json stored task_id, stored)

  unfoldable pub acknowledge_task : ℕ → ℕ → String → Db → Result DbError (Option TaskSnapshot) × Db
  unfolding update_and_read
  acknowledge_task now task_id node_id db =
      update_and_read (is_acknowledged task_id node_id) (acknowledge now) task_id db

  unfoldable pub retry_task : ℕ → String → String → Db → Result DbError (Option TaskSnapshot) × Db
  unfolding update_and_read
  retry_task task_id node_id reason db =
      update_and_read (is_retried task_id node_id) (retry reason) task_id db

  abbrev pub updated_outcome : Result DbError TaskSnapshot → Result DbError SubmitTaskResultOutcome
  updated_outcome (ok task) = ok (SubmitTaskResultOutcome.updated task)
  updated_outcome (err e) = err e

  -- The part behind the read of the status.
  submit_status :
      ℕ
      → ℕ
      → SubmitTaskResultRequest
      → Db
      → Result DbError TaskStatus
      → Result DbError SubmitTaskResultOutcome × Db
  submit_status now task_id request db (err e) = (err e, db)
  submit_status now task_id request db (ok status) =
      let stored = record db {
        tasks =
            update (has_id task_id)
              (finish now request.result.success (json.result.encode request.result)) db.tasks;
      } in
      if accepts_result status
      then (
        updated_outcome
            (ok_or_else "task disappeared after update" (get_task_inner json stored task_id)),
        stored,
      )
      else (
        updated_outcome
            (ok_or_else "task disappeared after status check" (get_task_inner json db task_id)),
        db,
      )

  submit_row :
      ℕ
      → ℕ
      → SubmitTaskResultRequest
      → Db
      → Option TaskRow
      → Result DbError SubmitTaskResultOutcome × Db
  unfolding submit_status
  submit_row now task_id request db none = (ok SubmitTaskResultOutcome.task_not_found, db)
  submit_row now task_id request db (some row) =
      if str_eq row.node_id request.node_id
      then submit_status now task_id request db (task_status_from_str row.status)
      else (ok SubmitTaskResultOutcome.node_mismatch, db)

  unfoldable pub submit_task_result :
      ℕ → ℕ → SubmitTaskResultRequest → Db → Result DbError SubmitTaskResultOutcome × Db
  unfolding submit_row
  submit_task_result now task_id request db =
      submit_row now task_id request db (find (has_id task_id) db.tasks)

  abbrev pub canceled_outcome : Result DbError TaskSnapshot → Result DbError CancelTaskOutcome
  canceled_outcome (ok task) = ok (CancelTaskOutcome.canceled task)
  canceled_outcome (err e) = err e

  cancel_status :
      ℕ
      → ℕ
      → Option String
      → TaskAudit
      → Db
      → Result DbError TaskStatus
      → Result DbError CancelTaskOutcome × Db
  cancel_status now task_id reason audit db (err e) = (err e, db)
  cancel_status now task_id reason audit db (ok status) =
      let stored = record db {
        tasks =
            update (has_id task_id) (cancel now (coalesce reason "canceled by server") audit)
              db.tasks;
      } in
      if is_cancelable status
      then (
        canceled_outcome
            (ok_or_else "task disappeared after cancel" (get_task_inner json stored task_id)),
        stored,
      )
      else (ok CancelTaskOutcome.not_cancelable, db)

  cancel_row :
      ℕ
      → ℕ
      → Option String
      → TaskAudit
      → Db
      → Option TaskRow
      → Result DbError CancelTaskOutcome × Db
  unfolding cancel_status
  cancel_row now task_id reason audit db none = (ok CancelTaskOutcome.not_found, db)
  cancel_row now task_id reason audit db (some row) =
      cancel_status now task_id reason audit db (task_status_from_str row.status)

  unfoldable pub cancel_task :
      ℕ → ℕ → Option String → TaskAudit → Db → Result DbError CancelTaskOutcome × Db
  unfolding cancel_row
  cancel_task now task_id reason audit db =
      cancel_row now task_id reason audit db (find (has_id task_id) db.tasks)

  unfoldable pub get_task : Db → ℕ → Result DbError (Option TaskSnapshot)
  get_task db task_id = get_task_inner json db task_id

  unfoldable pub list_tasks : Db → Result DbError (List TaskSnapshot)
  list_tasks db = read_all (read_task json) (order_by older_task db.tasks)

  unfoldable pub list_recent_tasks : ℕ → Db → Result DbError (List TaskSnapshot)
  list_recent_tasks limit db =
      read_all (read_task json) (limit_rows limit (order_by newer_task db.tasks))

  unfoldable pub list_tasks_for_node : String → ℕ → Db → Result DbError (List TaskSnapshot)
  list_tasks_for_node node_id limit db =
      read_all (read_task json)
        (limit_rows limit (order_by newer_task (select (of_node node_id) db.tasks)))
