-- ===== src/Db/Ops.antt =====
-- apps/command-server/src/db.rs: the store between its operations. `Op` names every operation that
-- writes, with its arguments and the clock reading that it took.
use ruchat.Prelude.{ℕ, String, Option, List, [], ◌∷◌}
use ruchat.Protocol.Domain.{
  CommandDescriptor, NodeRegistration, CreateTaskRequest, SessionEventKind, SubmitTaskResultRequest,
}
use ruchat.Protocol.Codec.{Json}
use ruchat.Db.Rows.{TaskAudit, Db}
use ruchat.Db.Nodes.{register_node, update_node_commands}
use ruchat.Db.Tasks.{
  create_task, requeue_incomplete_tasks, claim_task, acknowledge_task, retry_task,
  submit_task_result, cancel_task,
}
use ruchat.Db.Events.{record_session_event}

pub data Op : Type 0 where
  register : ℕ → NodeRegistration → Op
  update_commands : ℕ → String → List CommandDescriptor → Op
  create : ℕ → CreateTaskRequest → TaskAudit → Op
  record_event : ℕ → String → SessionEventKind → String → Op
  requeue_incomplete : String → String → Op
  claim : ℕ → String → Op
  acknowledge : ℕ → ℕ → String → Op
  retry : ℕ → String → String → Op
  submit : ℕ → ℕ → SubmitTaskResultRequest → Op
  cancel : ℕ → ℕ → Option String → TaskAudit → Op

-- The store that `create_schema` makes of an empty file.
abbrev pub empty_db : Db
empty_db = record {
  nodes = [];
  tasks = [];
  session_events = [];
  task_sequence = 0;
  event_sequence = 0;
}

module _ (json : Json) where
  abbrev pub apply_op : Op → Db → Db
  apply_op (register now registration) db = (register_node json now registration db).1
  apply_op (update_commands now node_id commands) db =
      (update_node_commands json now node_id commands db).1
  apply_op (create now request audit) db = (create_task json now request audit db).1
  apply_op (record_event now node_id kind message) db =
      (record_session_event now node_id kind message db).1
  apply_op (requeue_incomplete node_id reason) db = requeue_incomplete_tasks node_id reason db
  apply_op (claim now node_id) db = (claim_task json now node_id db).1
  apply_op (acknowledge now task_id node_id) db = (acknowledge_task json now task_id node_id db).1
  apply_op (retry task_id node_id reason) db = (retry_task json task_id node_id reason db).1
  apply_op (submit now task_id request) db = (submit_task_result json now task_id request db).1
  apply_op (cancel now task_id reason audit) db = (cancel_task json now task_id reason audit db).1

  unfoldable pub apply_ops : List Op → Db → Db
  apply_ops [] db = db
  apply_ops (op ∷ ops) db = apply_ops ops (apply_op op db)
