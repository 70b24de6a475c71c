-- ===== src/Db/Preserve.antt =====
-- Every operation of the store keeps the invariant, so whatever runs on an empty store leaves it
-- sound.
mod Tasks
mod Nodes
use ruchat.Prelude.{
  ℕ, ◌+◌, ◌≤◌, String, ◌≡◌, ◌≢◌, refl, sym, ap, ◌∙◌, Bool, true, false, Option, none, some, List,
  [], ◌∷◌, ◌++◌, ◌==◌, inl, inr, ◌⊎◌, Bool-cases, Option-cases, arith, is_some, snd_if, str_eq,
  eq_iff, eq_refl, if◌then◌else◌,
}
use ruchat.Prelude.Lists.{find, select, update, matching, order_by, head?, All}
use ruchat.Prelude.Updates.{
  All-append, All-update, All-map, All-guard, All-find, find_holds, find-append, find-append_none,
  find-matching, matching-find,
}
use ruchat.Prelude.Orders.{All-select, select-All, All-order_by, All-head}
use ruchat.Prelude.Result.{Result, ok, err, ◌>>=◌}
use ruchat.Protocol.Domain.{
  NodeRegistration, CommandDescriptor, CreateTaskRequest, NodeSnapshot, SubmitTaskResultRequest,
  SessionEventKind,
}
use ruchat.Protocol.Codec.{Json}
use ruchat.Db.Rows.{
  DbError, CreateTaskOutcome, ClaimTaskOutcome, TaskAudit, NodeRow, TaskRow, Db, is_node, has_id,
}
use ruchat.Db.Text.{task_status_from_str, task_status_to_str}
use ruchat.Db.Read.{read_pending, get_node_inner, get_task_inner}
use ruchat.Db.Nodes.{
  register_node, registration_row, registered_commands, upsert_node, overwrite, set_commands,
  update_node_commands,
}
use ruchat.Db.Tasks.{
  create_task, insert_task, new_task, requeue_incomplete_tasks, requeue, claim_task, next_queued,
  dispatch, seen, acknowledge_task, acknowledge, retry_task, retry, submit_task_result, finish,
  cancel_task, cancel, is_queued_for, older_task, accepts_result, is_cancelable,
}
use ruchat.Db.Events.{record_session_event}
use ruchat.Db.Lifecycle.{IsSound, in_progress_lem, status_of_text}
use ruchat.Db.Effects.{
  acknowledge_task_stored, retry_task_stored, create_task_cases, submit_task_result_cases,
  cancel_task_cases, touched, claim_task_cases,
}
use ruchat.Db.Writes.{
  requeue-IsSound, retry-IsSound, dispatch-IsSound, acknowledge-IsSound, finish-IsSound,
  cancel-IsSound, new_task-IsSound, is_incomplete-in_progress, is_retried-in_progress,
  is_acknowledged-in_progress,
}
use ruchat.Db.Keys.{Ascends, Ascends-append, KeepsId, has_id_unique}
use ruchat.Db.Sound.{
  IsSoundDb, HasNode, Readable, KeepsNodes, update-KeepsNodes, set_nodes-IsSoundDb,
  update-IsSoundDb,
}
use ruchat.Db.Ops.{Op, empty_db, apply_op, apply_ops}
use Tasks.{
  requeue-IsSoundDb, acknowledge-IsSoundDb, retry-IsSoundDb, create-IsSoundDb, submit-IsSoundDb,
  cancel-IsSoundDb, claim-IsSoundDb,
}
use Nodes.{register-IsSoundDb, update_commands-IsSoundDb}

module _ {json : Json} {db : Db} where
  record_event-IsSoundDb :
      (now : ℕ) (node_id : String) (kind : SessionEventKind) (message : String)
      → IsSoundDb json db
      → IsSoundDb json (record_session_event now node_id kind message db).1
  unfolding record_session_event
  record_event-IsSoundDb now node_id kind message h = record {
    rows = h.rows;
    keys = h.keys;
    owners = h.owners;
    readable = h.readable;
  }

module _ {json : Json} where
  -- Every operation that writes, whether it succeeds or fails, keeps the store sound.
  pub apply_op-IsSoundDb :
      {db : Db} (op : Op) → IsSoundDb json db → IsSoundDb json (apply_op json op db)
  apply_op-IsSoundDb (Op.register now registration) h = register-IsSoundDb now registration h
  apply_op-IsSoundDb (Op.update_commands now node_id commands) h =
      update_commands-IsSoundDb now node_id commands h
  apply_op-IsSoundDb (Op.create now request audit) h = create-IsSoundDb now request audit h
  apply_op-IsSoundDb (Op.record_event now node_id kind message) h =
      record_event-IsSoundDb now node_id kind message h
  apply_op-IsSoundDb (Op.requeue_incomplete node_id reason) h = requeue-IsSoundDb node_id reason h
  apply_op-IsSoundDb (Op.claim now node_id) h = claim-IsSoundDb now node_id h
  apply_op-IsSoundDb (Op.acknowledge now task_id node_id) h =
      acknowledge-IsSoundDb now task_id node_id h
  apply_op-IsSoundDb (Op.retry task_id node_id reason) h = retry-IsSoundDb task_id node_id reason h
  apply_op-IsSoundDb (Op.submit now task_id request) h = submit-IsSoundDb now task_id request h
  apply_op-IsSoundDb (Op.cancel now task_id reason audit) h =
      cancel-IsSoundDb now task_id reason audit h

  pub empty_db-IsSoundDb : IsSoundDb json empty_db
  empty_db-IsSoundDb = record { rows = tt; keys = omega arith; owners = tt; readable = tt }

  pub apply_ops-Kept :
      (ops : List Op) (db : Db) → IsSoundDb json db → IsSoundDb json (apply_ops json ops db)
  unfolding apply_ops
  apply_ops-Kept [] db h = h
  apply_ops-Kept (op ∷ ops) db h =
      apply_ops-Kept ops (apply_op json op db) (apply_op-IsSoundDb op h)

  -- Whatever operations run on an empty store, in whatever order, the store is sound.
  pub apply_ops-IsSoundDb : (ops : List Op) → IsSoundDb json (apply_ops json ops empty_db)
  apply_ops-IsSoundDb ops = apply_ops-Kept ops empty_db empty_db-IsSoundDb
