-- ===== src/Db/Writes.antt =====
-- Every write of a row, under the guard of its statement, leaves a sound row.
use ruchat.Prelude.{ℕ, String, ◌≡◌, refl, sym, ◌∙◌, Bool, true, false, ◌&&◌, none, is_some, arith}
use ruchat.Protocol.Domain.{
  TaskStatus, queued, dispatched, running, succeeded, failed, canceled, ExecutionResult,
  CreateTaskRequest,
}
use ruchat.Protocol.Codec.{Json}
use ruchat.Db.Rows.{TaskRow, TaskAudit, has_id}
use ruchat.Db.Text.{has_status}
use ruchat.Db.Tasks.{
  of_node, in_progress, is_incomplete, requeue, is_queued_for, dispatch, is_acknowledged,
  acknowledge, is_retried, retry, finish, accepts_result, is_cancelable, cancel, new_task,
}
use ruchat.Db.Lifecycle.{IsSound, Shape, in_progress_lem}

pub and_left : (a b : Bool) → (a && b) ≡ true → a ≡ true
and_left a b h = ground arith

pub and_right : (a b : Bool) → (a && b) ≡ true → b ≡ true
and_right a b h = ground arith

-- What a task in progress has and has not.
abbrev pub IsOpen : TaskRow → Type 0
IsOpen row =
    (is_some row.dispatched_at_unix_secs ≡ true)
    × (row.finished_at_unix_secs ≡ none)
    × (row.canceled_at_unix_secs ≡ none)
    × (row.result_json ≡ none)

IsOpen-Shape :
    (json : Json) (s : TaskStatus) (row : TaskRow)
    → Shape json s row
    → accepts_result s ≡ true
    → IsOpen row
IsOpen-Shape json dispatched row h e = (h.0, h.3, h.4, h.5)
IsOpen-Shape json running row h e = (h.0, h.3, h.4, h.5)
IsOpen-Shape json _ row h e = cc

-- A cancelable task has no result.
result_of_cancelable :
    (json : Json) (s : TaskStatus) (row : TaskRow)
    → Shape json s row
    → is_cancelable s ≡ true
    → row.result_json ≡ none
result_of_cancelable json queued row h e = h.5
result_of_cancelable json dispatched row h e = h.5
result_of_cancelable json running row h e = h.5
result_of_cancelable json _ row h e = cc

module _ {json : Json} where
  pub accepts_result_of_row :
      {row : TaskRow} (h : IsSound json row)
      → in_progress row ≡ true
      → accepts_result h.status ≡ true
  accepts_result_of_row {row} h e = sym (in_progress_lem h.status row h.written) ∙ e

  pub in_progress-IsOpen : {row : TaskRow} → IsSound json row → in_progress row ≡ true → IsOpen row
  in_progress-IsOpen {row} h e = IsOpen-Shape json h.status row h.shape (accepts_result_of_row h e)

  pub requeue-IsSound :
      (reason : String) {row : TaskRow}
      → IsSound json row
      → in_progress row ≡ true
      → IsSound json (requeue reason row)
  unfolding requeue
  requeue-IsSound reason h e =
      let (_, finished, not_canceled, result) = in_progress-IsOpen h e in
      record {
        status = queued;
        written = refl;
        shape = (refl, refl, refl, finished, refl, result);
        args = h.args;
        args_read = h.args_read;
      }

  pub retry-IsSound :
      (reason : String) {row : TaskRow} → IsSound json row → IsSound json (retry reason row)
  unfolding retry
  retry-IsSound reason h = record {
    status = queued;
    written = refl;
    shape = (refl, refl, refl, refl, refl, refl);
    args = h.args;
    args_read = h.args_read;
  }

  pub dispatch-IsSound :
      (now : ℕ) {row : TaskRow} → IsSound json row → IsSound json (dispatch now row)
  unfolding dispatch
  dispatch-IsSound now h = record {
    status = dispatched;
    written = refl;
    shape = (refl, refl, refl, refl, refl, refl);
    args = h.args;
    args_read = h.args_read;
  }

  pub acknowledge-IsSound :
      (now : ℕ) {row : TaskRow}
      → IsSound json row
      → in_progress row ≡ true
      → IsSound json (acknowledge now row)
  unfolding acknowledge
  acknowledge-IsSound now h e =
      let (sent, finished, not_canceled, result) = in_progress-IsOpen h e in
      record {
        status = running;
        written = refl;
        shape = (sent, refl, refl, finished, not_canceled, result);
        args = h.args;
        args_read = h.args_read;
      }

  pub finish-IsSound :
      (now : ℕ) (r : ExecutionResult) {row : TaskRow}
      → IsSound json row
      → in_progress row ≡ true
      → IsSound json (finish now r.success (json.result.encode r) row)
  unfolding finish
  finish-IsSound now r {row} h e = by_success r.success refl
    where
      sent : IsOpen row
      sent = in_progress-IsOpen h e

      by_success :
          (b : Bool) → r.success ≡ b → IsSound json (finish now b (json.result.encode r) row)
      by_success true p = record {
        status = succeeded;
        written = refl;
        shape = (sent.0, refl, refl, refl, sent.2, (r, refl, p));
        args = h.args;
        args_read = h.args_read;
      }
      by_success false p = record {
        status = failed;
        written = refl;
        shape = (sent.0, refl, refl, refl, sent.2, (r, refl, p));
        args = h.args;
        args_read = h.args_read;
      }

  pub cancel-IsSound :
      (now : ℕ) (reason : String) (audit : TaskAudit) {row : TaskRow} (h : IsSound json row)
      → is_cancelable h.status ≡ true
      → IsSound json (cancel now reason audit row)
  unfolding cancel
  cancel-IsSound now reason audit {row} h e = record {
    status = canceled;
    written = refl;
    shape = (refl, refl, refl, refl, result_of_cancelable json h.status row h.shape e);
    args = h.args;
    args_read = h.args_read;
  }

  pub new_task-IsSound :
      (now : ℕ) (request : CreateTaskRequest) (audit : TaskAudit) (task_id : ℕ)
      → IsSound json (new_task json now request audit task_id)
  unfolding new_task
  new_task-IsSound now request audit task_id = record {
    status = queued;
    written = refl;
    shape = (refl, refl, refl, refl, refl, refl);
    args = request.args;
    args_read = json.args.decode-encode request.args;
  }

-- The guards that ask for a task in progress.
pub is_incomplete-in_progress :
    (node_id : String) (row : TaskRow) → is_incomplete node_id row ≡ true → in_progress row ≡ true
unfolding is_incomplete
is_incomplete-in_progress node_id row h = ground arith

pub is_retried-in_progress :
    (task_id : ℕ) (node_id : String) (row : TaskRow)
    → is_retried task_id node_id row ≡ true
    → in_progress row ≡ true
unfolding is_retried
is_retried-in_progress task_id node_id row h =
    and_right (of_node node_id row) (in_progress row)
      (and_right (has_id task_id row) (of_node node_id row && in_progress row) h)

pub is_acknowledged-in_progress :
    (task_id : ℕ) (node_id : String) (row : TaskRow)
    → is_acknowledged task_id node_id row ≡ true
    → in_progress row ≡ true
unfolding is_acknowledged in_progress
is_acknowledged-in_progress task_id node_id row h = ground arith

pub is_acknowledged-dispatched :
    (task_id : ℕ) (node_id : String) (row : TaskRow)
    → is_acknowledged task_id node_id row ≡ true
    → has_status dispatched row ≡ true
unfolding is_acknowledged
is_acknowledged-dispatched task_id node_id row h = ground arith

pub is_queued_for-queued :
    (node_id : String) (row : TaskRow)
    → is_queued_for node_id row ≡ true
    → has_status queued row ≡ true
unfolding is_queued_for
is_queued_for-queued node_id row h = ground arith
