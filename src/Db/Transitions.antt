-- ===== src/Db/Transitions.antt =====
-- The life of a task: from one operation of the store to the next a row keeps what it was created
-- with, its status follows an edge of the diagram, and a row in a final status stays as it is.
pub mod Store
use ruchat.Prelude.{
  ℕ, suc, ◌+◌, ◌≤◌, String, ◌≡◌, ◌≢◌, refl, sym, ap, ◌∙◌, Bool, true, false, ◌&&◌, Option, none,
  some, List, [], ◌∷◌, ◌++◌, inl, inr, ◌⊎◌, Bool-cases, arith, if◌then◌else◌,
}
use ruchat.Prelude.Lists.{find, update, All}
use ruchat.Prelude.Updates.{All-find, map_option, rewritten, find-update, find-append}
use ruchat.Prelude.Result.{ok}
use ruchat.Protocol.Domain.{
  TaskStatus, queued, dispatched, running, succeeded, failed, canceled, SubmitTaskResultRequest,
}
use ruchat.Protocol.Codec.{Json}
use ruchat.Db.Rows.{TaskAudit, TaskRow, Db, has_id}
use ruchat.Db.Text.{task_status_to_str, has_status}
use ruchat.Db.Tasks.{
  requeue_incomplete_tasks, in_progress, is_incomplete, requeue, is_queued_for, dispatch,
  is_acknowledged, acknowledge, is_retried, retry, result_status, finish, accepts_result,
  is_cancelable, cancel, of_node,
}
use ruchat.Db.Lifecycle.{IsSound, same_status, has_status_lem, in_progress_lem, status_of_text}
use ruchat.Db.Writes.{
  and_left, and_right, accepts_result_of_row, is_incomplete-in_progress, is_retried-in_progress,
}
use ruchat.Db.Keys.{KeepsId, has_id_unique}
use ruchat.Db.Sound.{IsSoundDb}
use ruchat.Db.Ops.{Op, apply_op}

infix 40 ◌⟶◌
pub data ◌⟶◌ : TaskStatus → TaskStatus → Type 0 where
  stay : {s : TaskStatus} → s ⟶ s
  claimed : queued ⟶ dispatched
  acknowledged : dispatched ⟶ running
  requeued : {s : TaskStatus} → accepts_result s ≡ true → s ⟶ queued
  finished : {s : TaskStatus} (success : Bool) → accepts_result s ≡ true → s ⟶ result_status success
  stopped : {s : TaskStatus} → is_cancelable s ≡ true → s ⟶ canceled

abbrev pub is_final : TaskStatus → Bool
is_final succeeded = true
is_final failed = true
is_final canceled = true
is_final _ = false

-- From `a` to `b` in one operation.
pub record Progress (a b : TaskRow) : Type 0 where
  pub from : TaskStatus
  pub to : TaskStatus
  pub from_written : a.status ≡ task_status_to_str from
  pub to_written : b.status ≡ task_status_to_str to
  pub edge : from ⟶ to
  pub final_frozen : is_final from ≡ true → b ≡ a
  pub same_task : b.task_id ≡ a.task_id
  pub same_node : b.node_id ≡ a.node_id
  pub same_command : b.command_name ≡ a.command_name
  pub same_args : b.args_json ≡ a.args_json
  pub same_timeout : b.timeout_secs ≡ a.timeout_secs
  pub same_creation : b.created_at_unix_secs ≡ a.created_at_unix_secs
  pub retries_grow : a.retry_count ≤ b.retry_count

accepts_result_not_final : (s : TaskStatus) → accepts_result s ≡ true → is_final s ≡ true → ⊥
accepts_result_not_final dispatched e f = cc
accepts_result_not_final running e f = cc
accepts_result_not_final _ e f = cc

is_cancelable_not_final : (s : TaskStatus) → is_cancelable s ≡ true → is_final s ≡ true → ⊥
is_cancelable_not_final queued e f = cc
is_cancelable_not_final dispatched e f = cc
is_cancelable_not_final running e f = cc
is_cancelable_not_final _ e f = cc

module _ {json : Json} {row : TaskRow} (h : IsSound json row) where
  pub Progress-refl : Progress row row
  Progress-refl = record {
    from = h.status;
    to = h.status;
    from_written = h.written;
    to_written = h.written;
    edge = stay;
    final_frozen = λ _. refl;
    same_task = refl;
    same_node = refl;
    same_command = refl;
    same_args = refl;
    same_timeout = refl;
    same_creation = refl;
    retries_grow = omega arith;
  }

  pub requeue-Progress :
      (reason : String) → in_progress row ≡ true → Progress row (requeue reason row)
  unfolding requeue
  requeue-Progress reason e =
      let open_status = accepts_result_of_row h e in
      record {
        from = h.status;
        to = queued;
        from_written = h.written;
        to_written = refl;
        edge = requeued open_status;
        final_frozen = λ f. absurd (accepts_result_not_final h.status open_status f);
        same_task = refl;
        same_node = refl;
        same_command = refl;
        same_args = refl;
        same_timeout = refl;
        same_creation = refl;
        retries_grow = omega arith;
      }

  pub retry-Progress : (reason : String) → in_progress row ≡ true → Progress row (retry reason row)
  unfolding retry
  retry-Progress reason e =
      let open_status = accepts_result_of_row h e in
      record {
        from = h.status;
        to = queued;
        from_written = h.written;
        to_written = refl;
        edge = requeued open_status;
        final_frozen = λ f. absurd (accepts_result_not_final h.status open_status f);
        same_task = refl;
        same_node = refl;
        same_command = refl;
        same_args = refl;
        same_timeout = refl;
        same_creation = refl;
        retries_grow = omega arith;
      }

  -- A column that spells `t` is a status `t`.
  status_is : (t : TaskStatus) → has_status t row ≡ true → h.status ≡ t
  status_is t e = by_status t h.status (sym (has_status_lem t h.status row h.written) ∙ e)
    where
      by_status : (t s : TaskStatus) → same_status t s ≡ true → s ≡ t
      by_status queued queued p = refl
      by_status dispatched dispatched p = refl
      by_status running running p = refl
      by_status succeeded succeeded p = refl
      by_status failed failed p = refl
      by_status canceled canceled p = refl
      by_status _ _ p = cc

  pub dispatch-Progress : (now : ℕ) → has_status queued row ≡ true → Progress row (dispatch now row)
  unfolding dispatch
  dispatch-Progress now e = record {
    from = queued;
    to = dispatched;
    from_written = h.written ∙ ap task_status_to_str (status_is queued e);
    to_written = refl;
    edge = claimed;
    final_frozen = λ f. cc;
    same_task = refl;
    same_node = refl;
    same_command = refl;
    same_args = refl;
    same_timeout = refl;
    same_creation = refl;
    retries_grow = omega arith;
  }

  pub acknowledge-Progress :
      (now : ℕ) → has_status dispatched row ≡ true → Progress row (acknowledge now row)
  unfolding acknowledge
  acknowledge-Progress now e = record {
    from = dispatched;
    to = running;
    from_written = h.written ∙ ap task_status_to_str (status_is dispatched e);
    to_written = refl;
    edge = acknowledged;
    final_frozen = λ f. cc;
    same_task = refl;
    same_node = refl;
    same_command = refl;
    same_args = refl;
    same_timeout = refl;
    same_creation = refl;
    retries_grow = omega arith;
  }

  pub finish-Progress :
      (now : ℕ) (success : Bool) (text : String)
      → accepts_result h.status ≡ true
      → Progress row (finish now success text row)
  unfolding finish
  finish-Progress now success text e = record {
    from = h.status;
    to = result_status success;
    from_written = h.written;
    to_written = refl;
    edge = finished success e;
    final_frozen = λ f. absurd (accepts_result_not_final h.status e f);
    same_task = refl;
    same_node = refl;
    same_command = refl;
    same_args = refl;
    same_timeout = refl;
    same_creation = refl;
    retries_grow = omega arith;
  }

  pub cancel-Progress :
      (now : ℕ) (reason : String) (audit : TaskAudit)
      → is_cancelable h.status ≡ true
      → Progress row (cancel now reason audit row)
  unfolding cancel
  cancel-Progress now reason audit e = record {
    from = h.status;
    to = canceled;
    from_written = h.written;
    to_written = refl;
    edge = stopped e;
    final_frozen = λ f. absurd (is_cancelable_not_final h.status e f);
    same_task = refl;
    same_node = refl;
    same_command = refl;
    same_args = refl;
    same_timeout = refl;
    same_creation = refl;
    retries_grow = omega arith;
  }
