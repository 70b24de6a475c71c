-- ===== src/Db/Text.antt =====
-- apps/command-server/src/db.rs: enums as texts of a column.
use Prim.Native.String.{◌++◌ as str_append}
use ruchat.Prelude.{String, Bool, str_eq, if◌then◌else◌}
use ruchat.Prelude.Result.{Result, ok, err}
use ruchat.Protocol.Domain.{
  TaskStatus, queued, dispatched, running, succeeded, failed, canceled, SessionEventKind,
  connect_rejected, auth_failed, session_opened, node_registered, session_closed,
}
use ruchat.Db.Rows.{DbError, data_error, TaskRow}

unfoldable pub task_status_to_str : TaskStatus → String
task_status_to_str queued = "queued"
task_status_to_str dispatched = "dispatched"
task_status_to_str running = "running"
task_status_to_str succeeded = "succeeded"
task_status_to_str failed = "failed"
task_status_to_str canceled = "canceled"

unfoldable pub task_status_from_str : String → Result DbError TaskStatus
task_status_from_str value =
    if str_eq value "queued"
    then ok queued
    else if str_eq value "dispatched"
    then ok dispatched
    else if str_eq value "running"
    then ok running
    else if str_eq value "succeeded"
    then ok succeeded
    else if str_eq value "failed"
    then ok failed
    else if str_eq value "canceled"
    then ok canceled
    else err (data_error (str_append "unknown task status: " value))

unfoldable pub session_event_kind_to_str : SessionEventKind → String
session_event_kind_to_str connect_rejected = "connect_rejected"
session_event_kind_to_str auth_failed = "auth_failed"
session_event_kind_to_str session_opened = "session_opened"
session_event_kind_to_str node_registered = "node_registered"
session_event_kind_to_str session_closed = "session_closed"

unfoldable pub session_event_kind_from_str : String → Result DbError SessionEventKind
session_event_kind_from_str value =
    if str_eq value "connect_rejected"
    then ok connect_rejected
    else if str_eq value "auth_failed"
    then ok auth_failed
    else if str_eq value "session_opened"
    then ok session_opened
    else if str_eq value "node_registered"
    then ok node_registered
    else if str_eq value "session_closed"
    then ok session_closed
    else err (data_error (str_append "unknown session event kind: " value))

-- WHERE status = ?
unfoldable pub has_status : TaskStatus → TaskRow → Bool
unfolding task_status_to_str
has_status status row = str_eq row.status (task_status_to_str status)
