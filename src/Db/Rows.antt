-- ===== src/Db/Rows.antt =====
-- apps/command-server/src/db.rs: errors, outcomes, and the three tables. A column that SQLite keeps
-- as an i64 and the code casts from and to u64 is a natural number: the two casts cancel.
use ruchat.Prelude.{ℕ, String, Option, List, ◌==◌, Bool, str_eq}
use ruchat.Protocol.Domain.{PendingTask, TaskSnapshot}

-- `conversion c e` is the FromSqlConversionFailure of column `c`.
pub data DbError : Type 0 where
  conversion : ℕ → String → DbError
  data_error : String → DbError

pub data CreateTaskOutcome : Type 0 where
  node_not_found unsupported_command extra_args_not_allowed : CreateTaskOutcome
  created : TaskSnapshot → CreateTaskOutcome

pub data ClaimTaskOutcome : Type 0 where
  node_not_found no_task : ClaimTaskOutcome
  claimed : PendingTask → ClaimTaskOutcome

pub data SubmitTaskResultOutcome : Type 0 where
  task_not_found node_mismatch : SubmitTaskResultOutcome
  updated : TaskSnapshot → SubmitTaskResultOutcome

pub data CancelTaskOutcome : Type 0 where
  not_found not_cancelable : CancelTaskOutcome
  canceled : TaskSnapshot → CancelTaskOutcome

pub record TaskAudit : Type 0 where
  pub source : String
  pub actor : Option String

pub record NodeRow : Type 0 where
  pub node_id : String
  pub hostname : String
  pub platform : String
  pub poll_interval_secs : ℕ
  pub registered_at_unix_secs : ℕ
  pub last_seen_unix_secs : ℕ
  pub commands_json : String

pub record TaskRow : Type 0 where
  pub task_id : ℕ
  pub node_id : String
  pub command_name : String
  pub args_json : String
  pub status : String
  pub created_at_unix_secs : ℕ
  pub created_via : Option String
  pub created_by : Option String
  pub dispatched_at_unix_secs : Option ℕ
  pub acked_at_unix_secs : Option ℕ
  pub started_at_unix_secs : Option ℕ
  pub finished_at_unix_secs : Option ℕ
  pub timeout_secs : Option ℕ
  pub retry_count : ℕ
  pub retry_reason : Option String
  pub canceled_at_unix_secs : Option ℕ
  pub cancel_reason : Option String
  pub canceled_via : Option String
  pub canceled_by : Option String
  pub result_json : Option String

pub record EventRow : Type 0 where
  pub event_id : ℕ
  pub node_id : String
  pub event_kind : String
  pub message : String
  pub created_at_unix_secs : ℕ

-- The sequences are the largest row ids that AUTOINCREMENT has given out.
pub record Db : Type 0 where
  pub nodes : List NodeRow
  pub tasks : List TaskRow
  pub session_events : List EventRow
  pub task_sequence : ℕ
  pub event_sequence : ℕ

-- WHERE node_id = ?, WHERE task_id = ?
unfoldable pub is_node : String → NodeRow → Bool
is_node node_id row = str_eq row.node_id node_id

unfoldable pub has_id : ℕ → TaskRow → Bool
has_id task_id row = row.task_id == task_id
