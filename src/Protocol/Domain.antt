-- ===== src/Protocol/Domain.antt =====
-- crates/command-protocol/src/domain.rs and http.rs: the control plane's data. The integers are
-- natural numbers; `exit_code`, an i32, is an integer.
use ruchat.Prelude.{ℕ, String, Bool, Option, List, [], ◌∷◌}

-- `negsuc n` is -(n + 1).
pub data ℤ : Type 0 where
  pos : ℕ → ℤ
  negsuc : ℕ → ℤ

abbrev pub max_result_output_bytes : ℕ
max_result_output_bytes = 65536

abbrev pub control_protocol_version : String
control_protocol_version = "command-plane-control/v1alpha1"

abbrev pub max_task_pull_response_items : ℕ
max_task_pull_response_items = 1

abbrev pub control_transport_stack : String
control_transport_stack = "http-bootstrap/ws+mqtt+protobuf"

abbrev pub control_capabilities : List String
control_capabilities =
    "session_info" ∷ "command_catalog" ∷ "task_push" ∷ "task_pull" ∷ "task_cancel"
    ∷ "single_inflight" ∷ []

pub record CommandDescriptor : Type 0 where
  pub name : String
  pub description : String
  pub default_args : List String
  pub allow_extra_args : Bool

pub record NodeRegistration : Type 0 where
  pub node_id : String
  pub hostname : String
  pub platform : String
  pub poll_interval_secs : ℕ
  pub commands : List CommandDescriptor

pub record NodeSnapshot : Type 0 where
  pub node_id : String
  pub hostname : String
  pub platform : String
  pub poll_interval_secs : ℕ
  pub registered_at_unix_secs : ℕ
  pub last_seen_unix_secs : ℕ
  pub online : Bool
  pub session_protocol_version : Option String
  pub session_transport_stack : Option String
  pub session_heartbeat_interval_secs : Option ℕ
  pub session_capabilities : List String
  pub commands : List CommandDescriptor

pub data SessionEventKind : Type 0 where
  connect_rejected auth_failed session_opened node_registered session_closed : SessionEventKind

pub record SessionEvent : Type 0 where
  pub event_id : ℕ
  pub node_id : String
  pub kind : SessionEventKind
  pub message : String
  pub created_at_unix_secs : ℕ

pub record CreateTaskRequest : Type 0 where
  pub node_id : String
  pub command_name : String
  pub args : List String
  pub timeout_secs : Option ℕ

pub record PendingTask : Type 0 where
  pub task_id : ℕ
  pub node_id : String
  pub command_name : String
  pub args : List String
  pub created_at_unix_secs : ℕ
  pub timeout_secs : Option ℕ
  pub retry_count : ℕ

pub data TaskStatus : Type 0 where
  queued dispatched running succeeded failed canceled : TaskStatus

pub record ExecutionResult : Type 0 where
  pub success : Bool
  pub exit_code : Option ℤ
  pub stdout : String
  pub stderr : String
  pub stdout_truncated : Bool
  pub stderr_truncated : Bool
  pub duration_ms : ℕ
  pub error : Option String

pub record SubmitTaskResultRequest : Type 0 where
  pub node_id : String
  pub result : ExecutionResult

pub record TaskSnapshot : Type 0 where
  pub task_id : ℕ
  pub node_id : String
  pub command_name : String
  pub args : List String
  pub status : TaskStatus
  pub created_at_unix_secs : ℕ
  pub created_via : Option String
  pub created_by : Option String
  pub dispatched_at_unix_secs : Option ℕ
  pub acked_at_unix_secs : Option ℕ
  pub started_at_unix_secs : Option ℕ
  pub finished_at_unix_secs : Option ℕ
  pub timeout_secs : Option ℕ
  pub retry_count : ℕ
  pub retry_reason : Option String
  pub canceled_at_unix_secs : Option ℕ
  pub cancel_reason : Option String
  pub canceled_via : Option String
  pub canceled_by : Option String
  pub result : Option ExecutionResult
