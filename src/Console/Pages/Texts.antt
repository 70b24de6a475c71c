-- ===== src/Console/Pages/Texts.antt =====
-- apps/command-server/src/console.rs: the texts that the pages of the console show.
use Prim.Native.String.{◌++◌ as str_append}
use ruchat.Prelude.{
  ℕ, zero, suc, ◌+◌, ◌-◌, String, Bool, true, false, Option, none, some, List, [], ◌∷◌, ◌++◌, leb,
  if◌then◌else◌,
}
use ruchat.Prelude.Text.{join, is_empty}
use ruchat.Protocol.Domain.{
  ℤ, pos, negsuc, TaskStatus, queued, dispatched, running, succeeded, failed, canceled,
  SessionEventKind, connect_rejected, auth_failed, session_opened, node_registered, session_closed,
  TaskSnapshot, ExecutionResult, max_result_output_bytes,
}
use ruchat.Session.Frames.{decimal}

-- `format!` of a text.
abbrev pub concat_text : List String → String
concat_text pieces = join "" pieces

unfoldable pub task_status_label : TaskStatus → String
task_status_label queued = "queued"
task_status_label dispatched = "dispatched"
task_status_label running = "running"
task_status_label succeeded = "succeeded"
task_status_label failed = "failed"
task_status_label canceled = "canceled"

unfoldable pub session_event_kind_label : SessionEventKind → String
session_event_kind_label connect_rejected = "connect_rejected"
session_event_kind_label auth_failed = "auth_failed"
session_event_kind_label session_opened = "session_opened"
session_event_kind_label node_registered = "node_registered"
session_event_kind_label session_closed = "session_closed"

unfoldable pub display_args : List String → String
display_args [] = "[]"
display_args (arg ∷ args) = join " " (arg ∷ args)

unfoldable pub char_count : String → ℕ
char_count String.[] = 0
char_count (String.◌∷◌ c s) = suc (char_count s)

-- `chars().take(…).collect()`
unfoldable pub take_chars : ℕ → String → String
take_chars zero s = ""
take_chars (suc n) String.[] = ""
take_chars (suc n) (String.◌∷◌ c s) = String.◌∷◌ c (take_chars n s)

unfoldable pub truncate_text : String → ℕ → String
unfolding char_count take_chars
truncate_text input limit =
    if leb (char_count input) limit then input else str_append (take_chars (limit - 3) input) "..."

-- `{:?}` of the exit code.
unfoldable pub debug_exit_code : Option ℤ → String
debug_exit_code none = "None"
debug_exit_code (some (pos n)) = concat_text ("Some(" ∷ decimal n ∷ ")" ∷ [])
debug_exit_code (some (negsuc n)) = concat_text ("Some(-" ∷ decimal (n + 1) ∷ ")" ∷ [])

-- What `task_origin_summary` and `task_cancel_summary` say for a way and an actor.
unfoldable pub summary_of : String → Option String → Option String → String
summary_of verb (some via) (some actor) = concat_text (verb ∷ " via " ∷ via ∷ " by " ∷ actor ∷ [])
summary_of verb (some via) none = concat_text (verb ∷ " via " ∷ via ∷ [])
summary_of verb none (some actor) = concat_text (verb ∷ " by " ∷ actor ∷ [])
summary_of verb none none = ""

unfoldable pub task_origin_summary : TaskSnapshot → String
unfolding summary_of
task_origin_summary task = summary_of "created" task.created_via task.created_by

unfoldable pub task_cancel_summary : TaskSnapshot → String
unfolding summary_of
task_cancel_summary task = summary_of "canceled" task.canceled_via task.canceled_by

pub unless_empty : String → List String
unless_empty s = if is_empty s then [] else s ∷ []

unfoldable pub task_card_meta : TaskSnapshot → String
unfolding unless_empty
task_card_meta task =
    join " | " (decimal task.created_at_unix_secs ∷ unless_empty (task_origin_summary task))

truncated : Bool → String → List String
truncated false stream = []
truncated true stream =
    concat_text (stream ∷ " truncated after " ∷ decimal max_result_output_bytes ∷ " bytes" ∷ [])
    ∷ []

unfoldable pub result_truncation_summary : ExecutionResult → String
unfolding truncated
result_truncation_summary result =
    join " | "
      (truncated result.stdout_truncated "stdout" ++ truncated result.stderr_truncated "stderr")

-- `cancel_reason.or_else(retry_reason).unwrap_or_else(…)`
abbrev pub reason_or : String → TaskSnapshot → String
reason_or otherwise task = first task.cancel_reason task.retry_reason
  where
    first : Option String → Option String → String
    first (some reason) retry = reason
    first none (some reason) = reason
    first none none = otherwise

abbrev pub text_or : String → Option String → String
text_or otherwise none = otherwise
text_or otherwise (some text) = text

-- Queued, dispatched or running.
abbrev pub is_active : TaskStatus → Bool
is_active queued = true
is_active dispatched = true
is_active running = true
is_active _ = false

-- Succeeded, failed or canceled.
abbrev pub is_finished : TaskStatus → Bool
is_finished succeeded = true
is_finished failed = true
is_finished canceled = true
is_finished _ = false

-- Failed or canceled.
abbrev pub is_failure : TaskStatus → Bool
is_failure failed = true
is_failure canceled = true
is_failure _ = false
