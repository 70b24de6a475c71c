-- ===== src/Console/Forms.antt =====
-- apps/command-server/src/console.rs: the two forms of the console that write, and their helpers.

pub mod Guard
mod Numbers
mod Tests
use Prim.Native.String.{String}
use text.Mathlib.Text.{starts_with}
use ruchat.Prelude.{
  ℕ, Bool, true, false, not, Option, none, some, List, [], ◌∷◌, ◌++◌, if◌then◌else◌,
}
use ruchat.Prelude.Lists.{select}
use ruchat.Prelude.Text.{trim, lines, is_empty, parse_u64}
use ruchat.Prelude.Result.{Result, ok, err}
use ruchat.Protocol.Codec.{Json}
use ruchat.Protocol.Domain.{CreateTaskRequest}
use ruchat.Db.Rows.{DbError, TaskAudit, CreateTaskOutcome, CancelTaskOutcome}
use ruchat.Db.Tasks.{create_task, cancel_task}
use ruchat.Server.AppState.{AppState, has_valid_admin_session, notify_node, notify_task_cancel}
use ruchat.Server.Api.{StatusCode, map_items, bad_request, not_found, conflict}
use ruchat.Server.Api.Handlers.{with_store}
use ruchat.Server.Cookies.{extract_admin_session_token}
use ruchat.Console.Escape.{codes, escape_html}

pub record TaskForm : Type 0 where
  pub node_id : String
  pub command_name : String
  pub args_text : String
  pub timeout_secs : String
  pub return_to : String

pub record CancelTaskForm : Type 0 where
  pub return_to : String

-- A redirect, the page of `error_page` with its message and its way back, or the page of an error of
-- the store.
pub data FormResponse : Type 0 where
  redirect_to : String → FormResponse
  error_page : StatusCode → String → List ℕ → FormResponse
  server_error : DbError → FormResponse

abbrev not_blank : String → Bool
not_blank line = not (is_empty line)

unfoldable pub parse_args_text : String → List String
parse_args_text text = select not_blank (map_items trim (lines text))

unfoldable pub default_return_to : String → String → String
default_return_to value fallback =
    if starts_with (trim value) "/console/" then trim value else fallback

-- The text of the field for the timeout; `none` where it is no number.
unfoldable pub parse_timeout : String → Option (Option ℕ)
parse_timeout text = if is_empty (trim text) then some none else given (parse_u64 (trim text))
  where
    given : Option ℕ → Option (Option ℕ)
    given none = none
    given (some value) = some (some value)

abbrev pub console_audit : AppState → TaskAudit
console_audit state = record { source = "console"; actor = some state.admin_username }

-- The way back to the form of a node, which `error_page` escapes once more.
abbrev pub node_page : String → List ℕ
node_page node_id = codes "/console/nodes/" ++ escape_html (codes node_id)

abbrev pub after_session :
    (AppState → FormResponse × AppState) → Bool × AppState → FormResponse × AppState
after_session handler (true, state) = handler state
after_session handler (false, state) = (FormResponse.redirect_to "/console/login", state)

-- `require_console_session`, then the rest of a handler.
unfoldable pub require_console_session :
    ℕ → Option String → (AppState → FormResponse × AppState) → AppState → FormResponse × AppState
require_console_session checked_at headers handler state =
    after_session handler
      (has_valid_admin_session checked_at (extract_admin_session_token headers) state)

unfoldable pub create_task_answer :
    TaskForm → AppState → Result DbError CreateTaskOutcome → FormResponse × AppState
create_task_answer form state (err e) = (FormResponse.server_error e, state)
create_task_answer form state (ok CreateTaskOutcome.node_not_found) =
    (FormResponse.error_page not_found "node not found" (codes "/console/nodes"), state)
create_task_answer form state (ok CreateTaskOutcome.unsupported_command) = (
  FormResponse.error_page bad_request "command is not supported by the node"
      (node_page form.node_id),
  state,
)
create_task_answer form state (ok CreateTaskOutcome.extra_args_not_allowed) = (
  FormResponse.error_page bad_request "command does not allow extra args" (node_page form.node_id),
  state,
)
create_task_answer form state (ok (CreateTaskOutcome.created task)) = (
  FormResponse.redirect_to (default_return_to form.return_to "/console/tasks"),
  notify_node task.node_id state,
)

unfoldable pub cancel_task_answer :
    CancelTaskForm → AppState → Result DbError CancelTaskOutcome → FormResponse × AppState
cancel_task_answer form state (err e) = (FormResponse.server_error e, state)
cancel_task_answer form state (ok CancelTaskOutcome.not_found) =
    (FormResponse.error_page not_found "task not found" (codes "/console/tasks"), state)
cancel_task_answer form state (ok CancelTaskOutcome.not_cancelable) = (
  FormResponse.error_page conflict "task is already finished and cannot be canceled"
      (codes (default_return_to form.return_to "/console/tasks")),
  state,
)
cancel_task_answer form state (ok (CancelTaskOutcome.canceled task)) = (
  FormResponse.redirect_to (default_return_to form.return_to "/console/tasks"),
  notify_task_cancel task.node_id task.task_id task.cancel_reason state,
)

abbrev pub request_of : TaskForm → Option ℕ → CreateTaskRequest
request_of form timeout = record {
  node_id = form.node_id;
  command_name = form.command_name;
  args = parse_args_text form.args_text;
  timeout_secs = timeout;
}

module _ (json : Json) where
  create_with : ℕ → TaskForm → Option (Option ℕ) → AppState → FormResponse × AppState
  unfolding create_task_answer
  create_with now form none state = (
    FormResponse.error_page bad_request "timeout_secs must be a positive integer"
        (node_page form.node_id),
    state,
  )
  create_with now form (some timeout) state =
      let out = create_task json now (request_of form timeout) (console_audit state) state.db in
      create_task_answer form (with_store state out.1) out.0

  -- `checked_at` and `now` are the readings of the clock for the session and for the store.
  unfoldable pub create_task_submit :
      ℕ → ℕ → Option String → TaskForm → AppState → FormResponse × AppState
  unfolding require_console_session create_with parse_timeout
  create_task_submit checked_at now headers form state =
      require_console_session checked_at headers
        (create_with now form (parse_timeout form.timeout_secs)) state

  cancel_with : ℕ → ℕ → CancelTaskForm → AppState → FormResponse × AppState
  unfolding cancel_task_answer
  cancel_with now task_id form state =
      let out =
        cancel_task json now task_id (some "canceled from console") (console_audit state)
          state.db in
      cancel_task_answer form (with_store state out.1) out.0

  unfoldable pub cancel_task_submit :
      ℕ → ℕ → Option String → ℕ → CancelTaskForm → AppState → FormResponse × AppState
  unfolding require_console_session cancel_with
  cancel_task_submit checked_at now headers task_id form state =
      require_console_session checked_at headers (cancel_with now task_id form) state
