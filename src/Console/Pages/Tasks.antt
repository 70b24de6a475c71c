-- ===== src/Console/Pages/Tasks.antt =====
-- apps/command-server/src/console.rs: the rows of the table of tasks.
use ruchat.Prelude.{
  ℕ, String, Bool, true, false, Option, none, some, List, [], ◌∷◌, ◌++◌, if◌then◌else◌,
}
use ruchat.Prelude.Text.{is_empty}
use ruchat.Protocol.Domain.{TaskSnapshot, ExecutionResult}
use ruchat.Session.Frames.{decimal}
use ruchat.Server.Api.{map_items}
use ruchat.Console.Escape.{codes, escape_html}
use ruchat.Console.Pages.Texts.{
  task_status_label, display_args, debug_exit_code, task_origin_summary, task_cancel_summary,
  result_truncation_summary, text_or, is_active,
}
use ruchat.Console.Pages.Html.{concat, reversed}

unfoldable pub audit_line : String → List ℕ
audit_line summary =
    if is_empty summary
    then []
    else concat
        (codes "<p class=\"muted task-audit\">" ∷ escape_html (codes summary) ∷ codes "</p>" ∷ [])

unfoldable pub render_task_audit_block : TaskSnapshot → List ℕ
unfolding audit_line
render_task_audit_block task =
    audit_line (task_origin_summary task) ++ audit_line (task_cancel_summary task)

truncation_note : String → List ℕ
truncation_note summary =
    if is_empty summary
    then []
    else concat (
        codes "<p class=\"muted truncation-note\">"
        ∷ escape_html (codes summary)
        ∷ codes "</p>"
        ∷ [])

unfoldable pub render_result_truncation_notice : ExecutionResult → List ℕ
unfolding truncation_note
render_result_truncation_notice result = truncation_note (result_truncation_summary result)

-- `Display` of a Boolean.
abbrev bool_text : Bool → String
bool_text true = "true"
bool_text false = "false"

-- The cell of a row for the result.
unfoldable pub result_cell : TaskSnapshot → Option ExecutionResult → List ℕ
result_cell task (some result) = concat (
    codes "<details><summary>success="
    ∷ codes (bool_text result.success)
    ∷ codes " exit="
    ∷ codes (debug_exit_code result.exit_code)
    ∷ codes " duration="
    ∷ codes (decimal result.duration_ms)
    ∷ codes "ms</summary>"
    ∷ render_task_audit_block task
    ∷ render_result_truncation_notice result
    ∷ codes "<pre>stdout:\n"
    ∷ escape_html (codes result.stdout)
    ∷ codes "\n\nstderr:\n"
    ∷ escape_html (codes result.stderr)
    ∷ codes "\n\nerror:\n"
    ∷ escape_html (codes (text_or "" result.error))
    ∷ codes "</pre></details>"
    ∷ [])
result_cell task none =
    concat
      (escape_html (codes (text_or "-" task.cancel_reason)) ∷ render_task_audit_block task ∷ [])

-- The form that cancels a task, while it can be canceled.
unfoldable pub cancel_cell : TaskSnapshot → List ℕ
cancel_cell task =
    if is_active task.status
    then concat (
        codes "<form method=\"post\" action=\"/console/tasks/"
        ∷ codes (decimal task.task_id)
        ∷ codes
            "/cancel\"><input type=\"hidden\" name=\"return_to\" value=\"/console/tasks\"><button type=\"submit\">Cancel</button></form>"
        ∷ [])
    else []

unfoldable pub render_task_row : TaskSnapshot → Bool → List ℕ
unfolding result_cell cancel_cell
render_task_row task true = concat (
    codes "<tr><td>"
    ∷ codes (decimal task.task_id)
    ∷ cancel_cell task
    ∷ codes "</td><td><a href=\"/console/nodes/"
    ∷ escape_html (codes task.node_id)
    ∷ codes "\">"
    ∷ escape_html (codes task.node_id)
    ∷ codes "</a></td><td>"
    ∷ escape_html (codes task.command_name)
    ∷ codes "</td><td>"
    ∷ codes (task_status_label task.status)
    ∷ codes "</td><td>"
    ∷ escape_html (codes (display_args task.args))
    ∷ codes "</td><td>"
    ∷ codes (decimal task.retry_count)
    ∷ codes "</td><td>"
    ∷ codes (decimal task.created_at_unix_secs)
    ∷ codes "</td><td>"
    ∷ result_cell task task.result
    ∷ codes "</td></tr>"
    ∷ [])
render_task_row task false = concat (
    codes "<tr><td>"
    ∷ codes (decimal task.task_id)
    ∷ cancel_cell task
    ∷ codes "</td><td>"
    ∷ escape_html (codes task.command_name)
    ∷ codes "</td><td>"
    ∷ codes (task_status_label task.status)
    ∷ codes "</td><td>"
    ∷ escape_html (codes (display_args task.args))
    ∷ codes "</td><td>"
    ∷ codes (decimal task.retry_count)
    ∷ codes "</td><td>"
    ∷ codes (decimal task.created_at_unix_secs)
    ∷ codes "</td><td>"
    ∷ result_cell task task.result
    ∷ codes "</td></tr>"
    ∷ [])

abbrev task_rows : List TaskSnapshot → List (List ℕ)
task_rows tasks = map_items (λ task. render_task_row task true) (reversed tasks)

-- The table of `tasks_page`.
unfoldable pub tasks_table : List TaskSnapshot → List ℕ
tasks_table [] = codes "<tr><td colspan=\"8\">no tasks created</td></tr>"
tasks_table (task ∷ tasks) = concat (task_rows (task ∷ tasks))

unfoldable pub tasks_page_body : List TaskSnapshot → List ℕ
tasks_page_body tasks = concat (
    codes
      "<section><h1>Tasks</h1><p>Execution history and latest results.</p><table><thead><tr><th>Task</th><th>Node</th><th>Command</th><th>Status</th><th>Args</th><th>Retry</th><th>Created</th><th>Result</th></tr></thead><tbody>"
    ∷ tasks_table tasks
    ∷ codes "</tbody></table></section>"
    ∷ [])
