-- ===== src/Console/Pages/Safe.antt =====
-- apps/command-server/src/console.rs: the markup of the page of the tasks.
pub mod Nodes
pub mod Workspace
pub mod Runtime
mod Tests
use ruchat.Prelude.{
  ℕ, ◌≡◌, refl, sym, ap, ◌∙◌, String, Bool, true, false, Bool-cases, inl, inr, Option, none, some,
  List, [], ◌∷◌, ◌++◌, if◌then◌else◌,
}
use ruchat.Prelude.Lists.{length, select, take}
use ruchat.Prelude.Text.{is_empty}
use ruchat.Protocol.Domain.{
  NodeSnapshot, TaskSnapshot, ExecutionResult, SessionEvent, CommandDescriptor,
}
use ruchat.Server.Api.{map_items}
use ruchat.Console.Escape.{codes, escape_html}
use ruchat.Console.Pages.Texts.{
  is_active, task_status_label, task_origin_summary, task_cancel_summary, result_truncation_summary,
}
use ruchat.Console.Pages.Html.{concat, reversed}
use ruchat.Console.Pages.Markup.{
  markup, markup-append, markup-escape_html, markup-concat, markup-items, reversed-blank,
}
use ruchat.Console.Pages.Blank.{
  blank_task, blank_node, blank_event, blank_result, blank_found, blank_command, origin-blank,
  cancel-blank,
}
use ruchat.Console.Pages.Tasks.{
  audit_line, render_task_audit_block, render_result_truncation_notice, result_cell, cancel_cell,
  render_task_row, tasks_table, tasks_page_body,
}

audit_line-empty :
    (summary blank : String)
    → is_empty summary ≡ is_empty blank
    → markup (audit_line summary) ≡ markup (audit_line blank)
unfolding audit_line
audit_line-empty summary blank e = rw e (elim (Bool-cases (is_empty blank)) [
  | inl t ↦ rw t refl
  | inr t ↦ rw t (simp (markup-concat, markup-escape_html))
])

audit_block-blank :
    (task : TaskSnapshot)
    → markup (render_task_audit_block task) ≡ markup (render_task_audit_block (blank_task task))
unfolding render_task_audit_block
audit_block-blank task = simp (
  markup-append,
  audit_line-empty _ _ (origin-blank task),
  audit_line-empty _ _ (cancel-blank task),
)

result_cell-blank :
    (task : TaskSnapshot) (found : Option ExecutionResult)
    → markup (result_cell task found) ≡ markup (result_cell (blank_task task) (blank_found found))
unfolding result_cell render_result_truncation_notice result_truncation_summary
result_cell-blank task (some result) =
    simp (markup-concat, markup-escape_html, audit_block-blank task)
result_cell-blank task none = simp (markup-concat, markup-escape_html, audit_block-blank task)

pub render_task_row-blank :
    (include_node : Bool) (task : TaskSnapshot)
    → markup (render_task_row task include_node)
      ≡ markup (render_task_row (blank_task task) include_node)
unfolding render_task_row cancel_cell
render_task_row-blank true task =
    simp (markup-concat, markup-escape_html, result_cell-blank task task.result)
render_task_row-blank false task =
    simp (markup-concat, markup-escape_html, result_cell-blank task task.result)

tasks_table-blank :
    (tasks : List TaskSnapshot)
    → markup (tasks_table tasks) ≡ markup (tasks_table (map_items blank_task tasks))
unfolding tasks_table
tasks_table-blank [] = refl
tasks_table-blank (task ∷ tasks) =
    markup-items (λ task. render_task_row task true) (λ task. render_task_row task true) blank_task
      (render_task_row-blank true) (reversed (task ∷ tasks))
    ∙ ap (λ rows. markup (concat (map_items (λ task. render_task_row task true) rows)))
        (reversed-blank blank_task (task ∷ tasks))

-- Whatever the texts of the tasks are, their names, arguments, outputs and reasons, the page of the
-- tasks has the markup that it has where all of them are empty.
pub tasks_page-blank :
    (tasks : List TaskSnapshot)
    → markup (tasks_page_body tasks) ≡ markup (tasks_page_body (map_items blank_task tasks))
unfolding tasks_page_body
tasks_page-blank tasks = simp (markup-concat, tasks_table-blank tasks)
