-- ===== src/Console/Pages/Safe/Workspace.antt =====
-- apps/command-server/src/console.rs: the markup of the page of one node.
use ruchat.Prelude.{
  ◌≡◌, refl, ap, ◌∙◌, String, false, Bool-cases, inl, inr, Option, none, some, List, [], ◌∷◌,
}
use ruchat.Prelude.Lists.{take}
use ruchat.Prelude.Text.{is_empty}
use ruchat.Protocol.Domain.{
  NodeSnapshot, TaskSnapshot, ExecutionResult, SessionEvent, CommandDescriptor,
}
use ruchat.Server.Api.{map_items}
use ruchat.Console.Pages.Texts.{is_active, result_truncation_summary}
use ruchat.Console.Pages.Html.{concat, reversed}
use ruchat.Console.Pages.Markup.{
  markup, markup-append, markup-escape_html, markup-concat, markup-items, reversed-blank,
  take-blank,
}
use ruchat.Console.Pages.Blank.{
  blank_task, blank_node, blank_event, blank_found, blank_command, origin-blank,
}
use ruchat.Console.Pages.Tasks.{render_result_truncation_notice}
use ruchat.Console.Pages.Workspace.{
  log_output, card_cancel, render_task_timeline_card, render_optional_dialog_detail,
  render_dialog_pair, render_dialog_feed, render_command_option,
}
use ruchat.Console.Pages.NodePage.{render_task_log, command_help, render_node_workspace}
use ruchat.Console.Pages.Safe.Nodes.{
  session_events-blank, protocol_summary-blank, runtime_summary-blank, command_option-blank,
  command_panel-blank,
}

log_output-blank :
    (found : Option ExecutionResult)
    → markup (log_output found) ≡ markup (log_output (blank_found found))
unfolding log_output render_result_truncation_notice result_truncation_summary
log_output-blank none = refl
log_output-blank (some result) = simp (markup-concat, markup-escape_html)

cancel-blank_node :
    (task : TaskSnapshot) (node_id other : String)
    → markup (card_cancel task node_id) ≡ markup (card_cancel (blank_task task) other)
unfolding card_cancel
cancel-blank_node task node_id other = elim (Bool-cases (is_active task.status)) [
  | inl e ↦ rw e (simp (markup-concat, markup-escape_html))
  | inr e ↦ rw e refl
]

timeline_card-blank :
    (node_id other : String) (task : TaskSnapshot)
    → markup (render_task_timeline_card node_id task)
      ≡ markup (render_task_timeline_card other (blank_task task))
unfolding render_task_timeline_card
timeline_card-blank node_id other task = simp (
  markup-concat,
  markup-escape_html,
  cancel-blank_node task node_id other,
  log_output-blank task.result,
)

task_log-blank :
    (node_id other : String) (tasks : List TaskSnapshot)
    → markup (render_task_log node_id tasks)
      ≡ markup (render_task_log other (map_items blank_task tasks))
unfolding render_task_log
task_log-blank node_id other [] = refl
task_log-blank node_id other (task ∷ tasks) =
    markup-items (render_task_timeline_card node_id) (render_task_timeline_card other) blank_task
      (timeline_card-blank node_id other) (task ∷ tasks)

detail-empty :
    (text other : String)
    → is_empty text ≡ is_empty other
    → markup (render_optional_dialog_detail text) ≡ markup (render_optional_dialog_detail other)
unfolding render_optional_dialog_detail
detail-empty text other e = rw e (elim (Bool-cases (is_empty other)) [
  | inl t ↦ rw t refl
  | inr t ↦ rw t (simp (markup-concat, markup-escape_html))
])

dialog_pair-blank :
    (task : TaskSnapshot)
    → markup (render_dialog_pair task) ≡ markup (render_dialog_pair (blank_task task))
unfolding render_dialog_pair
dialog_pair-blank task =
    simp (markup-append, markup-concat, markup-escape_html, detail-empty _ _ (origin-blank task))

dialog_feed-blank :
    (tasks : List TaskSnapshot)
    → markup (render_dialog_feed tasks) ≡ markup (render_dialog_feed (map_items blank_task tasks))
unfolding render_dialog_feed
dialog_feed-blank [] = refl
dialog_feed-blank (task ∷ tasks) =
    markup-items render_dialog_pair render_dialog_pair blank_task dialog_pair-blank
      (take 8 (reversed (task ∷ tasks)))
    ∙ ap (λ shown. markup (concat (map_items render_dialog_pair shown)))
        (take-blank blank_task 8 (reversed (task ∷ tasks))
          ∙ ap (take 8) (reversed-blank blank_task (task ∷ tasks)))

command_help-blank :
    (commands : List CommandDescriptor)
    → markup (command_help commands) ≡ markup (command_help (map_items blank_command commands))
unfolding command_help
command_help-blank [] = refl
command_help-blank (command ∷ commands) = command_panel-blank command

-- Whatever the texts of a node, of its commands, tasks and session events are, the page of the node,
-- but for its script, has the markup that it has where all of them are empty.
pub render_node_workspace-blank :
    (node : NodeSnapshot) (tasks : List TaskSnapshot) (events : List SessionEvent)
    → markup (render_node_workspace node tasks events)
      ≡ markup (
          render_node_workspace
            (blank_node node)
            (map_items blank_task tasks)
            (map_items blank_event events))
unfolding render_node_workspace
render_node_workspace-blank node tasks events = simp (
  markup-concat,
  markup-escape_html,
  runtime_summary-blank node,
  protocol_summary-blank node,
  session_events-blank false events,
  task_log-blank node.node_id "" tasks,
  dialog_feed-blank tasks,
  command_help-blank node.commands,
  markup-items render_command_option render_command_option blank_command command_option-blank
      node.commands,
)
