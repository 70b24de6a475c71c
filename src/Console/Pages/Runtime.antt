-- ===== src/Console/Pages/Runtime.antt =====
-- apps/command-server/src/console.rs: the parts of the page of the runtime.
use ruchat.Prelude.{ℕ, String, Bool, Option, none, some, List, [], ◌∷◌}
use ruchat.Prelude.Lists.{length, select, take}
use ruchat.Prelude.Text.{trim}
use ruchat.Protocol.Domain.{NodeSnapshot, TaskSnapshot, ExecutionResult, SessionEvent}
use ruchat.Session.Frames.{decimal}
use ruchat.Server.Api.{map_items}
use ruchat.Console.Escape.{codes, escape_html}
use ruchat.Console.Pages.Texts.{
  concat_text, task_status_label, session_event_kind_label, display_args, truncate_text,
  debug_exit_code, reason_or, is_active, is_finished, is_failure,
}
use ruchat.Console.Pages.Html.{concat}
use ruchat.Console.Pages.Nodes.{online_count}

count : {A : Type 0} → (A → Bool) → List A → ℕ
count test items = length (select test items)

abbrev active : TaskSnapshot → Bool
active task = is_active task.status

abbrev failure : TaskSnapshot → Bool
failure task = is_failure task.status

abbrev finished : TaskSnapshot → Bool
finished task = is_finished task.status

unfoldable pub render_runtime_summary_text :
    List NodeSnapshot → List TaskSnapshot → List SessionEvent → String
unfolding count
render_runtime_summary_text nodes tasks events = concat_text (
    "Runtime snapshot across nodes, tasks, and session lifecycle. "
    ∷ decimal (online_count nodes)
    ∷ "/"
    ∷ decimal (length nodes)
    ∷ " nodes online, "
    ∷ decimal (count active tasks)
    ∷ " active tasks, "
    ∷ decimal (count failure tasks)
    ∷ " recent failed or canceled tasks, "
    ∷ decimal (length events)
    ∷ " recent session events. Auto refresh 3s."
    ∷ [])

unfoldable pub stat_card : String → String → String → List ℕ
stat_card label value detail = concat (
    codes "<article class=\"runtime-stat-card\"><p class=\"eyebrow\">"
    ∷ escape_html (codes label)
    ∷ codes "</p><p class=\"runtime-stat-value\">"
    ∷ escape_html (codes value)
    ∷ codes "</p><p class=\"muted\">"
    ∷ escape_html (codes detail)
    ∷ codes "</p></article>"
    ∷ [])

last_event : List SessionEvent → String
last_event [] = "none"
last_event (event ∷ events) =
    concat_text
      (session_event_kind_label event.kind ∷ " @ " ∷ decimal event.created_at_unix_secs ∷ [])

unfoldable pub render_runtime_overview_cards :
    List NodeSnapshot → List TaskSnapshot → List SessionEvent → List ℕ
unfolding count stat_card last_event
render_runtime_overview_cards nodes tasks events = concat (
    stat_card "Online Nodes"
      (concat_text (decimal (online_count nodes) ∷ "/" ∷ decimal (length nodes) ∷ []))
      "connected control sessions"
    ∷ stat_card "Active Tasks" (decimal (count active tasks)) "queued, dispatched, or running"
    ∷ stat_card "Recent Failures" (decimal (count failure tasks)) "failed or canceled task outcomes"
    ∷ stat_card "Last Session Event" (last_event events) "most recent lifecycle signal"
    ∷ [])

-- The rows of a list, or what stands there when it has none.
abbrev pub or_none : {A : Type 0} → List ℕ → (A → List ℕ) → List A → List ℕ
or_none nothing render [] = nothing
or_none nothing render (item ∷ items) = concat (map_items render (item ∷ items))

unfoldable pub runtime_node_row : NodeSnapshot → List ℕ
runtime_node_row node = concat (
    codes
      "<article class=\"runtime-row-card\"><div><p class=\"runtime-row-title\"><a href=\"/console/nodes/"
    ∷ escape_html (codes node.node_id)
    ∷ codes "\">"
    ∷ escape_html (codes node.node_id)
    ∷ codes "</a></p><p class=\"muted\">"
    ∷ escape_html (codes node.hostname)
    ∷ codes " | "
    ∷ escape_html (codes node.platform)
    ∷ codes
        "</p></div><div class=\"runtime-row-meta\"><span class=\"status-chip active\">online</span><span class=\"runtime-inline-meta\">commands "
    ∷ codes (decimal (length node.commands))
    ∷ codes "</span></div></article>"
    ∷ [])

unfoldable pub render_runtime_nodes_list : List NodeSnapshot → List ℕ
render_runtime_nodes_list nodes =
    or_none (codes "<div class=\"runtime-empty\">No online nodes right now.</div>") runtime_node_row
      (select (λ node. node.online) nodes)

unfoldable pub runtime_task_row : TaskSnapshot → List ℕ
runtime_task_row task = concat (
    codes "<article class=\"runtime-row-card\"><div><p class=\"runtime-row-title\">#"
    ∷ codes (decimal task.task_id)
    ∷ codes " "
    ∷ escape_html (codes task.command_name)
    ∷ codes "</p><p class=\"muted\">node "
    ∷ escape_html (codes task.node_id)
    ∷ codes " | args "
    ∷ escape_html (codes (display_args task.args))
    ∷ codes "</p></div><div class=\"runtime-row-meta\"><span class=\"status-badge badge-"
    ∷ codes (task_status_label task.status)
    ∷ codes "\">"
    ∷ codes (task_status_label task.status)
    ∷ codes "</span></div></article>"
    ∷ [])

unfoldable pub render_runtime_active_tasks : List TaskSnapshot → List ℕ
render_runtime_active_tasks tasks =
    or_none (codes "<div class=\"runtime-empty\">No active tasks.</div>") runtime_task_row
      (select active tasks)

outcome_summary : TaskSnapshot → Option ExecutionResult → String
outcome_summary task (some result) = concat_text (
    "exit="
    ∷ debug_exit_code result.exit_code
    ∷ " duration="
    ∷ decimal result.duration_ms
    ∷ "ms stdout="
    ∷ truncate_text (trim result.stdout) 80
    ∷ [])
outcome_summary task none = reason_or "no result payload" task

unfoldable pub runtime_result_row : TaskSnapshot → List ℕ
unfolding outcome_summary
runtime_result_row task = concat (
    codes "<article class=\"runtime-row-card\"><div><p class=\"runtime-row-title\">#"
    ∷ codes (decimal task.task_id)
    ∷ codes " "
    ∷ escape_html (codes task.command_name)
    ∷ codes "</p><p class=\"muted\">node "
    ∷ escape_html (codes task.node_id)
    ∷ codes " | "
    ∷ escape_html (codes (outcome_summary task task.result))
    ∷ codes "</p></div><div class=\"runtime-row-meta\"><span class=\"status-badge badge-"
    ∷ codes (task_status_label task.status)
    ∷ codes "\">"
    ∷ codes (task_status_label task.status)
    ∷ codes "</span></div></article>"
    ∷ [])

unfoldable pub render_runtime_recent_results : List TaskSnapshot → List ℕ
render_runtime_recent_results tasks =
    or_none (codes "<div class=\"runtime-empty\">No finished task outcomes yet.</div>")
      runtime_result_row (take 8 (select finished tasks))
