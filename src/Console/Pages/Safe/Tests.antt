-- ===== src/Console/Pages/Safe/Tests.antt =====
-- Pages of a node whose owner chose its texts to break out of them.
use ruchat.Prelude.{String, ◌≡◌, true, false, none, some, List, [], ◌∷◌}
use ruchat.Protocol.Domain.{
  NodeSnapshot, TaskSnapshot, SessionEvent, ℤ, succeeded, queued, session_opened,
}
use ruchat.Server.Api.{map_items}
use ruchat.Console.Pages.Markup.{markup}
use ruchat.Console.Pages.Blank.{blank_task, blank_node, blank_event}
use ruchat.Console.Pages.Tasks.{tasks_page_body}
use ruchat.Console.Pages.Nodes.{render_nodes_rows}
use ruchat.Console.Pages.NodePage.{render_node_workspace}
use ruchat.Console.Pages.Runtime.{
  render_runtime_nodes_list, render_runtime_active_tasks, render_runtime_recent_results,
}
use ruchat.Console.Pages.Safe.{tasks_page-blank}
use ruchat.Console.Pages.Safe.Nodes.{render_nodes_rows-blank}
use ruchat.Console.Pages.Safe.Workspace.{render_node_workspace-blank}
use ruchat.Console.Pages.Safe.Runtime.{runtime_lists-blank}

abbrev element : String
element = "<script>alert('x')</script>"

abbrev node : NodeSnapshot
node = record {
  node_id = element;
  hostname = "\" onclick=\"x";
  platform = "linux";
  poll_interval_secs = 3;
  registered_at_unix_secs = 90;
  last_seen_unix_secs = 95;
  online = true;
  session_protocol_version = some element;
  session_transport_stack = none;
  session_heartbeat_interval_secs = some 15;
  session_capabilities = element ∷ [];
  commands =
      record {
        name = element;
        description = element;
        default_args = element ∷ [];
        allow_extra_args = true;
      }
      ∷ [];
}

abbrev nodes : List NodeSnapshot
nodes = node ∷ []

abbrev task : TaskSnapshot
task = record {
  task_id = 1;
  node_id = element;
  command_name = element;
  args = element ∷ [];
  status = queued;
  created_at_unix_secs = 90;
  created_via = some "api";
  created_by = some element;
  dispatched_at_unix_secs = none;
  acked_at_unix_secs = none;
  started_at_unix_secs = none;
  finished_at_unix_secs = none;
  timeout_secs = none;
  retry_count = 0;
  retry_reason = some element;
  canceled_at_unix_secs = none;
  cancel_reason = none;
  canceled_via = none;
  canceled_by = none;
  result = none;
}

abbrev tasks : List TaskSnapshot
tasks =
    task
    ∷ (record task {
      task_id = 2;
      status = succeeded;
      result = some (record {
        success = true;
        exit_code = some (ℤ.pos 0);
        stdout = element;
        stderr = element;
        stdout_truncated = true;
        stderr_truncated = false;
        duration_ms = 5;
        error = some element;
      });
    })
    ∷ []

abbrev events : List SessionEvent
events =
    record {
      event_id = 1;
      node_id = element;
      kind = session_opened;
      message = element;
      created_at_unix_secs = 91;
    }
    ∷ []

tasks_page-blank_example :
    markup (tasks_page_body tasks) ≡ markup (tasks_page_body (map_items blank_task tasks))
tasks_page-blank_example = tasks_page-blank tasks

render_nodes_rows-blank_example :
    markup (render_nodes_rows nodes) ≡ markup (render_nodes_rows (map_items blank_node nodes))
render_nodes_rows-blank_example = render_nodes_rows-blank nodes

render_node_workspace-blank_example :
    markup (render_node_workspace node tasks events)
    ≡ markup (
        render_node_workspace
          (blank_node node)
          (map_items blank_task tasks)
          (map_items blank_event events))
render_node_workspace-blank_example = render_node_workspace-blank node tasks events

runtime_lists-blank_example :
    (markup (render_runtime_nodes_list nodes)
      ≡ markup (render_runtime_nodes_list (map_items blank_node nodes)))
    × (markup (render_runtime_active_tasks tasks)
        ≡ markup (render_runtime_active_tasks (map_items blank_task tasks)))
    × (markup (render_runtime_recent_results tasks)
        ≡ markup (render_runtime_recent_results (map_items blank_task tasks)))
runtime_lists-blank_example = runtime_lists-blank nodes tasks
