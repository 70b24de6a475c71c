-- ===== src/Console/Pages/NodePage.antt =====
-- apps/command-server/src/console.rs: the page of one node, without its script.
use ruchat.Prelude.{ℕ, String, false, List, [], ◌∷◌, if◌then◌else◌}
use ruchat.Protocol.Domain.{NodeSnapshot, TaskSnapshot, SessionEvent, CommandDescriptor}
use ruchat.Session.Frames.{decimal}
use ruchat.Server.Api.{map_items}
use ruchat.Console.Escape.{codes, escape_html}
use ruchat.Console.Pages.Html.{concat}
use ruchat.Console.Pages.Workspace.{
  render_runtime_summary, render_protocol_summary, render_session_events, render_task_timeline_card,
  render_dialog_feed, render_command_option, render_command_meta_panel,
}

unfoldable pub render_task_log : String → List TaskSnapshot → List ℕ
render_task_log node_id [] =
    codes
      "<div class=\"empty-state\">No execution logs yet. Send a command from the dialogue panel.</div>"
render_task_log node_id (task ∷ tasks) =
    concat (map_items (render_task_timeline_card node_id) (task ∷ tasks))

unfoldable pub command_help : List CommandDescriptor → List ℕ
command_help [] =
    codes "<div class=\"dialog-meta-card\"><p>No commands reported by this node.</p></div>"
command_help (command ∷ commands) = render_command_meta_panel command

unfoldable pub render_node_workspace : NodeSnapshot → List TaskSnapshot → List SessionEvent → List ℕ
render_node_workspace node tasks session_events = concat (
    codes
      "<div class=\"workspace-bar\"><div class=\"workspace-bar-title\"><p class=\"eyebrow\">Node Workspace</p><h1 id=\"node-title\">"
    ∷ escape_html (codes node.node_id)
    ∷ codes "</h1><p id=\"node-subline\" class=\"workspace-subline\">"
    ∷ escape_html (codes node.hostname)
    ∷ codes " | "
    ∷ escape_html (codes node.platform)
    ∷ codes "</p><div id=\"node-runtime-summary\">"
    ∷ render_runtime_summary node
    ∷ codes "</div><div id=\"node-protocol-summary\">"
    ∷ render_protocol_summary node
    ∷ codes
        "</div></div><div class=\"workspace-bar-meta\"><a class=\"workspace-link\" href=\"/console/runtime\">Runtime</a><a class=\"workspace-link\" href=\"/console/nodes\">Nodes</a><a class=\"workspace-link\" href=\"/console/tasks\">Tasks</a><a class=\"workspace-link\" href=\"/console/session-events\">Session Events</a><a class=\"workspace-link\" href=\"/console/protocol\">Protocol</a><form method=\"post\" action=\"/console/logout\"><button type=\"submit\" class=\"workspace-logout\">Logout</button></form><span id=\"node-status-chip\" class=\"status-chip "
    ∷ codes (if node.online then "active" else "idle")
    ∷ codes "\">"
    ∷ codes (if node.online then "online" else "offline")
    ∷ codes "</span><span id=\"node-last-seen\" class=\"workspace-mini\">last seen "
    ∷ codes (decimal node.last_seen_unix_secs)
    ∷ codes
        "</span></div></div><section class=\"workspace-shell\"><div class=\"workspace-log\"><div class=\"pane-head compact\"><div><p class=\"eyebrow\">Execution Log</p><h2>Task Timeline</h2></div><div class=\"pane-meta\">auto refresh 3s</div></div><div class=\"session-events-panel\"><div class=\"session-events-head\"><p class=\"eyebrow\">Session Events</p><p class=\"session-events-subline\">connect, auth, register, close</p></div><div id=\"session-events-list\" class=\"session-events-list\">"
    ∷ render_session_events session_events false
    ∷ codes "</div></div><div id=\"task-log\" class=\"log-stream\">"
    ∷ render_task_log node.node_id tasks
    ∷ codes
        "</div></div><aside class=\"workspace-chat\"><div class=\"pane-head compact\"><div><p class=\"eyebrow\">Operator Dialogue</p><h2>Command Session</h2></div></div><div id=\"dialog-feed\" class=\"dialog-feed\">"
    ∷ render_dialog_feed tasks
    ∷ codes
        "</div><form id=\"composer-form\" class=\"composer-card\" method=\"post\" action=\"/console/tasks\"><input type=\"hidden\" name=\"node_id\" value=\""
    ∷ escape_html (codes node.node_id)
    ∷ codes "\"><input type=\"hidden\" name=\"return_to\" value=\"/console/nodes/"
    ∷ escape_html (codes node.node_id)
    ∷ codes "\"><label>Command<select id=\"command-select\" name=\"command_name\">"
    ∷ concat (map_items render_command_option node.commands)
    ∷ codes "</select></label><div id=\"command-meta\">"
    ∷ command_help node.commands
    ∷ codes
        "</div><label>Extra args<textarea id=\"args-text\" name=\"args_text\" rows=\"2\" placeholder=\"hello&#10;world\"></textarea></label><label>Timeout seconds<input id=\"timeout-input\" type=\"number\" min=\"1\" name=\"timeout_secs\" placeholder=\"30\"></label><p id=\"dialog-status\" class=\"dialog-status\" hidden></p><button id=\"send-button\" type=\"submit\">Send Task</button></form></aside></section>"
    ∷ [])
