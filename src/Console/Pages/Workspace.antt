-- ===== src/Console/Pages/Workspace.antt =====
-- apps/command-server/src/console.rs: the parts of the page of one node.
use ruchat.Prelude.{
  ℕ, String, Bool, true, false, Option, none, some, List, [], ◌∷◌, ◌++◌, if◌then◌else◌,
}
use ruchat.Prelude.Lists.{length, take}
use ruchat.Prelude.Text.{is_empty, trim}
use ruchat.Protocol.Domain.{
  NodeSnapshot, TaskSnapshot, ExecutionResult, SessionEvent, CommandDescriptor,
  control_protocol_version, control_transport_stack,
}
use ruchat.Session.Frames.{decimal}
use ruchat.Server.Api.{map_items}
use ruchat.Console.Escape.{codes, escape_html}
use ruchat.Console.Pages.Texts.{
  concat_text, task_status_label, session_event_kind_label, display_args, truncate_text,
  debug_exit_code, task_origin_summary, task_card_meta, result_truncation_summary, reason_or,
  text_or, is_active,
}
use ruchat.Console.Pages.Html.{concat, reversed}
use ruchat.Console.Pages.Tasks.{render_result_truncation_notice}

unfoldable pub render_runtime_summary : NodeSnapshot → List ℕ
render_runtime_summary node = concat (
    codes "<div class=\"runtime-strip\"><span class=\"runtime-chip\">state: "
    ∷ escape_html (codes (if node.online then "live session" else "awaiting reconnect"))
    ∷ codes "</span><span class=\"runtime-chip\">heartbeat: "
    ∷ escape_html (codes (heartbeat_text node.session_heartbeat_interval_secs))
    ∷ codes "</span><span class=\"runtime-chip\">commands: "
    ∷ codes (decimal (length node.commands))
    ∷ codes "</span><span class=\"runtime-chip\">poll: "
    ∷ codes (decimal node.poll_interval_secs)
    ∷ codes "s</span></div>"
    ∷ [])
  where
    heartbeat_text : Option ℕ → String
    heartbeat_text none = "n/a"
    heartbeat_text (some value) = concat_text (decimal value ∷ "s" ∷ [])

unfoldable pub capability_chip : String → List ℕ
capability_chip capability =
    concat (
      codes "<span class=\"protocol-chip\">"
      ∷ escape_html (codes capability)
      ∷ codes "</span>"
      ∷ [])

unfoldable pub capability_chips : Bool → List String → List ℕ
unfolding capability_chip
capability_chips true capabilities = concat (map_items capability_chip capabilities)
capability_chips false capabilities = codes "<span class=\"protocol-chip\">session_offline</span>"

unfoldable pub heartbeat_chip : Option ℕ → List ℕ
heartbeat_chip (some value) = concat (
    codes "<span class=\"protocol-chip\">heartbeat="
    ∷ codes (decimal value)
    ∷ codes "s</span>"
    ∷ [])
heartbeat_chip none = codes "<span class=\"protocol-chip\">heartbeat=n/a</span>"

unfoldable pub render_protocol_summary : NodeSnapshot → List ℕ
unfolding capability_chips heartbeat_chip
render_protocol_summary node = concat (
    codes "<div class=\"protocol-strip\"><span class=\"protocol-badge\">"
    ∷ escape_html (codes (text_or control_transport_stack node.session_transport_stack))
    ∷ codes "</span><span class=\"protocol-badge\">"
    ∷ escape_html (codes (text_or control_protocol_version node.session_protocol_version))
    ∷ codes "</span>"
    ∷ heartbeat_chip node.session_heartbeat_interval_secs
    ∷ capability_chips node.online node.session_capabilities
    ∷ codes "</div>"
    ∷ [])

session_node : Bool → String → List ℕ
session_node false node_id = []
session_node true node_id = concat (
    codes "<p class=\"session-node\"><a href=\"/console/nodes/"
    ∷ escape_html (codes node_id)
    ∷ codes "\">"
    ∷ escape_html (codes node_id)
    ∷ codes "</a></p>"
    ∷ [])

unfoldable pub render_session_event : Bool → SessionEvent → List ℕ
unfolding session_node
render_session_event include_node_id event = concat (
    codes "<article class=\"session-event kind-"
    ∷ escape_html (codes (session_event_kind_label event.kind))
    ∷ codes "\"><div class=\"session-event-head\"><span class=\"session-kind\">"
    ∷ escape_html (codes (session_event_kind_label event.kind))
    ∷ codes "</span><span class=\"session-time\">"
    ∷ codes (decimal event.created_at_unix_secs)
    ∷ codes "</span></div>"
    ∷ session_node include_node_id event.node_id
    ∷ codes "<p class=\"session-message\">"
    ∷ escape_html (codes event.message)
    ∷ codes "</p></article>"
    ∷ [])

unfoldable pub render_session_events : List SessionEvent → Bool → List ℕ
render_session_events [] include_node_id =
    codes "<div class=\"session-event empty\">No connection events recorded yet.</div>"
render_session_events (event ∷ events) include_node_id =
    concat (map_items (render_session_event include_node_id) (event ∷ events))

unfoldable pub log_output : Option ExecutionResult → List ℕ
log_output (some result) = concat (
    codes "<details class=\"log-output\"><summary>stdout / stderr</summary>"
    ∷ render_result_truncation_notice result
    ∷ codes "<pre>stdout:\n"
    ∷ escape_html (codes result.stdout)
    ∷ codes "\n\nstderr:\n"
    ∷ escape_html (codes result.stderr)
    ∷ codes "\n\nerror:\n"
    ∷ escape_html (codes (text_or "-" result.error))
    ∷ codes "</pre></details>"
    ∷ [])
log_output none = []

unfoldable pub card_cancel : TaskSnapshot → String → List ℕ
card_cancel task node_id =
    if is_active task.status
    then concat (
        codes "<form method=\"post\" action=\"/console/tasks/"
        ∷ codes (decimal task.task_id)
        ∷ codes "/cancel\"><input type=\"hidden\" name=\"return_to\" value=\"/console/nodes/"
        ∷ escape_html (codes node_id)
        ∷ codes "\"><button type=\"submit\" class=\"secondary\">Cancel</button></form>"
        ∷ [])
    else []

unfoldable pub card_summary : TaskSnapshot → Option ExecutionResult → String
card_summary task (some result) = concat_text (
    "exit="
    ∷ debug_exit_code result.exit_code
    ∷ " duration="
    ∷ decimal result.duration_ms
    ∷ "ms"
    ∷ [])
card_summary task none = reason_or "waiting for execution" task

unfoldable pub render_task_timeline_card : String → TaskSnapshot → List ℕ
unfolding log_output card_cancel card_summary
render_task_timeline_card node_id task = concat (
    codes "<article class=\"log-card status-"
    ∷ codes (task_status_label task.status)
    ∷ codes "\"><div class=\"log-card-head\"><div><span class=\"status-badge badge-"
    ∷ codes (task_status_label task.status)
    ∷ codes "\">"
    ∷ codes (task_status_label task.status)
    ∷ codes "</span><h3>"
    ∷ escape_html (codes task.command_name)
    ∷ codes "</h3></div><div class=\"log-card-actions\">"
    ∷ card_cancel task node_id
    ∷ codes "</div></div><p class=\"log-meta-line\">task #"
    ∷ codes (decimal task.task_id)
    ∷ codes " | "
    ∷ escape_html (codes (task_card_meta task))
    ∷ codes " | args: "
    ∷ escape_html (codes (display_args task.args))
    ∷ codes "</p><p class=\"log-summary\">"
    ∷ escape_html (codes (card_summary task task.result))
    ∷ codes "</p>"
    ∷ log_output task.result
    ∷ codes "</article>"
    ∷ [])

unfoldable pub render_optional_dialog_detail : String → List ℕ
render_optional_dialog_detail value =
    if is_empty value
    then []
    else concat
        (codes "<p class=\"dialog-detail\">" ∷ escape_html (codes value) ∷ codes "</p>" ∷ [])

unfoldable pub dialog_summary : TaskSnapshot → Option ExecutionResult → String
dialog_summary task (some result) = concat_text (
    "status="
    ∷ task_status_label task.status
    ∷ " exit="
    ∷ debug_exit_code result.exit_code
    ∷ " duration="
    ∷ decimal result.duration_ms
    ∷ "ms"
    ∷ [])
dialog_summary task none = concat_text ("status=" ∷ task_status_label task.status ∷ [])

-- What the dialog says of the output, and of what was cut off.
output_note : String → String → String
output_note stdout truncation =
    if is_empty stdout
    then if is_empty truncation then "no stdout" else truncation
    else if is_empty truncation
    then concat_text ("stdout: " ∷ truncate_text stdout 120 ∷ [])
    else concat_text (truncation ∷ " | stdout: " ∷ truncate_text stdout 120 ∷ [])

unfoldable pub dialog_extra : TaskSnapshot → Option ExecutionResult → String
unfolding output_note
dialog_extra task (some result) =
    output_note (trim result.stdout) (result_truncation_summary result)
dialog_extra task none = reason_or "waiting for execution" task

unfoldable pub render_dialog_pair : TaskSnapshot → List ℕ
unfolding dialog_summary dialog_extra
render_dialog_pair task =
    concat (
      codes
        "<article class=\"dialog-bubble operator\"><p class=\"dialog-role\">operator</p><p>run <strong>"
      ∷ escape_html (codes task.command_name)
      ∷ codes "</strong></p><p class=\"dialog-detail\">args: "
      ∷ escape_html (codes (display_args task.args))
      ∷ codes "</p><p class=\"dialog-detail\">task #"
      ∷ codes (decimal task.task_id)
      ∷ codes " at "
      ∷ codes (decimal task.created_at_unix_secs)
      ∷ codes "</p>"
      ∷ render_optional_dialog_detail (task_origin_summary task)
      ∷ codes "</article>"
      ∷ [])
    ++ concat (
        codes "<article class=\"dialog-bubble system\"><p class=\"dialog-role\">system</p><p>"
        ∷ escape_html (codes (dialog_summary task task.result))
        ∷ codes "</p><p class=\"dialog-detail\">"
        ∷ escape_html (codes (dialog_extra task task.result))
        ∷ codes "</p></article>"
        ∷ [])

unfoldable pub render_dialog_feed : List TaskSnapshot → List ℕ
render_dialog_feed [] =
    codes
      "<div class=\"dialog-bubble system\">This workspace only runs commands that the client explicitly declared.</div><div class=\"dialog-bubble operator\">Select a command, adjust args, and send it as a tracked task.</div>"
render_dialog_feed (task ∷ tasks) =
    concat (map_items render_dialog_pair (take 8 (reversed (task ∷ tasks))))

unfoldable pub render_command_option : CommandDescriptor → List ℕ
render_command_option command = concat (
    codes "<option value=\""
    ∷ escape_html (codes command.name)
    ∷ codes "\" data-description=\""
    ∷ escape_html (codes command.description)
    ∷ codes "\" data-default-args=\""
    ∷ escape_html (codes (display_args command.default_args))
    ∷ codes "\" data-allow-extra=\""
    ∷ codes (if command.allow_extra_args then "true" else "false")
    ∷ codes "\">"
    ∷ escape_html (codes command.name)
    ∷ codes "</option>"
    ∷ [])

unfoldable pub render_command_meta_panel : CommandDescriptor → List ℕ
render_command_meta_panel command = concat (
    codes
      "<details class=\"dialog-meta-card\"><summary class=\"dialog-meta-summary\">Command details</summary><p id=\"command-description\">"
    ∷ escape_html (codes command.description)
    ∷ codes "</p><p><strong>Default args:</strong> <span id=\"command-default-args\">"
    ∷ escape_html (codes (display_args command.default_args))
    ∷ codes "</span></p><p id=\"command-extra-help\" class=\"muted\">"
    ∷ codes (
        if command.allow_extra_args
        then "Extra args are enabled for this command."
        else "Extra args are disabled for this command.")
    ∷ codes "</p></details>"
    ∷ [])
