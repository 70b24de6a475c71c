-- ===== src/Console/Pages/Handlers.antt =====
-- apps/command-server/src/console.rs: the handlers of five pages, without the scripts and the frame that
-- console_html puts around a body.
use ruchat.Prelude.{ℕ, String, Bool, true, false, Option, none, some, List, [], ◌∷◌}
use ruchat.Prelude.Lists.{length}
use ruchat.Prelude.Text.{trim}
use ruchat.Prelude.Result.{Result, ok, err}
use ruchat.Protocol.Domain.{NodeSnapshot, TaskSnapshot, SessionEvent, SessionEventKind}
use ruchat.Protocol.Codec.{Json}
use ruchat.Db.Rows.{DbError}
use ruchat.Db.Nodes.{list_nodes, get_node}
use ruchat.Db.Tasks.{list_tasks, list_recent_tasks, list_tasks_for_node}
use ruchat.Db.Events.{list_session_events, list_session_events_for_node}
use ruchat.Server.Api.{map_items}
use ruchat.Server.AppState.{AppState, has_valid_admin_session, enrich_node_snapshot}
use ruchat.Server.Cookies.{extract_admin_session_token}
use ruchat.Console.Escape.{codes, escape_html}
use ruchat.Console.Pages.Html.{concat}
use ruchat.Console.Pages.Tasks.{tasks_page_body}
use ruchat.Console.Pages.Nodes.{render_nodes_summary, render_nodes_rows}
use ruchat.Console.Pages.Workspace.{render_session_events}
use ruchat.Console.Pages.NodePage.{render_node_workspace}
use ruchat.Console.Pages.Filters.{
  normalize_query_value, parse_session_event_kind_value, render_session_events_summary,
  render_session_event_kind_options,
}
use ruchat.Console.Pages.Runtime.{
  render_runtime_summary_text, render_runtime_overview_cards, render_runtime_nodes_list,
  render_runtime_active_tasks, render_runtime_recent_results,
}

pub data PageRequest : Type 0 where
  nodes_page runtime_page tasks_page : PageRequest
  node_detail_page : String → PageRequest
  session_events_page : String → String → PageRequest

-- A redirect, a page with its body, the page that says that there is no such node or that a query is
-- not understood, or the page of an error of the store.
pub data PageResponse : Type 0 where
  redirect_to : String → PageResponse
  page : List ℕ → PageResponse
  no_node : PageResponse
  bad_query : String → PageResponse
  server_error : DbError → PageResponse

unfoldable pub nodes_page_body : List NodeSnapshot → List ℕ
nodes_page_body nodes = concat (
    codes "<section><h1>Nodes</h1><p id=\"nodes-summary\">"
    ∷ codes (render_nodes_summary nodes)
    ∷ codes
        "</p><table><thead><tr><th>Node</th><th>Status</th><th>Hostname</th><th>Platform</th><th>Commands</th><th>Last Seen</th></tr></thead><tbody id=\"nodes-table-body\">"
    ∷ render_nodes_rows nodes
    ∷ codes "</tbody></table></section>"
    ∷ [])

unfoldable pub runtime_page_body :
    List NodeSnapshot → List TaskSnapshot → List SessionEvent → List ℕ
runtime_page_body nodes tasks events = concat (
    codes "<section><h1>Runtime</h1><p id=\"runtime-summary\">"
    ∷ codes (render_runtime_summary_text nodes tasks events)
    ∷ codes "</p><div id=\"runtime-overview\" class=\"runtime-overview-grid\">"
    ∷ render_runtime_overview_cards nodes tasks events
    ∷ codes
        "</div><div class=\"runtime-monitor-grid\"><article class=\"runtime-panel\"><div class=\"runtime-panel-head\"><div><p class=\"eyebrow\">Nodes</p><h2>Online Nodes</h2></div><div class=\"pane-meta\">auto refresh 3s</div></div><div id=\"runtime-nodes-list\" class=\"runtime-list\">"
    ∷ render_runtime_nodes_list nodes
    ∷ codes
        "</div></article><article class=\"runtime-panel\"><div class=\"runtime-panel-head\"><div><p class=\"eyebrow\">Tasks</p><h2>Active Tasks</h2></div><a class=\"runtime-mini-link\" href=\"/console/tasks\">open tasks</a></div><div id=\"runtime-active-tasks\" class=\"runtime-list\">"
    ∷ render_runtime_active_tasks tasks
    ∷ codes
        "</div></article><article class=\"runtime-panel runtime-panel-wide\"><div class=\"runtime-panel-head\"><div><p class=\"eyebrow\">Session</p><h2>Recent Session Events</h2></div><a class=\"runtime-mini-link\" href=\"/console/session-events\">open events</a></div><div id=\"runtime-session-events\" class=\"session-events-list global-feed\">"
    ∷ render_session_events events true
    ∷ codes
        "</div></article><article class=\"runtime-panel runtime-panel-wide\"><div class=\"runtime-panel-head\"><div><p class=\"eyebrow\">Results</p><h2>Latest Task Outcomes</h2></div><a class=\"runtime-mini-link\" href=\"/console/tasks\">open tasks</a></div><div id=\"runtime-recent-results\" class=\"runtime-list\">"
    ∷ render_runtime_recent_results tasks
    ∷ codes "</div></article></div></section>"
    ∷ [])

unfoldable pub session_events_page_body :
    String → String → Option SessionEventKind → List SessionEvent → List ℕ
session_events_page_body node_id kind_text kind events = concat (
    codes "<section><h1>Session Events</h1><p id=\"session-events-summary\">"
    ∷ codes (render_session_events_summary (normalize_query_value node_id) kind (length events))
    ∷ codes
        "</p><form id=\"session-events-filters\" class=\"session-filter-bar\" method=\"get\" action=\"/console/session-events\"><label>Node ID<input id=\"session-filter-node-id\" name=\"node_id\" value=\""
    ∷ escape_html (codes (trim node_id))
    ∷ codes
        "\" placeholder=\"node-1\"></label><label>Event Kind<select id=\"session-filter-kind\" name=\"kind\">"
    ∷ render_session_event_kind_options (trim kind_text)
    ∷ codes
        "</select></label><button type=\"submit\">Apply</button></form><div id=\"session-events-list\" class=\"session-events-list global-feed\">"
    ∷ render_session_events events true
    ∷ codes "</div></section>"
    ∷ [])

-- `match … { Ok(…) => …, Err(error) => return server_error_response(error) }`
abbrev pub or_error : {A : Type 0} → Result DbError A → (A → PageResponse) → PageResponse
or_error (ok a) next = next a
or_error (err error) next = PageResponse.server_error error

abbrev pub or_no_node : Option NodeSnapshot → (NodeSnapshot → PageResponse) → PageResponse
or_no_node none next = PageResponse.no_node
or_no_node (some node) next = next node

abbrev pub or_bad_query :
    Result String (Option SessionEventKind)
    → (Option SessionEventKind → PageResponse)
    → PageResponse
or_bad_query (ok kind) next = next kind
or_bad_query (err message) next = PageResponse.bad_query message

module _ (json : Json) where
  unfoldable pub show_page : PageRequest → AppState → PageResponse
  show_page PageRequest.nodes_page state =
      or_error (list_nodes json state.db) (λ nodes.
        PageResponse.page (nodes_page_body (map_items (enrich_node_snapshot state) nodes)))
  show_page PageRequest.runtime_page state = or_error (list_nodes json state.db) (λ nodes.
      or_error (list_recent_tasks json 20 state.db) (λ tasks.
        or_error (list_session_events none none 12 state.db) (λ events.
          PageResponse.page
            (runtime_page_body (map_items (enrich_node_snapshot state) nodes) tasks events))))
  show_page PageRequest.tasks_page state =
      or_error (list_tasks json state.db) (λ tasks. PageResponse.page (tasks_page_body tasks))
  show_page (PageRequest.node_detail_page node_id) state =
      or_error (get_node json state.db node_id) (λ found. or_no_node found (λ node.
        or_error (list_tasks_for_node json node.node_id 20 state.db) (λ tasks.
          or_error (list_session_events_for_node node.node_id 8 state.db) (λ events.
            PageResponse.page
              (render_node_workspace (enrich_node_snapshot state node) tasks events)))))
  show_page (PageRequest.session_events_page node_id kind_text) state =
      or_bad_query (parse_session_event_kind_value kind_text) (λ kind.
        or_error (list_session_events (normalize_query_value node_id) kind 40 state.db)
          (λ events. PageResponse.page (session_events_page_body node_id kind_text kind events)))

  abbrev pub page_after : PageRequest → Bool × AppState → PageResponse × AppState
  page_after request (true, state) = (show_page request state, state)
  page_after request (false, state) = (PageResponse.redirect_to "/console/login", state)

  unfoldable pub get_page : ℕ → Option String → PageRequest → AppState → PageResponse × AppState
  unfolding show_page
  get_page checked_at headers request state =
      page_after request
        (has_valid_admin_session checked_at (extract_admin_session_token headers) state)
