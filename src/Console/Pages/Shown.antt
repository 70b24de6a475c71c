-- ===== src/Console/Pages/Shown.antt =====
-- apps/command-server/src/console.rs: what the handlers of the pages answer on a sound store.
mod Kinds
mod Lists
mod Tests
use ruchat.Console.Pages.Texts.{concat_text}
use ruchat.Console.Pages.NodePage.{render_node_workspace}
use ruchat.Console.Pages.Tasks.{tasks_page_body}
use ruchat.Server.Api.{map_items}
use ruchat.Prelude.Text.{trim}
use ruchat.Prelude.{
  ◌≡◌, Bool-cases, Option, none, some, List, [], ◌∷◌, is_some, ◌⊎◌, eq_iff, str_eq,
}
use ruchat.Prelude.Lists.{select, order_by, find}
use ruchat.Prelude.Orders.{All-order_by}
use ruchat.Prelude.Result.{Result, ok, err, ◌>>=◌, map_err}
use ruchat.Protocol.Domain.{
  NodeSnapshot, TaskSnapshot, SessionEvent, SessionEventKind, connect_rejected, auth_failed,
  session_opened, node_registered, session_closed,
}
use ruchat.Protocol.Codec.{Json}
use ruchat.Db.Rows.{Db, DbError, NodeRow, TaskRow, EventRow, is_node}
use ruchat.Db.Text.{session_event_kind_from_str, session_event_kind_to_str}
use ruchat.Db.Read.{read_all, limit_rows, read_task, read_node, read_session_event}
use ruchat.Db.Nodes.{list_nodes, node_before}
use ruchat.Db.Tasks.{
  list_tasks, list_recent_tasks, list_tasks_for_node, older_task, newer_task, of_node,
}
use ruchat.Db.Events.{list_session_events, list_session_events_for_node, newer_event, event_filter}
use ruchat.Db.Listings.{All-limit_rows}
use ruchat.Db.Lifecycle.{IsSound}
use ruchat.Db.Sound.{Readable}
use ruchat.Db.Reading.{read_task_total, ShowsAll, Ascending}
use ruchat.Server.AppState.{AppState, enrich_node_snapshot}
use ruchat.Console.Pages.Filters.{normalize_query_value, parse_session_event_kind_value}
use ruchat.Console.Pages.Shown.Kinds.{Named}
use ruchat.Console.Pages.Handlers.{
  PageRequest, PageResponse, or_error, or_no_node, or_bad_query, nodes_page_body, runtime_page_body,
  session_events_page_body,
}

-- The answer to the administrator: its body is the page of what the store lists.
abbrev pub Presents : Json → AppState → PageRequest → PageResponse → Type 0
Presents json state PageRequest.nodes_page answer =
    (nodes : List NodeSnapshot) × (list_nodes json state.db ≡ ok nodes)
    × (answer ≡ PageResponse.page (nodes_page_body (map_items (enrich_node_snapshot state) nodes)))
Presents json state PageRequest.runtime_page answer =
    (nodes : List NodeSnapshot) × (tasks : List TaskSnapshot) × (events : List SessionEvent)
    × (list_nodes json state.db ≡ ok nodes)
    × (list_recent_tasks json 20 state.db ≡ ok tasks)
    × (list_session_events none none 12 state.db ≡ ok events)
    × (answer
        ≡ PageResponse.page
            (runtime_page_body (map_items (enrich_node_snapshot state) nodes) tasks events))
Presents json state PageRequest.tasks_page answer =
    (tasks : List TaskSnapshot) × ShowsAll json state.db.tasks tasks
    × Ascending json 0 tasks
    × (answer ≡ PageResponse.page (tasks_page_body tasks))
Presents json state (PageRequest.node_detail_page node_id) answer =
    (find (is_node node_id) state.db.nodes ≡ none) × (answer ≡ PageResponse.no_node)
    ⊎ ((row : NodeRow) × (node : NodeSnapshot) × (tasks : List TaskSnapshot) × (events : List
          SessionEvent)
        × (find (is_node node_id) state.db.nodes ≡ some row)
        × (read_node json row ≡ ok node)
        × (list_tasks_for_node json node.node_id 20 state.db ≡ ok tasks)
        × (list_session_events_for_node node.node_id 8 state.db ≡ ok events)
        × (answer
            ≡ PageResponse.page
                (render_node_workspace (enrich_node_snapshot state node) tasks events)))
Presents json state (PageRequest.session_events_page node_id kind_text) answer =
    ((kind : Option SessionEventKind) → Named (trim kind_text) kind → ⊥)
      × (answer
          ≡ PageResponse.bad_query
              (concat_text ("unknown session event kind: " ∷ trim kind_text ∷ [])))
    ⊎ ((kind : Option SessionEventKind) × (events : List SessionEvent) × Named (trim kind_text) kind
        × (list_session_events (normalize_query_value node_id) kind 40 state.db ≡ ok events)
        × (answer ≡ PageResponse.page (session_events_page_body node_id kind_text kind events)))
